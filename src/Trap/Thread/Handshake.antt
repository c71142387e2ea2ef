-- ===== src/Trap/Thread/Handshake.antt =====
-- sandbox/src/trap.c: the two threads that share the `struct thread_arg` of dune_pthread_create, from
-- the call of pthread_create to the return of the parent and the signal of the child.
pub mod Ranks
pub mod Ends
pub mod Broken
mod Runs
use vmpl_apps.Base.{ℕ, ◌≡◌, ◌≢◌, Bool, true}

-- The next thing that dune_pthread_create does: `waiting` is inside pthread_cond_wait, without the
-- mutex, and `woken` inside it before it has the mutex again.
pub data Parent : Type 0 where
  to_lock to_test waiting woken to_unlock to_destroy_mtx to_destroy_cnd to_read : Parent
  returned : (tid : ℕ) → Parent

-- The next thing that pthread_entry does, from its `tell parent tid` on; `entering` is
-- do_enter_thread. A thread is `undefined` behind a call on a mutex or a condition that the parent
-- has destroyed, which POSIX leaves undefined.
pub data Child : Type 0 where
  locks stores unlocks signals entering undefined : Child

pub data Holder : Type 0 where
  nobody parent child : Holder

-- The two threads, and the object on the stack of the parent.
pub record Threads : Type 0 where
  pub parent_at : Parent
  pub child_at : Child
  pub holder : Holder
  pub ta_tid : ℕ
  pub mtx_live : Bool
  pub cnd_live : Bool

-- Behind pthread_create.
abbrev pub created : Threads
created = record {
  parent_at = Parent.to_lock;
  child_at = Child.locks;
  holder = Holder.nobody;
  ta_tid = 0;
  mtx_live = Bool.true;
  cnd_live = Bool.true;
}

-- pthread_cond_signal lets the parent go on if it waits.
abbrev pub wake : Parent → Parent
wake Parent.waiting = Parent.woken
wake p = p

-- `spurious` is whether pthread_cond_wait may return without a signal; `tid` is that of the child.
pub data Step (spurious : Bool) (tid : ℕ) (s : Threads) : Threads → Type 0 where
  parent_locks :
      s.parent_at ≡ Parent.to_lock
      → s.holder ≡ Holder.nobody
      → Step spurious tid s (record s { parent_at = Parent.to_test; holder = Holder.parent })
  parent_waits :
      s.parent_at ≡ Parent.to_test
      → s.ta_tid ≡ 0
      → Step spurious tid s (record s { parent_at = Parent.waiting; holder = Holder.nobody })
  parent_goes_on :
      s.parent_at ≡ Parent.to_test
      → s.ta_tid ≢ 0
      → Step spurious tid s (record s { parent_at = Parent.to_unlock })
  parent_wakes :
      spurious ≡ true
      → s.parent_at ≡ Parent.waiting
      → Step spurious tid s (record s { parent_at = Parent.woken })
  parent_relocks :
      s.parent_at ≡ Parent.woken
      → s.holder ≡ Holder.nobody
      → Step spurious tid s (record s { parent_at = Parent.to_unlock; holder = Holder.parent })
  parent_unlocks :
      s.parent_at ≡ Parent.to_unlock
      → Step spurious tid s (record s { parent_at = Parent.to_destroy_mtx; holder = Holder.nobody })
  parent_destroys_mtx :
      s.parent_at ≡ Parent.to_destroy_mtx
      → Step spurious tid s (record s { parent_at = Parent.to_destroy_cnd; mtx_live = Bool.false })
  parent_destroys_cnd :
      s.parent_at ≡ Parent.to_destroy_cnd
      → Step spurious tid s (record s { parent_at = Parent.to_read; cnd_live = Bool.false })
  parent_returns :
      s.parent_at ≡ Parent.to_read
      → Step spurious tid s (record s { parent_at = Parent.returned s.ta_tid })
  child_locks :
      s.child_at ≡ Child.locks
      → s.mtx_live ≡ true
      → s.holder ≡ Holder.nobody
      → Step spurious tid s (record s { child_at = Child.stores; holder = Holder.child })
  child_locks_destroyed :
      s.child_at ≡ Child.locks
      → s.mtx_live ≡ Bool.false
      → Step spurious tid s (record s { child_at = Child.undefined })
  child_stores :
      s.child_at ≡ Child.stores
      → Step spurious tid s (record s { child_at = Child.unlocks; ta_tid = tid })
  child_unlocks :
      s.child_at ≡ Child.unlocks
      → s.mtx_live ≡ true
      → Step spurious tid s (record s { child_at = Child.signals; holder = Holder.nobody })
  child_unlocks_destroyed :
      s.child_at ≡ Child.unlocks
      → s.mtx_live ≡ Bool.false
      → Step spurious tid s (record s { child_at = Child.undefined })
  child_signals :
      s.child_at ≡ Child.signals
      → s.cnd_live ≡ true
      → Step spurious tid s (record s { child_at = Child.entering; parent_at = wake s.parent_at })
  child_signals_destroyed :
      s.child_at ≡ Child.signals
      → s.cnd_live ≡ Bool.false
      → Step spurious tid s (record s { child_at = Child.undefined })

pub data Reach (spurious : Bool) (tid : ℕ) : Threads → Type 0 where
  start : Reach spurious tid created
  later : {s t : Threads} → Reach spurious tid s → Step spurious tid s t → Reach spurious tid t

-- The parent returns from dune_pthread_create with `r`.
abbrev pub Returns : (r : ℕ) → Threads → Type 0
Returns r s = s.parent_at ≡ Parent.returned r
