-- ===== src/Trap/Thread/Handshake/Broken.antt =====
-- Runs of the handshake in which an object is used that is gone.
use vmpl_apps.Base.{ℕ, ◌≡◌, ◌<◌, refl, true, false, arith}
use vmpl_apps.Trap.Thread.Handshake.{Threads, Child, Step, Reach, start, later, Returns}

signals_destroyed :
    (tid : ℕ)
    → 0 < tid
    → (s : Threads) × Reach false tid s × Returns tid s × (s.child_at ≡ Child.undefined)
signals_destroyed tid pos =
    let stored =
      later (later (later start (Step.child_locks refl refl refl)) (Step.child_stores refl))
        (Step.child_unlocks refl refl) in
    let tested =
      later (later stored (Step.parent_locks refl refl)) (Step.parent_goes_on refl (omega arith)) in
    let destroyed =
      later (later (later tested (Step.parent_unlocks refl)) (Step.parent_destroys_mtx refl))
        (Step.parent_destroys_cnd refl) in
    (
      _,
      later (later destroyed (Step.parent_returns refl)) (Step.child_signals_destroyed refl refl),
      refl,
      refl,
    )

wakes_early :
    (tid : ℕ) → (s : Threads) × Reach true tid s × Returns 0 s × (s.child_at ≡ Child.undefined)
wakes_early tid =
    let waiting = later (later start (Step.parent_locks refl refl)) (Step.parent_waits refl refl) in
    let woken =
      later (later waiting (Step.parent_wakes refl refl)) (Step.parent_relocks refl refl) in
    let destroyed =
      later (later (later woken (Step.parent_unlocks refl)) (Step.parent_destroys_mtx refl))
        (Step.parent_destroys_cnd refl) in
    (
      _,
      later (later destroyed (Step.parent_returns refl)) (Step.child_locks_destroyed refl refl),
      refl,
      refl,
    )

-- For every positive thread identifier: there is a run without spurious wakeups in which the
-- parent returns it and the child signals a condition that is destroyed; and there is one with a
-- spurious wakeup in which the parent returns 0 and the child locks a mutex that is destroyed.
pub dune_pthread_create_breaks :
    (tid : ℕ)
    → 0 < tid
    → ((s : Threads) × Reach false tid s × Returns tid s × (s.child_at ≡ Child.undefined))
      × ((s : Threads) × Reach true tid s × Returns 0 s × (s.child_at ≡ Child.undefined))
dune_pthread_create_breaks tid pos = (signals_destroyed tid pos, wakes_early tid)
