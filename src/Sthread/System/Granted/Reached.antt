-- ===== src/Sthread/System/Granted/Reached.antt =====
-- Every system call that is passed on had been granted.
use vmpl_apps.Base.{ℕ, ◌≡◌, List, [], ◌∷◌, All}
use vmpl_apps.Sthread.Kernel.{World, Kernel, Space}
use vmpl_apps.Sthread.Handler.{Exit, syscall_handler}
use vmpl_apps.Sthread.Master.{sthread_create, sthread_join}
use vmpl_apps.Sthread.System.{
  System, Caller, Step, computes, returns, switches, leaves, creates, joins, waits_for, Reach, here,
  later, after_jump,
}
use vmpl_apps.Sthread.System.Granted.Threads.{IsAuthorised, IsSaved, AllBut, All-AllBut}
use vmpl_apps.Sthread.System.Granted.Calls.{holds_of, Post, IsLogged}
use vmpl_apps.Sthread.System.Granted.Handled.{syscall_handler-Post}
use vmpl_apps.Sthread.System.Granted.Creation.{JoinPost, sthread_create-Post, sthread_join-Post}

module _ (w : World) where
  -- In the main program no frame is left out; in a run that of the current compartment is.
  AtHome : (callers : List Caller) → Kernel → Type 0
  AtHome [] k = All (IsSaved w) k.ks_sthreads
  AtHome (c ∷ cs) k = AllBut w k.ks_current k.ks_sthreads

  Inv : System → Type 0
  Inv s = IsLogged w s.kernel × AtHome s.callers s.kernel

  at_home : (cs : List Caller) (k : Kernel) → All (IsSaved w) k.ks_sthreads → AtHome cs k
  unfolding AtHome
  at_home [] k a = a
  at_home (c ∷ cs) k a = All-AllBut w k.ks_current k.ks_sthreads a

  at_space :
      (cs : List Caller) (k : Kernel) (sp : Space)
      → AtHome cs k
      → AtHome cs (record k { space = sp })
  unfolding AtHome
  at_space [] k sp a = a
  at_space (c ∷ cs) k sp a = a

  Step-Inv : {s t : System} → Step w s t → Inv s → Inv t
  unfolding Inv AtHome
  Step-Inv {s} (computes sp) i = (i.0, at_space s.callers s.kernel sp i.1)
  Step-Inv {s} (returns tf tf' c cs run e) i =
      holds_of (Post w) (syscall_handler w tf s.kernel)
        (syscall_handler-Post w s.kernel i.0 tf (rw run at i.1)) e
  Step-Inv {s} (switches tf tf' c cs run e) i =
      holds_of (Post w) (syscall_handler w tf s.kernel)
        (syscall_handler-Post w s.kernel i.0 tf (rw run at i.1)) e
  Step-Inv {s} (leaves tf status k c {cs = cs} run e) i =
      let h =
        holds_of (Post w) (syscall_handler w tf s.kernel)
          (syscall_handler-Post w s.kernel i.0 tf (rw run at i.1)) e in
      (h.0, at_home cs (after_jump w k) h.1)
  Step-Inv {s} (creates sc cb arg id tf main e) i =
      holds_of (λ (r : ℕ × Exit). Post w r.1) (sthread_create w sc cb arg s.kernel)
        (sthread_create-Post w sc cb arg s.kernel (i.0, rw main at i.1)) e
  Step-Inv {s} (joins st value main e) i =
      holds_of (JoinPost w) (sthread_join w st s.kernel)
        (sthread_join-Post w st s.kernel (i.0, rw main at i.1)) e
  Step-Inv {s} (waits_for st tf main e) i =
      holds_of (JoinPost w) (sthread_join w st s.kernel)
        (sthread_join-Post w st s.kernel (i.0, rw main at i.1)) e

  Reach-Inv : {s t : System} → Reach w s t → Inv s → Inv t
  Reach-Inv here i = i
  Reach-Inv (later r st) i = Step-Inv st (Reach-Inv r i)

  -- From a state of the main program with no compartment, and with nothing passed on that was
  -- not granted: after any steps, in which compartments make any system calls with any frames,
  -- change memory but no record of the monitor, are scheduled, end and are made and joined,
  -- every system call that was passed to the kernel had been granted to its compartment, and so
  -- was the right to read for the descriptor of a read and the right to write for that of a
  -- write or close; and every file was opened by a compartment that may make the call.
  pub passes_granted :
      {s t : System}
      → s.callers ≡ []
      → s.kernel.ks_sthreads ≡ []
      → All (IsAuthorised w) s.kernel.log
      → Reach w s t
      → All (IsAuthorised w) t.kernel.log
  unfolding Inv AtHome
  passes_granted {s} main none_yet fresh r = (Reach-Inv r (fresh, rw main (rw none_yet tt))).0
