-- ===== src/Sthread/System.antt =====
-- The whole of sthread.c as a system of steps. A run that dune_jump_to_user has started ends by
-- dune_ret_from_user and goes on behind the call: in a handler, or in the main program.
pub mod Granted
pub mod Launched
use vmpl_apps.Base.{ℕ, List, [], ◌∷◌, ◌≡◌}
use vmpl_apps.Sthread.Perms.{Sc}
use vmpl_apps.Sthread.Kernel.{World, Kernel, Regs, Space, ret}
use vmpl_apps.Sthread.Handler.{Exit, back, jump, leave, syscall_handler}
use vmpl_apps.Sthread.Master.{sthread_create, sthread_join, waits, joined, no_such}

-- Who waits for the end of a run.
pub data Caller : Type 0 where
  in_handler in_main : Caller

pub record System : Type 0 where
  pub kernel : Kernel
  pub callers : List Caller

module _ (w : World) where
  -- Behind dune_jump_to_user.
  abbrev pub after_jump : Kernel → Kernel
  after_jump k = record k { cr3 = w.pgroot; ks_current = 0 }

  -- The code of a compartment is left open: it changes memory and page tables (`computes`), but no
  -- record of the monitor, and makes
  -- any system call, with any frame. The main program runs while no run is under way, and makes any calls of sthread_create and sthread_join.
  pub data Step (s : System) : System → Type 0 where
    computes :
        (sp : Space)
        → Step s (record { kernel = record s.kernel { space = sp }; callers = s.callers })
    returns :
        (tf tf' : Regs) {k : Kernel} (c : Caller) (cs : List Caller)
        → s.callers ≡ c ∷ cs
        → syscall_handler w tf s.kernel ≡ ret (back tf') k
        → Step s (record { kernel = k; callers = c ∷ cs })
    switches :
        (tf tf' : Regs) {k : Kernel} (c : Caller) (cs : List Caller)
        → s.callers ≡ c ∷ cs
        → syscall_handler w tf s.kernel ≡ ret (jump tf') k
        → Step s (record { kernel = k; callers = in_handler ∷ c ∷ cs })
    leaves :
        (tf : Regs) (status : ℕ) (k : Kernel) (c : Caller) {cs : List Caller}
        → s.callers ≡ c ∷ cs
        → syscall_handler w tf s.kernel ≡ ret (leave status) k
        → Step s (record { kernel = after_jump k; callers = cs })
    creates :
        (sc : Sc) (cb arg id : ℕ) (tf : Regs) {k : Kernel}
        → s.callers ≡ []
        → sthread_create w sc cb arg s.kernel ≡ ret (id, jump tf) k
        → Step s (record { kernel = k; callers = in_main ∷ [] })
    joins :
        (st value : ℕ) {k : Kernel}
        → s.callers ≡ []
        → sthread_join w st s.kernel ≡ ret (joined value) k
        → Step s (record { kernel = k; callers = [] })
    waits_for :
        (st : ℕ) (tf : Regs) {k : Kernel}
        → s.callers ≡ []
        → sthread_join w st s.kernel ≡ ret (waits (jump tf)) k
        → Step s (record { kernel = k; callers = in_main ∷ [] })

  pub data Reach (s : System) : System → Type 0 where
    here : Reach s s
    later : {t u : System} → Reach s t → Step t u → Reach s u
