-- ===== src/Sandbox/Released.antt =====
-- _syscall_mtx through a row of traps.
use vmpl_apps.Base.{ℕ, List, [], ◌∷◌}
use vmpl_apps.Host.{Platform, Host, Machine}
use vmpl_apps.Host.Mutex.{Mutex, IsAt}
use vmpl_apps.Trap.Handler.{Monitor, syscall_handler}
use vmpl_apps.Trap.Handler.Released.{
  IsReleased, bind-IsReleased, syscall_handler-IsReleased, pgflt_handler-IsReleased,
}
use vmpl_apps.Sandbox.{Trap, system_call, page_fault, handle, handle_all}

module _ (strlen : ℕ → ℕ) (pl : Platform) (h : Host) (monitor : Monitor) where
  handle-IsReleased :
      (t : Trap) (s : Machine) → IsAt Mutex.free s → IsReleased (handle strlen pl h monitor t s)
  unfolding handle
  handle-IsReleased (system_call mem tf) s i =
      bind-IsReleased (syscall_handler pl h mem monitor tf s) _
        (syscall_handler-IsReleased pl h mem monitor tf s i) (λ tf' s' i'. i')
  handle-IsReleased (page_fault addr fec tf) s i = pgflt_handler-IsReleased pl h addr fec tf s i

  -- From a state in which _syscall_mtx is free, under any monitor and after any system calls
  -- and page faults that follow each other: where the handlers return the mutex is free again,
  -- and where the process ends no thread has locked the mutex that it held or unlocked one that
  -- it did not hold. (A fault that comes while a handler runs is not covered.)
  pub handle_all-IsReleased :
      (traps : List Trap) (s : Machine)
      → IsAt Mutex.free s
      → IsReleased (handle_all strlen pl h monitor traps s)
  unfolding handle_all
  handle_all-IsReleased [] s i = i
  handle_all-IsReleased (t ∷ traps) s i =
      bind-IsReleased (handle strlen pl h monitor t s) _ (handle-IsReleased t s i)
        (λ u s' i'. handle_all-IsReleased traps s' i')
