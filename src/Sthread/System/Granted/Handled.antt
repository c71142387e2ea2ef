-- ===== src/Sthread/System/Granted/Handled.antt =====
-- The system call handler as a whole.
use vmpl_apps.Base.{
  arith, ℕ, ◌≡◌, Bool, true, false, Option, none, some, refl, sym, Bool-cases, inl, inr,
}
use vmpl_apps.Base.Words.{low32}
use vmpl_apps.Sthread.{Result, ok, stopped, undefined}
use vmpl_apps.Sthread.Perms.{Sc, can_do_sys, has_fd_perm}
use vmpl_apps.Sthread.Kernel.{World, Kernel, Regs, Sthread, thread_at}
use vmpl_apps.Sthread.Handler.{
  fd_check, check_memory, mem_check, fds_checked, sys_checked, null_checked, current_checked,
  syscall_handler,
}
use vmpl_apps.Sthread.System.Granted.Threads.{HasRights, AllBut, thread_at-self}
use vmpl_apps.Sthread.System.Granted.Calls.{Holds, Post, IsLogged, memory_checked-Post}

-- What the check of the descriptor comes to.
abbrev IsPassed : Sc → Option (ℕ × ℕ) → Type 0
IsPassed sc none = Unit
IsPassed sc (some (fd, perm)) = has_fd_perm sc fd perm ≡ true

module _ (w : World) where
  needs :
      (tf : Regs) (sc : Sc) (o : Option (ℕ × ℕ))
      → fd_check w (low32 tf.rax) tf ≡ o
      → IsPassed sc o
      → HasRights sc tf
  unfolding fd_check
  needs tf sc o e h = ground arith

module _ (w : World) (k : Kernel) (auth : IsLogged w k) where
  module _ (s : Sthread) (tf : Regs) (saved : AllBut w s.self k.ks_sthreads)
      (cur : s.self ≡ k.ks_current) where
    fds_checked-Post :
        (o : Option (ℕ × ℕ))
        → can_do_sys s.st_sc (low32 tf.rax) ≡ ok true
        → fd_check w (low32 tf.rax) tf ≡ o
        → Holds (Post w) (fds_checked w (low32 tf.rax) s tf o k)
    unfolding fds_checked check_memory
    fds_checked-Post none c e =
        memory_checked-Post w _ tf refl s k auth saved cur (c, needs w tf s.st_sc none e tt)
          (mem_check w (low32 tf.rax) tf k)
    fds_checked-Post (some (fd, perm)) c e = elim (Bool-cases (has_fd_perm s.st_sc fd perm)) [
      | inl h ↦ rw h (
          memory_checked-Post w _ tf refl s k auth saved cur
            (c, needs w tf s.st_sc (some (fd, perm)) e h) (mem_check w (low32 tf.rax) tf k))
      | inr h ↦ rw h (auth, rw (sym cur) saved)
    ]

    sys_checked-Post :
        (r : Result Bool)
        → can_do_sys s.st_sc (low32 tf.rax) ≡ r
        → Holds (Post w) (sys_checked w (low32 tf.rax) s tf r k)
    unfolding sys_checked
    sys_checked-Post (ok true) e = fds_checked-Post (fd_check w (low32 tf.rax) tf) e refl
    sys_checked-Post (ok false) e = (auth, rw (sym cur) saved)
    sys_checked-Post stopped e = tt
    sys_checked-Post undefined e = tt

  null_checked-Post : (num : ℕ) (r : Result Bool) → Holds (Post w) (null_checked w num r k)
  unfolding null_checked
  null_checked-Post num stopped = tt
  null_checked-Post num _ = tt

  current_checked-Post :
      (tf : Regs) (o : Option Sthread)
      → AllBut w k.ks_current k.ks_sthreads
      → ((s : Sthread) → o ≡ some s → s.self ≡ k.ks_current)
      → Holds (Post w) (current_checked w tf o k)
  unfolding current_checked
  current_checked-Post tf none saved at = null_checked-Post (low32 tf.rax) _
  current_checked-Post tf (some s) saved at =
      sys_checked-Post s tf (rw (at s refl) saved) (at s refl) (can_do_sys s.st_sc (low32 tf.rax))
        refl

  pub syscall_handler-Post :
      (tf : Regs) → AllBut w k.ks_current k.ks_sthreads → Holds (Post w) (syscall_handler w tf k)
  unfolding syscall_handler
  syscall_handler-Post tf saved =
      current_checked-Post tf (thread_at k.ks_current k.ks_sthreads) saved
        (λ s e. thread_at-self k.ks_current k.ks_sthreads e)
