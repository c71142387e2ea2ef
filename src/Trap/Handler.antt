-- ===== src/Trap/Handler.antt =====
-- sandbox/src/trap.c: syscall_allow, syscall_do_foreal, syscall_do, syscall_handler, pgflt_handler
-- and boxer_register_syscall_monitor. Output, the dump of a frame and of /proc/self/maps are left out.
pub mod Safe
pub mod Released
pub mod Filtered
pub mod Registers
use vmpl_apps.Base.{
  ℕ, ◌%◌, ◌^◌, Bool, true, false, ◌&&◌, ◌||◌, not, Option, none, some, bit_or, ◌!=◌, ◌==◌,
  if◌then◌else◌,
}
use vmpl_apps.Base.Words.{neg, low32}
use vmpl_apps.Base.Linux.{eperm, efault, einval, enosys, arch_get_fs, arch_set_fs}
use vmpl_apps.Host.{
  Platform, Host, M, Machine, pure, ret, exit, ◌>>=◌, ◌>>◌, ask, tell, lock, unlock, store,
  get_user_fs, set_user_fs, ret_from_user, passthrough, vm_lookup, set_pte,
}
use vmpl_apps.Mem.{Memory}
use vmpl_apps.Exec.{exec_execev}
use vmpl_apps.Umm.{umm_brk, umm_mmap, umm_mprotect, umm_munmap, umm_mremap, umm_shmat}
use vmpl_apps.Trap.Frame.{Tf}
use vmpl_apps.Trap.Sys.{Sys, sys_of}
use vmpl_apps.Trap.Check.{Verdict, refs, refuse, abort, syscall_check_params}
use vmpl_apps.Trap.Thread.{dune_clone}

-- `_syscall_monitor`: a null pointer, or a function that gives its status and may change the frame.
abbrev pub Monitor : Type 0
Monitor = Option (Tf → Bool × Tf)

unfoldable pub boxer_register_syscall_monitor : (Tf → Bool × Tf) → Monitor
boxer_register_syscall_monitor cb = some cb

pub syscall_allow : Monitor → Tf → Bool × Tf
syscall_allow none tf = (false, record tf { rax = neg eperm })
syscall_allow (some monitor) tf = monitor tf

-- `tf->rax = m`.
abbrev set_rax : Tf → M ℕ → M Tf
set_rax tf m = do r ← m; pure (record tf { rax = r })

module _ (pl : Platform) (h : Host) where
  do_arch_prctl : Tf → M Tf
  do_arch_prctl tf =
      if tf.arg0 == arch_get_fs
      then (do fs ← ask h get_user_fs; tell h (store tf.arg1 fs); pure (record tf { rax = 0 }))
      else if tf.arg0 == arch_set_fs
      then (do tell h (set_user_fs tf.arg1); pure (record tf { rax = 0 }))
      else pure (record tf { rax = neg einval })

  do_passthrough : Tf → M Tf
  do_passthrough tf =
      set_rax tf (ask h (passthrough tf.rax tf.arg0 tf.arg1 tf.arg2 tf.arg3 tf.arg4 tf.arg5))

  do_exit : Tf → M Tf
  do_exit tf = do tell h (ret_from_user tf.arg0); pure tf

  do_call : Sys → Tf → M Tf
  do_call Sys.arch_prctl tf = do_arch_prctl tf
  do_call Sys.brk tf = set_rax tf (umm_brk pl h tf.arg0)
  do_call Sys.mmap tf =
      set_rax tf
        (umm_mmap pl h tf.arg0 tf.arg1 (low32 tf.arg2) (low32 tf.arg3) (low32 tf.arg4) tf.arg5)
  do_call Sys.mprotect tf = set_rax tf (umm_mprotect pl h tf.arg0 tf.arg1 tf.arg2)
  do_call Sys.munmap tf = set_rax tf (umm_munmap pl h tf.arg0 tf.arg1)
  do_call Sys.mremap tf =
      set_rax tf (umm_mremap pl h tf.arg0 tf.arg1 tf.arg2 (low32 tf.arg3) tf.arg4)
  do_call Sys.shmat tf = set_rax tf (umm_shmat pl h (low32 tf.arg0) tf.arg1 (low32 tf.arg2))
  do_call Sys.clone tf = set_rax tf (dune_clone h tf)
  do_call Sys.execve tf = set_rax tf (exec_execev h tf.arg0 tf.arg1 tf.arg2)
  do_call Sys.rt_sigaction tf = pure (record tf { rax = 0 })
  do_call Sys.rt_sigprocmask tf = pure (record tf { rax = 0 })
  do_call Sys.sigaltstack tf = pure (record tf { rax = neg enosys })
  do_call Sys.signalfd tf = pure (record tf { rax = neg enosys })
  do_call Sys.signalfd4 tf = pure (record tf { rax = neg enosys })
  do_call Sys.rt_sigpending tf = pure (record tf { rax = neg enosys })
  do_call Sys.rt_sigreturn tf = pure (record tf { rax = neg enosys })
  do_call Sys.rt_sigsuspend tf = pure (record tf { rax = neg enosys })
  do_call Sys.rt_sigqueueinfo tf = pure (record tf { rax = neg enosys })
  do_call Sys.rt_sigtimedwait tf = pure (record tf { rax = neg enosys })
  do_call Sys.exit_group tf = do_exit tf
  do_call Sys.exit tf = do_exit tf
  do_call _ tf = do_passthrough tf

  syscall_do_foreal : Tf → M Tf
  unfolding do_call do_arch_prctl do_passthrough do_exit
  syscall_do_foreal tf = do_call (sys_of tf.rax) tf

  pub need_lock : Sys → Bool
  need_lock Sys.mmap = true
  need_lock Sys.mprotect = true
  need_lock Sys.munmap = true
  need_lock _ = false

  -- `err` ends the process where the mutex fails.
  syscall_do : Tf → M Tf
  unfolding need_lock
  syscall_do tf =
      if need_lock (sys_of tf.rax)
      then (do
        r ← ask h lock
        if r != 0 then exit else do
          tf' ← syscall_do_foreal tf
          r' ← ask h unlock
          if r' != 0 then exit else pure tf')
      else syscall_do_foreal tf

  after_allow : Bool × Tf → M Tf
  after_allow (false, tf) = pure tf
  after_allow (true, tf) = syscall_do tf

  after_check : Monitor → Tf → Verdict → M Tf
  after_check monitor tf (refs ptr len str err) = after_allow (syscall_allow monitor tf)
  after_check monitor tf (refuse r) = pure (record tf { rax = r })
  after_check monitor tf abort = exit

  pub syscall_handler : Memory → Monitor → Tf → M Tf
  unfolding after_check after_allow syscall_allow
  syscall_handler mem monitor tf = after_check monitor tf (syscall_check_params pl mem tf)

  -- A fault of the application is reported and ends it; any other is given a page. `assert(!ret)`
  -- ends the process.
  unfoldable pub pgflt_handler : (addr fec : ℕ) → Tf → M (Unit {0})
  pgflt_handler addr fec tf = if tf.cs % 4 != 0 then tell h (ret_from_user (neg efault)) else do
    tell h lock
    r ← ask h (vm_lookup addr)
    if r != 0 then exit else do
      tell h (set_pte addr (bit_or (bit_or pl.pte_p pl.pte_w) (pl.pte_addr (h.va_to_pa addr))))
      tell h unlock
