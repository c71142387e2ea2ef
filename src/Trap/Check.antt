-- ===== src/Trap/Check.antt =====
-- sandbox/src/trap.c, syscall_check_params: which memory references of a system call are checked.
pub mod Sound
mod Tests
use vmpl_apps.Base.{
  ℕ, ◌+◌, ◌-◌, ◌*◌, ◌/◌, ◌%◌, ◌^◌, Bool, true, false, ◌&&◌, ◌||◌, ltb, ◌==◌, ◌!=◌, if◌then◌else◌,
}
use vmpl_apps.Base.Words.{word_mod, neg}
use vmpl_apps.Base.Linux.{
  efault, f_dupfd, f_getfd, f_setfd, f_getfl, f_setfl, f_getlk, f_setlk, f_setlkw, f_setown,
  f_getown, f_dupfd_cloexec, arch_get_fs, sizeof_utsname, sizeof_long, sizeof_stat, sizeof_statfs,
  sizeof_time_t, sizeof_epoll_event, sizeof_flock, sizeof_gid_t, sizeof_sigaction, sizeof_sigset_t,
  sizeof_siginfo_t, sizeof_timespec, sizeof_rlimit, sizeof_off_t, sizeof_socklen_t,
}
use vmpl_apps.Host.{Platform}
use vmpl_apps.Mem.{Memory, check_extent, check_string, check_iovec}
use vmpl_apps.Trap.Frame.{Tf}
use vmpl_apps.Trap.Sys.{Sys, sys_of}

-- What the `switch` leaves in `ptr`, `len`, `str` and `err`; an early `return -1` with its `rax`; a
-- failed `assert`.
pub data Verdict : Type 0 where
  refs : (ptr len str err : ℕ) → Verdict
  refuse : (rax : ℕ) → Verdict
  abort : Verdict

-- `_IOC_DIR` and `_IOC_SIZE`.
ioc_dir : ℕ → ℕ
ioc_dir nr = nr / 2 ^ 30 % 4

ioc_size : ℕ → ℕ
ioc_size nr = nr / 2 ^ 16 % 2 ^ 14

module _ (pl : Platform) (mem : Memory) where
  check_accept : Tf → Verdict
  check_accept tf =
      if tf.arg2 != 0
      then if check_extent pl tf.arg2 sizeof_socklen_t != 0
        then refs 0 0 0 (neg efault)
        else if tf.arg1 == 0
        then abort
        else refs tf.arg1 (mem.load32 tf.arg2) 0 0
      else refs 0 0 0 0

  check_fcntl : Tf → Verdict
  check_fcntl tf =
      let cmd = tf.arg1 in
      if cmd == f_dupfd
        || cmd == f_dupfd_cloexec
        || cmd == f_getfd
        || cmd == f_setfd
        || cmd == f_getfl
        || cmd == f_setfl
        || cmd == f_getown
        || cmd == f_setown
      then refs 0 0 0 0
      else if cmd == f_setlkw || cmd == f_getlk || cmd == f_setlk
      then refs tf.arg2 sizeof_flock 0 0
      else refs 0 0 0 (neg efault)

  -- An extra reference whose failure returns at once.
  check_extra : (ptr len : ℕ) → Verdict → Verdict
  check_extra ptr len next = if check_extent pl ptr len != 0 then refuse (neg efault) else next

  -- The last labels of the `switch`, and `default`.
  check_other : Sys → Tf → Verdict
  check_other Sys.getcwd tf = refs tf.arg0 tf.arg1 0 0
  check_other Sys.getrlimit tf = refs tf.arg1 sizeof_rlimit 0 0
  check_other Sys.sendfile tf = refs tf.arg2 sizeof_off_t 0 0
  check_other Sys.close tf = if ltb tf.arg0 3 then refuse 0 else refs 0 0 0 0
  check_other Sys.execve tf =
      if check_string pl mem tf.arg0 != 0 then refs 0 0 0 (neg efault) else refs 0 0 0 0
  check_other _ tf = refs 0 0 0 0

  -- The labels about signals.
  check_signals : Sys → Tf → Verdict
  check_signals Sys.rt_sigaction tf =
      let next = refs tf.arg1 sizeof_sigaction 0 0 in
      if tf.arg2 != 0 then check_extra tf.arg2 sizeof_sigaction next else next
  check_signals Sys.sigaltstack tf = refs tf.arg1 sizeof_sigset_t 0 0
  check_signals Sys.signalfd tf = refs tf.arg1 sizeof_sigset_t 0 0
  check_signals Sys.signalfd4 tf = refs tf.arg1 sizeof_sigset_t 0 0
  check_signals Sys.rt_sigpending tf = refs tf.arg0 sizeof_sigset_t 0 0
  check_signals Sys.rt_sigprocmask tf =
      let next = if tf.arg1 != 0 then refs tf.arg1 sizeof_sigset_t 0 0 else refs 0 0 0 0 in
      if tf.arg2 != 0 then check_extra tf.arg2 sizeof_sigset_t next else next
  check_signals Sys.rt_sigsuspend tf = refs tf.arg0 sizeof_sigset_t 0 0
  check_signals Sys.rt_sigqueueinfo tf = refs tf.arg1 sizeof_siginfo_t 0 0
  check_signals Sys.rt_sigtimedwait tf =
      let next = refs 0 0 0 0 in
      check_extra tf.arg0 sizeof_siginfo_t (
        check_extra tf.arg1 sizeof_siginfo_t
          (if tf.arg2 != 0 then check_extra tf.arg2 sizeof_timespec next else next))
  check_signals c tf = check_other c tf

  -- The first labels, on files and sockets.
  check_files : Sys → Tf → Verdict
  check_files Sys.uname tf = refs tf.arg0 sizeof_utsname 0 0
  check_files Sys.arch_prctl tf =
      if tf.arg0 == arch_get_fs then refs tf.arg1 sizeof_long 0 0 else refs 0 0 0 0
  check_files Sys.access tf = refs 0 0 tf.arg0 0
  check_files Sys.open_file tf = refs 0 0 tf.arg0 0
  check_files Sys.unlink tf = refs 0 0 tf.arg0 0
  check_files Sys.openat tf = refs 0 0 tf.arg1 0
  check_files Sys.getdents tf = refs tf.arg1 tf.arg2 0 0
  check_files Sys.read tf = refs tf.arg1 tf.arg2 0 0
  check_files Sys.write tf = refs tf.arg1 tf.arg2 0 0
  check_files Sys.connect tf = refs tf.arg1 tf.arg2 0 0
  check_files Sys.bind tf = refs tf.arg1 tf.arg2 0 0
  check_files Sys.writev tf = refs 0 0 0 (check_iovec pl mem tf.arg1 tf.arg2)
  check_files Sys.readv tf = refs 0 0 0 (check_iovec pl mem tf.arg1 tf.arg2)
  check_files Sys.stat tf = refs tf.arg1 sizeof_stat tf.arg0 0
  check_files Sys.lstat tf = refs tf.arg1 sizeof_stat tf.arg0 0
  check_files Sys.fstat tf = refs tf.arg1 sizeof_stat 0 0
  check_files Sys.statfs tf = refs tf.arg1 sizeof_statfs tf.arg0 0
  check_files Sys.time tf = refs tf.arg0 sizeof_time_t 0 0
  check_files Sys.epoll_ctl tf = refs tf.arg3 sizeof_epoll_event 0 0
  check_files Sys.epoll_wait tf = refs tf.arg1 (tf.arg2 * sizeof_epoll_event % word_mod) 0 0
  check_files Sys.setsockopt tf = refs tf.arg3 tf.arg4 0 0
  check_files Sys.accept tf = check_accept tf
  check_files Sys.fcntl tf = check_fcntl tf
  check_files Sys.ioctl tf =
      if ioc_dir tf.arg1 != 0 then refs tf.arg2 (ioc_size tf.arg1) 0 0 else refs 0 0 0 0
  check_files Sys.setgroups tf = refs tf.arg1 (sizeof_gid_t * tf.arg0 % word_mod) 0 0
  check_files c tf = check_signals c tf

  -- The tests behind the `switch`.
  check_verdict : Verdict → Tf → Verdict
  check_verdict (refs ptr len str err) tf =
      let err' = if ptr != 0 && len != 0 && check_extent pl ptr len != 0 then neg efault else err in
      let err'' = if str != 0 && check_string pl mem str != 0 then neg efault else err' in
      if err'' != 0 then refuse err'' else refs ptr len str 0
  check_verdict v tf = v

  pub syscall_check_params : Tf → Verdict
  unfolding check_files check_signals check_other check_verdict
  syscall_check_params tf = check_verdict (check_files (sys_of tf.rax) tf) tf
