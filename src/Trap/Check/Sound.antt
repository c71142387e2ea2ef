-- ===== src/Trap/Check/Sound.antt =====
-- What a system call may touch once syscall_check_params has let it pass.
use vmpl_apps.Base.{
  ◌/◌, ◌||◌, ℕ, ◌*◌, ◌%◌, ◌^◌, ◌<◌, ◌≡◌, ◌⊎◌, List, [], ◌∷◌, arith, if◌then◌else◌, ◌==◌,
}
use vmpl_apps.Base.Words.{word_mod, neg}
use vmpl_apps.Base.Linux.{
  efault, arch_get_fs, sizeof_utsname, sizeof_long, sizeof_stat, sizeof_statfs, sizeof_time_t,
  sizeof_epoll_event, sizeof_gid_t, sizeof_sigaction, sizeof_sigset_t, sizeof_siginfo_t,
  sizeof_flock, f_getlk, f_setlk, f_setlkw, sizeof_timespec, sizeof_rlimit, sizeof_off_t,
  sizeof_socklen_t,
}
use vmpl_apps.Host.{Platform}
use vmpl_apps.Mem.{Memory, check_string, check_iovec}
use vmpl_apps.Mem.Ranges.{IsAppRange, IsWrapped, check_iovec_values}
use vmpl_apps.Trap.Frame.{Tf}
use vmpl_apps.Trap.Sys.{Sys, sys_of}
use vmpl_apps.Trap.Check.{
  refuse, syscall_check_params, check_verdict, check_files, check_signals, check_other,
  check_accept, check_fcntl, check_extra,
}

-- A piece of memory that a system call reads or writes.
pub data Operand : Type 0 where
  -- `len` bytes; none at a null pointer
  buffer : (ptr len : ℕ) → Operand
  -- the same, where a null pointer is not excused
  required : (ptr len : ℕ) → Operand
  -- a string; none at a null pointer
  path : (ptr : ℕ) → Operand
  -- a string, where a null pointer is not excused
  program : (ptr : ℕ) → Operand
  -- an array of `struct iovec` and what its entries point to
  vector : (iov num : ℕ) → Operand

-- The operands of each call, from its manual page: the size of an ioctl's is in bits 16 to 29 of
-- the request, if bits 30 and 31 say that there is one. Not listed are the arrays of execve, and the
-- operands of calls that `Sys` does not name.
unfoldable pub operands : Memory → Sys → Tf → List Operand
operands mem Sys.read tf = buffer tf.arg1 tf.arg2 ∷ []
operands mem Sys.write tf = buffer tf.arg1 tf.arg2 ∷ []
operands mem Sys.getdents tf = buffer tf.arg1 tf.arg2 ∷ []
operands mem Sys.connect tf = buffer tf.arg1 tf.arg2 ∷ []
operands mem Sys.bind tf = buffer tf.arg1 tf.arg2 ∷ []
operands mem Sys.getcwd tf = buffer tf.arg0 tf.arg1 ∷ []
operands mem Sys.setsockopt tf = buffer tf.arg3 tf.arg4 ∷ []
operands mem Sys.readv tf = vector tf.arg1 tf.arg2 ∷ []
operands mem Sys.writev tf = vector tf.arg1 tf.arg2 ∷ []
operands mem Sys.open_file tf = path tf.arg0 ∷ []
operands mem Sys.openat tf = path tf.arg1 ∷ []
operands mem Sys.access tf = path tf.arg0 ∷ []
operands mem Sys.unlink tf = path tf.arg0 ∷ []
operands mem Sys.execve tf = program tf.arg0 ∷ []
operands mem Sys.stat tf = path tf.arg0 ∷ buffer tf.arg1 sizeof_stat ∷ []
operands mem Sys.lstat tf = path tf.arg0 ∷ buffer tf.arg1 sizeof_stat ∷ []
operands mem Sys.fstat tf = buffer tf.arg1 sizeof_stat ∷ []
operands mem Sys.statfs tf = path tf.arg0 ∷ buffer tf.arg1 sizeof_statfs ∷ []
operands mem Sys.uname tf = buffer tf.arg0 sizeof_utsname ∷ []
operands mem Sys.time tf = buffer tf.arg0 sizeof_time_t ∷ []
operands mem Sys.getrlimit tf = buffer tf.arg1 sizeof_rlimit ∷ []
operands mem Sys.sendfile tf = buffer tf.arg2 sizeof_off_t ∷ []
operands mem Sys.epoll_ctl tf = buffer tf.arg3 sizeof_epoll_event ∷ []
operands mem Sys.epoll_wait tf = buffer tf.arg1 (tf.arg2 * sizeof_epoll_event % word_mod) ∷ []
operands mem Sys.setgroups tf = buffer tf.arg1 (tf.arg0 * sizeof_gid_t % word_mod) ∷ []
operands mem Sys.accept tf =
    if tf.arg2 == 0
    then []
    else required tf.arg2 sizeof_socklen_t ∷ buffer tf.arg1 (mem.load32 tf.arg2) ∷ []
operands mem Sys.arch_prctl tf =
    if tf.arg0 == arch_get_fs then buffer tf.arg1 sizeof_long ∷ [] else []
operands mem Sys.rt_sigaction tf =
    buffer tf.arg1 sizeof_sigaction ∷ buffer tf.arg2 sizeof_sigaction ∷ []
operands mem Sys.rt_sigprocmask tf =
    buffer tf.arg1 sizeof_sigset_t ∷ buffer tf.arg2 sizeof_sigset_t ∷ []
operands mem Sys.rt_sigpending tf = buffer tf.arg0 sizeof_sigset_t ∷ []
operands mem Sys.rt_sigsuspend tf = buffer tf.arg0 sizeof_sigset_t ∷ []
operands mem Sys.rt_sigqueueinfo tf = buffer tf.arg1 sizeof_siginfo_t ∷ []
operands mem Sys.rt_sigtimedwait tf =
    required tf.arg0 sizeof_siginfo_t
    ∷ required tf.arg1 sizeof_siginfo_t
    ∷ buffer tf.arg2 sizeof_timespec
    ∷ []
operands mem Sys.signalfd tf = buffer tf.arg1 sizeof_sigset_t ∷ []
operands mem Sys.signalfd4 tf = buffer tf.arg1 sizeof_sigset_t ∷ []
operands mem Sys.fcntl tf =
    if tf.arg1 == f_getlk || tf.arg1 == f_setlk || tf.arg1 == f_setlkw
    then buffer tf.arg2 sizeof_flock ∷ []
    else []
operands mem Sys.ioctl tf =
    if tf.arg1 / 2 ^ 30 % 4 == 0 then [] else buffer tf.arg2 (tf.arg1 / 2 ^ 16 % 2 ^ 14) ∷ []
operands mem _ tf = []

module _ (pl : Platform) (mem : Memory) where
  abbrev pub IsHarmless : Operand → Type 0
  IsHarmless (buffer ptr len) = (ptr ≡ 0) ⊎ (len ≡ 0) ⊎ IsAppRange pl ptr len ⊎ IsWrapped pl ptr len
  IsHarmless (required ptr len) = IsAppRange pl ptr len ⊎ IsWrapped pl ptr len
  IsHarmless (path ptr) = (ptr ≡ 0) ⊎ (check_string pl mem ptr ≡ 0)
  IsHarmless (program ptr) = check_string pl mem ptr ≡ 0
  IsHarmless (vector iov num) = check_iovec pl mem iov num ≡ 0

-- The registers hold 64-bit words.
pub record IsFrame (tf : Tf) : Type 0 where
  pub word0 : tf.arg0 < 2 ^ 64
  pub word1 : tf.arg1 < 2 ^ 64
  pub word2 : tf.arg2 < 2 ^ 64
  pub word3 : tf.arg3 < 2 ^ 64
  pub word4 : tf.arg4 < 2 ^ 64

module _ (pl : Platform) (mem : Memory) where
  verdict_refuses :
      (c : Sys) (tf : Tf) {r : ℕ}
      → check_verdict pl mem (check_files pl mem c tf) tf ≡ refuse r
      → (r ≡ neg efault) ⊎ ((c ≡ Sys.close) × (tf.arg0 < 3) × (r ≡ 0))
  unfolding check_verdict check_files check_signals check_other check_accept check_extra check_fcntl
  verdict_refuses Sys.read tf e = ground arith
  verdict_refuses _ tf e = ground (arith, check_iovec_values pl mem tf.arg1 tf.arg2)

  -- A refused call leaves -EFAULT in rax, or it was a close of a descriptor below 3 and leaves
  -- 0.
  pub syscall_check_params_refuses :
      (tf : Tf) {r : ℕ}
      → syscall_check_params pl mem tf ≡ refuse r
      → (r ≡ neg efault) ⊎ ((sys_of tf.rax ≡ Sys.close) × (tf.arg0 < 3) × (r ≡ 0))
  unfolding syscall_check_params
  syscall_check_params_refuses tf e = verdict_refuses (sys_of tf.rax) tf e
