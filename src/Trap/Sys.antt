-- ===== src/Trap/Sys.antt =====
-- The system calls that sandbox/src/trap.c names, with their numbers on Linux x86-64.
use vmpl_apps.Base.{ℕ, List, [], ◌∷◌, ◌==◌, if◌then◌else◌}

pub data Sys : Type 0 where
  read write open_file close stat fstat lstat lseek mmap mprotect munmap brk rt_sigaction
        rt_sigprocmask rt_sigreturn ioctl readv writev access mremap shmat dup2 getpid sendfile
        socket connect accept shutdown bind listen setsockopt clone execve exit uname fcntl getdents
        getcwd unlink getrlimit getuid getgid setuid setgid setgroups rt_sigpending rt_sigtimedwait
        rt_sigqueueinfo rt_sigsuspend sigaltstack statfs arch_prctl time epoll_create exit_group
        epoll_wait epoll_ctl openat signalfd signalfd4 other :
      Sys

abbrev sys_numbers : List (ℕ × Sys)
sys_numbers =
    (0, read)
    ∷ (1, write)
    ∷ (2, open_file)
    ∷ (3, close)
    ∷ (4, stat)
    ∷ (5, fstat)
    ∷ (6, lstat)
    ∷ (8, lseek)
    ∷ (9, mmap)
    ∷ (10, mprotect)
    ∷ (11, munmap)
    ∷ (12, brk)
    ∷ (13, rt_sigaction)
    ∷ (14, rt_sigprocmask)
    ∷ (15, rt_sigreturn)
    ∷ (16, ioctl)
    ∷ (19, readv)
    ∷ (20, writev)
    ∷ (21, access)
    ∷ (25, mremap)
    ∷ (30, shmat)
    ∷ (33, dup2)
    ∷ (39, getpid)
    ∷ (40, sendfile)
    ∷ (41, socket)
    ∷ (42, connect)
    ∷ (43, accept)
    ∷ (48, shutdown)
    ∷ (49, bind)
    ∷ (50, listen)
    ∷ (54, setsockopt)
    ∷ (56, clone)
    ∷ (59, execve)
    ∷ (60, exit)
    ∷ (63, uname)
    ∷ (72, fcntl)
    ∷ (78, getdents)
    ∷ (79, getcwd)
    ∷ (87, unlink)
    ∷ (97, getrlimit)
    ∷ (102, getuid)
    ∷ (104, getgid)
    ∷ (105, setuid)
    ∷ (106, setgid)
    ∷ (116, setgroups)
    ∷ (127, rt_sigpending)
    ∷ (128, rt_sigtimedwait)
    ∷ (129, rt_sigqueueinfo)
    ∷ (130, rt_sigsuspend)
    ∷ (131, sigaltstack)
    ∷ (137, statfs)
    ∷ (158, arch_prctl)
    ∷ (201, time)
    ∷ (213, epoll_create)
    ∷ (231, exit_group)
    ∷ (232, epoll_wait)
    ∷ (233, epoll_ctl)
    ∷ (257, openat)
    ∷ (282, signalfd)
    ∷ (289, signalfd4)
    ∷ []

sys_lookup : ℕ → List (ℕ × Sys) → Sys
sys_lookup n [] = other
sys_lookup n ((k, c) ∷ r) = if n == k then c else sys_lookup n r

-- The label of `switch (tf->rax)` that a number reaches; `other` is `default`.
unfoldable pub sys_of : ℕ → Sys
unfolding sys_lookup
sys_of n = sys_lookup n sys_numbers
