-- ===== src/Base/Linux.antt =====
-- Constants of the Linux x86-64 headers that the sources include (<errno.h>, <sys/mman.h>,
-- <sys/shm.h>, <fcntl.h>, <sched.h>, <asm/prctl.h>) and sizes of the structures that they declare.
use Prim.Native.Nat.{ℕ}

-- <errno.h>
abbrev pub eperm : ℕ
eperm = 1

abbrev pub enoexec : ℕ
enoexec = 8

abbrev pub enomem : ℕ
enomem = 12

abbrev pub eacces : ℕ
eacces = 13

abbrev pub efault : ℕ
efault = 14

abbrev pub einval : ℕ
einval = 22

abbrev pub enosys : ℕ
enosys = 38

-- <sys/mman.h>, <sys/shm.h>
abbrev pub prot_read : ℕ
prot_read = 1

abbrev pub prot_write : ℕ
prot_write = 2

abbrev pub prot_exec : ℕ
prot_exec = 4

abbrev pub map_private : ℕ
map_private = 2

abbrev pub map_fixed : ℕ
map_fixed = 0x10

abbrev pub map_anonymous : ℕ
map_anonymous = 0x20

abbrev pub map_hugetlb : ℕ
map_hugetlb = 0x40000

abbrev pub mremap_maymove : ℕ
mremap_maymove = 1

abbrev pub mremap_fixed : ℕ
mremap_fixed = 2

abbrev pub shm_rdonly : ℕ
shm_rdonly = 0o10000

-- <fcntl.h>
abbrev pub f_dupfd : ℕ
f_dupfd = 0

abbrev pub f_getfd : ℕ
f_getfd = 1

abbrev pub f_setfd : ℕ
f_setfd = 2

abbrev pub f_getfl : ℕ
f_getfl = 3

abbrev pub f_setfl : ℕ
f_setfl = 4

abbrev pub f_getlk : ℕ
f_getlk = 5

abbrev pub f_setlk : ℕ
f_setlk = 6

abbrev pub f_setlkw : ℕ
f_setlkw = 7

abbrev pub f_setown : ℕ
f_setown = 8

abbrev pub f_getown : ℕ
f_getown = 9

abbrev pub f_dupfd_cloexec : ℕ
f_dupfd_cloexec = 1030

-- <asm/prctl.h>, <linux/sched.h>
abbrev pub arch_set_fs : ℕ
arch_set_fs = 0x1002

abbrev pub arch_get_fs : ℕ
arch_get_fs = 0x1003

abbrev pub clone_settls : ℕ
clone_settls = 0x80000

abbrev pub clone_parent_settid : ℕ
clone_parent_settid = 0x100000

abbrev pub clone_child_cleartid : ℕ
clone_child_cleartid = 0x200000

-- Sizes of structures and types, in bytes
abbrev pub sizeof_utsname : ℕ
sizeof_utsname = 390

abbrev pub sizeof_long : ℕ
sizeof_long = 8

abbrev pub sizeof_stat : ℕ
sizeof_stat = 144

abbrev pub sizeof_statfs : ℕ
sizeof_statfs = 120

abbrev pub sizeof_time_t : ℕ
sizeof_time_t = 8

abbrev pub sizeof_epoll_event : ℕ
sizeof_epoll_event = 12

abbrev pub sizeof_flock : ℕ
sizeof_flock = 32

abbrev pub sizeof_gid_t : ℕ
sizeof_gid_t = 4

abbrev pub sizeof_sigaction : ℕ
sizeof_sigaction = 152

abbrev pub sizeof_sigset_t : ℕ
sizeof_sigset_t = 128

abbrev pub sizeof_siginfo_t : ℕ
sizeof_siginfo_t = 128

abbrev pub sizeof_timespec : ℕ
sizeof_timespec = 16

abbrev pub sizeof_rlimit : ℕ
sizeof_rlimit = 16

abbrev pub sizeof_off_t : ℕ
sizeof_off_t = 8

abbrev pub sizeof_socklen_t : ℕ
sizeof_socklen_t = 4
