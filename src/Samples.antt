-- ===== src/Samples.antt =====
-- A platform, a kernel and states on which the witnesses of the other modules run.
use vmpl_apps.Base.{ℕ, ◌-◌, ◌+◌, ◌%◌, ◌^◌, refl, true, [], ltb, arith, if◌then◌else◌}
use vmpl_apps.Host.{Platform, IsPlatform, Host, Machine, Call, mmap, mremap, shmat}
use vmpl_apps.Mem.{Memory}
use vmpl_apps.Umm.Layout.{IsKernel, IsLaidOut}
use vmpl_apps.Umm.Confined.{IsGood}
use vmpl_apps.Trap.Frame.{Tf}
use vmpl_apps.Trap.Check.Sound.{IsFrame}

abbrev pub platform : Platform
platform = record {
  dune_defined = true;
  mmap_base = 0x400000000;
  pgsize = 4096;
  big_pgsize = 2097152;
  pgaddr = λ x. x - x % 4096;
  pgoff = λ x. x % 4096;
  big_pgaddr = λ x. x - x % 2097152;
  big_pgoff = λ x. x % 2097152;
  perm_u = 8;
  perm_r = 1;
  perm_w = 2;
  perm_x = 4;
  perm_big = 16;
  pte_p = 1;
  pte_w = 2;
  pte_addr = λ x. x - x % 4096;
}

pub platform-IsPlatform : IsPlatform platform
platform-IsPlatform = record {
  pgsize_lem = refl;
  big_pgsize_lem = refl;
  pgoff_lem = λ x. refl;
  pgaddr_lem = λ x. refl;
  big_pgoff_lem = λ x. refl;
  big_pgaddr_lem = λ x. refl;
  base_aligned = refl;
  base_high = omega arith;
  base_low = omega arith;
}

-- A kernel that grants what fits the address space.
abbrev reply_of : Call → ℕ
reply_of (mmap addr len prot flags fd offset) = if ltb len (2 ^ 47) then addr else addr + 1
reply_of (mremap old_address old_size new_size flags new_address) =
    if ltb new_size (2 ^ 47) then new_address else new_address + 1
reply_of (shmat shmid addr shmflg) = addr
reply_of _ = 0

abbrev pub host : Host
host = record {
  reply = λ log c. reply_of c;
  errno = λ log. 12;
  shm_segsz = λ log. 4096;
  va_to_pa = λ a. a;
  page_bytes = λ log i. 0;
  ta_tid = λ log. 0;
  array_at = λ log p. [];
}

pub host-IsKernel : IsKernel host
host-IsKernel = record {
  mmap_errno = λ log addr len prot flags fd offset e. omega arith;
  mmap_huge = λ log addr len prot flags fd offset e. ground arith;
  mremap_huge = λ log old_address old_size new_size flags new_address e. ground arith;
  shm_small = λ log. omega arith;
}

abbrev pub memory : Memory
memory = record {
  load64 = λ a. 0;
  load32 = λ a. 16;
  memchr_nul = λ p n. if ltb 5 n then p + 5 else 0;
}

-- A heap of two pages, and one page mapped.
abbrev pub machine : Machine
machine = record { brk_len = 8192; mmap_len = 4096; log = [] }

pub machine-IsLaidOut : IsLaidOut machine
machine-IsLaidOut = omega arith

pub machine-IsGood : IsGood platform machine
machine-IsGood = (machine-IsLaidOut, tt)

-- mmap(0, 100, PROT_READ | PROT_WRITE, MAP_PRIVATE | MAP_ANONYMOUS, -1, 0).
abbrev pub mmap_frame : Tf
mmap_frame = record {
  rax = 9;
  arg0 = 0;
  arg1 = 100;
  arg2 = 3;
  arg3 = 0x22;
  arg4 = 2 ^ 64 - 1;
  arg5 = 0;
  rip = 0;
  rsp = 0;
  cs = 3;
}

-- read(0, 0x10000, 64).
abbrev pub read_frame : Tf
read_frame = record mmap_frame { rax = 0; arg1 = 0x10000; arg2 = 64 }

pub mmap_frame-IsFrame : IsFrame mmap_frame
mmap_frame-IsFrame = omega arith

pub read_frame-IsFrame : IsFrame read_frame
read_frame-IsFrame = omega arith
