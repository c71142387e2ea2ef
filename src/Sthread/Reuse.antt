-- ===== src/Sthread/Reuse.antt =====
-- A compartment whose data or stack were overwritten is recycled: the witnesses of the theorems on
-- recycle.
use vmpl_apps.Base.{
  ℕ, zero, suc, ◌+◌, ◌-◌, ◌/◌, ◌%◌, ◌≡◌, inl, refl, arith, false, none, List, [], ◌∷◌, length, ltb,
  leb, ◌&&◌, ◌==◌, if◌then◌else◌,
}
use vmpl_apps.Sthread.Pages.{Mmu}
use vmpl_apps.Sthread.Kernel.{World, Kernel, Sthread, Regs, running, ret, recycle}
use vmpl_apps.Sthread.Kernel.Recycled.{visit_all, IsTracked}
use vmpl_apps.Sthread.Kernel.Clean.{IsWalk, recycle_restores}
use vmpl_apps.Sthread.Kernel.Cleared.{IsClear, recycle_clears}

abbrev row : (first n : ℕ) → List ℕ
row first zero = []
row first (suc n) = first ∷ row (first + 4096) n

length-row : (first n : ℕ) → length (row first n) ≡ n
length-row first zero = refl
length-row first (suc n) = ground (arith, length-row (first + 4096) n)

abbrev pages : (root first last : ℕ) → List ℕ
pages root first last = row first ((last + 4096 - first) / 4096)

abbrev mmu : Mmu
mmu = record {
  pte_p = 1;
  pte_w = 2;
  pte_u = 4;
  pte_d = 64;
  pte_addr = λ x. x - x % 4096;
  va_to_pa = λ x. x;
  dune_boot = false;
  mmap_base = 0x400000000;
}

abbrev world : World
world = record {
  mmu = mmu;
  pgroot = 0x1000;
  va_start = 0;
  va_end = 0x700000000000;
  sizeof_sthread = 400;
  sizeof_kstate = 408;
  trampoline = 0x400800;
  malloc_fails = λ log. false;
  mmap_anon = λ log len. 0x10000000;
  strlen = λ mem p. 5;
  page_walk = λ root first last visit walk sp. visit_all (pages root first last) visit walk sp;
  vm_clone = λ root sp. (0x2000, sp);
  open_result = λ log. 5;
  passthrough_rax = λ log tf. 0;
  init_and_enter = 0;
}

world-IsWalk : IsWalk world pages
world-IsWalk = record {
  walks = λ root first last visit walk sp. refl;
  few = λ root first last. omega (arith, length-row first ((last + 4096 - first) / 4096));
}

abbrev regs : Regs
regs = record { rax = 0; rdi = 0; rsi = 0; rdx = 0; arg3 = 0; rip = 0; rsp = 0; eflags = 0 }

abbrev thread : Sthread
thread = record {
  self = 0x8000198;
  st_id = 1;
  st_state = running;
  st_ret = 0;
  st_stack = 0x10000000;
  st_pgroot = 0x2000;
  st_tf = regs;
  st_sc = record { sc_mem = []; sc_fd = []; sc_sys = [] };
  st_writable = 0x20000000;
  st_walk = 4096;
}

-- Two pages of data, of which the first was overwritten with nines and marked dirty.
abbrev used : Kernel
used = record {
  sthread_id = 1;
  segments = record { s_start = 0x602000; s_end = 0x604000; s_len = 0x2000; s_flags = 3 } ∷ [];
  checkpointed_mem = 0x9000000;
  checkpointed_size = 0x2000;
  tag_id = 1;
  tags = [];
  kernel_tag = none;
  ks_current = 0x8000198;
  ks_sthreads = thread ∷ [];
  cr3 = 0x2000;
  space = record {
    entries = λ root va. if va == 0x602000 then 0x47 else 7;
    bytes = λ a. if leb 0x20000000 a && ltb a 0x20001000 then 9 else 0;
  };
  log = [];
}

used-IsTracked : IsTracked world thread 0x9000000 (0x602000 ∷ 0x603000 ∷ []) 0 used.space
used-IsTracked = ((λ clean o lo hi. cc), ((λ clean o lo hi. ground arith), tt))

recycle_restores_example :
    (s' : Sthread) × (k' : Kernel) × (recycle world thread used ≡ ret s' k')
    × (k'.space.bytes 0x20000010 ≡ used.space.bytes 0x9000010)
recycle_restores_example =
    recycle_restores world pages world-IsWalk thread used 0x2000 16 (inl (omega arith))
      (inl (omega arith)) (omega arith) (omega arith) (omega arith) used-IsTracked (omega arith)

-- The first page of the stack holds nines and is marked dirty.
abbrev stained : Kernel
stained = record used {
  space = record {
    entries = λ root va. if va == 0x10000000 then 0x47 else 7;
    bytes = λ a. if leb 0x10000000 a && ltb a 0x10001000 then 9 else 0;
  };
}

stained-IsClear : IsClear world thread (pages 0x2000 0x10000000 0x10009000) 0 stained.space
stained-IsClear = (
  (λ clean o lo hi. cc),
  (
    (λ clean o lo hi. ground arith),
    (
      (λ clean o lo hi. ground arith),
      (
        (λ clean o lo hi. ground arith),
        (
          (λ clean o lo hi. ground arith),
          (
            (λ clean o lo hi. ground arith),
            (
              (λ clean o lo hi. ground arith),
              (
                (λ clean o lo hi. ground arith),
                ((λ clean o lo hi. ground arith), ((λ clean o lo hi. ground arith), tt)),
              ),
            ),
          ),
        ),
      ),
    ),
  ),
)

recycle_clears_example :
    (s' : Sthread) × (k' : Kernel) × (recycle world thread stained ≡ ret s' k')
    × (k'.space.bytes 0x10000010 ≡ 0)
recycle_clears_example =
    recycle_clears world pages world-IsWalk thread stained 16 (inl (omega arith)) (omega arith)
      stained-IsClear (omega arith)
