-- ===== src/Sthread/Samples.antt =====
-- A World and a state of the monitor before any compartment.
use vmpl_apps.Base.{◌-◌, ◌%◌, false, some, [], ◌∷◌}
use vmpl_apps.Sthread.Pages.{Mmu}
use vmpl_apps.Sthread.Kernel.{World, Kernel}

abbrev pub mmu : Mmu
mmu = record {
  pte_p = 1;
  pte_w = 2;
  pte_u = 4;
  pte_d = 64;
  pte_addr = λ x. x - x % 4096;
  va_to_pa = λ x. x;
  dune_boot = false;
  mmap_base = 0x400000000;
}

-- A walk visits its first page only.
abbrev pub world : World
world = record {
  mmu = mmu;
  pgroot = 0x1000;
  va_start = 0;
  va_end = 0x700000000000;
  sizeof_sthread = 400;
  sizeof_kstate = 408;
  trampoline = 0x400800;
  malloc_fails = λ log. false;
  mmap_anon = λ log len. 0x10000000;
  strlen = λ mem p. 5;
  page_walk = λ root first last visit walk sp. visit first walk sp;
  vm_clone = λ root sp. (0x2000, sp);
  open_result = λ log. 5;
  passthrough_rax = λ log tf. 0;
  init_and_enter = 0;
}

abbrev pub kernel : Kernel
kernel = record {
  sthread_id = 0;
  segments = [];
  checkpointed_mem = 0x9000000;
  checkpointed_size = 0;
  tag_id = 1;
  tags = record { t_id = 0; t_buf = 0x8000000; t_p = 0x8000198; t_len = 40960 } ∷ [];
  kernel_tag = some 0;
  ks_current = 0;
  ks_sthreads = [];
  cr3 = 0x1000;
  space = record { entries = λ root va. 7; bytes = λ a. 0 };
  log = [];
}
