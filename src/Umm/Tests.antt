-- ===== src/Umm/Tests.antt =====
-- Runs of the functions of umm.c, and the witnesses of their theorems.
use vmpl_apps.Base.{◌-◌, ◌^◌, ◌≡◌, ◌⊎◌, refl, arith, inl, some, [], ◌∷◌}
use vmpl_apps.Host.{Machine, ret, mmap, vm_map_phys}
use vmpl_apps.Samples.{
  platform, platform-IsPlatform, host, host-IsKernel, machine, machine-IsLaidOut,
}
use vmpl_apps.Umm.{
  round_up, umm_space_left, umm_get_map_pos, umm_mmap_anom, umm_mmap, mmap_at, umm_alloc_stack,
  stack_at, prot_to_perm,
}
use vmpl_apps.Umm.Alloc.{IsCoded, IsError, IsUnmoved, IsFresh, umm_mmap-IsFresh}

-- The machine behind mmap(0, 100, ...).
abbrev mapped : Machine
mapped = record {
  brk_len = 8192;
  mmap_len = 8192;
  log = vm_map_phys 0x5ffffe000 100 0x5ffffe000 11 ∷ mmap 0x5ffffe000 100 3 50 (2 ^ 32 - 1) 0 ∷ [];
}

mmap_runs : umm_mmap platform host 0 100 3 0x22 (2 ^ 32 - 1) 0 machine ≡ ret 0x5ffffe000 mapped
unfolding umm_mmap mmap_at umm_mmap_anom umm_space_left umm_get_map_pos round_up prot_to_perm
mmap_runs = refl

-- The machine behind a break of three pages.
abbrev broken : Machine
broken = record {
  brk_len = 12288;
  mmap_len = 4096;
  log =
      vm_map_phys 0x400002000 4096 0x400002000 11 ∷ mmap 0x400002000 4096 3 50 (2 ^ 32 - 1) 0 ∷ [];
}

abbrev stacked : Machine
stacked = record {
  brk_len = 8192;
  mmap_len = 0x801000;
  log =
      vm_map_phys 0x5ff800000 0x7ff000 0x5ff800000 11
      ∷ mmap 0x5ff800000 0x7ff000 3 50 (2 ^ 32 - 1) 0
      ∷ [];
}

stack_runs : umm_alloc_stack platform host machine ≡ ret (0, some 0x5fffff000) stacked
unfolding umm_alloc_stack stack_at umm_mmap_anom umm_space_left umm_get_map_pos prot_to_perm
stack_runs = refl

host-IsCoded : IsCoded host
host-IsCoded = record {
  munmap_errno = λ log addr len e. omega arith;
  map_phys_lem = λ log addr len pa perm. inl refl;
}

umm_mmap-IsFresh_example :
    (IsUnmoved machine mapped × IsError 0x5ffffe000)
    ⊎ IsFresh platform machine mapped 0x5ffffe000 100
umm_mmap-IsFresh_example =
    umm_mmap-IsFresh platform platform-IsPlatform host 100 3 0x22 (2 ^ 32 - 1) 0 0x5ffffe000 machine
      mapped host-IsKernel host-IsCoded (omega arith) machine-IsLaidOut mmap_runs
