-- ===== src/Wedge/Bench/Switch/Tests.antt =====
-- Page tables that map each page to itself: the two pages of the benchmark are in turn.
use vmpl_apps.Base.{◌+◌, ◌*◌, ◌/◌, ◌%◌, ◌^◌, ◌≡◌, ◌↔◌, refl, Bool, ◌&&◌, ◌==◌, if◌then◌else◌, arith}
use vmpl_apps.Sthread.{ok}
use vmpl_apps.Sthread.Pages.{Mmu, IsMmu}
use vmpl_apps.Wedge.Bench.Switch.{Cpu, Vm, bench_switch}
use vmpl_apps.Wedge.Bench.Switch.Adjacent.{IsVm, bench_switch_iff}

abbrev mmu : Mmu
mmu = record {
  pte_p = 1;
  pte_w = 2;
  pte_u = 4;
  pte_d = 64;
  pte_addr = λ pte. pte / 4096 % 2 ^ 40 * 4096;
  va_to_pa = λ x. x;
  dune_boot = Bool.false;
  mmap_base = 0x400000000;
}

abbrev vm : Vm
vm = record {
  pgroot = 0x1000;
  clone = λ root c.
      (record c { entry = λ r va. if r == 0x2000 then c.entry root va else c.entry r va }, 0x2000);
  walk = λ root first last f c. record c {
    entry = λ r va. if r == root && va == first then f (c.entry r va) else c.entry r va;
  };
}

abbrev fresh : Cpu
fresh = record { cr3 = 0x1000; entry = λ root va. va + 7; byte = λ pa. 0 }

mmu-IsMmu : IsMmu mmu
mmu-IsMmu = record { pte_p_lem = refl; pte_w_lem = refl; pte_u_lem = refl; pte_d_lem = refl }

vm-IsVm : IsVm mmu vm
vm-IsVm = record {
  mmu_lem = mmu-IsMmu;
  pte_addr_lem = λ pte. refl;
  clone_lem = λ c. (omega arith, λ va. refl, λ va. refl, refl);
  walk_lem = λ root va f c. (ground arith, λ other n va'. ground arith, refl);
}

bench_switch_iff_example :
    ((c : Cpu) × (bench_switch mmu vm 0x10000 fresh ≡ ok c)) ↔ (0x11000 ≡ 0x10000 + 4096)
bench_switch_iff_example =
    bench_switch_iff mmu vm vm-IsVm 0x10000 fresh (omega arith) refl (omega arith)
