-- ===== src/Wedge/Bench/Switch.antt =====
-- wedge/src/bench.c: the benchmark of a switch between page tables (bench_switch), in which one byte
-- is reached by two addresses, each in its own tables. The switches that keep the TLB
-- (with_switch_no_flush) and the rows of pages (pwn_pages) are left out.
pub mod Aliased
pub mod Adjacent
mod Tests
use vmpl_apps.Base.{ℕ, zero, suc, ◌+◌, ◌*◌, Bool, ◌&&◌, bit_or, ◌==◌, if◌then◌else◌}
use vmpl_apps.Sthread.{Result, ok, stopped, undefined, pure, ◌>>=◌}
use vmpl_apps.Sthread.Pages.{Mmu}

-- The register with the root of the page tables, the entry for a page in the tables of a root, and the
-- memory outside the page tables, by physical addresses.
pub record Cpu : Type 0 where
  pub cr3 : ℕ
  pub entry : (root va : ℕ) → ℕ
  pub byte : (pa : ℕ) → ℕ

-- libdune: pgroot, dune_vm_clone, and dune_vm_page_walk with a callback that changes an entry.
pub record Vm : Type 0 where
  pub pgroot : ℕ
  pub clone : (root : ℕ) → Cpu → Cpu × ℕ
  pub walk : (root va_start va_end : ℕ) → (ℕ → ℕ) → Cpu → Cpu

unfoldable pub load_cr3 : (root : ℕ) → Cpu → Cpu
load_cr3 root c = record c { cr3 = root }

pub nr_rep : ℕ
nr_rep = 100

pub times : ℕ → (Cpu → Result Cpu) → Cpu → Result Cpu
times zero f c = pure c
times (suc n) f c = do c' ← f c; times n f c'

module _ (mm : Mmu) where
  -- The physical address that is reached at `va`, the beginning of a page.
  unfoldable pub physical : Cpu → (va : ℕ) → ℕ
  physical c va = mm.pte_addr (c.entry c.cr3 va)

  unfoldable pub store_byte : (va v : ℕ) → Cpu → Cpu
  unfolding physical
  store_byte va v c =
      let at = physical c va in record c { byte = λ pa. if pa == at then v else c.byte pa }

  unfoldable pub set_assert : (va old new : ℕ) → Cpu → Result Cpu
  unfolding physical store_byte
  set_assert va old new c =
      if c.byte (physical c va) == old then ok (store_byte va new c) else stopped

  pub setup_mem_cb : (pte : ℕ) → ℕ
  setup_mem_cb pte = bit_or (bit_or (bit_or (mm.pte_addr pte + 4096) mm.pte_p) mm.pte_w) mm.pte_u

  -- The machine, and `_pg2`; `_pg1` is pgroot.
  pub setup_mem : Vm → (crap : ℕ) → Cpu → Cpu × ℕ
  unfolding setup_mem_cb
  setup_mem vm crap c =
      let (c', pg2) = vm.clone vm.pgroot c in (vm.walk vm.pgroot crap crap setup_mem_cb c', pg2)

  module _ (crap : ℕ) where
    -- One round of the loop.
    pub no_switch_round : Cpu → Result Cpu
    unfolding store_byte set_assert
    no_switch_round c = do
      c1 ← set_assert crap 0 1 (store_byte crap 0 c)
      c2 ← set_assert crap 1 2 c1
      c3 ← set_assert crap 2 3 c2
      c4 ← set_assert crap 3 4 c3
      c5 ← set_assert crap 4 5 c4
      set_assert crap 5 6 c5

    pub no_switch : Cpu → Result Cpu
    unfolding nr_rep times no_switch_round
    no_switch = times nr_rep no_switch_round

    module _ (crap2 pg1 pg2 : ℕ) where
      -- What ctx_switch and a round of with_switch share.
      pub to_and_fro : Cpu → Result Cpu
      unfolding load_cr3 set_assert
      to_and_fro c = do
        c1 ← set_assert crap2 0 1 c
        c2 ← set_assert crap2 1 2 c1
        c3 ← set_assert crap 2 3 (load_cr3 pg1 c2)
        c4 ← set_assert crap 3 4 c3
        c5 ← set_assert crap2 4 5 (load_cr3 pg2 c4)
        set_assert crap2 5 6 c5

      pub ctx_switch : Cpu → Result Cpu
      unfolding load_cr3 to_and_fro
      ctx_switch c = to_and_fro (load_cr3 pg2 c)

      -- One round of the loop.
      pub with_switch_round : Cpu → Result Cpu
      unfolding load_cr3 store_byte to_and_fro
      with_switch_round c = to_and_fro (store_byte crap2 0 (load_cr3 pg2 c))

      pub with_switch : Cpu → Result Cpu
      unfolding nr_rep times with_switch_round
      with_switch = times nr_rep with_switch_round

  -- From the call of setup_mem to the last that switches and flushes; benchmark_latency calls its
  -- argument ten times.
  pub bench_switch : Vm → (crap : ℕ) → Cpu → Result Cpu
  unfolding times setup_mem no_switch ctx_switch with_switch
  bench_switch vm crap c =
      let (c', pg2) = setup_mem vm crap c in
      do
        c1 ← ctx_switch crap (crap + 4096) vm.pgroot pg2 c'
        c2 ← times 10 (no_switch crap) c1
        times 10 (with_switch crap (crap + 4096) vm.pgroot pg2) c2
