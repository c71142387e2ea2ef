-- ===== src/Wedge/Bench/Switch/Adjacent.antt =====
-- When the benchmark runs to its end.
use vmpl_apps.Base.{
  ℕ, zero, suc, ◌+◌, ◌*◌, ◌/◌, ◌%◌, ◌^◌, ◌<◌, ◌≡◌, ◌≢◌, ◌↔◌, ◌⊎◌, Bool-cases, inl, inr, refl, sym,
  ap, ◌∙◌, bit_or, ◌==◌, arith,
}
use vmpl_apps.Base.Bits.{above, bit_or_four, bit_or-zero}
use vmpl_apps.Sthread.{Result, ok, stopped, ◌>>=◌}
use vmpl_apps.Sthread.Pages.{Mmu, IsMmu}
use vmpl_apps.Wedge.Bench.Switch.{
  Cpu, Vm, load_cr3, store_byte, nr_rep, times, no_switch_round, no_switch, ctx_switch,
  with_switch_round, with_switch, setup_mem_cb, setup_mem, bench_switch,
}
use vmpl_apps.Wedge.Bench.Switch.Aliased.{
  Passes, byte-store_byte, no_switch_round-Passes, to_and_fro-Passes, to_and_fro-stopped,
}

-- What libdune says of its page tables: the address bits of an entry, a clone of tables with the
-- entries of the original, and a walk over one page, which changes its entry.
pub record IsVm (mm : Mmu) (vm : Vm) : Type 0 where
  pub mmu_lem : IsMmu mm
  pub pte_addr_lem : (pte : ℕ) → mm.pte_addr pte ≡ pte / 4096 % 2 ^ 40 * 4096
  pub clone_lem :
      (c : Cpu)
      → ((vm.clone vm.pgroot c).1 ≢ vm.pgroot)
        × ((va : ℕ)
            → (vm.clone vm.pgroot c).0.entry (vm.clone vm.pgroot c).1 va ≡ c.entry vm.pgroot va)
        × ((va : ℕ) → (vm.clone vm.pgroot c).0.entry vm.pgroot va ≡ c.entry vm.pgroot va)
        × ((vm.clone vm.pgroot c).0.byte ≡ c.byte)
  pub walk_lem :
      (root va : ℕ) (f : ℕ → ℕ) (c : Cpu)
      → ((vm.walk root va va f c).entry root va ≡ f (c.entry root va))
        × ((other : ℕ)
            → other ≢ root
            → (va' : ℕ) → (vm.walk root va va f c).entry other va' ≡ c.entry other va')
        × ((vm.walk root va va f c).byte ≡ c.byte)

low_bits : (x p : ℕ) → p < 16 → bit_or x p / 16 ≡ x / 16
low_bits x p lt =
    let none_above : above p ≡ 0 = omega arith in
    let same : bit_or (above x) (above p) ≡ above x =
      rw none_above (bit_or-zero (above x) (above x) (omega arith)) in
    omega (arith, bit_or_four x p, same)

equal_or : (a b : ℕ) → (a ≡ b) ⊎ (a ≢ b)
equal_or a b = elim (Bool-cases (a == b)) [
  | inl e ↦ inl (ground arith)
  | inr e ↦ inr (ground arith)
]

not_ok : (r : Result Cpu) (f : Cpu → Result Cpu) (c : Cpu) → r ≡ stopped → (r >>= f) ≢ ok c
not_ok r f c e done = cc

module _ (mm : Mmu) where
  bind-Passes :
      {e : ℕ → ℕ → ℕ} (r : Result Cpu) (f : Cpu → Result Cpu)
      → Passes mm e r
      → ((c : Cpu) → c.entry ≡ e → Passes mm e (f c))
      → Passes mm e (r >>= f)
  bind-Passes r f (c, done, same) rest = rw done (rest c same)

  loop-Passes :
      {e : ℕ → ℕ → ℕ} (f : Cpu → Result Cpu)
      → ((c : Cpu) → c.entry ≡ e → Passes mm e (f c))
      → (n : ℕ) (c : Cpu) → c.entry ≡ e
      → Passes mm e (times n f c)
  unfolding times
  loop-Passes f body zero c same = (c, refl, same)
  loop-Passes f body (suc n) c same =
      let (c', done, same') = body c same in rw done (loop-Passes f body n c' same')

  module _ (e : ℕ → ℕ → ℕ) (crap : ℕ) where
    no_switch-Passes : (c : Cpu) → c.entry ≡ e → Passes mm e (no_switch mm crap c)
    unfolding no_switch
    no_switch-Passes =
        loop-Passes (no_switch_round mm crap)
          (λ c same.
            let (c', done, same') = no_switch_round-Passes mm crap c in (c', done, same' ∙ same))
          nr_rep

    module _ (crap2 pg1 pg2 : ℕ)
        (alias : mm.pte_addr (e pg1 crap) ≡ mm.pte_addr (e pg2 crap2)) where
      round-Passes :
          (c : Cpu) → c.entry ≡ e → Passes mm e (with_switch_round mm crap crap2 pg1 pg2 c)
      unfolding with_switch_round store_byte load_cr3
      round-Passes c same =
          let d = store_byte mm crap2 0 (load_cr3 pg2 c) in
          let alias' : mm.pte_addr (c.entry pg1 crap) ≡ mm.pte_addr (c.entry pg2 crap2) =
            rw same alias in
          let (c', done, same') =
            to_and_fro-Passes mm crap crap2 pg1 pg2 d alias'
              (byte-store_byte mm crap2 0 (load_cr3 pg2 c)) in
          (c', done, same' ∙ same)

      with_switch-Passes :
          (c : Cpu) → c.entry ≡ e → Passes mm e (with_switch mm crap crap2 pg1 pg2 c)
      unfolding with_switch
      with_switch-Passes = loop-Passes (with_switch_round mm crap crap2 pg1 pg2) round-Passes nr_rep

  module _ (vm : Vm) (ok_vm : IsVm mm vm) where
    moved :
        (pte : ℕ)
        → mm.pte_addr pte + 4096 < 2 ^ 52
        → mm.pte_addr (setup_mem_cb mm pte) ≡ mm.pte_addr pte + 4096
    unfolding setup_mem_cb
    moved pte small =
        let ok_mm = ok_vm.mmu_lem in
        let a = mm.pte_addr pte + 4096 in
        let p = bit_or a mm.pte_p in
        let w = bit_or p mm.pte_w in
        omega (
          arith,
          ok_vm.pte_addr_lem pte,
          ok_vm.pte_addr_lem (bit_or w mm.pte_u),
          low_bits a mm.pte_p (omega (arith, ok_mm.pte_p_lem)),
          low_bits p mm.pte_w (omega (arith, ok_mm.pte_w_lem)),
          low_bits w mm.pte_u (omega (arith, ok_mm.pte_u_lem)),
        )

    module _ (crap : ℕ) (c : Cpu) where
      setup_mem_lem :
          ((setup_mem mm vm crap c).0.entry vm.pgroot crap
            ≡ setup_mem_cb mm (c.entry vm.pgroot crap))
          × ((setup_mem mm vm crap c).0.entry (setup_mem mm vm crap c).1 (crap + 4096)
              ≡ c.entry vm.pgroot (crap + 4096))
          × ((setup_mem mm vm crap c).0.byte ≡ c.byte)
      unfolding setup_mem
      setup_mem_lem =
          let (apart, cloned, kept, bytes) = ok_vm.clone_lem c in
          let c' = (vm.clone vm.pgroot c).0 in
          let pg2 = (vm.clone vm.pgroot c).1 in
          let (changed, others, bytes') = ok_vm.walk_lem vm.pgroot crap (setup_mem_cb mm) c' in
          (
            changed ∙ ap (setup_mem_cb mm) (kept crap),
            others pg2 apart (crap + 4096) ∙ cloned (crap + 4096),
            bytes' ∙ bytes,
          )

      -- The physical address of a page when the benchmark begins.
      abbrev frame : (va : ℕ) → ℕ
      frame va = mm.pte_addr (c.entry vm.pgroot va)

      module _ (small : frame crap + 4096 < 2 ^ 52) (zeroed : c.byte (frame (crap + 4096)) ≡ 0)
          (not_two : c.byte (frame crap + 4096) ≢ 2) where
        at_first : mm.pte_addr ((setup_mem mm vm crap c).0.entry vm.pgroot crap) ≡ frame crap + 4096
        at_first = ap mm.pte_addr setup_mem_lem.0 ∙ moved (c.entry vm.pgroot crap) small

        at_second :
            mm.pte_addr ((setup_mem mm vm crap c).0.entry (setup_mem mm vm crap c).1 (crap + 4096))
            ≡ frame (crap + 4096)
        at_second = ap mm.pte_addr setup_mem_lem.1

        adjacent→ :
            (c' : Cpu) → bench_switch mm vm crap c ≡ ok c' → frame (crap + 4096) ≡ frame crap + 4096
        unfolding bench_switch ctx_switch
        adjacent→ c' done =
            let s = (setup_mem mm vm crap c).0 in
            let pg2 = (setup_mem mm vm crap c).1 in
            let zero_there : s.byte (mm.pte_addr (s.entry pg2 (crap + 4096))) ≡ 0 =
              rw (at_second, setup_mem_lem.2) zeroed in
            let not_two' : s.byte (mm.pte_addr (s.entry vm.pgroot crap)) ≢ 2 =
              rw (at_first, setup_mem_lem.2) not_two in
            elim (equal_or (frame (crap + 4096)) (frame crap + 4096)) [
              | inl same ↦ same
              | inr other ↦ absurd (
                  not_ok _ _ c'
                    (to_and_fro-stopped mm crap (crap + 4096) vm.pgroot pg2 s
                      (λ e. other (sym at_second ∙ sym e ∙ at_first)) zero_there not_two')
                    done)
            ]

        →adjacent :
            frame (crap + 4096) ≡ frame crap + 4096
            → (c' : Cpu) × (bench_switch mm vm crap c ≡ ok c')
        unfolding bench_switch ctx_switch
        →adjacent next_to =
            let s = (setup_mem mm vm crap c).0 in
            let pg2 = (setup_mem mm vm crap c).1 in
            let alias : mm.pte_addr (s.entry vm.pgroot crap)
                ≡ mm.pte_addr (s.entry pg2 (crap + 4096)) =
              at_first ∙ sym next_to ∙ sym at_second in
            let zero_there : s.byte (mm.pte_addr (s.entry pg2 (crap + 4096))) ≡ 0 =
              rw (at_second, setup_mem_lem.2) zeroed in
            let (c3, done, same) =
              bind-Passes _ _
                (to_and_fro-Passes mm crap (crap + 4096) vm.pgroot pg2 s alias zero_there)
                (λ c1 same1.
                  bind-Passes _ _
                    (loop-Passes (no_switch mm crap) (no_switch-Passes s.entry crap) 10 c1 same1)
                    (loop-Passes (with_switch mm crap (crap + 4096) vm.pgroot pg2)
                      (with_switch-Passes s.entry crap (crap + 4096) vm.pgroot pg2 alias) 10)) in
            (c3, done)

        -- With the bits and calls of libdune as IsVm states them, tables in which the
        -- address of the page behind the first page frame fits an entry, a second page
        -- that begins with 0, and a byte behind the first page frame that is not 2: the
        -- benchmark, from setup_mem to the loops of with_switch, runs to its end without
        -- a failed assert exactly when the two pages of the mapping lie in turn in
        -- physical memory.
        pub bench_switch_iff :
            ((c' : Cpu) × (bench_switch mm vm crap c ≡ ok c'))
            ↔ (frame (crap + 4096) ≡ frame crap + 4096)
        bench_switch_iff = ((λ (c', done). adjacent→ c' done), →adjacent)
