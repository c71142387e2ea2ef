-- ===== src/Wedge/Bench/Switch/Aliased.antt =====
-- Where the two addresses reach the same byte.
use vmpl_apps.Base.{ℕ, ◌≡◌, ◌≢◌, refl, sym, ap, ◌∙◌, arith}
use vmpl_apps.Sthread.{Result, ok, stopped, ◌>>=◌}
use vmpl_apps.Sthread.Pages.{Mmu}
use vmpl_apps.Wedge.Bench.Switch.{
  Cpu, load_cr3, physical, store_byte, set_assert, no_switch_round, to_and_fro,
}

module _ (mm : Mmu) where
  -- The call returns, with the tables `e`.
  abbrev pub Passes : (e : ℕ → ℕ → ℕ) → Result Cpu → Type 0
  Passes e r = (c : Cpu) × (r ≡ ok c) × (c.entry ≡ e)

  set_assert-ok :
      (va old new : ℕ) (c : Cpu)
      → c.byte (physical mm c va) ≡ old
      → set_assert mm va old new c ≡ ok (store_byte mm va new c)
  unfolding set_assert
  set_assert-ok va old new c e = rw e (ground arith)

  set_assert-stopped :
      (va old new : ℕ) (c : Cpu)
      → c.byte (physical mm c va) ≢ old
      → set_assert mm va old new c ≡ stopped
  unfolding set_assert
  set_assert-stopped va old new c e = ground arith

  pub byte-store_byte : (va v : ℕ) (c : Cpu) → (store_byte mm va v c).byte (physical mm c va) ≡ v
  unfolding store_byte
  byte-store_byte va v c = ground arith

  byte-store_other :
      (va v pa : ℕ) (c : Cpu) → pa ≢ physical mm c va → (store_byte mm va v c).byte pa ≡ c.byte pa
  unfolding store_byte
  byte-store_other va v pa c n = ground arith

  next :
      {e : ℕ → ℕ → ℕ} (va old new : ℕ) (c : Cpu) (f : Cpu → Result Cpu)
      → c.byte (physical mm c va) ≡ old
      → Passes e (f (store_byte mm va new c))
      → Passes e (set_assert mm va old new c >>= f)
  next va old new c f b p = rw (set_assert-ok va old new c b) p

  last :
      {e : ℕ → ℕ → ℕ} (va old new : ℕ) (c : Cpu)
      → c.entry ≡ e
      → c.byte (physical mm c va) ≡ old
      → Passes e (set_assert mm va old new c)
  unfolding store_byte
  last va old new c same b = (store_byte mm va new c, set_assert-ok va old new c b, same)

  pub no_switch_round-Passes : (crap : ℕ) (c : Cpu) → Passes c.entry (no_switch_round mm crap c)
  unfolding no_switch_round store_byte
  no_switch_round-Passes crap c =
      let c0 = store_byte mm crap 0 c in
      let c1 = store_byte mm crap 1 c0 in
      let c2 = store_byte mm crap 2 c1 in
      let c3 = store_byte mm crap 3 c2 in
      let c4 = store_byte mm crap 4 c3 in
      let c5 = store_byte mm crap 5 c4 in
      next crap 0 1 c0 _ (byte-store_byte crap 0 c) (
        next crap 1 2 c1 _ (byte-store_byte crap 1 c0) (
          next crap 2 3 c2 _ (byte-store_byte crap 2 c1) (
            next crap 3 4 c3 _ (byte-store_byte crap 3 c2) (
              next crap 4 5 c4 _ (byte-store_byte crap 4 c3)
                (last crap 5 6 c5 refl (byte-store_byte crap 5 c4))))))

  module _ (crap crap2 pg1 pg2 : ℕ) (c : Cpu) where
    pub to_and_fro-Passes :
        mm.pte_addr (c.entry pg1 crap) ≡ mm.pte_addr (c.entry pg2 crap2)
        → c.byte (mm.pte_addr (c.entry pg2 crap2)) ≡ 0
        → Passes c.entry (to_and_fro mm crap crap2 pg1 pg2 (load_cr3 pg2 c))
    unfolding to_and_fro store_byte load_cr3
    to_and_fro-Passes alias zeroed =
        let c0 = load_cr3 pg2 c in
        let c1 = store_byte mm crap2 1 c0 in
        let c2 = store_byte mm crap2 2 c1 in
        let c3 = store_byte mm crap 3 (load_cr3 pg1 c2) in
        let c4 = store_byte mm crap 4 c3 in
        let c5 = store_byte mm crap2 5 (load_cr3 pg2 c4) in
        next crap2 0 1 c0 _ zeroed (
          next crap2 1 2 c1 _ (byte-store_byte crap2 1 c0) (
            next crap 2 3 (load_cr3 pg1 c2) _ (ap c2.byte alias ∙ byte-store_byte crap2 2 c1) (
              next crap 3 4 c3 _ (byte-store_byte crap 3 (load_cr3 pg1 c2)) (
                next crap2 4 5 (load_cr3 pg2 c4) _
                  (ap c4.byte (sym alias) ∙ byte-store_byte crap 4 c3)
                  (last crap2 5 6 c5 refl (byte-store_byte crap2 5 (load_cr3 pg2 c4)))))))

    -- Where the two addresses reach different bytes.
    pub to_and_fro-stopped :
        mm.pte_addr (c.entry pg1 crap) ≢ mm.pte_addr (c.entry pg2 crap2)
        → c.byte (mm.pte_addr (c.entry pg2 crap2)) ≡ 0
        → c.byte (mm.pte_addr (c.entry pg1 crap)) ≢ 2
        → to_and_fro mm crap crap2 pg1 pg2 (load_cr3 pg2 c) ≡ stopped
    unfolding to_and_fro store_byte load_cr3
    to_and_fro-stopped apart zeroed not_two =
        let c0 = load_cr3 pg2 c in
        let c1 = store_byte mm crap2 1 c0 in
        let c2 = store_byte mm crap2 2 c1 in
        let same = byte-store_other crap2 2 _ c1 apart ∙ byte-store_other crap2 1 _ c0 apart in
        rw
          (
            set_assert-ok crap2 0 1 c0 zeroed,
            set_assert-ok crap2 1 2 c1 (byte-store_byte crap2 1 c0),
            set_assert-stopped crap 2 3 (load_cr3 pg1 c2) (λ e. not_two (sym same ∙ e)),
          )
          refl
