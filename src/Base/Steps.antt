-- ===== src/Base/Steps.antt =====
-- Runs of a step relation.
use Prim.Native.Nat.{ℕ, zero, suc, ◌<◌}
use mathlib.Core.Logic.{◌⊎◌, inl, inr}
use native.Mathlib.Omega.{arith}

-- Whatever the order of the steps, a state in which `P` holds is met.
pub data Eventually {ℓ} {S : Type ℓ} (Step : S → S → Type 0) (P : S → Type 0) : S → Type ℓ where
  now : {s : S} → P s → Eventually Step P s
  next : {s t : S} → Step s t → ((u : S) → Step s u → Eventually Step P u) → Eventually Step P s

-- Where `P` does not hold a step is possible, and each step lowers a measure.
module _ {ℓ} {S : Type ℓ} (Step : S → S → Type 0) (P Inv : S → Type 0) (measure : S → ℕ)
    (keeps : (s t : S) → Step s t → Inv s → Inv t)
    (lowers : (s t : S) → Step s t → Inv s → measure t < measure s)
    (goes_on : (s : S) → Inv s → P s ⊎ ((t : S) × Step s t)) where
  pub eventually : (n : ℕ) (s : S) → measure s < n → Inv s → Eventually Step P s
  eventually zero s lt i = absurd (omega arith)
  eventually (suc n) s lt i = elim (goes_on s i) [
    | inl done ↦ now done
    | inr more ↦
        next more.1 (λ u st. eventually n u (omega (arith, lowers s u st i)) (keeps s u st i))
  ]
