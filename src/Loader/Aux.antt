-- ===== src/Loader/Aux.antt =====
-- The auxiliary vector of the new program.
use vmpl_apps.Base.{ℕ, suc, ◌+◌, ◌≡◌, refl, Option, none, some, List, [], ◌∷◌, length, arith}
use vmpl_apps.Loader.{Auxv, ElfData, Slot, copied, given, fill, slots, setup_aux, num_aux, copy_aux}

-- One more entry before those of `rest`.
put_first :
    (e : Option Auxv) (rest : Option (List Auxv)) (n : ℕ) {es : List Auxv}
    → ((es' : List Auxv) → rest ≡ some es' → length es' ≡ n)
    → elim e [ none ↦ none | some a ↦ elim rest [ none ↦ none | some r ↦ some (a ∷ r) ] ] ≡ some es
    → length es ≡ suc n
put_first none rest n ih e = ground arith
put_first (some a) none n ih e = ground arith
put_first (some a) (some r) n ih e = ground (arith, ih r refl)

fill-length :
    (ref : List Auxv) (l : List Slot) {es : List Auxv} → fill ref l ≡ some es → length es ≡ length l
unfolding fill
fill-length ref [] e = ground arith
fill-length ref (copied t ∷ l) e =
    put_first (copy_aux ref t) (fill ref l) (length l) (λ es'. fill-length ref l) e
fill-length ref (given t v ∷ l) e =
    put_first (some (record { a_type = t; a_val = v })) (fill ref l) (length l)
      (λ es'. fill-length ref l) e

-- Where setup_aux succeeds, it has written one entry more than NUM_AUX, the number for which
-- setup_arguments reserves space.
pub setup_aux_lem :
    (ref : List Auxv) (d : ElfData) {es : List Auxv}
    → setup_aux ref d ≡ some es
    → length es ≡ num_aux + 1
unfolding setup_aux slots
setup_aux_lem ref d e = fill-length ref (slots d) e
