-- ===== src/Exec/Tests.antt =====
-- Runs of exec.c, and the witnesses of its theorems.
use vmpl_apps.Base.{ℕ, ◌≡◌, refl, true, List, [], ◌∷◌, get_or}
use vmpl_apps.Exec.{is_script}

-- The text "#! sh\n".
abbrev script : ℕ → ℕ
script i = get_or (b'#' ∷ b'!' ∷ b' ' ∷ b's' ∷ b'h' ∷ 10 ∷ []) i 0

abbrev argument : List ℕ
argument = 0x1000 ∷ []

-- One of the two bytes is enough.
hash_is_script : is_script (λ i. b'#') ≡ true
unfolding is_script
hash_is_script = refl
