-- ===== src/Wedge/Httpd/Chunks.antt =====
-- What a loop of reads takes from a file.
use vmpl_apps.Base.{ℕ, zero, suc, ◌+◌, ◌≤◌, ◌≡◌, refl, ap, List, [], ◌∷◌, ◌++◌, length, arith}
use vmpl_apps.Wedge.Httpd.{take}

unfoldable pub drop : ℕ → List ℕ → List ℕ
drop zero l = l
drop (suc n) [] = []
drop (suc n) (x ∷ l) = drop n l

pub take-all : (l : List ℕ) → take (length l) l ≡ l
unfolding take
take-all [] = refl
take-all (x ∷ l) = ap (λ k. x ∷ k) (take-all l)

pub take-drop : (n : ℕ) (l : List ℕ) → take n l ++ drop n l ≡ l
unfolding take drop
take-drop zero l = refl
take-drop (suc n) [] = refl
take-drop (suc n) (x ∷ l) = ap (λ k. x ∷ k) (take-drop n l)

pub length-take : (n : ℕ) (l : List ℕ) → length (take n l) ≤ n
unfolding take
length-take zero l = omega arith
length-take (suc n) [] = omega arith
length-take (suc n) (x ∷ l) = omega (arith, length-take n l)

pub length-drop : (n : ℕ) (l : List ℕ) → length (take n l) + length (drop n l) ≡ length l
unfolding take drop
length-drop zero l = omega arith
length-drop (suc n) [] = omega arith
length-drop (suc n) (x ∷ l) = omega (arith, length-drop n l)
