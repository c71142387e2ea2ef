-- ===== src/Wedge/Httpd/Request.antt =====
-- Which requests are answered.
use vmpl_apps.Base.{ℕ, ◌≡◌, ◌≢◌, refl, ◌∙◌, List, [], ◌∷◌, All, arith}
use vmpl_apps.Wedge.Httpd.{until, starts_with, get_root, is_get}

-- A cut at a byte that the prefix has not changes nothing.
starts_with-until :
    (c : ℕ) (prefix l : List ℕ)
    → All (λ p. p ≢ c) prefix
    → starts_with prefix (until c l) ≡ starts_with prefix l
unfolding starts_with until
starts_with-until c [] l a = refl
starts_with-until c (p ∷ ps) [] a = refl
starts_with-until c (p ∷ ps) (x ∷ l) a = ground (arith, starts_with-until c ps l a.1)

pub is_get_lem : (read : List ℕ) → is_get read ≡ starts_with get_root read
unfolding is_get
is_get_lem read =
    starts_with-until 10 get_root (until 13 (until 0 read)) (ground arith)
    ∙ starts_with-until 13 get_root (until 0 read) (ground arith)
    ∙ starts_with-until 0 get_root read (ground arith)
