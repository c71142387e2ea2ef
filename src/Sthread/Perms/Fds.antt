-- ===== src/Sthread/Perms/Fds.antt =====
-- The file descriptors of a compartment.
use vmpl_apps.Base.{
  ℕ, zero, suc, ◌/◌, ◌^◌, ◌<◌, ◌≡◌, Bool, true, false, Option, none, some, List, [], ◌∷◌, arith,
  bit_and, ◌==◌, ◌!=◌, if◌then◌else◌, All, ◌⊎◌, inl, inr, ◌≢◌, refl,
}
use Prim.Native.Nat.{bit_and-bitwise}
use vmpl_apps.Sthread.{ok}
use vmpl_apps.Sthread.Perms.{Sc, put_in_free, fd_entry, sc_fd_add, has_fd_perm, has_fd_perm_from}

-- The entries that are in use come first.
abbrev pub IsFds : List ℕ → Type 0
IsFds [] = Unit
IsFds (e ∷ l) = (e < 2 ^ 31) × (e ≡ 0 → All (λ e'. e' ≡ 0) l) × IsFds l

-- Whether an entry is in use for `fd`.
abbrev pub lists : List ℕ → (fd : ℕ) → Bool
lists [] fd = false
lists (e ∷ l) fd = if e == 0 then false else if e / 256 == fd then true else lists l fd

pub zero-bit_and : (b : ℕ) → bit_and 0 b ≡ 0
zero-bit_and b = bit_and-bitwise 0 b

pub no_room : (v : ℕ) {l' : List ℕ} → ¬ (put_in_free v [] ≡ some l')
unfolding put_in_free
no_room v e = ground arith

-- The free entry is this one, or one behind it.
abbrev pub Placed : (v x : ℕ) (l l' : List ℕ) → Type 0
Placed v x l l' =
    ((x ≡ 0) × (l' ≡ v ∷ l))
    ⊎ ((x ≢ 0) × ((r : List ℕ) × (put_in_free v l ≡ some r) × (l' ≡ x ∷ r)))

Placed-from :
    (v x : ℕ) (l : List ℕ) {l' : List ℕ} (rest : Option (List ℕ))
    → put_in_free v l ≡ rest
    → (if x != 0 then elim rest [ none ↦ none | some r ↦ some (x ∷ r) ] else some (v ∷ l)) ≡ some l'
    → Placed v x l l'
Placed-from v zero l rest p e = inl (refl, ground arith)
Placed-from v (suc x) l none p e = ground arith
Placed-from v (suc x) l (some r) p e = inr (omega arith, (r, p, ground arith))

pub placed :
    (v x : ℕ) (l : List ℕ) {l' : List ℕ} → put_in_free v (x ∷ l) ≡ some l' → Placed v x l l'
unfolding put_in_free
placed v x l e = Placed-from v x l (put_in_free v l) refl e

module _ (fd perm : ℕ) where
  zeros-has_fd_perm : (l : List ℕ) → All (λ e. e ≡ 0) l → has_fd_perm_from l fd perm ≡ false
  unfolding has_fd_perm_from
  zeros-has_fd_perm [] z = ground arith
  zeros-has_fd_perm (x ∷ l) z = ground arith

  has_fd_perm-first :
      (v : ℕ) (l : List ℕ)
      → v < 2 ^ 31
      → All (λ e. e ≡ 0) l
      → has_fd_perm_from (v ∷ l) fd perm
        ≡ (if v / 256 == fd then bit_and (bit_and v 15) perm != 0 else false)
  unfolding has_fd_perm_from
  has_fd_perm-first zero l small z = ground (arith, zero-bit_and 15, zero-bit_and perm)
  has_fd_perm-first (suc v) l small z = ground (arith, zeros-has_fd_perm l z)

module _ (v : ℕ) (small : v < 2 ^ 31) where
  put_in_free-IsFds : (l : List ℕ) {l' : List ℕ} → IsFds l → put_in_free v l ≡ some l' → IsFds l'
  unfolding put_in_free
  put_in_free-IsFds [] i e = ground arith
  put_in_free-IsFds (x ∷ l) {l' = l'} i e = elim (placed v x l e) [
    | inl (z, at) ↦ rw at (small, (λ _. i.1 z), i.2)
    | inr (nz, (r, p, at)) ↦ rw at (i.0, (λ z. absurd (nz z)), put_in_free-IsFds l i.2 p)
  ]

  has_fd_perm-put :
      (fd perm : ℕ) (l : List ℕ) {l' : List ℕ}
      → IsFds l
      → put_in_free v l ≡ some l'
      → has_fd_perm_from l' fd perm ≡ (
          if lists l fd
          then has_fd_perm_from l fd perm
          else if v / 256 == fd
          then bit_and (bit_and v 15) perm != 0
          else false)
  unfolding has_fd_perm_from put_in_free
  has_fd_perm-put fd perm [] i e = ground arith
  has_fd_perm-put fd perm (x ∷ l) {l' = l'} i e = elim (placed v x l e) [
    | inl (z, at) ↦ rw (at, z) (has_fd_perm-first fd perm v l small (i.1 z))
    | inr (nz, (r, p, at)) ↦ rw at (ground (arith, has_fd_perm-put fd perm l i.2 p))
  ]

-- What a call that returns has written, and where.
pub sc_fd_add-lem :
    (fd prot : ℕ) (sc : Sc) {sc' : Sc}
    → prot < 2 ^ 31
    → sc_fd_add fd prot sc ≡ ok sc'
    → (put_in_free (fd_entry fd prot) sc.sc_fd ≡ some sc'.sc_fd)
      × (fd_entry fd prot / 256 ≡ fd)
      × (bit_and (fd_entry fd prot) 15 ≡ prot)
      × (fd_entry fd prot < 2 ^ 31)
unfolding sc_fd_add
sc_fd_add-lem fd prot sc {sc' = sc'} h e = ground arith

-- With a `prot` that is not negative and an array whose entries in use come first and are
-- positive: after a call of sc_fd_add that returns the array is so again, a descriptor that had
-- an entry keeps its rights, the new one has those of `prot` if it had no entry, and no other has
-- any.
pub has_fd_perm-sc_fd_add :
    (fd prot : ℕ) (sc : Sc) {sc' : Sc}
    → prot < 2 ^ 31
    → IsFds sc.sc_fd
    → sc_fd_add fd prot sc ≡ ok sc'
    → IsFds sc'.sc_fd
      × ((fd' perm : ℕ)
          → has_fd_perm sc' fd' perm ≡ (
              if lists sc.sc_fd fd'
              then has_fd_perm sc fd' perm
              else if fd == fd'
              then bit_and prot perm != 0
              else false))
unfolding has_fd_perm
has_fd_perm-sc_fd_add fd prot sc h i e =
    let (put, same_fd, same_prot, small) = sc_fd_add-lem fd prot sc h e in
    let v = fd_entry fd prot in
    (
      put_in_free-IsFds v small sc.sc_fd i put,
      λ fd' perm. rw (has_fd_perm-put v small fd' perm sc.sc_fd i put, same_fd, same_prot) refl,
    )
