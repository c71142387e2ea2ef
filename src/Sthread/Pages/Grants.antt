-- ===== src/Sthread/Pages/Grants.antt =====
-- What sc_mem_add puts into the array, and what a scan of the array finds then.
use vmpl_apps.Base.{
  ℕ, ◌+◌, ◌*◌, ◌%◌, ◌<◌, ◌≡◌, ◌≢◌, inl, inr, Bool, ◌&&◌, Option, none, some, List, [], ◌∷◌, bit_and,
  bit_or, ltb, leb, if◌then◌else◌, All, arith,
}
use vmpl_apps.Base.Bits.{bit_and_four, bit_or_four, bit_or-zero, bit_and-zero, above}
use vmpl_apps.Base.Words.{◌+w◌}
use vmpl_apps.Sthread.{tag_size}
use vmpl_apps.Sthread.Perms.{put_in_free}
use vmpl_apps.Sthread.Perms.Fds.{placed, no_room}
use vmpl_apps.Sthread.Pages.{tag_address, grant_of}

pub low_digits : (p : ℕ) → bit_and p 15 ≡ p % 16
low_digits p = omega (arith, bit_and_four p 15, bit_and-zero (above p) (above p) (omega arith))

high_digits : (x : ℕ) → tag_address x ≡ bit_and (above x) 0xfffffffffffffff * 16
high_digits x = omega (arith, bit_and_four x 0xfffffffffffffff0)

join_digits : (a p : ℕ) → a % 16 ≡ 0 → p < 16 → bit_or a p ≡ a + p
join_digits a p h lt =
    let none_above : above p ≡ 0 = omega arith in
    let same : bit_or (above a) (above p) ≡ above a =
      rw none_above (bit_or-zero (above a) (above a) (omega arith)) in
    omega (arith, bit_or_four a p, same)

-- The two parts of an entry.
pub entry_lem :
    (a p : ℕ)
    → tag_address a ≡ a
    → p < 16
    → (bit_or a p ≡ a + p) × (a % 16 ≡ 0) × (tag_address (bit_or a p) ≡ a)
entry_lem a p h lt =
    let aligned : a % 16 ≡ 0 = omega (arith, h, high_digits a) in
    let joined = join_digits a p aligned lt in
    let same : above (a + p) ≡ above a = omega arith in
    (joined, aligned, rw joined (rw (high_digits (a + p), same) (omega (arith, h, high_digits a))))

-- The entries that are in use come first.
abbrev pub IsPacked : List ℕ → Type 0
IsPacked [] = Unit
IsPacked (e ∷ l) = (e ≡ 0 → All (λ e'. e' ≡ 0) l) × IsPacked l

-- Whether the tag of an entry holds the address.
abbrev pub covers : (v addr : ℕ) → Bool
covers v addr = leb (tag_address v) addr && ltb addr (tag_address v +w tag_size)

zeros-grant_of : (l : List ℕ) (addr : ℕ) → All (λ e. e ≡ 0) l → grant_of l addr ≡ none
unfolding grant_of
zeros-grant_of [] addr z = ground arith
zeros-grant_of (x ∷ l) addr z = ground arith

pub put-IsPacked :
    (v : ℕ) (l : List ℕ) {l' : List ℕ}
    → IsPacked l
    → v ≢ 0
    → put_in_free v l ≡ some l'
    → IsPacked l'
put-IsPacked v [] i nz e = absurd (no_room v e)
put-IsPacked v (x ∷ l) {l' = l'} i nz e = elim (placed v x l e) [
  | inl (z, at) ↦ rw at ((λ z'. absurd (nz z')), i.1)
  | inr (nz', (r, p, at)) ↦ rw at ((λ z. absurd (nz' z)), put-IsPacked v l i.1 nz p)
]

-- An entry that stands already comes first.
unfoldable pub first_grant : Option ℕ → (v addr : ℕ) → Option ℕ
first_grant (some g) v addr = some g
first_grant none v addr = if covers v addr then some v else none

pub grant_of-put :
    (v addr : ℕ) (l : List ℕ) {l' : List ℕ}
    → IsPacked l
    → v ≢ 0
    → put_in_free v l ≡ some l'
    → grant_of l' addr ≡ first_grant (grant_of l addr) v addr
unfolding grant_of first_grant
grant_of-put v addr [] i nz e = absurd (no_room v e)
grant_of-put v addr (x ∷ l) {l' = l'} i nz e = elim (placed v x l e) [
  | inl (z, at) ↦ rw (at, z) (ground (arith, zeros-grant_of l addr (i.0 z)))
  | inr (nz', (r, p, at)) ↦ rw at (ground (arith, grant_of-put v addr l i.1 nz p))
]
