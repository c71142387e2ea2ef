-- ===== src/Sthread/Checkpoint/Layout.antt =====
-- What the checkpoint holds.
use vmpl_apps.Base.{
  ℕ, ◌+◌, ◌-◌, ◌^◌, ◌≤◌, ◌<◌, ◌≡◌, ◌⊎◌, inl, inr, refl, Option, none, some, List, [], ◌∷◌, leb, ltb,
  if◌then◌else◌, arith, ◌∙◌, Option-cases, Bool-cases,
}
use vmpl_apps.Base.Words.{has_bit, low32}
use vmpl_apps.Sthread.{prot_write}
use vmpl_apps.Sthread.Pages.{Segment, Bytes, memcpy}
use vmpl_apps.Sthread.Checkpoint.{checkpoint_do, writable_from}

-- The bytes of the writable segments.
abbrev pub total : List Segment → ℕ
total [] = 0
total (seg ∷ next) = (if has_bit seg.s_flags prot_write then seg.s_len else 0) + total next

-- The address whose byte stands at an offset of the checkpoint.
abbrev pub origin : List Segment → (offset : ℕ) → Option ℕ
origin [] o = none
origin (seg ∷ next) o =
    if has_bit seg.s_flags prot_write
    then if ltb o seg.s_len then some (seg.s_start + o) else origin next (o - seg.s_len)
    else origin next o

-- No segment overlaps the area from `lo` up to `hi`.
abbrev pub IsOutside : (lo hi : ℕ) → List Segment → Type 0
IsOutside lo hi [] = Unit
IsOutside lo hi (seg ∷ next) =
    ((seg.s_start + seg.s_len ≤ lo) ⊎ (hi ≤ seg.s_start)) × IsOutside lo hi next

origin-outside :
    (lo hi : ℕ) (segs : List Segment) (o b : ℕ)
    → IsOutside lo hi segs
    → origin segs o ≡ some b
    → (b < lo) ⊎ (hi ≤ b)
origin-outside lo hi [] o b out e = ground arith
origin-outside lo hi (seg ∷ next) o b out e =
    ground (
      arith,
      origin-outside lo hi next o b out.1,
      origin-outside lo hi next (o - seg.s_len) b out.1,
    )

origin-none : (segs : List Segment) (o : ℕ) → total segs ≤ o → origin segs o ≡ none
origin-none [] o h = refl
origin-none (seg ∷ next) o h = ground (arith, origin-none next o, origin-none next (o - seg.s_len))

-- The byte at `a` behind a copy of the segments to `c`.
abbrev pub copied : List Segment → (c a : ℕ) → Bytes → ℕ
copied segs c a mem = elim (if leb c a then origin segs (a - c) else none) [
  | none ↦ mem a
  | some b ↦ mem b
]

module _ (lo hi : ℕ) where
  copied-memcpy :
      (c src n : ℕ) (segs : List Segment) (a : ℕ) (mem : Bytes)
      → lo ≤ c
      → c + n ≤ hi
      → IsOutside lo hi segs
      → copied segs (c + n) a (memcpy c src n mem)
        ≡ elim (if leb (c + n) a then origin segs (a - (c + n)) else none) [
          | none ↦ memcpy c src n mem a
          | some b ↦ mem b
        ]
  unfolding memcpy
  copied-memcpy c src n segs a mem h h' out = elim (Option-cases (origin segs (a - (c + n)))) [
    | inl e ↦ ground arith
    | inr (b, e) ↦ ground (arith, origin-outside lo hi segs (a - (c + n)) b out e)
  ]

  checkpoint_do-copied :
      (segs : List Segment) (c a : ℕ) (mem : Bytes)
      → lo ≤ c
      → c + total segs ≤ hi
      → IsOutside lo hi segs
      → checkpoint_do segs c mem a ≡ copied segs c a mem
  unfolding checkpoint_do memcpy
  checkpoint_do-copied [] c a mem h h' out = ground arith
  checkpoint_do-copied (seg ∷ next) c a mem h h' out =
      let mem' = memcpy c seg.s_start seg.s_len mem in
      let same : a - (c + seg.s_len) ≡ a - c - seg.s_len = omega arith in
      elim (Bool-cases (has_bit seg.s_flags prot_write)) [
        | inl e ↦
            let ends : c + seg.s_len + total next ≤ hi = ground arith in
            let rest = checkpoint_do-copied next (c + seg.s_len) a mem' (omega arith) ends out.1 in
            let through = copied-memcpy c seg.s_start seg.s_len next a mem h (omega arith) out.1 in
            rw e (rest ∙ through ∙ rw same (ground arith))
        | inr e ↦
            let skip : copied next c a mem ≡ copied (seg ∷ next) c a mem = ground arith in
            rw e (checkpoint_do-copied next c a mem h (ground arith) out.1 ∙ skip)
      ]

writable_from-total :
    (segs : List Segment) (acc : ℕ)
    → acc + total segs < 2 ^ 31
    → writable_from acc segs ≡ acc + total segs
unfolding writable_from
writable_from-total [] acc h = omega arith
writable_from-total (seg ∷ next) acc h =
    ground (arith, writable_from-total next acc, writable_from-total next (low32 (acc + seg.s_len)))

-- With writable segments of less than 2 GiB in all that do not overlap the checkpoint: behind
-- checkpoint_do each byte of the checkpoint is that of the address at its offset in the writable
-- segments, and every byte before the checkpoint or behind the `writable` bytes that
-- checkpoint_prepare has counted is as before.
pub checkpoint_do_lem :
    (segs : List Segment) (c a : ℕ) (mem : Bytes)
    → total segs < 2 ^ 31
    → IsOutside c (c + total segs) segs
    → (checkpoint_do segs c mem a ≡ copied segs c a mem)
      × ((a < c) ⊎ (c + writable_from 0 segs ≤ a) → checkpoint_do segs c mem a ≡ mem a)
checkpoint_do_lem segs c a mem small out =
    let all =
      checkpoint_do-copied c (c + total segs) segs c a mem (omega arith) (omega arith) out in
    (all, λ h. all ∙ ground (arith, h, writable_from-total segs 0, origin-none segs (a - c)))
