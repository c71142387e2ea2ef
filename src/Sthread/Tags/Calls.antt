-- ===== src/Sthread/Tags/Calls.antt =====
-- Rows of calls of smalloc.
use vmpl_apps.Base.{
  ℕ, ◌+◌, ◌^◌, ◌<◌, ◌≡◌, ◌≤◌, ◌-◌, inl, inr, arith, none, some, List, [], ◌∷◌, All, All-map,
  Option-cases,
}
use vmpl_apps.Sthread.{tag_size}
use vmpl_apps.Sthread.Tags.{Tag, smalloc, smalloc_at}
use vmpl_apps.Sthread.Tags.Bump.{
  IsTag, IsTags, IsFree, IsDisjoint, smalloc-IsTags, smalloc-IsFree, smalloc-frees, smalloc-none,
}

-- The chunks that a row of calls gives out, each with its size.
unfoldable pub smallocs : List (ℕ × ℕ) → List Tag → List (ℕ × ℕ)
smallocs [] tags = []
smallocs ((tid, sz) ∷ calls) tags =
    let (p, tags') = smalloc tags tid sz in
    let rest = smallocs calls tags' in elim p [ none ↦ rest | some q ↦ (q, sz) ∷ rest ]

abbrev pub IsPairwise : List (ℕ × ℕ) → Type 0
IsPairwise [] = Unit
IsPairwise ((p, sz) ∷ l) = All (λ c. IsDisjoint p sz c.0 c.1) l × IsPairwise l

abbrev pub IsSmall : List (ℕ × ℕ) → Type 0
IsSmall [] = Unit
IsSmall ((tid, sz) ∷ l) = (sz + tag_size < 2 ^ 64) × IsSmall l

module _ (tid sz : ℕ) (small : sz + tag_size < 2 ^ 64) (tags : List Tag) (i : IsTags tags) where
  IsFree-smalloc : (q sz' : ℕ) → IsFree (smalloc tags tid sz).1 q sz' → IsFree tags q sz'
  IsFree-smalloc q sz' f = elim (Option-cases (smalloc tags tid sz).0) [
    | inl e ↦ rw (smalloc-none tid sz small tags e) at f
    | inr (p, e) ↦ (smalloc-frees tid sz small tags p q sz' i e f).0
  ]

smallocs-IsFree :
    (calls : List (ℕ × ℕ)) (tags : List Tag)
    → IsSmall calls
    → IsTags tags
    → All (λ c. IsFree tags c.0 c.1) (smallocs calls tags)
unfolding smallocs
smallocs-IsFree [] tags h i = tt
smallocs-IsFree ((tid, sz) ∷ calls) tags h i =
    let tags' = (smalloc tags tid sz).1 in
    let later : All (λ c. IsFree tags c.0 c.1) (smallocs calls tags') =
      All-map _ (λ c. IsFree-smalloc tid sz h.0 tags i c.0 c.1)
        (smallocs-IsFree calls tags' h.1 (smalloc-IsTags tid sz h.0 tags i)) in
    elim (Option-cases (smalloc tags tid sz).0) [
      | inl e ↦ rw (e, All) later
      | inr (p, e) ↦ rw (e, All) (smalloc-IsFree tid sz h.0 tags p i e, later)
    ]

smallocs-IsPairwise :
    (calls : List (ℕ × ℕ)) (tags : List Tag)
    → IsSmall calls
    → IsTags tags
    → IsPairwise (smallocs calls tags)
unfolding smallocs
smallocs-IsPairwise [] tags h i = tt
smallocs-IsPairwise ((tid, sz) ∷ calls) tags h i =
    let tags' = (smalloc tags tid sz).1 in
    let i' = smalloc-IsTags tid sz h.0 tags i in
    let later = smallocs-IsPairwise calls tags' h.1 i' in
    elim (Option-cases (smalloc tags tid sz).0) [
      | inl e ↦ rw (e, IsPairwise) later
      | inr (p, e) ↦
          rw (e, IsPairwise)
            (
              All-map _ (λ c f. (smalloc-frees tid sz h.0 tags p c.0 c.1 i e f).1)
                  (smallocs-IsFree calls tags' h.1 i'),
              later,
            )
    ]

-- With tags whose buffers do not overlap and whose pointers lie in them, and sizes that do not
-- wrap: the chunks that any row of calls of smalloc gives out lie in the free part of the tags,
-- and no two of them overlap.
pub smallocs_lem :
    (calls : List (ℕ × ℕ)) (tags : List Tag)
    → IsSmall calls
    → IsTags tags
    → All (λ c. IsFree tags c.0 c.1) (smallocs calls tags) × IsPairwise (smallocs calls tags)
smallocs_lem calls tags h i = (smallocs-IsFree calls tags h i, smallocs-IsPairwise calls tags h i)

-- For a size of 2 ^ 64 - back, where at least `back` bytes of a tag are in use and `back` is not
-- 0: smalloc succeeds and moves the pointer of the tag back by `back`.
smalloc_wraps :
    (t : Tag) (next : List Tag) (back : ℕ)
    → IsTag t
    → 0 < back
    → t.t_buf + back ≤ t.t_p
    → smalloc (t ∷ next) t.t_id (2 ^ 64 - back)
      ≡ (some t.t_p, record t { t_p = t.t_p - back } ∷ next)
unfolding smalloc smalloc_at
smalloc_wraps t next back i pos h = ground (arith, i.above, i.below, i.size, i.mapped)
