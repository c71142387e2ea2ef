-- ===== src/Sthread/Tags/Bump.antt =====
-- The memory of the tags that is still free.
use vmpl_apps.Base.{
  ℕ, ◌+◌, ◌^◌, ◌≤◌, ◌<◌, ◌≡◌, ◌⊎◌, inl, inr, refl, none, some, List, [], ◌∷◌, arith, ◌==◌, All,
  Bool-cases,
}
use vmpl_apps.Sthread.{tag_size}
use vmpl_apps.Sthread.Tags.{Tag, smalloc, smalloc_at}

-- The buffers do not overlap.
abbrev pub IsApart : Tag → Tag → Type 0
IsApart t u = (t.t_buf + t.t_len ≤ u.t_buf) ⊎ (u.t_buf + u.t_len ≤ t.t_buf)

-- The pointer is in the buffer, which is one mapping of TAG_SIZE bytes.
pub record IsTag (t : Tag) : Type 0 where
  pub above : t.t_buf ≤ t.t_p
  pub below : t.t_p ≤ t.t_buf + t.t_len
  pub size : t.t_len ≡ tag_size
  pub mapped : t.t_buf + t.t_len < 2 ^ 64

abbrev pub IsTags : List Tag → Type 0
IsTags [] = Unit
IsTags (t ∷ l) = IsTag t × All (IsApart t) l × IsTags l

-- A chunk in the free part of a tag.
abbrev IsIn : Tag → (p sz : ℕ) → Type 0
IsIn t p sz = (t.t_p ≤ p) × (p + sz ≤ t.t_buf + t.t_len)

abbrev pub IsFree : List Tag → (p sz : ℕ) → Type 0
IsFree [] p sz = ⊥
IsFree (t ∷ l) p sz = IsIn t p sz ⊎ IsFree l p sz

abbrev pub IsDisjoint : (p sz q sz' : ℕ) → Type 0
IsDisjoint p sz q sz' = (p + sz ≤ q) ⊎ (q + sz' ≤ p)

-- A chunk of one tag and a chunk of the others.
others-IsDisjoint :
    (t : Tag) (l : List Tag) (p sz q sz' : ℕ)
    → IsTag t
    → IsTags l
    → All (IsApart t) l
    → IsIn t p sz
    → IsFree l q sz'
    → IsDisjoint p sz q sz'
others-IsDisjoint t [] p sz q sz' it i a h f = absurd f
others-IsDisjoint t (u ∷ l) p sz q sz' it i a h f =
    ground (arith, i.0.above, i.0.below, it.above, it.below, others-IsDisjoint t l p sz q sz' it)

module _ (tid sz : ℕ) (small : sz + tag_size < 2 ^ 64) where
  smalloc_at-IsTag : (t : Tag) → IsTag t → IsTag (smalloc_at sz t).1
  unfolding smalloc_at
  smalloc_at-IsTag t i = ground arith

  smalloc_at-IsIn : (t : Tag) {p : ℕ} → IsTag t → (smalloc_at sz t).0 ≡ some p → IsIn t p sz
  unfolding smalloc_at
  smalloc_at-IsIn t i e = ground arith

  -- What is free afterwards was free before, and is not in the new chunk.
  smalloc_at-frees :
      (t : Tag) (p q sz' : ℕ)
      → IsTag t
      → (smalloc_at sz t).0 ≡ some p
      → IsIn (smalloc_at sz t).1 q sz'
      → IsIn t q sz' × IsDisjoint p sz q sz'
  unfolding smalloc_at
  smalloc_at-frees t p q sz' i e f = ground arith

  All-IsApart : (t : Tag) (l : List Tag) → All (IsApart t) l → All (IsApart t) (smalloc l tid sz).1
  unfolding smalloc smalloc_at
  All-IsApart t [] a = a
  All-IsApart t (u ∷ l) a = ground (arith, All-IsApart t l)

  IsApart-smalloc_at :
      (t : Tag) (l : List Tag) → All (IsApart t) l → All (IsApart (smalloc_at sz t).1) l
  unfolding smalloc_at
  IsApart-smalloc_at t [] a = a
  IsApart-smalloc_at t (u ∷ l) a = ground (arith, IsApart-smalloc_at t l)

  pub smalloc-IsTags : (l : List Tag) → IsTags l → IsTags (smalloc l tid sz).1
  unfolding smalloc
  smalloc-IsTags [] i = i
  smalloc-IsTags (t ∷ l) i = elim (Bool-cases (t.t_id == tid)) [
    | inl e ↦ rw e (smalloc_at-IsTag t i.0, IsApart-smalloc_at t l i.1, i.2)
    | inr e ↦ rw e (i.0, All-IsApart t l i.1, smalloc-IsTags l i.2)
  ]

  pub smalloc-IsFree :
      (l : List Tag) (p : ℕ) → IsTags l → (smalloc l tid sz).0 ≡ some p → IsFree l p sz
  unfolding smalloc
  smalloc-IsFree [] p i e = ground arith
  smalloc-IsFree (t ∷ l) p i e = ground (arith, smalloc_at-IsIn t i.0, smalloc-IsFree l p i.2)

  smalloc_here :
      (t : Tag) (l : List Tag) (p q sz' : ℕ)
      → IsTags (t ∷ l)
      → (smalloc_at sz t).0 ≡ some p
      → IsFree ((smalloc_at sz t).1 ∷ l) q sz'
      → IsFree (t ∷ l) q sz' × IsDisjoint p sz q sz'
  smalloc_here t l p q sz' i e (inl f) =
      let (free, apart) = smalloc_at-frees t p q sz' i.0 e f in (inl free, apart)
  smalloc_here t l p q sz' i e (inr f) =
      (inr f, others-IsDisjoint t l p sz q sz' i.0 i.2 i.1 (smalloc_at-IsIn t i.0 e) f)

  smalloc_behind :
      (t : Tag) (l : List Tag) (p q sz' : ℕ)
      → IsTags (t ∷ l)
      → (smalloc l tid sz).0 ≡ some p
      → IsFree (t ∷ (smalloc l tid sz).1) q sz'
      → ((smalloc l tid sz).0 ≡ some p
          → IsFree (smalloc l tid sz).1 q sz'
          → IsFree l q sz' × IsDisjoint p sz q sz')
      → IsFree (t ∷ l) q sz' × IsDisjoint p sz q sz'
  smalloc_behind t l p q sz' i e (inl f) ih =
      let apart = others-IsDisjoint t l q sz' p sz i.0 i.2 i.1 f (smalloc-IsFree l p i.2 e) in
      (inl f, ground arith)
  smalloc_behind t l p q sz' i e (inr f) ih = let (free, apart) = ih e f in (inr free, apart)

  pub smalloc-frees :
      (l : List Tag) (p q sz' : ℕ)
      → IsTags l
      → (smalloc l tid sz).0 ≡ some p
      → IsFree (smalloc l tid sz).1 q sz'
      → IsFree l q sz' × IsDisjoint p sz q sz'
  unfolding smalloc
  smalloc-frees [] p q sz' i e f = absurd f
  smalloc-frees (t ∷ l) p q sz' i e f = elim (Bool-cases (t.t_id == tid)) [
    | inl same ↦ smalloc_here t l p q sz' i (rw same at e) (rw same at f)
    | inr other ↦
        smalloc_behind t l p q sz' i (rw other at e) (rw other at f) (smalloc-frees l p q sz' i.2)
  ]

  -- A call that gives out nothing leaves everything as it was.
  pub smalloc-none : (l : List Tag) → (smalloc l tid sz).0 ≡ none → (smalloc l tid sz).1 ≡ l
  unfolding smalloc smalloc_at
  smalloc-none [] e = refl
  smalloc-none (t ∷ l) e = ground (arith, smalloc-none l)
