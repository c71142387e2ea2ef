-- ===== src/Sthread/Pages/Reach.antt =====
-- Which pages user code reaches behind walk_protect.
use vmpl_apps.Base.{
  ℕ, ◌+◌, ◌≤◌, ◌<◌, ◌≡◌, ◌≢◌, ◌^◌, ◌⊎◌, ◌↔◌, Bool, true, false, none, some, List, [], ◌∷◌, All,
  refl, arith, if◌then◌else◌,
}
use vmpl_apps.Base.Words.{has_bit}
use vmpl_apps.Sthread.{prot_write, stack_size, tag_size}
use vmpl_apps.Sthread.Pages.{
  Mmu, IsMmu, Segment, segment_of, grant_of, in_stack, walk_protect, tag_address,
}
use vmpl_apps.Sthread.Pages.Protect.{user, user_scanned}

-- The first segment around the address is not writable.
abbrev pub IsReadOnly : List Segment → ℕ → Type 0
IsReadOnly [] va = true ≡ false
IsReadOnly (seg ∷ next) va =
    ((seg.s_start ≤ va) × (va < seg.s_end) × (has_bit seg.s_flags prot_write ≡ false))
    ⊎ ((va < seg.s_start ⊎ seg.s_end ≤ va) × IsReadOnly next va)

abbrev pub IsOutside : List Segment → ℕ → Type 0
IsOutside segs va = All (λ seg. va < seg.s_start ⊎ seg.s_end ≤ va) segs

-- One of the tags in front of the first free entry is around the address.
abbrev pub IsGiven : (sc_mem : List ℕ) → ℕ → Type 0
IsGiven [] va = true ≡ false
IsGiven (tag ∷ next) va =
    (tag ≢ 0) × (((tag_address tag ≤ va) × (va < tag_address tag + tag_size)) ⊎ IsGiven next va)

abbrev pub IsReached : List Segment → (st_stack : ℕ) → (sc_mem : List ℕ) → ℕ → Type 0
IsReached segs st_stack sc_mem va =
    IsReadOnly segs va
    ⊎ (IsOutside segs va × (((st_stack ≤ va) × (va < st_stack + stack_size)) ⊎ IsGiven sc_mem va))

abbrev in_segment : List Segment → ℕ → ℕ
in_segment segs va = elim (segment_of segs va) [
  | some seg ↦ if has_bit seg.s_flags prot_write then 2 else 1
  | none ↦ 0
]

in_segment-read : (segs : List Segment) (va : ℕ) → (in_segment segs va ≡ 1) ↔ IsReadOnly segs va
unfolding segment_of
in_segment-read [] va = ((λ e. absurd (omega arith)), (λ e. absurd cc))
in_segment-read (seg ∷ next) va = ground (arith, in_segment-read next va)

in_segment-none : (segs : List Segment) (va : ℕ) → (in_segment segs va ≡ 0) ↔ IsOutside segs va
unfolding segment_of
in_segment-none [] va = ((λ e. tt), (λ e. refl))
in_segment-none (seg ∷ next) va = ground (arith, in_segment-none next va)

abbrev granted : List ℕ → ℕ → Bool
granted sc_mem va = elim (grant_of sc_mem va) [ none ↦ false | some tag ↦ true ]

granted_iff :
    (sc_mem : List ℕ) (va : ℕ)
    → All (λ tag. tag_address tag + tag_size < 2 ^ 64) sc_mem
    → (granted sc_mem va ≡ true) ↔ IsGiven sc_mem va
unfolding grant_of
granted_iff [] va fits = ((λ e. absurd cc), (λ e. absurd cc))
granted_iff (tag ∷ next) va fits = ground (arith, granted_iff next va fits.1)

-- With the bits of x86-64, and a stack and tags that do not wrap: behind walk_protect a page can
-- be reached by user code exactly when the first segment around it is not writable, or when it is
-- in no segment and in the stack of the compartment or a granted tag.
pub user-walk_protect :
    (mm : Mmu) (segs : List Segment) (st_stack va pte : ℕ) (sc_mem : List ℕ)
    → IsMmu mm
    → st_stack + stack_size < 2 ^ 64
    → All (λ tag. tag_address tag + tag_size < 2 ^ 64) sc_mem
    → (user (walk_protect mm segs st_stack sc_mem va pte) ≡ 1) ↔ IsReached segs st_stack sc_mem va
unfolding in_stack
user-walk_protect mm segs st_stack va pte sc_mem ok_mm stack fits = ground (
  arith,
  user_scanned mm ok_mm segs st_stack va pte sc_mem,
  in_segment-read segs va,
  in_segment-none segs va,
  granted_iff sc_mem va fits,
)
