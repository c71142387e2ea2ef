-- ===== src/Sthread/Kernel/Cleared.antt =====
-- The stack of a compartment that has ended.
use vmpl_apps.Base.{
  ℕ, ◌+◌, ◌*◌, ◌≤◌, ◌<◌, ◌≡◌, ◌≢◌, ◌⊎◌, inl, inr, refl, ◌∙◌, ap, Bool, false, List, [], ◌∷◌, length,
  All, arith,
}
use vmpl_apps.Base.Words.{◌+w◌, ◌-w◌, has_bit}
use vmpl_apps.Sthread.{stack_size}
use vmpl_apps.Sthread.Pages.{memset_zero, walk_recycle_stack}
use vmpl_apps.Sthread.Kernel.{
  World, Kernel, Space, Sthread, ret, recycle_page, recycle_segments, recycle_stack_page, set_entry,
  recycle,
}
use vmpl_apps.Sthread.Kernel.Recycled.{
  visit_all, visit_step, page_entries, pages_frame, le_lt_cases,
}
use vmpl_apps.Sthread.Kernel.Clean.{
  IsWalk, writable_pages, segments_visited, stack_step, stack_page_frame, stack_frame,
}

-- A page of the stack that is not marked dirty holds zeros.
abbrev pub IsClear : World → Sthread → List ℕ → (walk : ℕ) → Space → Type 0
IsClear w s [] walk sp = Unit
IsClear w s (va ∷ pages) walk sp =
    (has_bit (sp.entries s.st_pgroot va) w.mmu.pte_d ≡ false
      → (o : ℕ) → walk ≤ o
      → o < walk + 4096
      → sp.bytes (s.st_stack + o) ≡ 0)
    × IsClear w s pages (walk + 4096) sp

module _ (w : World) (s : Sthread) where
  IsClear-same :
      (pages : List ℕ) (walk : ℕ) (sp sp' : Space)
      → All (λ va. sp'.entries s.st_pgroot va ≡ sp.entries s.st_pgroot va) pages
      → ((o : ℕ)
          → walk ≤ o
          → o < walk + 4096 * length pages
          → sp'.bytes (s.st_stack + o) ≡ sp.bytes (s.st_stack + o))
      → IsClear w s pages walk sp
      → IsClear w s pages walk sp'
  IsClear-same [] walk sp sp' e b c = tt
  IsClear-same (va ∷ pages) walk sp sp' e b c = (
    λ clean o lo hi. b o lo (omega arith) ∙ c.0 (rw e.0 at clean) o lo hi,
    IsClear-same pages (walk + 4096) sp sp' e.1 (λ o lo hi. b o (omega arith) (omega arith)) c.1,
  )

  stack_entries :
      (va va' walk : ℕ) (sp : Space)
      → (recycle_stack_page w s va walk sp).2.entries s.st_pgroot va' ≡ sp.entries s.st_pgroot va'
  unfolding recycle_stack_page walk_recycle_stack set_entry
  stack_entries va va' walk sp = ground arith

  same_entries :
      (va walk : ℕ) (sp : Space) (pages : List ℕ)
      → All
          (λ va'.
            (recycle_stack_page w s va walk sp).2.entries s.st_pgroot va'
            ≡ sp.entries s.st_pgroot va')
          pages
  same_entries va walk sp [] = tt
  same_entries va walk sp (va' ∷ pages) =
      (stack_entries va va' walk sp, same_entries va walk sp pages)

  page_cleared :
      (va walk o : ℕ) (sp : Space)
      → (has_bit (sp.entries s.st_pgroot va) w.mmu.pte_d ≡ false → sp.bytes (s.st_stack + o) ≡ 0)
      → walk ≤ o
      → o < walk + 4096
      → (recycle_stack_page w s va walk sp).2.bytes (s.st_stack + o) ≡ 0
  unfolding recycle_stack_page walk_recycle_stack memset_zero
  page_cleared va walk o sp t lo hi = ground arith

  -- Other pages keep their entries.
  pages_entries :
      (c : ℕ) (pages : List ℕ) (va : ℕ) (walk : ℕ) (sp : Space)
      → All (λ p. va ≢ p) pages
      → (visit_all pages (recycle_page w s c) walk sp).2.entries s.st_pgroot va
        ≡ sp.entries s.st_pgroot va
  pages_entries c [] va walk sp d = unfold visit_all in refl
  pages_entries c (p ∷ pages) va walk sp d = rw (visit_step w s c p pages walk sp) (
      pages_entries c pages va (walk + 4096) (recycle_page w s c p walk sp).2 d.1
      ∙ page_entries w s c p va walk sp d.0)

  all_entries :
      (c : ℕ) (pages stack : List ℕ) (sp : Space)
      → All (λ va. All (λ p. va ≢ p) pages) stack
      → All
          (λ va.
            (visit_all pages (recycle_page w s c) 0 sp).2.entries s.st_pgroot va
            ≡ sp.entries s.st_pgroot va)
          stack
  all_entries c pages [] sp d = tt
  all_entries c pages (va ∷ stack) sp d =
      (pages_entries c pages va 0 sp d.0, all_entries c pages stack sp d.1)

module _ (w : World) (pages : (root first last : ℕ) → List ℕ) (law : IsWalk w pages)
    (s : Sthread) where
  stack_cleared :
      (l : List ℕ) (walk o : ℕ) (sp : Space)
      → IsClear w s l walk sp
      → walk ≤ o
      → o < walk + 4096 * length l
      → (visit_all l (recycle_stack_page w s) walk sp).2.bytes (s.st_stack + o) ≡ 0
  stack_cleared [] walk o sp c lo hi = absurd (omega arith)
  stack_cleared (va ∷ l) walk o sp c lo hi =
      let sp' = (recycle_stack_page w s va walk sp).2 in
      rw (stack_step w pages law s va l walk sp) (elim (le_lt_cases (walk + 4096) o) [
        | inl later ↦
            stack_cleared l (walk + 4096) o sp'
              (IsClear-same w s l (walk + 4096) sp sp' (same_entries w s va walk sp l)
                (λ o' lo' hi'.
                  stack_page_frame w pages law s va walk (s.st_stack + o') sp (omega arith))
                c.1)
              later (omega arith)
        | inr first ↦
            stack_frame w pages law s l (walk + 4096) (s.st_stack + o) sp' (omega arith)
            ∙ page_cleared w s va walk o sp (λ clean. c.0 clean o lo first) lo first
      ])

  -- With a page walk that visits each page of its range in turn, a stack that does not overlap
  -- the compartment's copy of the writable memory, whose pages are none of the writable
  -- segments, and hold zeros unless they are marked dirty: recycle returns, and each byte of
  -- the pages that the walk of the stack visits is then 0.
  pub recycle_clears :
      (k : Kernel) (o : ℕ)
      → let l = writable_pages w pages law s k.segments in
        let n = pages s.st_pgroot s.st_stack (s.st_stack +w stack_size -w 4096) in
        (s.st_stack + 4096 * length n ≤ s.st_writable)
          ⊎ (s.st_writable + 4096 * length l ≤ s.st_stack)
        → All (λ va. All (λ p. va ≢ p) l) n
        → IsClear w s n 0 k.space
        → o < 4096 * length n
        → (s' : Sthread) × (k' : Kernel) × (recycle w s k ≡ ret s' k')
          × (k'.space.bytes (s.st_stack + o) ≡ 0)
  unfolding recycle
  recycle_clears k o apart distinct clear lt =
      let c = k.checkpointed_mem in
      let l = writable_pages w pages law s k.segments in
      let last = s.st_stack +w stack_size -w 4096 in
      let n = pages s.st_pgroot s.st_stack last in
      let sp = (recycle_segments w s c k.segments 0 k.space).1 in
      let visited = segments_visited w pages law s c k.segments 0 k.space in
      let at = (visit_all l (recycle_page w s c) 0 k.space).2 in
      let kept =
        IsClear-same w s n 0 k.space at (all_entries w s c l n k.space distinct)
          (λ o' lo hi. pages_frame w s c l 0 (s.st_stack + o') k.space (omega arith)) clear in
      let walked = law.walks s.st_pgroot s.st_stack last (recycle_stack_page w s) 0 sp in
      (
        _,
        _,
        refl,
        ap (λ (t : Bool × ℕ × Space). t.2.bytes (s.st_stack + o)) walked
            ∙ ap
                (λ (t : Space). (visit_all n (recycle_stack_page w s) 0 t).2.bytes (s.st_stack + o))
                visited
            ∙ stack_cleared n 0 o at kept (omega arith) (omega arith),
      )
