-- ===== src/Sthread/Kernel/Clean.antt =====
-- A compartment that has ended holds what a fresh one holds.
use vmpl_apps.Base.{
  ℕ, ◌+◌, ◌-◌, ◌*◌, ◌^◌, ◌≤◌, ◌<◌, ◌≡◌, ◌⊎◌, inl, inr, refl, sym, ◌∙◌, ap, Bool, List, [], ◌∷◌,
  ◌++◌, length, arith, if◌then◌else◌, Bool-cases,
}
use vmpl_apps.Base.Words.{◌+w◌, ◌-w◌, has_bit}
use vmpl_apps.Sthread.{prot_write, stack_size}
use vmpl_apps.Sthread.Pages.{Segment, memset_zero, walk_recycle_stack}
use vmpl_apps.Sthread.Kernel.{
  World, Kernel, Space, Sthread, Visitor, ret, recycle_page, recycle_segments, recycle_stack_page,
  recycle,
}
use vmpl_apps.Sthread.Kernel.Recycled.{visit_all, visit_step, IsTracked, IsDistinct, pages_restored}

-- dune_vm_page_walk calls its argument for each page of the range in turn, while that says to go on.
pub record IsWalk (w : World) (pages : (root first last : ℕ) → List ℕ) : Type 0 where
  pub walks :
      (root first last : ℕ) (visit : Visitor) (walk : ℕ) (sp : Space)
      → w.page_walk root first last visit walk sp ≡ visit_all (pages root first last) visit walk sp
  pub few : (root first last : ℕ) → 4096 * length (pages root first last) ≤ last + 4096 - first

module _ (w : World) (pages : (root first last : ℕ) → List ℕ) (law : IsWalk w pages)
    (s : Sthread) where
  -- The pages of the writable segments, in the order of the checkpoint.
  abbrev pub writable_pages : List Segment → List ℕ
  writable_pages [] = []
  writable_pages (seg ∷ next) =
      if has_bit seg.s_flags prot_write
      then pages s.st_pgroot seg.s_start (seg.s_end -w 4096) ++ writable_pages next
      else writable_pages next

  module _ (c : ℕ) where
    visit_all-append :
        (xs ys : List ℕ) (walk : ℕ) (sp : Space)
        → visit_all (xs ++ ys) (recycle_page w s c) walk sp
          ≡ visit_all ys
              (recycle_page w s c)
              (visit_all xs (recycle_page w s c) walk sp).1
              (visit_all xs (recycle_page w s c) walk sp).2
    visit_all-append [] ys walk sp = unfold visit_all in refl
    visit_all-append (x ∷ xs) ys walk sp =
        visit_step w s c x (xs ++ ys) walk sp
        ∙ visit_all-append xs ys (walk + 4096) (recycle_page w s c x walk sp).2
        ∙ rw (visit_step w s c x xs walk sp) refl

    pub segments_visited :
        (segs : List Segment) (walk : ℕ) (sp : Space)
        → (recycle_segments w s c segs walk sp).1
          ≡ (visit_all (writable_pages segs) (recycle_page w s c) walk sp).2
    unfolding recycle_segments visit_all
    segments_visited [] walk sp = refl
    segments_visited (seg ∷ next) walk sp =
        let these = pages s.st_pgroot seg.s_start (seg.s_end -w 4096) in
        let r = visit_all these (recycle_page w s c) walk sp in
        let walk_first =
          w.page_walk s.st_pgroot seg.s_start (seg.s_end -w 4096) (recycle_page w s c) walk sp in
        let walked =
          law.walks s.st_pgroot seg.s_start (seg.s_end -w 4096) (recycle_page w s c) walk sp in
        let choose = λ (b : Bool).
          let at : ℕ × Space = if b then (walk_first.1, walk_first.2) else (walk, sp) in
          (recycle_segments w s c next at.0 at.1).1 in
        elim (Bool-cases (has_bit seg.s_flags prot_write)) [
          | inl e ↦
              let rejoined : (visit_all (writable_pages (seg ∷ next)) (recycle_page w s c) walk
                    sp).2
                  ≡ (visit_all (writable_pages next) (recycle_page w s c) r.1 r.2).2 =
                rw e (
                  ap (λ (t : Bool × ℕ × Space). t.2)
                    (visit_all-append these (writable_pages next) walk sp)) in
              ap choose e
              ∙ ap (λ (t : Bool × ℕ × Space). (recycle_segments w s c next t.1 t.2).1) walked
              ∙ segments_visited next r.1 r.2
              ∙ sym rejoined
          | inr e ↦
              let same : (visit_all (writable_pages (seg ∷ next)) (recycle_page w s c) walk sp).2
                  ≡ (visit_all (writable_pages next) (recycle_page w s c) walk sp).2 =
                rw e refl in
              ap choose e ∙ segments_visited next walk sp ∙ sym same
        ]

  pub stack_step :
      (va : ℕ) (l : List ℕ) (walk : ℕ) (sp : Space)
      → visit_all (va ∷ l) (recycle_stack_page w s) walk sp
        ≡ visit_all l (recycle_stack_page w s) (walk + 4096) (recycle_stack_page w s va walk sp).2
  unfolding visit_all recycle_stack_page walk_recycle_stack
  stack_step va l walk sp = elim (Bool-cases (has_bit (sp.entries s.st_pgroot va) w.mmu.pte_d)) [
    | inl e ↦ rw e refl
    | inr e ↦ rw e refl
  ]

  pub stack_page_frame :
      (va walk a : ℕ) (sp : Space)
      → (a < s.st_stack + walk) ⊎ (s.st_stack + walk + 4096 ≤ a)
      → (recycle_stack_page w s va walk sp).2.bytes a ≡ sp.bytes a
  unfolding recycle_stack_page walk_recycle_stack memset_zero
  stack_page_frame va walk a sp h = ground arith

  -- Nothing but the stack is cleared.
  pub stack_frame :
      (l : List ℕ) (walk a : ℕ) (sp : Space)
      → (a < s.st_stack + walk) ⊎ (s.st_stack + walk + 4096 * length l ≤ a)
      → (visit_all l (recycle_stack_page w s) walk sp).2.bytes a ≡ sp.bytes a
  stack_frame [] walk a sp h = unfold visit_all in refl
  stack_frame (va ∷ l) walk a sp h = rw (stack_step va l walk sp) (
      stack_frame l (walk + 4096) a (recycle_stack_page w s va walk sp).2 (omega arith)
      ∙ stack_page_frame va walk a sp (omega arith))

  -- With a page walk that visits each page of its range in turn, a checkpoint and a stack that
  -- do not overlap the compartment's copy of the writable memory, no page twice in the writable
  -- segments, and pages that hold what the checkpoint holds unless they are marked dirty:
  -- recycle returns, and each byte of the copy is then that of the checkpoint.
  pub recycle_restores :
      (k : Kernel) (size o : ℕ)
      → (k.checkpointed_mem + size ≤ s.st_writable) ⊎ (s.st_writable + size ≤ k.checkpointed_mem)
      → (s.st_stack + stack_size ≤ s.st_writable) ⊎ (s.st_writable + size ≤ s.st_stack)
      → s.st_stack + stack_size < 2 ^ 64
      → 4096 * length (writable_pages k.segments) ≤ size
      → IsDistinct w s k.checkpointed_mem (writable_pages k.segments)
      → IsTracked w s k.checkpointed_mem (writable_pages k.segments) 0 k.space
      → o < 4096 * length (writable_pages k.segments)
      → (s' : Sthread) × (k' : Kernel) × (recycle w s k ≡ ret s' k')
        × (k'.space.bytes (s.st_writable + o) ≡ k.space.bytes (k.checkpointed_mem + o))
  unfolding recycle
  recycle_restores k size o apart stack_apart stack_fits fits d t lt =
      let c = k.checkpointed_mem in
      let l = writable_pages k.segments in
      let sp = (recycle_segments w s c k.segments 0 k.space).1 in
      let last = s.st_stack +w stack_size -w 4096 in
      let n = pages s.st_pgroot s.st_stack last in
      let walked = law.walks s.st_pgroot s.st_stack last (recycle_stack_page w s) 0 sp in
      let visited = segments_visited c k.segments 0 k.space in
      let small = law.few s.st_pgroot s.st_stack last in
      (
        _,
        _,
        refl,
        ap (λ (t : Bool × ℕ × Space). t.2.bytes (s.st_writable + o)) walked
            ∙ stack_frame n 0 (s.st_writable + o) sp (omega arith)
            ∙ ap (λ (t : Space). t.bytes (s.st_writable + o)) visited
            ∙ pages_restored w s c size apart l 0 o k.space (omega arith) d t (omega arith)
                (omega arith),
      )
