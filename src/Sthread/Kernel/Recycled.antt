-- ===== src/Sthread/Kernel/Recycled.antt =====
-- What recycle leaves of an earlier use of a compartment.
use vmpl_apps.Base.{
  ℕ, ◌+◌, ◌-◌, ◌*◌, ◌≤◌, ◌<◌, ◌≡◌, ◌≢◌, ◌⊎◌, inl, inr, refl, sym, ◌∙◌, Bool, true, false, List, [],
  ◌∷◌, length, All, arith, if◌then◌else◌, Bool-cases,
}
use native.Mathlib.Decide.{dec_lt}
use vmpl_apps.Base.Words.{has_bit}
use vmpl_apps.Sthread.Pages.{memcpy, walk_recycle}
use vmpl_apps.Sthread.Kernel.{World, Space, Sthread, Visitor, set_entry, recycle_page}

pub le_lt_cases : (a b : ℕ) → (a ≤ b) ⊎ (b < a)
le_lt_cases a b = elim (dec_lt b a) [ yes h ↦ inr h | no h ↦ inl (omega arith) ]

-- The pages one after the other, until a visit says no.
unfoldable pub visit_all : List ℕ → Visitor → (st_walk : ℕ) → Space → Bool × ℕ × Space
visit_all [] visit walk sp = (true, walk, sp)
visit_all (va ∷ pages) visit walk sp =
    let (more, walk', sp') = visit va walk sp in
    let rest = visit_all pages visit walk' sp' in if more then rest else (false, walk', sp')

module _ (w : World) (s : Sthread) (c : ℕ) where
  -- The write of one page.
  page_bytes :
      (va walk a : ℕ) (sp : Space)
      → (recycle_page w s c va walk sp).2.bytes a ≡ (
          if has_bit (sp.entries s.st_pgroot va) w.mmu.pte_d
          then memcpy (s.st_writable + walk) (c + walk) 4096 sp.bytes a
          else sp.bytes a)
  unfolding recycle_page walk_recycle
  page_bytes va walk a sp = ground arith

  pub page_entries :
      (va va' walk : ℕ) (sp : Space)
      → va' ≢ va
      → (recycle_page w s c va walk sp).2.entries s.st_pgroot va' ≡ sp.entries s.st_pgroot va'
  unfolding recycle_page set_entry
  page_entries va va' walk sp n = ground arith

  page_same :
      (va va' walk : ℕ) (sp : Space)
      → va' ≢ va
      → has_bit ((recycle_page w s c va walk sp).2.entries s.st_pgroot va') w.mmu.pte_d
        ≡ has_bit (sp.entries s.st_pgroot va') w.mmu.pte_d
  page_same va va' walk sp n = rw (page_entries va va' walk sp n) refl

  -- The checkpoint and the other pages stay as they are.
  page_frame :
      (va walk a : ℕ) (sp : Space)
      → (a < s.st_writable + walk) ⊎ (s.st_writable + walk + 4096 ≤ a)
      → (recycle_page w s c va walk sp).2.bytes a ≡ sp.bytes a
  unfolding memcpy
  page_frame va walk a sp h = ground (arith, page_bytes va walk a sp)

  -- A page that is not marked dirty holds what the checkpoint holds.
  abbrev pub IsTracked : List ℕ → (walk : ℕ) → Space → Type 0
  IsTracked [] walk sp = Unit
  IsTracked (va ∷ pages) walk sp =
      (has_bit (sp.entries s.st_pgroot va) w.mmu.pte_d ≡ false
        → (o : ℕ) → walk ≤ o
        → o < walk + 4096
        → sp.bytes (s.st_writable + o) ≡ sp.bytes (c + o))
      × IsTracked pages (walk + 4096) sp

  -- No page is visited twice.
  abbrev pub IsDistinct : List ℕ → Type 0
  IsDistinct [] = Unit
  IsDistinct (va ∷ pages) = All (λ va'. va' ≢ va) pages × IsDistinct pages

  module _ (size : ℕ) (apart : (c + size ≤ s.st_writable) ⊎ (s.st_writable + size ≤ c)) where
    -- Behind the visit of the page before.
    IsTracked-on :
        (va : ℕ) (pages : List ℕ) (walk here : ℕ) (sp : Space)
        → All (λ va'. va' ≢ va) pages
        → walk + 4096 ≤ here
        → here + 4096 * length pages ≤ size
        → IsTracked pages here sp
        → IsTracked pages here (recycle_page w s c va walk sp).2
    IsTracked-on va [] walk here sp d le fits t = tt
    IsTracked-on va (va' ∷ pages) walk here sp d le fits t = (
      λ clean o lo hi.
          page_frame va walk (s.st_writable + o) sp (inr (omega arith))
          ∙ t.0 (sym (page_same va va' walk sp d.0) ∙ clean) o lo hi
          ∙ sym (page_frame va walk (c + o) sp (omega arith)),
      IsTracked-on va pages walk (here + 4096) sp d.1 (omega arith) (omega arith) t.1,
    )

  pub visit_step :
      (va : ℕ) (pages : List ℕ) (walk : ℕ) (sp : Space)
      → visit_all (va ∷ pages) (recycle_page w s c) walk sp
        ≡ visit_all pages (recycle_page w s c) (walk + 4096) (recycle_page w s c va walk sp).2
  unfolding visit_all recycle_page walk_recycle
  visit_step va pages walk sp =
      elim (Bool-cases (has_bit (sp.entries s.st_pgroot va) w.mmu.pte_d)) [
        | inl e ↦ rw e refl
        | inr e ↦ rw e refl
      ]

  pub pages_frame :
      (pages : List ℕ) (walk a : ℕ) (sp : Space)
      → (a < s.st_writable + walk) ⊎ (s.st_writable + walk + 4096 * length pages ≤ a)
      → (visit_all pages (recycle_page w s c) walk sp).2.bytes a ≡ sp.bytes a
  pages_frame [] walk a sp h = unfold visit_all in refl
  pages_frame (va ∷ pages) walk a sp h = rw (visit_step va pages walk sp) (
      pages_frame pages (walk + 4096) a (recycle_page w s c va walk sp).2 (omega arith)
      ∙ page_frame va walk a sp (omega arith))

  page_restored :
      (va walk o : ℕ) (sp : Space)
      → (has_bit (sp.entries s.st_pgroot va) w.mmu.pte_d ≡ false
          → sp.bytes (s.st_writable + o) ≡ sp.bytes (c + o))
      → walk ≤ o
      → o < walk + 4096
      → (recycle_page w s c va walk sp).2.bytes (s.st_writable + o) ≡ sp.bytes (c + o)
  unfolding memcpy
  page_restored va walk o sp t lo hi =
      elim (Bool-cases (has_bit (sp.entries s.st_pgroot va) w.mmu.pte_d)) [
        | inl e ↦
            let from : c + walk + (s.st_writable + o - (s.st_writable + walk)) ≡ c + o =
              omega arith in
            page_bytes va walk (s.st_writable + o) sp ∙ rw (e, from) (ground (arith, from))
        | inr e ↦ page_bytes va walk (s.st_writable + o) sp ∙ rw e (t e)
      ]

  module _ (size : ℕ) (apart : (c + size ≤ s.st_writable) ⊎ (s.st_writable + size ≤ c)) where
    pub pages_restored :
        (pages : List ℕ) (walk o : ℕ) (sp : Space)
        → walk + 4096 * length pages ≤ size
        → IsDistinct pages
        → IsTracked pages walk sp
        → walk ≤ o
        → o < walk + 4096 * length pages
        → (visit_all pages (recycle_page w s c) walk sp).2.bytes (s.st_writable + o)
          ≡ sp.bytes (c + o)
    pages_restored [] walk o sp fits d t lo hi = absurd (omega arith)
    pages_restored (va ∷ pages) walk o sp fits d t lo hi =
        let sp' = (recycle_page w s c va walk sp).2 in
        rw (visit_step va pages walk sp) (elim (le_lt_cases (walk + 4096) o) [
          | inl later ↦
              pages_restored pages (walk + 4096) o sp' (omega arith) d.1
                (IsTracked-on size apart va pages walk (walk + 4096) sp d.0 (omega arith)
                  (omega arith) t.1)
                later (omega arith)
              ∙ page_frame va walk (c + o) sp (omega arith)
          | inr first ↦
              pages_frame pages (walk + 4096) (s.st_writable + o) sp' (omega arith)
              ∙ page_restored va walk o sp (λ clean. t.0 clean o lo first) lo first
        ])
