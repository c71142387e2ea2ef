-- ===== src/Sthread/Tests.antt =====
-- Runs of the parts of sthread.c, and the witnesses of their theorems.
use vmpl_apps.Base.{
  ◌↔◌, ℕ, ◌+◌, ◌-◌, ◌%◌, ◌≤◌, ◌<◌, ◌≡◌, ◌⊎◌, refl, arith, false, none, some, List, [], ◌∷◌,
  if◌then◌else◌, All, leb, ltb, ◌&&◌,
}
use vmpl_apps.Base.Words.{has_bit}
use vmpl_apps.Sthread.{ok, undefined, prot_write, tag_size}
use vmpl_apps.Sthread.Perms.{Sc, sc_fd_add, put_in_free, sc_sys_add}
use vmpl_apps.Sthread.Tags.{Tag, find_tag, smalloc, sc_mem_add}
use vmpl_apps.Sthread.Tags.Bump.{IsTag, IsTags, IsFree}
use vmpl_apps.Sthread.Tags.Calls.{smallocs, IsPairwise, smallocs_lem}
use vmpl_apps.Sthread.Pages.{Mmu, IsMmu, Segment, segment_of, grant_of, walk_protect}
use vmpl_apps.Sthread.Pages.Protect.{user, write, walk_protect-sc_mem_add}
use vmpl_apps.Sthread.Pages.Reach.{IsReached, user-walk_protect}
use vmpl_apps.Sthread.Checkpoint.{checkpoint_do, writable_from}
use vmpl_apps.Sthread.Checkpoint.Layout.{copied, checkpoint_do_lem}

-- Calls 16 and 2, and standard input for reading.
abbrev sc : Sc
sc = record {
  sc_mem = 0 ∷ 0 ∷ [];
  sc_fd = 1 ∷ 0 ∷ 0 ∷ [];
  sc_sys = 4 ∷ 0 ∷ 1 ∷ 0 ∷ 0 ∷ 0 ∷ 0 ∷ 0 ∷ 0 ∷ 0 ∷ 0 ∷ 0 ∷ 0 ∷ 0 ∷ 0 ∷ 0 ∷ [];
}

-- Behind sc_sys_add(sc, 3).
abbrev more : Sc
more = record sc { sc_sys = 12 ∷ 0 ∷ 1 ∷ 0 ∷ 0 ∷ 0 ∷ 0 ∷ 0 ∷ 0 ∷ 0 ∷ 0 ∷ 0 ∷ 0 ∷ 0 ∷ 0 ∷ 0 ∷ [] }

adds_call : sc_sys_add 3 sc ≡ ok more
unfolding sc_sys_add
adds_call = refl

-- The call 131 has its bit behind the array.
adds_behind : sc_sys_add 131 sc ≡ undefined
unfolding sc_sys_add
adds_behind = refl

-- Behind sc_fd_add(sc, 5, PROT_WRITE).
abbrev with_file : Sc
with_file = record sc { sc_fd = 1 ∷ 1282 ∷ 0 ∷ [] }

adds_file : sc_fd_add 5 2 sc ≡ ok with_file
unfolding sc_fd_add
adds_file = refl

-- Two tags, one in use.
abbrev tag : Tag
tag = record { t_id = 7; t_buf = 0x100000; t_p = 0x100040; t_len = 40960 }

abbrev other : Tag
other = record { t_id = 8; t_buf = 0x200000; t_p = 0x200000; t_len = 40960 }

tag-IsTag : IsTag tag
tag-IsTag = omega arith

both-IsTags : IsTags (tag ∷ other ∷ [])
both-IsTags = omega arith

-- The third call fails.
abbrev calls : List (ℕ × ℕ)
calls = (7, 100) ∷ (8, 40000) ∷ (8, 1000) ∷ (7, 8) ∷ []

gives : smallocs calls (tag ∷ other ∷ []) ≡ (0x100040, 100) ∷ (0x200000, 40000) ∷ (0x1000a4, 8) ∷ []
unfolding smallocs smalloc
gives = refl

smallocs_lem_example :
    All (λ c. IsFree (tag ∷ other ∷ []) c.0 c.1) (smallocs calls (tag ∷ other ∷ []))
    × IsPairwise (smallocs calls (tag ∷ other ∷ []))
smallocs_lem_example = smallocs_lem calls (tag ∷ other ∷ []) (omega arith) both-IsTags

abbrev mmu : Mmu
mmu = record {
  pte_p = 1;
  pte_w = 2;
  pte_u = 4;
  pte_d = 64;
  pte_addr = λ x. x - x % 4096;
  va_to_pa = λ x. x;
  dune_boot = false;
  mmap_base = 0x400000000;
}

mmu-IsMmu : IsMmu mmu
mmu-IsMmu = omega arith

abbrev text : Segment
text = record { s_start = 0x400000; s_end = 0x402000; s_len = 0x2000; s_flags = 5 }

abbrev data_segment : Segment
data_segment = record { s_start = 0x602000; s_end = 0x604000; s_len = 0x2000; s_flags = 3 }

user-walk_protect_example :
    (user (walk_protect mmu (text ∷ data_segment ∷ []) 0x7000000 sc.sc_mem 0x602000 7) ≡ 1)
    ↔ IsReached (text ∷ data_segment ∷ []) 0x7000000 sc.sc_mem 0x602000
user-walk_protect_example =
    user-walk_protect mmu (text ∷ data_segment ∷ []) 0x7000000 0x602000 7 sc.sc_mem mmu-IsMmu
      (omega arith) (omega arith)

-- Behind sc_mem_add(sc, 7, PROT_READ).
abbrev with_tag : Sc
with_tag = record sc { sc_mem = 0x100001 ∷ 0 ∷ [] }

adds_tag : sc_mem_add (tag ∷ other ∷ []) 7 1 sc ≡ ok with_tag
unfolding sc_mem_add find_tag put_in_free
adds_tag = refl

finds_tag : find_tag (tag ∷ other ∷ []) 7 ≡ some tag
unfolding find_tag
finds_tag = refl

no_segment : segment_of (text ∷ []) 0x101000 ≡ none
unfolding segment_of
no_segment = refl

walk_protect-sc_mem_add_example :
    (user (walk_protect mmu (text ∷ []) 0x7000000 with_tag.sc_mem 0x101000 7) ≡ (
      if leb 0x100000 0x101000 && ltb 0x101000 (0x100000 + tag_size)
      then 1
      else user (walk_protect mmu (text ∷ []) 0x7000000 sc.sc_mem 0x101000 7)))
    × (write (walk_protect mmu (text ∷ []) 0x7000000 with_tag.sc_mem 0x101000 7)
        ≡ elim (grant_of sc.sc_mem 0x101000) [
          | some g ↦ write (walk_protect mmu (text ∷ []) 0x7000000 sc.sc_mem 0x101000 7)
          | none ↦
              if leb 0x100000 0x101000 && ltb 0x101000 (0x100000 + tag_size)
              then if has_bit 1 prot_write then write 7 else 0
              else write 7
        ])
walk_protect-sc_mem_add_example =
    walk_protect-sc_mem_add mmu mmu-IsMmu (text ∷ []) 0x7000000 0x101000 7 (tag ∷ other ∷ []) 7 1 sc
      tag finds_tag (omega arith) (omega arith) (omega arith) (omega arith) no_segment adds_tag

checkpoint_do_lem_example :
    (checkpoint_do (text ∷ data_segment ∷ []) 0x9000000 (λ a. a) 0x9000010
      ≡ copied (text ∷ data_segment ∷ []) 0x9000000 0x9000010 (λ a. a))
    × ((0x9000010 < 0x9000000)
          ⊎ (0x9000000 + writable_from 0 (text ∷ data_segment ∷ []) ≤ 0x9000010)
        → checkpoint_do (text ∷ data_segment ∷ []) 0x9000000 (λ a. a) 0x9000010 ≡ 0x9000010)
checkpoint_do_lem_example =
    checkpoint_do_lem (text ∷ data_segment ∷ []) 0x9000000 0x9000010 (λ a. a) (omega arith)
      (ground arith)
