-- ===== src/Sthread/Checkpoint.antt =====
-- wedge/src/sthread.c: checkpoint_prepare and checkpoint_do. The text of /proc/self/maps, as far as
-- the one read() brings it, is an argument; so are sscanf and strstr of <stdio.h> and <string.h>.
pub mod Layout
use vmpl_apps.Base.{
  ℕ, ◌+◌, ◌-◌, ◌%◌, ◌^◌, Bool, Option, none, some, List, [], ◌∷◌, ◌++◌, bit_or, ◌==◌, if◌then◌else◌,
  get_or,
}
use vmpl_apps.Base.Words.{◌-w◌, has_bit, low32}
use vmpl_apps.Sthread.{Result, ok, stopped, undefined, pure, ◌>>=◌, prot_read, prot_write, sign_ext}
use vmpl_apps.Sthread.Pages.{Segment, Bytes, memcpy}

-- `start-end perm` of a line, whether it holds `stack`, and whether malloc fails for its segment.
-- `maps` is what open and read bring (`none` where one fails), `mmap_anon` where a mapping goes.
pub record Libc : Type 0 where
  pub sscanf : List ℕ → Option (ℕ × ℕ × List ℕ)
  pub strstr_stack : List ℕ → Bool
  pub malloc_fails : List ℕ → Bool
  pub maps : Option (List ℕ)
  pub mmap_anon : (len : ℕ) → ℕ

abbrev pub map_failed : ℕ
map_failed = 2 ^ 64 - 1

abbrev pub prot_exec : ℕ
prot_exec = 4

flag_if : Bool → (flag acc : ℕ) → ℕ
flag_if b flag acc = if b then bit_or acc flag else acc

-- 114, 119 and 120 are `r`, `w` and `x`.
flags_of : (perm : List ℕ) → ℕ
unfolding flag_if
flags_of perm =
    flag_if (get_or perm 3 0 == 120) prot_exec
      (flag_if (get_or perm 0 0 == 114) prot_read (flag_if (get_or perm 1 0 == 119) prot_write 0))

-- `writable`, an `int`.
unfoldable pub writable_from : (acc : ℕ) → List Segment → ℕ
writable_from acc [] = acc
writable_from acc (seg ∷ next) =
    writable_from (if has_bit seg.s_flags prot_write then low32 (acc + seg.s_len) else acc) next

module _ (libc : Libc) where
  -- One line: its segment, unless it is skipped.
  segment_of_line : List ℕ → Result (Option Segment)
  unfolding flags_of
  segment_of_line line = elim (libc.sscanf line) [
    | none ↦ stopped
    | some (start, end, perm) ↦
        if libc.strstr_stack line
        then ok none
        else if libc.malloc_fails line
        then stopped
        else ok (
            some (record {
              s_start = start;
              s_end = end;
              s_len = end -w start;
              s_flags = flags_of perm;
            }))
  ]

  abbrev with_line : Option Segment → List Segment → List Segment
  with_line none rest = rest
  with_line (some seg) rest = seg ∷ rest

  -- `line` is what has been read of the line. A last line with no line feed is written behind NULL.
  segments_from : (line text : List ℕ) → Result (List Segment)
  unfolding segment_of_line
  segments_from [] [] = ok []
  segments_from (c ∷ line) [] = undefined
  segments_from line (c ∷ text) =
      let fresh = segments_from [] text in
      let longer = segments_from (line ++ c ∷ []) text in
      if c == 10
      then (do seg ← segment_of_line line; rest ← fresh; pure (with_line seg rest))
      else longer

  -- The segments, `_checkpointed_size` and `_checkpointed_mem`.
  unfoldable pub checkpoint_prepare : Result (List Segment × ℕ × ℕ)
  unfolding segments_from writable_from
  checkpoint_prepare = elim libc.maps [
    | none ↦ stopped
    | some text ↦ do
      segs ← segments_from [] text
      let writable = writable_from 0 segs
      let mem = libc.mmap_anon (sign_ext writable)
      if mem == map_failed then stopped else pure (segs, writable, mem)
  ]

-- `c` is where the copy goes on.
unfoldable pub checkpoint_do : List Segment → (c : ℕ) → Bytes → Bytes
unfolding memcpy
checkpoint_do [] c mem = mem
checkpoint_do (seg ∷ next) c mem =
    if has_bit seg.s_flags prot_write
    then checkpoint_do next (c + seg.s_len) (memcpy c seg.s_start seg.s_len mem)
    else checkpoint_do next c mem
