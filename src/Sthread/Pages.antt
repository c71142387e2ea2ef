-- ===== src/Sthread/Pages.antt =====
-- wedge/src/sthread.c: what a walk of the page tables does to one entry (walk_protect, walk_remap,
-- walk_check_perm, walk_recycle, walk_recycle_stack).
pub mod Grants
pub mod Protect
pub mod Reach
use vmpl_apps.Base.{
  ℕ, zero, suc, ◌+◌, ◌-◌, ◌*◌, ◌^◌, ◌≡◌, Bool, true, false, ◌&&◌, Option, none, some, List, [], ◌∷◌,
  bit_and, bit_or, ltb, leb, ◌==◌, ◌!=◌, if◌then◌else◌,
}
use vmpl_apps.Base.Bits.{one_shl}
use vmpl_apps.Base.Words.{◌+w◌, ◌-w◌, has_bit}
use vmpl_apps.Sthread.{prot_write, stack_size, tag_size}

-- What libdune says of page table entries.
pub record Mmu : Type 0 where
  pub pte_p : ℕ
  pub pte_w : ℕ
  pub pte_u : ℕ
  pub pte_d : ℕ
  pub pte_addr : ℕ → ℕ
  pub va_to_pa : ℕ → ℕ
  pub dune_boot : Bool
  pub mmap_base : ℕ

-- The bits of x86-64.
pub record IsMmu (mm : Mmu) : Type 0 where
  pub pte_p_lem : mm.pte_p ≡ one_shl 0
  pub pte_w_lem : mm.pte_w ≡ one_shl 1
  pub pte_u_lem : mm.pte_u ≡ one_shl 2
  pub pte_d_lem : mm.pte_d ≡ one_shl 6

-- `~x` of a word.
abbrev pub complement : ℕ → ℕ
complement x = 2 ^ 64 - 1 - x

-- `struct segment` without its text and its link.
pub record Segment : Type 0 where
  pub s_start : ℕ
  pub s_end : ℕ
  pub s_len : ℕ
  pub s_flags : ℕ

-- The first segment that holds the address.
unfoldable pub segment_of : List Segment → (addr : ℕ) → Option Segment
segment_of [] addr = none
segment_of (seg ∷ next) addr =
    let rest = segment_of next addr in
    if leb seg.s_start addr && ltb addr seg.s_end then some seg else rest

abbrev pub tag_address : ℕ → ℕ
tag_address tag = bit_and tag 0xfffffffffffffff0

-- The first tag of the array that holds the address; the scan ends at a 0.
unfoldable pub grant_of : (sc_mem : List ℕ) (addr : ℕ) → Option ℕ
grant_of [] addr = none
grant_of (tag ∷ next) addr =
    let rest = grant_of next addr in
    let a = tag_address tag in
    if tag == 0 then none else if leb a addr && ltb addr (a +w tag_size) then some tag else rest

unfoldable pub in_stack : (st_stack addr : ℕ) → Bool
in_stack st_stack addr = leb st_stack addr && ltb addr (st_stack +w stack_size)

module _ (mm : Mmu) where
  -- `*ptep` behind the walk. Both loops are over before an entry is changed again.
  unfoldable pub walk_protect : List Segment → (st_stack : ℕ) (sc_mem : List ℕ) (va pte : ℕ) → ℕ
  unfolding in_stack
  walk_protect segs st_stack sc_mem va pte =
      let denied = bit_and pte (complement mm.pte_u) in
      elim (segment_of segs va) [
        | some seg ↦ if has_bit seg.s_flags prot_write then denied else bit_or denied mm.pte_u
        | none ↦
            let open_stack = if in_stack st_stack va then bit_or denied mm.pte_u else denied in
            elim (grant_of sc_mem va) [
              | none ↦ open_stack
              | some tag ↦
                  let opened = bit_or open_stack mm.pte_u in
                  if has_bit tag prot_write then opened else bit_and opened (complement mm.pte_w)
            ]
      ]

  -- The new entry and the new `st_walk`.
  pub walk_remap : (st_writable st_walk pte : ℕ) → ℕ × ℕ
  walk_remap st_writable st_walk pte = (
    bit_or (bit_or (bit_or (mm.va_to_pa (st_writable +w st_walk)) mm.pte_p) mm.pte_w) mm.pte_u,
    st_walk +w 4096,
  )

  -- Whether the walk goes on, and the new `st_walk`.
  pub walk_check_perm : (st_walk pte : ℕ) → Bool × ℕ
  walk_check_perm st_walk pte =
      if has_bit pte mm.pte_u
      then if has_bit pte mm.pte_p
        then if has_bit pte mm.pte_w
          then if st_walk == 0
            then (let addr = mm.pte_addr pte in
                if mm.dune_boot && leb 0x400000000 addr
                then (true, addr +w mm.mmap_base -w 0x400000000)
                else (true, addr))
            else (true, st_walk)
          else (false, st_walk)
        else (false, st_walk)
      else (false, st_walk)

-- The bytes of memory.
abbrev pub Bytes : Type 0
Bytes = ℕ → ℕ

unfoldable pub memcpy : (dst src n : ℕ) → Bytes → Bytes
memcpy dst src n mem a = if leb dst a && ltb a (dst + n) then mem (src + (a - dst)) else mem a

unfoldable pub memset_zero : (dst n : ℕ) → Bytes → Bytes
memset_zero dst n mem a = if leb dst a && ltb a (dst + n) then 0 else mem a

-- What a walk carries along: `st_walk`, the entry and the memory.
pub record Visit : Type 0 where
  pub st_walk : ℕ
  pub pte : ℕ
  pub mem : Bytes

-- The pages that are written lie in memory that mmap has given out, so that the sums do not wrap.
module _ (mm : Mmu) where
  unfoldable pub walk_recycle : (st_writable checkpointed_mem : ℕ) → Visit → Visit
  unfolding memcpy
  walk_recycle st_writable checkpointed_mem v =
      let pa = st_writable + v.st_walk in
      let orig = checkpointed_mem + v.st_walk in
      if has_bit v.pte mm.pte_d
      then record {
        st_walk = v.st_walk + 4096;
        pte = bit_and v.pte (complement mm.pte_d);
        mem = memcpy pa orig 4096 v.mem;
      }
      else record v { st_walk = v.st_walk + 4096 }

  unfoldable pub walk_recycle_stack : (st_stack : ℕ) → Visit → Visit
  unfolding memset_zero
  walk_recycle_stack st_stack v =
      let pa = st_stack + v.st_walk in
      if has_bit v.pte mm.pte_d
      then record v { st_walk = v.st_walk + 4096; mem = memset_zero pa 4096 v.mem }
      else record v { st_walk = v.st_walk + 4096 }
