-- ===== src/Sthread/Pages/Protect.antt =====
-- Which pages a compartment can reach.
use vmpl_apps.Base.{
  ℕ, ◌+◌, ◌^◌, ◌<◌, ◌≡◌, ◌≢◌, true, false, ◌&&◌, ◌||◌, not, none, some, List, bit_and, bit_or, ltb,
  leb, if◌then◌else◌, arith,
}
use vmpl_apps.Base.Bits.{digit, digit-le, digit-bit_and, digit-bit_or, bit_test}
use vmpl_apps.Base.Words.{has_bit}
use vmpl_apps.Sthread.{ok, tag_size, prot_write}
use vmpl_apps.Sthread.Perms.{Sc}
use vmpl_apps.Sthread.Tags.{Tag, find_tag, sc_mem_add}
use vmpl_apps.Sthread.Tags.Adds.{sc_mem_add-cases}
use vmpl_apps.Sthread.Pages.{
  Mmu, IsMmu, Segment, segment_of, grant_of, in_stack, walk_protect, complement,
}
use vmpl_apps.Sthread.Pages.Grants.{IsPacked, first_grant, grant_of-put, entry_lem, low_digits}

-- Bits 2 (user) and 1 (write) of an entry.
abbrev pub user : ℕ → ℕ
user pte = digit 2 pte

abbrev pub write : ℕ → ℕ
write pte = digit 1 pte

module _ (mm : Mmu) (ok_mm : IsMmu mm) (pte : ℕ) where
  user-deny : user (bit_and pte (complement mm.pte_u)) ≡ 0
  user-deny = omega (arith, digit-bit_and 2 pte (complement mm.pte_u), ok_mm.pte_u_lem)

  user-allow : user (bit_or pte mm.pte_u) ≡ 1
  user-allow = omega (arith, digit-bit_or 2 pte mm.pte_u, ok_mm.pte_u_lem, digit-le 2 pte)

  user-readonly : user (bit_and pte (complement mm.pte_w)) ≡ user pte
  user-readonly =
      omega (arith, digit-bit_and 2 pte (complement mm.pte_w), ok_mm.pte_w_lem, digit-le 2 pte)

  write-deny : write (bit_and pte (complement mm.pte_u)) ≡ write pte
  write-deny =
      omega (arith, digit-bit_and 1 pte (complement mm.pte_u), ok_mm.pte_u_lem, digit-le 1 pte)

  write-allow : write (bit_or pte mm.pte_u) ≡ write pte
  write-allow = omega (arith, digit-bit_or 1 pte mm.pte_u, ok_mm.pte_u_lem, digit-le 1 pte)

  write-readonly : write (bit_and pte (complement mm.pte_w)) ≡ 0
  write-readonly = omega (arith, digit-bit_and 1 pte (complement mm.pte_w), ok_mm.pte_w_lem)

module _ (mm : Mmu) (ok_mm : IsMmu mm) (segs : List Segment) (st_stack va pte : ℕ) where
  -- The bit of an entry by the code's own scans.
  pub user_scanned :
      (sc_mem : List ℕ)
      → user (walk_protect mm segs st_stack sc_mem va pte) ≡ (
          if elim (segment_of segs va) [
            | some seg ↦ not (has_bit seg.s_flags prot_write)
            | none ↦
                in_stack st_stack va || elim (grant_of sc_mem va) [ none ↦ false | some tag ↦ true ]
          ]
          then 1
          else 0)
  unfolding walk_protect
  user_scanned sc_mem =
      let d = bit_and pte (complement mm.pte_u) in
      let o = bit_or d mm.pte_u in
      let oo = bit_or o mm.pte_u in
      ground (
        arith,
        user-deny mm ok_mm pte,
        user-allow mm ok_mm d,
        user-allow mm ok_mm o,
        user-readonly mm ok_mm o,
        user-readonly mm ok_mm oo,
      )

  write-walk_protect :
      (sc_mem : List ℕ)
      → segment_of segs va ≡ none
      → write (walk_protect mm segs st_stack sc_mem va pte) ≡ elim (grant_of sc_mem va) [
        | none ↦ write pte
        | some tag ↦ if has_bit tag prot_write then write pte else 0
      ]
  unfolding walk_protect
  write-walk_protect sc_mem e =
      let d = bit_and pte (complement mm.pte_u) in
      let o = bit_or d mm.pte_u in
      let oo = bit_or o mm.pte_u in
      ground (
        arith,
        write-deny mm ok_mm pte,
        write-allow mm ok_mm d,
        write-allow mm ok_mm o,
        write-readonly mm ok_mm o,
        write-readonly mm ok_mm oo,
      )

  -- With the bits of x86-64, for an address in no segment, a tag with a buffer that is not at 0
  -- and does not wrap, a `prot` that is not negative, and an array of grants with its free
  -- entries last: after a call of sc_mem_add that returns, walk_protect makes the pages of the
  -- tag's buffer reachable by user code and changes the user bit of no other page; and the
  -- write bit of a page that no earlier grant covers is kept in the buffer if `prot` has
  -- PROT_WRITE and cleared if not, and kept outside.
  pub walk_protect-sc_mem_add :
      (tags : List Tag) (tid prot : ℕ) (sc : Sc) {sc' : Sc} (t : Tag)
      → find_tag tags tid ≡ some t
      → prot < 2 ^ 31
      → t.t_buf ≢ 0
      → t.t_buf + tag_size < 2 ^ 64
      → IsPacked sc.sc_mem
      → segment_of segs va ≡ none
      → sc_mem_add tags tid prot sc ≡ ok sc'
      → (user (walk_protect mm segs st_stack sc'.sc_mem va pte) ≡ (
          if leb t.t_buf va && ltb va (t.t_buf + tag_size)
          then 1
          else user (walk_protect mm segs st_stack sc.sc_mem va pte)))
        × (write (walk_protect mm segs st_stack sc'.sc_mem va pte) ≡ elim (grant_of sc.sc_mem va) [
          | some tag ↦ write (walk_protect mm segs st_stack sc.sc_mem va pte)
          | none ↦
              if leb t.t_buf va && ltb va (t.t_buf + tag_size)
              then if has_bit prot prot_write then write pte else 0
              else write pte
        ])
  unfolding first_grant
  walk_protect-sc_mem_add tags tid prot sc {sc' = sc'} t found int nz fits i outside e =
      let (put, aligned, low) = sc_mem_add-cases tags tid prot sc t found int e in
      let p_lt : prot < 16 = omega (arith, low, low_digits prot) in
      let (joined, even, high) = entry_lem t.t_buf prot aligned p_lt in
      let v = bit_or t.t_buf prot in
      let grant = grant_of-put v va sc.sc_mem i (omega arith) (rw aligned at put) in
      let same_bit : has_bit v prot_write ≡ has_bit prot prot_write =
        ground (arith, bit_test 1 v, bit_test 1 prot) in
      ground (
        arith,
        grant,
        high,
        same_bit,
        user_scanned sc'.sc_mem,
        user_scanned sc.sc_mem,
        write-walk_protect sc'.sc_mem outside,
        write-walk_protect sc.sc_mem outside,
      )
