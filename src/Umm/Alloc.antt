-- ===== src/Umm/Alloc.antt =====
-- What the allocating functions of umm.c hand out.
use vmpl_apps.Base.{
  ℕ, ◌+◌, ◌-◌, ◌%◌, ◌^◌, ◌≤◌, ◌<◌, ◌≡◌, ◌⊎◌, arith, List, ◌∷◌, bit_or, ◌≢◌, Option, some, true,
}
use vmpl_apps.Base.Words.{◌+w◌, ◌-w◌}
use native.Mathlib.Decide.{dec_lt}
use vmpl_apps.Base.Linux.{map_fixed, map_private, map_anonymous}
use vmpl_apps.Host.{Platform, IsPlatform, Host, Machine, ret, Call, mmap, munmap, vm_map_phys}
use vmpl_apps.Mem.{app_stack_size}
use vmpl_apps.Umm.{
  round_up, umm_space_left, umm_get_map_pos, umm_mmap_anom, umm_mmap_file, umm_mmap, mmap_at,
  umm_alloc_stack, stack_at, no_fd, prot_to_perm,
}
use vmpl_apps.Umm.Round.{round_up_lem}
use vmpl_apps.Umm.Layout.{IsLaidOut, IsKernel}

-- The errors of munmap, and of libdune's dune_vm_map_phys, which returns 0 or a negative number.
pub record IsCoded (h : Host) : Type 0 where
  pub munmap_errno :
      (log : List Call) (addr len : ℕ)
      → h.reply log (munmap addr len) ≢ 0
      → (0 < h.errno (munmap addr len ∷ log)) × (h.errno (munmap addr len ∷ log) < 4096)
  pub map_phys_lem :
      (log : List Call) (addr len pa perm : ℕ)
      → (h.reply log (vm_map_phys addr len pa perm) ≡ 0)
        ⊎ ((2 ^ 64 - 4096 < h.reply log (vm_map_phys addr len pa perm))
            × (h.reply log (vm_map_phys addr len pa perm) < 2 ^ 64))

abbrev anon_flags : ℕ
anon_flags = bit_or map_fixed (bit_or map_private map_anonymous)

-- A negative error number.
abbrev pub IsError : ℕ → Type 0
IsError r = (2 ^ 64 - 4096 < r) × (r < 2 ^ 64)

abbrev pub IsUnmoved : Machine → Machine → Type 0
IsUnmoved s t = (t.brk_len ≡ s.brk_len) × (t.mmap_len ≡ s.mmap_len)

-- `[r, r + len)` are whole pages off the bottom of the mappings, above the heap.
abbrev pub IsFresh : Platform → Machine → Machine → ℕ → ℕ → Type 0
IsFresh pl s t r len =
    (t.brk_len ≡ s.brk_len)
    × (r % 4096 ≡ 0)
    × (pl.mmap_base + s.brk_len ≤ r)
    × (r + len ≤ umm_get_map_pos pl s)
    × (umm_get_map_pos pl t ≡ r)

-- The place below the mappings for a length that the kernel may map, and the areas once it is taken.
pub place_lem :
    (pl : Platform) (ok : IsPlatform pl) (m : Machine) (len : ℕ)
    → IsLaidOut m
    → umm_space_left m len ≡ true
    → len < 2 ^ 47
    → let grown = record m { mmap_len = m.mmap_len +w round_up pl len } in
      let place = umm_get_map_pos pl m -w round_up pl len in
      IsLaidOut grown × (umm_get_map_pos pl grown ≡ place) × (place + len ≤ umm_get_map_pos pl m)
unfolding umm_space_left umm_get_map_pos
place_lem pl ok m len v e lt =
    ground (arith, ok.base_low, ok.base_high, ok.base_aligned, round_up_lem pl ok len)

module _ (pl : Platform) (ok : IsPlatform pl) (h : Host) where
  -- With a lawful platform and kernel, and error numbers from munmap and dune_vm_map_phys, for
  -- a length of 64 bits and areas laid out well, umm_mmap without an address either returns a
  -- negative error number and moves neither area, or returns the new bottom of the mappings,
  -- page-aligned and above the heap, with the whole range below the old bottom and the heap
  -- unchanged.
  pub umm_mmap-IsFresh :
      (len prot flags fd offset r : ℕ) (s t : Machine)
      → IsKernel h
      → IsCoded h
      → len < 2 ^ 64
      → IsLaidOut s
      → umm_mmap pl h 0 len prot flags fd offset s ≡ ret r t
      → (IsUnmoved s t × IsError r) ⊎ IsFresh pl s t r len
  unfolding umm_mmap mmap_at umm_space_left umm_mmap_anom umm_mmap_file umm_get_map_pos
  umm_mmap-IsFresh len prot flags fd offset r s t k c b v e =
      let at = umm_get_map_pos pl s -w round_up pl len in
      let anon = mmap at len prot anon_flags no_fd 0 in
      let file = mmap at len prot (bit_or map_fixed flags) fd offset in
      let pa = h.va_to_pa at in
      let perm = prot_to_perm pl prot in
      let refused = k.mmap_errno s.log at len prot anon_flags no_fd 0 in
      let refused_file = k.mmap_errno s.log at len prot (bit_or map_fixed flags) fd offset in
      let coded = c.map_phys_lem (anon ∷ s.log) at len pa perm in
      let coded_file = c.map_phys_lem (file ∷ s.log) at len pa perm in
      elim (dec_lt len (2 ^ 47)) [
        | yes small ↦ ground (
          arith,
          ok.base_low,
          ok.base_high,
          ok.base_aligned,
          round_up_lem pl ok len,
          refused,
          refused_file,
          coded,
          coded_file,
        )
        | no huge ↦ ground (
          arith,
          k.mmap_huge s.log at len prot anon_flags no_fd 0,
          k.mmap_huge s.log at len prot (bit_or map_fixed flags) fd offset,
          refused,
          refused_file,
        )
      ]

  -- On a lawful platform and with areas laid out well, a umm_alloc_stack that returns either
  -- moves neither area, or returns 0 with the old bottom of the mappings as the stack's top,
  -- moves that bottom down by the size of a stack, and stays above the heap.
  umm_alloc_stack_lem :
      (s t : Machine) (r : ℕ × Option ℕ)
      → IsLaidOut s
      → umm_alloc_stack pl h s ≡ ret r t
      → IsUnmoved s t
        ⊎ (r ≡ (0, some (umm_get_map_pos pl s)))
          × (t.brk_len ≡ s.brk_len)
          × (umm_get_map_pos pl t + app_stack_size ≡ umm_get_map_pos pl s)
          × (pl.mmap_base + s.brk_len ≤ umm_get_map_pos pl t)
  unfolding umm_alloc_stack stack_at umm_mmap_anom umm_space_left umm_get_map_pos
  umm_alloc_stack_lem s t r v e = ground (
    arith,
    ok.base_low,
    ok.base_high,
    ok.base_aligned,
    ok.pgsize_lem,
    ok.pgaddr_lem (umm_get_map_pos pl s),
    ok.pgoff_lem (umm_get_map_pos pl s),
  )
