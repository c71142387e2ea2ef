-- ===== src/Umm/Layout.antt =====
-- The two areas of the mapping window: the heap grows from its bottom, the mappings from its top.
use vmpl_apps.Base.{ℕ, ◌+◌, ◌-◌, ◌%◌, ◌^◌, ◌≤◌, ◌<◌, ◌≡◌, ◌≢◌, false, bit_or, List, ◌∷◌, arith}
use vmpl_apps.Base.Words.{neg, ◌-w◌}
use vmpl_apps.Base.Linux.{map_fixed, map_private, map_anonymous, mremap_fixed, mremap_maymove}
use vmpl_apps.Host.{
  Platform, IsPlatform, Host, Machine, Call, shmctl_stat, mmap, mremap, ret, machine_of, M, pure,
}
use native.Mathlib.Decide.{dec_lt}
use vmpl_apps.Mem.{app_mmap_len}
use vmpl_apps.Umm.{
  umm_munmap, munmap_big, umm_mmap, mmap_at, umm_mprotect, umm_shmat, shmat_sized, shmat_at,
  shm_size, umm_mremap, mremap_at, umm_alloc_stack, stack_at, no_fd, grow_map, round_up,
  umm_space_left, umm_get_map_pos, umm_mmap_anom, umm_mmap_file, umm_brk, brk_shrink, brk_grow,
}
use vmpl_apps.Umm.Round.{round_up_lem, umm_get_map_pos_lem}

-- Whole pages, and no overlap.
pub record IsLaidOut (s : Machine) : Type 0 where
  pub brk_pages : s.brk_len % 4096 ≡ 0
  pub mmap_pages : s.mmap_len % 4096 ≡ 0
  pub fits : s.brk_len + s.mmap_len ≤ app_mmap_len

-- What the kernel documents: `mmap` with MAP_FIXED gives the address or sets `errno`; nothing longer
-- than the address space is mapped or moved, and no shared segment is.
pub record IsKernel (h : Host) : Type 0 where
  pub mmap_errno :
      (log : List Call) (addr len prot flags fd offset : ℕ)
      → h.reply log (mmap addr len prot flags fd offset) ≢ addr
      → (0 < h.errno (mmap addr len prot flags fd offset ∷ log))
        × (h.errno (mmap addr len prot flags fd offset ∷ log) < 4096)
  pub mmap_huge :
      (log : List Call) (addr len prot flags fd offset : ℕ)
      → 2 ^ 47 ≤ len
      → h.reply log (mmap addr len prot flags fd offset) ≢ addr
  pub mremap_huge :
      (log : List Call) (old_address old_size new_size flags new_address : ℕ)
      → 2 ^ 47 ≤ new_size
      → h.reply log (mremap old_address old_size new_size flags new_address) ≢ new_address
  pub shm_small : (log : List Call) → h.shm_segsz log < 2 ^ 47

-- The two places where umm_mmap maps, for a length that the kernel refuses.
module _ (pl : Platform) (h : Host) (k : IsKernel h) where
  abbrev anon_flags : ℕ
  anon_flags = bit_or map_fixed (bit_or map_private map_anonymous)

  pub mmap_anom_huge :
      (addr len prot : ℕ) (s : Machine)
      → 2 ^ 47 ≤ len
      → (r : ℕ) × (r ≢ 0)
        × (umm_mmap_anom pl h addr len prot false s
            ≡ ret r (record s { log = mmap addr len prot anon_flags no_fd 0 ∷ s.log }))
  unfolding umm_mmap_anom
  mmap_anom_huge addr len prot s huge =
      let c = mmap addr len prot anon_flags no_fd 0 in
      let refused = k.mmap_huge s.log addr len prot anon_flags no_fd 0 huge in
      let e = k.mmap_errno s.log addr len prot anon_flags no_fd 0 refused in
      (neg (h.errno (c ∷ s.log)), omega arith, ground arith)

  pub mmap_file_huge :
      (addr len prot flags fd offset : ℕ) (s : Machine)
      → 2 ^ 47 ≤ len
      → (r : ℕ) × (r ≢ 0)
        × (umm_mmap_file pl h addr len prot flags fd offset s
            ≡ ret r
                (record s { log = mmap addr len prot (bit_or map_fixed flags) fd offset ∷ s.log }))
  unfolding umm_mmap_file
  mmap_file_huge addr len prot flags fd offset s huge =
      let c = mmap addr len prot (bit_or map_fixed flags) fd offset in
      let refused = k.mmap_huge s.log addr len prot (bit_or map_fixed flags) fd offset huge in
      let e = k.mmap_errno s.log addr len prot (bit_or map_fixed flags) fd offset refused in
      (neg (h.errno (c ∷ s.log)), omega arith, ground arith)

  pub mmap_at_huge :
      (addr len prot flags fd offset : ℕ) (adjust : M (Unit {0})) (s : Machine)
      → 2 ^ 47 ≤ len
      → let t = machine_of (mmap_at pl h addr len prot flags fd offset adjust s) in
        (t.brk_len ≡ s.brk_len) × (t.mmap_len ≡ s.mmap_len)
  unfolding mmap_at
  mmap_at_huge addr len prot flags fd offset adjust s huge = ground (
    arith,
    mmap_anom_huge addr len prot s huge,
    mmap_file_huge addr len prot flags fd offset s huge,
  )

  mremap_at_huge :
      (old_address old_size new_size flags new_address : ℕ) (adjust : M (Unit {0})) (s : Machine)
      → 2 ^ 47 ≤ new_size
      → let t =
          machine_of (mremap_at pl h old_address old_size new_size flags new_address adjust s) in
        (t.brk_len ≡ s.brk_len) × (t.mmap_len ≡ s.mmap_len)
  unfolding mremap_at
  mremap_at_huge old_address old_size new_size flags new_address adjust s huge = ground (
    arith,
    k.mremap_huge s.log old_address old_size new_size
        (bit_or flags (bit_or mremap_fixed mremap_maymove)) new_address huge,
  )

module _ (pl : Platform) (ok : IsPlatform pl) (h : Host) where
  pub umm_brk-IsLaidOut :
      (brk : ℕ) (s : Machine)
      → brk < 2 ^ 64
      → IsLaidOut s
      → IsLaidOut (machine_of (umm_brk pl h brk s))
  unfolding umm_brk brk_shrink brk_grow umm_space_left umm_mmap_anom
  umm_brk-IsLaidOut brk s b v =
      ground (arith, ok.base_low, ok.base_high, round_up_lem pl ok (brk - pl.mmap_base))

  pub umm_mmap-IsLaidOut :
      (addr len prot flags fd offset : ℕ) (s : Machine)
      → IsKernel h
      → len < 2 ^ 64
      → IsLaidOut s
      → IsLaidOut (machine_of (umm_mmap pl h addr len prot flags fd offset s))
  unfolding umm_mmap mmap_at umm_space_left umm_mmap_anom umm_mmap_file
  umm_mmap-IsLaidOut addr len prot flags fd offset s r b v = elim (dec_lt len (2 ^ 47)) [
    | yes small ↦ ground (arith, round_up_lem pl ok len)
    | no huge ↦ ground (
      arith,
      mmap_at_huge pl h r addr len prot flags fd offset (pure tt) s (omega arith),
      mmap_at_huge pl h r (umm_get_map_pos pl s -w round_up pl len) len prot flags fd offset
          (grow_map (round_up pl len)) s (omega arith),
    )
  ]

  pub umm_munmap-IsLaidOut :
      (addr len : ℕ) (s : Machine)
      → IsLaidOut s
      → IsLaidOut (machine_of (umm_munmap pl h addr len s))
  unfolding umm_munmap munmap_big
  umm_munmap-IsLaidOut addr len s v = ground arith

  pub umm_mprotect-IsLaidOut :
      (addr len prot : ℕ) (s : Machine)
      → IsLaidOut s
      → IsLaidOut (machine_of (umm_mprotect pl h addr len prot s))
  unfolding umm_mprotect
  umm_mprotect-IsLaidOut addr len prot s v = ground arith

  pub umm_shmat-IsLaidOut :
      (shmid addr shmflg : ℕ) (s : Machine)
      → IsKernel h
      → IsLaidOut s
      → IsLaidOut (machine_of (umm_shmat pl h shmid addr shmflg s))
  unfolding umm_shmat shmat_sized shmat_at shm_size umm_space_left
  umm_shmat-IsLaidOut shmid addr shmflg s r v =
      let log = shmctl_stat shmid ∷ s.log in
      ground (arith, r.shm_small log, round_up_lem pl ok (h.shm_segsz log))

  pub umm_mremap-IsLaidOut :
      (old_address old_size new_size flags new_address : ℕ) (s : Machine)
      → IsKernel h
      → new_size < 2 ^ 64
      → IsLaidOut s
      → IsLaidOut (machine_of (umm_mremap pl h old_address old_size new_size flags new_address s))
  unfolding umm_mremap mremap_at umm_space_left
  umm_mremap-IsLaidOut old_address old_size new_size flags new_address s r b v =
      elim (dec_lt new_size (2 ^ 47)) [
        | yes small ↦ ground (arith, round_up_lem pl ok new_size)
        | no huge ↦ ground (
          arith,
          mremap_at_huge pl h r old_address old_size new_size flags new_address (pure tt) s
              (omega arith),
          mremap_at_huge pl h r old_address old_size new_size flags
              (umm_get_map_pos pl s -w round_up pl new_size) (grow_map (round_up pl new_size)) s
              (omega arith),
        )
      ]

  -- On a lawful platform, if the heap and the mappings are whole pages that do not overlap,
  -- they still are after umm_alloc_stack.
  pub umm_alloc_stack-IsLaidOut :
      (s : Machine) → IsLaidOut s → IsLaidOut (machine_of (umm_alloc_stack pl h s))
  unfolding umm_alloc_stack stack_at umm_mmap_anom umm_space_left
  umm_alloc_stack-IsLaidOut s v =
      ground
        (arith, ok.pgoff_lem (umm_get_map_pos pl s), umm_get_map_pos_lem pl ok s, ok.base_aligned)
