-- ===== src/Umm/Confined.antt =====
-- Which ranges the functions of umm.c hand to the kernel and to libdune.
use vmpl_apps.Base.{ℕ, ◌+◌, ◌-◌, ◌^◌, ◌≤◌, ◌<◌, ◌≡◌, ◌⊎◌, bit_or, ◌∷◌, All, arith}
use vmpl_apps.Base.Words.{◌-w◌, ◌+w◌}
use native.Mathlib.Decide.{dec_lt}
use vmpl_apps.Base.Linux.{mremap_fixed, mremap_maymove}
use vmpl_apps.Host.{
  Platform, IsPlatform, Host, Machine, Call, machine_of, mmap, munmap, mprotect, mremap,
  shmctl_stat, vm_map_phys, vm_unmap, vm_mprotect, store,
}
use vmpl_apps.Mem.{app_mmap_len, app_stack_size}
use vmpl_apps.Mem.Ranges.{IsAppRange, IsWrapped, mem_ref_is_safe_iff}
use vmpl_apps.Umm.{
  round_up, big_round_up, umm_space_left, umm_get_map_pos, umm_mmap_anom, umm_mmap_file, umm_brk,
  brk_shrink, brk_grow, umm_mmap, mmap_at, umm_alloc_stack, stack_at, umm_munmap, munmap_big,
  umm_mprotect, umm_shmat, shmat_sized, shmat_at, shm_size, umm_mremap, mremap_at,
}
use vmpl_apps.Umm.Round.{round_up_lem, big_round_up_lem}
use vmpl_apps.Umm.Layout.{IsLaidOut, IsKernel, mmap_anom_huge, mmap_file_huge}

-- A range of the application, or a part of the mapping window.
abbrev pub IsInside : Platform → ℕ → ℕ → Type 0
IsInside pl ptr len =
    IsAppRange pl ptr len
    ⊎ IsWrapped pl ptr len
    ⊎ ((pl.mmap_base ≤ ptr) × (ptr + len ≤ pl.mmap_base + app_mmap_len))

-- The retry for big pages may reach up to 2 MiB further.
pub IsSpilled : Platform → ℕ → ℕ → Type 0
IsSpilled pl ptr len = (l : ℕ) × IsInside pl ptr l × (len < l + 2097152)

-- What each call may touch. A length of 2 ^ 47 or more is refused by the kernel. Nothing is asked of the
-- other calls, such as those that are passed on.
abbrev pub IsAllowed : Platform → Call → Type 0
IsAllowed pl (mmap addr len prot flags fd offset) = (2 ^ 47 ≤ len) ⊎ IsInside pl addr len
IsAllowed pl (munmap addr len) = IsSpilled pl addr len
IsAllowed pl (mprotect addr len prot) = IsInside pl addr len
IsAllowed pl (mremap old_address old_size new_size flags new_address) =
    IsInside pl old_address old_size × ((2 ^ 47 ≤ new_size) ⊎ IsInside pl new_address new_size)
IsAllowed pl (vm_map_phys addr len pa perm) = IsInside pl addr len
IsAllowed pl (vm_unmap addr len) = IsSpilled pl addr len
IsAllowed pl (vm_mprotect addr len perm) = IsInside pl addr len
IsAllowed pl (store addr value) = (addr ≡ 0) ⊎ IsInside pl addr 8
IsAllowed pl _ = Unit

abbrev pub IsConfined : Platform → Machine → Type 0
IsConfined pl s = All (IsAllowed pl) s.log

-- The areas do not overlap, and the calls were allowed.
abbrev pub IsGood : Platform → Machine → Type 0
IsGood pl s = IsLaidOut s × IsConfined pl s

module _ (pl : Platform) (ok : IsPlatform pl) (h : Host) where
  inside-IsSpilled : (ptr len : ℕ) → IsInside pl ptr len → IsSpilled pl ptr len
  unfolding IsSpilled
  inside-IsSpilled ptr len i = (len, i, omega arith)

  big_round_up-IsSpilled :
      (ptr len : ℕ)
      → len + 2097152 ≤ 2 ^ 64
      → IsInside pl ptr len
      → IsSpilled pl ptr (big_round_up pl len)
  unfolding IsSpilled
  big_round_up-IsSpilled ptr len b i = (len, i, omega (arith, big_round_up_lem pl ok len b))

  -- On a lawful platform and for a 64-bit address, if the calls so far were allowed, so they are
  -- after umm_munmap.
  pub umm_munmap-IsConfined :
      (addr len : ℕ) (s : Machine)
      → addr < 2 ^ 64
      → IsConfined pl s
      → IsConfined pl (machine_of (umm_munmap pl h addr len s))
  unfolding umm_munmap munmap_big
  umm_munmap-IsConfined addr len s b c = ground (
    arith,
    (mem_ref_is_safe_iff pl ok addr len b).0,
    inside-IsSpilled addr len,
    big_round_up-IsSpilled addr len,
  )

  pub umm_mprotect-IsConfined :
      (addr len prot : ℕ) (s : Machine)
      → addr < 2 ^ 64
      → IsConfined pl s
      → IsConfined pl (machine_of (umm_mprotect pl h addr len prot s))
  unfolding umm_mprotect
  umm_mprotect-IsConfined addr len prot s b c =
      ground (arith, (mem_ref_is_safe_iff pl ok addr len b).0)

  pub umm_brk-IsConfined :
      (brk : ℕ) (s : Machine)
      → brk < 2 ^ 64
      → IsLaidOut s
      → IsConfined pl s
      → IsConfined pl (machine_of (umm_brk pl h brk s))
  unfolding umm_brk brk_shrink brk_grow umm_space_left umm_mmap_anom
  umm_brk-IsConfined brk s b v c =
      let len = round_up pl (brk -w pl.mmap_base) in
      ground (
        arith,
        ok.base_low,
        ok.base_high,
        round_up_lem pl ok (brk - pl.mmap_base),
        inside-IsSpilled (pl.mmap_base +w len) (s.brk_len -w len),
        inside-IsSpilled (pl.mmap_base +w s.brk_len) (len -w s.brk_len),
      )

  pub umm_mmap-IsConfined :
      (addr len prot flags fd offset : ℕ) (s : Machine)
      → IsKernel h
      → addr < 2 ^ 64
      → len < 2 ^ 64
      → IsLaidOut s
      → IsConfined pl s
      → IsConfined pl (machine_of (umm_mmap pl h addr len prot flags fd offset s))
  unfolding umm_mmap mmap_at umm_space_left umm_get_map_pos
  umm_mmap-IsConfined addr len prot flags fd offset s k a b v c =
      let fresh = umm_get_map_pos pl s -w round_up pl len in
      elim (dec_lt len (2 ^ 47)) [
        | yes small ↦
            unfold umm_mmap_anom umm_mmap_file in
            ground (
              arith,
              ok.base_low,
              round_up_lem pl ok len,
              (mem_ref_is_safe_iff pl ok addr len a).0,
              inside-IsSpilled addr len,
              inside-IsSpilled fresh len,
            )
        | no huge ↦ ground (
          arith,
          mmap_anom_huge pl h k addr len prot s (omega arith),
          mmap_anom_huge pl h k fresh len prot s (omega arith),
          mmap_file_huge pl h k addr len prot flags fd offset s (omega arith),
          mmap_file_huge pl h k fresh len prot flags fd offset s (omega arith),
        )
      ]

  pub umm_shmat-IsConfined :
      (shmid addr shmflg : ℕ) (s : Machine)
      → IsKernel h
      → addr < 2 ^ 64
      → IsLaidOut s
      → IsConfined pl s
      → IsConfined pl (machine_of (umm_shmat pl h shmid addr shmflg s))
  unfolding umm_shmat shmat_sized shmat_at shm_size umm_space_left umm_get_map_pos
  umm_shmat-IsConfined shmid addr shmflg s k a v c =
      let log = shmctl_stat shmid ∷ s.log in
      ground (
        arith,
        ok.base_low,
        k.shm_small log,
        round_up_lem pl ok (h.shm_segsz log),
        (mem_ref_is_safe_iff pl ok addr (h.shm_segsz log) a).0,
      )

  -- On a lawful platform and with areas laid out well, if every range handed on so far belongs
  -- to the application, this holds after umm_alloc_stack.
  pub umm_alloc_stack-IsConfined :
      (s : Machine)
      → IsLaidOut s
      → IsConfined pl s
      → IsConfined pl (machine_of (umm_alloc_stack pl h s))
  unfolding umm_alloc_stack stack_at umm_mmap_anom umm_space_left umm_get_map_pos
  umm_alloc_stack-IsConfined s v c =
      let pos = umm_get_map_pos pl s in
      ground (
        arith,
        ok.base_low,
        ok.base_aligned,
        ok.pgsize_lem,
        ok.pgaddr_lem pos,
        inside-IsSpilled (pl.pgaddr pos -w app_stack_size +w pl.pgsize)
            (app_stack_size -w pl.pgsize),
      )

  pub umm_mremap-IsConfined :
      (old_address old_size new_size flags new_address : ℕ) (s : Machine)
      → IsKernel h
      → old_address < 2 ^ 64
      → new_size < 2 ^ 64
      → new_address < 2 ^ 64
      → IsLaidOut s
      → IsConfined pl s
      → IsConfined pl
          (machine_of (umm_mremap pl h old_address old_size new_size flags new_address s))
  unfolding umm_mremap mremap_at umm_space_left umm_get_map_pos
  umm_mremap-IsConfined old_address old_size new_size flags new_address s k a b d v c =
      let moved = bit_or flags (bit_or mremap_fixed mremap_maymove) in
      let fresh = umm_get_map_pos pl s -w round_up pl new_size in
      let old_ok = (mem_ref_is_safe_iff pl ok old_address old_size a).0 in
      let new_ok = (mem_ref_is_safe_iff pl ok new_address new_size d).0 in
      elim (dec_lt new_size (2 ^ 47)) [
        | yes small ↦ ground (
          arith,
          ok.base_low,
          round_up_lem pl ok new_size,
          old_ok,
          new_ok,
          inside-IsSpilled old_address old_size,
        )
        | no huge ↦ ground (
          arith,
          old_ok,
          new_ok,
          k.mremap_huge s.log old_address old_size new_size moved new_address (omega arith),
          k.mremap_huge s.log old_address old_size new_size moved fresh (omega arith),
        )
      ]
