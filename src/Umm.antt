-- ===== src/Umm.antt =====
-- sandbox/src/umm.c: the memory of the untrusted process. Sizes and addresses are 64-bit words; an
-- `int` argument is its 32-bit pattern; a result is the word that the caller sees, an error being
-- `-errno` sign-extended. USE_BIG_MEM is 0, as in the file.
pub mod Round
mod Tests
pub mod Layout
pub mod Confined
pub mod Keeps
pub mod Lockless
pub mod Words
pub mod Alloc
use vmpl_apps.Base.{
  ℕ, ◌-◌, ◌^◌, Bool, true, false, ◌&&◌, not, Option, none, some, bit_or, ltb, ◌==◌, ◌!=◌,
  if◌then◌else◌,
}
use vmpl_apps.Base.Words.{◌+w◌, ◌-w◌, neg, has_bit}
use vmpl_apps.Base.Linux.{
  eacces, einval, enomem, prot_read, prot_write, prot_exec, map_private, map_fixed, map_anonymous,
  map_hugetlb, mremap_maymove, mremap_fixed, shm_rdonly,
}
use vmpl_apps.Host.{
  Platform, Host, Machine, mmap, munmap, mprotect, mremap, shmctl_stat, shmat, shmdt, vm_map_phys,
  vm_unmap, vm_mprotect, ret, M, pure, exit, ◌>>=◌, ◌>>◌, ask, tell, neg_errno,
}
use vmpl_apps.Mem.{app_mmap_len, app_mmap_base_off, app_stack_size, mem_ref_is_safe}

-- PGADDR(len + PGSIZE - 1) and BIG_PGADDR(len + BIG_PGSIZE - 1).
unfoldable pub round_up : Platform → ℕ → ℕ
round_up pl len = pl.pgaddr (len +w pl.pgsize -w 1)

pub big_round_up : Platform → ℕ → ℕ
big_round_up pl len = pl.big_pgaddr (len +w pl.big_pgsize -w 1)

unfoldable pub umm_space_left : Machine → ℕ → Bool
umm_space_left s len = ltb (s.brk_len +w s.mmap_len +w len) app_mmap_len

pub umm_get_map_pos : Platform → Machine → ℕ
umm_get_map_pos pl s = pl.mmap_base +w app_mmap_base_off -w s.mmap_len

-- `mmap_len += n` and `brk_len = n`.
abbrev grow_map : ℕ → M (Unit {0})
grow_map n s = ret tt (record s { mmap_len = s.mmap_len +w n })

abbrev set_brk : ℕ → M (Unit {0})
set_brk n s = ret tt (record s { brk_len = n })

prot_bit : ℕ → ℕ → ℕ → ℕ → ℕ
prot_bit prot bit perm acc = if has_bit prot bit then bit_or acc perm else acc

pub prot_to_perm : Platform → ℕ → ℕ
unfolding prot_bit
prot_to_perm pl prot =
    prot_bit prot prot_exec pl.perm_x
      (prot_bit prot prot_write pl.perm_w (prot_bit prot prot_read pl.perm_r pl.perm_u))

-- The file descriptor -1.
abbrev pub no_fd : ℕ
no_fd = 2 ^ 32 - 1

module _ (pl : Platform) (h : Host) where
  pub umm_mmap_anom : (addr len prot : ℕ) (big : Bool) → M ℕ
  umm_mmap_anom addr len prot big =
      let flags = bit_or map_fixed (bit_or map_private map_anonymous) in
      let perm = prot_to_perm pl prot in
      do
        mem ← ask h (mmap addr len prot (if big then bit_or flags map_hugetlb else flags) no_fd 0)
        if mem != addr then neg_errno h else do
          r ← ask h (
              vm_map_phys addr len (h.va_to_pa addr)
                (if big then bit_or perm pl.perm_big else perm))
          if r != 0 then (do tell h (munmap addr len); pure r) else pure 0

  pub umm_mmap_file : (addr len prot flags fd offset : ℕ) → M ℕ
  umm_mmap_file addr len prot flags fd offset = do
    mem ← ask h (mmap addr len prot (bit_or map_fixed flags) fd offset)
    if mem != addr then neg_errno h else do
      r ← ask h (vm_map_phys addr len (h.va_to_pa addr) (prot_to_perm pl prot))
      if r != 0 then (do tell h (munmap addr len); pure r) else pure 0

  -- The two branches of umm_brk that move the break from `old` to `len`.
  brk_shrink : (brk old len : ℕ) → M ℕ
  brk_shrink brk old len = do
    r ← ask h (munmap (pl.mmap_base +w len) (old -w len))
    if r != 0
        then neg_errno h
        else do tell h (vm_unmap (pl.mmap_base +w len) (old -w len)); set_brk len; pure brk

  brk_grow : (brk old len : ℕ) → M ℕ
  brk_grow brk old len = do
    r ← umm_mmap_anom (pl.mmap_base +w old) (len -w old) (bit_or prot_read prot_write) false
    if r != 0 then pure r else do set_brk len; pure brk

  pub umm_brk : (brk : ℕ) → M ℕ
  umm_brk brk s =
      let len = round_up pl (brk -w pl.mmap_base) in
      if brk == 0
      then ret pl.mmap_base s
      else if ltb brk pl.mmap_base
      then ret (neg einval) s
      else if not (umm_space_left s len)
      then ret (neg enomem) s
      else if len == s.brk_len
      then ret brk s
      else if ltb len s.brk_len
      then brk_shrink brk s.brk_len len s
      else brk_grow brk s.brk_len len s

  -- What umm_map_big does at the address that it has chosen.
  map_big_at : (addr len prot full_len : ℕ) → M ℕ
  map_big_at addr len prot full_len = do
    r ← umm_mmap_anom addr len prot true
    if r != 0 then pure r else do grow_map full_len; pure addr

  pub umm_map_big : (len prot : ℕ) → M ℕ
  umm_map_big len prot s =
      let full_len = big_round_up pl len +w pl.big_pgoff (umm_get_map_pos pl s) in
      map_big_at (umm_get_map_pos pl s -w full_len) len prot full_len s

  -- What umm_mmap does once the address is known; `fd > 0` is read as for an `int`.
  pub mmap_at : (addr len prot flags fd offset : ℕ) → M (Unit {0}) → M ℕ
  mmap_at addr len prot flags fd offset adjust =
      if has_bit flags map_anonymous
      then (do
        r ← umm_mmap_anom addr len prot false
        if r != 0 then pure r else do adjust; pure addr)
      else if ltb 0 fd && ltb fd (2 ^ 31)
      then (do
        r ← umm_mmap_file addr len prot flags fd offset
        if r != 0 then pure r else do adjust; pure addr)
      else pure (neg einval)

  pub umm_mmap : (addr len prot flags fd offset : ℕ) → M ℕ
  umm_mmap addr len prot flags fd offset s =
      let fresh = umm_get_map_pos pl s -w round_up pl len in
      if addr == 0
      then if not (umm_space_left s len)
        then ret (neg enomem) s
        else mmap_at fresh len prot flags fd offset (grow_map (round_up pl len)) s
      else if not (mem_ref_is_safe pl addr len)
      then ret (neg einval) s
      else mmap_at addr len prot flags fd offset (pure tt) s

  -- The retry of umm_munmap for big pages.
  munmap_big : (addr len : ℕ) → M ℕ
  munmap_big addr len = do
    r ← ask h (munmap addr (big_round_up pl len))
    if r != 0 then neg_errno h else do tell h (vm_unmap addr (big_round_up pl len)); pure 0

  pub umm_munmap : (addr len : ℕ) → M ℕ
  umm_munmap addr len = if not (mem_ref_is_safe pl addr len) then pure (neg eacces) else do
    r ← ask h (munmap addr len)
    if r != 0 then munmap_big addr len else do tell h (vm_unmap addr len); pure 0

  -- `assert(!ret)` ends the process.
  pub umm_mprotect : (addr len prot : ℕ) → M ℕ
  umm_mprotect addr len prot = if not (mem_ref_is_safe pl addr len) then pure (neg eacces) else do
    r ← ask h (mprotect addr len prot)
    if r != 0 then neg_errno h else do
      r' ← ask h (vm_mprotect addr len (prot_to_perm pl prot))
      if r' != 0 then exit else pure 0

  -- What umm_shmat does once the address is known; `mmap_len` grows only at the end.
  shmat_at : (shmid addr shmflg perm len : ℕ) → M (Unit {0}) → M ℕ
  shmat_at shmid addr shmflg perm len adjust = do
    mem ← ask h (shmat shmid addr shmflg)
    if mem != addr then neg_errno h else do
      r ← ask h (vm_map_phys addr len (h.va_to_pa addr) perm)
      if r != 0 then (do tell h (shmdt addr); pure r) else do adjust; pure addr

  shmat_sized : (shmid addr shmflg perm len : ℕ) → M ℕ
  shmat_sized shmid addr shmflg perm len s =
      let fresh = umm_get_map_pos pl s -w round_up pl len in
      if addr == 0
      then if not (umm_space_left s len)
        then ret (neg enomem) s
        else shmat_at shmid fresh shmflg perm len (grow_map (round_up pl len)) s
      else if not (mem_ref_is_safe pl addr len)
      then ret (neg einval) s
      else shmat_at shmid addr shmflg perm len (pure tt) s

  shm_size : M ℕ
  shm_size s = ret (h.shm_segsz s.log) s

  pub umm_shmat : (shmid addr shmflg : ℕ) → M ℕ
  umm_shmat shmid addr shmflg =
      let prot = if has_bit shmflg shm_rdonly then prot_read else bit_or prot_read prot_write in
      do
        r ← ask h (shmctl_stat shmid)
        if r == neg 1
            then pure (neg 1)
            else do len ← shm_size; shmat_sized shmid addr shmflg (prot_to_perm pl prot) len

  -- `exit(1)` if the new place cannot be mapped.
  pub mremap_at : (old_address old_size new_size flags new_address : ℕ) → M (Unit {0}) → M ℕ
  mremap_at old_address old_size new_size flags new_address adjust =
      if not (has_bit flags mremap_maymove) then pure (neg einval) else do
        r ← ask h (
            mremap old_address old_size new_size (bit_or flags (bit_or mremap_fixed mremap_maymove))
              new_address)
        if r != new_address then neg_errno h else do
          adjust
          tell h (vm_unmap old_address old_size)
          r' ← ask h (
              vm_map_phys new_address new_size (h.va_to_pa new_address)
                (prot_to_perm pl (bit_or prot_read prot_write)))
          if r' != 0 then exit else pure new_address

  pub umm_mremap : (old_address old_size new_size flags new_address : ℕ) → M ℕ
  umm_mremap old_address old_size new_size flags new_address s =
      let fresh = umm_get_map_pos pl s -w round_up pl new_size in
      if not (mem_ref_is_safe pl old_address old_size)
      then ret (neg eacces) s
      else if has_bit flags mremap_fixed
      then if not (mem_ref_is_safe pl new_address new_size)
        then ret (neg eacces) s
        else mremap_at old_address old_size new_size flags new_address (pure tt) s
      else if not (umm_space_left s new_size)
      then ret (neg enomem) s
      else mremap_at old_address old_size new_size flags fresh (grow_map (round_up pl new_size)) s

  -- The result, and what is stored through `stack_top`.
  stack_at : (base : ℕ) → M (ℕ × Option ℕ)
  stack_at base = do
    r ←
        umm_mmap_anom (pl.pgaddr base -w app_stack_size +w pl.pgsize) (app_stack_size -w pl.pgsize)
          (bit_or prot_read prot_write) false
    if r != 0
        then pure (r, none)
        else do grow_map (app_stack_size +w pl.pgoff base); pure (0, some (pl.pgaddr base))

  pub umm_alloc_stack : M (ℕ × Option ℕ)
  umm_alloc_stack s =
      if not (umm_space_left s app_stack_size)
      then ret (neg enomem, none) s
      else stack_at (umm_get_map_pos pl s) s
