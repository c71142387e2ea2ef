-- ===== src/Umm/Words.antt =====
-- What the functions of umm.c return are 64-bit words.
use vmpl_apps.Base.{ℕ, ◌<◌, ◌^◌, arith}
use vmpl_apps.Host.{Platform, IsPlatform, Host, Machine}
use vmpl_apps.Host.Replies.{IsWord, IsWordHost}
use vmpl_apps.Umm.{
  umm_mmap_anom, umm_mmap_file, brk_shrink, brk_grow, umm_brk, mmap_at, umm_mmap, munmap_big,
  umm_munmap, umm_mprotect, shmat_at, shmat_sized, shm_size, umm_shmat, mremap_at, umm_mremap,
}

module _ (pl : Platform) (ok : IsPlatform pl) (h : Host) (w : IsWordHost h) (s : Machine) where
  pub umm_brk-IsWord : (brk : ℕ) → brk < 2 ^ 64 → IsWord (umm_brk pl h brk s)
  unfolding umm_brk brk_shrink brk_grow umm_mmap_anom
  umm_brk-IsWord brk lt = grind (arith, ok.base_high, w.reply_lem)

  pub umm_mmap-IsWord :
      (addr len prot flags fd offset : ℕ)
      → addr < 2 ^ 64
      → IsWord (umm_mmap pl h addr len prot flags fd offset s)
  unfolding umm_mmap mmap_at umm_mmap_anom umm_mmap_file
  umm_mmap-IsWord addr len prot flags fd offset lt = grind (arith, w.reply_lem)

  pub umm_munmap-IsWord : (addr len : ℕ) → IsWord (umm_munmap pl h addr len s)
  unfolding umm_munmap munmap_big
  umm_munmap-IsWord addr len = ground arith

  pub umm_mprotect-IsWord : (addr len prot : ℕ) → IsWord (umm_mprotect pl h addr len prot s)
  unfolding umm_mprotect
  umm_mprotect-IsWord addr len prot = ground arith

  pub umm_shmat-IsWord :
      (shmid addr shmflg : ℕ) → addr < 2 ^ 64 → IsWord (umm_shmat pl h shmid addr shmflg s)
  unfolding umm_shmat shm_size shmat_sized shmat_at
  umm_shmat-IsWord shmid addr shmflg lt = grind (arith, w.reply_lem)

  pub umm_mremap-IsWord :
      (old_address old_size new_size flags new_address : ℕ)
      → new_address < 2 ^ 64
      → IsWord (umm_mremap pl h old_address old_size new_size flags new_address s)
  unfolding umm_mremap mremap_at
  umm_mremap-IsWord old_address old_size new_size flags new_address lt = ground arith
