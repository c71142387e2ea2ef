-- ===== src/Umm/Lockless.antt =====
-- umm.c does not touch _syscall_mtx.
use vmpl_apps.Base.{ℕ, arith}
use vmpl_apps.Host.{Platform, Host}
use vmpl_apps.Host.Stays.{Stays}
use vmpl_apps.Host.Mutex.{mutex, Lockless}
use vmpl_apps.Umm.{
  umm_mmap_anom, umm_mmap_file, brk_shrink, brk_grow, umm_brk, mmap_at, umm_mmap, munmap_big,
  umm_munmap, umm_mprotect, shmat_at, shmat_sized, shm_size, umm_shmat, mremap_at, umm_mremap,
}

module _ (pl : Platform) (h : Host) where
  pub umm_brk-Lockless : (brk : ℕ) → Lockless (umm_brk pl h brk)
  unfolding Lockless umm_brk brk_shrink brk_grow umm_mmap_anom Stays mutex
  umm_brk-Lockless brk v s i = ground arith

  pub umm_mmap-Lockless :
      (addr len prot flags fd offset : ℕ) → Lockless (umm_mmap pl h addr len prot flags fd offset)
  unfolding Lockless umm_mmap mmap_at umm_mmap_anom umm_mmap_file Stays mutex
  umm_mmap-Lockless addr len prot flags fd offset v s i = ground arith

  pub umm_munmap-Lockless : (addr len : ℕ) → Lockless (umm_munmap pl h addr len)
  unfolding Lockless umm_munmap munmap_big Stays mutex
  umm_munmap-Lockless addr len v s i = ground arith

  pub umm_mprotect-Lockless : (addr len prot : ℕ) → Lockless (umm_mprotect pl h addr len prot)
  unfolding Lockless umm_mprotect Stays mutex
  umm_mprotect-Lockless addr len prot v s i = ground arith

  pub umm_shmat-Lockless : (shmid addr shmflg : ℕ) → Lockless (umm_shmat pl h shmid addr shmflg)
  unfolding Lockless umm_shmat shm_size shmat_sized shmat_at Stays mutex
  umm_shmat-Lockless shmid addr shmflg v s i = ground arith

  pub umm_mremap-Lockless :
      (old_address old_size new_size flags new_address : ℕ)
      → Lockless (umm_mremap pl h old_address old_size new_size flags new_address)
  unfolding Lockless umm_mremap mremap_at Stays mutex
  umm_mremap-Lockless old_address old_size new_size flags new_address v s i = ground arith
