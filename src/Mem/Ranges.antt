-- ===== src/Mem/Ranges.antt =====
-- What the reference checks of sandbox.h and trap.c accept, as ranges of addresses.
use vmpl_apps.Base.{
  ℕ, zero, suc, ◌+◌, ◌-◌, ◌*◌, ◌≤◌, ◌<◌, ◌^◌, ◌≡◌, ◌≢◌, ◌↔◌, ◌⊎◌, inl, inr, refl, Bool-cases, ltb,
  true, arith,
}
use vmpl_apps.Base.Words.{◌+w◌, low32, neg}
use vmpl_apps.Base.Linux.{efault}
use vmpl_apps.Host.{Platform, IsPlatform}
use vmpl_apps.Mem.{
  Memory, mem_ref_is_safe, check_extent, check_string, check_iovec, check_iovec_from,
  app_max_elf_vaddr, app_mmap_len, sizeof_iovec,
}

-- The range lies in the low region for code and data, or in the mapping window.
abbrev pub IsAppRange : Platform → ℕ → ℕ → Type 0
IsAppRange pl ptr len =
    (ptr + len ≤ app_max_elf_vaddr)
    ⊎ ((pl.dune_defined ≡ true) × (pl.mmap_base ≤ ptr) × (ptr + len < pl.mmap_base + app_mmap_len))

-- The range runs over the top of the address space, and is short enough to be accepted.
abbrev pub IsWrapped : Platform → ℕ → ℕ → Type 0
IsWrapped pl ptr len =
    (2 ^ 64 ≤ ptr + len)
    × (((len ≤ app_max_elf_vaddr) × (ptr + len ≤ 2 ^ 64 + app_max_elf_vaddr))
        ⊎ ((pl.dune_defined ≡ true) × (len ≤ app_mmap_len)))

module _ (pl : Platform) (ok : IsPlatform pl) (ptr len : ℕ) (hp : ptr < 2 ^ 64) where
  safe→ : mem_ref_is_safe pl ptr len ≡ true → IsAppRange pl ptr len ⊎ IsWrapped pl ptr len
  unfolding mem_ref_is_safe
  safe→ h = ground (arith, ok.base_low, ok.base_high)

  safe← : IsAppRange pl ptr len ⊎ IsWrapped pl ptr len → mem_ref_is_safe pl ptr len ≡ true
  unfolding mem_ref_is_safe
  safe← h = ground (arith, ok.base_low, ok.base_high)

  -- On a lawful platform and for a 64-bit pointer, mem_ref_is_safe accepts exactly the ranges
  -- that lie in the low region or, in a build with DUNE, in the mapping window, and short
  -- ranges that wrap at the top of the address space.
  pub mem_ref_is_safe_iff :
      (mem_ref_is_safe pl ptr len ≡ true) ↔ (IsAppRange pl ptr len ⊎ IsWrapped pl ptr len)
  mem_ref_is_safe_iff = (safe→, safe←)

-- A reference that runs over the top of the address space.
module _ (pl : Platform) (ptr len : ℕ) (hp : ptr < 2 ^ 64) where
  -- A 64-bit pointer and a length of at most the low region's size whose sum reaches 2 ^ 64 are
  -- accepted, though the pointer is above the low region.
  mem_ref_is_safe_wraps :
      2 ^ 64 ≤ ptr + len
      → len ≤ app_max_elf_vaddr
      → (mem_ref_is_safe pl ptr len ≡ true) × (app_max_elf_vaddr < ptr)
  unfolding mem_ref_is_safe
  mem_ref_is_safe_wraps h k = ground arith

-- `memchr` gives the first zero byte of the stretch, or the null pointer if there is none.
pub record IsMemchr (mem : Memory) (byte : ℕ → ℕ) : Type 0 where
  pub hit :
      (ptr maxlen : ℕ)
      → mem.memchr_nul ptr maxlen ≢ 0
      → (ptr ≤ mem.memchr_nul ptr maxlen)
        × (mem.memchr_nul ptr maxlen < ptr + maxlen)
        × (byte (mem.memchr_nul ptr maxlen) ≡ 0)
  pub miss :
      (ptr maxlen q : ℕ)
      → mem.memchr_nul ptr maxlen ≡ 0
      → 0 < ptr
      → ptr ≤ q
      → q < ptr + maxlen
      → byte q ≢ 0

-- A string at `ptr` whose end lies in the same region as its beginning.
abbrev pub IsTerminated : Platform → (ℕ → ℕ) → ℕ → Type 0
IsTerminated pl byte ptr =
    (q : ℕ) × (ptr ≤ q)
    × (byte q ≡ 0)
    × ((q < app_max_elf_vaddr) ⊎ ((pl.mmap_base ≤ ptr) × (q < pl.mmap_base + app_mmap_len)))

module _ (pl : Platform) (ok : IsPlatform pl) (mem : Memory) (byte : ℕ → ℕ)
    (chr : IsMemchr mem byte) (ptr : ℕ) (h0 : 0 < ptr) (hp : ptr < 2 ^ 64) where
  abbrev elf_len : ℕ
  elf_len = app_max_elf_vaddr - ptr

  abbrev window_len : ℕ
  window_len = pl.mmap_base + app_mmap_len - ptr

  string→ : check_string pl mem ptr ≡ 0 → IsTerminated pl byte ptr
  unfolding check_string
  string→ h = elim (Bool-cases (ltb ptr app_max_elf_vaddr)) [
    | inl low ↦ (
      mem.memchr_nul ptr elf_len,
      ground (arith, chr.hit ptr elf_len),
      ground (arith, chr.hit ptr elf_len),
      inl (ground (arith, chr.hit ptr elf_len)),
    )
    | inr high ↦ (
      mem.memchr_nul ptr window_len,
      ground (arith, ok.base_low, chr.hit ptr window_len),
      ground (arith, ok.base_low, chr.hit ptr window_len),
      inr (ground (arith, ok.base_low, chr.hit ptr window_len)),
    )
  ]

  string← : IsTerminated pl byte ptr → check_string pl mem ptr ≡ 0
  unfolding check_string
  string← (q, below, nul, region) =
      ground (arith, ok.base_low, chr.miss ptr elf_len q, chr.miss ptr window_len q)

abbrev pub IsChecked : Platform → Memory → ℕ → Type 0
IsChecked pl mem iov = check_extent pl (mem.load64 iov) (mem.load64 (iov +w 8)) ≡ 0

-- The address of the entry `i` of the array.
abbrev pub entry : ℕ → ℕ → ℕ
entry iov zero = iov
entry iov (suc i) = entry (iov +w sizeof_iovec) i

module _ (pl : Platform) (mem : Memory) where
  iovec_from→ :
      (n iov : ℕ)
      → check_iovec_from pl mem n iov ≡ 0
      → (i : ℕ) → i < n
      → IsChecked pl mem (entry iov i)
  unfolding check_iovec_from
  iovec_from→ zero iov h i lt = absurd (omega arith)
  iovec_from→ (suc n) iov h zero lt = ground arith
  iovec_from→ (suc n) iov h (suc i) lt =
      ground (arith, iovec_from→ n (iov +w sizeof_iovec) (ground arith) i)

  iovec_from← :
      (n iov : ℕ)
      → ((i : ℕ) → i < n → IsChecked pl mem (entry iov i))
      → check_iovec_from pl mem n iov ≡ 0
  unfolding check_iovec_from
  iovec_from← zero iov h = refl
  iovec_from← (suc n) iov h =
      ground (arith, h 0, iovec_from← n (iov +w sizeof_iovec) (λ i lt. h (suc i) (omega arith)))

-- A string is accepted exactly when a zero byte follows within its region.
module _ (pl : Platform) (ok : IsPlatform pl) (mem : Memory) (byte : ℕ → ℕ)
    (chr : IsMemchr mem byte) (ptr : ℕ) (h0 : 0 < ptr) (hp : ptr < 2 ^ 64) where
  -- On a lawful platform, with a memchr that keeps its law and a nonzero 64-bit pointer,
  -- check_string returns 0 exactly when a zero byte follows in the region in which the string
  -- begins.
  pub check_string_iff : (check_string pl mem ptr ≡ 0) ↔ IsTerminated pl byte ptr
  check_string_iff = (string→ pl ok mem byte chr ptr h0 hp, string← pl ok mem byte chr ptr h0 hp)

-- Every entry of the array, and the array.
abbrev pub IsCheckedArray : Platform → Memory → ℕ → ℕ → Type 0
IsCheckedArray pl mem iov num =
    (low32 num < 2 ^ 31)
    × (check_extent pl iov (16 * low32 num) ≡ 0)
    × ((i : ℕ) → i < low32 num → IsChecked pl mem (entry iov i))

module _ (pl : Platform) (mem : Memory) (iov num : ℕ) where
  iovec→ : check_iovec pl mem iov num ≡ 0 → IsCheckedArray pl mem iov num
  unfolding check_iovec check_extent mem_ref_is_safe
  iovec→ h = (ground arith, ground arith, iovec_from→ pl mem (low32 num) iov (ground arith))

  iovec← : IsCheckedArray pl mem iov num → check_iovec pl mem iov num ≡ 0
  unfolding check_iovec
  iovec← (small, arr, each) = ground (arith, iovec_from← pl mem (low32 num) iov each)

  -- check_iovec returns 0 exactly when the count is not negative, the array passes the extent
  -- check, and so does each of its entries.
  pub check_iovec_iff : (check_iovec pl mem iov num ≡ 0) ↔ IsCheckedArray pl mem iov num
  check_iovec_iff = (iovec→, iovec←)

module _ (pl : Platform) (mem : Memory) where
  iovec_from_values :
      (n iov : ℕ)
      → (check_iovec_from pl mem n iov ≡ 0) ⊎ (check_iovec_from pl mem n iov ≡ neg efault)
  unfolding check_iovec_from
  iovec_from_values zero iov = inl refl
  iovec_from_values (suc n) iov = ground (arith, iovec_from_values n (iov +w sizeof_iovec))

  pub check_iovec_values :
      (iov num : ℕ) → (check_iovec pl mem iov num ≡ 0) ⊎ (check_iovec pl mem iov num ≡ neg efault)
  unfolding check_iovec
  check_iovec_values iov num = ground (arith, iovec_from_values (low32 num) iov)
