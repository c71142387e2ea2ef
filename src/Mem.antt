-- ===== src/Mem.antt =====
-- The checks of memory references: sandbox/include/sandbox.h (mem_ref_is_safe) and, of
-- sandbox/src/trap.c, check_extent, check_string and check_iovec.
pub mod Ranges
mod Tests
use vmpl_apps.Base.{
  ℕ, zero, suc, ◌+◌, ◌-◌, ◌*◌, ◌%◌, ◌^◌, Bool, true, false, ◌&&◌, ltb, leb, ◌==◌, ◌!=◌,
  if◌then◌else◌,
}
use vmpl_apps.Base.Words.{word_mod, ◌+w◌, ◌-w◌, neg, low32}
use vmpl_apps.Base.Linux.{efault}
use vmpl_apps.Host.{Platform}

abbrev pub app_max_elf_vaddr : ℕ
app_max_elf_vaddr = 0x70000000

abbrev pub loader_vaddr_off : ℕ
loader_vaddr_off = 0x6F000000

abbrev pub app_mmap_base_off : ℕ
app_mmap_base_off = 0x200000000

abbrev pub app_mmap_len : ℕ
app_mmap_len = 0x200000000

abbrev pub app_stack_size : ℕ
app_stack_size = 0x800000

-- The memory of the application as the checks read it: 64-bit and 32-bit words, and `memchr` for a
-- zero byte, which gives the position found or 0.
pub record Memory : Type 0 where
  pub load64 : ℕ → ℕ
  pub load32 : ℕ → ℕ
  pub memchr_nul : (ptr maxlen : ℕ) → ℕ

-- An `iov_base` and an `iov_len` of 8 bytes each.
abbrev pub sizeof_iovec : ℕ
sizeof_iovec = 16

-- `num` is an `int`: its low 32 bits, sign-extended where it is multiplied by a `size_t`.
abbrev pub iovec_bytes : (num : ℕ) → ℕ
iovec_bytes num =
    (sizeof_iovec * (if ltb (low32 num) (2 ^ 31) then low32 num else low32 num + (2 ^ 64 - 2 ^ 32)))
    % word_mod

module _ (pl : Platform) where
  -- `begin >= 0` holds of every unsigned number.
  unfoldable pub mem_ref_is_safe : (ptr len : ℕ) → Bool
  mem_ref_is_safe ptr len =
      let end = ptr +w len in
      if leb len app_max_elf_vaddr && leb 0 ptr && leb end app_max_elf_vaddr
      then true
      else if pl.dune_defined
          && leb len app_mmap_len
          && leb pl.mmap_base ptr
          && ltb end (pl.mmap_base +w app_mmap_len)
      then true
      else false

  unfoldable pub check_extent : (ptr len : ℕ) → ℕ
  unfolding mem_ref_is_safe
  check_extent ptr len = if mem_ref_is_safe ptr len then 0 else neg efault

  -- The stretch from `ptr` to the end of its region, or the jump to `fault`.
  nul_within : Memory → (ptr maxlen : ℕ) → ℕ
  nul_within mem ptr maxlen = if mem.memchr_nul ptr maxlen == 0 then neg efault else 0

  unfoldable pub check_string : Memory → (ptr : ℕ) → ℕ
  unfolding nul_within
  check_string mem ptr =
      if ltb ptr app_max_elf_vaddr
      then nul_within mem ptr (app_max_elf_vaddr - ptr)
      else if leb pl.mmap_base ptr
      then if leb (pl.mmap_base +w app_mmap_len) ptr
        then neg efault
        else nul_within mem ptr ((pl.mmap_base +w app_mmap_len) -w ptr)
      else neg efault

  -- The loop, with the rounds left; `iov++` is the last step of a round.
  unfoldable pub check_iovec_from : Memory → (rounds iov : ℕ) → ℕ
  check_iovec_from mem zero iov = 0
  check_iovec_from mem (suc num) iov =
      let rest = check_iovec_from mem num (iov +w sizeof_iovec) in
      if check_extent (mem.load64 iov) (mem.load64 (iov +w 8)) != 0 then neg efault else rest

  unfoldable pub check_iovec : Memory → (iov num : ℕ) → ℕ
  check_iovec mem iov num =
      if check_extent iov (iovec_bytes num) != 0
      then neg efault
      else check_iovec_from mem (low32 num) iov
