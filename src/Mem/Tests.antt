-- ===== src/Mem/Tests.antt =====
-- Runs of the reference checks, and the witnesses of their theorems.
use vmpl_apps.Base.{◌≡◌, ◌↔◌, ◌⊎◌, refl, true, false, arith, ltb, if◌then◌else◌}
use vmpl_apps.Samples.{platform, platform-IsPlatform, memory}
use vmpl_apps.Mem.{
  Memory, mem_ref_is_safe, check_string, check_iovec, check_extent, check_iovec_from,
}
use vmpl_apps.Mem.Ranges.{
  IsAppRange, IsWrapped, IsTerminated, IsMemchr, IsCheckedArray, mem_ref_is_safe_iff,
  check_string_iff, check_iovec_iff,
}

in_window : mem_ref_is_safe platform 0x400001000 4096 ≡ true
unfolding mem_ref_is_safe
in_window = refl

between_regions : mem_ref_is_safe platform 0x80000000 1 ≡ false
unfolding mem_ref_is_safe
between_regions = refl

null_entries : check_iovec platform memory 0x1000 3 ≡ 0
unfolding check_iovec check_iovec_from check_extent
null_entries = refl

mem_ref_is_safe_iff_example :
    (mem_ref_is_safe platform 0x400001000 4096 ≡ true)
    ↔ (IsAppRange platform 0x400001000 4096 ⊎ IsWrapped platform 0x400001000 4096)
mem_ref_is_safe_iff_example =
    mem_ref_is_safe_iff platform platform-IsPlatform 0x400001000 4096 (omega arith)

-- A memory of zero bytes, in which `memchr` finds the first byte that it looks at.
abbrev zeros : Memory
zeros = record memory { memchr_nul = λ p n. if ltb 0 n then p else 0 }

zeros-IsMemchr : IsMemchr zeros (λ q. 0)
zeros-IsMemchr = record {
  hit = λ ptr maxlen e. ground arith;
  miss = λ ptr maxlen q e p b l z. ground arith;
}

check_string_iff_example :
    (check_string platform zeros 0x1000 ≡ 0) ↔ IsTerminated platform (λ q. 0) 0x1000
check_string_iff_example =
    check_string_iff platform platform-IsPlatform zeros (λ q. 0) zeros-IsMemchr 0x1000 (omega arith)
      (omega arith)

check_iovec_iff_example :
    (check_iovec platform memory 0x1000 3 ≡ 0) ↔ IsCheckedArray platform memory 0x1000 3
check_iovec_iff_example = check_iovec_iff platform memory 0x1000 3
