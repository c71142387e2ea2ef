-- ===== src/Umm/Round.antt =====
-- Page rounding, and where the free part of the window lies.
use vmpl_apps.Base.{ℕ, ◌+◌, ◌%◌, ◌^◌, ◌≤◌, ◌<◌, ◌≡◌, arith}
use vmpl_apps.Host.{Platform, IsPlatform, Machine}
use vmpl_apps.Mem.{app_mmap_len}
use vmpl_apps.Umm.{round_up, big_round_up, umm_get_map_pos}

module _ (pl : Platform) (ok : IsPlatform pl) where
  -- A length that does not come close to 2 ^ 64 is rounded up to the next page boundary.
  pub round_up_lem :
      (len : ℕ)
      → len + 4096 ≤ 2 ^ 64
      → (round_up pl len % 4096 ≡ 0) × (len ≤ round_up pl len) × (round_up pl len < len + 4096)
  unfolding round_up
  round_up_lem len h = ground (arith, ok.pgsize_lem, ok.pgaddr_lem (len + 4095))

  pub big_round_up_lem :
      (len : ℕ)
      → len + 2097152 ≤ 2 ^ 64
      → (big_round_up pl len % 2097152 ≡ 0)
        × (len ≤ big_round_up pl len)
        × (big_round_up pl len < len + 2097152)
  unfolding big_round_up
  big_round_up_lem len h = ground (arith, ok.big_pgsize_lem, ok.big_pgaddr_lem (len + 2097151))

  pub umm_get_map_pos_lem :
      (s : Machine)
      → s.mmap_len ≤ app_mmap_len
      → umm_get_map_pos pl s + s.mmap_len ≡ pl.mmap_base + app_mmap_len
  unfolding umm_get_map_pos
  umm_get_map_pos_lem s h = ground (arith, ok.base_low)
