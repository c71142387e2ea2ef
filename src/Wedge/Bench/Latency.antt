-- ===== src/Wedge/Bench/Latency.antt =====
-- What benchmark_latency measures.
use vmpl_apps.Base.{
  ℕ, ◌+◌, ◌-◌, ◌*◌, ◌/◌, ◌≤◌, ◌<◌, ◌^◌, ◌≡◌, some, List, [], ◌∷◌, ◌++◌, refl, none, ltb,
  if◌then◌else◌, All, length, arith,
}
use native.Mathlib.Nat.{zero-add}
use vmpl_apps.Base.Words.{◌+w◌}
use vmpl_apps.Wedge.Bench.{Timeval, elapsed, latencies, benchmark_latency}

-- The time in microseconds.
abbrev micros : Timeval → ℕ
micros t = t.tv_sec * 1000000 + t.tv_usec

-- A clock that does not go back, on this side of the year 36812.
abbrev IsReading : Timeval × Timeval → Type 0
IsReading (a, b) =
    (a.tv_usec < 1000000) × (b.tv_usec < 1000000) × (micros a ≤ micros b) × (b.tv_sec < 2 ^ 40)

elapsed_lem : (a b : Timeval) → IsReading (a, b) → elapsed a b ≡ micros b - micros a
unfolding elapsed
elapsed_lem a b r = ground arith

abbrev total : List (Timeval × Timeval) → ℕ
total [] = 0
total ((a, b) ∷ l) = (micros b - micros a) + total l

-- The first five rounds are left out.
latencies-warm :
    (i num avg : ℕ) (warm kept : List (Timeval × Timeval))
    → i + length warm ≡ 5
    → latencies i avg num (warm ++ kept) ≡ latencies 5 avg num kept
unfolding latencies
latencies-warm i num avg [] kept e = let at : i ≡ 5 = omega arith in rw at refl
latencies-warm i num avg (r ∷ warm) kept e =
    ground (arith, latencies-warm (i + 1) num avg warm kept (omega arith))

latencies-kept :
    (i num avg : ℕ) (kept : List (Timeval × Timeval))
    → 4 < i
    → All IsReading kept
    → avg + length kept * 2 ^ 61 < 2 ^ 64
    → latencies i avg num kept ≡ (avg + total kept, num + length kept)
unfolding latencies
latencies-kept i num avg [] lt a small = ground arith
latencies-kept i num avg ((a, b) ∷ kept) lt (r, all) small =
    let span = micros b - micros a in
    let same : avg +w elapsed a b ≡ avg + span = omega (arith, elapsed_lem a b r) in
    rw same (
      ground
        (arith, latencies-kept (i + 1) (num + 1) (avg + span) kept (omega arith) all (omega arith)))

benchmark_latency_lem :
    (warm kept : List (Timeval × Timeval))
    → length warm ≡ 5
    → length kept ≡ 5
    → All IsReading kept
    → benchmark_latency (warm ++ kept)
      ≡ (if ltb (total kept / 5) (2 ^ 31) then some (total kept / 5) else none)
unfolding benchmark_latency
benchmark_latency_lem warm kept five five' all =
    rw
      (
        latencies-warm 0 0 0 warm kept (omega arith),
        latencies-kept 5 0 0 kept (omega arith) all (omega arith),
        five',
        zero-add,
      )
      refl
