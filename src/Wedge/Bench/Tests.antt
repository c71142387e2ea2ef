-- ===== src/Wedge/Bench/Tests.antt =====
-- A measurement.
use vmpl_apps.Base.{◌≡◌, refl, some, List, [], ◌∷◌, ◌++◌}
use vmpl_apps.Wedge.Bench.{Timeval, elapsed, latencies, benchmark_latency}

-- From 7.999990 to 8.000030.
abbrev reading : Timeval × Timeval
reading = (record { tv_sec = 7; tv_usec = 999990 }, record { tv_sec = 8; tv_usec = 30 })

abbrev five : List (Timeval × Timeval)
five = reading ∷ reading ∷ reading ∷ reading ∷ reading ∷ []

measures : benchmark_latency (five ++ five) ≡ some 40
unfolding benchmark_latency latencies elapsed
measures = refl
