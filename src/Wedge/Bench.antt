-- ===== src/Wedge/Bench.antt =====
-- wedge/src/bench.c: the measurement of a benchmark (benchmark_latency).
pub mod Latency
pub mod Switch
mod Tests
use vmpl_apps.Base.{
  ℕ, zero, suc, ◌+◌, ◌*◌, ◌/◌, ◌%◌, ◌^◌, Option, none, some, List, [], ◌∷◌, bit_or, ltb, ◌==◌,
  if◌then◌else◌,
}
use vmpl_apps.Base.Words.{◌+w◌, ◌-w◌, word_mod}

-- `struct timeval`, as words.
pub record Timeval : Type 0 where
  pub tv_sec : ℕ
  pub tv_usec : ℕ

pub elapsed : (a b : Timeval) → ℕ
elapsed a b =
    let t = b.tv_sec -w a.tv_sec in
    if t == 0
    then b.tv_usec -w a.tv_usec
    else ((t -w 1) * (1000 * 1000)) % word_mod +w b.tv_usec +w (1000 * 1000 -w a.tv_usec)

-- The loop from round `i`, on what the clock gives before and behind each call of `cb`: `avg` and
-- `num` at its end.
pub latencies : (i avg num : ℕ) → List (Timeval × Timeval) → ℕ × ℕ
unfolding elapsed
latencies i avg num [] = (avg, num)
latencies i avg num ((a, b) ∷ readings) =
    if ltb 4 i
    then latencies (i + 1) (avg +w elapsed a b) (num + 1) readings
    else latencies (i + 1) avg num readings

-- The quotient of the doubles is cut off; no int may be 2 ^ 31 or more (`none`), and below that the
-- quotient of two numbers below 2 ^ 53 is cut off as that of the numbers is.
pub benchmark_latency : List (Timeval × Timeval) → Option ℕ
unfolding latencies
benchmark_latency readings =
    let (avg, num) = latencies 0 0 0 readings in
    if ltb (avg / num) (2 ^ 31) then some (avg / num) else none
