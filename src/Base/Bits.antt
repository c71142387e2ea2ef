-- ===== src/Base/Bits.antt =====
-- The binary digits of `bit_and` and `bit_or`, one at a time from the lowest.
use Prim.Native.Nat.{
  ℕ, zero, suc, ◌+◌, ◌*◌, ◌/◌, ◌%◌, ◌≤◌, ◌<◌, min, max, bit_and, bit_or, digits, bit_and-bitwise,
  bit_or-bitwise,
}
use mathlib.Core.Path.{◌≡◌, refl, sym, ◌∙◌}
use native.Mathlib.Omega.{arith}
use mathlib.Core.Bool.{true}
use vmpl_apps.Base.Tests.{◌==◌, ◌!=◌, if◌then◌else◌}

-- An operation on numbers that joins two digits by `f`, where `z b` is what it gives at 0 and `b`.
module _ (z : ℕ → ℕ) (f : ℕ → ℕ → ℕ) (runs_out : (b : ℕ) → z b ≡ z (b / 2) * 2 + f 0 (b % 2)) where
  spent : (n b : ℕ) → digits z f n 0 b ≡ z b
  spent zero b = refl
  spent (suc n) b = refl

  enough : (n m a b : ℕ) → a ≤ n → a ≤ m → digits z f n a b ≡ digits z f m a b
  enough n m zero b p q = spent n b ∙ sym (spent m b)
  enough zero m (suc a) b p q = absurd (omega arith)
  enough (suc n) zero (suc a) b p q = absurd (omega arith)
  enough (suc n) (suc m) (suc a) b p q =
      omega (arith, enough n m (suc a / 2) (b / 2) (omega arith) (omega arith))

  by_digit :
      (a b : ℕ) → digits z f a a b ≡ digits z f (a / 2) (a / 2) (b / 2) * 2 + f (a % 2) (b % 2)
  by_digit zero b = runs_out b
  by_digit (suc a) b =
      omega (arith, enough a (suc a / 2) (suc a / 2) (b / 2) (omega arith) (omega arith))

pub bit_and_step : (a b : ℕ) → bit_and a b ≡ bit_and (a / 2) (b / 2) * 2 + min (a % 2) (b % 2)
bit_and_step a b = omega (
  arith,
  bit_and-bitwise a b,
  bit_and-bitwise (a / 2) (b / 2),
  by_digit (λ b. zero) min (λ b. omega arith) a b,
)

pub bit_or_step : (a b : ℕ) → bit_or a b ≡ bit_or (a / 2) (b / 2) * 2 + max (a % 2) (b % 2)
bit_or_step a b = omega (
  arith,
  bit_or-bitwise a b,
  bit_or-bitwise (a / 2) (b / 2),
  by_digit (λ b. b) max (λ b. omega arith) a b,
)

pub bit_and-zero : (n a : ℕ) → a ≤ n → bit_and a 0 ≡ 0
bit_and-zero n zero h = bit_and-bitwise 0 0
bit_and-zero zero (suc a) h = absurd (omega arith)
bit_and-zero (suc n) (suc a) h =
    omega (arith, bit_and_step (suc a) 0, bit_and-zero n (suc a / 2) (omega arith))

pub bit_or-zero : (n a : ℕ) → a ≤ n → bit_or a 0 ≡ a
bit_or-zero n zero h = bit_or-bitwise 0 0
bit_or-zero zero (suc a) h = absurd (omega arith)
bit_or-zero (suc n) (suc a) h =
    omega (arith, bit_or_step (suc a) 0, bit_or-zero n (suc a / 2) (omega arith))

-- The digit of weight `2 ^ k`.
abbrev pub digit : (k x : ℕ) → ℕ
digit zero x = x % 2
digit (suc k) x = digit k (x / 2)

-- `1 << k`.
abbrev pub one_shl : ℕ → ℕ
one_shl zero = 1
one_shl (suc k) = one_shl k * 2

pub digit-bit_and : (k a b : ℕ) → digit k (bit_and a b) ≡ min (digit k a) (digit k b)
digit-bit_and zero a b = omega (arith, bit_and_step a b)
digit-bit_and (suc k) a b =
    let half : bit_and a b / 2 ≡ bit_and (a / 2) (b / 2) = omega (arith, bit_and_step a b) in
    rw half (digit-bit_and k (a / 2) (b / 2))

pub digit-bit_or : (k a b : ℕ) → digit k (bit_or a b) ≡ max (digit k a) (digit k b)
digit-bit_or zero a b = omega (arith, bit_or_step a b)
digit-bit_or (suc k) a b =
    let half : bit_or a b / 2 ≡ bit_or (a / 2) (b / 2) = omega (arith, bit_or_step a b) in
    rw half (digit-bit_or k (a / 2) (b / 2))

-- A test of one bit.
pub bit_and-one_shl : (k x : ℕ) → bit_and x (one_shl k) ≡ digit k x * one_shl k
bit_and-one_shl zero x = omega (arith, bit_and_step x 1, bit_and-zero (x / 2) (x / 2) (omega arith))
bit_and-one_shl (suc k) x =
    let half : one_shl k * 2 / 2 ≡ one_shl k = omega arith in
    let step : bit_and x (one_shl k * 2) ≡ bit_and (x / 2) (one_shl k) * 2 =
      rw (bit_and_step x (one_shl k * 2), half) (omega arith) in
    grind (arith, bit_and-one_shl k (x / 2))

pub one_shl_positive : (k : ℕ) → 0 < one_shl k
one_shl_positive zero = omega arith
one_shl_positive (suc k) = omega (arith, one_shl_positive k)

digit-none : (k : ℕ) → digit k 0 ≡ 0
digit-none zero = refl
digit-none (suc k) = digit-none k

pub digit-one_shl : (k j : ℕ) → digit k (one_shl j) ≡ (if k == j then 1 else 0)
digit-one_shl zero zero = refl
digit-one_shl zero (suc j) = ground arith
digit-one_shl (suc k) zero = ground (arith, digit-none k)
digit-one_shl (suc k) (suc j) =
    let half : one_shl j * 2 / 2 ≡ one_shl j = omega arith in
    rw half (ground (arith, digit-one_shl k j))

pub digit-le : (k x : ℕ) → digit k x ≤ 1
digit-le zero x = omega arith
digit-le (suc k) x = digit-le k (x / 2)

-- `x & 1 << k` as a condition.
pub bit_test : (k x : ℕ) → (bit_and x (one_shl k) != 0) ≡ (digit k x == 1)
bit_test k x = rw (bit_and-one_shl k x) (grind (arith, digit-le k x, one_shl_positive k))

digit-byte : (k x : ℕ) → k < 8 → digit k (x % 256) ≡ digit k x
digit-byte zero x h = omega arith
digit-byte (suc zero) x h = omega arith
digit-byte (suc (suc zero)) x h = omega arith
digit-byte (suc (suc (suc zero))) x h = omega arith
digit-byte (suc (suc (suc (suc zero)))) x h = omega arith
digit-byte (suc (suc (suc (suc (suc zero))))) x h = omega arith
digit-byte (suc (suc (suc (suc (suc (suc zero)))))) x h = omega arith
digit-byte (suc (suc (suc (suc (suc (suc (suc zero))))))) x h = omega arith
digit-byte (suc (suc (suc (suc (suc (suc (suc (suc k)))))))) x h = absurd (omega arith)

-- A bit of a byte, behind `b |= 1 << j`.
pub bit_test-set :
    (k j b : ℕ)
    → k < 8
    → (bit_and (bit_or b (one_shl j) % 256) (one_shl k) != 0)
      ≡ (if k == j then true else bit_and b (one_shl k) != 0)
bit_test-set k j b h =
    rw (bit_test k (bit_or b (one_shl j) % 256), bit_test k b)
      (ground (
        arith,
        digit-byte k (bit_or b (one_shl j)) h,
        digit-bit_or k b (one_shl j),
        digit-one_shl k j,
        digit-le k b,
      ))

-- The digits above the lowest four.
abbrev pub above : ℕ → ℕ
above x = x / 2 / 2 / 2 / 2

-- Four digits at once.
pub bit_and_four :
    (a b : ℕ)
    → bit_and a b
      ≡ bit_and (above a) (above b) * 16
        + min (a / 2 / 2 / 2 % 2) (b / 2 / 2 / 2 % 2) * 8
        + min (a / 2 / 2 % 2) (b / 2 / 2 % 2) * 4
        + min (a / 2 % 2) (b / 2 % 2) * 2
        + min (a % 2) (b % 2)
bit_and_four a b = omega (
  arith,
  bit_and_step a b,
  bit_and_step (a / 2) (b / 2),
  bit_and_step (a / 2 / 2) (b / 2 / 2),
  bit_and_step (a / 2 / 2 / 2) (b / 2 / 2 / 2),
)

pub bit_or_four :
    (a b : ℕ)
    → bit_or a b
      ≡ bit_or (above a) (above b) * 16
        + max (a / 2 / 2 / 2 % 2) (b / 2 / 2 / 2 % 2) * 8
        + max (a / 2 / 2 % 2) (b / 2 / 2 % 2) * 4
        + max (a / 2 % 2) (b / 2 % 2) * 2
        + max (a % 2) (b % 2)
bit_or_four a b = omega (
  arith,
  bit_or_step a b,
  bit_or_step (a / 2) (b / 2),
  bit_or_step (a / 2 / 2) (b / 2 / 2),
  bit_or_step (a / 2 / 2 / 2) (b / 2 / 2 / 2),
)
