-- ===== src/Sthread.antt =====
-- wedge/src/sthread.c: compartments in one process. Results, and the numbers of <sys/mman.h> and
-- sthread.h that its parts share. An `int` is the 32-bit pattern of its value.
pub mod Perms
pub mod Tags
pub mod Pages
pub mod Checkpoint
pub mod Kernel
pub mod Handler
pub mod Master
pub mod System
pub mod Samples
mod Tests
mod Runs
mod Reuse
use vmpl_apps.Base.{ℕ, ◌+◌, ◌-◌, ◌*◌, ◌/◌, ◌^◌, Bool, ltb, if◌then◌else◌}

-- A call returns, or the process ends (errx, a failed assert, abort), or C does not say what
-- happens.
pub data Result {ℓ} (A : Type ℓ) : Type ℓ where
  ok : A → Result A
  stopped undefined : Result A

abbrev pub pure {ℓ} : {A : Type ℓ} → A → Result A
pure a = ok a

infixl 5 ◌>>=◌
abbrev pub ◌>>=◌ {ℓ κ} : {A : Type ℓ} {B : Type κ} → Result A → (A → Result B) → Result B
ok a >>= f = f a
stopped >>= f = stopped
undefined >>= f = undefined

abbrev pub prot_read : ℕ
prot_read = 1

abbrev pub prot_write : ℕ
prot_write = 2

abbrev pub stack_size : ℕ
stack_size = 4096 * 10

abbrev pub tag_size : ℕ
tag_size = 4096 * 10

-- An `int` that becomes an `unsigned long`, and `>> 8` of an `int`.
abbrev pub is_negative : ℕ → Bool
is_negative n = ltb (2 ^ 31 - 1) n

abbrev pub sign_ext : ℕ → ℕ
sign_ext n = if is_negative n then n + (2 ^ 64 - 2 ^ 32) else n

abbrev pub shift_right_8 : ℕ → ℕ
shift_right_8 n = if is_negative n then n / 256 + (2 ^ 32 - 2 ^ 24) else n / 256
