-- ===== src/Sthread/Perms/Syscalls.antt =====
-- The system calls that a compartment may make.
use vmpl_apps.Base.{
  ℕ, zero, suc, ◌/◌, ◌%◌, ◌<◌, ◌≡◌, true, List, [], ◌∷◌, arith, bit_and, bit_or, ◌==◌, ◌!=◌,
  if◌then◌else◌, get_or, set, length, All,
}
use vmpl_apps.Base.Bits.{one_shl, bit_test-set}
use vmpl_apps.Sthread.{ok}
use vmpl_apps.Sthread.Perms.{Sc, sizeof_sc_sys, sc_sys_add, can_do_sys}

get_or-set :
    (l : List ℕ) (i j v d : ℕ)
    → i < length l
    → get_or (set l i v) j d ≡ (if i == j then v else get_or l j d)
get_or-set [] i j v d h = absurd (omega arith)
get_or-set (x ∷ l) zero zero v d h = ground arith
get_or-set (x ∷ l) zero (suc j) v d h = ground arith
get_or-set (x ∷ l) (suc i) zero v d h = ground arith
get_or-set (x ∷ l) (suc i) (suc j) v d h = ground (arith, get_or-set l i j v d)

pub get_or-zeros : (l : List ℕ) (i d : ℕ) → All (λ e. e ≡ 0) l → i < length l → get_or l i d ≡ 0
get_or-zeros [] i d z lt = absurd (omega arith)
get_or-zeros (x ∷ l) zero d z lt = z.0
get_or-zeros (x ∷ l) (suc i) d z lt = get_or-zeros l i d z.1 (omega arith)

pub length-set : (l : List ℕ) (i v : ℕ) → length (set l i v) ≡ length l
length-set [] i v = ground arith
length-set (x ∷ l) zero v = ground arith
length-set (x ∷ l) (suc i) v = ground (arith, length-set l i v)

-- What a call that returns has written.
pub sc_sys_add-cases :
    (n : ℕ) (sc : Sc) {sc' : Sc}
    → sc_sys_add n sc ≡ ok sc'
    → (n / 8 < sizeof_sc_sys)
      × (sc' ≡ record sc {
        sc_sys =
            set sc.sc_sys (n / 8) (bit_or (get_or sc.sc_sys (n / 8) 0) (one_shl (n % 8)) % 256);
      })
unfolding sc_sys_add
sc_sys_add-cases n sc e = ground arith

abbrev byte_at : Sc → ℕ → ℕ
byte_at sc pos = get_or sc.sc_sys pos 0

byte_at-sc_sys_add :
    (n pos : ℕ) (sc : Sc) {sc' : Sc}
    → length sc.sc_sys ≡ sizeof_sc_sys
    → pos < sizeof_sc_sys
    → sc_sys_add n sc ≡ ok sc'
    → byte_at sc' pos
      ≡ (if n / 8 == pos then bit_or (byte_at sc pos) (one_shl (n % 8)) % 256 else byte_at sc pos)
byte_at-sc_sys_add n pos sc len p e =
    let (lt, at) = sc_sys_add-cases n sc e in
    let new = bit_or (byte_at sc (n / 8)) (one_shl (n % 8)) % 256 in
    rw at (ground (arith, get_or-set sc.sc_sys (n / 8) pos new 0))

-- The same of one bit.
bit_at-sc_sys_add :
    (n m : ℕ) (sc : Sc) {sc' : Sc}
    → length sc.sc_sys ≡ sizeof_sc_sys
    → m / 8 < sizeof_sc_sys
    → sc_sys_add n sc ≡ ok sc'
    → (bit_and (byte_at sc' (m / 8)) (one_shl (m % 8)) != 0)
      ≡ (if m == n then true else bit_and (byte_at sc (m / 8)) (one_shl (m % 8)) != 0)
bit_at-sc_sys_add n m sc len p e =
    rw (byte_at-sc_sys_add n (m / 8) sc len p e)
      (ground (arith, bit_test-set (m % 8) (n % 8) (byte_at sc (m / 8)) (omega arith)))

sc_sys_add-bound : (n : ℕ) (sc : Sc) {sc' : Sc} → sc_sys_add n sc ≡ ok sc' → n < 128
unfolding sc_sys_add
sc_sys_add-bound n sc e = ground arith

-- With an array of 16 bytes: after a call of sc_sys_add that returns, can_do_sys allows the
-- system call that was added, and answers every other as before.
pub can_do_sys-sc_sys_add :
    (n m : ℕ) (sc : Sc) {sc' : Sc}
    → length sc.sc_sys ≡ sizeof_sc_sys
    → sc_sys_add n sc ≡ ok sc'
    → can_do_sys sc' m ≡ (if m == n then ok true else can_do_sys sc m)
unfolding can_do_sys
can_do_sys-sc_sys_add n m sc {sc' = sc'} len e =
    ground (arith, sc_sys_add-bound n sc e, bit_at-sc_sys_add n m sc {sc' = sc'} len)
