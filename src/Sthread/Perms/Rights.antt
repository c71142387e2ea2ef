-- ===== src/Sthread/Perms/Rights.antt =====
-- The rights that a row of calls of sc_sys_add and sc_fd_add asks for, without the arrays.
pub mod Refined
mod Tests
use vmpl_apps.Base.{
  ℕ, ◌/◌, ◌%◌, ◌^◌, ◌<◌, ◌≡◌, ◌≢◌, refl, ap, sym, ◌∙◌, Bool, true, false, ◌||◌, Option, none, some,
  List, [], ◌∷◌, length, bit_and, get_or, ◌==◌, ◌!=◌, if◌then◌else◌, All, inl, inr, arith,
}
use Prim.Native.Nat.{bit_and-bitwise}
use vmpl_apps.Base.Bits.{one_shl}
use vmpl_apps.Sthread.{Result, ok, stopped, undefined, pure, ◌>>=◌}
use vmpl_apps.Sthread.Perms.{
  Sc, sizeof_sc_sys, sc_init, put_in_free, fd_entry, sc_fd_add, sc_sys_add, has_fd_perm,
  has_fd_perm_from, can_do_sys,
}
use vmpl_apps.Sthread.Perms.Fds.{
  zero-bit_and, IsFds, lists, placed, no_room, sc_fd_add-lem, has_fd_perm-sc_fd_add,
}
use vmpl_apps.Sthread.Perms.Syscalls.{
  get_or-zeros, sc_sys_add-cases, length-set, can_do_sys-sc_sys_add,
}

-- What a caller asks for.
pub data Grant : Type 0 where
  on_fd : (fd prot : ℕ) → Grant
  on_sys : (sysno : ℕ) → Grant

grant : Grant → Sc → Result Sc
grant (on_fd fd prot) sc = sc_fd_add fd prot sc
grant (on_sys sysno) sc = sc_sys_add sysno sc

-- The calls in their order.
pub grant_all : List Grant → Sc → Result Sc
unfolding grant
grant_all [] sc = pure sc
grant_all (g ∷ gs) sc = do sc' ← grant g sc; grant_all gs sc'

-- A function for each array: the `prot` of a descriptor, and whether a system call may be made.
pub record Rights : Type 0 where
  pub prot_of : ℕ → Option ℕ
  pub calls : ℕ → Bool

abbrev pub no_rights : Rights
no_rights = record { prot_of = λ fd. none; calls = λ n. n == 666 || n == 0 || n == 1 }

abbrev or_else : Option ℕ → Option ℕ → Option ℕ
or_else none o = o
or_else (some p) o = some p

-- The first grant of a descriptor stands.
pub allow : Grant → Rights → Rights
allow (on_fd fd prot) r = record r {
  prot_of = λ f. or_else (r.prot_of f) (if fd == f then some prot else none);
}
allow (on_sys sysno) r = record r { calls = λ n. n == sysno || r.calls n }

pub allow_all : List Grant → Rights → Rights
unfolding allow
allow_all [] r = r
allow_all (g ∷ gs) r = allow_all gs (allow g r)

-- Some right, and one that an `int` holds.
abbrev pub IsGrant : Grant → Type 0
IsGrant (on_fd fd prot) = (0 < prot) × (prot < 2 ^ 31)
IsGrant (on_sys sysno) = Unit

abbrev pub has_right : Option ℕ → (perm : ℕ) → Bool
has_right none perm = false
has_right (some prot) perm = bit_and prot perm != 0

abbrev pub is_some : Option ℕ → Bool
is_some none = false
is_some (some p) = true

-- The arrays of a compartment hold these rights.
pub record Refines (r : Rights) (sc : Sc) : Type 0 where
  pub fds : IsFds sc.sc_fd
  pub listed : (fd : ℕ) → lists sc.sc_fd fd ≡ is_some (r.prot_of fd)
  pub fd_lem : (fd perm : ℕ) → has_fd_perm sc fd perm ≡ has_right (r.prot_of fd) perm
  pub sys_len : length sc.sc_sys ≡ sizeof_sc_sys
  pub sys_lem : (n : ℕ) → n < 128 → can_do_sys sc n ≡ ok (r.calls n)
