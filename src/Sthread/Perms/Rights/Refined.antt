-- ===== src/Sthread/Perms/Rights/Refined.antt =====
-- The arrays hold the rights that were asked for.
use vmpl_apps.Base.{
  ℕ, ◌/◌, ◌%◌, ◌<◌, ◌≡◌, ◌≢◌, refl, ap, sym, ◌∙◌, Bool, true, false, Option, none, some, List, [],
  ◌∷◌, length, bit_and, get_or, ◌==◌, ◌!=◌, if◌then◌else◌, All, inl, inr, arith,
}
use Prim.Native.Nat.{bit_and-bitwise}
use vmpl_apps.Base.Bits.{one_shl}
use vmpl_apps.Sthread.{Result, ok, stopped, undefined, ◌>>=◌}
use vmpl_apps.Sthread.Perms.{
  Sc, sc_init, put_in_free, fd_entry, sc_fd_add, sc_sys_add, has_fd_perm, has_fd_perm_from,
  can_do_sys,
}
use vmpl_apps.Sthread.Perms.Fds.{
  zero-bit_and, IsFds, lists, placed, no_room, sc_fd_add-lem, has_fd_perm-sc_fd_add,
}
use vmpl_apps.Sthread.Perms.Syscalls.{
  get_or-zeros, sc_sys_add-cases, length-set, can_do_sys-sc_sys_add,
}
use vmpl_apps.Sthread.Perms.Rights.{
  Grant, on_fd, on_sys, grant, grant_all, Rights, no_rights, or_else, allow, allow_all, IsGrant,
  has_right, is_some, Refines,
}

lists-zeros : (fd : ℕ) (l : List ℕ) → All (λ e. e ≡ 0) l → lists l fd ≡ false
lists-zeros fd [] z = refl
lists-zeros fd (x ∷ l) z = ground arith

lists-put :
    (v fd : ℕ) (l : List ℕ) {l' : List ℕ}
    → v ≢ 0
    → IsFds l
    → put_in_free v l ≡ some l'
    → lists l' fd ≡ (if lists l fd then true else v / 256 == fd)
lists-put v fd [] nz i e = absurd (no_room v e)
lists-put v fd (x ∷ l) nz i e = elim (placed v x l e) [
  | inl (z, at) ↦ rw (at, z) (ground (arith, lists-zeros fd l (i.1 z)))
  | inr (nz', (r, p, at)) ↦ rw at (ground (arith, lists-put v fd l nz i.2 p))
]

sc_fd_add-rest :
    (fd prot : ℕ) (sc : Sc) {sc' : Sc} → sc_fd_add fd prot sc ≡ ok sc' → sc'.sc_sys ≡ sc.sc_sys
unfolding sc_fd_add
sc_fd_add-rest fd prot sc e = ground arith

is_some-or_else :
    (o : Option ℕ) (b : Bool) (p : ℕ)
    → (if is_some o then true else b) ≡ is_some (or_else o (if b then some p else none))
is_some-or_else none b p = ground arith
is_some-or_else (some q) b p = refl

has_right-or_else :
    (o : Option ℕ) (b : Bool) (p perm : ℕ)
    → (if is_some o then has_right o perm else if b then bit_and p perm != 0 else false)
      ≡ has_right (or_else o (if b then some p else none)) perm
has_right-or_else none b p perm = ground arith
has_right-or_else (some q) b p perm = refl

in_use : (v prot : ℕ) → bit_and v 15 ≡ prot → 0 < prot → v ≢ 0
in_use v prot same pos z =
    let none : bit_and v 15 ≡ 0 = rw z (bit_and-bitwise 0 15) in omega (arith, none)

sc_fd_add-Refines :
    (fd prot : ℕ) (r : Rights) (sc : Sc) {sc' : Sc}
    → IsGrant (on_fd fd prot)
    → Refines r sc
    → sc_fd_add fd prot sc ≡ ok sc'
    → Refines (allow (on_fd fd prot) r) sc'
unfolding allow can_do_sys
sc_fd_add-Refines fd prot r sc w f e =
    let (put, same_fd, same_prot, small) = sc_fd_add-lem fd prot sc w.1 e in
    let (fds', rights) = has_fd_perm-sc_fd_add fd prot sc w.1 f.fds e in
    let same_sys = sc_fd_add-rest fd prot sc e in
    let v = fd_entry fd prot in
    record {
      fds = fds';
      listed = λ g.
          lists-put v g sc.sc_fd (in_use v prot same_prot w.0) f.fds put
          ∙ rw (f.listed g, same_fd) (is_some-or_else (r.prot_of g) (fd == g) prot);
      fd_lem = λ g perm.
          rights g perm
          ∙ rw (f.listed g, f.fd_lem g perm) (has_right-or_else (r.prot_of g) (fd == g) prot perm);
      sys_len = ap length same_sys ∙ f.sys_len;
      sys_lem = λ n lt. rw same_sys (f.sys_lem n lt);
    }

sc_sys_add-rest :
    (n : ℕ) (sc : Sc) {sc' : Sc}
    → sc_sys_add n sc ≡ ok sc'
    → (sc'.sc_fd ≡ sc.sc_fd) × (length sc'.sc_sys ≡ length sc.sc_sys)
sc_sys_add-rest n sc e = rw ((sc_sys_add-cases n sc e).1) (refl, length-set sc.sc_sys (n / 8) _)

sc_sys_add-Refines :
    (n : ℕ) (r : Rights) (sc : Sc) {sc' : Sc}
    → Refines r sc
    → sc_sys_add n sc ≡ ok sc'
    → Refines (allow (on_sys n) r) sc'
unfolding allow has_fd_perm
sc_sys_add-Refines n r sc f e =
    let (same_fd, same_len) = sc_sys_add-rest n sc e in
    record {
      fds = rw same_fd f.fds;
      listed = λ g. rw same_fd (f.listed g);
      fd_lem = λ g perm. rw same_fd (f.fd_lem g perm);
      sys_len = same_len ∙ f.sys_len;
      sys_lem =
          λ m lt. can_do_sys-sc_sys_add n m sc f.sys_len e ∙ rw (f.sys_lem m lt) (ground arith);
    }

none_granted : (sc : Sc) (n : ℕ) → n < 128 → can_do_sys (sc_init sc) n ≡ ok (no_rights.calls n)
unfolding sc_init can_do_sys
none_granted sc n lt =
    let bytes = (sc_init sc).sc_sys in
    let unset : get_or bytes (n / 8) 0 ≡ 0 =
      get_or-zeros bytes (n / 8) 0 (ground arith) (ground arith) in
    ground (arith, unset, zero-bit_and (one_shl (n % 8)))

sc_init-Refines : (sc : Sc) → Refines no_rights (sc_init sc)
unfolding sc_init has_fd_perm has_fd_perm_from
sc_init-Refines sc = record {
  fds = ground arith;
  listed = λ fd. refl;
  fd_lem = λ fd perm. refl;
  sys_len = refl;
  sys_lem = λ n lt. none_granted sc n lt;
}

grant-Refines :
    (g : Grant) (r : Rights) (sc : Sc) {sc' : Sc}
    → IsGrant g
    → Refines r sc
    → grant g sc ≡ ok sc'
    → Refines (allow g r) sc'
unfolding grant
grant-Refines (on_fd fd prot) r sc w f e = sc_fd_add-Refines fd prot r sc w f e
grant-Refines (on_sys n) r sc w f e = sc_sys_add-Refines n r sc f e

abbrev unwrap : Sc → Result Sc → Sc
unwrap d (ok sc) = sc
unwrap d _ = d

from-Refines :
    (gs : List Grant) (r : Rights) (sc sc' : Sc)
    → All IsGrant gs
    → Refines r sc
    → grant_all gs sc ≡ ok sc'
    → Refines (allow_all gs r) sc'
unfolding grant_all allow_all
from-Refines [] r sc sc' w f e = rw (sym (ap (unwrap sc) e)) f
from-Refines (g ∷ gs) r sc sc' w f e =
    behind (grant g sc) (λ sc1 at. grant-Refines g r sc w.0 f at)
      (λ sc1 f'. from-Refines gs (allow g r) sc1 sc' w.1 f') e
  where
    behind :
        (o : Result Sc)
        → ((sc1 : Sc) → o ≡ ok sc1 → Refines (allow g r) sc1)
        → ((sc1 : Sc)
            → Refines (allow g r) sc1
            → grant_all gs sc1 ≡ ok sc'
            → Refines (allow_all gs (allow g r)) sc')
        → (o >>= grant_all gs) ≡ ok sc'
        → Refines (allow_all gs (allow g r)) sc'
    behind (ok sc1) holds go e' = go sc1 (holds sc1 refl) e'
    behind stopped holds go e' = absurd cc
    behind undefined holds go e' = absurd cc

-- For a row of calls of sc_fd_add and sc_sys_add on a fresh sc_t that returns, where each
-- descriptor is asked for with some right that is not negative: has_fd_perm answers by the first
-- grant of the descriptor, and can_do_sys, for the calls below 128, by the calls that were added
-- and 0, 1 and 666.
pub grant_all-Refines :
    (gs : List Grant) (sc sc' : Sc)
    → All IsGrant gs
    → grant_all gs (sc_init sc) ≡ ok sc'
    → Refines (allow_all gs no_rights) sc'
grant_all-Refines gs sc sc' w = from-Refines gs no_rights (sc_init sc) sc' w (sc_init-Refines sc)
