-- ===== src/Sthread/Perms.antt =====
-- wedge/src/sthread.c: what a compartment may do (sc_init, sc_mem_add, sc_fd_add, sc_sys_add) and
-- the tests of it (has_fd_perm, can_do_sys).
pub mod Fds
pub mod Syscalls
pub mod Rights
use vmpl_apps.Base.{
  ℕ, zero, suc, ◌+◌, ◌-◌, ◌*◌, ◌/◌, ◌%◌, ◌^◌, Bool, true, false, ◌||◌, Option, none, some, List, [],
  ◌∷◌, bit_and, bit_or, ltb, leb, ◌==◌, ◌!=◌, if◌then◌else◌, get_or, set,
}
use vmpl_apps.Base.Bits.{one_shl}
use vmpl_apps.Base.Words.{low32}
use vmpl_apps.Sthread.{Result, ok, stopped, undefined, is_negative, sign_ext, shift_right_8}

-- `sc_t`.
pub record Sc : Type 0 where
  pub sc_mem : List ℕ
  pub sc_fd : List ℕ
  pub sc_sys : List ℕ

abbrev pub sizeof_sc_sys : ℕ
sizeof_sc_sys = 16

-- memset to 0.
unfoldable pub sc_init : Sc → Sc
sc_init sc = record sc {
  sc_mem = 0 ∷ 0 ∷ 0 ∷ 0 ∷ 0 ∷ 0 ∷ 0 ∷ 0 ∷ [];
  sc_fd = 0 ∷ 0 ∷ 0 ∷ 0 ∷ 0 ∷ 0 ∷ 0 ∷ 0 ∷ [];
  sc_sys = 0 ∷ 0 ∷ 0 ∷ 0 ∷ 0 ∷ 0 ∷ 0 ∷ 0 ∷ 0 ∷ 0 ∷ 0 ∷ 0 ∷ 0 ∷ 0 ∷ 0 ∷ 0 ∷ [];
}

-- `v` in the first entry that is 0. A scan that leaves the array ends the process, wherever it
-- finds a 0.
unfoldable pub put_in_free : (v : ℕ) → List ℕ → Option (List ℕ)
put_in_free v [] = none
put_in_free v (e ∷ l) =
    let rest = put_in_free v l in
    if e != 0 then elim rest [ none ↦ none | some l' ↦ some (e ∷ l') ] else some (v ∷ l)

-- `(fd << 8) | prot`. A shift out of an `int` is undefined.
unfoldable pub fd_entry : (fd prot : ℕ) → ℕ
fd_entry fd prot = sign_ext (bit_or (fd * 256) prot)

unfoldable pub sc_fd_add : (fd prot : ℕ) → Sc → Result Sc
unfolding fd_entry put_in_free
sc_fd_add fd prot sc =
    let v = fd_entry fd prot in
    elim (put_in_free v sc.sc_fd) [
      | none ↦ stopped
      | some l ↦
          if leb (2 ^ 23) fd
          then undefined
          else if v / 256 == sign_ext fd
          then if bit_and v 15 == sign_ext prot then ok (record sc { sc_fd = l }) else stopped
          else stopped
    ]

-- The bound of sc_sys_add and of can_do_sys lets the position behind the array through. That access,
-- and a shift by a negative number, is undefined.
unfoldable pub sc_sys_add : (sysno : ℕ) → Sc → Result Sc
sc_sys_add sysno sc =
    let pos = sysno / 8 in
    let bit = one_shl (sysno % 8) in
    if is_negative sysno
    then if ltb (2 ^ 32 - 8) sysno then undefined else stopped
    else if ltb sizeof_sc_sys pos
    then stopped
    else if pos == sizeof_sc_sys
    then undefined
    else ok (record sc { sc_sys = set sc.sc_sys pos (bit_or (get_or sc.sc_sys pos 0) bit % 256) })

unfoldable pub has_fd_perm_from : (sc_fd : List ℕ) (fd perm : ℕ) → Bool
has_fd_perm_from [] fd perm = false
has_fd_perm_from (e ∷ l) fd perm =
    let rest = has_fd_perm_from l fd perm in
    let f = low32 e in
    if f == 0
    then false
    else if shift_right_8 f == fd
    then if bit_and (bit_and f 15) perm != 0 then true else false
    else rest

unfoldable pub has_fd_perm : Sc → (fd perm : ℕ) → Bool
unfolding has_fd_perm_from
has_fd_perm sc fd perm = has_fd_perm_from sc.sc_fd fd perm

-- SYS_read and SYS_write are 0 and 1.
unfoldable pub can_do_sys : Sc → (sysno : ℕ) → Result Bool
can_do_sys sc sysno =
    let pos = sysno / 8 in
    let bit = one_shl (sysno % 8) in
    if sysno == 666 || sysno == 0 || sysno == 1
    then ok true
    else if is_negative sysno
    then if ltb (2 ^ 32 - 8) sysno then undefined else stopped
    else if ltb sizeof_sc_sys pos
    then stopped
    else if pos == sizeof_sc_sys
    then undefined
    else ok (bit_and (get_or sc.sc_sys pos 0) bit != 0)
