-- ===== src/Wedge/Httpd/Rights.antt =====
-- What the compartment of a connection may do.
use Prim.Native.Nat.{bit_and-bitwise}
use vmpl_apps.Base.{
  ℕ, true, ◌≤◌, ◌≢◌, All, ◌+◌, ◌*◌, ◌/◌, ◌%◌, ◌≡◌, ◌<◌, ◌^◌, refl, some, false, ◌||◌, List, [], ◌∷◌,
  bit_and, bit_or, ◌==◌, ◌!=◌, if◌then◌else◌, arith,
}
use vmpl_apps.Base.Bits.{one_shl, bit_and_step, bit_and-zero, bit_or_step, bit_or-zero}
use vmpl_apps.Sthread.{ok}
use vmpl_apps.Sthread.Perms.{
  Sc, sc_init, sc_fd_add, sc_sys_add, fd_entry, put_in_free, has_fd_perm, can_do_sys,
}
use vmpl_apps.Sthread.Perms.Fds.{has_fd_perm-sc_fd_add}
use vmpl_apps.Sthread.Perms.Syscalls.{get_or-zeros, can_do_sys-sc_sys_add}
use vmpl_apps.Sthread.Kernel.{World, Kernel, Sthread, ret, thread_at}
use vmpl_apps.Sthread.Handler.{Exit}
use vmpl_apps.Sthread.System.Launched.{sthread_create-IsLaunched}
use vmpl_apps.Wedge.Httpd.{connection_sc, handle_dude_sthread}

bit_or-shifted : (s : ℕ) → bit_or (s * 256) 3 ≡ s * 256 + 3
bit_or-shifted s = omega (
  arith,
  bit_or_step (s * 256) 3,
  bit_or_step (s * 256 / 2) 1,
  bit_or-zero (s * 256 / 2 / 2) (s * 256 / 2 / 2) (omega arith),
)

bit_and-shifted : (s : ℕ) → bit_and (s * 256 + 3) 15 ≡ 3
bit_and-shifted s =
    let v = s * 256 + 3 in
    omega (
      arith,
      bit_and_step v 15,
      bit_and_step (v / 2) 7,
      bit_and_step (v / 2 / 2) 3,
      bit_and_step (v / 2 / 2 / 2) 1,
      bit_and-zero (v / 2 / 2 / 2 / 2) (v / 2 / 2 / 2 / 2) (omega arith),
    )

fd_entry_lem : (s : ℕ) → s < 2 ^ 23 → fd_entry s 3 ≡ s * 256 + 3
unfolding fd_entry
fd_entry_lem s lt = ground (arith, bit_or-shifted s)

-- Behind sc_fd_add.
abbrev with_socket : ℕ → Sc → Sc
with_socket s sc = record (sc_init sc) { sc_fd = (s * 256 + 3) ∷ 0 ∷ 0 ∷ 0 ∷ 0 ∷ 0 ∷ 0 ∷ 0 ∷ [] }

sc_fd_add-socket :
    (s : ℕ) (sc : Sc) → s < 2 ^ 23 → sc_fd_add s 3 (sc_init sc) ≡ ok (with_socket s sc)
unfolding sc_fd_add sc_init put_in_free
sc_fd_add-socket s sc lt = rw (fd_entry_lem s lt, bit_and-shifted s) (ground arith)

-- Before any call is granted.
can_do_sys-socket :
    (s n : ℕ) (sc : Sc) → n < 128 → can_do_sys (with_socket s sc) n ≡ ok (n == 0 || n == 1)
unfolding can_do_sys sc_init
can_do_sys-socket s n sc lt =
    let none_yet : List ℕ = (sc_init sc).sc_sys in
    ground (
      arith,
      get_or-zeros none_yet (n / 8) 0 (ground arith) (ground arith),
      bit_and-bitwise 0 (one_shl (n % 8)),
    )

abbrev with_calls : ℕ → ℕ → Sc → Sc
with_calls calls s sc = record (with_socket s sc) {
  sc_sys = calls ∷ 0 ∷ 0 ∷ 0 ∷ 0 ∷ 0 ∷ 0 ∷ 0 ∷ 0 ∷ 0 ∷ 0 ∷ 0 ∷ 0 ∷ 0 ∷ 0 ∷ 0 ∷ [];
}

sc_sys_add-open : (s : ℕ) (sc : Sc) → sc_sys_add 2 (with_socket s sc) ≡ ok (with_calls 4 s sc)
unfolding sc_sys_add sc_init
sc_sys_add-open s sc = refl

sc_sys_add-close : (s : ℕ) (sc : Sc) → sc_sys_add 3 (with_calls 4 s sc) ≡ ok (with_calls 12 s sc)
unfolding sc_sys_add sc_init
sc_sys_add-close s sc = refl

can_do_sys-connection :
    (s n : ℕ) (sc : Sc)
    → n < 128
    → can_do_sys (with_calls 12 s sc) n ≡ ok (n == 0 || n == 1 || n == 2 || n == 3)
unfolding sc_init
can_do_sys-connection s n sc lt = ground (
  arith,
  can_do_sys-sc_sys_add 3 n (with_calls 4 s sc) refl (sc_sys_add-close s sc),
  can_do_sys-sc_sys_add 2 n (with_socket s sc) refl (sc_sys_add-open s sc),
  can_do_sys-socket s n sc lt,
)

connection_sc-runs : (s : ℕ) (sc : Sc) → s < 2 ^ 23 → connection_sc s sc ≡ ok (with_calls 12 s sc)
unfolding connection_sc
connection_sc-runs s sc lt =
    rw (sc_fd_add-socket s sc lt, sc_sys_add-open s sc) (sc_sys_add-close s sc)

-- A read, write, open or close (0 to 3), a descriptor to read and write, and no tag. (666 is the exit.)
abbrev pub IsConnectionOnly : (s : ℕ) → Sc → Type 0
IsConnectionOnly s sc =
    ((fd perm : ℕ) → has_fd_perm sc fd perm ≡ (if s == fd then bit_and 3 perm != 0 else false))
    × ((n : ℕ) → n < 128 → can_do_sys sc n ≡ ok (n == 0 || n == 1 || n == 2 || n == 3))
    × ((n : ℕ) → 128 ≤ n → n ≢ 666 → can_do_sys sc n ≢ ok true)
    × All (λ tag. tag ≡ 0) sc.sc_mem

with_calls-IsConnectionOnly :
    (s : ℕ) (sc : Sc) → s < 2 ^ 23 → IsConnectionOnly s (with_calls 12 s sc)
unfolding sc_init has_fd_perm can_do_sys
with_calls-IsConnectionOnly s sc lt = (
  (has_fd_perm-sc_fd_add s 3 (sc_init sc) (omega arith) (ground arith)
      (sc_fd_add-socket s sc lt)).1,
  λ n small. can_do_sys-connection s n sc small,
  λ n large other e. ground arith,
  (refl, (refl, (refl, (refl, (refl, (refl, (refl, (refl, tt)))))))),
)

-- For a descriptor below 2^23: where handle_dude has launched a compartment for it, the current
-- compartment is that of the identifier that was returned; it has the rights to read and to write
-- on this descriptor and no right to any other; no tag was granted to it; and it may make no
-- system calls but 0 to 3 (read, write, open and close) and 666, its exit.
pub handle_dude_sthread-IsConnectionOnly :
    (w : World) (pthread s id : ℕ) (e : Exit) (sc : Sc) (k k' : Kernel)
    → s < 2 ^ 23
    → handle_dude_sthread w pthread s sc k ≡ ret (id, e) k'
    → (t : Sthread) × (thread_at k'.ks_current k'.ks_sthreads ≡ some t)
      × (t.st_id ≡ id)
      × IsConnectionOnly s t.st_sc
unfolding handle_dude_sthread
handle_dude_sthread-IsConnectionOnly w pthread s id e sc k k' lt runs =
    let (t, at, rights, _, named, _, _, _) =
      sthread_create-IsLaunched w (with_calls 12 s sc) pthread s id e k k'
        (rw (handle_dude_sthread, connection_sc-runs s sc lt) at runs) in
    (t, at, named, rw rights (with_calls-IsConnectionOnly s sc lt))
