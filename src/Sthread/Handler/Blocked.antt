-- ===== src/Sthread/Handler/Blocked.antt =====
-- The system calls that are refused.
use vmpl_apps.Base.{◌≡◌, ◌⊎◌, true, false}
use vmpl_apps.Base.Words.{low32}
use vmpl_apps.Sthread.{ok}
use vmpl_apps.Sthread.Perms.{Sc, can_do_sys, has_fd_perm}
use vmpl_apps.Sthread.Kernel.{Kernel, Regs, Sthread}

-- A read (call 0) without the right 1 to its descriptor, or a write (1) or close (3) without the
-- right 2.
abbrev pub LacksRight : Sc → Regs → Type 0
LacksRight sc tf =
    ((low32 tf.rax ≡ 0) × (has_fd_perm sc (low32 tf.rdi) 1 ≡ false))
    ⊎ ((low32 tf.rax ≡ 1) × (has_fd_perm sc (low32 tf.rdi) 2 ≡ false))
    ⊎ ((low32 tf.rax ≡ 3) × (has_fd_perm sc (low32 tf.rdi) 2 ≡ false))

-- The call is not granted, or it takes a descriptor to which the right is missing.
abbrev pub IsRefused : Sc → Regs → Type 0
IsRefused sc tf =
    (can_do_sys sc (low32 tf.rax) ≡ ok false)
    ⊎ ((can_do_sys sc (low32 tf.rax) ≡ ok true) × LacksRight sc tf)
