-- ===== src/Trap/Thread/Handshake/Runs.antt =====
-- The witnesses of the theorems on the handshake.
use vmpl_apps.Base.{◌≡◌, true, false, arith}
use vmpl_apps.Trap.Thread.Handshake.{Threads, Child, Reach, Returns}
use vmpl_apps.Trap.Thread.Handshake.Broken.{dune_pthread_create_breaks}

dune_pthread_create_breaks_example :
    ((s : Threads) × Reach false 7 s × Returns 7 s × (s.child_at ≡ Child.undefined))
    × ((s : Threads) × Reach true 7 s × Returns 0 s × (s.child_at ≡ Child.undefined))
dune_pthread_create_breaks_example = dune_pthread_create_breaks 7 (omega arith)
