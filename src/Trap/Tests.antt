-- ===== src/Trap/Tests.antt =====
-- Witnesses of the theorems about the system call handler.
use vmpl_apps.Base.{true, some}
use vmpl_apps.Trap.Handler.{Monitor}

abbrev permissive : Monitor
permissive = some (λ tf. (true, tf))
