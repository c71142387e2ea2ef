-- ===== src/Bench/Ipi/Forked.antt =====
-- Where the sender and the receiver are two processes.
use vmpl_apps.Base.{◌⊎◌, ◌≡◌, false}
use vmpl_apps.Bench.Ipi.{Ipi}
use vmpl_apps.Bench.Ipi.Counts.{sender_rank, handler_rank}

-- Nothing has been sent, and neither flag has come through.
record Stuck (s : Ipi) : Type 0 where
  sender_lem : (sender_rank s.sender ≡ 0) ⊎ (sender_rank s.sender ≡ 4)
  handler_lem : handler_rank s.handler ≡ 0
  pending_lem : s.pending ≡ false
  ready_lem : s.t2_ready ≡ false
  done_lem : s.done ≡ false
  handled_lem : s.handled ≡ 0
