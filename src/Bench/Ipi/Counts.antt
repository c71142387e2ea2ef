-- ===== src/Bench/Ipi/Counts.antt =====
-- Where memory is shared: no interrupt is lost.
use vmpl_apps.Base.{ℕ, ◌+◌, ◌≤◌, ◌<◌, ◌≡◌, ap, true, false, ltb, ◌==◌, if◌then◌else◌, arith}
use vmpl_apps.Bench.Ipi.{Sender, Receiver, Handler, Ipi, initial, Step, Reach, start, later}

abbrev pub sender_rank : Sender → ℕ
sender_rank Sender.enters = 0
sender_rank Sender.awaits = 0
sender_rank Sender.tests = 1
sender_rank Sender.spins = 2
sender_rank Sender.resets = 3
sender_rank Sender.ended = 4

abbrev pub receiver_rank : Receiver → ℕ
receiver_rank Receiver.enters = 0
receiver_rank Receiver.readies = 1
receiver_rank Receiver.idles = 2
receiver_rank Receiver.ended = 3

abbrev pub handler_rank : Handler → ℕ
handler_rank Handler.outside = 0
handler_rank Handler.to_eoi = 1
handler_rank Handler.to_clear = 2

-- An interrupt that was sent and has not been handled.
abbrev pub in_flight : Ipi → ℕ
in_flight s = if s.pending then 1 else if handler_rank s.handler == 0 then 0 else 1

pub record Inv (n : ℕ) (s : Ipi) : Type 0 where
  pub ready : s.t2_ready ≡ ltb 1 (receiver_rank s.receiver)
  pub done_lem : s.done ≡ ltb 3 (sender_rank s.sender)
  pub counted : s.handled + s.left + in_flight s ≡ n
  pub one : s.pending ≡ true → handler_rank s.handler ≡ 0
  pub spinning : 0 < in_flight s → sender_rank s.sender ≡ 2
  pub waiting : s.wait ≡ (
      if sender_rank s.sender == 2
      then ltb 0 (in_flight s)
      else if sender_rank s.sender == 3
      then false
      else true)
  pub behind : 0 < sender_rank s.sender → 2 ≤ receiver_rank s.receiver
  pub last : 3 ≤ receiver_rank s.receiver → sender_rank s.sender ≡ 4
  pub none_left : sender_rank s.sender ≡ 4 → s.left ≡ 0

pub Step-Inv : {n : ℕ} {s t : Ipi} → Step false false s t → Inv n s → Inv n t
Step-Inv (Step.begins p) i = ground (arith, ap sender_rank p)
Step-Inv (Step.sender_fails f p) i = absurd (ground arith)
Step-Inv (Step.receiver_fails f p) i = absurd (ground arith)
Step-Inv (Step.sees_ready p r) i = ground (arith, ap sender_rank p)
Step-Inv (Step.sends k p l) i = ground (arith, ap sender_rank p)
Step-Inv (Step.sees_clear p w) i = ground (arith, ap sender_rank p)
Step-Inv (Step.sets_wait p) i = ground (arith, ap sender_rank p)
Step-Inv (Step.finishes p l) i = ground (arith, ap sender_rank p)
Step-Inv (Step.registers p) i = ground (arith, ap receiver_rank p)
Step-Inv (Step.tells_ready p h) i = ground (arith, ap receiver_rank p, ap handler_rank h)
Step-Inv (Step.leaves p h d) i = ground (arith, ap receiver_rank p, ap handler_rank h)
Step-Inv (Step.interrupts b h r) i = ground (arith, ap handler_rank h)
Step-Inv (Step.sends_eoi h) i = ground (arith, ap handler_rank h)
Step-Inv (Step.clears h) i = ground (arith, ap handler_rank h)

pub initial-Inv : (n : ℕ) → Inv n (initial n)
initial-Inv n = ground arith

Reach-Inv : {n : ℕ} {s : Ipi} → Reach false false n s → Inv n s
Reach-Inv {n = n} start = initial-Inv n
Reach-Inv (later r st) = Step-Inv st (Reach-Inv r)

idle-Inv : {n : ℕ} (s : Ipi) → Inv n s → s.sender ≡ Sender.tests → in_flight s ≡ 0
idle-Inv s i p = grind (arith, ap sender_rank p)

-- At any point of a run with shared memory in which dune_enter does not fail: the interrupts that
-- were handled, the one under way if there is one and those left to send are all of them, and
-- where the sender is about to send none is under way.
pub no_ipi_lost :
    {n : ℕ} {s : Ipi}
    → Reach false false n s
    → (s.handled + s.left + in_flight s ≡ n) × (s.sender ≡ Sender.tests → in_flight s ≡ 0)
no_ipi_lost {s = s} r = let i = Reach-Inv r in (i.counted, idle-Inv s i)
