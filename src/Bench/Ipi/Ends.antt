-- ===== src/Bench/Ipi/Ends.antt =====
-- How the benchmark ends where memory is shared.
use vmpl_apps.Base.{
  ℕ, zero, suc, ◌+◌, ◌*◌, ◌≤◌, ◌<◌, ◌≡◌, ◌⊎◌, refl, ap, inl, inr, Bool, true, false, if◌then◌else◌,
  arith,
}
use vmpl_apps.Base.Steps.{Eventually, eventually}
use vmpl_apps.Bench.Ipi.{Sender, Receiver, Handler, Ipi, initial, Step, PostedIpi}
use vmpl_apps.Bench.Ipi.Counts.{
  sender_rank, receiver_rank, handler_rank, Inv, Step-Inv, initial-Inv,
}

-- What is left of a round, of the start and end of the receiver, and of an interrupt.
sender_left : Sender → ℕ
sender_left Sender.enters = 3
sender_left Sender.awaits = 2
sender_left Sender.tests = 1
sender_left Sender.spins = 3
sender_left Sender.resets = 2
sender_left Sender.ended = 0

receiver_left : Receiver → ℕ
receiver_left Receiver.enters = 3
receiver_left Receiver.readies = 2
receiver_left Receiver.idles = 1
receiver_left Receiver.ended = 0

handler_left : Handler → ℕ
handler_left Handler.outside = 0
handler_left Handler.to_eoi = 2
handler_left Handler.to_clear = 1

abbrev measure : Ipi → ℕ
measure s =
    6 * s.left
    + sender_left s.sender
    + receiver_left s.receiver
    + handler_left s.handler
    + (if s.pending then 3 else 0)

lowers : {n : ℕ} {s t : Ipi} → Step false false s t → Inv n s → measure t < measure s
unfolding sender_left receiver_left handler_left
lowers (Step.begins p) i = ground (arith, ap sender_left p)
lowers (Step.sender_fails f p) i = absurd (ground arith)
lowers (Step.receiver_fails f p) i = absurd (ground arith)
lowers (Step.sees_ready p r) i = ground (arith, ap sender_left p)
lowers (Step.sends k p l) i = ground (arith, ap sender_left p, ap sender_rank p, i.spinning)
lowers (Step.sees_clear p w) i = ground (arith, ap sender_left p)
lowers (Step.sets_wait p) i = ground (arith, ap sender_left p)
lowers (Step.finishes p l) i = ground (arith, ap sender_left p)
lowers (Step.registers p) i = ground (arith, ap receiver_left p)
lowers (Step.tells_ready p h) i = ground (arith, ap receiver_left p)
lowers (Step.leaves p h d) i = ground (arith, ap receiver_left p)
lowers (Step.interrupts b h r) i = ground (arith, ap handler_left h)
lowers (Step.sends_eoi h) i = ground (arith, ap handler_left h)
lowers (Step.clears h) i = ground (arith, ap handler_left h)

-- Both have ended, and each interrupt was handled.
abbrev pub IsEnded : (n : ℕ) → Ipi → Type 0
IsEnded n s = (s.sender ≡ Sender.ended) × (s.receiver ≡ Receiver.ended) × (s.handled ≡ n)

abbrev Moves : Ipi → Type 0
Moves s = (t : Ipi) × Step false false s t

tests-Moves : (s : Ipi) (left : ℕ) → s.left ≡ left → s.sender ≡ Sender.tests → Moves s
tests-Moves s zero l p = (_, Step.finishes p l)
tests-Moves s (suc k) l p = (_, Step.sends k p l)

ends :
    (n : ℕ) (s : Ipi) (r : Receiver)
    → Inv n s
    → s.receiver ≡ r
    → s.sender ≡ Sender.ended
    → s.handler ≡ Handler.outside
    → s.pending ≡ false
    → 2 ≤ receiver_rank r
    → IsEnded n s ⊎ Moves s
ends n s Receiver.idles i e p h b le = inr (_, Step.leaves e h (ground (arith, ap sender_rank p)))
ends n s Receiver.ended i e p h b le =
    inl (p, e, ground (arith, ap sender_rank p, ap handler_rank h))
ends n s r i e p h b le = absurd (omega arith)

quiet :
    (n : ℕ) (s : Ipi) (p : Sender)
    → Inv n s
    → s.sender ≡ p
    → s.handler ≡ Handler.outside
    → s.pending ≡ false
    → 2 ≤ receiver_rank s.receiver
    → IsEnded n s ⊎ Moves s
quiet n s Sender.enters i p h b le = inr (_, Step.begins p)
quiet n s Sender.awaits i p h b le = inr (_, Step.sees_ready p (ground arith))
quiet n s Sender.tests i p h b le = inr (tests-Moves s s.left refl p)
quiet n s Sender.spins i p h b le =
    inr (_, Step.sees_clear p (ground (arith, ap sender_rank p, ap handler_rank h)))
quiet n s Sender.resets i p h b le = inr (_, Step.sets_wait p)
quiet n s Sender.ended i p h b le = ends n s s.receiver i refl p h b le

receives :
    (n : ℕ) (s : Ipi) (r : Receiver) (b : Bool)
    → Inv n s
    → s.receiver ≡ r
    → s.pending ≡ b
    → s.handler ≡ Handler.outside
    → IsEnded n s ⊎ Moves s
receives n s Receiver.enters b i e p h = inr (_, Step.registers e)
receives n s Receiver.readies b i e p h = inr (_, Step.tells_ready e h)
receives n s Receiver.idles true i e p h = inr (_, Step.interrupts p h (inr e))
receives n s Receiver.ended true i e p h = absurd (ground (arith, ap receiver_rank e))
receives n s r false i e p h = quiet n s s.sender i refl h p (ground (arith, ap receiver_rank e))

goes_on : (n : ℕ) (s : Ipi) (h : Handler) → s.handler ≡ h → Inv n s → IsEnded n s ⊎ Moves s
goes_on n s Handler.outside h i = receives n s s.receiver s.pending i refl refl h
goes_on n s Handler.to_eoi h i = inr (_, Step.sends_eoi h)
goes_on n s Handler.to_clear h i = inr (_, Step.clears h)

-- Where dune_enter does not fail, for any number of interrupts and whatever the order of the
-- steps of sender, receiver and handler: both threads come to end, and by then each interrupt was
-- handled.
pub ipi-IsEnded : (n : ℕ) → Eventually (PostedIpi false) (IsEnded n) (initial n)
unfolding sender_left receiver_left handler_left
ipi-IsEnded n =
    eventually (PostedIpi false) (IsEnded n) (Inv n) measure (λ s t. Step-Inv) (λ s t. lowers)
      (λ s i. goes_on n s s.handler refl i) (6 * n + 7) (initial n) (omega arith) (initial-Inv n)
