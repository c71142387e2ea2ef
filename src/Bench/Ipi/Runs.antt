-- ===== src/Bench/Ipi/Runs.antt =====
-- The witnesses of the theorems on the interrupts.
use vmpl_apps.Base.{◌+◌, ◌≡◌, refl, inr, true, false}
use vmpl_apps.Base.Steps.{Eventually}
use vmpl_apps.Bench.Ipi.{Sender, Ipi, initial, Step, PostedIpi, Reach, start, later}
use vmpl_apps.Bench.Ipi.Counts.{in_flight, no_ipi_lost}
use vmpl_apps.Bench.Ipi.Ends.{IsEnded, ipi-IsEnded}

-- Of three interrupts the first has been sent and is in its handler.
abbrev sent_one : (s : Ipi) × Reach false false 3 s
sent_one = (
  _,
  later
      (later
        (later
          (later (later (later start (Step.begins refl)) (Step.registers refl))
            (Step.tells_ready refl refl))
          (Step.sees_ready refl refl))
        (Step.sends 2 refl refl))
      (Step.interrupts refl refl (inr refl)),
)

no_ipi_lost_example :
    (sent_one.0.handled + sent_one.0.left + in_flight sent_one.0 ≡ 3)
    × (sent_one.0.sender ≡ Sender.tests → in_flight sent_one.0 ≡ 0)
no_ipi_lost_example = no_ipi_lost sent_one.1

ipi-IsEnded_example : Eventually (PostedIpi false) (IsEnded 3) (initial 3)
ipi-IsEnded_example = ipi-IsEnded 3

-- The receiver is in its loop.
abbrev idle : (s : Ipi) × Reach true true 3 s
idle = (_, later (later start (Step.registers refl)) (Step.tells_ready refl refl))
