-- ===== src/Trap/Race/Runs.antt =====
-- The witnesses of the theorems on threads.
use vmpl_apps.Base.{◌≡◌, refl, true, false, [], ◌∷◌, arith}
use vmpl_apps.Samples.{platform, platform-IsPlatform}
use vmpl_apps.Umm.{umm_space_left, round_up}
use vmpl_apps.Umm.Layout.{IsLaidOut}
use vmpl_apps.Host.{Machine}
use vmpl_apps.Trap.Race.{Move, Calls, set_pc, Reach, start, later, place}
use vmpl_apps.Trap.Race.Safe.{IsApart, given-IsApart}
use vmpl_apps.Trap.Race.Broken.{mremap_races}

abbrev empty : Machine
empty = record { brk_len = 0; mmap_len = 0; log = [] }

empty-IsLaidOut : IsLaidOut empty
empty-IsLaidOut = record { brk_pages = refl; mmap_pages = refl; fits = omega arith }

has_room : umm_space_left empty 8192 ≡ true
unfolding umm_space_left
has_room = refl

-- One call after the other, of two threads.
abbrev one_call : (s : Calls) × Reach platform false empty s
unfolding set_pc
one_call = (
  _,
  later
      (later (later (later start 0 (Move.locks 8192 refl)) 0 (Move.chooses has_room)) 0
        (Move.maps (omega arith)))
      0 Move.gives,
)

abbrev two_calls : (s : Calls) × Reach platform false empty s
unfolding set_pc umm_space_left round_up
two_calls = (
  _,
  later
      (later (later (later one_call.1 1 (Move.locks 4096 refl)) 1 (Move.chooses refl)) 1
        (Move.maps (omega arith)))
      1 Move.gives,
)

given-IsApart_example : IsApart two_calls.0.shared.given
given-IsApart_example = given-IsApart platform platform-IsPlatform empty-IsLaidOut two_calls.1

mremap_races_example :
    (s : Calls) × Reach platform true empty s
    × (s.shared.given ≡ (place platform empty 8192, 8192) ∷ (place platform empty 8192, 8192) ∷ [])
mremap_races_example = mremap_races platform empty 8192 has_room (omega arith)
