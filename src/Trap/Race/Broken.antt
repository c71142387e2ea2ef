-- ===== src/Trap/Race/Broken.antt =====
-- Where one of two calls is not under the mutex.
use vmpl_apps.Base.{ℕ, ◌<◌, ◌^◌, ◌≡◌, refl, true, [], ◌∷◌}
use vmpl_apps.Host.{Platform, Machine}
use vmpl_apps.Umm.{umm_space_left}
use vmpl_apps.Trap.Race.{Move, Calls, set_pc, Reach, start, later, place}

-- On any platform, for a length below 2^47 for which there is space, and where one thread calls
-- mmap and another mremap: there is a run in which both get the same place.
pub mremap_races :
    (pl : Platform) (m : Machine) (len : ℕ)
    → umm_space_left m len ≡ true
    → len < 2 ^ 47
    → (s : Calls) × Reach pl true m s
      × (s.shared.given ≡ (place pl m len, len) ∷ (place pl m len, len) ∷ [])
unfolding set_pc
mremap_races pl m len e lt =
    let both_chosen =
      later
        (later (later (later start 0 (Move.locks len refl)) 0 (Move.chooses e)) 1
          (Move.enters len refl))
        1 (Move.chooses e) in
    let moved = later (later both_chosen 1 (Move.maps lt)) 1 Move.gives in
    (_, later (later moved 0 (Move.maps lt)) 0 Move.gives, refl)
