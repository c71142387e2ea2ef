-- ===== src/Trap/Race/Safe.antt =====
-- Where all calls are under the mutex.
use vmpl_apps.Base.{
  ℕ, suc, ◌+◌, ◌≤◌, ◌<◌, ◌^◌, ◌≡◌, ◌≢◌, refl, Bool, Bool-cases, inl, inr, true, false, List, [],
  ◌∷◌, ◌==◌, All, arith,
}
use vmpl_apps.Host.{Platform, IsPlatform, Machine}
use vmpl_apps.Umm.{umm_space_left, umm_get_map_pos}
use vmpl_apps.Umm.Alloc.{place_lem}
use vmpl_apps.Umm.Layout.{IsLaidOut}
use vmpl_apps.Trap.Race.{
  Pc, Shared, Move, Calls, set_pc, Reach, start, later, owner_behind, place, grown,
}

abbrev busy : Pc → ℕ
busy Pc.idle = 0
busy _ = 1

-- Each range ends at or before the one that was given before it.
abbrev pub IsApart : List (ℕ × ℕ) → Type 0
IsApart [] = Unit
IsApart ((addr, len) ∷ l) = All (λ g. addr + len ≤ g.0) l × IsApart l

module _ (pl : Platform) (ok : IsPlatform pl) where
  Fits : Shared → Pc → Type 0
  Fits sh Pc.idle = Unit
  Fits sh (Pc.entered own len) = own ≡ true
  Fits sh (Pc.chosen own addr len) =
      (own ≡ true) × (umm_space_left sh.lengths len ≡ true) × (addr ≡ place pl sh.lengths len)
  Fits sh (Pc.mapped own addr len) =
      (own ≡ true)
      × (umm_space_left sh.lengths len ≡ true)
      × (addr ≡ place pl sh.lengths len)
      × (len < 2 ^ 47)

  -- A thread that is in a call holds the mutex.
  Own : (i : ℕ) → Shared → Pc → Type 0
  Own i sh p = (busy p ≡ 1 → sh.owner ≡ suc i) × Fits sh p

  -- The lengths, and what was given.
  abbrev Global : Shared → Type 0
  Global sh =
      IsLaidOut sh.lengths
      × All (λ g. umm_get_map_pos pl sh.lengths ≤ g.0) sh.given
      × IsApart sh.given

  Move-Own :
      {i : ℕ} {sh sh' : Shared} {p p' : Pc}
      → Move pl false i sh p sh' p'
      → Own i sh p
      → Own i sh' p'
  unfolding Own Fits
  Move-Own (Move.locks len e) o = (λ b. refl, refl)
  Move-Own (Move.enters len e) o = absurd (ground arith)
  Move-Own (Move.refuses e) o = (λ b. absurd (omega arith), tt)
  Move-Own (Move.chooses e) o = (λ b. o.0 refl, (o.1, e, refl))
  Move-Own Move.fails o = (λ b. absurd (omega arith), tt)
  Move-Own (Move.maps lt) o = (λ b. o.0 refl, (o.1.0, o.1.1, o.1.2, lt))
  Move-Own Move.gives o = (λ b. absurd (omega arith), tt)

  resting : (j : ℕ) (sh : Shared) (q : Pc) → busy q ≡ 0 → Own j sh q
  unfolding Own Fits
  resting j sh Pc.idle e = (λ b. absurd (omega arith), tt)
  resting j sh q e = absurd (omega arith)

  unowned : (j : ℕ) (sh : Shared) (q : Pc) → Own j sh q → sh.owner ≢ suc j → busy q ≡ 0
  unfolding Own
  unowned j sh Pc.idle o n = refl
  unowned j sh q o n = absurd (n (o.0 refl))

  Move-others :
      {i : ℕ} {sh sh' : Shared} {p p' : Pc} (j : ℕ) (q : Pc)
      → j ≢ i
      → Move pl false i sh p sh' p'
      → Own i sh p
      → Own j sh q
      → Own j sh' q
  unfolding Own
  Move-others {sh = sh} j q n (Move.locks len e) o o' =
      resting j _ q (unowned j sh q o' (omega arith))
  Move-others j q n (Move.enters len e) o o' = absurd (ground arith)
  Move-others {sh = sh} j q n (Move.refuses e) o o' =
      resting j _ q (unowned j sh q o' (omega (arith, o.0 refl)))
  Move-others j q n (Move.chooses e) o o' = o'
  Move-others {sh = sh} j q n Move.fails o o' =
      resting j _ q (unowned j sh q o' (omega (arith, o.0 refl)))
  Move-others j q n (Move.maps lt) o o' = o'
  Move-others {sh = sh} j q n Move.gives o o' =
      resting j _ q (unowned j sh q o' (omega (arith, o.0 refl)))

  below : (a b : ℕ) (l : List (ℕ × ℕ)) → b ≤ a → All (λ g. a ≤ g.0) l → All (λ g. b ≤ g.0) l
  below a b [] le h = tt
  below a b (g ∷ l) le h = (omega (arith, h.0), below a b l le h.1)

  gives-Global :
      (sh : Shared) (own : Bool) (addr len : ℕ)
      → Fits sh (Pc.mapped own addr len)
      → Global sh
      → Global (record sh {
        owner = owner_behind own sh.owner;
        lengths = grown pl sh.lengths len;
        given = (addr, len) ∷ sh.given;
      })
  unfolding Fits
  gives-Global sh own addr len (_, e, at, lt) (v, above, apart) =
      let (v', moved, under) = place_lem pl ok sh.lengths len v e lt in
      let pos = umm_get_map_pos pl sh.lengths in
      (
        v',
        (omega (arith, moved, at), below pos _ sh.given (omega (arith, moved, under)) above),
        (below pos (addr + len) sh.given (omega (arith, at, under)) above, apart),
      )

  Move-Global :
      {i : ℕ} {sh sh' : Shared} {p p' : Pc}
      → Move pl false i sh p sh' p'
      → Own i sh p
      → Global sh
      → Global sh'
  unfolding Own
  Move-Global (Move.locks len e) o g = g
  Move-Global (Move.enters len e) o g = g
  Move-Global (Move.refuses e) o g = g
  Move-Global (Move.chooses e) o g = g
  Move-Global Move.fails o g = g
  Move-Global (Move.maps lt) o g = g
  Move-Global {sh = sh} (Move.gives {own} {addr} {len}) o g = gives-Global sh own addr len o.1 g

  Inv : Calls → Type 0
  Inv s = ((j : ℕ) → Own j s.shared (s.pc j)) × Global s.shared

  set_pc-Own :
      (s : Calls) (sh : Shared) (p : Pc) (i : ℕ)
      → Move pl false i s.shared (s.pc i) sh p
      → ((j : ℕ) → Own j s.shared (s.pc j))
      → (j : ℕ) → Own j sh (set_pc i p s.pc j)
  unfolding set_pc
  set_pc-Own s sh p i move own j = elim (Bool-cases (j == i)) [
    | inl e ↦ let same : j ≡ i = ground arith in rw (e, same) (Move-Own move (own i))
    | inr e ↦ rw e (Move-others j (s.pc j) (ground arith) move (own i) (own j))
  ]

  Reach-Inv : {m : Machine} {s : Calls} → IsLaidOut m → Reach pl false m s → Inv s
  unfolding Inv
  Reach-Inv v start = ((λ j. resting j _ Pc.idle refl), (v, tt, tt))
  Reach-Inv v (later {s} {sh} {p} r i move) =
      let (own, g) = Reach-Inv v r in (set_pc-Own s sh p i move own, Move-Global move (own i) g)

  -- With a lawful platform and areas that are laid out well, of threads that call mmap without
  -- an address, and none of which calls mremap, shmat or brk: whatever the threads do and in
  -- whatever order, each range that was handed out ends at or before every range that was
  -- handed out before it.
  pub given-IsApart :
      {m : Machine} {s : Calls} → IsLaidOut m → Reach pl false m s → IsApart s.shared.given
  unfolding Inv
  given-IsApart v r = (Reach-Inv v r).1.2
