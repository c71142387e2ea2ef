-- ===== src/Sthread/Master/Twice.antt =====
-- A compartment that is joined again.
use vmpl_apps.Base.{
  ℕ, ◌≡◌, refl, false, Option, none, some, List, [], ◌∷◌, ◌==◌, Bool-cases, inl, inr, arith,
}
use vmpl_apps.Sthread.Kernel.{
  World, Kernel, Sthread, dead, Outcome, ret, stop, undef, thread_at, put_thread,
}
use vmpl_apps.Sthread.Handler.{Exit, next_running, schedule, run_next}
use vmpl_apps.Sthread.Master.{joined, waits, find_id, is_zombie, join_found, sthread_join}

find_id-st_id : (st : ℕ) (l : List Sthread) {s : Sthread} → find_id st l ≡ some s → s.st_id ≡ st
unfolding find_id
find_id-st_id st [] e = ground arith
find_id-st_id st (t ∷ next) {s = s} e = elim (Bool-cases (t.st_id == st)) [
  | inl c ↦ let same : t.st_id ≡ s.st_id = ground (arith, rw c at e) in ground arith
  | inr c ↦ find_id-st_id st next (rw c at e)
]

-- The dead compartment is found in the place of the old one.
find_id-put_thread :
    (st : ℕ) (l : List Sthread) (s s' : Sthread)
    → find_id st l ≡ some s
    → thread_at s.self l ≡ some s
    → s'.self ≡ s.self
    → s'.st_id ≡ st
    → find_id st (put_thread s' l) ≡ some s'
unfolding find_id thread_at put_thread
find_id-put_thread st [] s s' e a same id = ground arith
find_id-put_thread st (t ∷ next) s s' e a same id = elim (Bool-cases (t.self == s'.self)) [
  | inl c ↦ rw c (rw id (ground arith))
  | inr c ↦ elim (Bool-cases (t.st_id == st)) [
    | inl d ↦
        let here : t.self ≡ s.self = ground (arith, rw d at e) in
        absurd (ground (arith, here, same))
    | inr d ↦
        let elsewhere : (t.self == s.self) ≡ false = rw same at c in
        rw (c, d) (find_id-put_thread st next s s' (rw d at e) (rw elsewhere at a) same id)
  ]
]

module _ (w : World) where
  -- What a join that succeeds has done.
  Done : (o : Option Sthread) (k k' : Kernel) → Type 0
  Done o k k' =
      (s : Sthread) × (o ≡ some s)
      × (k' ≡ record k { ks_sthreads = put_thread (record s { st_state = dead }) k.ks_sthreads })

  not_joined :
      (o : Outcome Exit) (v : ℕ) (k' : Kernel)
      → ¬ (
          elim o [ ret e k ↦ ret (waits e) k | stop k ↦ stop k | undef k ↦ undef k ]
          ≡ ret (joined v) k')
  not_joined (ret e k) v k' r = ground arith
  not_joined (stop k) v k' r = ground arith
  not_joined (undef k) v k' r = ground arith

  join_found-Done :
      (o : Option Sthread) (v : ℕ) (k k' : Kernel)
      → join_found w o k ≡ ret (joined v) k'
      → Done o k k'
  unfolding join_found Done
  join_found-Done none v k k' e = ground arith
  join_found-Done (some s) v k k' e = elim (Bool-cases (is_zombie s.st_state)) [
    | inl c ↦ (s, refl, ground (arith, rw c at e))
    | inr c ↦ absurd (not_joined (schedule w false k) v k' (rw c at e))
  ]

  waits-stop :
      (o : Outcome Exit) (k' : Kernel)
      → o ≡ stop k'
      → elim o [ ret e k ↦ ret (waits e) k | stop k ↦ stop k | undef k ↦ undef k ] ≡ stop k'
  waits-stop o k' e = rw e refl

  schedule-stop :
      (k : Kernel) → next_running k.ks_current k.ks_sthreads ≡ none → schedule w false k ≡ stop k
  unfolding schedule run_next
  schedule-stop k idle = rw idle refl

  -- After a sthread_join that has given the result of a compartment, where no two compartments
  -- lie at the address of the one that was joined and no other compartment is running: a second
  -- sthread_join of it ends the process.
  pub sthread_join_twice :
      (st v : ℕ) (k k' : Kernel)
      → sthread_join w st k ≡ ret (joined v) k'
      → ((s : Sthread)
          → find_id st k.ks_sthreads ≡ some s
          → thread_at s.self k.ks_sthreads ≡ some s)
      → next_running k'.ks_current k'.ks_sthreads ≡ none
      → sthread_join w st k' ≡ stop k'
  unfolding sthread_join join_found Done
  sthread_join_twice st v k k' e at idle =
      let (s, found, left) = join_found-Done (find_id st k.ks_sthreads) v k k' e in
      let s' = record s { st_state = dead } in
      let again : find_id st k'.ks_sthreads ≡ some s' = rw left (
        find_id-put_thread st k.ks_sthreads s s' found (at s found) refl
          (find_id-st_id st k.ks_sthreads found)) in
      rw again (waits-stop (schedule w false k') k' (schedule-stop k' idle))
