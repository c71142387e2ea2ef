-- ===== src/Sthread/Handler/Starves.antt =====
-- Which compartment is run next.
use vmpl_apps.Base.{
  ℕ, ◌≡◌, ◌≢◌, ◌⊎◌, inl, inr, refl, true, Bool, some, List, ◌∷◌, ◌!=◌, Bool-cases, ap, arith,
}
use vmpl_apps.Sthread.Kernel.{World, Kernel, Sthread, running, ret, passthrough, put_thread}
use vmpl_apps.Sthread.Handler.{
  Exit, jump, is_running, next_running, run_thread, run_next, schedule, passthrough_syscall,
}

next_running-first :
    (current : ℕ) (a b : Sthread) (l : List Sthread)
    → a.self ≢ b.self
    → a.st_state ≡ running
    → b.st_state ≡ running
    → (next_running current (a ∷ b ∷ l) ≡ some a) ⊎ (next_running current (a ∷ b ∷ l) ≡ some b)
unfolding next_running
next_running-first current a b l apart ra rb = elim (Bool-cases (a.self != current)) [
  | inl e ↦ inl (rw (e, ap is_running ra) refl)
  | inr e ↦
      let other : (b.self != current) ≡ true = ground arith in
      inr (rw (e, other, ap is_running rb) refl)
]

module _ (w : World) where
  -- The frame of `s` behind its system call, and the state in which it runs.
  abbrev resumed : Kernel → Sthread → Sthread
  resumed k s = record s { st_tf = record s.st_tf { rax = w.passthrough_rax k.log s.st_tf } }

  abbrev ran : Kernel → Sthread → Kernel
  ran k s = record k {
    ks_current = s.self;
    cr3 = s.st_pgroot;
    log = passthrough s.st_sc s.st_tf ∷ k.log;
    ks_sthreads = put_thread (resumed k s) k.ks_sthreads;
  }

  schedule-runs :
      (tf : Bool) (k : Kernel) (s : Sthread)
      → next_running k.ks_current k.ks_sthreads ≡ some s
      → schedule w tf k ≡ ret (jump (resumed k s).st_tf) (ran k s)
  unfolding schedule run_next run_thread passthrough_syscall
  schedule-runs tf k s e = rw e refl

  put_thread-first :
      (a : Sthread) (l : List Sthread) (k : Kernel)
      → put_thread (resumed k a) (a ∷ l) ≡ resumed k a ∷ l
  unfolding put_thread
  put_thread-first a l k = ground arith

  put_thread-second :
      (a b : Sthread) (l : List Sthread) (k : Kernel)
      → a.self ≢ b.self
      → put_thread (resumed k b) (a ∷ b ∷ l) ≡ a ∷ resumed k b ∷ l
  unfolding put_thread
  put_thread-second a b l k apart = ground arith

  -- Two compartments at the front of the list, at their addresses.
  abbrev pub HasFront : (first second : ℕ) → List Sthread → Kernel → Type 0
  HasFront first second l k =
      (a : Sthread) × (b : Sthread) × (k.ks_sthreads ≡ a ∷ b ∷ l)
      × (a.self ≡ first)
      × (b.self ≡ second)
      × (a.st_state ≡ running)
      × (b.st_state ≡ running)

  -- With two running compartments at the front of the list, at different addresses: schedule
  -- runs one of these two, whichever compartment is current, and leaves both running at the
  -- front and the rest of the list as it is, so that the same holds again.
  pub schedule_starves :
      (tf : Bool) (first second : ℕ) (l : List Sthread) (k : Kernel)
      → first ≢ second
      → HasFront first second l k
      → (e : Exit) × (k' : Kernel) × (schedule w tf k ≡ ret e k')
        × HasFront first second l k'
        × ((k'.ks_current ≡ first) ⊎ (k'.ks_current ≡ second))
  schedule_starves tf first second l k apart (a, b, at, sa, sb, ra, rb) =
      let distinct : a.self ≢ b.self = ground arith in
      elim (next_running-first k.ks_current a b l distinct ra rb) [
        | inl e ↦ (
          jump (resumed k a).st_tf,
          ran k a,
          schedule-runs tf k a (rw at e),
          (resumed k a, b, rw at (put_thread-first a (b ∷ l) k), sa, sb, ra, rb),
          inl sa,
        )
        | inr e ↦ (
          jump (resumed k b).st_tf,
          ran k b,
          schedule-runs tf k b (rw at e),
          (a, resumed k b, rw at (put_thread-second a b l k distinct), sa, sb, ra, rb),
          inr sb,
        )
      ]
