-- ===== src/Host/Stays.antt =====
-- What code keeps of the machine, whatever the kernel answers. The rules follow the monad.
use vmpl_apps.Base.{Bool, true, false, if◌then◌else◌, ◌∷◌}
use vmpl_apps.Host.{
  Host, Machine, Call, M, Outcome, ret, dead, pure, exit, ◌>>=◌, machine_of, ask, tell,
}

module _ (Inv : Machine → Type 0) where
  -- The code may run in any state with `Inv`, and leaves it.
  unfoldable pub Stays {ℓ} : {A : Type ℓ} → M A → Type 0
  Stays m = (s : Machine) → Inv s → Inv (machine_of (m s))

  -- A call that is no harm in the log.
  abbrev pub Logs : Call → Type 0
  Logs c = (s : Machine) → Inv s → Inv (record s { log = c ∷ s.log })

  pub ask-Stays : (h : Host) (c : Call) → Logs c → Stays (ask h c)
  unfolding Stays
  ask-Stays h c logs s i = logs s i

  pub tell-Stays : (h : Host) (c : Call) → Logs c → Stays (tell h c)
  unfolding Stays
  tell-Stays h c logs s i = logs s i

  pub pure-Stays {ℓ} : {A : Type ℓ} (a : A) → Stays (pure a)
  unfolding Stays
  pure-Stays a s i = i

  pub exit-Stays {ℓ} : (A : Type ℓ) → Stays (exit {A = A})
  unfolding Stays
  exit-Stays A s i = i

  pub if-Stays {ℓ} :
      {A : Type ℓ} (b : Bool) (m n : M A) → Stays m → Stays n → Stays (if b then m else n)
  if-Stays true m n k l = k
  if-Stays false m n k l = l

  outcome-Stays {ℓ κ} :
      {A : Type ℓ} {B : Type κ} (o : Outcome A) (f : A → M B)
      → Inv (machine_of o)
      → ((a : A) → Stays (f a))
      → Inv (machine_of (elim o [ ret a s ↦ f a s | dead s ↦ dead s ]))
  unfolding Stays
  outcome-Stays (ret a s) f i k = k a s i
  outcome-Stays (dead s) f i k = i

  pub bind-Stays {ℓ κ} :
      {A : Type ℓ} {B : Type κ} (m : M A) (f : A → M B)
      → Stays m
      → ((a : A) → Stays (f a))
      → Stays (m >>= f)
  unfolding Stays
  bind-Stays m f k l s i = outcome-Stays (m s) f (k s i) l
