-- ===== src/Umm/Keeps.antt =====
-- Code that may run at any point of a run: its calls are allowed (IsAllowed), and the areas
-- stay laid out well.
use vmpl_apps.Base.{Bool, if◌then◌else◌, arith}
use vmpl_apps.Host.{Platform, Host, Call, M, pure, exit, ◌>>=◌, ask, tell}
use vmpl_apps.Host.Stays.{
  Stays, ask-Stays, tell-Stays, pure-Stays, exit-Stays, if-Stays, bind-Stays, Logs,
}
use vmpl_apps.Umm.Confined.{IsAllowed, IsGood}

module _ (pl : Platform) where
  -- The code may run at any point of a good trace.
  unfoldable pub Keeps {ℓ} : {A : Type ℓ} → M A → Type 0
  unfolding Stays
  Keeps m = Stays (IsGood pl) m

  allowed-Logs : (c : Call) → IsAllowed pl c → Logs (IsGood pl) c
  allowed-Logs c allowed s g = (ground (arith, g.0), (allowed, g.1))

  pub ask-Keeps : (h : Host) (c : Call) → IsAllowed pl c → Keeps (ask h c)
  unfolding Keeps
  ask-Keeps h c allowed = ask-Stays (IsGood pl) h c (allowed-Logs c allowed)

  pub tell-Keeps : (h : Host) (c : Call) → IsAllowed pl c → Keeps (tell h c)
  unfolding Keeps
  tell-Keeps h c allowed = tell-Stays (IsGood pl) h c (allowed-Logs c allowed)

  pub pure-Keeps {ℓ} : {A : Type ℓ} (a : A) → Keeps (pure a)
  unfolding Keeps
  pure-Keeps = pure-Stays (IsGood pl)

  pub exit-Keeps {ℓ} : (A : Type ℓ) → Keeps (exit {A = A})
  unfolding Keeps
  exit-Keeps = exit-Stays (IsGood pl)

  pub if-Keeps {ℓ} :
      {A : Type ℓ} (b : Bool) (m n : M A) → Keeps m → Keeps n → Keeps (if b then m else n)
  unfolding Keeps
  if-Keeps = if-Stays (IsGood pl)

  pub bind-Keeps {ℓ κ} :
      {A : Type ℓ} {B : Type κ} (m : M A) (f : A → M B)
      → Keeps m
      → ((a : A) → Keeps (f a))
      → Keeps (m >>= f)
  unfolding Keeps
  bind-Keeps = bind-Stays (IsGood pl)
