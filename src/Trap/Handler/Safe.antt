-- ===== src/Trap/Handler/Safe.antt =====
-- What the system call handler keeps.
use vmpl_apps.Base.{◌≡◌, true, none, some, All}
use vmpl_apps.Host.{Platform, IsPlatform, Host, Machine}
use vmpl_apps.Mem.{Memory}
use vmpl_apps.Umm.Layout.{IsKernel}
use vmpl_apps.Umm.Confined.{IsGood}
use vmpl_apps.Trap.Frame.{Tf}
use vmpl_apps.Trap.Sys.{Sys}
use vmpl_apps.Trap.Check.Sound.{IsFrame, operands, IsHarmless}
use vmpl_apps.Trap.Handler.{Monitor}

-- A monitor that does not change the frame of a call that it lets through.
abbrev pub IsTransparent : Monitor → Type 0
IsTransparent none = Unit
IsTransparent (some m) = (tf : Tf) → (m tf).0 ≡ true → (m tf).1 ≡ tf

module _ (pl : Platform) (ok : IsPlatform pl) (h : Host) (k : IsKernel h) (tf : Tf) (w : IsFrame tf)
    (s : Machine) (g : IsGood pl s) where
  -- The store of ARCH_GET_FS goes where the check allowed it.
  abbrev IsChecked : Memory → Sys → Type 0
  IsChecked mem c = All (IsHarmless pl mem) (operands mem c tf)
