-- ===== src/Sthread/Perms/Rights/Tests.antt =====
-- A row of calls in which the second for a descriptor changes nothing.
use vmpl_apps.Base.{◌≡◌, refl, [], ◌∷◌, List, All, arith}
use vmpl_apps.Sthread.{ok}
use vmpl_apps.Sthread.Perms.{Sc, sc_init, put_in_free, fd_entry, sc_fd_add, sc_sys_add}
use vmpl_apps.Sthread.Perms.Rights.{
  Grant, on_fd, on_sys, grant, grant_all, IsGrant, no_rights, allow_all, Refines,
}
use vmpl_apps.Sthread.Perms.Rights.Refined.{grant_all-Refines}

abbrev grants : List Grant
grants = on_fd 5 3 ∷ on_sys 2 ∷ on_fd 5 1 ∷ on_sys 60 ∷ []

abbrev garbage : Sc
garbage = record { sc_mem = []; sc_fd = []; sc_sys = [] }

abbrev granted : (sc : Sc) × (grant_all grants (sc_init garbage) ≡ ok sc)
unfolding grant_all grant sc_init sc_fd_add fd_entry put_in_free sc_sys_add
granted = (_, refl)

grants-IsGrant : All IsGrant grants
grants-IsGrant = omega arith

grant_all-Refines_example : Refines (allow_all grants no_rights) granted.0
grant_all-Refines_example = grant_all-Refines grants garbage granted.0 grants-IsGrant granted.1
