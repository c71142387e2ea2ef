-- ===== src/Trap/Thread/Handshake/Ranks.antt =====
-- Every step of the handshake brings one of its threads further, so that it has an end.
use vmpl_apps.Base.{ℕ, ◌+◌, ◌≤◌, ◌<◌, ◌≡◌, refl, ap, Bool, ◌==◌, if◌then◌else◌, arith}
use vmpl_apps.Trap.Thread.Handshake.{Parent, Child, Holder, Threads, wake, Step}

-- How far each thread has come.
abbrev pub parent_rank : Parent → ℕ
parent_rank Parent.to_lock = 0
parent_rank Parent.to_test = 1
parent_rank Parent.waiting = 2
parent_rank Parent.woken = 3
parent_rank Parent.to_unlock = 4
parent_rank Parent.to_destroy_mtx = 5
parent_rank Parent.to_destroy_cnd = 6
parent_rank Parent.to_read = 7
parent_rank (Parent.returned tid) = 8

abbrev pub child_rank : Child → ℕ
child_rank Child.locks = 0
child_rank Child.stores = 1
child_rank Child.unlocks = 2
child_rank Child.signals = 3
child_rank Child.entering = 4
child_rank Child.undefined = 5

abbrev pub holder_rank : Holder → ℕ
holder_rank Holder.nobody = 0
holder_rank Holder.parent = 1
holder_rank Holder.child = 2

unfoldable pub rank : Threads → ℕ
rank s = parent_rank s.parent_at + child_rank s.child_at

parent_rank_bound : (p : Parent) → parent_rank p ≤ 8
parent_rank_bound (Parent.returned tid) = omega arith
parent_rank_bound p = omega arith

pub child_rank_bound : (c : Child) → child_rank c ≤ 5
child_rank_bound Child.locks = omega arith
child_rank_bound c = omega arith

pub rank_bound : (s : Threads) → rank s ≤ 13
unfolding rank
rank_bound s = omega (arith, parent_rank_bound s.parent_at, child_rank_bound s.child_at)

pub parent_rank-wake :
    (p : Parent) → parent_rank (wake p) ≡ (if parent_rank p == 2 then 3 else parent_rank p)
parent_rank-wake Parent.waiting = refl
parent_rank-wake p = refl

pub Step-rank :
    {spurious : Bool} {tid : ℕ} {s t : Threads} → Step spurious tid s t → rank s < rank t
unfolding rank
Step-rank (Step.parent_locks p h) = omega (arith, ap parent_rank p)
Step-rank (Step.parent_waits p z) = omega (arith, ap parent_rank p)
Step-rank (Step.parent_goes_on p z) = omega (arith, ap parent_rank p)
Step-rank (Step.parent_wakes o p) = omega (arith, ap parent_rank p)
Step-rank (Step.parent_relocks p h) = omega (arith, ap parent_rank p)
Step-rank (Step.parent_unlocks p) = omega (arith, ap parent_rank p)
Step-rank (Step.parent_destroys_mtx p) = omega (arith, ap parent_rank p)
Step-rank (Step.parent_destroys_cnd p) = omega (arith, ap parent_rank p)
Step-rank (Step.parent_returns p) = omega (arith, ap parent_rank p)
Step-rank (Step.child_locks c l h) = omega (arith, ap child_rank c)
Step-rank (Step.child_locks_destroyed c l) = omega (arith, ap child_rank c)
Step-rank (Step.child_stores c) = omega (arith, ap child_rank c)
Step-rank (Step.child_unlocks c l) = omega (arith, ap child_rank c)
Step-rank (Step.child_unlocks_destroyed c l) = omega (arith, ap child_rank c)
Step-rank {s = s} (Step.child_signals c l) =
    ground (arith, ap child_rank c, parent_rank-wake s.parent_at)
Step-rank (Step.child_signals_destroyed c l) = omega (arith, ap child_rank c)
