-- ===== src/Trap/Thread/Handshake/Ends.antt =====
-- How the handshake ends where no wakeup is spurious.
use vmpl_apps.Base.{ℕ, ◌≤◌, ◌<◌, ◌≡◌, ◌≢◌, ◌⊎◌, false, ◌||◌, ltb, ◌==◌, if◌then◌else◌}
use vmpl_apps.Trap.Thread.Handshake.{Parent, Threads, Step}
use vmpl_apps.Trap.Thread.Handshake.Ranks.{parent_rank, child_rank, holder_rank}

-- The thread identifier that is returned.
IsOwn : (tid : ℕ) → Parent → Type 0
IsOwn tid (Parent.returned r) = r ≡ tid
IsOwn tid _ = Unit

-- What holds while no wakeup is spurious: who holds the mutex, what `ta_tid` is, what is destroyed,
-- and which positions go together.
record Inv (tid : ℕ) (s : Threads) : Type 0 where
  stored : s.ta_tid ≡ (if ltb (child_rank s.child_at) 2 then 0 else tid)
  held : holder_rank s.holder ≡ (
      if parent_rank s.parent_at == 1 || parent_rank s.parent_at == 4
      then 1
      else if child_rank s.child_at == 1 || child_rank s.child_at == 2
      then 2
      else 0)
  mtx : s.mtx_live ≡ ltb (parent_rank s.parent_at) 6
  cnd : s.cnd_live ≡ ltb (parent_rank s.parent_at) 7
  early : child_rank s.child_at < 3 → parent_rank s.parent_at ≤ 2
  alone : child_rank s.child_at ≡ 1 ⊎ child_rank s.child_at ≡ 2 → parent_rank s.parent_at ≢ 1
  after_wake : parent_rank s.parent_at ≡ 3 → child_rank s.child_at ≡ 4
  signalled : child_rank s.child_at ≡ 4 → parent_rank s.parent_at ≢ 2
  late : child_rank s.child_at ≡ 5 → 7 ≤ parent_rank s.parent_at
  own : IsOwn tid s.parent_at

-- Some thread can go on.
abbrev Moves : (tid : ℕ) → Threads → Type 0
Moves tid s = (t : Threads) × Step false tid s t
