-- ===== src/Host/Mutex.antt =====
-- sandbox/src/trap.c: the state of _syscall_mtx, which is not recursive (PTHREAD_MUTEX_NORMAL).
use vmpl_apps.Base.{List, [], ◌∷◌, ◌≡◌}
use vmpl_apps.Host.{Machine, Call, M, lock, unlock}
use vmpl_apps.Host.Stays.{Stays}

-- `broken` is behind a lock of the mutex by the thread that holds it, which waits for ever, and
-- behind an unlock by one that does not hold it, which is undefined.
pub data Mutex : Type 0 where
  free held broken : Mutex

unfoldable pub locked : Mutex → Mutex
locked Mutex.free = Mutex.held
locked _ = Mutex.broken

unfoldable pub unlocked : Mutex → Mutex
unlocked Mutex.held = Mutex.free
unlocked _ = Mutex.broken

-- Behind the calls of a log.
unfoldable pub mutex : List Call → Mutex
unfolding locked unlocked
mutex [] = Mutex.free
mutex (lock ∷ log) = locked (mutex log)
mutex (unlock ∷ log) = unlocked (mutex log)
mutex (_ ∷ log) = mutex log

abbrev pub IsAt : Mutex → Machine → Type 0
IsAt v s = mutex s.log ≡ v

-- The code leaves the mutex as it is.
unfoldable pub Lockless {ℓ} : {A : Type ℓ} → M A → Type 0
unfolding Stays
Lockless m = (v : Mutex) → Stays (IsAt v) m
