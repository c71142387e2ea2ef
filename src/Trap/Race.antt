-- ===== src/Trap/Race.antt =====
-- Threads that are in system calls at the same time: syscall_do of sandbox/src/trap.c takes _syscall_mtx
-- for mmap, and not for mremap and shmat; umm_mmap, umm_mremap and umm_shmat of sandbox/src/umm.c choose
-- a place from the static lengths, ask the kernel to map it, and then add to mmap_len.
pub mod Safe
pub mod Broken
mod Runs
use vmpl_apps.Base.{
  ℕ, zero, suc, ◌+◌, ◌<◌, ◌^◌, ◌≡◌, Bool, true, false, List, [], ◌∷◌, ◌==◌, if◌then◌else◌,
}
use vmpl_apps.Base.Words.{◌+w◌, ◌-w◌}
use vmpl_apps.Host.{Platform, Machine}
use vmpl_apps.Umm.{round_up, umm_space_left, umm_get_map_pos}

-- Where a thread is in a call without an address: `own` is whether it holds the mutex.
pub data Pc : Type 0 where
  idle : Pc
  entered : (own : Bool) (len : ℕ) → Pc
  chosen mapped : (own : Bool) (addr len : ℕ) → Pc

-- The owner of the mutex is 0, or one more than the number of a thread. `given` is what the calls have
-- handed out, newest first, by address and length.
pub record Shared : Type 0 where
  pub owner : ℕ
  pub lengths : Machine
  pub given : List (ℕ × ℕ)

-- The mutex at the end of a call.
abbrev pub owner_behind : (own : Bool) → ℕ → ℕ
owner_behind own owner = if own then 0 else owner

pub record Calls : Type 0 where
  pub shared : Shared
  pub pc : ℕ → Pc

pub set_pc : (i : ℕ) → Pc → (ℕ → Pc) → ℕ → Pc
set_pc i p pc j = if j == i then p else pc j

abbrev pub all_idle : Machine → Calls
all_idle m = record { shared = record { owner = 0; lengths = m; given = [] }; pc = λ i. Pc.idle }

module _ (pl : Platform) where
  abbrev pub place : Machine → (len : ℕ) → ℕ
  place m len = umm_get_map_pos pl m -w round_up pl len

  -- `mmap_len += round_up(len)`.
  abbrev pub grown : Machine → (len : ℕ) → Machine
  grown m len = record m { mmap_len = m.mmap_len +w round_up pl len }

  -- What thread `i` does next. `mremaps` is whether there are calls of mremap and shmat. The kernel maps
  -- nothing longer than the address space.
  pub data Move (mremaps : Bool) (i : ℕ) (sh : Shared) : Pc → Shared → Pc → Type 0 where
    locks :
        (len : ℕ)
        → sh.owner ≡ 0
        → Move mremaps i sh Pc.idle (record sh { owner = suc i }) (Pc.entered Bool.true len)
    enters : (len : ℕ) → mremaps ≡ true → Move mremaps i sh Pc.idle sh (Pc.entered Bool.false len)
    refuses :
        {own : Bool} {len : ℕ}
        → umm_space_left sh.lengths len ≡ false
        → Move mremaps i sh
            (Pc.entered own len)
            (record sh { owner = owner_behind own sh.owner })
            Pc.idle
    chooses :
        {own : Bool} {len : ℕ}
        → umm_space_left sh.lengths len ≡ true
        → Move mremaps i sh (Pc.entered own len) sh (Pc.chosen own (place sh.lengths len) len)
    fails :
        {own : Bool} {addr len : ℕ}
        → Move mremaps i sh
            (Pc.chosen own addr len)
            (record sh { owner = owner_behind own sh.owner })
            Pc.idle
    maps :
        {own : Bool} {addr len : ℕ}
        → len < 2 ^ 47
        → Move mremaps i sh (Pc.chosen own addr len) sh (Pc.mapped own addr len)
    gives :
        {own : Bool} {addr len : ℕ}
        → Move mremaps i sh
            (Pc.mapped own addr len)
            (record sh {
              owner = owner_behind own sh.owner;
              lengths = grown sh.lengths len;
              given = (addr, len) ∷ sh.given;
            })
            Pc.idle

  pub data Reach (mremaps : Bool) (m : Machine) : Calls → Type 0 where
    start : Reach mremaps m (all_idle m)
    later :
        {s : Calls} {sh : Shared} {p : Pc}
        → Reach mremaps m s
        → (i : ℕ) → Move mremaps i s.shared (s.pc i) sh p
        → Reach mremaps m (record { shared = sh; pc = set_pc i p s.pc })
