-- ===== src/Host/Replies.antt =====
-- Answers and results that are 64-bit words.
use vmpl_apps.Base.{ℕ, ◌<◌, ◌^◌, List}
use vmpl_apps.Host.{Host, Outcome, ret, dead, Call}

-- A call that returns gives a word.
abbrev pub IsWord : Outcome ℕ → Type 0
IsWord (ret r s) = r < 2 ^ 64
IsWord (dead s) = Unit

-- The kernel answers by words.
pub record IsWordHost (h : Host) : Type 0 where
  pub reply_lem : (log : List Call) (c : Call) → h.reply log c < 2 ^ 64
  pub tid_lem : (log : List Call) → h.ta_tid log < 2 ^ 64
