-- ===== src/Sandbox/Safe.antt =====
-- What holds of every run.
use vmpl_apps.Base.{[]}
use vmpl_apps.Host.{Host, Machine}
use vmpl_apps.Umm.Keeps.{Keeps}
use vmpl_apps.Trap.Check.Sound.{IsFrame}
use vmpl_apps.Sandbox.{Trap, system_call, page_fault}

-- The registers of a system call are 64-bit words.
abbrev pub IsTrap : Trap → Type 0
IsTrap (system_call mem tf) = IsFrame tf
IsTrap (page_fault addr fec tf) = Unit

-- Before anything has been done.
abbrev pub fresh : Machine
fresh = record { brk_len = 0; mmap_len = 0; log = [] }
