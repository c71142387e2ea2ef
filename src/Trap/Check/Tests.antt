-- ===== src/Trap/Check/Tests.antt =====
-- Runs of syscall_check_params, and the witnesses of its theorems.
use vmpl_apps.Base.{◌≡◌, refl}
use vmpl_apps.Base.Words.{neg}
use vmpl_apps.Base.Linux.{efault}
use vmpl_apps.Samples.{platform, memory, read_frame}
use vmpl_apps.Mem.{check_extent, check_string}
use vmpl_apps.Trap.Frame.{Tf}
use vmpl_apps.Trap.Sys.{sys_of}
use vmpl_apps.Trap.Check.{refuse, syscall_check_params}

-- read to an address between the regions.
abbrev wild_frame : Tf
wild_frame = record read_frame { arg1 = 0x80000000 }

read_refused : syscall_check_params platform memory wild_frame ≡ refuse (neg efault)
unfolding syscall_check_params sys_of check_extent check_string
read_refused = refl
