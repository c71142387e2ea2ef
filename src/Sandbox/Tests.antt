-- ===== src/Sandbox/Tests.antt =====
-- A run under the firewall, and one of the null sandbox.
use vmpl_apps.Base.{arith, ℕ, ◌≡◌, refl, List, [], ◌∷◌, ◌&&◌, if◌then◌else◌}
use vmpl_apps.Host.{Host, machine_of}
use vmpl_apps.Host.Replies.{IsWordHost}
use vmpl_apps.Samples.{platform, platform-IsPlatform, host, memory, mmap_frame}
use vmpl_apps.Trap.Frame.{Tf}
use vmpl_apps.Trap.Sys.{sys_of}
use vmpl_apps.Trap.Check.{syscall_check_params}
use vmpl_apps.Trap.Check.Sound.{IsFrame}
use vmpl_apps.Trap.Handler.{Monitor, boxer_register_syscall_monitor, syscall_handler}
use vmpl_apps.Trap.Handler.Registers.{Leaves, syscall_handler-Leaves}
use vmpl_apps.Trap.Handler.Released.{IsReleased}
use vmpl_apps.Trap.Handler.Filtered.{passes, allows, passed, connect_passes_iff}
use vmpl_apps.Trap.Handler.Safe.{IsTransparent}
use vmpl_apps.Firewall.{FwRule, SockaddrIn, syscall_monitor}
use vmpl_apps.Firewall.Match.{syscall_monitor-IsTame}
use vmpl_apps.Loader.Samples.{program, vector}
use vmpl_apps.Sandbox.{
  Trap, system_call, page_fault, Program, handle_all, null_monitor, null_sandbox,
}
use vmpl_apps.Host.Mutex.{mutex}
use vmpl_apps.Sandbox.Released.{handle_all-IsReleased}
use vmpl_apps.Sandbox.Safe.{fresh}

-- allow connect * 171.0.0.0 255.0.0.0
abbrev rules : List FwRule
rules = record { type = 2; port = 0; ip = 171; mask = 255 } ∷ []

abbrev address : ℕ → SockaddrIn
address a = record { sin_family = 2; sin_port = 0x5000; s_addr = 171 }

abbrev firewall : Monitor
firewall = boxer_register_syscall_monitor (syscall_monitor rules address)

abbrev start : Program
start = record { argc = 3; hdr = program; path = 500; argv = 600 ∷ []; envv = []; aux = vector }

abbrev traps : List Trap
traps =
    system_call memory mmap_frame
    ∷ page_fault 0x500000 0 mmap_frame
    ∷ system_call memory mmap_frame
    ∷ []

null_sandbox-IsTransparent : IsTransparent null_sandbox
unfolding boxer_register_syscall_monitor null_monitor
null_sandbox-IsTransparent = λ tf e. refl

handle_all-IsReleased_example : IsReleased (handle_all (λ p. 3) platform host firewall traps fresh)
unfolding mutex
handle_all-IsReleased_example =
    handle_all-IsReleased (λ p. 3) platform host firewall traps fresh refl

-- A connect with a struct sockaddr_in.
abbrev connect_frame : Tf
connect_frame = record mmap_frame { rax = 42; arg1 = 0x600000; arg2 = 16 }

connect_passes_iff_example :
    machine_of (syscall_handler platform host memory firewall connect_frame fresh) ≡ (
      if passes (syscall_check_params platform memory connect_frame)
        && allows rules address connect_frame
      then passed rules address connect_frame fresh
      else fresh)
unfolding sys_of
connect_passes_iff_example =
    connect_passes_iff rules address platform host memory connect_frame fresh refl (refl, refl)

-- A kernel that answers each call by 7.
abbrev sevens : Host
sevens = record host { reply = λ log c. 7 }

sevens-IsWordHost : IsWordHost sevens
sevens-IsWordHost = record { reply_lem = λ log c. omega arith; tid_lem = λ log. omega arith }

connect_frame-IsFrame : IsFrame connect_frame
connect_frame-IsFrame = record {
  word0 = omega arith;
  word1 = omega arith;
  word2 = omega arith;
  word3 = omega arith;
  word4 = omega arith;
}

syscall_handler-Leaves_example :
    Leaves connect_frame (syscall_handler platform sevens memory firewall connect_frame fresh)
syscall_handler-Leaves_example =
    syscall_handler-Leaves platform platform-IsPlatform sevens sevens-IsWordHost memory firewall
      connect_frame fresh (syscall_monitor-IsTame rules address) connect_frame-IsFrame (omega arith)
