-- ===== src/Sandbox.antt =====
-- A whole run of a sandbox: boxer_main of sandbox/src/main.c, and while it runs the application, the
-- handlers of sandbox/src/trap.c, for the traps in the order in which they come. Of
-- sandbox/src/nullsandbox.c the monitor and main.
pub mod Safe
pub mod Released
mod Tests
use vmpl_apps.Base.{ℕ, true, false, Bool, if◌then◌else◌, List, [], ◌∷◌, ◌≡◌}
use vmpl_apps.Host.{Platform, Host, M, Call, jump_to_user, ret, pure, ◌>>=◌, ◌>>◌}
use vmpl_apps.Mem.{Memory}
use vmpl_apps.Trap.Frame.{Tf}
use vmpl_apps.Trap.Handler.{Monitor, boxer_register_syscall_monitor, syscall_handler, pgflt_handler}
use vmpl_apps.Loader.{Phdr, Ehdr, Auxv}
use vmpl_apps.Loader.Start.{boxer_main}

-- What the application does: a system call, with the memory as it is then, or a page fault. A fault
-- that comes while a handler runs, in the sandbox's own code, is not modelled.
pub data Trap : Type 0 where
  system_call : Memory → Tf → Trap
  page_fault : (addr fec : ℕ) → Tf → Trap

-- A program and its start: `argc`, the file, the path, the arguments, the environment and the
-- auxiliary vector.
pub record Program : Type 0 where
  pub argc : ℕ
  pub hdr : Ehdr
  pub path : ℕ
  pub argv : List ℕ
  pub envv : List ℕ
  pub aux : List Auxv

is_entered : List Call → Bool
is_entered (jump_to_user rip rsp rax ∷ log) = true
is_entered _ = false

module _ (strlen : ℕ → ℕ) (pl : Platform) (h : Host) where
  pub handle : Monitor → Trap → M (Unit {0})
  handle monitor (system_call mem tf) = do _ ← syscall_handler pl h mem monitor tf; pure tt
  handle monitor (page_fault addr fec tf) = pgflt_handler pl h addr fec tf

  pub handle_all : Monitor → List Trap → M (Unit {0})
  unfolding handle
  handle_all monitor [] = pure tt
  handle_all monitor (t ∷ traps) = do handle monitor t; handle_all monitor traps

  -- Whether the application has been entered, which is the last thing that boxer_main does.
  abbrev has_entered : M Bool
  has_entered s = ret (is_entered s.log) s

  -- `iter_ph` is libdune's dune_elf_iter_ph. The traps come where the application was entered.
  pub sandbox_run : Monitor → Program → (iter_ph : (Phdr → M ℕ) → M ℕ) → List Trap → M (Unit {0})
  unfolding handle_all
  sandbox_run monitor p iter_ph traps = do
    _ ← boxer_main strlen pl h p.argc p.hdr iter_ph p.path p.argv p.envv p.aux
    entered ← has_entered
    if entered then handle_all monitor traps else pure tt

-- The null sandbox: its monitor prints, and lets every call through.
pub null_monitor : Tf → Bool × Tf
null_monitor tf = (true, tf)

abbrev pub null_sandbox : Monitor
null_sandbox = boxer_register_syscall_monitor null_monitor
