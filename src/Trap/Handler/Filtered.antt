-- ===== src/Trap/Handler/Filtered.antt =====
-- The system call handler under the firewall.
use vmpl_apps.Base.{
  ℕ, ◌≡◌, refl, inl, inr, Bool, Bool-cases, true, false, ◌&&◌, List, ◌∷◌, if◌then◌else◌,
}
use vmpl_apps.Host.{Platform, Host, Machine, machine_of, passthrough}
use vmpl_apps.Mem.{Memory}
use vmpl_apps.Trap.Frame.{Tf}
use vmpl_apps.Trap.Sys.{Sys, sys_of}
use vmpl_apps.Trap.Check.{Verdict, refs, refuse, abort, syscall_check_params}
use vmpl_apps.Trap.Handler.{
  Monitor, boxer_register_syscall_monitor, syscall_allow, after_check, after_allow, syscall_do,
  syscall_do_foreal, do_call, do_passthrough, need_lock, syscall_handler,
}
use vmpl_apps.Firewall.{FwRule, SockaddrIn, firewall_check_connect, syscall_monitor, ntohs}
use vmpl_apps.Firewall.Match.{IsInet, syscall_monitor-connect}

-- Whether the check of the parameters lets a call pass.
abbrev pub passes : Verdict → Bool
passes (refs ptr len str err) = true
passes _ = false

module _ (rules : List FwRule) (sockaddr_at : ℕ → SockaddrIn) where
  abbrev pub firewall : Monitor
  firewall = boxer_register_syscall_monitor (syscall_monitor rules sockaddr_at)

  -- What the rules say of the address of a connect.
  abbrev pub allows : Tf → Bool
  allows tf =
      firewall_check_connect rules (ntohs (sockaddr_at tf.arg1).sin_port)
        (sockaddr_at tf.arg1).s_addr

  -- The state behind a call that is passed to the kernel.
  abbrev pub passed : Tf → Machine → Machine
  passed tf s = record s {
    log = passthrough tf.rax tf.arg0 tf.arg1 tf.arg2 tf.arg3 tf.arg4 tf.arg5 ∷ s.log;
  }

  module _ (pl : Platform) (h : Host) (mem : Memory) (tf : Tf) (s : Machine) where
    connect-passed : sys_of tf.rax ≡ Sys.connect → machine_of (syscall_do pl h tf s) ≡ passed tf s
    unfolding syscall_do need_lock syscall_do_foreal do_call do_passthrough
    connect-passed c = rw c refl

    check-filtered :
        (v : Verdict)
        → sys_of tf.rax ≡ Sys.connect
        → IsInet rules sockaddr_at tf
        → machine_of (after_check pl h firewall tf v s)
          ≡ (if passes v && allows tf then passed tf s else s)
    unfolding after_check after_allow syscall_allow boxer_register_syscall_monitor
    check-filtered (refs ptr len str err) c i = elim (Bool-cases (allows tf)) [
      | inl e ↦ rw (syscall_monitor-connect rules sockaddr_at tf c i, e) (connect-passed c)
      | inr e ↦ rw (syscall_monitor-connect rules sockaddr_at tf c i, e) refl
    ]
    check-filtered (refuse r) c i = refl
    check-filtered abort c i = refl

    -- Under the firewall, for a connect with an IPv4 address of the expected length: the
    -- handler passes the call to the kernel, and does nothing else, if the check of the
    -- parameters lets it pass and the rules allow the port and the address; if not, it
    -- changes nothing.
    pub connect_passes_iff :
        sys_of tf.rax ≡ Sys.connect
        → IsInet rules sockaddr_at tf
        → machine_of (syscall_handler pl h mem firewall tf s)
          ≡ (if passes (syscall_check_params pl mem tf) && allows tf then passed tf s else s)
    unfolding syscall_handler
    connect_passes_iff = check-filtered (syscall_check_params pl mem tf)
