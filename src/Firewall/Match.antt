-- ===== src/Firewall/Match.antt =====
-- Which rule decides, and what the monitor does.
use vmpl_apps.Base.{
  ◌<◌, ◌^◌, refl, ℕ, ◌≡◌, ◌≢◌, ◌↔◌, ◌⊎◌, inl, inr, Bool, true, false, List, [], ◌∷◌, arith, bit_and,
  sym, ◌∙◌, if◌then◌else◌,
}
use Prim.Native.Nat.{bit_and-bitwise}
use vmpl_apps.Base.Words.{neg, low32}
use vmpl_apps.Base.Linux.{eperm}
use vmpl_apps.Trap.Frame.{Tf}
use vmpl_apps.Trap.Sys.{Sys, sys_of}
use vmpl_apps.Trap.Handler.{boxer_register_syscall_monitor}
use vmpl_apps.Trap.Handler.Registers.{IsTame, IsReturn}
use vmpl_apps.Trap.Handler.Safe.{IsTransparent}
use vmpl_apps.Firewall.{
  FwRule, SockaddrIn, fw_type_bind_allow, fw_type_connect_allow, fw_type_connect_deny, fw_port_any,
  firewall_check_bind, firewall_check_connect, syscall_monitor, monitor_call, check_bind,
  check_connect, with_status, af_inet, sizeof_sockaddr_in, ntohs,
}

abbrev pub OnPort : FwRule → ℕ → Type 0
OnPort r port = (r.port ≡ fw_port_any) ⊎ (r.port ≡ port)

-- A rule about connections that covers the address and the port.
abbrev pub Applies : FwRule → ℕ → ℕ → Type 0
Applies r port ip =
    ((r.type ≡ fw_type_connect_allow) ⊎ (r.type ≡ fw_type_connect_deny))
    × (bit_and ip r.ip ≡ bit_and ip r.mask)
    × OnPort r port

-- The first rule that applies, which is the last one of the file, is an `allow`.
pub data FirstAllows (port ip : ℕ) : List FwRule → Type 0 where
  decides :
      (r : FwRule) (l : List FwRule)
      → Applies r port ip
      → r.type ≡ fw_type_connect_allow
      → FirstAllows port ip (r ∷ l)
  skips :
      (r : FwRule) (l : List FwRule)
      → ¬ Applies r port ip
      → FirstAllows port ip l
      → FirstAllows port ip (r ∷ l)

module _ (port ip : ℕ) where
  connect_head :
      (r : FwRule) (l : List FwRule)
      → firewall_check_connect (r ∷ l) port ip ≡ true
      → (Applies r port ip × (r.type ≡ fw_type_connect_allow))
        ⊎ ((¬ Applies r port ip) × (firewall_check_connect l port ip ≡ true))
  unfolding firewall_check_connect
  connect_head r l e = ground arith

  connect→ :
      (rules : List FwRule)
      → firewall_check_connect rules port ip ≡ true
      → FirstAllows port ip rules
  unfolding firewall_check_connect
  connect→ [] e = cc
  connect→ (r ∷ l) e = elim (connect_head r l e) [
    | inl (a, t) ↦ decides r l a t
    | inr (n, f) ↦ skips r l n (connect→ l f)
  ]

  connect← :
      {rules : List FwRule}
      → FirstAllows port ip rules
      → firewall_check_connect rules port ip ≡ true
  unfolding firewall_check_connect
  connect← (decides r l a t) = ground arith
  connect← (skips r l n f) = ground (arith, connect← f)

  -- A connection to a port and an address is let through exactly when the first rule of the
  -- list that applies to them is an allow.
  pub firewall_check_connect_iff :
      (rules : List FwRule)
      → (firewall_check_connect rules port ip ≡ true) ↔ FirstAllows port ip rules
  firewall_check_connect_iff rules = (connect→ rules, connect←)

-- A rule of the list lets the port be bound.
pub data SomeBinds (port : ℕ) : List FwRule → Type 0 where
  here :
      (r : FwRule) (l : List FwRule)
      → r.type ≡ fw_type_bind_allow
      → OnPort r port
      → SomeBinds port (r ∷ l)
  there : (r : FwRule) (l : List FwRule) → SomeBinds port l → SomeBinds port (r ∷ l)

module _ (port : ℕ) where
  bind_head :
      (r : FwRule) (l : List FwRule)
      → firewall_check_bind (r ∷ l) port ≡ true
      → ((r.type ≡ fw_type_bind_allow) × OnPort r port) ⊎ (firewall_check_bind l port ≡ true)
  unfolding firewall_check_bind
  bind_head r l e = ground arith

  bind→ : (rules : List FwRule) → firewall_check_bind rules port ≡ true → SomeBinds port rules
  unfolding firewall_check_bind
  bind→ [] e = cc
  bind→ (r ∷ l) e = elim (bind_head r l e) [
    | inl (t, o) ↦ here r l t o
    | inr f ↦ there r l (bind→ l f)
  ]

  bind← : {rules : List FwRule} → SomeBinds port rules → firewall_check_bind rules port ≡ true
  unfolding firewall_check_bind
  bind← (here r l t o) = ground arith
  bind← (there r l b) = ground (arith, bind← b)

  -- A port may be bound exactly when some rule of the list allows it.
  firewall_check_bind_iff :
      (rules : List FwRule) → (firewall_check_bind rules port ≡ true) ↔ SomeBinds port rules
  firewall_check_bind_iff rules = (bind→ rules, bind←)

-- The address is compared on the wrong side of the mask: 0.0.0.0 is covered by every rule.
zero-bit_and : (b : ℕ) → bit_and 0 b ≡ 0
zero-bit_and b = bit_and-bitwise 0 b

-- A connect rule on a port applies to the address 0, whatever address and mask it names.
Applies-zero :
    (r : FwRule) (port : ℕ)
    → (r.type ≡ fw_type_connect_allow) ⊎ (r.type ≡ fw_type_connect_deny)
    → OnPort r port
    → Applies r port 0
Applies-zero r port t o = (t, zero-bit_and r.ip ∙ sym (zero-bit_and r.mask), o)

module _ (rules : List FwRule) (sockaddr_at : ℕ → SockaddrIn) where
  call-keeps :
      (c : Sys) (tf : Tf)
      → (monitor_call rules sockaddr_at c tf).0 ≡ true
      → (monitor_call rules sockaddr_at c tf).1 ≡ tf
  unfolding monitor_call
  call-keeps Sys.bind tf e = ground arith
  call-keeps _ tf e = ground arith

  other_length :
      (c : Sys) (tf : Tf)
      → low32 tf.arg2 ≢ sizeof_sockaddr_in
      → monitor_call rules sockaddr_at c tf ≡ (true, tf)
  unfolding monitor_call check_bind check_connect
  other_length Sys.bind tf n = ground arith
  other_length _ tf n = ground arith

  -- The firewall's monitor, registered, does not change a frame that it lets through.
  pub syscall_monitor-IsTransparent :
      IsTransparent (boxer_register_syscall_monitor (syscall_monitor rules sockaddr_at))
  unfolding boxer_register_syscall_monitor syscall_monitor
  syscall_monitor-IsTransparent tf e = call-keeps (sys_of tf.rax) tf e

  with_status-IsReturn : (b : Bool) (tf : Tf) → tf.rax < 2 ^ 64 → IsReturn tf (with_status b tf).1
  with_status-IsReturn true tf lt = (refl, lt)
  with_status-IsReturn false tf lt = (refl, omega arith)

  call-IsReturn :
      (c : Sys) (tf : Tf) → tf.rax < 2 ^ 64 → IsReturn tf (monitor_call rules sockaddr_at c tf).1
  unfolding monitor_call
  call-IsReturn Sys.bind tf lt =
      with_status-IsReturn (check_bind rules (sockaddr_at tf.arg1) (low32 tf.arg2)) tf lt
  call-IsReturn Sys.connect tf lt =
      with_status-IsReturn (check_connect rules (sockaddr_at tf.arg1) (low32 tf.arg2)) tf lt
  call-IsReturn _ tf lt = (refl, lt)

  -- Registered, it changes no register but rax.
  pub syscall_monitor-IsTame :
      IsTame (boxer_register_syscall_monitor (syscall_monitor rules sockaddr_at))
  unfolding boxer_register_syscall_monitor syscall_monitor
  syscall_monitor-IsTame tf lt = call-IsReturn (sys_of tf.rax) tf lt

  -- What the monitor refuses, and how.
  abbrev pub IsRefusal : (Tf → Bool) → Tf → Type 0
  IsRefusal allowed tf =
      syscall_monitor rules sockaddr_at tf
      ≡ (if allowed tf then (true, tf) else (false, record tf { rax = neg eperm }))

  -- An IPv4 address of the expected length.
  abbrev pub IsInet : Tf → Type 0
  IsInet tf = (low32 tf.arg2 ≡ sizeof_sockaddr_in) × ((sockaddr_at tf.arg1).sin_family ≡ af_inet)

  -- For a bind with an IPv4 address of the expected length, the monitor lets the frame through
  -- unchanged if the rules allow the port, and else refuses it with -EPERM in rax.
  syscall_monitor-bind :
      (tf : Tf)
      → sys_of tf.rax ≡ Sys.bind
      → IsInet tf
      → IsRefusal (λ t. firewall_check_bind rules (ntohs (sockaddr_at t.arg1).sin_port)) tf
  unfolding syscall_monitor
  syscall_monitor-bind tf c i = rw c (ground arith)

  -- For a connect with an IPv4 address of the expected length, the monitor lets the frame
  -- through unchanged if the rules allow the port and the address, and else refuses it with
  -- -EPERM in rax.
  pub syscall_monitor-connect :
      (tf : Tf)
      → sys_of tf.rax ≡ Sys.connect
      → IsInet tf
      → IsRefusal
          (λ t.
            firewall_check_connect rules
              (ntohs (sockaddr_at t.arg1).sin_port)
              (sockaddr_at t.arg1).s_addr)
          tf
  unfolding syscall_monitor
  syscall_monitor-connect tf c i = rw c (ground arith)

  -- A frame whose address length differs from sizeof(struct sockaddr_in) is let through
  -- unchanged, whatever the rules say.
  syscall_monitor_other_length :
      (tf : Tf)
      → low32 tf.arg2 ≢ sizeof_sockaddr_in
      → syscall_monitor rules sockaddr_at tf ≡ (true, tf)
  unfolding syscall_monitor
  syscall_monitor_other_length tf n = other_length (sys_of tf.rax) tf n
