-- ===== src/Firewall.antt =====
-- ufirewall/src/firewall.c: the rules, the two checks and the system call monitor.
pub mod Parse
pub mod Match
mod Tests
use vmpl_apps.Base.{
  ℕ, ◌+◌, ◌*◌, ◌/◌, ◌%◌, ◌^◌, Bool, true, false, ◌&&◌, not, Option, none, some, List, [], ◌∷◌,
  bit_and, ◌==◌, if◌then◌else◌,
}
use vmpl_apps.Base.Words.{neg, low32}
use vmpl_apps.Base.Linux.{eperm}
use vmpl_apps.Trap.Frame.{Tf}
use vmpl_apps.Trap.Sys.{Sys, sys_of}

abbrev pub fw_type_bind_allow : ℕ
fw_type_bind_allow = 1

abbrev pub fw_type_connect_allow : ℕ
fw_type_connect_allow = 2

abbrev pub fw_type_connect_deny : ℕ
fw_type_connect_deny = 3

abbrev pub fw_port_any : ℕ
fw_port_any = 0

-- `struct fw_rule` without its link: the list of rules is a list, its head first.
pub record FwRule : Type 0 where
  pub type : ℕ
  pub port : ℕ
  pub ip : ℕ
  pub mask : ℕ

unfoldable pub firewall_check_bind : (rules : List FwRule) (port : ℕ) → Bool
firewall_check_bind [] port = false
firewall_check_bind (p ∷ next) port =
    let rest = firewall_check_bind next port in
    if p.type == fw_type_bind_allow
    then (if p.port == fw_port_any then true else if p.port == port then true else rest)
    else rest

-- The second `if` of a round is reached where the first does not return.
unfoldable pub firewall_check_connect : (rules : List FwRule) (port ip : ℕ) → Bool
firewall_check_connect [] port ip = false
firewall_check_connect (p ∷ next) port ip =
    let rest = firewall_check_connect next port ip in
    let covers = bit_and ip p.ip == bit_and ip p.mask in
    let deny =
      if p.type == fw_type_connect_deny && covers
      then (if p.port == fw_port_any then false else if p.port == port then false else rest)
      else rest in
    if p.type == fw_type_connect_allow && covers
    then (if p.port == fw_port_any then true else if p.port == port then true else deny)
    else deny

-- The fields of a `struct sockaddr_in` that the checks read, in network byte order as in memory.
pub record SockaddrIn : Type 0 where
  pub sin_family : ℕ
  pub sin_port : ℕ
  pub s_addr : ℕ

abbrev pub af_inet : ℕ
af_inet = 2

abbrev pub sizeof_sockaddr_in : ℕ
sizeof_sockaddr_in = 16

-- The bytes of a 16-bit number in the other order.
abbrev pub ntohs : ℕ → ℕ
ntohs p = p % 256 * 256 + p / 256 % 256

unfoldable pub check_bind : List FwRule → SockaddrIn → (len : ℕ) → Bool
unfolding firewall_check_bind
check_bind rules a len =
    if len == sizeof_sockaddr_in && a.sin_family == af_inet
    then (if not (firewall_check_bind rules (ntohs a.sin_port)) then false else true)
    else true

unfoldable pub check_connect : List FwRule → SockaddrIn → (len : ℕ) → Bool
unfolding firewall_check_connect
check_connect rules a len =
    if len == sizeof_sockaddr_in && a.sin_family == af_inet
    then (if not (firewall_check_connect rules (ntohs a.sin_port) a.s_addr) then false else true)
    else true

-- A status of 0 comes with `rax = -EPERM`.
abbrev pub with_status : Bool → Tf → Bool × Tf
with_status true tf = (true, tf)
with_status false tf = (false, record tf { rax = neg eperm })

module _ (rules : List FwRule) (sockaddr_at : ℕ → SockaddrIn) where
  monitor_call : Sys → Tf → Bool × Tf
  monitor_call Sys.bind tf = with_status (check_bind rules (sockaddr_at tf.arg1) (low32 tf.arg2)) tf
  monitor_call Sys.connect tf =
      with_status (check_connect rules (sockaddr_at tf.arg1) (low32 tf.arg2)) tf
  monitor_call _ tf = (true, tf)

  unfoldable pub syscall_monitor : Tf → Bool × Tf
  unfolding monitor_call check_bind check_connect
  syscall_monitor tf = monitor_call (sys_of tf.rax) tf
