-- ===== src/Wedge/Httpd.antt =====
-- wedge/src/httpd.c: the answer to a request (do_handle_dude), and the rights of the compartment in
-- which it is given (implementation 3 of handle_dude). Bytes are numbers.
pub mod Request
pub mod Chunks
pub mod Served
pub mod Rights
mod Tests
use Prim.Native.Char.{code}
use Prim.Native.String.{String}
use vmpl_apps.Base.{
  ℕ, zero, suc, ◌+◌, ◌^◌, ◌-◌, Bool, true, false, ◌||◌, ◌&&◌, Option, none, some, List, [], ◌∷◌,
  length, ◌==◌, ◌!=◌, if◌then◌else◌,
}
use vmpl_apps.Base.Words.{low32}
use vmpl_apps.Sthread.{Result, ok, stopped, undefined, ◌>>=◌, is_negative, prot_read, prot_write}
use vmpl_apps.Sthread.Perms.{Sc, sc_init, sc_fd_add, sc_sys_add}
use vmpl_apps.Sthread.Kernel.{World, K, die, undef}
use vmpl_apps.Sthread.Handler.{Exit}
use vmpl_apps.Sthread.Master.{sthread_create}

abbrev codes : String → List ℕ
codes String.[] = []
codes (String.◌∷◌ c s) = code c ∷ codes s

-- The kernel, with what it remembers: each call gives its result (a 64-bit word, of `open` an
-- `int`), and `read` the bytes that it has written to the buffer.
pub record Os : Type 1 where
  pub State : Type 0
  pub read : (fd len : ℕ) → State → State × ℕ × List ℕ
  pub write : (fd : ℕ) → List ℕ → State → State × ℕ
  pub open_index : State → State × ℕ
  pub close : (fd : ℕ) → State → State

pub take {ℓ} : {A : Type ℓ} → ℕ → List A → List A
take zero l = []
take (suc n) [] = []
take (suc n) (x ∷ l) = x ∷ take n l

-- What is before the first `c`: the string behind `*strchr(buf, c) = 0`.
pub until : (c : ℕ) → List ℕ → List ℕ
until c [] = []
until c (x ∷ l) = if x == c then [] else x ∷ until c l

-- strncmp(buf, prefix, strlen(prefix)) == 0.
pub starts_with : (prefix l : List ℕ) → Bool
starts_with [] l = true
starts_with (p ∷ ps) [] = false
starts_with (p ∷ ps) (x ∷ l) = (p == x) && starts_with ps l

abbrev pub get_root : List ℕ
get_root = codes "GET / HTTP/"

abbrev pub header : List ℕ
header = codes "HTTP/1.0 200 OK\nContent-Type: text/html\n\n"

-- The string in `buf` behind `buf[rc] = 0` and the two cuts, and its test.
pub is_get : (read : List ℕ) → Bool
unfolding until starts_with
is_get read = starts_with get_root (until 10 (until 13 (until 0 read)))

abbrev at_most_zero : (rc : ℕ) → Bool
at_most_zero rc = rc == 0 || is_negative rc

module _ (os : Os) where
  -- The `while` loop, and the close behind it. `none`: more than `rounds` reads.
  pub send_file : (rounds s fd : ℕ) → os.State → Option os.State
  unfolding take
  send_file zero s fd st = none
  send_file (suc rounds) s fd st =
      let (st', r, buf) = os.read fd 4096 st in
      let rc = low32 r in
      let (st'', written) = os.write s (take rc buf) st' in
      let rest = send_file rounds s fd st'' in
      if at_most_zero rc
      then some (os.close fd st')
      else if written != rc
      then some (os.close fd st'')
      else rest

  -- Behind the header.
  pub answer : (rounds s : ℕ) → os.State → Option os.State
  unfolding send_file
  answer rounds s st =
      let (st', fd) = os.open_index st in
      if fd == 2 ^ 32 - 1 then some st' else send_file rounds s fd st'

  pub do_handle_dude : (rounds s : ℕ) → os.State → Option os.State
  unfolding take is_get answer
  do_handle_dude rounds s st =
      let (st', r, buf) = os.read s 4095 st in
      let rc = low32 r in
      let (st'', written) = os.write s header st' in
      let rest = answer rounds s st'' in
      if at_most_zero rc
      then some st'
      else if is_get (take rc buf)
      then if written != length header then some st'' else rest
      else some st'

-- What the compartment of a connection may do; SYS_open is 2 and SYS_close 3.
pub connection_sc : (s : ℕ) → Sc → Result Sc
connection_sc s sc = do
  sc' ← sc_fd_add s (prot_read + prot_write) (sc_init sc)
  sc'' ← sc_sys_add 2 sc'
  sc_sys_add 3 sc''

-- Case 3 of handle_dude, to the start of the compartment; `pthread` is the address of that function.
pub handle_dude_sthread : World → (pthread s : ℕ) → Sc → K (ℕ × Exit)
handle_dude_sthread w pthread s sc = elim (connection_sc s sc) [
  | ok sc' ↦ sthread_create w sc' pthread s
  | stopped ↦ die
  | undefined ↦ undef
]
