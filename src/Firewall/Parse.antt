-- ===== src/Firewall/Parse.antt =====
-- ufirewall/src/firewall.c: firewall_parse and firewall_init. Text is a list of bytes. `fgets`,
-- `strncmp`, `strcmp`, `sscanf` with %s and `atoi` are written out as the C standard has them;
-- `inet_aton` is a parameter, which gives the address of a text that is one.
pub mod Lines
mod Tests
use vmpl_apps.Base.{
  ℕ, zero, suc, ◌+◌, ◌-◌, ◌*◌, ◌%◌, ◌^◌, ◌≡◌, ◌≤◌, Bool, true, false, ◌&&◌, ◌||◌, Option, none,
  some, List, [], ◌∷◌, ◌++◌, ltb, leb, ◌==◌, ◌!=◌, length, if◌then◌else◌,
}
use Prim.Native.Char.{code}
use Prim.Native.String.{String}
use vmpl_apps.Firewall.{
  FwRule, fw_type_bind_allow, fw_type_connect_allow, fw_type_connect_deny, fw_port_any,
}

abbrev pub Bytes : Type 0
Bytes = List ℕ

abbrev pub bytes : String → Bytes
bytes String.[] = []
bytes (String.◌∷◌ c s) = code c ∷ bytes s

-- `fgets(buf, 100, f)` until it gives NULL: a line has at most 99 bytes, its newline included.
-- `room` is what is left for the line `cur`.
pub fgets_from : (room : ℕ) (cur : Bytes) → Bytes → List Bytes
fgets_from room [] [] = []
fgets_from room (x ∷ cur) [] = (x ∷ cur) ∷ []
fgets_from room cur (c ∷ s) =
    let full = (cur ++ c ∷ []) ∷ fgets_from 99 [] s in
    let more = fgets_from (room - 1) (cur ++ c ∷ []) s in
    if c == 10 || leb room 1 then full else more

-- A C string ends at its first zero byte.
pub c_string : Bytes → Bytes
c_string [] = []
c_string (c ∷ s) = let rest = c_string s in if c == 0 then [] else c ∷ rest

-- `!strncmp(word, str, strlen(word))`.
pub has_prefix : (word str : Bytes) → Bool
has_prefix [] str = true
has_prefix (w ∷ word) [] = false
has_prefix (w ∷ word) (c ∷ str) = w == c && has_prefix word str

pub strcmp_eq : Bytes → Bytes → Bool
strcmp_eq [] [] = true
strcmp_eq [] (c ∷ t) = false
strcmp_eq (c ∷ s) [] = false
strcmp_eq (c ∷ s) (d ∷ t) = c == d && strcmp_eq s t

abbrev pub isspace : ℕ → Bool
isspace c = c == 32 || (leb 9 c && leb c 13)

-- The words of a text, as successive `%s` read them; `cur` is the word being read.
pub words_from : (cur : Bytes) → Bytes → List Bytes
words_from [] [] = []
words_from (x ∷ cur) [] = (x ∷ cur) ∷ []
words_from [] (c ∷ s) = words_from (if isspace c then [] else c ∷ []) s
words_from (x ∷ cur) (c ∷ s) =
    let stop = (x ∷ cur) ∷ words_from [] s in
    let more = words_from ((x ∷ cur) ++ c ∷ []) s in if isspace c then stop else more

pub skip : ℕ → Bytes → Bytes
skip zero s = s
skip (suc n) [] = []
skip (suc n) (c ∷ s) = skip n s

abbrev is_digit : ℕ → Bool
is_digit c = leb 48 c && leb c 57

digits_value : (acc : ℕ) → Bytes → ℕ
digits_value acc [] = acc
digits_value acc (c ∷ s) =
    let more = digits_value (acc * 10 + (c - 48)) s in if is_digit c then more else acc

-- `atoi` of a word, as the 16 bits that are kept of it.
pub atoi16 : Bytes → ℕ
unfolding digits_value
atoi16 [] = 0
atoi16 (c ∷ s) =
    if c == b'-'
    then (2 ^ 16 - digits_value 0 s % 2 ^ 16) % 2 ^ 16
    else if c == b'+'
    then digits_value 0 s % 2 ^ 16
    else digits_value 0 (c ∷ s) % 2 ^ 16

-- The variables that outlive a round of the loop: `port[8]`, `ip[20]`, `mask[20]`, `inp`, and the
-- list of rules.
pub record Parser : Type 0 where
  pub port : Bytes
  pub ip : Bytes
  pub mask : Bytes
  pub inp : ℕ
  pub rules : List FwRule

-- The rest of a file is read, the parser stops at an error, or a `%s` writes behind its array.
pub data Step {ℓ} (A : Type ℓ) : Type ℓ where
  done : A → Step A
  failed : Parser → Step A
  overrun : Step A

infixl 5 ◌>>=◌
abbrev ◌>>=◌ {ℓ κ} : {A : Type ℓ} {B : Type κ} → Step A → (A → Step B) → Step B
done a >>= f = f a
failed p >>= f = failed p
overrun >>= f = overrun

-- One `%s` into an array of `size` bytes; without a word the array keeps what it holds.
assign : (size : ℕ) (old : Bytes) → List Bytes → Step Bytes
assign size old [] = done old
assign size old (w ∷ ws) = if ltb (length w) size then done w else overrun

rest_of : List Bytes → List Bytes
rest_of [] = []
rest_of (w ∷ ws) = ws

pub parse_port : Bytes → ℕ
parse_port port = if strcmp_eq port (bytes "*") then fw_port_any else atoi16 port

push : Parser → FwRule → Parser
push p r = record p { rules = r ∷ p.rules }

-- `r` is fresh from `malloc`, so a rule about `bind` keeps what `ip` and `mask` happen to hold.
parse_bind : (fresh : FwRule) → Bytes → Parser → Step Parser
parse_bind fresh args p = do
  port ← assign 8 p.port (words_from [] args)
  done (
      push (record p { port = port })
        (record fresh { type = fw_type_bind_allow; port = parse_port port }))

module _ (inet_aton : Bytes → Option ℕ) where
  -- `inet_aton(cp, &inp)`: its result and `inp.s_addr` behind it. The test `< 0` of the result is
  -- never met, as the results are 1 and 0.
  convert : Bytes → (inp : ℕ) → ℕ × ℕ
  convert cp inp = elim (inet_aton cp) [ none ↦ (0, inp) | some a ↦ (1, a) ]

  abbrev is_error : ℕ → Bool
  is_error r = leb (2 ^ 63) r

  pub parse_connect : (type : ℕ) → Bytes → Parser → Step Parser
  parse_connect type args p =
      let ws = words_from [] args in
      do
        port ← assign 8 p.port ws
        ip ← assign 20 p.ip (rest_of ws)
        mask ← assign 20 p.mask (rest_of (rest_of ws))
        let p' : Parser = record p { port = port; ip = ip; mask = mask }
        let first = convert ip p.inp
        if is_error first.0 then failed p' else do
          let second = convert mask first.1
          if is_error second.0
              then failed p'
              else done (
                  push (record p' { inp = second.1 })
                    (record { type = type; port = parse_port port; ip = first.1; mask = second.1 }))

  -- One round of the loop, on the string that `fgets` has read.
  pub parse_line : (fresh : FwRule) → Bytes → Parser → Step Parser
  parse_line fresh str p =
      if has_prefix (bytes "#") str
      then done p
      else if strcmp_eq (10 ∷ []) str
      then done p
      else if has_prefix (bytes "allow bind") str
      then parse_bind fresh (skip 10 str) p
      else if has_prefix (bytes "allow connect") str
      then parse_connect fw_type_connect_allow (skip 13 str) p
      else if has_prefix (bytes "deny connect") str
      then parse_connect fw_type_connect_deny (skip 12 str) p
      else failed p

  pub parse_lines : (fresh : FwRule) → List Bytes → Parser → Step Parser
  parse_lines fresh [] p = done p
  parse_lines fresh (l ∷ ls) p = parse_line fresh (c_string l) p >>= parse_lines fresh ls

  -- The file, or `none` where it cannot be opened.
  pub firewall_parse : (fresh : FwRule) → Option Bytes → Parser → Step Parser
  firewall_parse fresh none p = failed p
  firewall_parse fresh (some text) p = parse_lines fresh (fgets_from 99 [] text) p

  -- `SLIST_INIT(&rules)` first.
  pub firewall_init : (fresh : FwRule) → Option Bytes → Parser → Step Parser
  firewall_init fresh file p = firewall_parse fresh file (record p { rules = [] })
