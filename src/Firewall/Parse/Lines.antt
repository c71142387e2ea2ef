-- ===== src/Firewall/Parse/Lines.antt =====
-- How a file of rules is cut into lines, and what the lines come to.
use vmpl_apps.Base.{
  ℕ, zero, suc, ◌+◌, ◌-◌, ◌≤◌, ◌<◌, ◌≡◌, refl, Bool, true, false, ◌⊎◌, inl, inr, ◌||◌, Option, none,
  some, List, [], ◌∷◌, ◌++◌, All, arith, length, if◌then◌else◌,
}
use mathlib.Core.List.{append_assoc}
use mathlib.Core.Path.{subst}
use vmpl_apps.Firewall.{FwRule, fw_type_bind_allow, fw_type_connect_allow, fw_type_connect_deny}
use vmpl_apps.Firewall.Parse.{
  Bytes, bytes, fgets_from, c_string, has_prefix, strcmp_eq, Parser, Step, done, failed, overrun,
  ◌>>=◌, assign, rest_of, parse_port, push, parse_bind, convert, parse_connect, parse_line,
  parse_lines, words_from, skip, atoi16, firewall_parse, firewall_init,
}

abbrev pub concat : List Bytes → Bytes
concat [] = []
concat (l ∷ ls) = l ++ concat ls

length-snoc : (cur : Bytes) (c : ℕ) → length (cur ++ c ∷ []) ≡ length cur + 1
length-snoc [] c = refl
length-snoc (x ∷ cur) c = omega (arith, length-snoc cur c)

fgets_from-concat : (room : ℕ) (cur text : Bytes) → concat (fgets_from room cur text) ≡ cur ++ text
unfolding fgets_from
fgets_from-concat room [] [] = refl
fgets_from-concat room (x ∷ cur) [] = refl
fgets_from-concat room [] (c ∷ s) =
    ground (arith, fgets_from-concat 99 [] s, fgets_from-concat (room - 1) (c ∷ []) s)
fgets_from-concat room (x ∷ cur) (c ∷ s) = ground (
  arith,
  fgets_from-concat 99 [] s,
  fgets_from-concat (room - 1) (x ∷ (cur ++ c ∷ [])) s,
  append_assoc cur (c ∷ []) s,
  append_assoc cur (c ∷ []) (concat (fgets_from 99 [] s)),
)

fgets_from-length :
    (room : ℕ) (cur text : Bytes)
    → length cur + room ≡ 99
    → 0 < room
    → All (λ l. (0 < length l) × (length l ≤ 99)) (fgets_from room cur text)
unfolding fgets_from
fgets_from-length room [] [] e h = tt
fgets_from-length room (x ∷ cur) [] e h = ((omega arith, omega arith), tt)
fgets_from-length room [] (c ∷ s) e h =
    ground (arith, fgets_from-length 99 [] s, fgets_from-length (room - 1) (c ∷ []) s)
fgets_from-length room (x ∷ cur) (c ∷ s) e h = ground (
  arith,
  length-snoc cur c,
  fgets_from-length 99 [] s,
  fgets_from-length (room - 1) (x ∷ (cur ++ c ∷ [])) s,
)

-- The line is a comment or empty, or a rule.
abbrev pub is_comment : Bytes → Bool
is_comment str = has_prefix (bytes "#") str || strcmp_eq (10 ∷ []) str

abbrev pub is_rule : Bytes → Bool
is_rule str =
    has_prefix (bytes "allow bind") str
    || (has_prefix (bytes "allow connect") str || has_prefix (bytes "deny connect") str)

abbrev pub IsKnown : Bytes → Type 0
IsKnown l = (is_comment (c_string l) || is_rule (c_string l)) ≡ true

abbrev pub count_rules : List Bytes → ℕ
count_rules [] = 0
count_rules (l ∷ ls) = if is_comment (c_string l) then count_rules ls else suc (count_rules ls)

-- `n` entries were put in front.
abbrev pub drop : ℕ → List FwRule → List FwRule
drop zero l = l
drop (suc n) [] = []
drop (suc n) (r ∷ l) = drop n l

drop-suc : (n : ℕ) (l : List FwRule) → drop (suc n) l ≡ drop 1 (drop n l)
drop-suc zero l = refl
drop-suc (suc n) [] = refl
drop-suc (suc n) (r ∷ l) = drop-suc n l

abbrev pub IsExtended : ℕ → List FwRule → List FwRule → Type 0
IsExtended n old new = (drop n new ≡ old) × (length new ≡ n + length old)

-- What a rule says of its port.
abbrev pub IsPort : List Bytes → FwRule → Type 0
IsPort [] r = Unit
IsPort (w ∷ ws) r = r.port ≡ (if strcmp_eq w (bytes "*") then 0 else atoi16 w)

module _ (inet_aton : Bytes → Option ℕ) where
  -- A text that is an address stands for it.
  abbrev pub IsAddress : Bytes → ℕ → Type 0
  IsAddress text a = elim (inet_aton text) [ none ↦ Unit | some b ↦ a ≡ b ]

  abbrev pub IsPeer : List Bytes → FwRule → Type 0
  IsPeer (w ∷ ip ∷ mask ∷ ws) r = IsPort (w ∷ []) r × IsAddress ip r.ip × IsAddress mask r.mask
  IsPeer ws r = IsPort ws r

  -- The rule that a line is about.
  abbrev pub IsRuleOf : Bytes → FwRule → Type 0
  IsRuleOf str r =
      ((has_prefix (bytes "allow bind") str ≡ true)
        × (r.type ≡ fw_type_bind_allow)
        × IsPort (words_from [] (skip 10 str)) r)
      ⊎ ((has_prefix (bytes "allow connect") str ≡ true)
          × (r.type ≡ fw_type_connect_allow)
          × IsPeer (words_from [] (skip 13 str)) r)
      ⊎ ((has_prefix (bytes "deny connect") str ≡ true)
          × (r.type ≡ fw_type_connect_deny)
          × IsPeer (words_from [] (skip 12 str)) r)

  -- A rule of each line that is not a comment, in front of those of the lines before.
  abbrev pub IsLoaded : List Bytes → (old new : List FwRule) → Type 0
  IsLoaded [] old new = new ≡ old
  IsLoaded (l ∷ ls) old new =
      ((is_comment (c_string l) ≡ true) × IsLoaded ls old new)
      ⊎ ((is_comment (c_string l) ≡ false)
          × ((r : FwRule) × IsRuleOf (c_string l) r × IsLoaded ls (r ∷ old) new))

-- The lines that are read from a file, put together, are the file, and each has 1 to 99 bytes.
pub fgets_lines :
    (text : Bytes)
    → (concat (fgets_from 99 [] text) ≡ text)
      × All (λ l. (0 < length l) × (length l ≤ 99)) (fgets_from 99 [] text)
fgets_lines text = (fgets_from-concat 99 [] text, fgets_from-length 99 [] text refl (omega arith))

module _ (inet_aton : Bytes → Option ℕ) (fresh : FwRule) where
  parse_connect_done :
      (type : ℕ) (args : Bytes) (p q : Parser)
      → parse_connect inet_aton type args p ≡ done q
      → IsExtended 1 p.rules q.rules
  unfolding parse_connect assign convert push
  parse_connect_done type args p q e = ground arith

  abbrev first : List FwRule → FwRule
  first [] = fresh
  first (r ∷ l) = r

  bind_rule :
      (ws : List Bytes) (args : Bytes) (p q : Parser)
      → words_from [] args ≡ ws
      → parse_bind fresh args p ≡ done q
      → ((first q.rules).type ≡ fw_type_bind_allow)
        × IsPort ws (first q.rules)
        × (q.rules ≡ first q.rules ∷ p.rules)
  unfolding parse_bind assign push parse_port
  bind_rule [] args p q at e = ground (arith, rw at at e)
  bind_rule (w ∷ ws) args p q at e = ground (arith, rw at at e)

  connect_rule :
      (ws : List Bytes) (type : ℕ) (args : Bytes) (p q : Parser)
      → words_from [] args ≡ ws
      → parse_connect inet_aton type args p ≡ done q
      → ((first q.rules).type ≡ type)
        × IsPeer inet_aton ws (first q.rules)
        × (q.rules ≡ first q.rules ∷ p.rules)
  unfolding parse_connect assign convert push rest_of parse_port
  connect_rule [] type args p q at e = ground (arith, rw at at e)
  connect_rule (w ∷ []) type args p q at e = ground (arith, rw at at e)
  connect_rule (w ∷ ip ∷ []) type args p q at e = ground (arith, rw at at e)
  connect_rule (w ∷ ip ∷ mask ∷ ws) type args p q at e = ground (arith, rw at at e)

  line_rule :
      (str : Bytes) (p q : Parser)
      → parse_line inet_aton fresh str p ≡ done q
      → ((is_comment str ≡ true) × (q.rules ≡ p.rules))
        ⊎ ((is_comment str ≡ false)
            × IsRuleOf inet_aton str (first q.rules)
            × (q.rules ≡ first q.rules ∷ p.rules))
  unfolding parse_line
  line_rule str p q e = ground (
    arith,
    bind_rule (words_from [] (skip 10 str)) (skip 10 str) p q refl,
    connect_rule (words_from [] (skip 13 str)) fw_type_connect_allow (skip 13 str) p q refl,
    connect_rule (words_from [] (skip 12 str)) fw_type_connect_deny (skip 12 str) p q refl,
  )

  line-IsLoaded :
      (l : Bytes) (ls : List Bytes) (p q : Parser) (r : Step Parser)
      → parse_line inet_aton fresh (c_string l) p ≡ r
      → (r >>= parse_lines inet_aton fresh ls) ≡ done q
      → ((m : Parser)
          → parse_lines inet_aton fresh ls m ≡ done q
          → IsLoaded inet_aton ls m.rules q.rules)
      → IsLoaded inet_aton (l ∷ ls) p.rules q.rules
  line-IsLoaded l ls p q (done m) a b rest = elim (line_rule (c_string l) p m a) [
    | inl (c, same) ↦ inl (c, subst (λ old. IsLoaded inet_aton ls old q.rules) same (rest m b))
    | inr (c, rule, added) ↦ inr (
      c,
      (first m.rules, rule, subst (λ old. IsLoaded inet_aton ls old q.rules) added (rest m b)),
    )
  ]
  line-IsLoaded l ls p q (failed m) a b rest = absurd cc
  line-IsLoaded l ls p q overrun a b rest = absurd cc

  lines-IsLoaded :
      (ls : List Bytes) (p q : Parser)
      → parse_lines inet_aton fresh ls p ≡ done q
      → IsLoaded inet_aton ls p.rules q.rules
  unfolding parse_lines
  lines-IsLoaded [] p q e = ground arith
  lines-IsLoaded (l ∷ ls) p q e =
      line-IsLoaded l ls p q (parse_line inet_aton fresh (c_string l) p) refl e
        (λ m. lines-IsLoaded ls m q)

  parse_bind_done :
      (args : Bytes) (p q : Parser)
      → parse_bind fresh args p ≡ done q
      → IsExtended 1 p.rules q.rules
  unfolding parse_bind assign push
  parse_bind_done args p q e = ground arith

  parse_line_done :
      (str : Bytes) (p q : Parser)
      → parse_line inet_aton fresh str p ≡ done q
      → ((is_comment str || is_rule str) ≡ true)
        × IsExtended (if is_comment str then 0 else 1) p.rules q.rules
  unfolding parse_line
  parse_line_done str p q e = ground (
    arith,
    parse_bind_done (skip 10 str) p q,
    parse_connect_done fw_type_connect_allow (skip 13 str) p q,
    parse_connect_done fw_type_connect_deny (skip 12 str) p q,
  )

  next :
      (l : Bytes) (ls : List Bytes) (p q : Parser) (r : Step Parser)
      → parse_line inet_aton fresh (c_string l) p ≡ r
      → (r >>= parse_lines inet_aton fresh ls) ≡ done q
      → ((m : Parser)
          → parse_lines inet_aton fresh ls m ≡ done q
          → All IsKnown ls × IsExtended (count_rules ls) m.rules q.rules)
      → All IsKnown (l ∷ ls) × IsExtended (count_rules (l ∷ ls)) p.rules q.rules
  next l ls p q (done m) a b rest =
      ground
        (arith, parse_line_done (c_string l) p m a, rest m b, drop-suc (count_rules ls) q.rules)
  next l ls p q (failed m) a b rest = cc
  next l ls p q overrun a b rest = cc

  lines_done :
      (ls : List Bytes) (p q : Parser)
      → parse_lines inet_aton fresh ls p ≡ done q
      → All IsKnown ls × IsExtended (count_rules ls) p.rules q.rules
  unfolding parse_lines
  lines_done [] p q e = ground arith
  lines_done (l ∷ ls) p q e =
      next l ls p q (parse_line inet_aton fresh (c_string l) p) refl e (λ m. lines_done ls m q)

  -- If a file loads, each piece that fgets reads of it (a line, or 99 bytes of a longer one) is
  -- a comment, empty or begins with one of the three keywords, and the list has one rule for
  -- each piece that is not a comment and not empty, the last one in front: its type is that of
  -- the keyword, its port the first word behind that, if there is one, and where three words
  -- follow the keyword of a rule about connect, its address and its mask are the second and the
  -- third, as far as inet_aton takes them for addresses.
  pub firewall_init_loads :
      (text : Bytes) (p q : Parser)
      → firewall_init inet_aton fresh (some text) p ≡ done q
      → All IsKnown (fgets_from 99 [] text)
        × (length q.rules ≡ count_rules (fgets_from 99 [] text))
        × IsLoaded inet_aton (fgets_from 99 [] text) [] q.rules
  unfolding firewall_init firewall_parse
  firewall_init_loads text p q e =
      let r = lines_done (fgets_from 99 [] text) (record p { rules = [] }) q e in
      (r.0, omega arith, lines-IsLoaded (fgets_from 99 [] text) (record p { rules = [] }) q e)

module _ (inet_aton : Bytes → Option ℕ) where
  -- If the words of a connect rule fit their arrays, its address is no address and its mask is
  -- one, the rule is added with the address that was converted last.
  parse_connect_stale :
      (type : ℕ) (args port ip mask : Bytes) (more : List Bytes) (m : ℕ) (p : Parser)
      → words_from [] args ≡ port ∷ ip ∷ mask ∷ more
      → (length port < 8) × (length ip < 20) × (length mask < 20)
      → inet_aton ip ≡ none
      → inet_aton mask ≡ some m
      → parse_connect inet_aton type args p
        ≡ done (record {
          port = port;
          ip = ip;
          mask = mask;
          inp = m;
          rules = record { type = type; port = parse_port port; ip = p.inp; mask = m } ∷ p.rules;
        })
  unfolding parse_connect assign rest_of convert push
  parse_connect_stale type args port ip mask more m p w fit a b = rw w (ground arith)
