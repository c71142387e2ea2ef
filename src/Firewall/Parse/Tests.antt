-- ===== src/Firewall/Parse/Tests.antt =====
-- Runs of the parser of rules, and the witnesses of its theorems.
use vmpl_apps.Base.{ℕ, ◌≡◌, refl, Option, some, none, [], ◌∷◌, All, length, if◌then◌else◌}
use vmpl_apps.Firewall.{FwRule}
use vmpl_apps.Firewall.Parse.{
  Bytes, bytes, Parser, done, fgets_from, c_string, has_prefix, strcmp_eq, words_from, skip, atoi16,
  digits_value, assign, parse_port, push, parse_bind, parse_line, parse_lines, firewall_parse,
  firewall_init,
}
use vmpl_apps.Firewall.Parse.Lines.{IsKnown, count_rules, IsLoaded, firewall_init_loads}

-- An `inet_aton` that knows one address.
abbrev aton : Bytes → Option ℕ
aton [] = none
aton (c ∷ s) = if strcmp_eq (c ∷ s) (bytes "10.0.0.1") then some 0x100000a else none

abbrev junk : FwRule
junk = record { type = 0; port = 0; ip = 0; mask = 0 }

abbrev parser : Parser
parser = record { port = []; ip = []; mask = []; inp = 7; rules = [] }

abbrev text : Bytes
text = 35 ∷ 10 ∷ 97 ∷ 108 ∷ 108 ∷ 111 ∷ 119 ∷ 32 ∷ 98 ∷ 105 ∷ 110 ∷ 100 ∷ 32 ∷ 56 ∷ 48 ∷ 10 ∷ []

abbrev loaded : Parser
loaded = record parser {
  port = 56 ∷ 48 ∷ [];
  rules = record { type = 1; port = 80; ip = 0; mask = 0 } ∷ [];
}

-- "#\nallow bind 80\n".
text_loads : firewall_init aton junk (some text) parser ≡ done loaded
unfolding firewall_init firewall_parse fgets_from c_string has_prefix strcmp_eq words_from skip
    atoi16 digits_value assign push parse_port parse_bind parse_line parse_lines
text_loads = refl

firewall_init_loads_example :
    All IsKnown (fgets_from 99 [] text)
    × (length loaded.rules ≡ count_rules (fgets_from 99 [] text))
    × IsLoaded aton (fgets_from 99 [] text) [] loaded.rules
firewall_init_loads_example = firewall_init_loads aton junk text parser loaded text_loads
