-- ===== src/Firewall/Tests.antt =====
-- Runs of the firewall, and the witnesses of its theorems.
use vmpl_apps.Base.{ℕ, ◌≡◌, ◌↔◌, refl, true, List, [], ◌∷◌}
use vmpl_apps.Firewall.{FwRule, SockaddrIn, firewall_check_connect}
use vmpl_apps.Firewall.Match.{FirstAllows, firewall_check_connect_iff}

-- allow bind 1234; allow connect * 171.0.0.0 255.0.0.0, as in ufw.rules.
abbrev bind_rule : FwRule
bind_rule = record { type = 1; port = 1234; ip = 0; mask = 0 }

abbrev connect_rule : FwRule
connect_rule = record { type = 2; port = 0; ip = 171; mask = 255 }

abbrev rules : List FwRule
rules = connect_rule ∷ bind_rule ∷ []

-- 3.0.0.0 passes for a part of 171.0.0.0/8.
foreign_net_passes : firewall_check_connect rules 80 3 ≡ true
unfolding firewall_check_connect
foreign_net_passes = refl

firewall_check_connect_iff_example :
    (firewall_check_connect rules 80 171 ≡ true) ↔ FirstAllows 80 171 rules
firewall_check_connect_iff_example = firewall_check_connect_iff 80 171 rules

-- Port 80 in network order.
abbrev address : ℕ → SockaddrIn
address a = record { sin_family = 2; sin_port = 0x5000; s_addr = 171 }
