-- ===== src/Threat/Tests.antt =====
-- A hit on a path outside the root, from an address that comes back.
use scan_pal.Common.{◌≡◌, refl, some, List, [], ◌∷◌, true, false}
use scan_pal.Threat.Rules.{
  path_traversal, ip_repeat, ua_scanner, high, medium, low, ThreatRuleRow, ThreatEvent, ThreatHit,
  RuleMatch, risk_of, fires, collect, better, analyze_threat_hit,
}
use scan_pal.Threat.Best.{IsAtMost, IsFiring, analyze_threat_hit-best}

abbrev rules : List ThreatRuleRow
rules =
    record { rule_key = ip_repeat; risk = medium; enabled = true }
    ∷ record { rule_key = path_traversal; risk = high; enabled = true }
    ∷ record { rule_key = ua_scanner; risk = low; enabled = false }
    ∷ []

abbrev event : ThreatEvent
event = record { honeypot_id = 1; ip = some 9; created_at = 1000 }

abbrev events : List ThreatEvent
events = event ∷ event ∷ event ∷ []

abbrev hit : ThreatHit
hit = record {
  is_traversal = true;
  is_env = false;
  is_admin = false;
  ip = some 9;
  is_scanner = true;
}

analyze_threat_hit_traversal :
    analyze_threat_hit 2000 1 hit events rules
    ≡ some (record { rule_key = path_traversal; risk = high })
unfolding analyze_threat_hit collect fires risk_of better
analyze_threat_hit_traversal = refl

analyze_threat_hit-best_example :
    (best : RuleMatch) × (analyze_threat_hit 2000 1 hit events rules ≡ some best)
    × IsFiring (fires 2000 1 hit events) rules best
    × IsAtMost ip_repeat medium best
unfolding fires risk_of
analyze_threat_hit-best_example =
    analyze_threat_hit-best 2000 1 hit events rules ip_repeat medium refl refl
