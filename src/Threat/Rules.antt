-- ===== src/Threat/Rules.antt =====
-- apps/web/lib/threat-rules.ts: `analyzeThreatHit`. What the four patterns answer about a hit's path
-- and user agent is part of the hit. Addresses are numbers; times are milliseconds.
use scan_pal.Common.{
  ℕ, ◌+◌, ◌*◌, Option, none, some, List, [], ◌∷◌, Bool, true, false, ◌&&◌, ltb, leb, ◌==◌, count,
  if◌then◌else◌,
}

pub data RuleKey : Type 0 where
  path_traversal path_env path_admin burst ip_repeat ua_scanner : RuleKey

pub data Risk : Type 0 where
  low medium high critical : Risk

-- A row of `threat_rules`.
pub record ThreatRuleRow : Type 0 where
  pub rule_key : RuleKey
  pub risk : Risk
  pub enabled : Bool

pub record ThreatEvent : Type 0 where
  pub honeypot_id : ℕ
  pub ip : Option ℕ
  pub created_at : ℕ

pub record ThreatHit : Type 0 where
  pub is_traversal : Bool
  pub is_env : Bool
  pub is_admin : Bool
  pub ip : Option ℕ
  pub is_scanner : Bool  -- there is a user agent, and it is a scanner's

pub record RuleMatch : Type 0 where
  pub rule_key : RuleKey
  pub risk : Risk

-- The position in `RULE_ORDER`.
abbrev pub rule_rank : RuleKey → ℕ
rule_rank path_traversal = 0
rule_rank path_env = 1
rule_rank path_admin = 2
rule_rank burst = 3
rule_rank ip_repeat = 4
rule_rank ua_scanner = 5

abbrev pub risk_rank : Risk → ℕ
risk_rank low = 0
risk_rank medium = 1
risk_rank high = 2
risk_rank critical = 3

-- The map `riskOf` of the enabled rules: the last row of a key counts.
unfoldable pub risk_of : RuleKey → List ThreatRuleRow → Option Risk
risk_of k [] = none
risk_of k (row ∷ rows) =
    let rest = risk_of k rows in
    elim rest [
      | some risk ↦ some risk
      | none ↦ if row.enabled && rule_rank row.rule_key == rule_rank k then some row.risk else none
    ]

-- An event of the honeypot and the address, later than `now` minus the interval.
abbrev pub is_recent : (now honeypot_id ip interval_ms : ℕ) → ThreatEvent → Bool
is_recent now honeypot_id ip interval_ms event =
    event.honeypot_id == honeypot_id
    && ((elim event.ip [ none ↦ false | some other ↦ other == ip ])
        && ltb now (event.created_at + interval_ms))

abbrev pub counts_from :
    (now honeypot_id interval_ms least : ℕ) → Option ℕ → List ThreatEvent → Bool
counts_from now honeypot_id interval_ms least none events = false
counts_from now honeypot_id interval_ms least (some ip) events =
    leb least (count (is_recent now honeypot_id ip interval_ms) events)

-- The condition of each rule, but for its being enabled.
unfoldable pub fires : (now honeypot_id : ℕ) → ThreatHit → List ThreatEvent → RuleKey → Bool
fires now honeypot_id hit events path_traversal = hit.is_traversal
fires now honeypot_id hit events path_env = hit.is_env
fires now honeypot_id hit events path_admin = hit.is_admin
fires now honeypot_id hit events ua_scanner = hit.is_scanner
fires now honeypot_id hit events burst = counts_from now honeypot_id (60 * 1000) 5 hit.ip events
fires now honeypot_id hit events ip_repeat =
    counts_from now honeypot_id (24 * 3600000) 3 hit.ip events

-- `push`, for a rule whose condition holds.
abbrev pub push : Bool → RuleKey → Option Risk → List RuleMatch → List RuleMatch
push true k (some risk) matches = record { rule_key = k; risk = risk } ∷ matches
push _ k _ matches = matches

unfoldable pub collect : (RuleKey → Bool) → List ThreatRuleRow → List RuleKey → List RuleMatch
unfolding risk_of
collect fired rules [] = []
collect fired rules (k ∷ keys) = push (fired k) k (risk_of k rules) (collect fired rules keys)

-- The rules in the order in which the code tries them.
abbrev pub tried : List RuleKey
tried = path_traversal ∷ path_env ∷ path_admin ∷ ua_scanner ∷ burst ∷ ip_repeat ∷ []

-- The function of `reduce`.
unfoldable pub better : RuleMatch → RuleMatch → RuleMatch
better best match =
    if ltb (risk_rank best.risk) (risk_rank match.risk)
    then match
    else (if risk_rank match.risk == risk_rank best.risk
        then (if ltb (rule_rank match.rule_key) (rule_rank best.rule_key) then match else best)
        else best)

abbrev pub reduce : RuleMatch → List RuleMatch → RuleMatch
reduce best [] = best
reduce best (match ∷ matches) = reduce (better best match) matches

abbrev pub reduce_all : List RuleMatch → Option RuleMatch
reduce_all [] = none
reduce_all (match ∷ matches) = some (reduce match matches)

unfoldable pub analyze_threat_hit :
    (now honeypot_id : ℕ) → ThreatHit → List ThreatEvent → List ThreatRuleRow → Option RuleMatch
unfolding fires collect
analyze_threat_hit now honeypot_id hit events rules =
    reduce_all (collect (fires now honeypot_id hit events) rules tried)
