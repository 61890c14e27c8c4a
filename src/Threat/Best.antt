-- ===== src/Threat/Best.antt =====
-- The match that `analyzeThreatHit` gives is the best of those that its rules make.
use scan_pal.Common.{
  ℕ, ◌+◌, ◌-◌, ◌*◌, ◌≤◌, ◌<◌, ◌≡◌, refl, sym, ap, ◌∙◌, arith, Option, none, some, List, [], ◌∷◌,
  Bool, true, false, ◌||◌, ltb, ◌==◌, if◌then◌else◌, exists, All, ◌⊎◌, inl, inr, max, Bool-cases,
}
use scan_pal.Threat.Rules.{
  RuleKey, path_traversal, path_env, path_admin, burst, ip_repeat, ua_scanner, Risk, ThreatRuleRow,
  ThreatEvent, ThreatHit, RuleMatch, rule_rank, risk_rank, risk_of, fires, push, collect, tried,
  better, reduce, reduce_all, analyze_threat_hit,
}

-- A number that orders matches by risk, and then by the order of the rules.
abbrev score : RuleKey → Risk → ℕ
score k risk = 6 * risk_rank risk + (5 - rule_rank k)

abbrev score_of : RuleMatch → ℕ
score_of m = score m.rule_key m.risk

rule_rank_le : (k : RuleKey) → rule_rank k ≤ 5
rule_rank_le path_traversal = omega arith
rule_rank_le path_env = omega arith
rule_rank_le path_admin = omega arith
rule_rank_le burst = omega arith
rule_rank_le ip_repeat = omega arith
rule_rank_le ua_scanner = omega arith

-- The first match is at most as high as the second.
pub IsAtMost : (k : RuleKey) → Risk → RuleMatch → Type 0
IsAtMost k risk m =
    (risk_rank risk < risk_rank m.risk)
    ⊎ ((risk_rank risk ≡ risk_rank m.risk) × (rule_rank m.rule_key ≤ rule_rank k))

score-IsAtMost :
    (k : RuleKey) (risk : Risk) (m : RuleMatch) → score k risk ≤ score_of m → IsAtMost k risk m
unfolding IsAtMost
score-IsAtMost k risk m h = elim (Bool-cases (ltb (risk_rank risk) (risk_rank m.risk))) [
  | inl below ↦ inl (ground arith)
  | inr same ↦
      let a = rule_rank_le k in let b = rule_rank_le m.rule_key in inr (ground arith, ground arith)
]

score-better : (a b : RuleMatch) → score_of (better a b) ≡ max (score_of a) (score_of b)
unfolding better
score-better a b = ground (arith, rule_rank_le a.rule_key, rule_rank_le b.rule_key)

-- What holds of all matches holds of the one that remains.
module _ (P : RuleMatch → Type 0) where
  choose : (c : Bool) {x y : RuleMatch} → P x → P y → P (if c then x else y)
  choose true p q = p
  choose false p q = q

  better-keeps : (a b : RuleMatch) → P a → P b → P (better a b)
  unfolding better
  better-keeps a b p q = choose (ltb (risk_rank a.risk) (risk_rank b.risk)) q (
      choose (risk_rank b.risk == risk_rank a.risk)
        (choose (ltb (rule_rank b.rule_key) (rule_rank a.rule_key)) q p) p)

  reduce-keeps : (m : RuleMatch) (ms : List RuleMatch) → P m → All P ms → P (reduce m ms)
  reduce-keeps m [] p q = p
  reduce-keeps m (x ∷ ms) p (q, qs) = reduce-keeps (better m x) ms (better-keeps m x p q) qs

reduce-first : (m : RuleMatch) (ms : List RuleMatch) → score_of m ≤ score_of (reduce m ms)
reduce-first m [] = omega arith
reduce-first m (x ∷ ms) = omega (arith, score-better m x, reduce-first (better m x) ms)

or_true : (b : Bool) {c : Bool} → c ≡ true → (b || c) ≡ true
or_true true h = refl
or_true false h = h

abbrev key_of : ℕ → RuleKey
key_of n =
    if n == 0
    then path_traversal
    else (if n == 1
        then path_env
        else (if n == 2
            then path_admin
            else (if n == 3 then burst else (if n == 4 then ip_repeat else ua_scanner))))

key_of-rank : (k : RuleKey) → key_of (rule_rank k) ≡ k
key_of-rank path_traversal = refl
key_of-rank path_env = refl
key_of-rank path_admin = refl
key_of-rank burst = refl
key_of-rank ip_repeat = refl
key_of-rank ua_scanner = refl

one_of :
    (s a b t : ℕ) (rest : Bool)
    → rest ≡ false
    → (a == s || (b == s || rest)) ≡ true
    → max a b ≤ t
    → s ≤ t
one_of s a b t rest r h l = ground arith

reduce-all :
    (s : ℕ) (m : RuleMatch) (ms : List RuleMatch)
    → exists (λ x. score_of x == s) (m ∷ ms) ≡ true
    → s ≤ score_of (reduce m ms)
reduce-all s m [] h = ground arith
reduce-all s m (x ∷ ms) h = elim (Bool-cases (exists (λ y. score_of y == s) ms)) [
  | inl rest ↦ reduce-all s (better m x) ms (or_true (score_of (better m x) == s) rest)
  | inr none_rest ↦
      one_of s (score_of m) (score_of x) (score_of (reduce (better m x) ms)) _ none_rest h
        (omega (arith, score-better m x, reduce-first (better m x) ms))
]

-- A match of a rule that fires.
pub IsFiring : (RuleKey → Bool) → List ThreatRuleRow → RuleMatch → Type 0
IsFiring fired rules m = (fired m.rule_key ≡ true) × (risk_of m.rule_key rules ≡ some m.risk)

module _ (fired : RuleKey → Bool) (rules : List ThreatRuleRow) where
  push-IsFiring :
      (b : Bool) (k : RuleKey) (o : Option Risk) (ms : List RuleMatch)
      → fired k ≡ b
      → risk_of k rules ≡ o
      → All (IsFiring fired rules) ms
      → All (IsFiring fired rules) (push b k o ms)
  unfolding IsFiring
  push-IsFiring true k (some risk) ms f e h = ((f, e), h)
  push-IsFiring true k none ms f e h = h
  push-IsFiring false k o ms f e h = h

  collect-IsFiring : (keys : List RuleKey) → All (IsFiring fired rules) (collect fired rules keys)
  unfolding collect
  collect-IsFiring [] = tt
  collect-IsFiring (k ∷ keys) =
      push-IsFiring (fired k) k (risk_of k rules) (collect fired rules keys) refl refl
        (collect-IsFiring keys)

  push-there :
      (s : ℕ) (b : Bool) (k : RuleKey) (o : Option Risk) (ms : List RuleMatch)
      → exists (λ x. score_of x == s) ms ≡ true
      → exists (λ x. score_of x == s) (push b k o ms) ≡ true
  push-there s true k (some risk) ms h = or_true (score k risk == s) h
  push-there s true k none ms h = h
  push-there s false k o ms h = h

  same_rank : (k j : RuleKey) → (rule_rank k == rule_rank j) ≡ true → k ≡ j
  same_rank k j h =
      let rank : rule_rank k ≡ rule_rank j = ground (arith, h) in
      sym (key_of-rank k) ∙ ap key_of rank ∙ key_of-rank j

  -- A rule that fires is among the matches.
  collect-there :
      (k : RuleKey) (risk : Risk) (keys : List RuleKey)
      → exists (λ j. rule_rank j == rule_rank k) keys ≡ true
      → fired k ≡ true
      → risk_of k rules ≡ some risk
      → exists (λ x. score_of x == score k risk) (collect fired rules keys) ≡ true
  unfolding collect
  collect-there k risk [] h f e = absurd (ground (arith, h))
  collect-there k risk (j ∷ keys) h f e = elim (Bool-cases (rule_rank j == rule_rank k)) [
    | inl same ↦ rw (same_rank j k same) (rw (f, e) (ground arith))
    | inr apart ↦
        push-there (score k risk) (fired j) j (risk_of j rules) _
          (collect-there k risk keys (ground (arith, h, apart)) f e)
  ]

  all_tried : (k : RuleKey) → exists (λ j. rule_rank j == rule_rank k) tried ≡ true
  all_tried path_traversal = refl
  all_tried path_env = refl
  all_tried path_admin = refl
  all_tried burst = refl
  all_tried ip_repeat = refl
  all_tried ua_scanner = refl

  -- What `reduce` leaves of matches with a given one among them.
  reduce_all-best :
      (k : RuleKey) (risk : Risk) (ms : List RuleMatch)
      → All (IsFiring fired rules) ms
      → exists (λ x. score_of x == score k risk) ms ≡ true
      → (best : RuleMatch) × (reduce_all ms ≡ some best)
        × IsFiring fired rules best
        × IsAtMost k risk best
  reduce_all-best k risk [] a h = absurd (ground (arith, h))
  reduce_all-best k risk (m ∷ ms) (p, ps) h = (
    reduce m ms,
    refl,
    reduce-keeps (IsFiring fired rules) m ms p ps,
    score-IsAtMost k risk (reduce m ms) (reduce-all (score k risk) m ms h),
  )

-- When an enabled rule fires on a hit, the analysis gives a match: it is of an enabled rule that
-- fires, with the risk of that rule, and the rule that fired has a lower risk, or the same risk
-- and no earlier place in the order of the rules.
pub analyze_threat_hit-best :
    (now honeypot_id : ℕ) (hit : ThreatHit) (events : List ThreatEvent) (rules : List ThreatRuleRow)
    (k : RuleKey) (risk : Risk)
    → fires now honeypot_id hit events k ≡ true
    → risk_of k rules ≡ some risk
    → (best : RuleMatch) × (analyze_threat_hit now honeypot_id hit events rules ≡ some best)
      × IsFiring (fires now honeypot_id hit events) rules best
      × IsAtMost k risk best
unfolding analyze_threat_hit
analyze_threat_hit-best now honeypot_id hit events rules k risk f e =
    let fired = fires now honeypot_id hit events in
    reduce_all-best fired rules k risk (collect fired rules tried)
      (collect-IsFiring fired rules tried)
      (collect-there fired rules k risk tried (all_tried fired rules k) f e)
