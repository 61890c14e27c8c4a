-- ===== src/Scan/Score.antt =====
-- packages/shared/src/scoring.ts: the scores of a scan. The arithmetic on fractions is the
-- parameter `round`.
use scan_pal.Common.{
  ℕ, ◌+◌, ◌≤◌, ◌<◌, ◌≡◌, ◌≢◌, refl, Option, none, some, List, [], ◌∷◌, Bool, true, ◌&&◌, not, arith,
  if◌then◌else◌, ◌==◌, length, select, select_idem, Bool-cases, inl, inr,
}
use scan_pal.Scan.Finding.{
  Finding, Category, http, seo, aeo, github, compliance, same_category, is_info,
}
use scan_pal.Scan.Rounding.{Rounding}

abbrev pub is_scored : Finding → Bool
is_scored f = not f.active

abbrev pub is_passed : Finding → Bool
is_passed f = is_info f.severity

abbrev pub in_category : Category → Finding → Bool
in_category c f = same_category f.category c && is_scored f

abbrev pub is_compliance : Finding → Bool
is_compliance f = same_category f.category compliance

abbrev pub is_rest : Finding → Bool
is_rest f = not (is_compliance f)

pub record CategoryScores : Type 0 where
  pub http : Option ℕ
  pub seo : Option ℕ
  pub aeo : Option ℕ
  pub github : Option ℕ
  pub compliance : Option ℕ

abbrev pub IsScore : Option ℕ → Type 0
IsScore none = Unit
IsScore (some s) = s ≤ 100

-- Every finding that counts has passed.
abbrev pub AllPassed : List Finding → Type 0
AllPassed [] = Unit
AllPassed (f ∷ fs) = (is_scored f ≡ true → is_passed f ≡ true) × AllPassed fs

module _ (round : Rounding) where
  unfoldable pub pass_ratio : List Finding → ℕ
  pass_ratio items =
      if length items == 0
      then 0
      else round.percent (length (select is_passed items)) (length items)

  -- One turn of the loop over the categories.
  unfoldable pub category_score : Category → List Finding → Option ℕ
  category_score c findings =
      let relevant = select (in_category c) findings in
      if length relevant == 0
      then none
      else some (round.percent (length (select is_passed relevant)) (length relevant))

  unfoldable pub category_scores_from_findings : List Finding → CategoryScores
  unfolding category_score
  category_scores_from_findings findings = record {
    http = category_score http findings;
    seo = category_score seo findings;
    aeo = category_score aeo findings;
    github = category_score github findings;
    compliance = category_score compliance findings;
  }

  -- The scores of the two groups of relevant findings, combined.
  unfoldable pub combine : (rest compliance : List Finding) → ℕ
  combine rest comp =
      if length comp == 0
      then pass_ratio rest
      else (if length rest == 0
          then pass_ratio comp
          else round.blend (pass_ratio rest) (pass_ratio comp))

  unfoldable pub overall_score_from_findings : List Finding → ℕ
  overall_score_from_findings findings =
      let relevant = select is_scored findings in
      if length relevant == 0
      then 0
      else combine (select is_rest relevant) (select is_compliance relevant)

  pub percent-le : (p n : ℕ) → 0 < n → p ≤ n → round.percent p n ≤ 100
  percent-le p n h l = omega (arith, round.percent_mono p n n h l, round.percent_full n h)

  select-le : (p : Finding → Bool) (fs : List Finding) → length (select p fs) ≤ length fs
  select-le p [] = omega arith
  select-le p (f ∷ fs) = ground (arith, select-le p fs)

  pass_ratio-le : (items : List Finding) → pass_ratio items ≤ 100
  unfolding pass_ratio
  pass_ratio-le items = elim (Bool-cases (length items == 0)) [
    | inl e ↦ rw e (omega arith)
    | inr e ↦ rw e (
        percent-le (length (select is_passed items)) (length items) (ground arith)
          (select-le is_passed items))
  ]

  combine-le : (rest comp : List Finding) → combine rest comp ≤ 100
  unfolding combine
  combine-le rest comp = ground (
    arith,
    pass_ratio-le rest,
    pass_ratio-le comp,
    round.blend_max (pass_ratio rest) (pass_ratio comp),
  )

  category_score-IsScore : (c : Category) (fs : List Finding) → IsScore (category_score c fs)
  unfolding category_score
  category_score-IsScore c fs = elim (Bool-cases (length (select (in_category c) fs) == 0)) [
    | inl e ↦ rw e tt
    | inr e ↦ rw e (
        percent-le (length (select is_passed (select (in_category c) fs)))
          (length (select (in_category c) fs)) (ground arith)
          (select-le is_passed (select (in_category c) fs)))
  ]

  -- The overall score and the score of every category that has one lie between 0 and 100.
  pub scores_bounds :
      (fs : List Finding)
      → (overall_score_from_findings fs ≤ 100) × ((c : Category) → IsScore (category_score c fs))
  unfolding overall_score_from_findings
  scores_bounds fs = (
    ground (
      arith,
      combine-le (select is_rest (select is_scored fs))
          (select is_compliance (select is_scored fs)),
    ),
    λ c. category_score-IsScore c fs,
  )

  select-in_category :
      (c : Category) (fs : List Finding)
      → select (in_category c) (select is_scored fs) ≡ select (in_category c) fs
  select-in_category c [] = refl
  select-in_category c (f ∷ fs) = ground (arith, select-in_category c fs)

  -- The findings of active tests change no score: leaving them out gives the same overall score
  -- and the same score in every category.
  pub scores_ignore_active :
      (fs : List Finding)
      → (overall_score_from_findings (select is_scored fs) ≡ overall_score_from_findings fs)
        × ((c : Category) → category_score c (select is_scored fs) ≡ category_score c fs)
  unfolding overall_score_from_findings category_score
  scores_ignore_active fs = (rw (select_idem is_scored fs), λ c. rw (select-in_category c fs))

  passed-select :
      (p : Finding → Bool) (fs : List Finding)
      → AllPassed fs
      → length (select is_passed (select p (select is_scored fs)))
        ≡ length (select p (select is_scored fs))
  passed-select p [] h = refl
  passed-select p (f ∷ fs) (h, hs) = ground (arith, passed-select p fs hs)

  pass_ratio-full :
      (items : List Finding)
      → length (select is_passed items) ≡ length items
      → length items ≢ 0
      → pass_ratio items ≡ 100
  unfolding pass_ratio
  pass_ratio-full items e n = ground (arith, round.percent_full (length items))

  combine-full :
      (rest comp : List Finding)
      → length (select is_passed rest) ≡ length rest
      → length (select is_passed comp) ≡ length comp
      → 0 < length rest + length comp
      → combine rest comp ≡ 100
  unfolding combine
  combine-full rest comp r c h = ground (
    arith,
    pass_ratio-full rest r,
    pass_ratio-full comp c,
    round.blend_min (pass_ratio rest) (pass_ratio comp),
    round.blend_max (pass_ratio rest) (pass_ratio comp),
  )

  split-length :
      (fs : List Finding)
      → length (select is_rest fs) + length (select is_compliance fs) ≡ length fs
  split-length [] = refl
  split-length (f ∷ fs) = ground (arith, split-length fs)

  -- A scan with findings that count, all of them passed, scores 100.
  pub overall_score-perfect :
      (fs : List Finding)
      → AllPassed fs
      → 0 < length (select is_scored fs)
      → overall_score_from_findings fs ≡ 100
  unfolding overall_score_from_findings
  overall_score-perfect fs h n =
      let e =
        combine-full (select is_rest (select is_scored fs))
          (select is_compliance (select is_scored fs)) (passed-select is_rest fs h)
          (passed-select is_compliance fs h) (omega (arith, split-length (select is_scored fs))) in
      ground arith
