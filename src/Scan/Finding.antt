-- ===== src/Scan/Finding.antt =====
-- The findings of a scan: packages/shared/src/severity.ts, findings.ts and scan-progress.ts. The
-- evidence and the texts for the reader are left out of a finding: none of the modelled code
-- reads them. Times are milliseconds.
use scan_pal.Common.{ℕ, suc, ◌+◌, ◌≤◌, ◌≡◌, arith, Option, List, [], ◌∷◌, Bool, true, false, String}

pub data Severity : Type 0 where
  critical high medium low info : Severity

pub data Category : Type 0 where
  http seo aeo github compliance : Category

pub data FindingStatus : Type 0 where
  open_ fixed ignored : FindingStatus

-- A time or the text "next-scan"; null is `none` of the option around it.
pub data Snooze : Type 0 where
  until : ℕ → Snooze
  next_scan : Snooze

pub record Finding : Type 0 where
  pub id : String
  pub check_id : String
  pub category : Category
  pub severity : Severity
  pub title : String
  pub active : Bool
  pub status : FindingStatus
  pub note : Option String
  pub route_url : Option String
  pub regressed : Bool
  pub snooze_until : Option Snooze

pub record SeverityCounts : Type 0 where
  pub critical : ℕ
  pub high : ℕ
  pub medium : ℕ
  pub low : ℕ
  pub info : ℕ

unfoldable pub empty_severity_counts : SeverityCounts
empty_severity_counts = record { critical = 0; high = 0; medium = 0; low = 0; info = 0 }

-- `counts[severity] += 1`.
unfoldable pub bump : Severity → SeverityCounts → SeverityCounts
bump critical c = record c { critical = suc c.critical }
bump high c = record c { high = suc c.high }
bump medium c = record c { medium = suc c.medium }
bump low c = record c { low = suc c.low }
bump info c = record c { info = suc c.info }

unfoldable pub count_severities_from : SeverityCounts → List Finding → SeverityCounts
unfolding bump
count_severities_from counts [] = counts
count_severities_from counts (f ∷ fs) = count_severities_from (bump f.severity counts) fs

unfoldable pub count_severities : List Finding → SeverityCounts
unfolding count_severities_from empty_severity_counts
count_severities items = count_severities_from empty_severity_counts items

abbrev pub total : SeverityCounts → ℕ
total c = c.critical + c.high + c.medium + c.low + c.info

abbrev pub get : Severity → SeverityCounts → ℕ
get critical c = c.critical
get high c = c.high
get medium c = c.medium
get low c = c.low
get info c = c.info

abbrev pub is_info : Severity → Bool
is_info info = true
is_info _ = false

abbrev pub is_open : FindingStatus → Bool
is_open open_ = true
is_open _ = false

abbrev pub same_category : Category → Category → Bool
same_category http http = true
same_category seo seo = true
same_category aeo aeo = true
same_category github github = true
same_category compliance compliance = true
same_category _ _ = false

pub total-bump : (s : Severity) (c : SeverityCounts) → total (bump s c) ≡ suc (total c)
unfolding bump
total-bump s c = ground arith

pub get-bump : (r s : Severity) (c : SeverityCounts) → get r c ≤ get r (bump s c)
unfolding bump
get-bump r s c = ground arith
