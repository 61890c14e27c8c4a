-- ===== src/Scan/Progress.antt =====
-- packages/shared/src/scan-progress.ts and scan-progress-math.ts: the progress of a scan. The
-- numbers of checks per category are naturals, on which `Math.max(0, Math.floor(n))` is `n`.
use scan_pal.Common.{
  ℕ, ◌+◌, Option, none, some, Bool, true, false, ◌||◌, String, if◌then◌else◌, ◌==◌, ltb, leb, min,
}
use scan_pal.Scan.Finding.{Category, same_category}
use scan_pal.Scan.Rounding.{Rounding}
use scan_pal.Scan.Catalog.{CheckCatalogEntry, check_by_id}

pub data CategoryStatus : Type 0 where
  pending running done : CategoryStatus

pub record CategoryProgress : Type 0 where
  pub status : CategoryStatus
  pub done : ℕ
  pub total : ℕ
  pub percent : ℕ
  pub current_check : Option String

pub record ProgressDetails : Type 0 where
  pub categories : Category → Option CategoryProgress
  pub checks_done : ℕ
  pub checks_total : ℕ
  pub updated_at : ℕ

-- The sum of a loop over `scanCategories`.
abbrev pub sum : (Category → ℕ) → ℕ
sum f =
    f Category.http + f Category.seo + f Category.aeo + f Category.github + f Category.compliance

abbrev or_zero : Option ℕ → ℕ
or_zero none = 0
or_zero (some n) = n

unfoldable pub initial_progress_details : (Category → Option ℕ) → ℕ → ProgressDetails
initial_progress_details totals now = record {
  categories = λ c. some (record {
    status = CategoryStatus.pending;
    done = 0;
    total = or_zero (totals c);
    percent = 0;
    current_check = none;
  });
  checks_done = 0;
  checks_total = sum (λ c. or_zero (totals c));
  updated_at = now;
}

abbrev pub is_done : CategoryStatus → Bool
is_done CategoryStatus.done = true
is_done _ = false

-- `{ ...categories, [category]: progress }`.
abbrev pub set_category :
    Category
    → CategoryProgress
    → (Category → Option CategoryProgress)
    → Category
    → Option CategoryProgress
set_category category progress categories c =
    if same_category c category then some progress else categories c

module _ (round : Rounding) where
  -- The progress of the check's category, one check further.
  abbrev pub next_progress : CheckCatalogEntry → CategoryProgress → CategoryProgress
  next_progress entry cat = record {
    status = if leb cat.total (cat.done + 1) then CategoryStatus.done else CategoryStatus.running;
    done = cat.done + 1;
    total = cat.total;
    percent = if ltb 0 cat.total then round.percent (cat.done + 1) cat.total else 100;
    current_check = if leb cat.total (cat.done + 1) then none else some entry.name;
  }

  abbrev pub advance_category :
      CheckCatalogEntry → Option CategoryProgress → ℕ → ProgressDetails → ProgressDetails
  advance_category entry none now current = current
  advance_category entry (some cat) now current =
      if is_done cat.status || leb cat.total cat.done then current else record {
        categories = set_category entry.category (next_progress entry cat) current.categories;
        checks_done = min (current.checks_done + 1) current.checks_total;
        checks_total = current.checks_total;
        updated_at = now;
      }

  abbrev pub advance_entry : Option CheckCatalogEntry → ℕ → ProgressDetails → ProgressDetails
  advance_entry none now current = current
  advance_entry (some entry) now current =
      advance_category entry (current.categories entry.category) now current

  unfoldable pub advance_progress_details : ProgressDetails → String → ℕ → ProgressDetails
  advance_progress_details current id now = advance_entry (check_by_id id) now current

  unfoldable pub overall_progress : ProgressDetails → ℕ
  overall_progress details =
      if details.checks_total == 0
      then 0
      else round.percent details.checks_done details.checks_total
