-- ===== src/Scan/Advance.antt =====
-- The progress of a scan (packages/shared/src/scan-progress-math.ts) while checks complete.
use scan_pal.Common.{
  ℕ, suc, ◌+◌, ◌≤◌, ◌<◌, ◌≡◌, refl, arith, Option, none, some, List, [], ◌∷◌, String, ◌==◌, min,
  ◌||◌, leb, Bool-cases, inl, inr,
}
use scan_pal.Scan.Finding.{Category, http, seo, aeo, github, compliance}
use scan_pal.Scan.Rounding.{Rounding}
use scan_pal.Scan.Score.{percent-le}
use scan_pal.Scan.Catalog.{CheckCatalogEntry, check_by_id}
use scan_pal.Scan.Progress.{
  CategoryProgress, ProgressDetails, sum, initial_progress_details, is_done, set_category,
  next_progress, advance_category, advance_entry, advance_progress_details, overall_progress,
}

abbrev pub done_of : Option CategoryProgress → ℕ
done_of none = 0
done_of (some p) = p.done

abbrev pub total_of : Option CategoryProgress → ℕ
total_of none = 0
total_of (some p) = p.total

-- The counters of the scan are the sums of the categories', and no category is past its total.
abbrev pub IsConsistent : ProgressDetails → Type 0
IsConsistent d =
    (d.checks_done ≡ sum (λ c. done_of (d.categories c)))
    × (d.checks_total ≡ sum (λ c. total_of (d.categories c)))
    × ((c : Category) → done_of (d.categories c) ≤ total_of (d.categories c))

sum-set_done :
    (c : Category) (q : CategoryProgress) (m : Category → Option CategoryProgress)
    → q.done ≡ suc (done_of (m c))
    → sum (λ x. done_of (set_category c q m x)) ≡ suc (sum (λ x. done_of (m x)))
sum-set_done http q m h = omega arith
sum-set_done seo q m h = omega arith
sum-set_done aeo q m h = omega arith
sum-set_done github q m h = omega arith
sum-set_done compliance q m h = omega arith

sum-set_total :
    (c : Category) (q : CategoryProgress) (m : Category → Option CategoryProgress)
    → q.total ≡ total_of (m c)
    → sum (λ x. total_of (set_category c q m x)) ≡ sum (λ x. total_of (m x))
sum-set_total http q m h = omega arith
sum-set_total seo q m h = omega arith
sum-set_total aeo q m h = omega arith
sum-set_total github q m h = omega arith
sum-set_total compliance q m h = omega arith

set_category-within :
    (c x : Category) (q : CategoryProgress) (m : Category → Option CategoryProgress)
    → q.done ≤ q.total
    → done_of (m x) ≤ total_of (m x)
    → done_of (set_category c q m x) ≤ total_of (set_category c q m x)
set_category-within c x q m h k = ground arith

sum_mono : (f g : Category → ℕ) → ((c : Category) → f c ≤ g c) → sum f ≤ sum g
sum_mono f g h = omega (arith, h http, h seo, h aeo, h github, h compliance)

module _ (round : Rounding) where
  next-IsConsistent :
      (entry : CheckCatalogEntry) (cat : CategoryProgress) (now : ℕ) (d : ProgressDetails)
      → d.categories entry.category ≡ some cat
      → cat.done < cat.total
      → IsConsistent d
      → IsConsistent (record {
        categories = set_category entry.category (next_progress round entry cat) d.categories;
        checks_done = min (d.checks_done + 1) d.checks_total;
        checks_total = d.checks_total;
        updated_at = now;
      })
  next-IsConsistent entry cat now d e l (a, b, h) =
      let q = next_progress round entry cat in
      let qd : q.done ≡ suc (done_of (d.categories entry.category)) = rw e (omega arith) in
      let qt : q.total ≡ total_of (d.categories entry.category) = rw e refl in
      let s = sum-set_done entry.category q d.categories qd in
      let t = sum-set_total entry.category q d.categories qt in
      let w =
        λ (x : Category). set_category-within entry.category x q d.categories (omega arith) (h x) in
      (
        omega (
          arith,
          s,
          t,
          sum_mono (λ x. done_of (set_category entry.category q d.categories x))
              (λ x. total_of (set_category entry.category q d.categories x)) w,
        ),
        omega (arith, t),
        w,
      )

  category-IsConsistent :
      (entry : CheckCatalogEntry) (o : Option CategoryProgress) (now : ℕ) (d : ProgressDetails)
      → d.categories entry.category ≡ o
      → IsConsistent d
      → IsConsistent (advance_category round entry o now d)
  category-IsConsistent entry none now d e h = h
  category-IsConsistent entry (some cat) now d e h =
      elim (Bool-cases (is_done cat.status || leb cat.total cat.done)) [
        | inl b ↦ rw b h
        | inr b ↦ rw b (next-IsConsistent entry cat now d e (ground arith) h)
      ]

  entry-IsConsistent :
      (o : Option CheckCatalogEntry) (now : ℕ) (d : ProgressDetails)
      → IsConsistent d
      → IsConsistent (advance_entry round o now d)
  entry-IsConsistent none now d h = h
  entry-IsConsistent (some entry) now d h =
      category-IsConsistent entry (d.categories entry.category) now d refl h

  -- The progress after checks completed one after the other, each with its time.
  unfoldable pub advance_all : List (String × ℕ) → ProgressDetails → ProgressDetails
  advance_all [] d = d
  advance_all ((id, now) ∷ events) d = advance_all events (advance_progress_details round d id now)

  advance_all-IsConsistent :
      (events : List (String × ℕ)) (d : ProgressDetails)
      → IsConsistent d
      → IsConsistent (advance_all events d)
  unfolding advance_all advance_progress_details
  advance_all-IsConsistent [] d h = h
  advance_all-IsConsistent ((id, now) ∷ events) d h =
      advance_all-IsConsistent events (advance_progress_details round d id now)
        (entry-IsConsistent (check_by_id id) now d h)

  overall_progress-le : (d : ProgressDetails) → IsConsistent d → overall_progress round d ≤ 100
  unfolding overall_progress
  overall_progress-le d (a, b, h) =
      let l : d.checks_done ≤ d.checks_total = omega (
        arith,
        a,
        b,
        sum_mono (λ c. done_of (d.categories c)) (λ c. total_of (d.categories c)) h,
      ) in
      elim (Bool-cases (d.checks_total == 0)) [
        | inl e ↦ rw e (omega arith)
        | inr e ↦ rw e (percent-le round d.checks_done d.checks_total (ground arith) l)
      ]

  -- Whatever checks complete after the start of a scan, known or not and also more of a category
  -- than its total, the counters of the scan are the sums of the categories', no category is past
  -- its total, and the overall progress is at most 100.
  pub advance_all-initial_progress_details :
      (totals : Category → Option ℕ) (start : ℕ) (events : List (String × ℕ))
      → let d = advance_all events (initial_progress_details totals start) in
        IsConsistent d × (overall_progress round d ≤ 100)
  unfolding initial_progress_details
  advance_all-initial_progress_details totals start events =
      let h =
        advance_all-IsConsistent events (initial_progress_details totals start)
          (refl, refl, λ c. omega arith) in
      (h, overall_progress-le (advance_all events (initial_progress_details totals start)) h)
