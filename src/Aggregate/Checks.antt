-- ===== src/Aggregate/Checks.antt =====
-- packages/scan-core/src/checks.ts and `upsertDerivedFinding` of crux.ts: the table `checks`, a function
-- of its key. The text that the code makes of a key is the key itself: ids hold no spaces.
-- `completed_at` is left out: nothing of the modelled code reads it.
use scan_pal.Common.{
  ℕ, zero, suc, Option, none, some, List, [], ◌∷◌, Bool, true, false, ◌&&◌, ◌||◌, not, String,
  str_eq, ◌==◌, if◌then◌else◌, length, take, select, exists,
}
use scan_pal.Scan.Finding.{Finding, Category, Severity, critical, high, info}

-- A value that `findingSchema` accepts, or another.
pub data Candidate : Type 0 where
  valid : Finding → Candidate
  invalid : Candidate

-- The column `finding`: null, one object, or an array of them.
pub data CheckFinding : Type 0 where
  absent : CheckFinding
  single : Candidate → CheckFinding
  several : List Candidate → CheckFinding

pub record ScanCheckRow : Type 0 where
  pub scan_id : ℕ
  pub check_id : String
  pub category : Category
  pub status : String
  pub severity : Option Severity
  pub finding : CheckFinding
  pub route_url : Option String

-- The two conflict targets together: a row without a route has the key of its site-level index.
pub record CheckKey : Type 0 where
  pub scan_id : ℕ
  pub check_id : String
  pub route_url : Option String

abbrev pub Checks : Type 0
Checks = CheckKey → Option ScanCheckRow

abbrev pub same_route : Option String → Option String → Bool
same_route none none = true
same_route (some a) (some b) = str_eq a b
same_route _ _ = false

-- The row has this key.
unfoldable pub has_key : CheckKey → ScanCheckRow → Bool
has_key k r =
    r.scan_id == k.scan_id && (str_eq r.check_id k.check_id && same_route r.route_url k.route_url)

abbrev pub key_of : ScanCheckRow → CheckKey
key_of r = record { scan_id = r.scan_id; check_id = r.check_id; route_url = r.route_url }

-- `do update set`, which leaves the category of the row that is there.
abbrev pub merge : ScanCheckRow → Option ScanCheckRow → ScanCheckRow
merge r none = r
merge r (some old) = record r { category = old.category }

-- `insert ... on conflict do update` of one row.
unfoldable pub upsert_row : ScanCheckRow → Checks → Checks
upsert_row r checks k = if has_key k r then some (merge r (checks k)) else checks k

unfoldable pub upsert_rows : List ScanCheckRow → Checks → Checks
upsert_rows [] checks = checks
upsert_rows (r ∷ rows) checks = upsert_rows rows (upsert_row r checks)

unfoldable pub has_duplicate : List ScanCheckRow → Bool
has_duplicate [] = false
has_duplicate (r ∷ rows) = exists (has_key (key_of r)) rows || has_duplicate rows

-- One statement of many rows. PostgreSQL refuses a statement that names a row twice: `none`.
unfoldable pub insert_chunk : List ScanCheckRow → Checks → Option Checks
unfolding has_duplicate upsert_rows
insert_chunk rows checks = if has_duplicate rows then none else some (upsert_rows rows checks)

-- `byKey.set(keyFn(r), r)`: a key keeps its place.
unfoldable pub set_row : ScanCheckRow → List ScanCheckRow → List ScanCheckRow
set_row r [] = r ∷ []
set_row r (x ∷ xs) = if has_key (key_of r) x then r ∷ xs else x ∷ set_row r xs

unfoldable pub set_rows : List ScanCheckRow → List ScanCheckRow → List ScanCheckRow
set_rows by_key [] = by_key
set_rows by_key (r ∷ rows) = set_rows (set_row r by_key) rows

unfoldable pub dedupe_last_wins : List ScanCheckRow → List ScanCheckRow
unfolding set_rows
dedupe_last_wins rows = set_rows [] rows

abbrev pub chunk_size : ℕ
chunk_size = 500

unfoldable pub drop : ℕ → List ScanCheckRow → List ScanCheckRow
drop zero rows = rows
drop (suc n) [] = []
drop (suc n) (r ∷ rows) = drop n rows

-- The loop over the chunks; `left` is at least the number of chunks that are left.
unfoldable pub insert_chunks : (left size : ℕ) → List ScanCheckRow → Checks → Option Checks
insert_chunks zero size rows checks = elim rows [ [] ↦ some checks | _ ∷ _ ↦ none ]
insert_chunks (suc left) size [] checks = some checks
insert_chunks (suc left) size (r ∷ rows) checks =
    elim (insert_chunk (take size (r ∷ rows)) checks) [
      | none ↦ none
      | some checks' ↦ insert_chunks left size (drop size (r ∷ rows)) checks'
    ]

unfoldable pub insert_group : List ScanCheckRow → Checks → Option Checks
unfolding dedupe_last_wins insert_chunks
insert_group rows checks =
    let unique = dedupe_last_wins rows in insert_chunks (length unique) chunk_size unique checks

abbrev pub is_routed : ScanCheckRow → Bool
is_routed r = elim r.route_url [ none ↦ false | some _ ↦ true ]

unfoldable pub upsert_checks : List ScanCheckRow → Checks → Option Checks
unfolding insert_group
upsert_checks rows checks = elim (insert_group (select is_routed rows) checks) [
  | none ↦ none
  | some checks' ↦ insert_group (select (λ r. not (is_routed r)) rows) checks'
]

-- `pass`, `warn` or `fail`.
abbrev pub status_of : Severity → String
status_of critical = "fail"
status_of high = "fail"
status_of info = "pass"
status_of _ = "warn"

unfoldable pub upsert_derived_finding : (scan_id : ℕ) → Finding → Checks → Checks
upsert_derived_finding scan_id f checks =
    upsert_row
      (record {
        scan_id = scan_id;
        check_id = f.check_id;
        category = f.category;
        status = status_of f.severity;
        severity = some f.severity;
        finding = single (valid f);
        route_url = none;
      })
      checks
