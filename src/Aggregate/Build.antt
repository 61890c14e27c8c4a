-- ===== src/Aggregate/Build.antt =====
-- packages/scan-core/src/build-findings.ts: the findings of a scan from the rows of its checks, the most
-- severe first. `Array.prototype.sort` is stable: an insertion sort.
use scan_pal.Common.{
  ℕ, ◌≤◌, ◌≡◌, refl, ap, ◌∙◌, arith, List, [], ◌∷◌, ◌++◌, Bool, leb, ◌==◌, if◌then◌else◌, select,
  Bool-cases, inl, inr, All,
}
use scan_pal.Scan.Finding.{Finding}
use scan_pal.Scan.Diff.{severity_rank}
use scan_pal.Aggregate.Checks.{
  Candidate, valid, invalid, CheckFinding, absent, single, several, ScanCheckRow,
}

abbrev pub candidates_of : CheckFinding → List Candidate
candidates_of absent = []
candidates_of (single c) = c ∷ []
candidates_of (several cs) = cs

-- `findingSchema.safeParse` for each candidate, in front of the items that follow.
unfoldable pub push_valid : List Candidate → List Finding → List Finding
push_valid [] items = items
push_valid (valid f ∷ cs) items = f ∷ push_valid cs items
push_valid (invalid ∷ cs) items = push_valid cs items

unfoldable pub collect_items : List ScanCheckRow → List Finding
unfolding push_valid
collect_items [] = []
collect_items (row ∷ rows) = push_valid (candidates_of row.finding) (collect_items rows)

-- In front of the first item that is not more severe.
unfoldable pub insert_item : Finding → List Finding → List Finding
insert_item f [] = f ∷ []
insert_item f (g ∷ items) =
    if leb (severity_rank g.severity) (severity_rank f.severity)
    then f ∷ g ∷ items
    else g ∷ insert_item f items

unfoldable pub sort_items : List Finding → List Finding
unfolding insert_item
sort_items [] = []
sort_items (f ∷ items) = insert_item f (sort_items items)

unfoldable pub build_findings_from_checks : List ScanCheckRow → List Finding
unfolding collect_items sort_items
build_findings_from_checks rows = sort_items (collect_items rows)

-- The findings that are valid, in their order.
abbrev valid_ones : List Candidate → List Finding
valid_ones [] = []
valid_ones (valid f ∷ cs) = f ∷ valid_ones cs
valid_ones (invalid ∷ cs) = valid_ones cs

-- What the column of one row holds of valid findings: none, the one, or those of the array.
abbrev findings_in : CheckFinding → List Finding
findings_in absent = []
findings_in (single (valid f)) = f ∷ []
findings_in (single invalid) = []
findings_in (several cs) = valid_ones cs

abbrev pub listed : List ScanCheckRow → List Finding
listed [] = []
listed (row ∷ rows) = findings_in row.finding ++ listed rows

push_valid-append :
    (cs : List Candidate) (items : List Finding) → push_valid cs items ≡ valid_ones cs ++ items
unfolding push_valid
push_valid-append [] items = refl
push_valid-append (valid f ∷ cs) items = ap (λ fs. f ∷ fs) (push_valid-append cs items)
push_valid-append (invalid ∷ cs) items = push_valid-append cs items

push_valid-findings_in :
    (o : CheckFinding) (items : List Finding)
    → push_valid (candidates_of o) items ≡ findings_in o ++ items
unfolding push_valid
push_valid-findings_in absent items = refl
push_valid-findings_in (single (valid f)) items = refl
push_valid-findings_in (single invalid) items = refl
push_valid-findings_in (several cs) items = push_valid-append cs items

collect_items-listed : (rows : List ScanCheckRow) → collect_items rows ≡ listed rows
unfolding collect_items
collect_items-listed [] = refl
collect_items-listed (row ∷ rows) =
    push_valid-findings_in row.finding (collect_items rows)
    ∙ ap (λ fs. findings_in row.finding ++ fs) (collect_items-listed rows)

-- No item is more severe than the one before it.
abbrev pub IsSorted : List Finding → Type 0
IsSorted [] = Unit
IsSorted (f ∷ items) =
    All (λ (g : Finding). severity_rank g.severity ≤ severity_rank f.severity) items
    × IsSorted items

abbrev pub has_rank : ℕ → Finding → Bool
has_rank rank f = severity_rank f.severity == rank

All-insert_item :
    (n : ℕ) (f : Finding) (items : List Finding)
    → severity_rank f.severity ≤ n
    → All (λ (g : Finding). severity_rank g.severity ≤ n) items
    → All (λ (g : Finding). severity_rank g.severity ≤ n) (insert_item f items)
unfolding insert_item
All-insert_item n f [] h a = (h, tt)
All-insert_item n f (g ∷ items) h (b, a) =
    elim (Bool-cases (leb (severity_rank g.severity) (severity_rank f.severity))) [
      | inl here ↦ rw here (h, (b, a))
      | inr further ↦ rw further (b, All-insert_item n f items h a)
    ]

All-le_trans :
    (m n : ℕ) (items : List Finding)
    → m ≤ n
    → All (λ (g : Finding). severity_rank g.severity ≤ m) items
    → All (λ (g : Finding). severity_rank g.severity ≤ n) items
All-le_trans m n [] h a = tt
All-le_trans m n (g ∷ items) h (b, a) = (omega arith, All-le_trans m n items h a)

insert_item-IsSorted :
    (f : Finding) (items : List Finding) → IsSorted items → IsSorted (insert_item f items)
unfolding insert_item
insert_item-IsSorted f [] s = (tt, tt)
insert_item-IsSorted f (g ∷ items) (a, s) =
    elim (Bool-cases (leb (severity_rank g.severity) (severity_rank f.severity))) [
      | inl here ↦
          let le : severity_rank g.severity ≤ severity_rank f.severity = ground (arith, here) in
          rw here ((le, All-le_trans _ _ items le a), (a, s))
      | inr further ↦
          let le : severity_rank f.severity ≤ severity_rank g.severity = ground (arith, further) in
          rw further (
            All-insert_item (severity_rank g.severity) f items le a,
            insert_item-IsSorted f items s,
          )
    ]

sort_items-IsSorted : (items : List Finding) → IsSorted (sort_items items)
unfolding sort_items
sort_items-IsSorted [] = tt
sort_items-IsSorted (f ∷ items) =
    insert_item-IsSorted f (sort_items items) (sort_items-IsSorted items)

select-insert_item :
    (rank : ℕ) (f : Finding) (items : List Finding)
    → select (has_rank rank) (insert_item f items) ≡ select (has_rank rank) (f ∷ items)
unfolding insert_item
select-insert_item rank f [] = refl
select-insert_item rank f (g ∷ items) =
    elim (Bool-cases (leb (severity_rank g.severity) (severity_rank f.severity))) [
      | inl here ↦ rw here refl
      | inr further ↦ rw further (ground (arith, further, select-insert_item rank f items))
    ]

select-sort_items :
    (rank : ℕ) (items : List Finding)
    → select (has_rank rank) (sort_items items) ≡ select (has_rank rank) items
unfolding sort_items
select-sort_items rank [] = refl
select-sort_items rank (f ∷ items) =
    ground (arith, select-insert_item rank f (sort_items items), select-sort_items rank items)

-- The findings built from any rows are sorted with the most severe first, and for every rank of
-- severity they are the valid findings of the rows with that rank, in the order of the rows.
pub build_findings_from_checks-IsSorted :
    (rows : List ScanCheckRow)
    → IsSorted (build_findings_from_checks rows)
      × ((rank : ℕ)
          → select (has_rank rank) (build_findings_from_checks rows)
            ≡ select (has_rank rank) (listed rows))
unfolding build_findings_from_checks
build_findings_from_checks-IsSorted rows = (
  sort_items-IsSorted (collect_items rows),
  λ rank.
      select-sort_items rank (collect_items rows)
      ∙ ap (select (has_rank rank)) (collect_items-listed rows),
)
