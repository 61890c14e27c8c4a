-- ===== src/Aggregate/Bulk.antt =====
-- The bulk write of the checks, in statements of at most five hundred rows, against the upserts one by
-- one.
use scan_pal.Common.{
  ℕ, zero, suc, ◌-◌, ◌≤◌, ◌≡◌, refl, sym, ◌∙◌, ap, arith, Option, none, some, List, [], ◌∷◌, ◌++◌,
  Bool, true, false, not, String, if◌then◌else◌, length, take, select, exists, All, Bool-cases, inl,
  inr,
}
use scan_pal.Scan.Finding.{Category}
use scan_pal.Aggregate.Checks.{
  ScanCheckRow, CheckKey, Checks, has_key, key_of, merge, upsert_row, upsert_rows, has_duplicate,
  insert_chunk, set_rows, dedupe_last_wins, drop, insert_chunks, insert_group, is_routed,
  upsert_checks, chunk_size,
}
use scan_pal.Aggregate.Dedupe.{
  row_after, upsert_rows-row_after, has_key-key_of, has_duplicate-set_rows, IsFiled,
  row_after-dedupe_last_wins,
}

take-drop : (n : ℕ) (rows : List ScanCheckRow) → take n rows ++ drop n rows ≡ rows
unfolding drop
take-drop zero rows = refl
take-drop (suc n) [] = refl
take-drop (suc n) (r ∷ rows) = ap (λ xs. r ∷ xs) (take-drop n rows)

length-drop : (n : ℕ) (rows : List ScanCheckRow) → length (drop n rows) ≡ length rows - n
unfolding drop
length-drop zero rows = omega arith
length-drop (suc n) [] = omega arith
length-drop (suc n) (r ∷ rows) = omega (arith, length-drop n rows)

exists-take :
    (p : ScanCheckRow → Bool) (n : ℕ) (rows : List ScanCheckRow)
    → exists p rows ≡ false
    → (exists p (take n rows) ≡ false) × (exists p (drop n rows) ≡ false)
unfolding drop
exists-take p zero rows h = (refl, h)
exists-take p (suc n) [] h = (refl, refl)
exists-take p (suc n) (r ∷ rows) h = ground (arith, exists-take p n rows)

has_duplicate-take :
    (n : ℕ) (rows : List ScanCheckRow)
    → has_duplicate rows ≡ false
    → (has_duplicate (take n rows) ≡ false) × (has_duplicate (drop n rows) ≡ false)
unfolding has_duplicate drop
has_duplicate-take zero rows h = (refl, h)
has_duplicate-take (suc n) [] h = (refl, refl)
has_duplicate-take (suc n) (r ∷ rows) h =
    ground (arith, has_duplicate-take n rows, exists-take (has_key (key_of r)) n rows)

upsert_rows-append :
    (xs ys : List ScanCheckRow) (checks : Checks)
    → upsert_rows (xs ++ ys) checks ≡ upsert_rows ys (upsert_rows xs checks)
unfolding upsert_rows
upsert_rows-append [] ys checks = refl
upsert_rows-append (x ∷ xs) ys checks = upsert_rows-append xs ys (upsert_row x checks)

insert_chunk-upsert_rows :
    (rows : List ScanCheckRow) (checks : Checks)
    → has_duplicate rows ≡ false
    → insert_chunk rows checks ≡ some (upsert_rows rows checks)
unfolding insert_chunk
insert_chunk-upsert_rows rows checks d = rw d refl

-- The statements do not fail, and together upsert the rows in order.
insert_chunks-upsert_rows :
    (left size : ℕ) (rows : List ScanCheckRow) (checks : Checks)
    → 1 ≤ size
    → length rows ≤ left
    → has_duplicate rows ≡ false
    → insert_chunks left size rows checks ≡ some (upsert_rows rows checks)
unfolding insert_chunks upsert_rows
insert_chunks-upsert_rows zero size [] checks one l d = refl
insert_chunks-upsert_rows zero size (r ∷ rows) checks one l d = absurd (omega arith)
insert_chunks-upsert_rows (suc left) size [] checks one l d = refl
insert_chunks-upsert_rows (suc left) size (r ∷ rows) checks one l d =
    let all = r ∷ rows in
    let cut = has_duplicate-take size all d in
    let shorter : length (drop size all) ≤ left = omega (arith, length-drop size all) in
    rw (insert_chunk-upsert_rows (take size all) checks cut.0, insert_chunks)
      (insert_chunks-upsert_rows left size (drop size all) (upsert_rows (take size all) checks) one
          shorter cut.1
        ∙ ap some (
            sym (upsert_rows-append (take size all) (drop size all) checks)
            ∙ ap (λ xs. upsert_rows xs checks) (take-drop size all)))

insert_group-upsert_rows :
    (rows : List ScanCheckRow) (checks : Checks)
    → insert_group rows checks ≡ some (upsert_rows (dedupe_last_wins rows) checks)
unfolding insert_group dedupe_last_wins has_duplicate
insert_group-upsert_rows rows checks =
    insert_chunks-upsert_rows (length (set_rows [] rows)) chunk_size (set_rows [] rows) checks
      (omega arith) (omega arith) (has_duplicate-set_rows [] rows refl)

-- A group of rows, of which the others have not the key.
row_after-select :
    (k : CheckKey) (p : ScanCheckRow → Bool) (rows : List ScanCheckRow) (o : Option ScanCheckRow)
    → ((r : ScanCheckRow) → has_key k r ≡ true → p r ≡ true)
    → row_after k (select p rows) o ≡ row_after k rows o
unfolding row_after
row_after-select k p [] o h = refl
row_after-select k p (r ∷ rows) o h = elim (Bool-cases (p r)) [
  | inl yes_p ↦ rw yes_p (row_after-select k p rows (if has_key k r then some (merge r o) else o) h)
  | inr no_p ↦
      let miss : has_key k r ≡ false = ground (arith, h r) in
      rw (no_p, miss) (row_after-select k p rows o h)
]

row_after-select_none :
    (k : CheckKey) (p : ScanCheckRow → Bool) (rows : List ScanCheckRow) (o : Option ScanCheckRow)
    → ((r : ScanCheckRow) → has_key k r ≡ true → p r ≡ false)
    → row_after k (select p rows) o ≡ o
unfolding row_after
row_after-select_none k p [] o h = refl
row_after-select_none k p (r ∷ rows) o h = elim (Bool-cases (p r)) [
  | inl yes_p ↦
      let miss : has_key k r ≡ false = ground (arith, h r) in
      rw yes_p (rw (miss, row_after) (row_after-select_none k p rows o h))
  | inr no_p ↦ rw no_p (row_after-select_none k p rows o h)
]

has_route : Option String → Bool
has_route none = false
has_route (some _) = true

routed :
    (k : CheckKey) (r : ScanCheckRow) → has_key k r ≡ true → is_routed r ≡ has_route k.route_url
unfolding has_route
routed k r h = ap (λ (q : CheckKey). has_route q.route_url) (has_key-key_of k r h)

-- The two groups, one after the other.
row_after-groups :
    (k : CheckKey) (rows : List ScanCheckRow) (o : Option ScanCheckRow)
    → row_after k (select (λ r. not (is_routed r)) rows) (row_after k (select is_routed rows) o)
      ≡ row_after k rows o
row_after-groups k rows o = elim (Bool-cases (has_route k.route_url)) [
  | inl route ↦
      row_after-select_none k (λ r. not (is_routed r)) rows (row_after k (select is_routed rows) o)
        (λ r h. rw (routed k r h, route) refl)
      ∙ row_after-select k is_routed rows o (λ r h. rw (routed k r h, route) refl)
  | inr site ↦
      row_after-select k (λ r. not (is_routed r)) rows (row_after k (select is_routed rows) o)
        (λ r h. rw (routed k r h, site) refl)
      ∙ ap (row_after k rows)
          (row_after-select_none k is_routed rows o (λ r h. rw (routed k r h, site) refl))
]

IsFiled-select :
    (category_of : String → Category) (p : ScanCheckRow → Bool) (rows : List ScanCheckRow)
    → All (IsFiled category_of) rows
    → All (IsFiled category_of) (select p rows)
IsFiled-select category_of p [] a = tt
IsFiled-select category_of p (r ∷ rows) (f, a) = elim (Bool-cases (p r)) [
  | inl yes_p ↦ rw yes_p (f, IsFiled-select category_of p rows a)
  | inr no_p ↦ rw no_p (IsFiled-select category_of p rows a)
]

-- When the category of every row is that of its check, the bulk write succeeds, so no statement
-- names a row twice, and leaves each key with what writing the rows one by one would leave.
pub upsert_checks-upsert_rows :
    (category_of : String → Category) (rows : List ScanCheckRow) (checks : Checks)
    → All (IsFiled category_of) rows
    → (stored : Checks) × (upsert_checks rows checks ≡ some stored)
      × ((k : CheckKey) → stored k ≡ upsert_rows rows checks k)
unfolding upsert_checks
upsert_checks-upsert_rows category_of rows checks a =
    let first = dedupe_last_wins (select is_routed rows) in
    let second = dedupe_last_wins (select (λ r. not (is_routed r)) rows) in
    (
      upsert_rows second (upsert_rows first checks),
      rw (insert_group-upsert_rows (select is_routed rows) checks, upsert_checks)
          (insert_group-upsert_rows (select (λ r. not (is_routed r)) rows)
            (upsert_rows first checks)),
      λ k.
          upsert_rows-row_after second (upsert_rows first checks) k
          ∙ ap (row_after k second) (upsert_rows-row_after first checks k)
          ∙ row_after-dedupe_last_wins category_of k (select (λ r. not (is_routed r)) rows) _
              (IsFiled-select category_of (λ r. not (is_routed r)) rows a)
          ∙ ap (row_after k (select (λ r. not (is_routed r)) rows)) (
              row_after-dedupe_last_wins category_of k (select is_routed rows) (checks k)
                (IsFiled-select category_of is_routed rows a))
          ∙ row_after-groups k rows (checks k)
          ∙ sym (upsert_rows-row_after rows checks k),
    )
