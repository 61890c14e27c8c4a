-- ===== src/Aggregate/Dedupe.antt =====
-- `dedupeLastWins` keeps what the rows do to the table.
use scan_pal.Common.{
  ◌≡◌, refl, sym, ◌∙◌, ap, arith, Option, none, some, List, [], ◌∷◌, ◌++◌, true, false, ◌&&◌, ◌||◌,
  String, str_eq, eq_iff, ◌==◌, if◌then◌else◌, exists, All, Bool-cases, inl, inr,
}
use scan_pal.Scan.Finding.{Category}
use scan_pal.Aggregate.Checks.{
  ScanCheckRow, CheckKey, Checks, same_route, has_key, key_of, merge, upsert_row, upsert_rows,
  has_duplicate, set_row, set_rows, dedupe_last_wins,
}

-- What becomes of the row of one key when rows are upserted in order.
unfoldable pub row_after : CheckKey → List ScanCheckRow → Option ScanCheckRow → Option ScanCheckRow
row_after k [] o = o
row_after k (r ∷ rows) o = row_after k rows (if has_key k r then some (merge r o) else o)

pub upsert_rows-row_after :
    (rows : List ScanCheckRow) (checks : Checks) (k : CheckKey)
    → upsert_rows rows checks k ≡ row_after k rows (checks k)
unfolding upsert_rows upsert_row row_after
upsert_rows-row_after [] checks k = refl
upsert_rows-row_after (r ∷ rows) checks k = upsert_rows-row_after rows (upsert_row r checks) k

row_after-append :
    (k : CheckKey) (xs ys : List ScanCheckRow) (o : Option ScanCheckRow)
    → row_after k (xs ++ ys) o ≡ row_after k ys (row_after k xs o)
unfolding row_after
row_after-append k [] ys o = refl
row_after-append k (x ∷ xs) ys o =
    row_after-append k xs ys (if has_key k x then some (merge x o) else o)

-- No row has the key.
row_after-exists_none :
    (k : CheckKey) (rows : List ScanCheckRow) (o : Option ScanCheckRow)
    → exists (has_key k) rows ≡ false
    → row_after k rows o ≡ o
unfolding row_after
row_after-exists_none k [] o h = refl
row_after-exists_none k (r ∷ rows) o h =
    let miss : has_key k r ≡ false = ground (arith, h) in
    rw miss (row_after-exists_none k rows o (ground (arith, h)))

same_route_eq : (a b : Option String) → same_route a b ≡ true → a ≡ b
same_route_eq none none h = refl
same_route_eq (some a) (some b) h = ap some ((eq_iff a b).0 h)
same_route_eq none (some b) h = cc
same_route_eq (some a) none h = cc

pub has_key-key_of : (k : CheckKey) (r : ScanCheckRow) → has_key k r ≡ true → key_of r ≡ k
unfolding has_key
has_key-key_of k r h =
    let route : r.route_url ≡ k.route_url =
      same_route_eq r.route_url k.route_url (ground (arith, h)) in
    ground (arith, h, route, eq_iff r.check_id k.check_id)

same_route_self : (a : Option String) → same_route a a ≡ true
same_route_self none = refl
same_route_self (some a) = (eq_iff a a).1 refl

has_key_self : (r : ScanCheckRow) → has_key (key_of r) r ≡ true
unfolding has_key
has_key_self r = ground (arith, eq_iff r.check_id r.check_id, same_route_self r.route_url)

-- Rows of one key have each key alike.
has_key_same : (j : CheckKey) (x r : ScanCheckRow) → key_of x ≡ key_of r → has_key j x ≡ has_key j r
unfolding has_key
has_key_same j x r e =
    ap
      (λ (q : CheckKey).
        q.scan_id == j.scan_id
        && (str_eq q.check_id j.check_id && same_route q.route_url j.route_url))
      e

has_key_sym : (x r : ScanCheckRow) → has_key (key_of r) x ≡ false → has_key (key_of x) r ≡ false
has_key_sym x r h = elim (Bool-cases (has_key (key_of x) r)) [
  | inr miss ↦ miss
  | inl hit ↦
      let same : key_of r ≡ key_of x = has_key-key_of (key_of x) r hit in
      absurd (ground (arith, h, has_key_same (key_of r) r x same, has_key_self r))
]

exists-set_row :
    (j : CheckKey) (r : ScanCheckRow) (xs : List ScanCheckRow)
    → exists (has_key j) (set_row r xs) ≡ (has_key j r || exists (has_key j) xs)
unfolding set_row
exists-set_row j r [] = refl
exists-set_row j r (x ∷ xs) = elim (Bool-cases (has_key (key_of r) x)) [
  | inl hit ↦
      let same = has_key_same j x r (has_key-key_of (key_of r) x hit) in
      rw hit (ground (arith, same))
  | inr miss ↦ rw miss (ground (arith, exists-set_row j r xs))
]

has_duplicate-set_row :
    (r : ScanCheckRow) (xs : List ScanCheckRow)
    → has_duplicate xs ≡ false
    → has_duplicate (set_row r xs) ≡ false
unfolding has_duplicate set_row
has_duplicate-set_row r [] h = refl
has_duplicate-set_row r (x ∷ xs) h = elim (Bool-cases (has_key (key_of r) x)) [
  | inl hit ↦ rw (hit, sym (has_key-key_of (key_of r) x hit)) h
  | inr miss ↦ rw miss (
      ground (
        arith,
        h,
        has_key_sym x r miss,
        exists-set_row (key_of x) r xs,
        has_duplicate-set_row r xs,
      ))
]

pub has_duplicate-set_rows :
    (by_key rows : List ScanCheckRow)
    → has_duplicate by_key ≡ false
    → has_duplicate (set_rows by_key rows) ≡ false
unfolding set_rows
has_duplicate-set_rows by_key [] h = h
has_duplicate-set_rows by_key (r ∷ rows) h =
    has_duplicate-set_rows (set_row r by_key) rows (has_duplicate-set_row r by_key h)

module _ (category_of : String → Category) where
  -- The category goes with the check.
  abbrev pub IsFiled : ScanCheckRow → Type 0
  IsFiled r = r.category ≡ category_of r.check_id

  merge-merge :
      (r x : ScanCheckRow) (o : Option ScanCheckRow)
      → key_of x ≡ key_of r
      → IsFiled r
      → IsFiled x
      → merge r (some (merge x o)) ≡ merge r o
  merge-merge r x none e f g =
      let same : x.check_id ≡ r.check_id = ap (λ (k : CheckKey). k.check_id) e in
      let category : x.category ≡ r.category = g ∙ ap category_of same ∙ sym f in
      ap (λ (c : Category). record r { category = c }) category
  merge-merge r x (some old) e f g = refl

  -- The other rows have not the key of the first.
  others_none :
      (k : CheckKey) (x : ScanCheckRow) (xs : List ScanCheckRow)
      → key_of x ≡ k
      → exists (has_key (key_of x)) xs ≡ false
      → (o : Option ScanCheckRow) → row_after k xs o ≡ o
  others_none k x xs e h o =
      row_after-exists_none k xs o (ap (λ j. exists (has_key j) xs) (sym e) ∙ h)

  row_after-set_row :
      (k : CheckKey) (r : ScanCheckRow) (xs : List ScanCheckRow) (o : Option ScanCheckRow)
      → has_duplicate xs ≡ false
      → IsFiled r
      → All IsFiled xs
      → row_after k (set_row r xs) o ≡ row_after k (r ∷ []) (row_after k xs o)
  unfolding set_row row_after has_duplicate
  row_after-set_row k r [] o d f a = refl
  row_after-set_row k r (x ∷ xs) o d f (g, a) = elim (Bool-cases (has_key (key_of r) x)) [
    | inr miss ↦ rw miss (
        row_after-set_row k r xs (if has_key k x then some (merge x o) else o) (ground (arith, d)) f
          a)
    | inl hit ↦
        let same = has_key-key_of (key_of r) x hit in
        let alike = has_key_same k x r same in
        elim (Bool-cases (has_key k r)) [
          | inl mine ↦
              let key : key_of x ≡ k = same ∙ has_key-key_of k r mine in
              let gone = others_none k x xs key (ground (arith, d)) in
              rw (hit, alike, mine)
                (rw (mine, row_after)
                  (gone (some (merge r o))
                    ∙ ap some (sym (merge-merge r x o same f g))
                    ∙ ap (λ q. some (merge r q)) (sym (gone (some (merge x o))))))
          | inr other ↦ rw (hit, alike, other) (rw (other, row_after) refl)
        ]
  ]

  IsFiled-set_row :
      (r : ScanCheckRow) (xs : List ScanCheckRow)
      → IsFiled r
      → All IsFiled xs
      → All IsFiled (set_row r xs)
  unfolding set_row
  IsFiled-set_row r [] f a = (f, tt)
  IsFiled-set_row r (x ∷ xs) f (g, a) = elim (Bool-cases (has_key (key_of r) x)) [
    | inl hit ↦ rw hit (f, a)
    | inr miss ↦ rw miss (g, IsFiled-set_row r xs f a)
  ]

  row_after-set_rows :
      (k : CheckKey) (by_key rows : List ScanCheckRow) (o : Option ScanCheckRow)
      → has_duplicate by_key ≡ false
      → All IsFiled by_key
      → All IsFiled rows
      → row_after k (set_rows by_key rows) o ≡ row_after k rows (row_after k by_key o)
  unfolding set_rows row_after
  row_after-set_rows k by_key [] o d b a = refl
  row_after-set_rows k by_key (r ∷ rows) o d b (f, a) =
      row_after-set_rows k (set_row r by_key) rows o (has_duplicate-set_row r by_key d)
        (IsFiled-set_row r by_key f b) a
      ∙ ap (row_after k rows) (row_after-set_row k r by_key o d f b)

  pub row_after-dedupe_last_wins :
      (k : CheckKey) (rows : List ScanCheckRow) (o : Option ScanCheckRow)
      → All IsFiled rows
      → row_after k (dedupe_last_wins rows) o ≡ row_after k rows o
  unfolding dedupe_last_wins row_after has_duplicate
  row_after-dedupe_last_wins k rows o a = row_after-set_rows k [] rows o refl tt a
