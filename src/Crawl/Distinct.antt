-- ===== src/Crawl/Distinct.antt =====
-- The lists of routes name no URL twice and lose none.
use scan_pal.Common.{
  ℕ, zero, suc, ◌≡◌, refl, sym, ap, ◌∙◌, arith, List, [], ◌∷◌, ◌++◌, Bool, true, false, ◌||◌,
  String, str_eq, eq_iff, take, select, exists, exists-append, exists-last, map, Bool-cases, inl,
  inr,
}
use mathlib.Core.List.{append-nil, append_assoc}
use scan_pal.Crawl.Routes.{
  RouteSource, sitemap, link, spa, seed, ScanRoute, has_url, insert_routes, inserted_row,
  push_route, push_routes, Sources, home_of, ordered_routes,
}

-- No URL stands twice.
abbrev pub IsDistinct : List ScanRoute → Type 0
IsDistinct [] = Unit
IsDistinct (r ∷ rows) = (exists (has_url r.url) rows ≡ false) × IsDistinct rows

str_eq_sym : (a b : String) → str_eq a b ≡ true → str_eq b a ≡ true
str_eq_sym a b h = (eq_iff b a).1 (sym ((eq_iff a b).0 h))

IsDistinct-snoc :
    (rows : List ScanRoute) (r : ScanRoute)
    → IsDistinct rows
    → exists (has_url r.url) rows ≡ false
    → IsDistinct (rows ++ r ∷ [])
IsDistinct-snoc [] r d h = (refl, tt)
IsDistinct-snoc (x ∷ rows) r (e, d) h =
    let differ : str_eq r.url x.url ≡ false = ground (arith, h, str_eq_sym r.url x.url) in
    (
      exists-append (has_url x.url) rows (r ∷ []) ∙ rw (e, differ) refl,
      IsDistinct-snoc rows r d (ground (arith, h)),
    )

push_route-IsDistinct :
    (source : RouteSource) (url : String) (rows : List ScanRoute)
    → IsDistinct rows
    → IsDistinct (push_route source url rows)
unfolding push_route
push_route-IsDistinct source url rows d =
    elim (Bool-cases (str_eq url "" || exists (has_url url) rows)) [
      | inl known ↦ rw known d
      | inr fresh ↦ rw fresh (IsDistinct-snoc rows _ d (ground (arith, fresh)))
    ]

push_routes-IsDistinct :
    (source : RouteSource) (urls : List String) (rows : List ScanRoute)
    → IsDistinct rows
    → IsDistinct (push_routes source urls rows)
unfolding push_routes
push_routes-IsDistinct source [] rows d = d
push_routes-IsDistinct source (url ∷ urls) rows d =
    push_routes-IsDistinct source urls (push_route source url rows)
      (push_route-IsDistinct source url rows d)

pub ordered_routes-IsDistinct : (s : Sources) → IsDistinct (ordered_routes s)
unfolding ordered_routes
ordered_routes-IsDistinct s = push_routes-IsDistinct link s.link_routes _ (
    push_routes-IsDistinct spa s.spa_routes _ (
      push_routes-IsDistinct sitemap s.sitemap_routes _
        (push_routes-IsDistinct seed (home_of s) [] tt)))

exists-take :
    (p : ScanRoute → Bool) (n : ℕ) (rows : List ScanRoute)
    → exists p rows ≡ false
    → exists p (take n rows) ≡ false
exists-take p zero rows h = refl
exists-take p (suc n) [] h = refl
exists-take p (suc n) (x ∷ rows) h = ground (arith, h, exists-take p n rows)

exists-select :
    (p q : ScanRoute → Bool) (rows : List ScanRoute)
    → exists p rows ≡ false
    → exists p (select q rows) ≡ false
exists-select p q [] h = refl
exists-select p q (x ∷ rows) h = ground (arith, h, exists-select p q rows)

pub IsDistinct-take : (n : ℕ) (rows : List ScanRoute) → IsDistinct rows → IsDistinct (take n rows)
IsDistinct-take zero rows d = tt
IsDistinct-take (suc n) [] d = tt
IsDistinct-take (suc n) (x ∷ rows) (e, d) =
    (exists-take (has_url x.url) n rows e, IsDistinct-take n rows d)

pub IsDistinct-select :
    (q : ScanRoute → Bool) (rows : List ScanRoute) → IsDistinct rows → IsDistinct (select q rows)
IsDistinct-select q [] d = tt
IsDistinct-select q (x ∷ rows) (e, d) = elim (Bool-cases (q x)) [
  | inl kept ↦ rw kept (exists-select (has_url x.url) q rows e, IsDistinct-select q rows d)
  | inr gone ↦ rw gone (IsDistinct-select q rows d)
]

-- The table `rows`, behind what `table` holds already, names no URL twice.
abbrev IsFresh : (table rows : List ScanRoute) → Type 0
IsFresh table [] = Unit
IsFresh table (r ∷ rows) = (exists (has_url r.url) table ≡ false) × IsFresh table rows

IsFresh-snoc :
    (table rows : List ScanRoute) (x : ScanRoute)
    → exists (has_url x.url) rows ≡ false
    → IsFresh table rows
    → IsFresh (table ++ x ∷ []) rows
IsFresh-snoc table [] x e f = tt
IsFresh-snoc table (r ∷ rows) x e (g, f) =
    let differ : str_eq x.url r.url ≡ false = ground (arith, e, str_eq_sym x.url r.url) in
    (
      exists-append (has_url r.url) table (x ∷ []) ∙ rw (g, differ) refl,
      IsFresh-snoc table rows x (ground (arith, e)) f,
    )

insert_routes-append :
    (table rows : List ScanRoute)
    → IsDistinct rows
    → IsFresh table rows
    → insert_routes rows table ≡ table ++ rows
unfolding insert_routes
insert_routes-append table [] d f = sym (append-nil table)
insert_routes-append table (r ∷ rows) (e, d) (g, f) = rw g (
    insert_routes-append (table ++ r ∷ []) rows d (IsFresh-snoc table rows r e f)
    ∙ append_assoc table (r ∷ []) rows)

IsFresh-nil : (rows : List ScanRoute) → IsFresh [] rows
IsFresh-nil [] = tt
IsFresh-nil (r ∷ rows) = (refl, IsFresh-nil rows)

pub exists-inserted :
    (u : String) (rows : List ScanRoute)
    → exists (has_url u) (map inserted_row rows) ≡ exists (has_url u) rows
exists-inserted u [] = refl
exists-inserted u (r ∷ rows) = ap (λ b. str_eq r.url u || b) (exists-inserted u rows)

pub IsDistinct-inserted :
    (rows : List ScanRoute) → IsDistinct rows → IsDistinct (map inserted_row rows)
IsDistinct-inserted [] d = tt
IsDistinct-inserted (r ∷ rows) (e, d) = (exists-inserted r.url rows ∙ e, IsDistinct-inserted rows d)

-- Rows that are distinct are all inserted, in order.
pub insert_routes-IsDistinct :
    (rows : List ScanRoute)
    → IsDistinct rows
    → insert_routes (map inserted_row rows) [] ≡ map inserted_row rows
insert_routes-IsDistinct rows d =
    insert_routes-append [] (map inserted_row rows) (IsDistinct-inserted rows d) (IsFresh-nil _)

-- Where a URL is known.
exists-push_route :
    (u : String) (source : RouteSource) (url : String) (rows : List ScanRoute)
    → str_eq u "" ≡ false
    → exists (has_url u) (push_route source url rows) ≡ (str_eq url u || exists (has_url u) rows)
unfolding push_route
exists-push_route u source url rows text = elim (Bool-cases (str_eq url u)) [
  | inr other ↦ elim (Bool-cases (str_eq url "" || exists (has_url url) rows)) [
    | inl known ↦ rw (known, other) refl
    | inr fresh ↦ rw (fresh, other) (exists-append (has_url u) rows _ ∙ rw other (ground arith))
  ]
  | inl here ↦
      let same : url ≡ u = (eq_iff url u).0 here in
      rw (same, text)
        (elim (Bool-cases (exists (has_url u) rows)) [
          | inl known ↦ rw known (known ∙ sym (ap (λ b. b || true) ((eq_iff u u).1 refl)))
          | inr fresh ↦ rw fresh (
              exists-last (has_url u) rows _ ((eq_iff u u).1 refl)
              ∙ sym (ap (λ b. b || false) ((eq_iff u u).1 refl)))
        ])
]

pub exists-push_routes :
    (u : String) (source : RouteSource) (urls : List String) (rows : List ScanRoute)
    → str_eq u "" ≡ false
    → exists (has_url u) (push_routes source urls rows)
      ≡ (exists (λ v. str_eq v u) urls || exists (has_url u) rows)
unfolding push_routes
exists-push_routes u source [] rows text = refl
exists-push_routes u source (url ∷ urls) rows text =
    exists-push_routes u source urls (push_route source url rows) text
    ∙ ap (λ b. exists (λ v. str_eq v u) urls || b) (exists-push_route u source url rows text)
    ∙ swap (exists (λ v. str_eq v u) urls) (str_eq url u) (exists (has_url u) rows)
  where
    swap : (a b c : Bool) → (a || (b || c)) ≡ ((b || a) || c)
    swap true true c = refl
    swap true false c = refl
    swap false true c = refl
    swap false false c = refl
