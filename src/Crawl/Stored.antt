-- ===== src/Crawl/Stored.antt =====
-- What a crawl leaves in the database: apps/worker/src/queues/crawl.ts.
use mathlib.Core.Path.{subst}
use scan_pal.Common.{
  ℕ, zero, suc, ◌≤◌, ◌≡◌, refl, sym, ap, ◌∙◌, arith, List, [], ◌∷◌, Bool, true, false, ◌||◌, String,
  str_eq, eq_iff, length, take, select, exists, Option, none, some, map, All, Bool-cases, inl, inr,
  put-same,
}
use scan_pal.Lifecycle.Store.{is_canceled}
use scan_pal.Crawl.Routes.{
  sitemap, link, spa, seed, RouteSource, push_route, ScanRoute, has_url, includes, plan_limit,
  slice_to, RouteStore, inserted_row, upsert_scan_routes, push_routes, Sources, home_of,
  ordered_routes, CrawlScan, CrawlStore, is_allowed, filtered_routes, crawl_processor,
}
use mathlib.Core.List.{◌++◌}
use scan_pal.Crawl.Distinct.{
  IsDistinct, IsDistinct-take, IsDistinct-select, IsDistinct-inserted, insert_routes-IsDistinct,
  ordered_routes-IsDistinct,
}

length-inserted : (rows : List ScanRoute) → length (map inserted_row rows) ≡ length rows
length-inserted [] = refl
length-inserted (r ∷ rows) = ap suc (length-inserted rows)

upsert_scan_routes-stored :
    (scan : ℕ) (rows : List ScanRoute) (store : RouteStore)
    → IsDistinct rows
    → ((upsert_scan_routes scan rows store).routes scan ≡ map inserted_row rows)
      × ((upsert_scan_routes scan rows store).route_count scan ≡ length rows)
unfolding upsert_scan_routes
upsert_scan_routes-stored scan [] store d =
    (put-same scan [] store.routes, put-same scan 0 store.route_count)
upsert_scan_routes-stored scan (r ∷ rows) store d = (
  put-same scan _ store.routes ∙ insert_routes-IsDistinct (r ∷ rows) d,
  put-same scan _ store.route_count,
)

IsDistinct-slice_to :
    (limit : Option ℕ) (rows : List ScanRoute) → IsDistinct rows → IsDistinct (slice_to limit rows)
IsDistinct-slice_to none rows d = d
IsDistinct-slice_to (some n) rows d = IsDistinct-take n rows d

abbrev pub IsWithin : Option ℕ → ℕ → Type 0
IsWithin none n = Unit
IsWithin (some limit) n = n ≤ limit

length-take_le : (n : ℕ) (rows : List ScanRoute) → length (take n rows) ≤ n
length-take_le zero rows = omega arith
length-take_le (suc n) [] = omega arith
length-take_le (suc n) (r ∷ rows) = omega (arith, length-take_le n rows)

slice_to-IsWithin :
    (limit : Option ℕ) (rows : List ScanRoute) → IsWithin limit (length (slice_to limit rows))
slice_to-IsWithin none rows = tt
slice_to-IsWithin (some n) rows = length-take_le n rows

module _ (P : ScanRoute → Type 0) where
  All-take : (n : ℕ) (rows : List ScanRoute) → All P rows → All P (take n rows)
  All-take zero rows a = tt
  All-take (suc n) [] a = tt
  All-take (suc n) (r ∷ rows) (h, a) = (h, All-take n rows a)

  All-slice_to :
      (limit : Option ℕ) (rows : List ScanRoute) → All P rows → All P (slice_to limit rows)
  All-slice_to none rows a = a
  All-slice_to (some n) rows a = All-take n rows a

  All-select : (q : ScanRoute → Bool) (rows : List ScanRoute) → All P rows → All P (select q rows)
  All-select q [] a = tt
  All-select q (r ∷ rows) (h, a) = elim (Bool-cases (q r)) [
    | inl kept ↦ rw kept (h, All-select q rows a)
    | inr dropped ↦ rw dropped (All-select q rows a)
  ]

  All-snoc : (rows : List ScanRoute) (r : ScanRoute) → All P rows → P r → All P (rows ++ r ∷ [])
  All-snoc [] r a h = (h, tt)
  All-snoc (x ∷ rows) r (k, a) h = (k, All-snoc rows r a h)

-- The URL is one of those that were found.
abbrev pub is_found : Sources → String → Bool
is_found s u =
    includes u s.link_routes
    || (includes u s.spa_routes || (includes u s.sitemap_routes || includes u (home_of s)))

-- The route's URL is one of those that were found.
abbrev IsFound : Sources → ScanRoute → Type 0
IsFound s r = is_found s r.url ≡ true

All-push_routes :
    (s : Sources) (source : RouteSource) (urls : List String) (rows : List ScanRoute)
    → ((u : String) → includes u urls ≡ true → is_found s u ≡ true)
    → All (IsFound s) rows
    → All (IsFound s) (push_routes source urls rows)
unfolding push_routes push_route
All-push_routes s source [] rows h a = a
All-push_routes s source (url ∷ urls) rows h a =
    let here : is_found s url ≡ true = h url (rw ((eq_iff url url).1 refl) refl) in
    All-push_routes s source urls _ (λ u e. h u (ground (arith, e)))
      (elim (Bool-cases (str_eq url "" || exists (has_url url) rows)) [
        | inl skipped ↦ rw skipped a
        | inr new ↦ rw new (All-snoc (IsFound s) rows _ a here)
      ])

All-ordered_routes : (s : Sources) → All (IsFound s) (ordered_routes s)
unfolding ordered_routes
All-ordered_routes s =
    All-push_routes s link s.link_routes _ (λ u e. ground (arith, e))
      (All-push_routes s spa s.spa_routes _ (λ u e. ground (arith, e))
        (All-push_routes s sitemap s.sitemap_routes _ (λ u e. ground (arith, e))
          (All-push_routes s seed (home_of s) [] (λ u e. ground (arith, e)) tt)))

All-inserted :
    (s : Sources) (rows : List ScanRoute)
    → All (IsFound s) rows
    → All (IsFound s) (map inserted_row rows)
All-inserted s [] a = tt
All-inserted s (r ∷ rows) (h, a) = (h, All-inserted s rows a)

module _ (pathname : String → Option String) where
  -- Whether a route is allowed depends on its URL.
  abbrev pub allows : List String → String → Bool
  allows d u = is_allowed pathname d (record { url = u; source = seed; http_status = none })

-- After the crawl of a scan that is not canceled, its stored routes name no URL twice, each of
-- them is a URL that was found, the stored number of routes is their number, and where the plan
-- has a limit they are at most as many.
pub crawl_processor-IsDistinct :
    (pathname : String → Option String) (scan : CrawlScan) (s : Sources) (store : CrawlStore)
    → is_canceled scan.status ≡ false
    → let after = (crawl_processor pathname (some scan) s store).0.table in
      let rows = after.routes scan.id in
      IsDistinct rows
      × All (λ (r : ScanRoute). is_found s r.url ≡ true) rows
      × (after.route_count scan.id ≡ length rows)
      × IsWithin (plan_limit scan.plan) (length rows)
unfolding crawl_processor filtered_routes
crawl_processor-IsDistinct pathname scan s store on =
    let found = filtered_routes pathname s in
    let kept = slice_to (plan_limit scan.plan) found in
    let apart = IsDistinct-slice_to (plan_limit scan.plan) found (
      IsDistinct-select (is_allowed pathname s.disallowed_paths) (ordered_routes s)
        (ordered_routes-IsDistinct s)) in
    let (rows, counted) = upsert_scan_routes-stored scan.id kept store.table apart in
    let within = slice_to-IsWithin (plan_limit scan.plan) found in
    rw (on, crawl_processor)
      (rw rows (
        IsDistinct-inserted kept apart,
        All-inserted s kept (
            All-slice_to (IsFound s) (plan_limit scan.plan) found (
              All-select (IsFound s) (is_allowed pathname s.disallowed_paths) (ordered_routes s)
                (All-ordered_routes s))),
        counted ∙ sym (length-inserted kept),
        subst (IsWithin (plan_limit scan.plan)) (sym (length-inserted kept)) within,
      ))
