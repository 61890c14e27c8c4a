-- ===== src/Crawl/Routes.antt =====
-- The list of routes: `dedupeRoutes` and `topRouteUrls` of packages/shared/src/routes.ts, the writes of
-- packages/scan-core/src/routes.ts, and apps/worker/src/queues/crawl.ts from the moment that its sources
-- have been fetched. `pathname` is that of `new URL`, none where it throws.
use scan_pal.Common.{
  ℕ, Option, none, some, List, [], ◌∷◌, ◌++◌, Bool, true, false, ◌||◌, not, String, str_eq,
  if◌then◌else◌, ltb, length, take, select, exists, find, map, update, put,
}
use scan_pal.Scan.Finding.{Finding, seo, info, open_}
use scan_pal.Billing.Plans
use scan_pal.Billing.Plans.{PlanId, free, pro}
use scan_pal.Schedule.Due.{ScanStatus}
use scan_pal.Lifecycle.Store.{is_canceled}
use scan_pal.Aggregate.Checks.{Checks, single, valid, upsert_row}
use scan_pal.Crawl.Robots.{is_path_disallowed}

pub data RouteSource : Type 0 where
  sitemap link spa seed : RouteSource

pub record ScanRoute : Type 0 where
  pub url : String
  pub source : RouteSource
  pub http_status : Option ℕ

-- The object has no key `max`: `undefined`.
abbrev pub route_limit_by_plan : PlanId → Option ℕ
route_limit_by_plan free = some 10
route_limit_by_plan pro = some 150
route_limit_by_plan Plans.max = none

abbrev pub plan_limit : Option PlanId → Option ℕ
plan_limit none = route_limit_by_plan free
plan_limit (some plan) = route_limit_by_plan plan

-- `slice(0, limit)`, which takes all where the limit is undefined.
abbrev pub slice_to : Option ℕ → List ScanRoute → List ScanRoute
slice_to none routes = routes
slice_to (some limit) routes = take limit routes

-- `discovered > limit`, which is false where the limit is undefined.
abbrev pub exceeds : Option ℕ → ℕ → Bool
exceeds none n = false
exceeds (some limit) n = ltb limit n

abbrev pub has_url : String → ScanRoute → Bool
has_url url r = str_eq r.url url

abbrev pub includes : String → List String → Bool
includes url = exists (λ u. str_eq u url)

-- The loop; what has been seen is what is in `result`.
unfoldable pub dedupe_into : List String → List (Option String) → List String
dedupe_into result [] = result
dedupe_into result (none ∷ urls) = dedupe_into result urls
dedupe_into result (some url ∷ urls) =
    let skipped = dedupe_into result urls in
    let pushed = dedupe_into (result ++ url ∷ []) urls in
    if str_eq url "" || includes url result then skipped else pushed

unfoldable pub dedupe_routes : List (Option String) → List String
unfolding dedupe_into
dedupe_routes urls = dedupe_into [] urls

abbrev pub is_from : RouteSource → RouteSource → Bool
is_from sitemap sitemap = true
is_from link link = true
is_from spa spa = true
is_from seed seed = true
is_from _ _ = false

-- The loop over the routes of one source.
unfoldable pub order_source :
    RouteSource → (seed_url : String) → List ScanRoute → List String → List String
order_source source seed_url [] ordered = ordered
order_source source seed_url (r ∷ routes) ordered =
    let skipped = order_source source seed_url routes ordered in
    let pushed = order_source source seed_url routes (ordered ++ r.url ∷ []) in
    if str_eq r.url seed_url
    then skipped
    else (if not (is_from source r.source)
        then skipped
        else (if includes r.url ordered then skipped else pushed))

abbrev pub seed_of : List ScanRoute → Option ScanRoute
seed_of [] = none
seed_of (r ∷ routes) = elim (find (λ (q : ScanRoute). is_from seed q.source) (r ∷ routes)) [
  | none ↦ some r
  | some q ↦ some q
]

unfoldable pub top_route_urls : List ScanRoute → (top_n : ℕ) → List String
unfolding order_source
top_route_urls routes top_n = elim (seed_of routes) [
  | none ↦ []
  | some first ↦ take top_n (
      order_source link first.url routes (
        order_source spa first.url routes (order_source sitemap first.url routes (first.url ∷ []))))
]

-- The table `scan_routes`, by scan, and the column `route_count` of `scans`.
pub record RouteStore : Type 0 where
  pub routes : ℕ → List ScanRoute
  pub route_count : ℕ → ℕ

-- `insert ... on conflict (scan_id, url) do nothing`, row by row.
unfoldable pub insert_routes : List ScanRoute → List ScanRoute → List ScanRoute
insert_routes [] table = table
insert_routes (r ∷ rows) table =
    insert_routes rows (if exists (has_url r.url) table then table else table ++ r ∷ [])

-- The columns that the statement names; `http_status` is null.
abbrev pub inserted_row : ScanRoute → ScanRoute
inserted_row r = record r { http_status = none }

unfoldable pub upsert_scan_routes : (scan : ℕ) → List ScanRoute → RouteStore → RouteStore
unfolding insert_routes
upsert_scan_routes scan [] store = record {
  routes = put scan [] store.routes;
  route_count = put scan 0 store.route_count;
}
upsert_scan_routes scan (r ∷ routes) store = record {
  routes = put scan (insert_routes (map inserted_row (r ∷ routes)) []) store.routes;
  route_count = put scan (length (r ∷ routes)) store.route_count;
}

unfoldable pub set_route_http_status :
    (scan : ℕ) → (url : String) → (status : ℕ) → RouteStore → RouteStore
set_route_http_status scan url status store = record store {
  routes =
      put scan
        (update (has_url url) (λ (r : ScanRoute). record r { http_status = some status })
          (store.routes scan))
        store.routes;
}

-- `push` of the crawler.
unfoldable pub push_route : RouteSource → String → List ScanRoute → List ScanRoute
push_route source url ordered =
    if str_eq url "" || exists (has_url url) ordered
    then ordered
    else ordered ++ record { url = url; source = source; http_status = none } ∷ []

unfoldable pub push_routes : RouteSource → List String → List ScanRoute → List ScanRoute
unfolding push_route
push_routes source [] ordered = ordered
push_routes source (url ∷ urls) ordered = push_routes source urls (push_route source url ordered)

-- What the crawler has fetched.
pub record Sources : Type 0 where
  pub home_route : Option String
  pub sitemap_routes : List String
  pub spa_routes : List String
  pub link_routes : List String
  pub disallowed_paths : List String

abbrev pub home_of : Sources → List String
home_of s = elim s.home_route [ none ↦ [] | some url ↦ url ∷ [] ]

unfoldable pub ordered_routes : Sources → List ScanRoute
unfolding push_routes
ordered_routes s = push_routes link s.link_routes (
    push_routes spa s.spa_routes
      (push_routes sitemap s.sitemap_routes (push_routes seed (home_of s) [])))

abbrev pub check_name : String
check_name = "route-discovery"

-- The id is what `findingId` makes of the title.
unfoldable pub route_limit_finding : Finding
route_limit_finding = record {
  id = "route-discovery:meer-routes-beschikbaar-op-pro";
  check_id = check_name;
  category = seo;
  severity = info;
  title = "Meer routes beschikbaar op Pro";
  active = false;
  status = open_;
  note = none;
  route_url = none;
  regressed = false;
  snooze_until = none;
}

unfoldable pub write_route_limit_info : (scan : ℕ) → Checks → Checks
unfolding upsert_row
write_route_limit_info scan checks =
    upsert_row
      (record {
        scan_id = scan;
        check_id = check_name;
        category = seo;
        status = "info";
        severity = some info;
        finding = single (valid route_limit_finding);
        route_url = none;
      })
      checks

pub record CrawlScan : Type 0 where
  pub id : ℕ
  pub status : ScanStatus
  pub has_github_repo : Bool
  pub plan : Option PlanId

pub record CrawlStore : Type 0 where
  pub table : RouteStore
  pub checks : Checks

-- The children of the flow whose parent is the aggregator.
pub data Queue : Type 0 where
  http browser github : Queue

abbrev pub children : Bool → List Queue
children has_github_repo = http ∷ browser ∷ (if has_github_repo then github ∷ [] else [])

module _ (pathname : String → Option String) where
  abbrev pub is_allowed : (disallowed : List String) → ScanRoute → Bool
  is_allowed disallowed r = elim (pathname r.url) [
    | none ↦ true
    | some path ↦ not (is_path_disallowed path disallowed)
  ]

  unfoldable pub filtered_routes : Sources → List ScanRoute
  unfolding ordered_routes
  filtered_routes s = select (is_allowed s.disallowed_paths) (ordered_routes s)

  abbrev pub crawl : CrawlScan → Sources → CrawlStore → CrawlStore × Option (List Queue)
  crawl scan s store =
      let found = filtered_routes s in
      let limit = plan_limit scan.plan in
      let table = upsert_scan_routes scan.id (slice_to limit found) store.table in
      let checks =
        if exceeds limit (length found)
        then write_route_limit_info scan.id store.checks
        else store.checks in
      (record { table = table; checks = checks }, some (children scan.has_github_repo))

  -- What is started is given as `some`.
  unfoldable pub crawl_processor :
      Option CrawlScan → Sources → CrawlStore → CrawlStore × Option (List Queue)
  unfolding filtered_routes upsert_scan_routes write_route_limit_info
  crawl_processor none s store = (store, none)
  crawl_processor (some scan) s store =
      if is_canceled scan.status then (store, none) else crawl scan s store
