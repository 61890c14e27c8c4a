-- ===== src/Crawl/Tests.antt =====
-- The discovery of routes at concrete inputs, and the theorems about it.
use scan_pal.Common.{◌≡◌, refl, Option, none, some, List, [], ◌∷◌, String, true, false, length, All}
use scan_pal.Billing.Plans.{free}
use scan_pal.Schedule.Due.{running}
use scan_pal.Crawl.Robots.{parse_robots_txt, is_path_disallowed, is_field}
use scan_pal.Crawl.Anchors.{directives, parse_robots_txt-last_agent}
use scan_pal.Crawl.Routes.{
  ScanRoute, Sources, CrawlScan, CrawlStore, crawl_processor, dedupe_routes, top_route_urls,
  sitemap, seed, link,
}
use scan_pal.Crawl.Distinct.{IsDistinct}
use scan_pal.Crawl.Stored.{IsWithin, is_found, crawl_processor-IsDistinct}

two_agents :
    (parse_robots_txt (
      "User-agent: *" ∷ "user-agent: Foo" ∷ "Disallow: /a # no" ∷ "User-agent:*"
      ∷ " disallow :  /b " ∷ "Sitemap: https://x/s.xml" ∷ [])).disallowed_paths
    ≡ "/b" ∷ []
unfolding parse_robots_txt
two_agents = refl

plain : is_path_disallowed "/foobar" ("/foo" ∷ []) ≡ false
unfolding is_path_disallowed
plain = refl

-- `*` inside a pattern is read as itself.
inner_star : is_path_disallowed "/page.php" ("/*.php$" ∷ []) ≡ false
unfolding is_path_disallowed
inner_star = refl

deduped : dedupe_routes (some "a" ∷ none ∷ some "b" ∷ some "" ∷ some "a" ∷ []) ≡ "a" ∷ "b" ∷ []
unfolding dedupe_routes
deduped = refl

topped :
    top_route_urls
      (record { url = "l"; source = link; http_status = none }
        ∷ record { url = "h"; source = seed; http_status = none }
        ∷ record { url = "s"; source = sitemap; http_status = none }
        ∷ [])
      2
    ≡ "h" ∷ "s" ∷ []
unfolding top_route_urls
topped = refl

abbrev robots : List String
robots = "User-agent: *" ∷ "User-agent: Foo # also" ∷ "" ∷ "Disallow: /private" ∷ []

robots-directives :
    directives robots ≡ ("User-agent", "*") ∷ ("User-agent", "Foo") ∷ ("Disallow", "/private") ∷ []
unfolding parse_robots_txt
robots-directives = refl

parse_robots_txt-last_agent_example : (parse_robots_txt robots).disallowed_paths ≡ []
unfolding is_field
parse_robots_txt-last_agent_example =
    parse_robots_txt-last_agent robots (("User-agent", "*") ∷ []) (("Disallow", "/private") ∷ [])
      ("User-agent", "Foo") (refl, tt) refl ((refl, refl, refl, refl), tt) robots-directives

abbrev pathname : String → Option String
pathname url = some url

abbrev sources : Sources
sources = record {
  home_route = some "/";
  sitemap_routes = "/a" ∷ "/b" ∷ "/a" ∷ [];
  spa_routes = "/admin/x" ∷ [];
  link_routes = "/b" ∷ "/c" ∷ [];
  disallowed_paths = "/admin" ∷ [];
}

abbrev store : CrawlStore
store = record { table = record { routes = λ s. []; route_count = λ s. 0 }; checks = λ k. none }

abbrev scan : CrawlScan
scan = record { id = 3; status = running; has_github_repo = false; plan = some free }

crawl_processor-IsDistinct_example :
    let after = (crawl_processor pathname (some scan) sources store).0.table in
    let rows = after.routes 3 in
    IsDistinct rows
    × All (λ (r : ScanRoute). is_found sources r.url ≡ true) rows
    × (after.route_count 3 ≡ length rows)
    × IsWithin (some 10) (length rows)
crawl_processor-IsDistinct_example = crawl_processor-IsDistinct pathname scan sources store refl

abbrev open_robots : List String
open_robots = "User-agent: *" ∷ "Disallow: /admin" ∷ []
