-- ===== src/Site/Tests.antt =====
-- One site, its token and a check of its domain.
use scan_pal.Common.{◌≡◌, ◌≢◌, String, eq_iff, none, some, [], ◌∷◌, arith}
use scan_pal.Lifecycle.Create.{team_wide}
use scan_pal.Site.Ownership.{
  OwnershipRow, World, matched, rotate_ownership_token, record_ownership_check,
}
use scan_pal.Site.Verified.{success, rotate_ownership_token-record_ownership_check}

abbrev site : OwnershipRow
site = record {
  id = 1;
  team_id = 7;
  workspace_id = none;
  url = "https://example.org";
  ownership_token = some "old";
  ownership_verified_at = none;
  ownership_method = none;
}

abbrev world : World
world = record { record_name = λ url. some "example.org"; lookup = λ name token. matched }

abbrev new_token : String
new_token = "new"

new_token-fresh : new_token ≢ "old"
new_token-fresh e = ground (arith, (eq_iff new_token "old").1 e)

rotate_ownership_token-record_ownership_check_example :
    record_ownership_check 1000
      (success 7 1 team_wide "old")
      (rotate_ownership_token 7 1 team_wide new_token (site ∷ [])).0
    ≡ ((rotate_ownership_token 7 1 team_wide new_token (site ∷ [])).0, none)
rotate_ownership_token-record_ownership_check_example =
    rotate_ownership_token-record_ownership_check 1000 (success 7 1 team_wide "old") new_token
      (site ∷ []) new_token-fresh
