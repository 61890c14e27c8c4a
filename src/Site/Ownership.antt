-- ===== src/Site/Ownership.antt =====
-- packages/scan-core/src/ownership.ts: the token of a site, its rotation, the check and its record, on
-- the columns of `sites` that they use, and `ownershipVerificationStatus` of
-- packages/shared/src/ownership.ts. The name of the DNS record that belongs to a URL and the lookup with
-- its match against the token come from the outside. Times are milliseconds.
use scan_pal.Common.{
  ℕ, ◌-◌, ◌*◌, Option, none, some, List, Bool, true, false, ◌&&◌, ◌||◌, String, str_eq, ltb, ◌==◌,
  if◌then◌else◌, find, update,
}
use mathlib.Core.Option
use scan_pal.Lifecycle.Create.{Scope, team_wide, within, in_workspace}

pub record OwnershipRow : Type 0 where
  pub id : ℕ
  pub team_id : ℕ
  pub workspace_id : Option ℕ
  pub url : String
  pub ownership_token : Option String
  pub ownership_verified_at : Option ℕ
  pub ownership_method : Option String

abbrev pub is_within : Scope → (workspace_id : Option ℕ) → Bool
is_within team_wide workspace_id = true
is_within (within workspace) workspace_id = in_workspace workspace workspace_id

abbrev pub is_site : (team site : ℕ) → Scope → OwnershipRow → Bool
is_site team site scope row =
    row.id == site && (row.team_id == team && is_within scope row.workspace_id)

-- `set ownership_token = coalesce(ownership_token, $3)`.
abbrev pub with_token : String → OwnershipRow → OwnershipRow
with_token token row = record row {
  ownership_token = elim row.ownership_token [ none ↦ some token | some old ↦ some old ];
}

-- The first row that an update returns.
abbrev returned_row : (team site : ℕ) → Scope → List OwnershipRow → Option OwnershipRow
returned_row team site scope rows = find (is_site team site scope) rows

unfoldable pub ensure_ownership_token :
    (team site : ℕ) → Scope → String → List OwnershipRow → List OwnershipRow × Option OwnershipRow
ensure_ownership_token team site scope token rows =
    let rows' = update (is_site team site scope) (with_token token) rows in
    (rows', returned_row team site scope rows')

unfoldable pub rotate_ownership_token :
    (team site : ℕ) → Scope → String → List OwnershipRow → List OwnershipRow × Option OwnershipRow
rotate_ownership_token team site scope token rows =
    let rows' =
      update (is_site team site scope)
        (λ row. record row {
          ownership_token = some token;
          ownership_verified_at = none;
          ownership_method = none;
        })
        rows in
    (rows', returned_row team site scope rows')

pub data DnsAnswer : Type 0 where
  matched : DnsAnswer
  not_matched : DnsAnswer
  dns_error : (code : String) → DnsAnswer

pub record World : Type 0 where
  pub record_name : (url : String) → Option String
  pub lookup : (record_name token : String) → DnsAnswer

pub data OwnershipCheckReason : Type 0 where
  record_not_found dns_lookup_failed token_missing invalid_site_url site_not_found :
      OwnershipCheckReason

pub data OwnershipCheckResult : Type 0 where
  verified : (token : String) → OwnershipCheckResult
  unverified : OwnershipCheckReason → (token : Option String) → OwnershipCheckResult

abbrev pub answer_of : String → DnsAnswer → OwnershipCheckResult
answer_of token matched = verified token
answer_of token not_matched = unverified record_not_found (some token)
answer_of token (dns_error code) =
    if str_eq code "ENODATA" || (str_eq code "ENOTFOUND" || str_eq code "NXDOMAIN")
    then unverified record_not_found (some token)
    else unverified dns_lookup_failed (some token)

abbrev pub check_name : World → String → Option String → OwnershipCheckResult
check_name world token none = unverified invalid_site_url (some token)
check_name world token (some name) = answer_of token (world.lookup name token)

abbrev pub check_found : World → Option OwnershipRow → OwnershipCheckResult
check_found world none = unverified site_not_found none
check_found world (some row) = elim row.ownership_token [
  | none ↦ unverified token_missing none
  | some token ↦
      if str_eq token ""
      then unverified token_missing none
      else check_name world token (world.record_name row.url)
]

-- With the scope of a team, as the routes call it.
unfoldable pub check_ownership_live :
    World → (team site : ℕ) → Scope → List OwnershipRow → OwnershipCheckResult
check_ownership_live world team site scope rows =
    check_found world (find (is_site team site scope) rows)

pub record CheckInput : Type 0 where
  pub site_id : ℕ
  pub team_id : ℕ
  pub token : String
  pub verified : Bool
  pub scope : Scope

abbrev pub has_token : String → Option String → Bool
has_token token none = false
has_token token (some other) = str_eq other token

abbrev pub is_checked : CheckInput → OwnershipRow → Bool
is_checked input row =
    is_site input.team_id input.site_id input.scope row && has_token input.token row.ownership_token

abbrev pub checked_row : ℕ → CheckInput → OwnershipRow → OwnershipRow
checked_row now input row = record row {
  ownership_verified_at = if input.verified then some now else none;
  ownership_method = if input.verified then some "dns-txt" else none;
}

-- `none` is the answer `undefined`: no row was updated.
unfoldable pub record_ownership_check :
    (now : ℕ) → CheckInput → List OwnershipRow → List OwnershipRow × Option (Option ℕ)
record_ownership_check now input rows =
    let rows' = update (is_checked input) (checked_row now input) rows in
    (
      rows',
      Option.map (λ (row : OwnershipRow). row.ownership_verified_at)
          (find (is_checked input) rows'),
    )

pub data OwnershipVerificationStatus : Type 0 where
  verified unverified expired : OwnershipVerificationStatus

abbrev pub ownership_verification_valid_days : ℕ
ownership_verification_valid_days = 30

unfoldable pub ownership_verification_status :
    Option ℕ → (now valid_days : ℕ) → OwnershipVerificationStatus
ownership_verification_status none now valid_days = unverified
ownership_verification_status (some verified_at) now valid_days =
    if ltb (valid_days * 86400000) (now - verified_at) then expired else verified
