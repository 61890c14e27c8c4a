-- ===== src/Site/Verified.antt =====
-- A check of a domain counts for the token that it was made with, and for no other.
use scan_pal.Common.{
  ℕ, ◌+◌, ◌*◌, ◌≡◌, ◌≢◌, refl, arith, Option, none, some, List, [], ◌∷◌, Bool, true, false, String,
  str_eq, eq_iff, find, update, exists, ltb, if◌then◌else◌, Option-cases, find-exists, find-holds,
  Bool-cases, inl, inr,
}
use mathlib.Core.Option
use scan_pal.Lifecycle.Create.{Scope}
use scan_pal.Site.Ownership.{
  OwnershipRow, is_site, rotate_ownership_token, CheckInput, has_token, is_checked, checked_row,
  record_ownership_check, World, verified, unverified, expired, check_ownership_live,
  ownership_verification_status, ownership_verification_valid_days, OwnershipCheckResult, answer_of,
  check_name, token_missing, site_not_found, matched, not_matched, dns_error, DnsAnswer,
}

-- An update that finds no row, and the search after it.
update-exists_none :
    (p : OwnershipRow → Bool) (f : OwnershipRow → OwnershipRow) (rows : List OwnershipRow)
    → exists p rows ≡ false
    → (update p f rows ≡ rows) × (find p rows ≡ none)
update-exists_none p f [] h = (refl, refl)
update-exists_none p f (row ∷ rows) h =
    let miss : p row ≡ false = ground (arith, h) in
    let rest = update-exists_none p f rows (ground (arith, h)) in
    (rw (miss, rest.0) refl, rw (miss, rest.1) refl)

-- After a rotation no row of the site has an older token.
rotated-exists :
    (input : CheckInput) (token : String) (rows : List OwnershipRow)
    → str_eq token input.token ≡ false
    → exists
        (is_checked input)
        (rotate_ownership_token input.team_id input.site_id input.scope token rows).0
      ≡ false
unfolding rotate_ownership_token
rotated-exists input token [] h = refl
rotated-exists input token (row ∷ rows) h =
    elim (Bool-cases (is_site input.team_id input.site_id input.scope row)) [
      | inl own ↦ rw own (ground (arith, own, h, rotated-exists input token rows h))
      | inr other ↦ rw other (ground (arith, other, h, rotated-exists input token rows h))
    ]

different : (a b : String) → a ≢ b → str_eq a b ≡ false
different a b h = elim (Bool-cases (str_eq a b)) [
  | inl e ↦ absurd (h ((eq_iff a b).0 e))
  | inr e ↦ e
]

-- After a site's token was rotated to another than the one that a check was made with, the record
-- of that check, whatever its outcome, updates no row and says so.
pub rotate_ownership_token-record_ownership_check :
    (now : ℕ) (input : CheckInput) (token : String) (rows : List OwnershipRow)
    → token ≢ input.token
    → record_ownership_check now input
        (rotate_ownership_token input.team_id input.site_id input.scope token rows).0
      ≡ ((rotate_ownership_token input.team_id input.site_id input.scope token rows).0, none)
unfolding record_ownership_check
rotate_ownership_token-record_ownership_check now input token rows h =
    let rotated = (rotate_ownership_token input.team_id input.site_id input.scope token rows).0 in
    let u =
      update-exists_none (is_checked input) (checked_row now input) rotated
        (rotated-exists input token rows (different token input.token h)) in
    rw u.0 (rw u.1 refl)

-- A check that succeeded, for the site and the token that it was made with.
abbrev pub success : (team site : ℕ) → Scope → String → CheckInput
success team site scope token = record {
  site_id = site;
  team_id = team;
  token = token;
  verified = true;
  scope = scope;
}

recorded-found :
    (now team site : ℕ) (scope : Scope) (token : String) (rows : List OwnershipRow)
    → exists (is_checked (success team site scope token)) rows ≡ true
    → (record_ownership_check now (success team site scope token) rows).1 ≡ some (some now)
unfolding record_ownership_check
recorded-found now team site scope token [] h = absurd (ground (arith, h))
recorded-found now team site scope token (row ∷ rows) h =
    elim (Bool-cases (is_checked (success team site scope token) row)) [
      | inl hit ↦ rw (hit, hit) refl
      | inr miss ↦
          rw (miss, miss) (recorded-found now team site scope token rows (ground (arith, miss, h)))
    ]

answer-token :
    (t token : String) (a : DnsAnswer)
    → answer_of t a ≡ OwnershipCheckResult.verified token
    → str_eq t token ≡ true
answer-token t token matched h = (eq_iff t token).1 cc
answer-token t token not_matched h = absurd (ground (arith, h))
answer-token t token (dns_error code) h = absurd (ground (arith, h))

name-token :
    (world : World) (t token : String) (o : Option String)
    → check_name world t o ≡ OwnershipCheckResult.verified token
    → str_eq t token ≡ true
name-token world t token none h = absurd (ground (arith, h))
name-token world t token (some n) h = answer-token t token (world.lookup n t) h

-- The row of a check that succeeded has its token.
found-token :
    (world : World) (token : String) (row : OwnershipRow) (o : Option String)
    → elim o [
      | none ↦ unverified token_missing none
      | some t ↦
          if str_eq t ""
          then unverified token_missing none
          else check_name world t (world.record_name row.url)
    ]
      ≡ OwnershipCheckResult.verified token
    → has_token token o ≡ true
found-token world token row none h = absurd (ground (arith, h))
found-token world token row (some t) h = elim (Bool-cases (str_eq t "")) [
  | inl empty ↦ absurd (ground (arith, h, empty))
  | inr given ↦ name-token world t token (world.record_name row.url) (rw given at h)
]

unverified_site :
    {token : String} → unverified site_not_found none ≡ OwnershipCheckResult.verified token → ⊥
unverified_site h = ground (arith, h)

-- When a check of a site finds its token and is recorded for the same rows, the recorded time
-- counts as verified until thirty days have passed, and as expired after that.
pub check_ownership_live-record_ownership_check :
    (world : World) (now later team site : ℕ) (scope : Scope) (token : String)
    (rows : List OwnershipRow)
    → check_ownership_live world team site scope rows ≡ verified token
    → Option.map
        (λ at. ownership_verification_status at later ownership_verification_valid_days)
        (record_ownership_check now (success team site scope token) rows).1
      ≡ some (if ltb (now + 30 * 86400000) later then expired else verified)
unfolding check_ownership_live ownership_verification_status
check_ownership_live-record_ownership_check world now later team site scope token rows h =
    elim (Option-cases (find (is_site team site scope) rows)) [
      | inl missing ↦ absurd (unverified_site (rw missing at h))
      | inr (row, found) ↦
          let token_there = found-token world token row row.ownership_token (rw found at h) in
          let there =
            find-exists (is_site team site scope) (is_checked (success team site scope token)) rows
              row found
              (ground (arith, token_there, find-holds (is_site team site scope) rows row found)) in
          rw (recorded-found now team site scope token rows there) (ground arith)
    ]
