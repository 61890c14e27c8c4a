-- ===== src/Webhook/Guard/Urls.antt =====
-- What a URL that the guard allows satisfies.
use scan_pal.Common.{
  ◌≡◌, refl, Option, none, some, List, [], ◌∷◌, true, false, String, arith, exists, All, ◌⊎◌, inl,
  inr, Bool-cases, eq_iff, Option-cases,
}
use scan_pal.Webhook.Deliver.{allowed}
use scan_pal.Webhook.Guard.{
  Net, ParsedUrl, is_ip, is_blocked_ip, is_local_host, is_url_allowed, check_host, check_resolved,
}

-- No address of the list is blocked.
abbrev pub AllOpen : Net → List String → Type 0
AllOpen net = All (λ a. is_blocked_ip (net.read_address a) ≡ false)

exists-none :
    (net : Net) (hosts : List String)
    → exists (λ (a : String). is_blocked_ip (net.read_address a)) hosts ≡ false
    → AllOpen net hosts
exists-none net [] h = tt
exists-none net (a ∷ hosts) h = (ground arith, exists-none net hosts (ground arith))

-- The host is an address that is open, or its lookup gives open addresses only.
abbrev pub IsOpenHost : Net → String → Type 0
IsOpenHost net host =
    ((is_ip (net.read_address host) ≡ true) × (is_blocked_ip (net.read_address host) ≡ false))
    ⊎ ((hosts : List String) × (net.lookup host ≡ some hosts) × AllOpen net hosts)

check_resolved-open :
    (net : Net) (o : Option (List String))
    → check_resolved net o ≡ allowed
    → (hosts : List String) × (o ≡ some hosts) × AllOpen net hosts
check_resolved-open net none h = absurd (cc)
check_resolved-open net (some hosts) h = (hosts, refl, exists-none net hosts (ground arith))

check_host-open :
    (net : Net) (host : String) → check_host net true host ≡ allowed → IsOpenHost net host
check_host-open net host h = elim (Bool-cases (is_ip (net.read_address host))) [
  | inl address ↦ inl (address, ground arith)
  | inr name ↦ inr (check_resolved-open net (net.lookup host) (rw name at h))
]

-- In production a URL that is allowed after resolution is an https URL whose host is not local,
-- and every address that the host stands for, itself or by its lookup, is outside the blocked
-- networks.
pub is_url_allowed-production :
    (net : Net) (url : String)
    → net.is_production ≡ true
    → is_url_allowed net true url ≡ allowed
    → (p : ParsedUrl) × (net.parse_url url ≡ some p)
      × (p.protocol ≡ "https:")
      × (is_local_host net p.host ≡ false)
      × IsOpenHost net p.host
unfolding is_url_allowed
is_url_allowed-production net url prod h = elim (Option-cases (net.parse_url url)) [
  | inl e ↦ absurd (ground arith)
  | inr (p, e) ↦ elim (Bool-cases (is_local_host net p.host)) [
    | inl local ↦ absurd (ground arith)
    | inr remote ↦ (
      p,
      e,
      (eq_iff p.protocol "https:").0 (ground arith),
      remote,
      check_host-open net p.host (ground arith),
    )
  ]
]
