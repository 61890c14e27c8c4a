-- ===== src/Webhook/Guard.antt =====
-- packages/notify/src/webhook-security.ts: the SSRF guard. An address is given in parsed form: the
-- first two numbers of a dotted IPv4 address, or the eight groups of an IPv6 address after
-- `expandIPv6`. `new URL`, `isIP` with the reading of an address, and the DNS lookup are parameters.
pub mod Ranges
pub mod Urls
use Prim.Native.Nat.{bit_and}
use scan_pal.Common.{
  ℕ, zero, suc, ◌+◌, ◌*◌, ◌/◌, ◌%◌, ◌^◌, ◌≤◌, ◌<◌, ◌≡◌, ◌↔◌, refl, Option, none, some, List, [],
  ◌∷◌, Bool, true, false, ◌&&◌, ◌||◌, not, String, str_eq, arith, ltb, leb, ◌==◌, if◌then◌else◌,
  exists, All, ◌⊎◌, inl, inr, Bool-cases, ==_iff,
}
use scan_pal.Webhook.Deliver.{UrlAllowance, allowed}

-- The branch of `isBlockedIp` for IPv4, on the first two numbers of the address.
unfoldable pub is_blocked_v4 : ℕ → ℕ → Bool
is_blocked_v4 a b =
    a == 0
    || a == 10
    || (a == 100 && leb 64 b && leb b 127)
    || a == 127
    || (a == 169 && b == 254)
    || (a == 172 && bit_and b 0xf0 == 16)
    || (a == 192 && b == 168)

pub record Groups : Type 0 where
  pub g0 : ℕ
  pub g1 : ℕ
  pub g2 : ℕ
  pub g3 : ℕ
  pub g4 : ℕ
  pub g5 : ℕ
  pub g6 : ℕ
  pub g7 : ℕ

abbrev pub first_five_zero : Groups → Bool
first_five_zero g = g.g0 == 0 && g.g1 == 0 && g.g2 == 0 && g.g3 == 0 && g.g4 == 0

abbrev pub is_loopback_or_unspecified : Groups → Bool
is_loopback_or_unspecified g =
    first_five_zero g && g.g5 == 0 && g.g6 == 0 && (g.g7 == 0 || g.g7 == 1)

abbrev pub all_zero : Groups → Bool
all_zero g = first_five_zero g && g.g5 == 0 && g.g6 == 0 && g.g7 == 0

-- The branch for IPv6 with numeric groups. A mapped address goes through the IPv4 branch, whose
-- first two numbers are the two bytes of the seventh group.
unfoldable pub is_blocked_v6 : Groups → Bool
unfolding is_blocked_v4
is_blocked_v6 g =
    if first_five_zero g && (g.g5 == 0xffff || g.g5 == 0) && not (is_loopback_or_unspecified g)
    then is_blocked_v4 (g.g6 / 256) (g.g6 % 256)
    else all_zero g
      || (is_loopback_or_unspecified g && g.g7 == 1)
      || (leb 0xfc00 g.g0 && leb g.g0 0xfdff)
      || (leb 0xfe80 g.g0 && leb g.g0 0xfebf)

-- An address as text, read: IPv4, IPv6, IPv6 that ends in a dotted IPv4 address, or none of these.
pub data Address : Type 0 where
  v4 : (a b : ℕ) → Address
  v6 : Groups → Address
  v6_dotted : (a b : ℕ) → Address
  no_address : Address

unfoldable pub is_blocked_ip : Address → Bool
unfolding is_blocked_v4 is_blocked_v6
is_blocked_ip (v4 a b) = is_blocked_v4 a b
is_blocked_ip (v6 g) = is_blocked_v6 g
is_blocked_ip (v6_dotted a b) = is_blocked_v4 a b
is_blocked_ip no_address = false

abbrev pub is_ip : Address → Bool
is_ip no_address = false
is_ip _ = true

-- A URL as `new URL` reads it, its host in lower case.
pub record ParsedUrl : Type 0 where
  pub protocol : String
  pub host : String

pub record Net : Type 0 where
  pub parse_url : String → Option ParsedUrl
  pub ends_with : String → String → Bool
  pub read_address : String → Address
  pub lookup : String → Option (List String)
  pub is_production : Bool

unfoldable pub is_local_host : Net → String → Bool
is_local_host net host =
    str_eq host "localhost" || net.ends_with host ".localhost" || net.ends_with host ".local"

abbrev pub check_resolved : Net → Option (List String) → UrlAllowance
check_resolved net none = UrlAllowance.refused "dns-failure"
check_resolved net (some addresses) =
    if exists (λ (a : String). is_blocked_ip (net.read_address a)) addresses
    then UrlAllowance.refused "resolved-blocked-ip"
    else allowed

abbrev pub check_host : Net → (resolve : Bool) → String → UrlAllowance
check_host net resolve host =
    if is_ip (net.read_address host)
    then (if is_blocked_ip (net.read_address host)
        then UrlAllowance.refused "blocked-ip"
        else allowed)
    else (if resolve then check_resolved net (net.lookup host) else allowed)

abbrev check_url : Net → (resolve : Bool) → Option ParsedUrl → UrlAllowance
check_url net resolve none = UrlAllowance.refused "invalid-url"
check_url net resolve (some url) =
    if is_local_host net url.host
    then (if net.is_production then UrlAllowance.refused "localhost" else allowed)
    else (if not (str_eq url.protocol "https:") && not (str_eq url.protocol "http:")
        then UrlAllowance.refused "protocol"
        else (if net.is_production && not (str_eq url.protocol "https:")
            then UrlAllowance.refused "protocol"
            else check_host net resolve url.host))

unfoldable pub is_url_allowed : Net → (resolve : Bool) → String → UrlAllowance
unfolding is_blocked_ip is_local_host
is_url_allowed net resolve url = check_url net resolve (net.parse_url url)
