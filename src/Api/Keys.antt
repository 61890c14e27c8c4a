-- ===== src/Api/Keys.antt =====
-- apps/web/lib/api-keys-core.ts: the tables `api_keys` and `api_key_usage`. A new key's text, its
-- hash and the default columns come from the outside. Ids and teams are numbers; a day is a number
-- that the database's clock gives.
use scan_pal.Common.{
  ℕ, ◌+◌, Option, none, some, List, [], ◌∷◌, ◌++◌, Bool, true, false, ◌&&◌, String, str_eq, ◌==◌,
  if◌then◌else◌, exists, find, update,
}
use Prim.Native.String
use Prim.Native.Nat

pub record ApiKeyRow : Type 0 where
  pub id : ℕ
  pub team_id : ℕ
  pub created_by : ℕ
  pub name : String
  pub prefix : String
  pub key_hash : String
  pub last_used_at : Option ℕ
  pub revoked_at : Option ℕ
  pub expires_at : Option ℕ
  pub created_at : ℕ

pub record Usage : Type 0 where
  pub key_id : ℕ
  pub day : ℕ
  pub request_count : ℕ

pub record Keys : Type 0 where
  pub api_keys : List ApiKeyRow
  pub api_key_usage : List Usage

-- `text.slice(0, n)`.
abbrev pub slice : ℕ → String → String
slice Prim.Native.Nat.zero s = ""
slice (Prim.Native.Nat.suc n) String.[] = ""
slice (Prim.Native.Nat.suc n) (String.◌∷◌ c s) = String.◌∷◌ c (slice n s)

abbrev pub api_key_prefix : String
api_key_prefix = "sp_live_"

-- `random` is the text of the 32 random bytes in base64url.
abbrev pub generate_api_key : (random : String) → String
generate_api_key random = String.◌++◌ api_key_prefix random

pub record CreateInput : Type 0 where
  pub team_id : ℕ
  pub created_by : ℕ
  pub name : String

-- `id` and `now` are the defaults of the columns `id` and `created_at`.
unfoldable pub create_api_key :
    (hash_api_key : String → String)
    → (id now : ℕ) → (random : String) → CreateInput
    → Keys
    → Keys × String
create_api_key hash_api_key id now random input keys =
    let full_key = generate_api_key random in
    (
      record keys {
        api_keys =
            keys.api_keys
            ++ record {
              id = id;
              team_id = input.team_id;
              created_by = input.created_by;
              name = input.name;
              prefix = slice 15 full_key;
              key_hash = hash_api_key full_key;
              last_used_at = none;
              revoked_at = none;
              expires_at = none;
              created_at = now;
            }
              ∷ [];
      },
      full_key,
    )

abbrev pub is_none : Option ℕ → Bool
is_none none = true
is_none (some _) = false

-- `where id = $1 and team_id = $2 and revoked_at is null`.
abbrev pub is_usable : (team_id key_id : ℕ) → ApiKeyRow → Bool
is_usable team_id key_id row =
    row.id == key_id && (row.team_id == team_id && is_none row.revoked_at)

unfoldable pub revoke_api_key : (now team_id key_id : ℕ) → Keys → Keys × Bool
revoke_api_key now team_id key_id keys = (
  record keys {
    api_keys =
        update (is_usable team_id key_id) (λ row. record row { revoked_at = some now })
          keys.api_keys;
  },
  exists (is_usable team_id key_id) keys.api_keys,
)

unfoldable pub find_api_key : String → Keys → Option ApiKeyRow
find_api_key key_hash keys = find (λ row. str_eq row.key_hash key_hash) keys.api_keys

unfoldable pub find_api_key_by_prefix : String → Keys → Option ApiKeyRow
find_api_key_by_prefix prefix keys = find (λ row. str_eq row.prefix prefix) keys.api_keys

abbrev pub is_usage : (key_id day : ℕ) → Usage → Bool
is_usage key_id day u = u.key_id == key_id && u.day == day

-- `insert ... on conflict (key_id, day) do update`.
abbrev pub count_usage : (day key_id : ℕ) → List Usage → List Usage
count_usage day key_id usage =
    if exists (is_usage key_id day) usage
    then update (is_usage key_id day) (λ u. record u { request_count = u.request_count + 1 }) usage
    else usage ++ record { key_id = key_id; day = day; request_count = 1 } ∷ []

unfoldable pub record_api_key_usage : (now day key_id : ℕ) → Keys → Keys
record_api_key_usage now day key_id keys = record {
  api_keys =
      update (λ row. row.id == key_id) (λ row. record row { last_used_at = some now })
        keys.api_keys;
  api_key_usage = count_usage day key_id keys.api_key_usage;
}
