-- ===== src/Api/Lookup.antt =====
-- Which row the two lookups find after a key has been made.
use scan_pal.Common.{
  ℕ, ◌≡◌, refl, Option, none, some, List, [], ◌∷◌, ◌++◌, Bool, true, String, eq_iff, find,
  Bool-cases, inl, inr,
}
use scan_pal.Api.Keys.{
  ApiKeyRow, Keys, slice, generate_api_key, CreateInput, create_api_key, find_api_key,
  find_api_key_by_prefix,
}

-- The row that `createApiKey` inserts.
abbrev pub made_row : (String → String) → (id now : ℕ) → (random : String) → CreateInput → ApiKeyRow
made_row hash_api_key id now random input = record {
  id = id;
  team_id = input.team_id;
  created_by = input.created_by;
  name = input.name;
  prefix = slice 15 (generate_api_key random);
  key_hash = hash_api_key (generate_api_key random);
  last_used_at = none;
  revoked_at = none;
  expires_at = none;
  created_at = now;
}

-- The first of the rows there, or the new one.
abbrev or_made : ApiKeyRow → Option ApiKeyRow → Option ApiKeyRow
or_made row none = some row
or_made row (some old) = some old

find-made :
    (p : ApiKeyRow → Bool) (rows : List ApiKeyRow) (row : ApiKeyRow)
    → p row ≡ true
    → find p (rows ++ row ∷ []) ≡ or_made row (find p rows)
find-made p [] row h = rw h refl
find-made p (x ∷ rows) row h = elim (Bool-cases (p x)) [
  | inl hit ↦ rw hit refl
  | inr miss ↦ rw miss (find-made p rows row h)
]

-- The lookup by hash, and the one by prefix, find the new row only if no earlier row has the same
-- hash, or the same first fifteen characters.
pub create_api_key-find :
    (hash_api_key : String → String) (id now : ℕ) (random : String) (input : CreateInput)
    (keys : Keys)
    → let made = create_api_key hash_api_key id now random input keys in
      let row = made_row hash_api_key id now random input in
      (find_api_key (hash_api_key made.1) made.0
        ≡ or_made row (find_api_key (hash_api_key made.1) keys))
      × (find_api_key_by_prefix (slice 15 made.1) made.0
          ≡ or_made row (find_api_key_by_prefix (slice 15 made.1) keys))
unfolding create_api_key find_api_key find_api_key_by_prefix
create_api_key-find hash_api_key id now random input keys =
    let row = made_row hash_api_key id now random input in
    (
      find-made _ keys.api_keys row ((eq_iff row.key_hash row.key_hash).1 refl),
      find-made _ keys.api_keys row ((eq_iff row.prefix row.prefix).1 refl),
    )
