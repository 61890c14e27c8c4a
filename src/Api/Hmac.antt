-- ===== src/Api/Hmac.antt =====
-- apps/web/lib/api-hmac.ts: what a signed request is checked for. The hashes of `node:crypto` are
-- parameters.
use Prim.Native.Char.{code}
use scan_pal.Common.{
  ℕ, ◌+◌, ◌-◌, ◌*◌, Option, none, some, Bool, false, ◌&&◌, String, leb, if◌then◌else◌,
}

abbrev pub hmac_timestamp_tolerance_seconds : ℕ
hmac_timestamp_tolerance_seconds = 300

-- `Number(text)` for a text of digits alone that is not empty; `none` for any other.
digits : Option ℕ → String → Option ℕ
digits seen String.[] = seen
digits seen (String.◌∷◌ c s) =
    let rest = digits (some (10 * (elim seen [ none ↦ 0 | some n ↦ n ]) + (code c - 48))) s in
    if leb 48 (code c) && leb (code c) 57 then rest else none

-- `|now / 1000 - ts| <= tolerance` in exact arithmetic, `now` in milliseconds. The timestamp is a
-- text without white space around it.
unfoldable pub is_timestamp_valid : String → (now tolerance_seconds : ℕ) → Bool
unfolding digits
is_timestamp_valid timestamp now tolerance_seconds = elim (digits none timestamp) [
  | none ↦ false
  | some ts ↦
      leb now (1000 * (ts + tolerance_seconds)) && leb (1000 * ts) (now + 1000 * tolerance_seconds)
]
