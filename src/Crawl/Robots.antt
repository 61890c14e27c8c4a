-- ===== src/Crawl/Robots.antt =====
-- packages/shared/src/routes.ts, `parseRobotsTxt` and `isPathDisallowed`. A text is a list of its
-- characters; `toLowerCase` is that of ASCII, which is enough for the names of the fields.
use Prim.Native.Char.{Char, code}
use Prim.Native.String
use Prim.Native.String.{String, [], ◌∷◌}
use mathlib.Core.List.{List, [], ◌∷◌, ◌++◌}
use scan_pal.Common.{
  ℕ, ◌+◌, Option, none, some, Bool, true, false, ◌&&◌, ◌||◌, not, str_eq, ◌==◌, leb, if◌then◌else◌,
}
use text.Mathlib.Text.{starts_with}

abbrev is_char : ℕ → Char → Bool
is_char n c = code c == n

-- `split("#")[0]`.
unfoldable pub before : ℕ → String → String
before n [] = []
before n (c ∷ s) = let rest = before n s in if is_char n c then [] else c ∷ rest

-- The characters that `trim` removes.
abbrev is_space : ℕ → Bool
is_space n =
    leb 9 n && leb n 13
    || n == 32
    || n == 160
    || n == 5760
    || leb 8192 n && leb n 8202
    || n == 8232
    || n == 8233
    || n == 8239
    || n == 8287
    || n == 12288
    || n == 65279

unfoldable pub trim_start : String → String
trim_start [] = []
trim_start (c ∷ s) = let rest = trim_start s in if is_space (code c) then rest else c ∷ s

abbrev cons_unless_blank : Char → String → String
cons_unless_blank c [] = if is_space (code c) then [] else c ∷ []
cons_unless_blank c (d ∷ s) = c ∷ d ∷ s

unfoldable pub trim_end : String → String
trim_end [] = []
trim_end (c ∷ s) = cons_unless_blank c (trim_end s)

unfoldable pub trim : String → String
unfolding trim_start trim_end
trim s = trim_end (trim_start s)

abbrev first_of : Char → Option (String × String) → Option (String × String)
first_of c none = none
first_of c (some (field, value)) = some (c ∷ field, value)

-- The text before the first colon, and the text behind it.
unfoldable pub split_colon : String → Option (String × String)
split_colon [] = none
split_colon (c ∷ s) =
    let rest = split_colon s in if is_char 58 c then some ([], s) else first_of c rest

abbrev lower : ℕ → ℕ
lower n = if leb 65 n && leb n 90 then n + 32 else n

-- `field.toLowerCase() === name`, of a name in lower case.
unfoldable pub is_field : (field name : String) → Bool
is_field [] [] = true
is_field [] (d ∷ name) = false
is_field (c ∷ field) [] = false
is_field (c ∷ field) (d ∷ name) = lower (code c) == code d && is_field field name

pub record RobotsParseResult : Type 0 where
  pub sitemaps : List String
  pub disallowed_paths : List String

-- The variables of the loop.
pub record Group : Type 0 where
  pub applies_to_all : Bool
  pub found : RobotsParseResult

abbrev pub push_sitemap : String → Group → Group
push_sitemap value g = record g {
  found = record g.found { sitemaps = g.found.sitemaps ++ value ∷ [] };
}

abbrev pub push_disallow : String → Group → Group
push_disallow value g = record g {
  found = record g.found { disallowed_paths = g.found.disallowed_paths ++ value ∷ [] };
}

unfoldable pub read_directive : (field value : String) → Group → Group
unfolding is_field
read_directive field value g =
    if is_field field "user-agent"
    then record g { applies_to_all = str_eq value "*" }
    else (if is_field field "sitemap"
        then push_sitemap value g
        else (if is_field field "disallow" && (g.applies_to_all && not (str_eq value ""))
            then push_disallow value g
            else g))

abbrev pub read_pair : Option (String × String) → Group → Group
read_pair none g = g
read_pair (some (field, value)) g = read_directive (trim field) (trim value) g

-- One turn of the loop.
unfoldable pub read_line : String → Group → Group
unfolding read_directive trim before split_colon
read_line line g =
    let trimmed = trim (before 35 line) in
    if str_eq trimmed "" then g else read_pair (split_colon trimmed) g

unfoldable pub read_lines : List String → Group → Group
unfolding read_line
read_lines [] g = g
read_lines (line ∷ lines) g = read_lines lines (read_line line g)

-- The lines of the file, which `split(/\r?\n/)` gives.
unfoldable pub parse_robots_txt : List String → RobotsParseResult
unfolding read_lines
parse_robots_txt lines =
    (read_lines lines (record {
      applies_to_all = true;
      found = record { sitemaps = []; disallowed_paths = [] };
    })).found

-- `slice(0, -1)`.
unfoldable pub init : String → String
init [] = []
init (c ∷ s) = let rest = init s in elim s [ [] ↦ [] | _ ∷ _ ↦ c ∷ rest ]

unfoldable pub ends_with : ℕ → String → Bool
ends_with n [] = false
ends_with n (c ∷ s) = let rest = ends_with n s in elim s [ [] ↦ is_char n c | _ ∷ _ ↦ rest ]

-- `replace(/\*$/, "")`.
abbrev pub strip_star : String → String
strip_star s = if ends_with 42 s then init s else s

-- One turn of the loop: the pattern disallows the path.
unfoldable pub disallows : (pattern path : String) → Bool
unfolding init ends_with
disallows pattern path =
    if str_eq pattern "/"
    then false
    else (if ends_with 36 pattern
        then (let prefix = strip_star (init pattern) in
            if str_eq prefix "" then str_eq path "" else starts_with path prefix)
        else (if ends_with 42 pattern
            then starts_with path (init pattern)
            else str_eq path pattern
              || starts_with path
                  (if ends_with 47 pattern then pattern else String.◌++◌ pattern "/")))

unfoldable pub is_path_disallowed : (path : String) → (patterns : List String) → Bool
unfolding disallows
is_path_disallowed path [] = false
is_path_disallowed path (pattern ∷ patterns) =
    disallows pattern path || is_path_disallowed path patterns
