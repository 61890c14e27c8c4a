-- ===== src/Crawl/Anchors.antt =====
-- What the rules of a robots.txt come to: packages/shared/src/routes.ts.
use Prim.Native.String
use Prim.Native.String.{String, [], ◌∷◌}
use mathlib.Core.List.{List, [], ◌∷◌, ◌++◌, append-nil, append_assoc}
use scan_pal.Common.{
  ◌≡◌, refl, sym, ap, ◌∙◌, arith, Option, none, some, Bool, true, false, str_eq, eq_iff,
  if◌then◌else◌, All, Bool-cases, inl, inr,
}
use text.Mathlib.TextLemmas.{cons-append}
use text.Mathlib.TextPositions.{starts_with-append}
use scan_pal.Crawl.Robots.{
  before, trim, split_colon, Group, RobotsParseResult, is_field, read_directive, read_pair,
  push_disallow, read_line, read_lines, parse_robots_txt, init, ends_with, disallows,
  is_path_disallowed,
}

-- What the lines say, each with its field and its value.
abbrev pair_of : Option (String × String) → List (String × String) → List (String × String)
pair_of none rest = rest
pair_of (some (field, value)) rest = (trim field, trim value) ∷ rest

abbrev pub directives : List String → List (String × String)
directives [] = []
directives (line ∷ lines) =
    let trimmed = trim (before 35 line) in
    let rest = directives lines in
    if str_eq trimmed "" then rest else pair_of (split_colon trimmed) rest

abbrev pub read_all : List (String × String) → Group → Group
read_all [] g = g
read_all ((field, value) ∷ ds) g = read_all ds (read_directive field value g)

read_pair-pair_of :
    (lines : List String) (o : Option (String × String)) (g : Group)
    → ((k : Group) → read_lines lines k ≡ read_all (directives lines) k)
    → read_lines lines (read_pair o g) ≡ read_all (pair_of o (directives lines)) g
read_pair-pair_of lines none g h = h g
read_pair-pair_of lines (some (field, value)) g h = h (read_directive (trim field) (trim value) g)

read_lines-directives :
    (lines : List String) (g : Group) → read_lines lines g ≡ read_all (directives lines) g
unfolding read_lines read_line
read_lines-directives [] g = refl
read_lines-directives (line ∷ lines) g =
    let trimmed = trim (before 35 line) in
    elim (Bool-cases (str_eq trimmed "")) [
      | inl blank ↦ rw blank (read_lines-directives lines g)
      | inr text ↦
          rw text
            (read_pair-pair_of lines (split_colon trimmed) g (λ k. read_lines-directives lines k))
    ]

abbrev pub IsText : String → Type 0
IsText s = str_eq s "" ≡ false

-- A line with the name of an agent.
abbrev pub IsAgent : String × String → Type 0
IsAgent d = is_field d.0 "user-agent" ≡ true

-- A line with a path that is disallowed.
abbrev pub IsRule : String × String → Type 0
IsRule d =
    (is_field d.0 "user-agent" ≡ false)
    × (is_field d.0 "sitemap" ≡ false)
    × (is_field d.0 "disallow" ≡ true)
    × IsText d.1

abbrev pub paths_of : List (String × String) → List String
paths_of [] = []
paths_of ((field, value) ∷ ds) = value ∷ paths_of ds

read_all-append :
    (xs ys : List (String × String)) (g : Group)
    → read_all (xs ++ ys) g ≡ read_all ys (read_all xs g)
read_all-append [] ys g = refl
read_all-append ((field, value) ∷ xs) ys g = read_all-append xs ys (read_directive field value g)

read_agent :
    (d : String × String) (g : Group)
    → IsAgent d
    → read_directive d.0 d.1 g ≡ record g { applies_to_all = str_eq d.1 "*" }
unfolding read_directive
read_agent (field, value) g h = rw h refl

-- Lines with names of agents leave what has been found.
read_all-agents :
    (names : List (String × String)) (g : Group)
    → All IsAgent names
    → (read_all names g).found ≡ g.found
read_all-agents [] g a = refl
read_all-agents ((field, value) ∷ names) g (h, a) =
    ap (λ k. (read_all names k).found) (read_agent (field, value) g h)
    ∙ read_all-agents names (record g { applies_to_all = str_eq value "*" }) a

read_rule :
    (d : String × String) (all : Bool) (found : RobotsParseResult)
    → IsRule d
    → read_directive d.0 d.1 (record { applies_to_all = all; found = found }) ≡ (
        if all
        then push_disallow d.1 (record { applies_to_all = all; found = found })
        else record { applies_to_all = all; found = found })
unfolding read_directive
read_rule (field, value) true found (a, s, d, t) = rw (a, s, d, t) refl
read_rule (field, value) false found (a, s, d, t) = rw (a, s, d) refl

read_all-rules :
    (rules : List (String × String)) (all : Bool) (found : RobotsParseResult)
    → All IsRule rules
    → (read_all rules (record { applies_to_all = all; found = found })).found.disallowed_paths
      ≡ found.disallowed_paths ++ (if all then paths_of rules else [])
read_all-rules [] true found a = sym (append-nil found.disallowed_paths)
read_all-rules [] false found a = sym (append-nil found.disallowed_paths)
read_all-rules ((field, value) ∷ rules) true found (h, a) =
    let longer = record found { disallowed_paths = found.disallowed_paths ++ value ∷ [] } in
    ap (λ g. (read_all rules g).found.disallowed_paths) (read_rule (field, value) true found h)
    ∙ read_all-rules rules true longer a
    ∙ append_assoc found.disallowed_paths (value ∷ []) (paths_of rules)
read_all-rules ((field, value) ∷ rules) false found (h, a) =
    ap (λ g. (read_all rules g).found.disallowed_paths) (read_rule (field, value) false found h)
    ∙ read_all-rules rules false found a

ends_with_last : (p : String) → ends_with 36 (String.◌++◌ p "$") ≡ true
unfolding ends_with
ends_with_last [] = refl
ends_with_last (c ∷ []) = rw (cons-append c "" "$") refl
ends_with_last (c ∷ (d ∷ p)) =
    rw (cons-append c (d ∷ p) "$", cons-append d p "$")
      (ap (ends_with 36) (sym (cons-append d p "$")) ∙ ends_with_last (d ∷ p))

init_last : (p : String) → init (String.◌++◌ p "$") ≡ p
unfolding init
init_last [] = refl
init_last (c ∷ []) = rw (cons-append c "" "$") refl
init_last (c ∷ (d ∷ p)) =
    rw (cons-append c (d ∷ p) "$", cons-append d p "$")
      (ap (λ s. c ∷ s) (ap init (sym (cons-append d p "$")) ∙ init_last (d ∷ p)))

-- No text that ends in `$` is the root.
not_root : (p : String) → str_eq (String.◌++◌ p "$") "/" ≡ false
unfolding ends_with
not_root p = elim (Bool-cases (str_eq (String.◌++◌ p "$") "/")) [
  | inr other ↦ other
  | inl root ↦
      let same : String.◌++◌ p "$" ≡ "/" = (eq_iff _ _).0 root in
      absurd (ground (arith, ends_with_last p, ap (ends_with 36) same))
]

disallows_anchor :
    (p rest : String)
    → IsText p
    → ends_with 42 p ≡ false
    → disallows (String.◌++◌ p "$") (String.◌++◌ p rest) ≡ true
unfolding disallows
disallows_anchor p rest h star =
    rw (not_root p, ends_with_last p, init_last p, star, h) (starts_with-append p rest)

-- A pattern that ends in `$`, with a text before it that is not empty and does not end in `*`,
-- disallows every path that begins with that text, however it goes on.
pub is_path_disallowed-anchor :
    (p rest : String) (patterns : List String)
    → IsText p
    → ends_with 42 p ≡ false
    → is_path_disallowed (String.◌++◌ p rest) (String.◌++◌ p "$" ∷ patterns) ≡ true
unfolding is_path_disallowed
is_path_disallowed-anchor p rest patterns h star = rw (disallows_anchor p rest h star) refl

-- When the lines of a robots.txt that say something are names of agents followed by rules with a
-- path, the rules are taken exactly when the last name is `*`, whatever the names before it.
pub parse_robots_txt-last_agent :
    (lines : List String) (names rules : List (String × String)) (last : String × String)
    → All IsAgent names
    → IsAgent last
    → All IsRule rules
    → directives lines ≡ names ++ last ∷ rules
    → (parse_robots_txt lines).disallowed_paths ≡ (if str_eq last.1 "*" then paths_of rules else [])
unfolding parse_robots_txt
parse_robots_txt-last_agent lines names rules last n l r e =
    let start : Group = record {
      applies_to_all = true;
      found = record { sitemaps = []; disallowed_paths = [] };
    } in
    let named = read_all names start in
    let all = str_eq last.1 "*" in
    ap (λ (g : Group). g.found.disallowed_paths) (read_lines-directives lines start)
    ∙ ap (λ ds. (read_all ds start).found.disallowed_paths) e
    ∙ ap (λ (g : Group). g.found.disallowed_paths) (read_all-append names (last ∷ rules) start)
    ∙ ap (λ (g : Group). (read_all rules g).found.disallowed_paths) (read_agent last named l)
    ∙ read_all-rules rules all named.found r
    ∙ ap
        (λ (found : RobotsParseResult).
          found.disallowed_paths ++ (if all then paths_of rules else []))
        (read_all-agents names start n)
