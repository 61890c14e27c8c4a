-- ===== src/Crawl/Paths.antt =====
-- What a rule of a robots.txt without `*` or `$` disallows: packages/shared/src/routes.ts.
use Prim.Native.String
use Prim.Native.String.{String}
use mathlib.Core.List.{List, [], ◌∷◌}
use text.Mathlib.TextBridge.{IsPrefix}
use text.Mathlib.TextEquality.{starts_with_iff}
use scan_pal.Common.{
  ◌≡◌, ◌↔◌, ◌⊎◌, inl, inr, refl, sym, ap, ◌∙◌, arith, true, false, ◌||◌, str_eq, eq_iff, All,
  Bool-cases,
}
use text.Mathlib.Text.{starts_with}
use scan_pal.Crawl.Robots.{ends_with, disallows, is_path_disallowed}

-- The rule does not end in `$`, `*` or `/`.
abbrev pub IsPlain : String → Type 0
IsPlain rule =
    (ends_with 36 rule ≡ false) × (ends_with 42 rule ≡ false) × (ends_with 47 rule ≡ false)

-- The path is the rule, or goes on after it with a `/`.
abbrev pub IsBelow : (path rule : String) → Type 0
IsBelow path rule = (path ≡ rule) ⊎ IsPrefix (String.◌++◌ rule "/") path

not_root : (rule : String) → IsPlain rule → str_eq rule "/" ≡ false
unfolding ends_with
not_root rule (_, _, slash) = elim (Bool-cases (str_eq rule "/")) [
  | inr other ↦ other
  | inl root ↦ absurd (ground (arith, slash, ap (ends_with 47) ((eq_iff rule "/").0 root)))
]

disallows_plain :
    (rule path : String)
    → IsPlain rule
    → disallows rule path ≡ (str_eq path rule || starts_with path (String.◌++◌ rule "/"))
unfolding disallows
disallows_plain rule path (dollar, star, slash) =
    rw (not_root rule (dollar, star, slash), dollar, star, slash) refl

-- A plain rule disallows the path that it names and those below it.
disallows_iff :
    (rule path : String) → IsPlain rule → (disallows rule path ≡ true) ↔ IsBelow path rule
disallows_iff rule path plain = (
  λ h. elim (Bool-cases (str_eq path rule)) [
    | inl same ↦ inl ((eq_iff path rule).0 same)
    | inr other ↦
        inr ((starts_with_iff path _).0 (ground (arith, sym (disallows_plain rule path plain) ∙ h)))
  ],
  λ b. disallows_plain rule path plain ∙ elim b [
    | inl same ↦ rw ((eq_iff path rule).1 same) refl
    | inr below ↦ ground (arith, (starts_with_iff path _).1 below)
  ],
)

-- Rules that are all plain leave a path open exactly when it is below none of them.
pub is_path_disallowed_iff :
    (path : String) (rules : List String)
    → All IsPlain rules
    → (is_path_disallowed path rules ≡ false) ↔ All (λ rule. ¬ IsBelow path rule) rules
unfolding is_path_disallowed
is_path_disallowed_iff path [] plain = (λ h. tt, λ a. refl)
is_path_disallowed_iff path (rule ∷ rules) (p, plain) = (
  λ h. (
    λ b. absurd (ground (arith, (disallows_iff rule path p).1 b)),
    (is_path_disallowed_iff path rules plain).0 (ground arith),
  ),
  λ (n, a). elim (Bool-cases (disallows rule path)) [
    | inl hit ↦ absurd (n ((disallows_iff rule path p).0 hit))
    | inr miss ↦ rw miss ((is_path_disallowed_iff path rules plain).1 a)
  ],
)
