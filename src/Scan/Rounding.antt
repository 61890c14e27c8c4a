-- ===== src/Scan/Rounding.antt =====
-- The floating-point arithmetic of the scores, as an interface: JavaScript's doubles are not
-- available here. `percent p n` is `Math.round((p / n) * 100)` for 0 < n, and `blend r c` is
-- `Math.round(r * (1 - COMPLIANCE_WEIGHT) + c * COMPLIANCE_WEIGHT)` on whole scores. The laws are
-- those of correctly rounded arithmetic: it is monotone, exact at 0 and 1, and a weighted mean of
-- two whole numbers rounds to a whole number between them.
use native.Mathlib.Nat.{le-div_iff_mul-le, div-mul-le_self, div-lt_iff_lt-mul}
use scan_pal.Common.{ℕ, ◌+◌, ◌*◌, ◌/◌, ◌≤◌, ◌<◌, ◌≡◌, arith, min, max}

pub record Rounding : Type 0 where
  pub percent : (part whole : ℕ) → ℕ
  pub percent_zero : (n : ℕ) → 0 < n → percent 0 n ≡ 0
  pub percent_full : (n : ℕ) → 0 < n → percent n n ≡ 100
  pub percent_mono : (p q n : ℕ) → 0 < n → p ≤ q → percent p n ≤ percent q n
  pub blend : (rest compliance : ℕ) → ℕ
  pub blend_min : (r c : ℕ) → min r c ≤ blend r c
  pub blend_max : (r c : ℕ) → blend r c ≤ max r c

-- Exact arithmetic, with halves rounded up.
exact_percent : ℕ → ℕ → ℕ
exact_percent p n = (200 * p + n) / (2 * n)

exact_blend : ℕ → ℕ → ℕ
exact_blend r c = (9 * r + c + 5) / 10

div-le-div_same : (a b n : ℕ) → 0 < n → a ≤ b → a / n ≤ b / n
div-le-div_same a b n h l = (le-div_iff_mul-le h).1 (omega (arith, div-mul-le_self a n))

exact_percent-zero : (n : ℕ) → 0 < n → exact_percent 0 n ≡ 0
unfolding exact_percent
exact_percent-zero n h =
    omega (
      arith,
      (div-lt_iff_lt-mul {k = 2 * n} {x = 200 * 0 + n} {y = 1} (omega arith)).1 (omega arith),
    )

exact_percent-full : (n : ℕ) → 0 < n → exact_percent n n ≡ 100
unfolding exact_percent
exact_percent-full n h = omega (
  arith,
  (div-lt_iff_lt-mul {k = 2 * n} {x = 200 * n + n} {y = 101} (omega arith)).1 (omega arith),
  (le-div_iff_mul-le {k = 2 * n} {x = 100} {y = 200 * n + n} (omega arith)).1 (omega arith),
)

exact_percent-mono : (p q n : ℕ) → 0 < n → p ≤ q → exact_percent p n ≤ exact_percent q n
unfolding exact_percent
exact_percent-mono p q n h l =
    div-le-div_same (200 * p + n) (200 * q + n) (2 * n) (omega arith) (omega arith)

exact_blend-min : (r c : ℕ) → min r c ≤ exact_blend r c
unfolding exact_blend
exact_blend-min r c = omega arith

exact_blend-max : (r c : ℕ) → exact_blend r c ≤ max r c
unfolding exact_blend
exact_blend-max r c = omega arith

-- The laws can be met.
unfoldable pub exact : Rounding
unfolding exact_percent exact_blend exact_percent-zero exact_percent-full exact_percent-mono
    div-le-div_same exact_blend-min exact_blend-max
exact = record {
  percent = exact_percent;
  percent_zero = exact_percent-zero;
  percent_full = exact_percent-full;
  percent_mono = exact_percent-mono;
  blend = exact_blend;
  blend_min = exact_blend-min;
  blend_max = exact_blend-max;
}
