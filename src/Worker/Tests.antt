-- ===== src/Worker/Tests.antt =====
-- Two workers on three items.
use scan_pal.Common.{ℕ, ◌+◌, ◌*◌, ◌≤◌, ◌≡◌, refl, min, List, [], ◌∷◌, ◌⊎◌, length}
use scan_pal.Worker.Pool.{
  ready, Pool, start_pool, Turn, take_next, resume, Run, here, next, expected, limit_of,
  replicate_ready,
}
use scan_pal.Worker.Ends.{turns_of, Run-ends}

abbrev items : List ℕ
items = 5 ∷ 6 ∷ 7 ∷ []

abbrev double : ℕ → ℕ → ℕ
double x i = 2 * x

-- The second worker goes first.
abbrev first_run : (p : Pool double) × Run double items (start_pool double items 2) p
unfolding start_pool replicate_ready limit_of
first_run = (
  _,
  next (next here (take_next (ready ∷ []) [] _ _ refl refl))
      (resume (ready ∷ []) [] _ _ 0 5 refl refl refl),
)

Run-ends_example :
    (turns_of double items first_run.1 ≤ min (limit_of 2) 3 + 2 * 3)
    × (length first_run.0.workers ≡ min (limit_of 2) 3)
    × (((q : Pool double) × Turn double items first_run.0 q)
        ⊎ ((i : ℕ) → first_run.0.results i ≡ expected double items i))
Run-ends_example = Run-ends double items 2 first_run.0 first_run.1
