-- ===== src/Worker/Pool.antt =====
-- apps/worker/src/concurrency.ts, `mapWithConcurrency`: workers share the variable `nextIndex`, and
-- whatever happens between two `await`s happens at once. Which worker goes on next is left open: a
-- step relation. `fn` is a function here; a call of it that is rejected ends the whole, and is not
-- modelled.
use scan_pal.Common.{
  ℕ, zero, suc, ◌≡◌, min, max, Option, none, some, List, [], ◌∷◌, ◌++◌, Bool, true, false, leb,
  ◌==◌, if◌then◌else◌, length, put,
}

-- A worker: at the head of its loop, waiting for `fn`, or returned.
pub data WorkerState : Type 0 where
  ready : WorkerState
  waiting : (index : ℕ) → WorkerState
  returned : WorkerState

-- The result of a number that is not a whole one or not positive is 1.
unfoldable pub limit_of : (concurrency : ℕ) → ℕ
limit_of c = max 1 c

unfoldable pub replicate_ready : ℕ → List WorkerState
replicate_ready zero = []
replicate_ready (suc n) = ready ∷ replicate_ready n

module _ {A R : Type 0} (fn : A → ℕ → R) where
  abbrev pub get_elem? : List A → ℕ → Option A
  get_elem? [] i = none
  get_elem? (x ∷ xs) zero = some x
  get_elem? (x ∷ xs) (suc i) = get_elem? xs i

  pub record Pool : Type 0 where
    pub next_index : ℕ
    pub results : ℕ → Option R
    pub workers : List WorkerState

  unfoldable pub start_pool : List A → ℕ → Pool
  unfolding replicate_ready limit_of
  start_pool items concurrency = record {
    next_index = 0;
    results = λ i. none;
    workers = replicate_ready (min (limit_of concurrency) (length items));
  }

  -- A worker takes the next index, and calls `fn` or returns.
  abbrev pub take_index : List A → Pool → WorkerState
  take_index items p = if leb (length items) p.next_index then returned else waiting p.next_index

  -- One worker goes on: `pre` and `post` are the other workers.
  pub data Turn (items : List A) : Pool → Pool → Type 0 where
    take_next :
        (pre post : List WorkerState) (p q : Pool)
        → p.workers ≡ pre ++ ready ∷ post
        → q ≡ record p { next_index = suc p.next_index; workers = pre ++ take_index items p ∷ post }
        → Turn items p q
    resume :
        (pre post : List WorkerState) (p q : Pool) (i : ℕ) (x : A)
        → p.workers ≡ pre ++ waiting i ∷ post
        → get_elem? items i ≡ some x
        → q ≡ record p { results = put i (some (fn x i)) p.results; workers = pre ++ ready ∷ post }
        → Turn items p q

  pub data Run (items : List A) (p : Pool) : Pool → Type 0 where
    here : Run items p p
    next : {q r : Pool} → Run items p q → Turn items q r → Run items p r

  -- The result that an index has, or is to get.
  abbrev pub expected : List A → ℕ → Option R
  expected items i = elim (get_elem? items i) [ none ↦ none | some x ↦ some (fn x i) ]

  abbrev pub is_waiting_for : ℕ → WorkerState → Bool
  is_waiting_for i (waiting j) = j == i
  is_waiting_for i _ = false

  abbrev pub is_returned : WorkerState → Bool
  is_returned returned = true
  is_returned _ = false
