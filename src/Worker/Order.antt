-- ===== src/Worker/Order.antt =====
-- `mapWithConcurrency` gives the results in the order of the items, whichever worker goes first.
use scan_pal.Common.{
  ℕ, zero, suc, ◌+◌, ◌≤◌, ◌<◌, ◌≡◌, refl, arith, min, none, some, List, [], ◌∷◌, ◌++◌, Bool, true,
  false, leb, ==_iff, if◌then◌else◌, length, put, count, count-append, Bool-cases, inl, inr,
}
use scan_pal.Worker.Pool.{
  WorkerState, ready, waiting, returned, limit_of, replicate_ready, get_elem?, Pool, start_pool,
  Turn, take_next, resume, Run, here, next, expected, is_waiting_for, is_returned,
}

module _ {A R : Type 0} (fn : A → ℕ → R) (items : List A) where
  -- Each index is with one worker at most, and has its result when no worker brings it any more.
  pub record IsFair (p : Pool fn) : Type 0 where
    pub once : (i : ℕ) → count (is_waiting_for fn i) p.workers ≤ 1
    pub taken :
        (i : ℕ)
        → i < p.next_index
        → i < length items
        → count (is_waiting_for fn i) p.workers ≡ 0
        → p.results i ≡ expected fn items i
    pub untaken :
        (i : ℕ)
        → p.next_index ≤ i
        → (count (is_waiting_for fn i) p.workers ≡ 0) × (p.results i ≡ none)
    pub outside : (i : ℕ) → length items ≤ i → p.results i ≡ none
    pub inside : (i : ℕ) → 1 ≤ count (is_waiting_for fn i) p.workers → i < length items
    pub over : 1 ≤ count (is_returned fn) p.workers → length items ≤ p.next_index

  -- A worker that changes its state changes the counts by itself alone.
  count-swap :
      (t : WorkerState → Bool) (pre post old : List WorkerState) (v w : WorkerState)
      → old ≡ pre ++ v ∷ post
      → count t (pre ++ w ∷ post) + (if t v then 1 else 0) ≡ count t old + (if t w then 1 else 0)
  count-swap t pre post old v w e =
      rw e (omega (arith, count-append t pre (w ∷ post), count-append t pre (v ∷ post)))

  pub waiting_self : (i : ℕ) → is_waiting_for fn i (waiting i) ≡ true
  waiting_self i = ground (arith, ==_iff i i)

  pub get_elem?-beyond : (xs : List A) (i : ℕ) → length xs ≤ i → get_elem? fn xs i ≡ none
  get_elem?-beyond [] i h = refl
  get_elem?-beyond (x ∷ xs) zero h = absurd (omega arith)
  get_elem?-beyond (x ∷ xs) (suc i) h = get_elem?-beyond xs i (omega arith)

  -- The next index goes to a worker.
  take-IsFair :
      (pre post : List WorkerState) (p : Pool fn)
      → p.workers ≡ pre ++ ready ∷ post
      → p.next_index < length items
      → IsFair p
      → IsFair
          (record p { next_index = suc p.next_index; workers = pre ++ waiting p.next_index ∷ post })
  take-IsFair pre post p e l s = record {
    once = λ i. ground (
      arith,
      count-swap (is_waiting_for fn i) pre post p.workers ready (waiting p.next_index) e,
      s.once i,
      s.untaken i,
    );
    taken = λ i below inside none_waits. ground (
      arith,
      count-swap (is_waiting_for fn i) pre post p.workers ready (waiting p.next_index) e,
      s.taken i,
    );
    untaken = λ i above. ground (
      arith,
      count-swap (is_waiting_for fn i) pre post p.workers ready (waiting p.next_index) e,
      s.untaken i,
    );
    outside = s.outside;
    inside = λ i some_wait. ground (
      arith,
      count-swap (is_waiting_for fn i) pre post p.workers ready (waiting p.next_index) e,
      s.inside i,
    );
    over = λ some_over. ground (
      arith,
      count-swap (is_returned fn) pre post p.workers ready (waiting p.next_index) e,
      s.over,
    );
  }

  -- A worker finds no index left, and returns.
  return-IsFair :
      (pre post : List WorkerState) (p : Pool fn)
      → p.workers ≡ pre ++ ready ∷ post
      → length items ≤ p.next_index
      → IsFair p
      → IsFair (record p { next_index = suc p.next_index; workers = pre ++ returned ∷ post })
  return-IsFair pre post p e l s = record {
    once = λ i.
        ground
          (arith, count-swap (is_waiting_for fn i) pre post p.workers ready returned e, s.once i);
    taken = λ i below inside none_waits.
        ground
          (arith, count-swap (is_waiting_for fn i) pre post p.workers ready returned e, s.taken i);
    untaken = λ i above.
        ground (
          arith,
          count-swap (is_waiting_for fn i) pre post p.workers ready returned e,
          s.untaken i,
        );
    outside = s.outside;
    inside = λ i some_wait.
        ground
          (arith, count-swap (is_waiting_for fn i) pre post p.workers ready returned e, s.inside i);
    over = λ some_over. omega (arith, l);
  }

  -- `fn` has answered.
  resume-IsFair :
      (pre post : List WorkerState) (p : Pool fn) (j : ℕ) (x : A)
      → p.workers ≡ pre ++ waiting j ∷ post
      → get_elem? fn items j ≡ some x
      → IsFair p
      → IsFair
          (record p { results = put j (some (fn x j)) p.results; workers = pre ++ ready ∷ post })
  resume-IsFair pre post p j x e g s = record {
    once = λ i.
        ground (
          arith,
          count-swap (is_waiting_for fn i) pre post p.workers (waiting j) ready e,
          s.once i,
        );
    taken = λ i below inside none_waits.
        ground (
          arith,
          count-swap (is_waiting_for fn i) pre post p.workers (waiting j) ready e,
          s.taken i,
        );
    untaken = λ i above. ground (
      arith,
      count-swap (is_waiting_for fn i) pre post p.workers (waiting j) ready e,
      s.untaken i,
    );
    outside = λ i beyond. ground (arith, s.outside i, get_elem?-beyond items i);
    inside = λ i some_wait. ground (
      arith,
      count-swap (is_waiting_for fn i) pre post p.workers (waiting j) ready e,
      s.inside i,
    );
    over = λ some_over.
        ground (arith, count-swap (is_returned fn) pre post p.workers (waiting j) ready e, s.over);
  }

  Turn-IsFair : {p q : Pool fn} → Turn fn items p q → IsFair p → IsFair q
  Turn-IsFair (take_next pre post p q e step) s =
      elim (Bool-cases (leb (length items) p.next_index)) [
        | inl all ↦ rw (step, all) (return-IsFair pre post p e (ground arith) s)
        | inr more ↦ rw (step, more) (take-IsFair pre post p e (ground arith) s)
      ]
  Turn-IsFair (resume pre post p q i x e g step) s = rw step (resume-IsFair pre post p i x e g s)

  ready-idle : (t : WorkerState → Bool) (n : ℕ) → t ready ≡ false → count t (replicate_ready n) ≡ 0
  unfolding replicate_ready
  ready-idle t zero h = refl
  ready-idle t (suc n) h = rw h (omega (arith, ready-idle t n h))

  pub length-replicate_ready : (n : ℕ) → length (replicate_ready n) ≡ n
  unfolding replicate_ready
  length-replicate_ready zero = refl
  length-replicate_ready (suc n) = omega (arith, length-replicate_ready n)

  pub start_pool-IsFair : (concurrency : ℕ) → IsFair (start_pool fn items concurrency)
  unfolding start_pool
  start_pool-IsFair concurrency =
      let n = min (limit_of concurrency) (length items) in
      record {
        once = λ i. omega (arith, ready-idle (is_waiting_for fn i) n refl);
        taken = λ i below inside none_waits. absurd (omega arith);
        untaken = λ i above. (ready-idle (is_waiting_for fn i) n refl, refl);
        outside = λ i beyond. refl;
        inside = λ i some_wait. absurd (omega (arith, ready-idle (is_waiting_for fn i) n refl));
        over = λ some_over. absurd (omega (arith, ready-idle (is_returned fn) n refl));
      }

  pub Run-IsFair : {p q : Pool fn} → Run fn items p q → IsFair p → IsFair q
  Run-IsFair here s = s
  Run-IsFair (next r t) s = Turn-IsFair t (Run-IsFair r s)
