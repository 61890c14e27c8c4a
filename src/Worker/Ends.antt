-- ===== src/Worker/Ends.antt =====
-- `mapWithConcurrency` comes to its end, with the results of `map`, and never has more calls open
-- than its limit.
use scan_pal.Common.{
  ℕ, zero, suc, ap, ◌+◌, ◌-◌, ◌*◌, ◌≤◌, ◌<◌, ◌≡◌, refl, sym, ◌∙◌, arith, min, none, some, List, [],
  ◌∷◌, ◌++◌, Bool, true, false, leb, length, count, length-append, Bool-cases, ◌⊎◌, ltb, inl, inr,
  count-le, count-append,
}
use scan_pal.Worker.Pool.{
  WorkerState, ready, waiting, returned, limit_of, replicate_ready, get_elem?, Pool, start_pool,
  take_index, Turn, take_next, resume, Run, here, next, expected, is_waiting_for, is_returned,
}
use scan_pal.Worker.Order.{
  IsFair, start_pool-IsFair, Run-IsFair, length-replicate_ready, waiting_self, get_elem?-beyond,
}

module _ {A R : Type 0} (fn : A → ℕ → R) (items : List A) where
  -- The turns that a worker still has with no index left.
  abbrev left_of : WorkerState → ℕ
  left_of ready = 1
  left_of (waiting i) = 2
  left_of returned = 0

  work : List WorkerState → ℕ
  work [] = 0
  work (w ∷ ws) = left_of w + work ws

  -- The turns that are left at most.
  unfoldable pub turns_left : Pool fn → ℕ
  unfolding work
  turns_left p = work p.workers + 2 * (length items - p.next_index)

  work-append : (pre post : List WorkerState) → work (pre ++ post) ≡ work pre + work post
  unfolding work
  work-append [] post = omega arith
  work-append (w ∷ pre) post = omega (arith, work-append pre post)

  work-swap :
      (pre post old : List WorkerState) (v w : WorkerState)
      → old ≡ pre ++ v ∷ post
      → work (pre ++ w ∷ post) + left_of v ≡ work old + left_of w
  unfolding work
  work-swap pre post old v w e =
      rw e (omega (arith, work-append pre (w ∷ post), work-append pre (v ∷ post)))

  Turn-fewer : {p q : Pool fn} → Turn fn items p q → turns_left q < turns_left p
  unfolding turns_left
  Turn-fewer (take_next pre post p q e step) = elim (Bool-cases (leb (length items) p.next_index)) [
    | inl all ↦ rw (step, all) (ground (arith, work-swap pre post p.workers ready returned e))
    | inr more ↦
        rw (step, more)
          (ground (arith, work-swap pre post p.workers ready (waiting p.next_index) e))
  ]
  Turn-fewer (resume pre post p q i x e g step) =
      rw step (omega (arith, work-swap pre post p.workers (waiting i) ready e))

  abbrev pub turns_of : {p q : Pool fn} → Run fn items p q → ℕ
  turns_of here = 0
  turns_of (next r t) = suc (turns_of r)

  Run-fewer : {p q : Pool fn} (r : Run fn items p q) → turns_of r + turns_left q ≤ turns_left p
  Run-fewer here = omega arith
  Run-fewer (next r t) = omega (arith, Run-fewer r, Turn-fewer t)

  Turn-workers : {p q : Pool fn} → Turn fn items p q → length q.workers ≡ length p.workers
  Turn-workers (take_next pre post p q e step) =
      rw (step, e)
        (omega (
          arith,
          length-append pre (ready ∷ post),
          length-append pre (take_index fn items p ∷ post),
        ))
  Turn-workers (resume pre post p q i x e g step) =
      rw (step, e)
        (omega (arith, length-append pre (waiting i ∷ post), length-append pre (ready ∷ post)))

  Run-workers : {p q : Pool fn} → Run fn items p q → length q.workers ≡ length p.workers
  Run-workers here = refl
  Run-workers (next r t) = Turn-workers t ∙ Run-workers r

  get_elem?-inside : (xs : List A) (i : ℕ) → i < length xs → (x : A) × (get_elem? fn xs i ≡ some x)
  get_elem?-inside [] i h = absurd (omega arith)
  get_elem?-inside (x ∷ xs) zero h = (x, refl)
  get_elem?-inside (x ∷ xs) (suc i) h = get_elem?-inside xs i (omega arith)

  -- A worker that has not returned, with the others before and after it.
  record Busy (ws : List WorkerState) : Type 0 where
    pre : List WorkerState
    worker : WorkerState
    post : List WorkerState
    split : ws ≡ pre ++ worker ∷ post
    busy : is_returned fn worker ≡ false

  find-Busy : (ws : List WorkerState) → count (is_returned fn) ws < length ws → Busy ws
  find-Busy [] h = absurd (omega arith)
  find-Busy (w ∷ ws) h = elim (Bool-cases (is_returned fn w)) [
    | inr b ↦ record { pre = []; worker = w; post = ws; split = refl; busy = b }
    | inl done ↦
        let b = find-Busy ws (ground arith) in
        record {
          pre = w ∷ b.pre;
          worker = b.worker;
          post = b.post;
          split = ap (λ xs. w ∷ xs) b.split;
          busy = b.busy;
        }
  ]

  count-found :
      (t : WorkerState → Bool) (pre post old : List WorkerState) (w : WorkerState)
      → old ≡ pre ++ w ∷ post
      → t w ≡ true
      → 1 ≤ count t old
  count-found t pre post old w e h = rw e (ground (arith, count-append t pre (w ∷ post)))

  next-Turn :
      (p : Pool fn) (pre post : List WorkerState) (w : WorkerState)
      → p.workers ≡ pre ++ w ∷ post
      → is_returned fn w ≡ false
      → IsFair fn items p
      → (q : Pool fn) × Turn fn items p q
  next-Turn p pre post ready e b s = (_, take_next pre post p _ e refl)
  next-Turn p pre post returned e b s = absurd (ground arith)
  next-Turn p pre post (waiting i) e b s =
      let found = get_elem?-inside items i (
        s.inside i (
          count-found (is_waiting_for fn i) pre post p.workers (waiting i) e
            (waiting_self fn items i))) in
      (_, resume pre post p _ i found.0 e found.1 refl)

  -- While a worker has not returned, some worker has a turn.
  Run-progress :
      (concurrency : ℕ) (p : Pool fn)
      → Run fn items (start_pool fn items concurrency) p
      → count (is_returned fn) p.workers < length p.workers
      → (q : Pool fn) × Turn fn items p q
  Run-progress concurrency p r h =
      let b = find-Busy p.workers h in
      next-Turn p b.pre b.post b.worker b.split b.busy
        (Run-IsFair fn items r (start_pool-IsFair fn items concurrency))

  work-start : (n : ℕ) → work (replicate_ready n) ≡ n
  unfolding work replicate_ready
  work-start zero = refl
  work-start (suc n) = omega (arith, work-start n)

  -- The turns of a run, and its workers.
  Run-bounded :
      (concurrency : ℕ) (p : Pool fn) (r : Run fn items (start_pool fn items concurrency) p)
      → (turns_of r ≤ min (limit_of concurrency) (length items) + 2 * length items)
        × (length p.workers ≡ min (limit_of concurrency) (length items))
  unfolding turns_left start_pool
  Run-bounded concurrency p r =
      let n = min (limit_of concurrency) (length items) in
      (omega (arith, Run-fewer r, work-start n), Run-workers r ∙ length-replicate_ready fn items n)

  all_returned :
      (i : ℕ) (ws : List WorkerState)
      → length ws ≤ count (is_returned fn) ws
      → count (is_waiting_for fn i) ws ≡ 0
  all_returned i [] h = refl
  all_returned i (ready ∷ ws) h = absurd (omega (arith, count-le (is_returned fn) ws))
  all_returned i (waiting j ∷ ws) h = absurd (omega (arith, count-le (is_returned fn) ws))
  all_returned i (returned ∷ ws) h = omega (arith, all_returned i ws (omega arith))

  ended-results :
      (p : Pool fn)
      → IsFair fn items p
      → length p.workers ≤ count (is_returned fn) p.workers
      → (1 ≤ length items → 1 ≤ length p.workers)
      → (i : ℕ) → p.results i ≡ expected fn items i
  ended-results p s all has_worker i = elim (Bool-cases (leb (length items) i)) [
    | inl beyond ↦
        s.outside i (ground arith)
        ∙ ap (λ o. elim o [ none ↦ none | some x ↦ some (fn x i) ])
            (sym (get_elem?-beyond fn items items i (ground arith)))
    | inr inside ↦
        let below = s.over (ground (arith, has_worker)) in
        s.taken i (ground arith) (ground arith) (all_returned i p.workers all)
  ]

  -- A run goes on, or has all its results.
  Run-results :
      (concurrency : ℕ) (p : Pool fn)
      → Run fn items (start_pool fn items concurrency) p
      → ((q : Pool fn) × Turn fn items p q) ⊎ ((i : ℕ) → p.results i ≡ expected fn items i)
  unfolding limit_of
  Run-results concurrency p r =
      elim (Bool-cases (ltb (count (is_returned fn) p.workers) (length p.workers))) [
        | inl more ↦ inl (Run-progress concurrency p r (ground arith))
        | inr ended ↦ inr (
            ended-results p (Run-IsFair fn items r (start_pool-IsFair fn items concurrency))
              (ground arith) (λ some. omega (arith, (Run-bounded concurrency p r).1)))
      ]

  -- Whichever worker goes next each time, a run takes at most two turns for each item and one for
  -- each worker, it has as many workers as the limit or the items, whichever is less, and as long
  -- as the results are not those of the items in their order, another turn is possible.
  pub Run-ends :
      (concurrency : ℕ) (p : Pool fn) (r : Run fn items (start_pool fn items concurrency) p)
      → (turns_of r ≤ min (limit_of concurrency) (length items) + 2 * length items)
        × (length p.workers ≡ min (limit_of concurrency) (length items))
        × (((q : Pool fn) × Turn fn items p q) ⊎ ((i : ℕ) → p.results i ≡ expected fn items i))
  Run-ends concurrency p r =
      let b = Run-bounded concurrency p r in (b.0, b.1, Run-results concurrency p r)
