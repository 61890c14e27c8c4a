-- ===== src/Api/Window.antt =====
-- `checkRateLimit` in one window, and after an interrupted call.
use scan_pal.Common.{
  ℕ, suc, ◌+◌, ◌-◌, ◌*◌, ◌≤◌, ◌==◌, ◌≡◌, refl, ◌∙◌, ap, arith, Option, none, some, List, [], ◌∷◌,
  true, false, ltb, min, length, count, exists, not, Bool-cases, inl, inr,
}
use scan_pal.Api.Redis.{RateKey, Redis, Entry, RedisLaws, is_live, value_at, bumped}
use scan_pal.Api.RateLimit.{is_ok, count_call, check_rate_limit, check_all}

module _ {S : Type 0} (redis : Redis S) (laws : RedisLaws redis) (k : RateKey)
    (limit window : ℕ) where
  -- A key without expiry is live at every time.
  never_late : (times : List ℕ) → exists (λ t. not (is_live t none)) times ≡ false
  never_late [] = refl
  never_late (t ∷ times) = never_late times

  abbrev pub counted : ℕ → Option ℕ → Option Entry
  counted v d = some (record { value = v; deadline = d })

  -- `INCR` on a key that is live.
  incr-live :
      (now : ℕ) (s : S) (v : ℕ) (d : Option ℕ)
      → laws.entry s k ≡ counted v d
      → is_live now d ≡ true
      → ((redis.incr now k s).0 ≡ suc v) × (laws.entry (redis.incr now k s).1 k ≡ counted (suc v) d)
  incr-live now s v d h l =
      (laws.incr-value now k s ∙ rw (h, l) refl, laws.incr-entry now k s ∙ rw (h, l) refl)

  -- A call on a key that is live and counts one at least.
  count_call-live :
      (now : ℕ) (s : S) (v : ℕ) (d : Option ℕ)
      → laws.entry s k ≡ counted v d
      → is_live now d ≡ true
      → 1 ≤ v
      → ((count_call redis now k window s).0 ≡ suc v)
        × (laws.entry (count_call redis now k window s).1 k ≡ counted (suc v) d)
  unfolding count_call
  count_call-live now s v d h l one =
      let i = incr-live now s v d h l in
      let later : ((redis.incr now k s).0 == 1) ≡ false = ground (arith, i.0) in
      (i.0, rw later (i.1))

  check_rate_limit-ok :
      (now : ℕ) (s : S)
      → is_ok (check_rate_limit redis now k limit window s).0
        ≡ not (ltb limit (count_call redis now k window s).0)
  unfolding check_rate_limit
  check_rate_limit-ok now s = elim (Bool-cases (ltb limit (count_call redis now k window s).0)) [
    | inl above ↦ rw above refl
    | inr below ↦ rw below refl
  ]

  check_rate_limit-store :
      (now : ℕ) (s : S)
      → (check_rate_limit redis now k limit window s).1 ≡ (count_call redis now k window s).1
  unfolding check_rate_limit
  check_rate_limit-store now s = refl

  -- Calls on a key that stays live are let in up to the limit, and are all counted.
  check_all-live :
      (times : List ℕ) (s : S) (v : ℕ) (d : Option ℕ)
      → laws.entry s k ≡ counted v d
      → exists (λ now. not (is_live now d)) times ≡ false
      → 1 ≤ v
      → (count is_ok (check_all redis times k limit window s).0 ≡ min (limit - v) (length times))
        × (laws.entry (check_all redis times k limit window s).1 k ≡ counted (v + length times) d)
  unfolding check_all
  check_all-live [] s v d h l one = (omega arith, h ∙ ap (λ n. counted n d) (omega arith))
  check_all-live (now ∷ times) s v d h l one =
      let live : is_live now d ≡ true = ground (arith, l) in
      let others : exists (λ t. not (is_live t d)) times ≡ false = ground (arith, l) in
      let first = count_call-live now s v d h live one in
      let after = check_rate_limit-store now s in
      let rest =
        check_all-live times (check_rate_limit redis now k limit window s).1 (suc v) d
          (rw after first.1) others (omega arith) in
      (
        rw (check_rate_limit-ok now s) (ground (arith, rest.0, first.0)),
        rest.1 ∙ ap (λ n. counted n d) (omega arith),
      )

  -- `INCR` on a key that counts nothing leaves one that is live and counts one.
  bumped_fresh :
      (now : ℕ) (o : Option Entry)
      → value_at now o ≡ 0
      → (d : Option ℕ) × (some (bumped now o) ≡ counted 1 d) × (is_live now d ≡ true)
  bumped_fresh now none h = (none, refl, refl)
  bumped_fresh now (some e) h = elim (Bool-cases (is_live now e.deadline)) [
    | inl live ↦
        let zero_value : e.value ≡ 0 = ground (arith, h, live) in
        (e.deadline, rw (live, zero_value) refl, live)
    | inr gone ↦ (none, rw gone refl, refl)
  ]

  fresh_call :
      (now : ℕ) (s : S)
      → 1 ≤ window
      → value_at now (laws.entry s k) ≡ 0
      → ((count_call redis now k window s).0 ≡ 1)
        × (laws.entry (count_call redis now k window s).1 k
            ≡ counted 1 (some (now + 1000 * window)))
  unfolding count_call
  fresh_call now s w h =
      let first = laws.incr-value now k s ∙ ap suc h in
      let fresh = bumped_fresh now (laws.entry s k) h in
      (
        first,
        rw first (
            laws.expire-entry now k window (redis.incr now k s).1 _
              (laws.incr-entry now k s ∙ fresh.1) fresh.2),
      )

  -- The calls for a key that counts nothing before the first of them, all of them inside a window
  -- of a second at least that begins with the first, are let in up to the limit; from the end of
  -- the window on, the key counts nothing.
  pub check_all-window :
      (now : ℕ) (times : List ℕ) (s : S)
      → 1 ≤ window
      → value_at now (laws.entry s k) ≡ 0
      → exists (λ t. not (ltb t (now + 1000 * window))) times ≡ false
      → (count is_ok (check_all redis (now ∷ times) k limit window s).0
          ≡ min limit (suc (length times)))
        × ((t : ℕ)
            → now + 1000 * window ≤ t
            → value_at t (laws.entry (check_all redis (now ∷ times) k limit window s).1 k) ≡ 0)
  unfolding check_all
  check_all-window now times s w h inside =
      let first = fresh_call now s w h in
      let after = check_rate_limit-store now s in
      let rest =
        check_all-live times (check_rate_limit redis now k limit window s).1 1
          (some (now + 1000 * window)) (rw after first.1) inside (omega arith) in
      (
        rw (check_rate_limit-ok now s) (ground (arith, rest.0, first.0)),
        λ t late. rw rest.1 (ground arith),
      )

  -- After a call for a key that was not there, which was cut off between counting and setting the
  -- expiry, all later calls together are let in at most one fewer than the limit times, however
  -- late they come.
  pub incr-check_all :
      (now : ℕ) (times : List ℕ) (s : S)
      → laws.entry s k ≡ none
      → count is_ok (check_all redis times k limit window (redis.incr now k s).1).0
        ≡ min (limit - 1) (length times)
  incr-check_all now times s h =
      (check_all-live times (redis.incr now k s).1 1 none (laws.incr-entry now k s ∙ rw h refl)
        (never_late times) (omega arith)).0
