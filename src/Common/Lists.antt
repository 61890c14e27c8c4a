-- ===== src/Common/Lists.antt =====
-- Lists over the native numbers: lengths, selection, tests and predicates by recursion.
use Prim.Native.Nat.{ℕ, zero, suc, ◌+◌, ◌≤◌}
use mathlib.Core.Path.{◌≡◌, refl, ap}
use mathlib.Core.Bool.{Bool, true, false, ◌||◌, ◌&&◌, not}
use mathlib.Core.Option
use mathlib.Core.Option.{Option, none, some, none-ne-some, some-injective}
use mathlib.Core.List.{List, [], ◌∷◌, ◌++◌}
use native.Mathlib.Omega.{arith}
use mathlib.Core.Logic.{inl, inr}
use scan_pal.Common.Tests.{if◌then◌else◌, Bool-cases}

module _ {ℓ} {A : Type ℓ} where
  abbrev pub length : List A → ℕ
  length [] = 0
  length (x ∷ xs) = suc (length xs)

  abbrev pub take : ℕ → List A → List A
  take zero xs = []
  take (suc n) [] = []
  take (suc n) (x ∷ xs) = x ∷ take n xs

  -- `Array.prototype.filter` with a Boolean test.
  abbrev pub select : (A → Bool) → List A → List A
  select p [] = []
  select p (x ∷ xs) = if p x then x ∷ select p xs else select p xs

  -- `Array.prototype.find`.
  abbrev pub find : (A → Bool) → List A → Option A
  find p [] = none
  find p (x ∷ xs) = if p x then some x else find p xs

  -- `Array.prototype.some`.
  abbrev pub exists : (A → Bool) → List A → Bool
  exists p [] = false
  exists p (x ∷ xs) = p x || exists p xs

  -- `select count(*) ... where p`.
  abbrev pub count : (A → Bool) → List A → ℕ
  count p [] = 0
  count p (x ∷ xs) = (if p x then 1 else 0) + count p xs

  -- `update ... set f where p`.
  abbrev pub update : (A → Bool) → (A → A) → List A → List A
  update p f [] = []
  update p f (x ∷ xs) = (if p x then f x else x) ∷ update p f xs

  abbrev pub All {κ} : (A → Type κ) → List A → Type κ
  All P [] = Unit
  All P (x ∷ xs) = P x × All P xs

module _ {ℓ} {A : Type ℓ} where
  pub length-append : (xs ys : List A) → length (xs ++ ys) ≡ length xs + length ys
  length-append [] ys = omega arith
  length-append (x ∷ xs) ys = omega (arith, length-append xs ys)

  pub length-update : (p : A → Bool) (f : A → A) (xs : List A) → length (update p f xs) ≡ length xs
  length-update p f [] = refl
  length-update p f (x ∷ xs) = ap suc (length-update p f xs)

  pub exists-append :
      (p : A → Bool) (xs ys : List A) → exists p (xs ++ ys) ≡ (exists p xs || exists p ys)
  exists-append p [] ys = refl
  exists-append p (x ∷ xs) ys = ground (arith, exists-append p xs ys)

  pub count-le : (p : A → Bool) (xs : List A) → count p xs ≤ length xs
  count-le p [] = omega arith
  count-le p (x ∷ xs) = ground (arith, count-le p xs)

  pub count-select : (p : A → Bool) (xs : List A) → length (select p xs) ≡ count p xs
  count-select p [] = refl
  count-select p (x ∷ xs) = ground (arith, count-select p xs)

  pub select_idem : (p : A → Bool) (xs : List A) → select p (select p xs) ≡ select p xs
  select_idem p [] = refl
  select_idem p (x ∷ xs) = ground (arith, select_idem p xs)

  -- A row for which `p` implies `q` is never found by `p` without `q`.
  pub exists-and-not :
      (p q : A → Bool) (xs : List A)
      → ((x : A) → p x ≡ true → q x ≡ true)
      → exists (λ x. p x && not (q x)) xs ≡ false
  exists-and-not p q [] h = refl
  exists-and-not p q (x ∷ xs) h = ground (arith, h x, exists-and-not p q xs h)

  pub exists-last :
      (p : A → Bool) (xs : List A) (y : A) → p y ≡ true → exists p (xs ++ y ∷ []) ≡ true
  exists-last p [] y h = ground arith
  exists-last p (x ∷ xs) y h = ground (arith, exists-last p xs y h)

  pub All-update {κ μ} :
      (P : A → Type κ) (Q : A → Type μ) (p : A → Bool) (f : A → A) (xs : List A)
      → ((x : A) → P x → Q (if p x then f x else x))
      → All P xs
      → All Q (update p f xs)
  All-update P Q p f [] h _ = tt
  All-update P Q p f (x ∷ xs) h (k, ks) = (h x k, All-update P Q p f xs h ks)

  pub count-append : (p : A → Bool) (xs ys : List A) → count p (xs ++ ys) ≡ count p xs + count p ys
  count-append p [] ys = omega arith
  count-append p (x ∷ xs) ys = omega (arith, count-append p xs ys)

  pub count-none_of_exists : (p : A → Bool) (xs : List A) → exists p xs ≡ false → count p xs ≡ 0
  count-none_of_exists p [] h = refl
  count-none_of_exists p (x ∷ xs) h = ground (arith, count-none_of_exists p xs)

  pub length-snoc : (xs : List A) (x : A) → length (xs ++ x ∷ []) ≡ suc (length xs)
  length-snoc [] x = refl
  length-snoc (y ∷ xs) x = ap suc (length-snoc xs x)

  -- A search after an update, where the update leaves the searched columns alone.
  pub find-update :
      (p q : A → Bool) (f : A → A) (xs : List A)
      → ((x : A) → p (f x) ≡ p x)
      → find p (update q f xs) ≡ Option.map (λ x. if q x then f x else x) (find p xs)
  find-update p q f [] h = refl
  find-update p q f (x ∷ xs) h = ground (arith, h x, find-update p q f xs h)

  pub find-append_found :
      (p : A → Bool) (xs ys : List A) (x : A) → find p xs ≡ some x → find p (xs ++ ys) ≡ some x
  find-append_found p [] ys x e = cc
  find-append_found p (y ∷ xs) ys x e = ground (arith, find-append_found p xs ys x)

  pub count-update_same :
      (p q : A → Bool) (f : A → A) (xs : List A)
      → ((x : A) → p (f x) ≡ p x)
      → count p (update q f xs) ≡ count p xs
  count-update_same p q f [] h = refl
  count-update_same p q f (x ∷ xs) h = ground (arith, h x, count-update_same p q f xs h)

  pub count-update_le :
      (p q : A → Bool) (f : A → A) (xs : List A)
      → ((x : A) → p (f x) ≡ false)
      → count p (update q f xs) ≤ count p xs
  count-update_le p q f [] h = omega arith
  count-update_le p q f (x ∷ xs) h = ground (arith, h x, count-update_le p q f xs h)

  pub update-none : (q : A → Bool) (f : A → A) (xs : List A) → count q xs ≡ 0 → update q f xs ≡ xs
  update-none q f [] h = refl
  update-none q f (x ∷ xs) h = ground (arith, update-none q f xs)

  -- An update of the one row that a search finds.
  pub count-update_found :
      (p q : A → Bool) (f : A → A) (xs : List A) (x : A)
      → find q xs ≡ some x
      → count q xs ≤ 1
      → p (f x) ≡ p x
      → count p (update q f xs) ≡ count p xs
  count-update_found p q f [] x e u h = refl
  count-update_found p q f (y ∷ xs) x e u h = elim (Bool-cases (q y)) [
    | inl found ↦
        let same : y ≡ x = ground arith in
        let rest = update-none q f xs (ground arith) in rw (found, rest, same, h) refl
    | inr other ↦ ground (arith, count-update_found p q f xs x)
  ]

  pub exists-find :
      (p : A → Bool) (xs : List A) → exists p xs ≡ true → (x : A) × (find p xs ≡ some x)
  exists-find p [] h = absurd (ground arith)
  exists-find p (x ∷ xs) h = elim (Bool-cases (p x)) [
    | inl e ↦ (x, rw e refl)
    | inr e ↦ let (y, found) = exists-find p xs (ground arith) in (y, rw e found)
  ]

  pub find-snoc :
      (p : A → Bool) (xs : List A) (x : A)
      → count p xs ≡ 0
      → p x ≡ true
      → find p (xs ++ x ∷ []) ≡ some x
  find-snoc p [] x h e = ground arith
  find-snoc p (y ∷ xs) x h e = ground (arith, find-snoc p xs x)

  pub find-holds : (p : A → Bool) (xs : List A) (x : A) → find p xs ≡ some x → p x ≡ true
  find-holds p [] x e = cc
  find-holds p (y ∷ xs) x e = ground (arith, find-holds p xs x)

  -- What is found is there.
  pub find-exists :
      (p q : A → Bool) (xs : List A) (x : A) → find p xs ≡ some x → q x ≡ true → exists q xs ≡ true
  find-exists p q [] x e h = absurd (none-ne-some x e)
  find-exists p q (y ∷ xs) x e h = elim (Bool-cases (p y)) [
    | inl hit ↦ ground (arith, e, hit, h)
    | inr miss ↦ ground (arith, e, miss, find-exists p q xs x)
  ]

  pub exists-update_same :
      (p q : A → Bool) (f : A → A) (xs : List A)
      → ((x : A) → p (f x) ≡ p x)
      → exists p (update q f xs) ≡ exists p xs
  exists-update_same p q f [] h = refl
  exists-update_same p q f (x ∷ xs) h = ground (arith, h x, exists-update_same p q f xs h)

  pub count-and_le : (p q : A → Bool) (xs : List A) → count (λ x. p x && q x) xs ≤ count p xs
  count-and_le p q [] = omega arith
  count-and_le p q (x ∷ xs) = ground (arith, count-and_le p q xs)
