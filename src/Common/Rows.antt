-- ===== src/Common/Rows.antt =====
-- What an SQL statement does to one table: a table is the list of its rows, and a WHERE clause is a
-- test on a row.
use Prim.Native.Nat.{ℕ, suc, ◌+◌}
use mathlib.Core.Path.{◌≡◌, refl, subst}
use mathlib.Core.Logic.{inl, inr}
use mathlib.Core.Bool.{Bool, true, false, ◌||◌}
use mathlib.Core.Option
use mathlib.Core.Option.{Option, none, some}
use mathlib.Core.List.{List, [], ◌∷◌, ◌++◌}
use native.Mathlib.Omega.{arith}
use omp_telegram.Common.Tests.{if◌then◌else◌, Bool-cases}
use omp_telegram.Common.Lists.{length, All}

module _ {ℓ} {A : Type ℓ} where
  -- SELECT * WHERE p
  unfoldable pub select : (A → Bool) → List A → List A
  select p [] = []
  select p (x ∷ xs) = if p x then x ∷ select p xs else select p xs

  -- SELECT EXISTS(... WHERE p)
  unfoldable pub exists? : (A → Bool) → List A → Bool
  exists? p [] = false
  exists? p (x ∷ xs) = p x || exists? p xs

  -- the first row of SELECT * WHERE p, in table order
  unfoldable pub first? : (A → Bool) → List A → Option A
  first? p [] = none
  first? p (x ∷ xs) = if p x then some x else first? p xs

  -- the last row of SELECT * WHERE p, in table order
  unfoldable pub last? : (A → Bool) → List A → Option A
  last? p [] = none
  last? p (x ∷ xs) =
      let rest = last? p xs in elim rest [ some y ↦ some y | none ↦ if p x then some x else none ]

  -- ORDER BY, with the test that one row comes before another
  unfoldable pub place_by : (A → A → Bool) → A → List A → List A
  place_by before x [] = x ∷ []
  place_by before x (y ∷ ys) = if before y x then y ∷ place_by before x ys else x ∷ y ∷ ys

  unfoldable pub order_by : (A → A → Bool) → List A → List A
  unfolding place_by
  order_by before [] = []
  order_by before (x ∷ xs) = place_by before x (order_by before xs)

  -- UPDATE SET f WHERE p
  unfoldable pub update : (A → Bool) → (A → A) → List A → List A
  update p f [] = []
  update p f (x ∷ xs) = (if p x then f x else x) ∷ update p f xs

  -- the rows that an UPDATE or DELETE WHERE p affects
  unfoldable pub affected : (A → Bool) → List A → ℕ
  affected p [] = 0
  affected p (x ∷ xs) = if p x then suc (affected p xs) else affected p xs

  -- DELETE WHERE p
  unfoldable pub delete : (A → Bool) → List A → List A
  delete p [] = []
  delete p (x ∷ xs) = if p x then delete p xs else x ∷ delete p xs

  -- A key that the update leaves alone finds the same row, updated.
  pub first?-update :
      (k p : A → Bool) (f : A → A) (xs : List A)
      → ((x : A) → k (f x) ≡ k x)
      → first? k (update p f xs) ≡ Option.map (λ x. if p x then f x else x) (first? k xs)
  unfolding first? update
  first?-update k p f [] same = refl
  first?-update k p f (x ∷ xs) same = elim (Bool-cases (p x)) [
    | inl hit ↦ elim (Bool-cases (k x)) [
      | inl here ↦ rw (hit, same x, here) (rw hit)
      | inr there ↦ rw (hit, same x, there) (first?-update k p f xs same)
    ]
    | inr miss ↦ elim (Bool-cases (k x)) [
      | inl here ↦ rw (miss, here) (rw miss)
      | inr there ↦ rw (miss, there) (first?-update k p f xs same)
    ]
  ]

  pub first?-delete :
      (k p : A → Bool) (xs : List A)
      → ((x : A) → k x ≡ true → p x ≡ false)
      → first? k (delete p xs) ≡ first? k xs
  unfolding first? delete
  first?-delete k p [] keep = refl
  first?-delete k p (x ∷ xs) keep = ground (arith, keep x, first?-delete k p xs keep)

  pub first?-test : (p : A → Bool) (xs : List A) (x : A) → first? p xs ≡ some x → p x ≡ true
  unfolding first?
  first?-test p [] x h = cc
  first?-test p (y ∷ ys) x h = ground (arith, first?-test p ys x)

  pub exists?-first? : (p : A → Bool) (xs : List A) → exists? p xs ≡ false → first? p xs ≡ none
  unfolding first? exists?
  exists?-first? p [] h = refl
  exists?-first? p (x ∷ xs) h = ground (arith, exists?-first? p xs)

  pub first?-exists? : (p : A → Bool) (xs : List A) → first? p xs ≡ none → exists? p xs ≡ false
  unfolding first? exists?
  first?-exists? p [] h = refl
  first?-exists? p (x ∷ xs) h = ground (arith, first?-exists? p xs)

  pub exists?-append :
      (p : A → Bool) (xs ys : List A) → exists? p (xs ++ ys) ≡ (exists? p xs || exists? p ys)
  unfolding exists?
  exists?-append p [] ys = refl
  exists?-append p (x ∷ xs) ys = ground (arith, exists?-append p xs ys)

  pub first?-append :
      (p : A → Bool) (xs ys : List A)
      → first? p (xs ++ ys) ≡ (if exists? p xs then first? p xs else first? p ys)
  unfolding exists? first?
  first?-append p [] ys = refl
  first?-append p (x ∷ xs) ys = ground (arith, first?-append p xs ys)

  pub affected-zero :
      (p : A → Bool) (f : A → A) (xs : List A) → affected p xs ≡ 0 → update p f xs ≡ xs
  unfolding affected update
  affected-zero p f [] h = refl
  affected-zero p f (x ∷ xs) h = ground (arith, affected-zero p f xs)

  pub length-delete :
      (p : A → Bool) (xs : List A) → length (delete p xs) + affected p xs ≡ length xs
  unfolding affected delete
  length-delete p [] = refl
  length-delete p (x ∷ xs) = ground (arith, length-delete p xs)

  pub exists?-update_none :
      (q p : A → Bool) (f : A → A) (xs : List A)
      → ((x : A) → p x ≡ true → q (f x) ≡ false)
      → ((x : A) → q x ≡ true → p x ≡ true)
      → exists? q (update p f xs) ≡ false
  unfolding exists? update
  exists?-update_none q p f [] out cover = refl
  exists?-update_none q p f (x ∷ xs) out cover =
      ground (arith, out x, cover x, exists?-update_none q p f xs out cover)

  pub exists?-delete_none :
      (q p : A → Bool) (xs : List A)
      → ((x : A) → q x ≡ true → p x ≡ true)
      → exists? q (delete p xs) ≡ false
  unfolding exists? delete
  exists?-delete_none q p [] cover = refl
  exists?-delete_none q p (x ∷ xs) cover = ground (arith, cover x, exists?-delete_none q p xs cover)

  module _ {κ} (P : A → Type κ) where
    pub All-update :
        (p : A → Bool) (f : A → A) (xs : List A)
        → ((x : A) → p x ≡ true → P x → P (f x))
        → All P xs
        → All P (update p f xs)
    unfolding update
    All-update p f [] keep h = tt
    All-update p f (x ∷ xs) keep h = elim (Bool-cases (p x)) [
      | inl hit ↦ rw hit (keep x hit h.0, All-update p f xs keep h.1)
      | inr miss ↦ rw miss (h.0, All-update p f xs keep h.1)
    ]

    pub All-delete : (p : A → Bool) (xs : List A) → All P xs → All P (delete p xs)
    unfolding delete
    All-delete p [] h = tt
    All-delete p (x ∷ xs) h = elim (Bool-cases (p x)) [
      | inl hit ↦ rw hit (All-delete p xs h.1)
      | inr miss ↦ rw miss (h.0, All-delete p xs h.1)
    ]

    pub All-first? : (p : A → Bool) (xs : List A) (x : A) → All P xs → first? p xs ≡ some x → P x
    unfolding first?
    All-first? p [] x h e = cc
    All-first? p (y ∷ ys) x h e = elim (Bool-cases (p y)) [
      | inl hit ↦ let same : y ≡ x = ground arith in subst P same h.0
      | inr miss ↦ All-first? p ys x h.1 (rw miss at e)
    ]
