-- ===== src/Common/RowLaws.antt =====
-- What holds of every row, and of how many rows, after a statement.
use Prim.Native.Nat.{◌+◌, ◌≤◌}
use mathlib.Core.Path.{◌≡◌, refl, subst, sym}
use mathlib.Core.Logic.{inl, inr}
use mathlib.Core.Bool.{Bool, true, false}
use mathlib.Core.Option.{some}
use mathlib.Core.List.{List, [], ◌∷◌}
use native.Mathlib.Omega.{arith}
use omp_telegram.Common.Tests.{Bool-cases}
use omp_telegram.Common.Lists.{All}
use omp_telegram.Common.Rows.{exists?, first?, update, affected, delete}

module _ {ℓ} {A : Type ℓ} where
  -- An update under facts `R` that every row meets.
  pub All-update_with {κ ι υ} :
      (R : A → Type κ) (P : A → Type ι) (Q : A → Type υ) (p : A → Bool) (f : A → A) (xs : List A)
      → ((x : A) → p x ≡ true → R x → P x → Q (f x))
      → ((x : A) → p x ≡ false → R x → P x → Q x)
      → All R xs
      → All P xs
      → All Q (update p f xs)
  unfolding update
  All-update_with R P Q p f [] hit miss r h = tt
  All-update_with R P Q p f (x ∷ xs) hit miss r h = elim (Bool-cases (p x)) [
    | inl e ↦ rw e (hit x e r.0 h.0, All-update_with R P Q p f xs hit miss r.1 h.1)
    | inr e ↦ rw e (miss x e r.0 h.0, All-update_with R P Q p f xs hit miss r.1 h.1)
  ]

  pub All-map {κ ι} :
      (P : A → Type κ) (Q : A → Type ι) (xs : List A) → ((x : A) → P x → Q x) → All P xs → All Q xs
  All-map P Q [] imp h = tt
  All-map P Q (x ∷ xs) imp h = (imp x h.0, All-map P Q xs imp h.1)

  -- The same under facts `R` that every row meets.
  pub All-map_with {κ ι υ} :
      (R : A → Type κ) (P : A → Type ι) (Q : A → Type υ) (xs : List A)
      → ((x : A) → R x → P x → Q x)
      → All R xs
      → All P xs
      → All Q xs
  All-map_with R P Q [] imp r h = tt
  All-map_with R P Q (x ∷ xs) imp r h = (imp x r.0 h.0, All-map_with R P Q xs imp r.1 h.1)

  pub All-const {κ} : (P : A → Type κ) (xs : List A) → ((x : A) → P x) → All P xs
  All-const P [] h = tt
  All-const P (x ∷ xs) h = (h x, All-const P xs h)

  -- A key that meets no updated row finds the same row.
  pub first?-update_other :
      (k p : A → Bool) (f : A → A) (xs : List A)
      → ((x : A) → k (f x) ≡ k x)
      → ((x : A) → p x ≡ true → k x ≡ false)
      → first? k (update p f xs) ≡ first? k xs
  unfolding first? update
  first?-update_other k p f [] same off = refl
  first?-update_other k p f (x ∷ xs) same off =
      ground (arith, same x, off x, first?-update_other k p f xs same off)

  -- A test that no updated row begins to pass stays false of all rows.
  pub exists?-update_mono :
      (q p : A → Bool) (f : A → A) (xs : List A)
      → ((x : A) → p x ≡ true → q (f x) ≡ true → q x ≡ true)
      → exists? q xs ≡ false
      → exists? q (update p f xs) ≡ false
  unfolding exists? update
  exists?-update_mono q p f [] back h = refl
  exists?-update_mono q p f (x ∷ xs) back h =
      ground (arith, back x, exists?-update_mono q p f xs back)

  pub exists?-delete_mono :
      (q p : A → Bool) (xs : List A) → exists? q xs ≡ false → exists? q (delete p xs) ≡ false
  unfolding exists? delete
  exists?-delete_mono q p [] h = refl
  exists?-delete_mono q p (x ∷ xs) h = ground (arith, exists?-delete_mono q p xs)

  pub All-exists? : (q : A → Bool) (xs : List A) → exists? q xs ≡ false → All (λ x. q x ≡ false) xs
  unfolding exists?
  All-exists? q [] h = tt
  All-exists? q (x ∷ xs) h = (ground arith, All-exists? q xs (ground arith))

  pub exists?-All : (q : A → Bool) (xs : List A) → All (λ x. q x ≡ false) xs → exists? q xs ≡ false
  unfolding exists?
  exists?-All q [] h = refl
  exists?-All q (x ∷ xs) h = ground (arith, exists?-All q xs h.1)

  affected-none : (p : A → Bool) (xs : List A) → affected p xs ≡ 0 → All (λ x. p x ≡ false) xs
  unfolding affected
  affected-none p [] h = tt
  affected-none p (x ∷ xs) h = (ground arith, affected-none p xs (ground arith))

  first?-affected :
      (k p : A → Bool) (xs : List A) (o : A)
      → first? k xs ≡ some o
      → p o ≡ true
      → affected p xs ≡ 0
      → false ≡ true
  unfolding first? affected
  first?-affected k p [] o e h n = cc
  first?-affected k p (x ∷ xs) o e h n = ground (arith, first?-affected k p xs o)

  -- A statement that affects one row affects the row that was read.
  pub affected_only :
      (k p : A → Bool) (xs : List A) (o : A)
      → first? k xs ≡ some o
      → p o ≡ true
      → affected p xs ≡ 1
      → All (λ x. p x ≡ true → x ≡ o) xs
  unfolding first? affected
  affected_only k p [] o e h n = tt
  affected_only k p (x ∷ xs) o e h n = elim (Bool-cases (k x)) [
    | inl here ↦
        let same : x ≡ o = ground arith in
        let rest : affected p xs ≡ 0 = ground (arith, subst (λ y. p y ≡ true) (sym same) h) in
        (
          λ _. same,
          All-map (λ y. p y ≡ false) (λ y. p y ≡ true → y ≡ o) xs (λ y no yes. cc)
              (affected-none p xs rest),
        )
    | inr there ↦
        let e' : first? k xs ≡ some o = ground arith in
        elim (Bool-cases (p x)) [
          | inl hit ↦
              let rest : affected p xs ≡ 0 = ground arith in
              absurd (cc (first?-affected k p xs o e' h rest))
          | inr miss ↦ (λ yes. cc, affected_only k p xs o e' h (ground arith))
        ]
  ]

  -- At most as many rows as before, and those that the update brings in.
  pub affected-update-le :
      (q p : A → Bool) (f : A → A) (xs : List A)
      → affected q (update p f xs) ≤ affected q xs + affected p xs
  unfolding affected update
  affected-update-le q p f [] = omega arith
  affected-update-le q p f (x ∷ xs) = ground (arith, affected-update-le q p f xs)

  pub affected-exists? : (p : A → Bool) (xs : List A) → exists? p xs ≡ false → affected p xs ≡ 0
  unfolding affected exists?
  affected-exists? p [] h = refl
  affected-exists? p (x ∷ xs) h = ground (arith, affected-exists? p xs)

  -- A statement that spares them leaves as many rows.
  pub affected-delete :
      (k p : A → Bool) (xs : List A)
      → ((x : A) → k x ≡ true → p x ≡ false)
      → affected k (delete p xs) ≡ affected k xs
  unfolding affected delete
  affected-delete k p [] keep = refl
  affected-delete k p (x ∷ xs) keep = ground (arith, keep x, affected-delete k p xs keep)

  affected_mono :
      (p q : A → Bool) (xs : List A)
      → ((x : A) → p x ≡ true → q x ≡ true)
      → affected p xs ≤ affected q xs
  unfolding affected
  affected_mono p q [] imp = omega arith
  affected_mono p q (x ∷ xs) imp = ground (arith, imp x, affected_mono p q xs imp)

  -- Two statements of which the narrower affects as many rows affect the same rows.
  pub affected_same :
      (p q : A → Bool) (xs : List A)
      → ((x : A) → p x ≡ true → q x ≡ true)
      → affected q xs ≤ affected p xs
      → All (λ x. q x ≡ true → p x ≡ true) xs
  unfolding affected
  affected_same p q [] imp h = tt
  affected_same p q (x ∷ xs) imp h = (
    λ e. ground (arith, imp x, affected_mono p q xs imp),
    affected_same p q xs imp (ground (arith, imp x, affected_mono p q xs imp)),
  )
