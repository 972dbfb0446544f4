-- ===== src/Telegram/Lines.antt =====
-- Lines of a text, and what trimming and joining do to them.
use omp_telegram.Common.{
  ℕ, zero, suc, Text, contains, split, join, lines_of, unlines, newline, trim_space, trim_left,
  trim_right, is_space, repeat, length, false, ◌==◌, ==_iff, Bool-cases, List, [], ◌∷◌, ◌++◌, ◌≡◌,
  refl, ap, sym, ◌∙◌, inl, inr, arith,
}

pub split-cases : (sep : ℕ) (s : Text) → (l : Text) × (ls : List Text) × (split sep s ≡ l ∷ ls)
unfolding split
split-cases sep [] = ([], [], refl)
split-cases sep (c ∷ s) =
    let h = split-cases sep s in
    elim (Bool-cases (c == sep)) [
      | inl e ↦ ([], h.0 ∷ h.1, rw (h.2, e) refl)
      | inr e ↦ (c ∷ h.0, h.1, rw (h.2, e) refl)
    ]

-- A text without a line break is one line.
pub lines_of-one : (s : Text) → contains newline s ≡ false → lines_of s ≡ s ∷ []
unfolding lines_of split
lines_of-one [] h = refl
lines_of-one (c ∷ s) h = elim (Bool-cases (c == newline)) [
  | inl e ↦ ground (arith, e)
  | inr e ↦ let ih = lines_of-one s (ground arith) in rw (ih, e) refl
]

-- The first line ends at the first line break.
pub lines_of-head :
    (s t : Text) → contains newline s ≡ false → lines_of (s ++ (newline ∷ t)) ≡ s ∷ lines_of t
unfolding lines_of split
lines_of-head [] t h = let e = split-cases newline t in rw e.2 refl
lines_of-head (c ∷ s) t h = elim (Bool-cases (c == newline)) [
  | inl e ↦ ground (arith, e)
  | inr e ↦ let ih = lines_of-head s t (ground arith) in rw (ih, e) refl
]

-- A line break ends a line.
pub lines_of-break :
    (s t : Text)
    → contains newline t ≡ false
    → lines_of (s ++ (newline ∷ t)) ≡ lines_of s ++ (t ∷ [])
unfolding lines_of split
lines_of-break [] t h = rw (lines_of-one t h) refl
lines_of-break (c ∷ s) t h =
    let h1 = lines_of-break s t h in
    let h2 = split-cases newline s in
    elim (Bool-cases (c == newline)) [
      | inl e ↦ rw (h1, h2.2, e) refl
      | inr e ↦ rw (h1, h2.2, e) refl
    ]

join-cons :
    (c : ℕ) (l : Text) (ls : List Text)
    → join (newline ∷ []) ((c ∷ l) ∷ ls) ≡ c ∷ join (newline ∷ []) (l ∷ ls)
unfolding join
join-cons c l [] = refl
join-cons c l (m ∷ ls) = refl

pub unlines-lines_of : (s : Text) → unlines (lines_of s) ≡ s
unfolding unlines join lines_of split
unlines-lines_of [] = refl
unlines-lines_of (c ∷ s) =
    let h = split-cases newline s in
    let ih : join (newline ∷ []) (h.0 ∷ h.1) ≡ s = rw h.2 at (unlines-lines_of s) in
    elim (Bool-cases (c == newline)) [
      | inl e ↦
          rw (h.2, e)
            (ap (λ (t : Text). newline ∷ t) ih
              ∙ ap (λ (d : ℕ). d ∷ s) (sym ((==_iff c newline).0 e)))
      | inr e ↦ rw (h.2, e) (join-cons c (h.0) (h.1) ∙ ap (λ (t : Text). c ∷ t) ih)
    ]

pub contains-repeat : (c n k : ℕ) → (c == k) ≡ false → contains k (repeat c n) ≡ false
unfolding repeat
contains-repeat c zero k h = refl
contains-repeat c (suc n) k h = ground (arith, contains-repeat c n k h)

trim_right-repeat : (c n : ℕ) → is_space c ≡ false → trim_right is_space (repeat c n) ≡ repeat c n
unfolding repeat trim_right
trim_right-repeat c zero h = refl
trim_right-repeat c (suc zero) h = rw h refl
trim_right-repeat c (suc (suc n)) h = rw (trim_right-repeat c (suc n) h) refl

pub trim_space-repeat : (c n : ℕ) → is_space c ≡ false → trim_space (repeat c n) ≡ repeat c n
unfolding trim_space trim_left repeat
trim_space-repeat c zero h = refl
trim_space-repeat c (suc n) h = rw h (trim_right-repeat c (suc n) h)

pub length-repeat : (c n : ℕ) → length (repeat c n) ≡ n
unfolding repeat
length-repeat c zero = refl
length-repeat c (suc n) = omega (arith, length-repeat c n)
