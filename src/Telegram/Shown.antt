-- ===== src/Telegram/Shown.antt =====
-- What is seen of lines and blocks of internal/telegram/markdown.go, and what trimming leaves of it.
use mathlib.Core.List.{append_assoc}
use omp_telegram.Common.{
  ℕ, Text, is_empty, is_space, trim_space, trim_left, trim_right, contains, split, join, lines_of,
  unlines, newline, Bool, false, ◌==◌, if◌then◌else◌, Bool-cases, All, List, [], ◌∷◌, ◌++◌, ◌≡◌,
  refl, sym, ap, ◌∙◌, inl, inr, arith,
}
use omp_telegram.Telegram.Lines.{lines_of-head, lines_of-one, split-cases}
use omp_telegram.Telegram.Advance.{Text-cases}

-- The lines that are not blank, trimmed.
unfoldable pub shown : List Text → List Text
unfolding trim_space
shown [] = []
shown (l ∷ lines) = if is_empty (trim_space l) then shown lines else trim_space l ∷ shown lines

-- The lines of some blocks, one after another.
unfoldable pub lines_of_blocks : List Text → List Text
unfolding lines_of
lines_of_blocks [] = []
lines_of_blocks (b ∷ blocks) = lines_of b ++ lines_of_blocks blocks

abbrev pub OneLine : Text → Type 0
OneLine l = contains newline l ≡ false

pub lines_of-unlines :
    (l : Text) (ls : List Text) → All OneLine (l ∷ ls) → lines_of (unlines (l ∷ ls)) ≡ l ∷ ls
unfolding unlines join
lines_of-unlines l [] h = lines_of-one l h.0
lines_of-unlines l (m ∷ ls) h =
    lines_of-head l (unlines (m ∷ ls)) h.0
    ∙ ap (λ (t : List Text). l ∷ t) (lines_of-unlines m ls h.1)

pub lines_of-OneLine : (s : Text) → All OneLine (lines_of s)
unfolding lines_of split
lines_of-OneLine [] = (refl, tt)
lines_of-OneLine (c ∷ s) =
    let h = split-cases newline s in
    let ih : All OneLine (h.0 ∷ h.1) = rw h.2 at (lines_of-OneLine s) in
    elim (Bool-cases (c == newline)) [
      | inl e ↦ rw (h.2, e) (refl, ih)
      | inr e ↦ rw (h.2, e) (ground (arith, e, ih.0), ih.1)
    ]

pub shown-append : (xs ys : List Text) → shown (xs ++ ys) ≡ shown xs ++ shown ys
unfolding shown
shown-append [] ys = refl
shown-append (l ∷ xs) ys = elim (Bool-cases (is_empty (trim_space l))) [
  | inl e ↦ rw e (shown-append xs ys)
  | inr e ↦ rw e (ap (λ (t : List Text). trim_space l ∷ t) (shown-append xs ys))
]

pub lines_of_blocks-append :
    (xs ys : List Text) → lines_of_blocks (xs ++ ys) ≡ lines_of_blocks xs ++ lines_of_blocks ys
unfolding lines_of_blocks
lines_of_blocks-append [] ys = refl
lines_of_blocks-append (b ∷ xs) ys =
    rw (lines_of_blocks-append xs ys)
      (sym (append_assoc (lines_of b) (lines_of_blocks xs) (lines_of_blocks ys)))

pub trim_right-twice : (p : ℕ → Bool) (s : Text) → trim_right p (trim_right p s) ≡ trim_right p s
unfolding trim_right
trim_right-twice p [] = refl
trim_right-twice p (c ∷ s) =
    let ih = trim_right-twice p s in
    elim (Text-cases (trim_right p s)) [
      | inl e ↦ elim (Bool-cases (p c)) [
        | inl w ↦ rw (e, trim_right) (rw w refl)
        | inr w ↦ rw (e, trim_right) (rw w (rw (w, trim_right) refl))
      ]
      | inr e ↦
          let fixed : trim_right p (e.0 ∷ e.1) ≡ e.0 ∷ e.1 = rw e.2 at ih in
          rw (e.2, trim_right) (rw (fixed, trim_right) refl)
    ]

pub trim_left-fixed :
    (p : ℕ → Bool) (s : Text)
    → trim_left p (trim_right p (trim_left p s)) ≡ trim_right p (trim_left p s)
unfolding trim_left trim_right
trim_left-fixed p [] = refl
trim_left-fixed p (c ∷ s) = elim (Bool-cases (p c)) [
  | inl w ↦ rw w (trim_left-fixed p s)
  | inr w ↦ elim (Text-cases (trim_right p s)) [
    | inl e ↦ rw w (rw (e, trim_right) (rw w (rw (w, trim_left) refl)))
    | inr e ↦ rw w (rw (e.2, trim_right) (rw (w, trim_left) refl))
  ]
]

pub trim_space-twice : (s : Text) → trim_space (trim_space s) ≡ trim_space s
unfolding trim_space
trim_space-twice s =
    ap (trim_right is_space) (trim_left-fixed is_space s)
    ∙ trim_right-twice is_space (trim_left is_space s)
