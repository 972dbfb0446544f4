-- ===== src/Telegram/OddQuotes.antt =====
-- A line that the block loop of internal/telegram/markdown.go does not get past: TrimSpace finds the `>`
-- of a quote behind any white character, collectQuote only behind blanks and tabs.
use omp_telegram.Common.{
  lines_of, unlines, All, none, ℕ, zero, suc, Text, codes, is_empty, is_space, trim_space,
  trim_left, trim_right, has_prefix, length, true, false, ◌==◌, Bool-cases, List, [], ◌∷◌, ◌≡◌,
  refl, inl, inr, arith,
}
use omp_telegram.Telegram.Syntax.{is_blank, count_while, heading_text, is_heading, is_fence}
use omp_telegram.Telegram.Blocks.{Kind, is_table_start, is_indent, collect_quote, collect_block}
use omp_telegram.Telegram.Convert.{Inline, convert_block, convert_lines}
use omp_telegram.Telegram.Advance.{Text-cases}

-- A line of a white character that is neither a blank nor a tab, such as U+3000 or U+00A0, before `>`.
abbrev pub odd_quote : ℕ → Text → Text
odd_quote c s = c ∷ b'>' ∷ s

trim_space-odd_quote :
    (c : ℕ) (s : Text)
    → is_space c ≡ true
    → trim_space (odd_quote c s) ≡ b'>' ∷ trim_right is_space s
unfolding trim_space trim_left trim_right is_space
trim_space-odd_quote c s space =
    let first : trim_left is_space (odd_quote c s) ≡ b'>' ∷ s = rw (space, trim_left) refl in
    rw first (quote_stays s)
  where
    quote_stays : (s : Text) → trim_right is_space (b'>' ∷ s) ≡ b'>' ∷ trim_right is_space s
    quote_stays s = elim (Text-cases (trim_right is_space s)) [
      | inl e ↦ rw (e, trim_right) refl
      | inr e ↦ rw (e.2, trim_right) refl
    ]

is_fence-quote : (s : Text) → is_fence (b'>' ∷ s) ≡ false
unfolding is_fence
is_fence-quote [] = refl
is_fence-quote (a ∷ []) = refl
is_fence-quote (a ∷ b ∷ s) = refl

mark_not_blank : is_blank b'>' ≡ false
unfolding is_blank
mark_not_blank = refl

no_marks :
    (c : ℕ) (s : Text)
    → is_space c ≡ true
    → count_while (λ d. d == b'#') (trim_left is_blank (odd_quote c s)) ≡ 0
unfolding count_while trim_left is_space
no_marks c s space = elim (Bool-cases (is_blank c)) [
  | inl e ↦ rw e (rw mark_not_blank refl)
  | inr e ↦ let other : (c == b'#') ≡ false = ground (arith, space) in rw e (rw other refl)
]

heading_text-odd_quote :
    (c : ℕ) (s : Text) → is_space c ≡ true → heading_text (odd_quote c s) ≡ none
unfolding heading_text
heading_text-odd_quote c s space = rw (no_marks c s space) (ground arith)

is_heading-odd_quote : (c : ℕ) (s : Text) → is_space c ≡ true → is_heading (odd_quote c s) ≡ false
unfolding is_heading
is_heading-odd_quote c s space = rw (heading_text-odd_quote c s space, is_heading) refl

collect_quote-odd_quote :
    (c : ℕ) (s : Text) (lines : List Text)
    → is_space c ≡ true
    → is_indent c ≡ false
    → collect_quote (odd_quote c s ∷ lines)
      ≡ record { taken = []; kept = []; left = odd_quote c s ∷ lines }
unfolding collect_quote trim_left has_prefix is_space
collect_quote-odd_quote c s lines space indent =
    let other : (b'>' == c) ≡ false = ground (arith, space) in rw indent (rw other refl)

-- Where a line starts with `>` behind a white character that is neither a blank nor a tab, the block that
-- starts there takes no line, unless the line is a table's first: the loop stays where it is.
collect_block-odd_quote :
    (c : ℕ) (s : Text) (lines : List Text)
    → is_space c ≡ true
    → is_indent c ≡ false
    → is_table_start (odd_quote c s ∷ lines) ≡ false
    → collect_block (odd_quote c s) lines
      ≡ record { kind = Kind.quote; own = []; body = []; rest = odd_quote c s ∷ lines }
unfolding collect_block is_empty is_fence has_prefix
collect_block-odd_quote c s lines space indent table =
    let trimmed = trim_space-odd_quote c s space in
    let quote = collect_quote-odd_quote c s lines space indent in
    rw
      (
        trimmed,
        is_fence-quote (trim_right is_space s),
        table,
        is_heading-odd_quote c s space,
        quote,
      )
      refl

empty_body :
    (inline : Inline) (fuel : ℕ) → unlines (convert_lines inline fuel (lines_of (unlines []))) ≡ []
unfolding convert_lines unlines lines_of is_empty
empty_body inline zero = refl
empty_body inline (suc zero) = refl
empty_body inline (suc (suc fuel)) = refl

abbrev pub empty_quote : Text
empty_quote = codes "<blockquote></blockquote>"

-- Where a line starts with `>` behind a white character that is neither a blank nor a tab, and opens no
-- table, ConvertMarkdown never gets past it: however many times its loop runs, it has written that many
-- empty quotes and nothing else.
pub convert_lines-odd_quote :
    (inline : Inline) (c : ℕ) (s : Text) (lines : List Text) (fuel : ℕ)
    → is_space c ≡ true
    → is_indent c ≡ false
    → is_table_start (odd_quote c s ∷ lines) ≡ false
    → let written = convert_lines inline fuel (odd_quote c s ∷ lines) in
      (length written ≡ fuel) × All (λ p. p ≡ empty_quote) written
unfolding convert_lines convert_block
convert_lines-odd_quote inline c s lines zero space indent table = (refl, tt)
convert_lines-odd_quote inline c s lines (suc fuel) space indent table =
    let rest = convert_lines-odd_quote inline c s lines fuel space indent table in
    rw (collect_block-odd_quote c s lines space indent table)
      (omega (arith, rest.0), (rw (empty_body inline fuel) refl, rest.1))
