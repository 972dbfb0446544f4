-- ===== src/Telegram/Limits.antt =====
-- The pieces that internal/telegram/markdown.go cuts one block into fit in the limit, but for those that it cuts no smaller.
use omp_telegram.Common.{
  ℕ, zero, suc, ◌≤◌, ◌<◌, Text, units_of, is_empty, lines_of, unlines, newline, trim_space, length,
  Bool, true, false, leb, Bool-cases, All, All-append, List, [], ◌∷◌, ◌++◌, ◌≡◌, refl, inl, inr,
  arith,
}
use Prim.Native.Nat.{◌/◌}
use omp_telegram.Telegram.Syntax.{is_fence, fence_marker}
use omp_telegram.Telegram.Tables.{max}
use omp_telegram.Telegram.Blocks.{is_table_start, collect_fence}
use omp_telegram.Telegram.Convert.{Inline, plain_ascii_text, convert_len}
use omp_telegram.Telegram.Literal.{hard_split_units, split_fence_block}
use omp_telegram.Telegram.Split.{
  all_fit, fits, halve_cut, split_structured_line, flush_text, is_ordinary, pack_text, pack_rest,
  pack_pieces, pack_from, pack_lines, oversize_lines, oversize_block,
}
use omp_telegram.Telegram.TableLimits.{
  hard_split_from-singles, Allowed, fitting, singles, inline_pieces, fence_marker-Marker, if-All,
  all_fit-Fits, literal_small, split_table_block-Fits,
}

module _ (inline : Inline) where
  halve_cut-Allowed :
      (fuel : ℕ) (s : Text) (limit cut : ℕ)
      → 2 ≤ limit
      → cut ≤ fuel
      → All (Allowed inline limit) (halve_cut inline fuel s limit cut)
  unfolding halve_cut hard_split_units
  halve_cut-Allowed zero s limit cut two enough =
      singles inline limit (hard_split_units s cut)
        (hard_split_from-singles cut [] 0 s (omega arith) refl (omega arith))
  halve_cut-Allowed (suc fuel) s limit cut two enough =
      elim (Bool-cases (all_fit inline limit (hard_split_units s cut))) [
        | inl e ↦
            rw e (fitting inline limit _ (all_fit-Fits inline limit (hard_split_units s cut) e))
        | inr e ↦ elim (Bool-cases (leb cut 1)) [
          | inl small ↦
              rw (e, small)
                (singles inline limit (hard_split_units s cut)
                  (hard_split_from-singles cut [] 0 s (ground arith) refl (omega arith)))
          | inr large ↦
              rw (e, large) (halve_cut-Allowed fuel s limit (max 1 (cut / 2)) two (ground arith))
        ]
      ]

  split_structured_line-Allowed :
      (s : Text) (limit : ℕ)
      → 2 ≤ limit
      → All (Allowed inline limit) (split_structured_line inline s limit)
  unfolding split_structured_line
  split_structured_line-Allowed s limit two =
      halve_cut-Allowed (units_of s) s limit (units_of s / 2) two (omega arith)

  pub flush_text-Allowed :
      (limit : ℕ) (current : Text)
      → Allowed inline limit current
      → All (Allowed inline limit) (flush_text current)
  unfolding is_empty
  flush_text-Allowed limit [] fit = tt
  flush_text-Allowed limit (c ∷ current) fit = (fit, tt)

  -- A text without a character fits.
  pub empty_small : (limit : ℕ) → Allowed inline limit []
  unfolding convert_len plain_ascii_text
  empty_small limit = inl (omega arith)

  pack_pieces-Allowed :
      (limit : ℕ) (ordinary : Bool) (text : Text)
      → 2 ≤ limit
      → limit < convert_len inline text
      → All (Allowed inline limit) (pack_pieces inline limit ordinary text)
  unfolding pack_pieces
  pack_pieces-Allowed limit true text two long = inline_pieces inline limit text long
  pack_pieces-Allowed limit false text two long = split_structured_line-Allowed text limit two

  too_long :
      (limit : ℕ) (text : Text) → fits inline limit text ≡ false → limit < convert_len inline text
  too_long limit text e = ground (arith, e)

  pack_from-Allowed :
      (limit fuel : ℕ) (current : Text) (lines : List Text)
      → 2 ≤ limit
      → Allowed inline limit current
      → All (Allowed inline limit) (pack_from inline limit fuel current lines)
  unfolding pack_from
  pack_from-Allowed limit zero current lines two fit = tt
  pack_from-Allowed limit (suc fuel) current [] two fit = flush_text-Allowed limit current fit
  pack_from-Allowed limit (suc fuel) current (l ∷ lines) two fit =
      let text = pack_text l lines in
      let rest = pack_rest l lines in
      let flushed = flush_text-Allowed limit current fit in
      elim (Bool-cases (fits inline limit text)) [
        | inr long ↦ rw long (
            All-append (Allowed inline limit) (flush_text current) _ flushed (
              All-append (Allowed inline limit)
                (pack_pieces inline limit (is_ordinary l lines) text) _
                (pack_pieces-Allowed limit (is_ordinary l lines) text two
                  (too_long limit text long))
                (pack_from-Allowed limit fuel [] rest two (empty_small limit))))
        | inl short ↦
            let fit_text : Allowed inline limit text = inl (ground (arith, short)) in
            elim (Bool-cases (is_empty current)) [
              | inl e ↦ rw (short, e) (pack_from-Allowed limit fuel text rest two fit_text)
              | inr e ↦ elim (Bool-cases (fits inline limit (current ++ (newline ∷ text)))) [
                | inl c ↦
                    rw (short, e, c)
                      (pack_from-Allowed limit fuel (current ++ (newline ∷ text)) rest two
                        (inl (ground (arith, c))))
                | inr c ↦
                    rw (short, e, c) (fit, pack_from-Allowed limit fuel text rest two fit_text)
              ]
            ]
      ]

  pack_lines-Allowed :
      (lines : List Text) (limit : ℕ)
      → 2 ≤ limit
      → All (Allowed inline limit) (pack_lines inline lines limit)
  unfolding pack_lines
  pack_lines-Allowed lines limit two =
      pack_from-Allowed limit (suc (length lines)) [] lines two (empty_small limit)

  fence_small :
      (l : Text) (body : List Text) (limit : ℕ)
      → is_fence (trim_space l) ≡ true
      → 2 ≤ limit
      → All (Allowed inline limit) (split_fence_block body (fence_marker (trim_space l)) limit)
  unfolding split_fence_block
  fence_small l body limit h two = fitting inline limit _ (
      literal_small inline (unlines body) (fence_marker (trim_space l)) limit
        (fence_marker-Marker (trim_space l) h) two)

  oversize_lines-Allowed :
      (lines : List Text) (limit : ℕ)
      → 2 ≤ limit
      → All (Allowed inline limit) (oversize_lines inline lines limit)
  unfolding oversize_lines
  oversize_lines-Allowed [] limit two = pack_lines-Allowed [] limit two
  oversize_lines-Allowed (l ∷ []) limit two =
      if-All (Allowed inline limit) (is_fence (trim_space l)) _ _
        (λ e. fence_small l [] limit e two) (λ e. pack_lines-Allowed (l ∷ []) limit two)
  oversize_lines-Allowed (l ∷ m ∷ lines) limit two =
      let body = (collect_fence (fence_marker (trim_space l)) (m ∷ lines)).kept in
      if-All (Allowed inline limit) (is_table_start (l ∷ m ∷ lines)) _ _
        (λ t. fitting inline limit _ (split_table_block-Fits inline l m lines limit two))
        (λ t.
          if-All (Allowed inline limit) (is_fence (trim_space l)) _ _
            (λ e. fence_small l body limit e two)
            (λ e. pack_lines-Allowed (l ∷ m ∷ lines) limit two))

  pub oversize_block-Allowed :
      (block : Text) (limit : ℕ)
      → 2 ≤ limit
      → All (Allowed inline limit) (oversize_block inline block limit)
  unfolding oversize_block
  oversize_block-Allowed block limit two =
      if-All (Allowed inline limit) (fits inline limit block) _ _
        (λ e. (inl (ground (arith, e)), tt))
        (λ e. oversize_lines-Allowed (lines_of block) limit two)
