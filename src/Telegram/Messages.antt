-- ===== src/Telegram/Messages.antt =====
-- Every message that SplitForTelegram of internal/telegram/markdown.go makes fits in the limit, but for those that it cuts no smaller.
use omp_telegram.Common.{
  ℕ, ◌≤◌, ℤ, Text, is_empty, trim_space, Bool-cases, All, All-append, List, [], ◌∷◌, ◌++◌, inl, inr,
  arith,
}
use omp_telegram.Telegram.Convert.{Inline}
use omp_telegram.Telegram.Split.{
  fits, oversize_block, Parts, next_part, blank_line, place_first, place_later, place_rest,
  place_block, place_blocks, split_within, split_for_telegram, effective_limit, markdown_blocks,
}
use omp_telegram.Telegram.TableLimits.{Allowed, if-All}
use omp_telegram.Telegram.Limits.{empty_small, flush_text-Allowed, oversize_block-Allowed}

module _ (inline : Inline) where
  -- Both the parts that are out and the one at hand fit.
  abbrev PartsFit : ℕ → Parts → Type 0
  PartsFit limit p = All (Allowed inline limit) p.parts × Allowed inline limit p.current

  next_part-Allowed :
      (limit : ℕ) (piece : Text) (p : Parts)
      → Allowed inline limit piece
      → PartsFit limit p
      → PartsFit limit (next_part piece p)
  next_part-Allowed limit piece p fit h =
      (All-append (Allowed inline limit) p.parts (p.current ∷ []) h.0 (h.1, tt), fit)

  place_first-Allowed :
      (limit : ℕ) (piece : Text) (p : Parts)
      → Allowed inline limit piece
      → PartsFit limit p
      → PartsFit limit (place_first inline limit piece p)
  unfolding place_first
  place_first-Allowed limit piece p fit h = elim (Bool-cases (is_empty p.current)) [
    | inl e ↦ rw e (h.0, fit)
    | inr e ↦ elim (Bool-cases (fits inline limit (p.current ++ (blank_line ++ piece)))) [
      | inl c ↦ rw (e, c) (h.0, inl (ground (arith, c)))
      | inr c ↦ rw (e, c) (next_part-Allowed limit piece p fit h)
    ]
  ]

  place_later-Allowed :
      (limit : ℕ) (piece : Text) (p : Parts)
      → Allowed inline limit piece
      → PartsFit limit p
      → PartsFit limit (place_later piece p)
  unfolding place_later
  place_later-Allowed limit piece p fit h = elim (Bool-cases (is_empty p.current)) [
    | inl e ↦ rw e (h.0, fit)
    | inr e ↦ rw e (next_part-Allowed limit piece p fit h)
  ]

  place_rest-Allowed :
      (limit : ℕ) (pieces : List Text) (p : Parts)
      → All (Allowed inline limit) pieces
      → PartsFit limit p
      → PartsFit limit (place_rest pieces p)
  unfolding place_rest
  place_rest-Allowed limit [] p fit h = h
  place_rest-Allowed limit (piece ∷ pieces) p fit h =
      place_rest-Allowed limit pieces (place_later piece p) fit.1
        (place_later-Allowed limit piece p fit.0 h)

  place_block-Allowed :
      (limit : ℕ) (pieces : List Text) (p : Parts)
      → All (Allowed inline limit) pieces
      → PartsFit limit p
      → PartsFit limit (place_block inline limit pieces p)
  unfolding place_block
  place_block-Allowed limit [] p fit h = h
  place_block-Allowed limit (piece ∷ pieces) p fit h =
      place_rest-Allowed limit pieces (place_first inline limit piece p) fit.1
        (place_first-Allowed limit piece p fit.0 h)

  place_blocks-Allowed :
      (limit : ℕ) (blocks : List Text) (p : Parts)
      → 2 ≤ limit
      → PartsFit limit p
      → PartsFit limit (place_blocks inline limit blocks p)
  unfolding place_blocks
  place_blocks-Allowed limit [] p two h = h
  place_blocks-Allowed limit (block ∷ blocks) p two h =
      place_blocks-Allowed limit blocks
        (place_block inline limit (oversize_block inline block limit) p) two
        (place_block-Allowed limit (oversize_block inline block limit) p
          (oversize_block-Allowed inline block limit two) h)

  -- For every inline converter and splitter, each message that a text is split into converts to at most the
  -- limit, which is that of a Telegram message where none is given, or it is a single character, or it
  -- is a piece that the inline splitter made of a paragraph that does not fit. The limit is at least 2,
  -- and the conversions that measure the pieces end.
  pub split_for_telegram-Allowed :
      (md : Text) (limit : ℤ)
      → 2 ≤ effective_limit limit
      → All (Allowed inline (effective_limit limit)) (split_for_telegram inline md limit)
  unfolding split_for_telegram split_within
  split_for_telegram-Allowed md limit two =
      let n = effective_limit limit in
      let h =
        place_blocks-Allowed n (markdown_blocks md) (record { parts = []; current = [] }) two
          (tt, empty_small inline n) in
      if-All (Allowed inline n) (is_empty (trim_space md)) _ _ (λ e. tt)
        (λ e. All-append (Allowed inline n) _ _ h.0 (flush_text-Allowed inline n _ h.1))
