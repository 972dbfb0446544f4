-- ===== src/Telegram/LiteralParts.antt =====
-- Literal messages of internal/telegram/markdown.go, as they convert by themselves.
use omp_telegram.Common.{
  ℕ, zero, suc, ◌≤◌, Text, units_of, lines_of, unlines, newline, repeat, true, false, All, none,
  some, List, [], ◌∷◌, ◌++◌, map, ◌≡◌, refl, ap, ◌∙◌, arith, join, length,
}
use omp_telegram.Telegram.Tables.{pre_block}
use omp_telegram.Telegram.Convert.{
  Inline, Seen, plain_from, plain_ascii_text, convert_block, convert_lines, convert_markdown,
  convert_len,
}
use omp_telegram.Telegram.Literal.{literal_fence, safe_marker, split_literal_block}
use omp_telegram.Telegram.Lines.{unlines-lines_of}
use omp_telegram.Telegram.Rendering.{rendered_len-pre_block}
use omp_telegram.Telegram.Fences.{
  Marker, Safe, is_fence_char, safe_marker-Safe, collect_fence-Safe, collect_block-Marker,
  lines_of-literal_fence, first_block, first_block-literal_fence,
}
use omp_telegram.Telegram.Chunks.{Within, concat, split_literal_block-Pieces}

-- The text that a fence shows.
unfoldable pub literal_body : Text → Text
unfolding first_block unlines
literal_body p = elim (first_block p) [ none ↦ [] | some b ↦ unlines (b.body) ]

pub literal_body-literal_fence :
    (text marker : Text) → Marker marker → literal_body (literal_fence text marker) ≡ text
unfolding literal_body
literal_body-literal_fence text marker mk =
    rw (first_block-literal_fence text marker mk, literal_body) (unlines-lines_of text)

not_plain :
    (c n : ℕ) (s : Text) (seen : Seen)
    → is_fence_char c ≡ true
    → 3 ≤ n
    → plain_from seen (repeat c n ++ s) ≡ false
unfolding plain_from repeat
not_plain c zero s seen h k = ground arith
not_plain c (suc n) s seen h k = ground arith

plain_ascii_text-Marker : (m s : Text) → Marker m → plain_ascii_text (m ++ s) ≡ false
unfolding plain_ascii_text
plain_ascii_text-Marker m s mk =
    rw mk.is_repeat
      (not_plain mk.char mk.size s (record { text = false; spaces = false }) mk.is_char mk.at_least)

module _ (inline : Inline) where
  convert_lines-Marker :
      (fuel : ℕ) (lines : List Text) (m : Text)
      → Safe lines m
      → convert_lines inline (suc fuel) (m ∷ (lines ++ (m ∷ []))) ≡ pre_block (unlines lines) ∷ []
  unfolding convert_lines convert_block
  convert_lines-Marker fuel lines m safe =
      rw
        (
          collect_block-Marker m (lines ++ (m ∷ [])) safe.marker,
          collect_fence-Safe lines m safe.marker safe.open_until_end,
        )
        (nothing_left fuel (pre_block (unlines lines)))
    where
      nothing_left :
          (fuel : ℕ) (p : Text) → ◌≡◌ {A = List Text} (p ∷ convert_lines inline fuel []) (p ∷ [])
      nothing_left zero p = refl
      nothing_left (suc fuel) p = refl

  pub convert_markdown-literal_fence :
      (text marker : Text)
      → Marker marker
      → convert_markdown inline (literal_fence text marker) ≡ pre_block text
  unfolding convert_markdown unlines join
  convert_markdown-literal_fence text marker mk =
      let m = safe_marker (lines_of text) marker in
      let e = lines_of-literal_fence text marker mk in
      let safe = safe_marker-Safe (lines_of text) marker mk in
      rw (e, convert_lines-Marker (length (literal_fence text marker)) (lines_of text) m safe)
        (ap (λ (t : Text). pre_block t) (unlines-lines_of text))

  pub convert_len-literal_fence :
      (text marker : Text)
      → Marker marker
      → convert_len inline (literal_fence text marker) ≡ units_of text
  unfolding convert_len
  convert_len-literal_fence text marker mk =
      let m = safe_marker (lines_of text) marker in
      let safe = safe_marker-Safe (lines_of text) marker mk in
      let e : plain_ascii_text (literal_fence text marker) ≡ false =
        unfold literal_fence in
        plain_ascii_text-Marker m (newline ∷ (text ++ (newline ∷ m))) safe.marker in
      rw (e, convert_markdown-literal_fence text marker mk) (rendered_len-pre_block text)

  abbrev pub Fits : ℕ → Text → Type 0
  Fits limit p = convert_len inline p ≤ limit

  fences_fit :
      (marker : Text) (limit : ℕ) (ps : List Text)
      → Marker marker
      → All (Within limit) ps
      → All (Fits limit) (map (λ p. literal_fence p marker) ps)
  fences_fit marker limit [] mk h = tt
  fences_fit marker limit (p ∷ ps) mk h =
      (omega (arith, convert_len-literal_fence p marker mk, h.0), fences_fit marker limit ps mk h.1)

  fences_keep :
      (marker : Text) (ps : List Text)
      → Marker marker
      → concat (map literal_body (map (λ p. literal_fence p marker) ps)) ≡ concat ps
  fences_keep marker [] mk = refl
  fences_keep marker (p ∷ ps) mk =
      rw (literal_body-literal_fence p marker mk, fences_keep marker ps mk) refl

  -- Text that is split into literal messages is whole when the bodies of the fences are put together
  -- again, and each message converts to at most `limit` units, if the limit is at least 2 and the marker
  -- a run of at least three backticks or tildes.
  pub split_literal_block-Fits :
      (text marker : Text) (limit : ℕ)
      → Marker marker
      → 2 ≤ limit
      → (concat (map literal_body (split_literal_block text marker limit)) ≡ text)
        × All (Fits limit) (split_literal_block text marker limit)
  split_literal_block-Fits text marker limit mk two =
      let p = split_literal_block-Pieces text marker limit two in
      rw p.is_split (
        fences_keep marker p.payloads mk ∙ p.is_text,
        fences_fit marker limit p.payloads mk p.all_fit,
      )
