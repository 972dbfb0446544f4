-- ===== src/Telegram/Literal.antt =====
-- Splitting of literal text in internal/telegram/markdown.go: hard cuts, and chunks in fences.
use omp_telegram.Common.{
  ℕ, suc, ◌+◌, ◌-◌, Text, is_empty, trim_space, width, units_of, lines_of, unlines, newline, repeat,
  length, Bool, ◌&&◌, leb, ltb, ◌==◌, if◌then◌else◌, List, [], ◌∷◌, ◌++◌,
}
use omp_telegram.Telegram.Syntax.{all_chars}
use omp_telegram.Telegram.Tables.{max}

-- The loop of hardSplitUnits: `piece` is s[start:i] and `n` its units. Behind the loop the last piece
-- is empty only when the whole text is, and is kept then too.
unfoldable pub hard_split_from : ℕ → Text → ℕ → Text → List Text
hard_split_from limit piece n [] = piece ∷ []
hard_split_from limit piece n (r ∷ s) =
    let cut = hard_split_from limit (r ∷ []) (width r) s in
    let more = hard_split_from limit (piece ++ (r ∷ [])) (n + width r) s in
    if ltb limit (n + width r) then piece ∷ cut else more

-- hardSplitUnits
unfoldable pub hard_split_units : Text → ℕ → List Text
unfolding hard_split_from
hard_split_units s limit = hard_split_from limit [] 0 s

-- strings.Trim(line, char) == "" and at least `n` long
unfoldable pub is_run : ℕ → ℕ → Text → Bool
unfolding all_chars
is_run char n line = leb n (length line) && all_chars (λ c. c == char) line

-- The longest line that is a run of the marker's character, if it is as long as the marker.
unfoldable pub longest_run : ℕ → ℕ → ℕ → List Text → ℕ
unfolding is_run trim_space
longest_run char n longest [] = longest
longest_run char n longest (l ∷ lines) =
    let line = trim_space l in
    longest_run char n (if is_run char n line then max longest (length line) else longest) lines

-- The marker that literalFence chooses.
unfoldable pub safe_marker : List Text → Text → Text
unfolding longest_run repeat
safe_marker lines [] = []
safe_marker lines (c ∷ marker) =
    let n = suc (length marker) in
    let longest = longest_run c n (n - 1) lines in
    if leb n longest then repeat c (longest + 1) else c ∷ marker

unfoldable pub literal_fence : Text → Text → Text
unfolding safe_marker lines_of
literal_fence text marker =
    let m = safe_marker (lines_of text) marker in m ++ (newline ∷ (text ++ (newline ∷ m)))

-- The variables of splitLiteralBlock.
pub record Chunks : Type 0 where
  pub out : List Text
  pub chunk : Text
  pub units : ℕ

module _ (marker : Text) (limit : ℕ) where
  unfoldable pub flush : Chunks → Chunks
  unfolding literal_fence
  flush c =
      if is_empty (c.chunk)
      then c
      else record { out = c.out ++ (literal_fence (c.chunk) marker ∷ []); chunk = []; units = 0 }

  unfoldable pub append_piece : Text → Chunks → Chunks
  unfolding flush
  append_piece piece c =
      let d = if ltb limit (c.units + units_of piece) then flush c else c in
      record { out = d.out; chunk = d.chunk ++ piece; units = d.units + units_of piece }

  unfoldable pub append_pieces : List Text → Chunks → Chunks
  unfolding append_piece
  append_pieces [] c = c
  append_pieces (p ∷ ps) c = append_pieces ps (append_piece p c)

  -- A line, which is cut only when it does not fit by itself.
  unfoldable pub append_line : Text → Chunks → Chunks
  unfolding append_piece append_pieces flush hard_split_units
  append_line line c =
      if leb (units_of line) limit
      then append_piece line c
      else append_pieces (hard_split_units line limit) (flush c)

  -- The loop over the lines.
  unfoldable pub append_lines : List Text → Chunks → Chunks
  unfolding append_line append_piece
  append_lines [] c = c
  append_lines (l ∷ []) c = append_line l c
  append_lines (l ∷ m ∷ lines) c =
      append_lines (m ∷ lines) (append_piece (newline ∷ []) (append_line l c))

-- The chunks, or one if there is none.
abbrev pub at_least_one : Text → List Text → List Text
at_least_one fence [] = fence ∷ []
at_least_one fence (p ∷ ps) = p ∷ ps

-- splitLiteralBlock
unfoldable pub split_literal_block : Text → Text → ℕ → List Text
unfolding append_lines flush literal_fence lines_of
split_literal_block text marker limit =
    let start : Chunks = record { out = []; chunk = []; units = 0 } in
    let out = (flush marker limit (append_lines marker limit (lines_of text) start)).out in
    at_least_one (literal_fence [] marker) out

-- splitFenceBlock
unfoldable pub split_fence_block : List Text → Text → ℕ → List Text
unfolding split_literal_block unlines
split_fence_block body marker limit = split_literal_block (unlines body) marker limit
