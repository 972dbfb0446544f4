-- ===== src/Telegram/Split.antt =====
-- SplitForTelegram in internal/telegram/markdown.go: Markdown cut into messages that convert by
-- themselves.
use omp_telegram.Common.{
  ℕ, zero, suc, ℤ, pos, negsuc, Text, codes, text_eq, is_empty, trim_space, units_of, lines_of,
  unlines, newline, length, Bool, true, false, ◌&&◌, ◌||◌, not, leb, ltb, if◌then◌else◌, Option,
  none, some, List, [], ◌∷◌, ◌++◌,
}
use Prim.Native.Nat.{◌/◌}
use omp_telegram.Telegram.Syntax.{is_fence, fence_marker}
use omp_telegram.Telegram.Tables.{literal_table_text, max}
use omp_telegram.Telegram.Blocks.{
  collect_fence, collect_table, collect_paragraph, is_table_start, paragraph_boundary,
}
use omp_telegram.Telegram.Convert.{Inline, convert_len}
use omp_telegram.Telegram.Literal.{hard_split_units, split_literal_block, split_fence_block}

-- The closing line of a fence, if there is one.
unfoldable pub closing_line : Text → List Text → List Text
unfolding text_eq trim_space
closing_line marker [] = []
closing_line marker (l ∷ []) = if text_eq (trim_space l) marker then l ∷ [] else []
closing_line marker (l ∷ m ∷ lines) = closing_line marker (m ∷ lines)

-- The block of the lines gathered so far.
unfoldable pub flush_lines : List Text → List Text
unfolding unlines
flush_lines [] = []
flush_lines (l ∷ lines) = unlines (l ∷ lines) ∷ []

-- The loop of markdownBlocks, with `cur`, on fuel for each line.
unfoldable pub blocks_from : ℕ → List Text → List Text → List Text
unfolding flush_lines closing_line collect_fence collect_table is_fence fence_marker is_table_start
    trim_space unlines
blocks_from zero cur lines = []
blocks_from (suc fuel) cur [] = flush_lines cur
blocks_from (suc fuel) cur (l ∷ lines) =
    let marker = fence_marker (trim_space l) in
    let fence = collect_fence marker lines in
    let table = collect_table (l ∷ lines) in
    let after_blank = flush_lines cur ++ blocks_from fuel [] lines in
    let after_fence =
      flush_lines cur
      ++ (unlines (l ∷ (fence.kept ++ closing_line marker (fence.taken)))
          ∷ blocks_from fuel [] (fence.left)) in
    let after_table =
      flush_lines cur ++ (unlines (table.kept) ∷ blocks_from fuel [] (table.left)) in
    let after_line = blocks_from fuel (cur ++ (l ∷ [])) lines in
    if is_empty (trim_space l)
    then after_blank
    else if is_fence (trim_space l)
    then after_fence
    else if is_table_start (l ∷ lines)
    then after_table
    else after_line

-- markdownBlocks
unfoldable pub markdown_blocks : Text → List Text
unfolding blocks_from lines_of
markdown_blocks md = blocks_from (suc (length (lines_of md))) [] (lines_of md)

abbrev pub max_message_utf16 : ℕ
max_message_utf16 = 4096

-- limit <= 0 stands for the limit of a message.
unfoldable pub effective_limit : ℤ → ℕ
effective_limit (pos n) = if ltb 0 n then n else max_message_utf16
effective_limit (negsuc n) = max_message_utf16

-- Whether packLines takes the line `l`, which `lines` follow, as one of a paragraph.
unfoldable pub is_ordinary : Text → List Text → Bool
unfolding paragraph_boundary
is_ordinary l lines = not (paragraph_boundary (l ∷ lines))

-- The text that packLines takes at a time: a paragraph, or one line.
unfoldable pub pack_text : Text → List Text → Text
unfolding is_ordinary collect_paragraph unlines
pack_text l lines = if is_ordinary l lines then unlines (l ∷ (collect_paragraph lines).taken) else l

unfoldable pub pack_rest : Text → List Text → List Text
unfolding is_ordinary collect_paragraph
pack_rest l lines = if is_ordinary l lines then (collect_paragraph lines).left else lines

abbrev pub flush_text : Text → List Text
flush_text current = if is_empty current then [] else current ∷ []

-- The variables of SplitForTelegram.
pub record Parts : Type 0 where
  pub parts : List Text
  pub current : Text

abbrev pub next_part : Text → Parts → Parts
next_part piece p = record { parts = p.parts ++ (p.current ∷ []); current = piece }

-- "\n\n"
abbrev pub blank_line : Text
blank_line = newline ∷ newline ∷ []

-- A later piece of a block.
unfoldable pub place_later : Text → Parts → Parts
place_later piece p =
    if is_empty (p.current) then record { parts = p.parts; current = piece } else next_part piece p

unfoldable pub place_rest : List Text → Parts → Parts
unfolding place_later
place_rest [] p = p
place_rest (piece ∷ pieces) p = place_rest pieces (
    if is_empty (p.current) then record { parts = p.parts; current = piece } else next_part piece p)

module _ (inline : Inline) where
  abbrev pub fits : ℕ → Text → Bool
  fits limit text = leb (convert_len inline text) limit

  -- The loop of splitTableBlock over the rows; `none` if a row does not fit with the header.
  unfoldable pub table_chunks : ℕ → Text → List Text → Text → Bool → List Text → Option (List Text)
  unfolding convert_len
  table_chunks limit head out chunk has_rows [] = some (out ++ (chunk ∷ []))
  table_chunks limit head out chunk has_rows (row ∷ rows) =
      let single = head ++ (newline ∷ row) in
      let candidate = chunk ++ (newline ∷ row) in
      let start = table_chunks limit head out single true rows in
      let next = table_chunks limit head (out ++ (chunk ∷ [])) single true rows in
      let same = table_chunks limit head out candidate true rows in
      if not (fits limit single)
      then none
      else if not has_rows
      then start
      else if not (fits limit candidate)
      then next
      else same

  -- splitTableBlock, of the header, the delimiter and the rows
  unfoldable pub split_table_block : Text → Text → List Text → ℕ → List Text
  unfolding table_chunks literal_table_text split_literal_block unlines convert_len
  split_table_block header delimiter rows limit =
      let head = unlines (header ∷ delimiter ∷ []) in
      let literal =
        split_literal_block (literal_table_text (header ∷ delimiter ∷ rows)) (codes "```") limit in
      if not (fits limit head)
      then literal
      else elim (table_chunks limit head [] head false rows) [ none ↦ literal | some out ↦ out ]

  abbrev pub all_fit : ℕ → List Text → Bool
  all_fit limit [] = true
  all_fit limit (p ∷ ps) = fits limit p && all_fit limit ps

  -- The loop of splitStructuredLine, on fuel for each halving.
  unfoldable pub halve_cut : ℕ → Text → ℕ → ℕ → List Text
  unfolding hard_split_units convert_len
  halve_cut zero s limit cut = hard_split_units s cut
  halve_cut (suc fuel) s limit cut =
      let pieces = hard_split_units s cut in
      let finer = halve_cut fuel s limit (max 1 (cut / 2)) in
      if all_fit limit pieces || leb cut 1 then pieces else finer

  -- splitStructuredLine
  unfoldable pub split_structured_line : Text → ℕ → List Text
  unfolding halve_cut
  split_structured_line s limit = halve_cut (units_of s) s limit (units_of s / 2)

  -- The pieces of a text that does not fit by itself.
  unfoldable pub pack_pieces : ℕ → Bool → Text → List Text
  unfolding split_structured_line
  pack_pieces limit ordinary text =
      if ordinary
      then inline.split_inline_paragraph text limit
      else split_structured_line text limit

  -- The loop of packLines, with `current`, on fuel for each line. What it returns follows `out`.
  unfoldable pub pack_from : ℕ → ℕ → Text → List Text → List Text
  unfolding is_ordinary pack_text pack_rest pack_pieces convert_len
  pack_from limit zero current lines = []
  pack_from limit (suc fuel) current [] = flush_text current
  pack_from limit (suc fuel) current (l ∷ lines) =
      let text = pack_text l lines in
      let rest = pack_rest l lines in
      let candidate = if is_empty current then text else current ++ (newline ∷ text) in
      let pieces = pack_pieces limit (is_ordinary l lines) text in
      let after_pieces = flush_text current ++ (pieces ++ pack_from limit fuel [] rest) in
      let after_flush = flush_text current ++ pack_from limit fuel text rest in
      let joined = pack_from limit fuel candidate rest in
      if not (fits limit text)
      then after_pieces
      else if not (is_empty current) && not (fits limit candidate)
      then after_flush
      else joined

  -- packLines
  unfoldable pub pack_lines : List Text → ℕ → List Text
  unfolding pack_from
  pack_lines lines limit = pack_from limit (suc (length lines)) [] lines

  -- oversizeBlock on the lines of a block that does not fit
  unfoldable pub oversize_lines : List Text → ℕ → List Text
  unfolding is_table_start is_fence trim_space split_table_block collect_fence fence_marker
      split_fence_block pack_lines
  oversize_lines [] limit = pack_lines [] limit
  oversize_lines (l ∷ []) limit =
      if is_fence (trim_space l)
      then split_fence_block [] (fence_marker (trim_space l)) limit
      else pack_lines (l ∷ []) limit
  oversize_lines (l ∷ m ∷ lines) limit =
      if is_table_start (l ∷ m ∷ lines)
      then split_table_block l m lines limit
      else if is_fence (trim_space l)
      then split_fence_block ((collect_fence (fence_marker (trim_space l)) (m ∷ lines)).kept)
          (fence_marker (trim_space l)) limit
      else pack_lines (l ∷ m ∷ lines) limit

  unfoldable pub oversize_block : Text → ℕ → List Text
  unfolding oversize_lines lines_of convert_len
  oversize_block block limit =
      if fits limit block then block ∷ [] else oversize_lines (lines_of block) limit

  -- The first piece of a block, which may join what stands before it.
  unfoldable pub place_first : ℕ → Text → Parts → Parts
  unfolding convert_len
  place_first limit piece p =
      let candidate = p.current ++ (blank_line ++ piece) in
      if is_empty (p.current)
      then record { parts = p.parts; current = piece }
      else if fits limit candidate
      then record { parts = p.parts; current = candidate }
      else next_part piece p

  unfoldable pub place_block : ℕ → List Text → Parts → Parts
  unfolding place_first place_rest
  place_block limit [] p = p
  place_block limit (piece ∷ pieces) p = place_rest pieces (place_first limit piece p)

  unfoldable pub place_blocks : ℕ → List Text → Parts → Parts
  unfolding place_block oversize_block
  place_blocks limit [] p = p
  place_blocks limit (block ∷ blocks) p =
      place_blocks limit blocks (place_block limit (oversize_block block limit) p)

  -- SplitForTelegram with the limit set
  unfoldable pub split_within : Text → ℕ → List Text
  unfolding place_blocks markdown_blocks
  split_within md limit =
      let p = place_blocks limit (markdown_blocks md) (record { parts = []; current = [] }) in
      p.parts ++ flush_text (p.current)

  -- SplitForTelegram
  unfoldable pub split_for_telegram : Text → ℤ → List Text
  unfolding split_within effective_limit trim_space
  split_for_telegram md limit =
      if is_empty (trim_space md) then [] else split_within md (effective_limit limit)
