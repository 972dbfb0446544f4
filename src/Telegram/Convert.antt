-- ===== src/Telegram/Convert.antt =====
-- Conversion of Markdown into HTML, in internal/telegram/markdown.go, over the inline converter.
use omp_telegram.Common.{
  ℕ, zero, suc, Text, codes, trim_space, trim_right, lines_of, unlines, newline, repeat, length,
  Bool, true, false, ◌&&◌, ◌||◌, not, leb, ◌==◌, if◌then◌else◌, is_empty, Option, none, some, List,
  [], ◌∷◌, ◌++◌,
}
use omp_telegram.Telegram.Syntax.{is_digit, list_item, heading_text}
use omp_telegram.Telegram.Html.{escape_html, rendered_len}
use omp_telegram.Telegram.Tables.{render_table, pre_block}
use omp_telegram.Telegram.Blocks.{Block, Kind, collect_block, is_indent}

-- What the block converter uses of internal/telegram/markdown_inline.go: convertInline,
-- convertHeadingInline and splitInlineParagraph.
pub record Inline : Type 0 where
  pub convert_inline : Text → Text
  pub convert_heading_inline : Text → Text
  pub split_inline_paragraph : Text → ℕ → List Text

-- strings.ReplaceAll(s, "\t", "    ")
unfoldable pub expand_tabs : Text → Text
expand_tabs [] = []
expand_tabs (c ∷ s) = (if c == 9 then codes "    " else c ∷ []) ++ expand_tabs s

-- The marker that an item is shown with.
unfoldable pub shown_marker : Text → Text
unfolding trim_right
shown_marker [] = codes "- "
shown_marker (c ∷ s) =
    if is_digit c
    then trim_right (λ d. d == b'.' || d == b')') (c ∷ s) ++ codes ". "
    else codes "- "

-- "──────────"
abbrev pub rule_line : Text
rule_line = repeat 0x2500 10

-- What plainASCIIText has seen of a line.
pub record Seen : Type 0 where
  pub text : Bool
  pub spaces : Bool

abbrev pub is_alphanumeric : ℕ → Bool
is_alphanumeric c = (leb b'a' c && leb c b'z') || (leb b'A' c && leb c b'Z') || is_digit c

-- The loop of plainASCIIText.
unfoldable pub plain_from : Seen → Text → Bool
plain_from seen [] = not (seen.spaces) || seen.text
plain_from seen (c ∷ s) =
    let after_text = plain_from (record { text = true; spaces = seen.spaces }) s in
    let after_space = plain_from (record { text = seen.text; spaces = true }) s in
    let after_line = plain_from (record { text = false; spaces = false }) s in
    if is_alphanumeric c
    then after_text
    else if c == b' '
    then after_space
    else if c == newline
    then (if seen.spaces && not (seen.text) then false else after_line)
    else false

unfoldable pub plain_ascii_text : Text → Bool
unfolding plain_from
plain_ascii_text = plain_from (record { text = false; spaces = false })

-- The first line of a block.
abbrev pub head_line : List Text → Text
head_line [] = []
head_line (l ∷ _) = l

-- The second group of headingRe, of a line that matches it.
abbrev pub heading_group : Option Text → Text
heading_group none = []
heading_group (some s) = s

module _ (inline : Inline) where
  -- convertList, with what is written so far and the width of the open item's prefix.
  unfoldable pub list_from : Text → ℕ → List Text → Text
  unfolding list_item expand_tabs shown_marker trim_right trim_space repeat
  list_from written open_len [] = written
  list_from written open_len (l ∷ lines) = elim (list_item l) [
    | some m ↦
        let prefix = expand_tabs (m.indent) ++ shown_marker (m.marker) in
        let item = prefix ++ inline.convert_inline (trim_right is_indent (m.content)) in
        list_from (if is_empty written then item else written ++ (newline ∷ item)) (length prefix)
          lines
    | none ↦
        let continuation = inline.convert_inline (trim_space l) in
        list_from (written ++ (newline ∷ (repeat b' ' open_len ++ continuation))) open_len lines
  ]

  unfoldable pub convert_list : List Text → Text
  unfolding list_from
  convert_list = list_from [] 0

  -- What ConvertMarkdown writes for a block; `quoted` is its own call on the body of a quote.
  unfoldable pub convert_block : (List Text → Text) → Block → Text
  unfolding escape_html unlines render_table heading_text trim_space convert_list repeat
  convert_block quoted b = elim (b.kind) [
    | Kind.blank ↦ []
    | Kind.fence ↦ pre_block (unlines (b.body))
    | Kind.table ↦ render_table (b.body)
    | Kind.heading ↦
        inline.convert_heading_inline
          (trim_space (heading_group (heading_text (head_line (b.own)))))
    | Kind.quote ↦ codes "<blockquote>" ++ (quoted (b.body) ++ codes "</blockquote>")
    | Kind.rule ↦ rule_line
    | Kind.list ↦ convert_list (b.own)
    | Kind.paragraph ↦ inline.convert_inline (unlines (b.own))
  ]

  -- The pieces that ConvertMarkdown joins, on fuel: one step for each block, and for each line inside
  -- a quote.
  unfoldable pub convert_lines : ℕ → List Text → List Text
  unfolding convert_block collect_block lines_of unlines
  convert_lines zero lines = []
  convert_lines (suc fuel) [] = []
  convert_lines (suc fuel) (l ∷ lines) =
      let b = collect_block l lines in
      convert_block (λ body. unlines (convert_lines fuel (lines_of (unlines body)))) b
      ∷ convert_lines fuel (b.rest)

  -- ConvertMarkdown
  unfoldable pub convert_markdown : Text → Text
  unfolding convert_lines lines_of unlines
  convert_markdown md = unlines (convert_lines (suc (length md)) (lines_of md))

  unfoldable pub convert_len : Text → ℕ
  unfolding convert_markdown plain_ascii_text rendered_len
  convert_len md = if plain_ascii_text md then length md else rendered_len (convert_markdown md)
