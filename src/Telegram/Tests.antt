-- ===== src/Telegram/Tests.antt =====
-- The Markdown functions of internal/telegram/markdown.go at concrete texts.
use omp_telegram.Common.{
  pos, Text, codes, lines_of, length, newline, All, some, [], ◌∷◌, ◌++◌, map, ◌≡◌, refl, ◌⊎◌, ◌<◌,
  ◌≤◌, arith,
}
use omp_telegram.Telegram.Html.{escape_html}
use omp_telegram.Telegram.Blocks.{Kind, collect_block, is_table_start}
use omp_telegram.Telegram.Tables.{render_table, strip_inline_marks}
use omp_telegram.Telegram.Convert.{Inline, convert_lines, convert_markdown, convert_len}
use omp_telegram.Telegram.Literal.{literal_fence, split_literal_block}
use omp_telegram.Telegram.Split.{effective_limit, split_for_telegram, markdown_blocks}
use omp_telegram.Telegram.Clip.{clip_marker, clip_convertible}
use omp_telegram.Telegram.Fences.{first_block, first_block-literal_fence}
use omp_telegram.Telegram.Chunks.{concat}
use omp_telegram.Telegram.LiteralParts.{literal_body, Fits, split_literal_block-Fits}
use omp_telegram.Telegram.TableLimits.{Allowed, backticks}
use omp_telegram.Telegram.Messages.{split_for_telegram-Allowed}
use omp_telegram.Telegram.Clipping.{Cut, clip_convertible-Cut}
use omp_telegram.Telegram.Advance.{Advances, collect_block-Advances}
use omp_telegram.Telegram.Shown.{shown, lines_of_blocks}
use omp_telegram.Telegram.WholeText.{markdown_blocks-keeps}
use omp_telegram.Telegram.OddQuotes.{odd_quote, empty_quote, convert_lines-odd_quote}
use omp_telegram.Common.{is_empty}
use omp_telegram.Common.{is_empty}
use omp_telegram.Common.{trim_left}
use omp_telegram.Common.{trim_space}
use omp_telegram.Common.{is_space}

-- An inline converter that only escapes, and cuts a paragraph as literal text.
unfoldable literal_inline : Inline
unfolding escape_html split_literal_block
literal_inline = record {
  convert_inline = escape_html;
  convert_heading_inline = escape_html;
  split_inline_paragraph = λ text limit. split_literal_block text (codes "```") limit;
}

-- Code that holds the marker of its own fence.
abbrev code_text : Text
code_text = codes "a" ++ (newline ∷ (codes "```" ++ (newline ∷ codes "b")))

fence_is_longer :
    lines_of (literal_fence code_text (codes "```"))
    ≡ codes "````" ∷ codes "a" ∷ codes "```" ∷ codes "b" ∷ codes "````" ∷ []
unfolding lines_of literal_fence
fence_is_longer = refl

first_block-literal_fence_example :
    first_block (literal_fence code_text (codes "```"))
    ≡ some (record {
      kind = Kind.fence;
      own = lines_of (literal_fence code_text (codes "```"));
      body = lines_of code_text;
      rest = [];
    })
first_block-literal_fence_example = first_block-literal_fence code_text (codes "```") backticks

split_literal_block-Fits_example :
    let parts = split_literal_block code_text (codes "```") 3 in
    (concat (map literal_body parts) ≡ code_text) × All (Fits literal_inline 3) parts
split_literal_block-Fits_example =
    split_literal_block-Fits literal_inline code_text (codes "```") 3 backticks (omega arith)

-- A heading, a paragraph and a rule.
abbrev note_text : Text
note_text = codes "# Title" ++ (newline ∷ (codes "a < b" ++ (newline ∷ codes "---")))

note_html :
    convert_markdown literal_inline note_text
    ≡ codes "Title" ++ (newline ∷ (codes "a &lt; b" ++ (newline ∷ codes "──────────")))
unfolding convert_markdown is_empty literal_inline
note_html = refl

note_parts : length (split_for_telegram literal_inline note_text (pos 8)) ≡ 5
unfolding split_for_telegram is_empty literal_inline
note_parts = refl

split_for_telegram-Allowed_example :
    All
      (Allowed literal_inline (effective_limit (pos 8)))
      (split_for_telegram literal_inline note_text (pos 8))
unfolding effective_limit
split_for_telegram-Allowed_example =
    split_for_telegram-Allowed literal_inline note_text (pos 8) (omega arith)

-- The marker alone is two units.
marker_len : convert_len literal_inline clip_marker ≡ 2
unfolding convert_len literal_inline is_empty
marker_len = refl

clipped_note :
    clip_convertible literal_inline (codes "one two three") (pos 8)
    ≡ codes "one tw" ++ (newline ∷ 0x2026 ∷ [])
unfolding clip_convertible literal_inline is_empty
clipped_note = refl

clip_convertible-Cut_example :
    let s = codes "one two three" in
    let n = effective_limit (pos 8) in
    ((convert_len literal_inline s ≤ n) × (clip_convertible literal_inline s (pos 8) ≡ s))
    ⊎ ((n < convert_len literal_inline s)
        × Cut literal_inline s n (clip_convertible literal_inline s (pos 8)))
unfolding effective_limit
clip_convertible-Cut_example =
    clip_convertible-Cut literal_inline (codes "one two three") (pos 8) (omega (arith, marker_len))

collect_block-Advances_example :
    Advances
      (collect_block (codes "  > a") (codes "> b" ∷ codes "c" ∷ []))
      (codes "  > a")
      (codes "> b" ∷ codes "c" ∷ [])
unfolding trim_left trim_space
collect_block-Advances_example =
    collect_block-Advances (codes "  > a") (codes "> b" ∷ codes "c" ∷ []) refl

convert_lines-odd_quote_example :
    let written = convert_lines literal_inline 3 (odd_quote 0x3000 (codes " a") ∷ []) in
    (length written ≡ 3) × All (λ p. p ≡ empty_quote) written
unfolding is_space is_table_start
convert_lines-odd_quote_example =
    convert_lines-odd_quote literal_inline 0x3000 (codes " a") [] 3 refl refl refl

-- A table that fits in the width of a phone.
table_shown :
    render_table (codes "| a | b |" ∷ codes "|---|--:|" ∷ codes "| **x** | 10 |" ∷ [])
    ≡ codes "<pre>a |  b" ++ (newline ∷ (codes "- | --" ++ (newline ∷ codes "x | 10</pre>")))
unfolding render_table
table_shown = refl

link_stripped :
    strip_inline_marks (codes "see [the *docs*](http://x 'y') and `z`")
    ≡ codes "see the *docs* and z"
unfolding strip_inline_marks
link_stripped = refl

-- A paragraph, a blank line and a fence that is never closed.
abbrev open_text : Text
open_text = codes "a" ++ (newline ∷ newline ∷ (codes "~~~" ++ (newline ∷ codes " b")))

open_blocks : length (markdown_blocks open_text) ≡ 2
unfolding markdown_blocks is_empty
open_blocks = refl

markdown_blocks-keeps_example :
    shown (lines_of_blocks (markdown_blocks open_text)) ≡ shown (lines_of open_text)
markdown_blocks-keeps_example = markdown_blocks-keeps open_text
