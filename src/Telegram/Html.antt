-- ===== src/Telegram/Html.antt =====
-- HTML for the Bot API in internal/telegram/markdown.go: escaping, and the length that Telegram counts.
use omp_telegram.Common.{
  ℕ, suc, ◌+◌, Text, codes, width, has_prefix, contains, ◌||◌, ◌==◌, if◌then◌else◌, [], ◌∷◌, ◌++◌,
}

-- What the replacer writes for a character.
unfoldable pub escape_char : ℕ → Text
escape_char c =
    if c == b'&'
    then codes "&amp;"
    else if c == b'<'
    then codes "&lt;"
    else if c == b'>'
    then codes "&gt;"
    else c ∷ []

unfoldable pub escape_html : Text → Text
unfolding escape_char
escape_html [] = []
escape_html (c ∷ s) = escape_char c ++ escape_html s

-- The scanner of renderedUTF16Len: in the text, in a tag up to its `>`, or behind the `&` of an escape
-- with some characters to skip.
pub data Scan : Type 0 where
  in_text in_tag : Scan
  in_escape : ℕ → Scan

-- How many characters the escape has after its `&`.
unfoldable pub escape_rest : Text → ℕ
unfolding has_prefix
escape_rest s =
    if has_prefix (codes "amp;") s
    then 4
    else if has_prefix (codes "lt;") s || has_prefix (codes "gt;") s
    then 3
    else if has_prefix (codes "quot;") s
    then 5
    else 0

-- The index jumps of the source are states here. A `<` with no `>` after it counts as text.
unfoldable pub scan_html : Scan → Text → ℕ
unfolding escape_rest
scan_html mode [] = 0
scan_html (in_escape (suc n)) (c ∷ s) = scan_html (in_escape n) s
scan_html in_tag (c ∷ s) =
    let text = scan_html in_text s in
    let tag = scan_html in_tag s in if c == b'>' then text else tag
scan_html mode (c ∷ s) =
    let text = scan_html in_text s in
    let tag = scan_html in_tag s in
    let escape = scan_html (in_escape (escape_rest s)) s in
    if c == b'<'
    then (if contains b'>' s then tag else suc text)
    else if c == b'&'
    then suc escape
    else width c + text

unfoldable pub rendered_len : Text → ℕ
unfolding scan_html
rendered_len = scan_html in_text
