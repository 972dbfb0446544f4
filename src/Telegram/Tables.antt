-- ===== src/Telegram/Tables.antt =====
-- Tables of internal/telegram/markdown.go: their cells, and the two ways to show them.
use omp_telegram.Common.{
  ℕ, zero, suc, ◌+◌, ◌-◌, Text, codes, pos, decimal, is_empty, trim_space, trim_right, trim_prefix,
  trim_last, has_prefix, ends_with, split, join, repeat, unlines, length, drop, Bool, true, false,
  ◌&&◌, ◌||◌, ltb, ◌==◌, if◌then◌else◌, Option, none, some, List, [], ◌∷◌, ◌++◌, map,
}
use Prim.Native.Nat.{◌/◌, ◌*◌}
use omp_telegram.Telegram.Syntax.{is_blank, take_while}
use omp_telegram.Telegram.Html.{escape_html}

-- linkRe's `((?:\\.|[^\]\\])*)\]`: the label and what follows the bracket that closes it
pub record Label : Type 0 where
  pub label : Text
  pub after : Text

unfoldable pub link_label : Text → Option Label
link_label [] = none
link_label (c ∷ []) = if c == b']' then some (record { label = []; after = [] }) else none
link_label (c ∷ d ∷ s) =
    let escaped = link_label s in
    let plain = link_label (d ∷ s) in
    if c == b'\\'
    then elim escaped [
      | none ↦ none
      | some r ↦ some (record { label = c ∷ d ∷ r.label; after = r.after })
    ]
    else if c == b']'
    then some (record { label = []; after = d ∷ s })
    else elim plain [
      | none ↦ none
      | some r ↦ some (record { label = c ∷ r.label; after = r.after })
    ]

-- The characters before the first one that is `q`, and those after it.
unfoldable pub until_quote : ℕ → Text → Option Text
until_quote q [] = none
until_quote q (c ∷ s) = if c == q then some s else until_quote q s

abbrev pub skip_blanks : Text → Text
skip_blanks [] = []
skip_blanks (c ∷ s) = if is_blank c then skip_blanks s else c ∷ s

-- `\)`
unfoldable pub close_link : Text → Option Text
close_link [] = none
close_link (c ∷ s) = if c == b')' then some s else none

-- `(?:\s+("[^"]*"|'[^']*'))?\s*\)`, from after the target
unfoldable pub link_end : Text → Option Text
unfolding close_link until_quote is_blank
link_end [] = none
link_end (c ∷ s) = elim (skip_blanks (c ∷ s)) [
  | [] ↦ none
  | q ∷ t ↦
      if is_blank c && (q == b'"' || q == 39)
      then elim (until_quote q t) [ none ↦ none | some u ↦ close_link (skip_blanks u) ]
      else close_link (q ∷ t)
]

-- `[^\s)]+`
abbrev pub is_target : ℕ → Bool
is_target c = if is_blank c || c == b')' then false else true

-- linkRe at the head of a text: the label and the text after the link.
unfoldable pub link_at_bracket : Text → Option Label
unfolding link_label link_end take_while is_blank
link_at_bracket [] = none
link_at_bracket (c ∷ s) =
    if c == b'['
    then elim (link_label s) [
      | none ↦ none
      | some r ↦ elim (r.after) [
        | [] ↦ none
        | d ∷ t ↦
            let target = take_while is_target (skip_blanks t) in
            if d == b'(' && ltb 0 (length target)
            then elim (link_end (drop (length target) (skip_blanks t))) [
              | none ↦ none
              | some u ↦ some (record { label = r.label; after = u })
            ]
            else none
      ]
    ]
    else none

unfoldable pub link_at : Text → Option Label
unfolding link_at_bracket
link_at [] = none
link_at (c ∷ s) = if c == b'!' then link_at_bracket s else link_at_bracket (c ∷ s)

-- linkRe.ReplaceAllStringFunc with the label; the first argument counts the characters of a link that are
-- still to skip.
unfoldable pub strip_links : ℕ → Text → Text
unfolding link_at
strip_links n [] = []
strip_links (suc n) (c ∷ s) = strip_links n s
strip_links zero (c ∷ s) = elim (link_at (c ∷ s)) [
  | none ↦ c ∷ strip_links zero s
  | some r ↦ r.label ++ strip_links (length s - length r.after) s
]

-- The replacer of `**`, `__`, `~~` and `` ` ``.
unfoldable pub strip_marks : Text → Text
strip_marks [] = []
strip_marks (c ∷ []) = if c == b'`' then [] else c ∷ []
strip_marks (c ∷ d ∷ s) =
    let pair = strip_marks s in
    let single = strip_marks (d ∷ s) in
    if c == d && (c == b'*' || c == b'_' || c == b'~')
    then pair
    else if c == b'`'
    then single
    else c ∷ single

unfoldable pub strip_inline_marks : Text → Text
unfolding strip_links strip_marks
strip_inline_marks s = strip_marks (strip_links 0 s)

unfoldable pub table_cells : Text → List Text
unfolding trim_space trim_prefix trim_last split strip_inline_marks
table_cells row =
    map (λ p. trim_space (strip_inline_marks p))
      (split b'|' (trim_last b'|' (trim_prefix (codes "|") (trim_space row))))

-- "", "left", "right" and "center"
pub data Align : Type 0 where
  plain left right center : Align

unfoldable pub column_align : Text → Align
unfolding has_prefix ends_with
column_align d =
    if has_prefix (codes ":") d && ends_with b':' d
    then Align.center
    else if ends_with b':' d
    then Align.right
    else if has_prefix (codes ":") d
    then Align.left
    else Align.plain

-- columnAligns
unfoldable pub column_aligns : List Text → List Align
unfolding column_align
column_aligns = map column_align

-- xs[c], if c is in range
unfoldable pub cell_at {ℓ} : {A : Type ℓ} → List A → ℕ → Option A
cell_at [] c = none
cell_at (x ∷ xs) zero = some x
cell_at (x ∷ xs) (suc c) = cell_at xs c

abbrev pub text_or_empty : Option Text → Text
text_or_empty none = []
text_or_empty (some s) = s

abbrev pub max : ℕ → ℕ → ℕ
max a b = if ltb a b then b else a

-- len of the longest row
unfoldable pub column_count : List (List Text) → ℕ
column_count [] = 0
column_count (r ∷ rows) = max (length r) (column_count rows)

-- widths[c]
unfoldable pub column_width : List (List Text) → ℕ → ℕ
unfolding cell_at
column_width [] c = 0
column_width (r ∷ rows) c = max (length (text_or_empty (cell_at r c))) (column_width rows c)

-- c, c + 1, ... as many as the first number says
abbrev pub columns_from : ℕ → ℕ → List ℕ
columns_from zero c = []
columns_from (suc n) c = c ∷ columns_from n (suc c)

abbrev pub sum : List ℕ → ℕ
sum [] = 0
sum (n ∷ ns) = n + sum ns

abbrev pub max_table_width : ℕ
max_table_width = 48

unfoldable pub pad : Text → ℕ → Option Align → Text
unfolding repeat
pad cell width align =
    let missing = width - length cell in
    elim align [
      | some Align.right ↦ repeat b' ' missing ++ cell
      | some Align.center ↦
          repeat b' ' (missing / 2) ++ (cell ++ repeat b' ' (missing - missing / 2))
      | _ ↦ cell ++ repeat b' ' missing
    ]

unfoldable pub pad_cell : List (List Text) → List Align → List Text → ℕ → Text
unfolding pad cell_at column_width repeat
pad_cell rows aligns r c = elim (cell_at r c) [
  | some cell ↦ pad cell (column_width rows c) (cell_at aligns c)
  | none ↦ repeat b' ' (column_width rows c)
]

abbrev pub separator : Text
separator = codes " | "

-- format
unfoldable pub format_row : List (List Text) → List Align → ℕ → List Text → Text
unfolding pad_cell trim_right join
format_row rows aligns columns r =
    trim_right (λ c. c == b' ')
      (join separator (map (pad_cell rows aligns r) (columns_from columns 0)))

abbrev pub pre_block : Text → Text
pre_block s = codes "<pre>" ++ (escape_html s ++ codes "</pre>")

-- A column's label: its header, or its number.
unfoldable pub column_label : List Text → ℕ → Text
unfolding cell_at decimal
column_label header c =
    let label = text_or_empty (cell_at header c) in
    if is_empty label then codes "col" ++ decimal (pos (suc c)) else label

-- " · "
abbrev pub cell_gap : Text
cell_gap = b' ' ∷ 0xb7 ∷ b' ' ∷ []

unfoldable pub compact_cell : List Text → List Text → ℕ → Text
unfolding column_label cell_at escape_html
compact_cell header row c =
    escape_html (column_label header c)
    ++ (codes ": " ++ escape_html (text_or_empty (cell_at row c)))

-- compactTable, of the rows after the header
unfoldable pub compact_table : List (List Text) → List Text → ℕ → Text
unfolding compact_cell unlines join
compact_table rows header columns =
    unlines
      (map (λ row. join cell_gap (map (compact_cell header row) (columns_from columns 0))) rows)

-- The aligned block.
unfoldable pub aligned_table : List Text → List Align → List (List Text) → ℕ → Text
unfolding format_row column_width repeat join unlines escape_html
aligned_table header aligns body columns =
    let rows = header ∷ body in
    let rule =
      join separator (map (λ c. repeat b'-' (column_width rows c)) (columns_from columns 0)) in
    pre_block (
      unlines
        (format_row rows aligns columns header ∷ rule ∷ map (format_row rows aligns columns) body))

unfoldable pub render_rows : List Text → List Align → List (List Text) → Text
unfolding aligned_table compact_table column_count column_width
render_rows header aligns body =
    let rows = header ∷ body in
    let columns = column_count rows in
    let total = sum (map (column_width rows) (columns_from columns 0)) in
    if columns == 0
    then []
    else if ltb max_table_width (total + 3 * (columns - 1))
    then compact_table body header columns
    else aligned_table header aligns body columns

unfoldable pub render_table : List Text → Text
unfolding render_rows table_cells column_aligns unlines escape_html
render_table (h ∷ d ∷ lines) =
    render_rows (table_cells h) (column_aligns (table_cells d)) (map table_cells lines)
render_table lines = pre_block (unlines lines)

-- A row of literalTableText.
unfoldable pub literal_row : List Text → ℕ → List Text → Text
unfolding column_label cell_at join
literal_row header columns row = join cell_gap (
    map (λ c. column_label header c ++ (codes ": " ++ text_or_empty (cell_at row c)))
      (columns_from columns 0))

unfoldable pub literal_table_text : List Text → Text
unfolding table_cells column_count column_label literal_row join unlines
literal_table_text [] = []
literal_table_text (h ∷ lines) =
    let header = table_cells h in
    let rows = map table_cells (drop 1 lines) in
    let columns = max (length header) (column_count rows) in
    elim rows [
      | [] ↦ join cell_gap (map (column_label header) (columns_from columns 0))
      | r ∷ rest ↦ unlines (map (literal_row header columns) (r ∷ rest))
    ]
