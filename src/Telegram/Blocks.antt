-- ===== src/Telegram/Blocks.antt =====
-- The blocks of Markdown in internal/telegram/markdown.go. A position in the lines is the list of the
-- lines from there on.
use omp_telegram.Common.{
  ℕ, Text, codes, text_eq, is_empty, trim_space, trim_left, trim_prefix, has_prefix, contains, Bool,
  false, ◌&&◌, ◌||◌, not, ◌==◌, if◌then◌else◌, List, [], ◌∷◌,
}
use omp_telegram.Telegram.Syntax.{
  is_heading, is_rule, is_list_item, is_table_delim, is_fence, fence_marker,
}

pub data Kind : Type 0 where
  blank fence table heading quote rule list paragraph : Kind

-- `own` are the lines of the block, `body` what its collector keeps of them, `rest` the lines after it.
pub record Block : Type 0 where
  pub kind : Kind
  pub own : List Text
  pub body : List Text
  pub rest : List Text

-- The lines that a collector takes, and those it leaves.
pub record Cut : Type 0 where
  pub taken : List Text
  pub kept : List Text
  pub left : List Text

-- collectFence, from the line after the opening fence. The closing fence is taken, not kept.
unfoldable pub collect_fence : Text → List Text → Cut
unfolding trim_space text_eq
collect_fence marker [] = record { taken = []; kept = []; left = [] }
collect_fence marker (l ∷ lines) =
    let c = collect_fence marker lines in
    if text_eq (trim_space l) marker
    then record { taken = l ∷ []; kept = []; left = lines }
    else record { taken = l ∷ c.taken; kept = l ∷ c.kept; left = c.left }

unfoldable pub is_table_start : List Text → Bool
unfolding is_table_delim trim_space
is_table_start (l ∷ m ∷ lines) =
    is_table_delim m && contains b'|' (trim_space l) && contains b'|' (trim_space m)
is_table_start _ = false

unfoldable pub collect_table : List Text → Cut
unfolding trim_space
collect_table [] = record { taken = []; kept = []; left = [] }
collect_table (l ∷ lines) =
    let c = collect_table lines in
    if contains b'|' l && not (is_empty (trim_space l))
    then record { taken = l ∷ c.taken; kept = trim_space l ∷ c.kept; left = c.left }
    else record { taken = []; kept = []; left = l ∷ lines }

-- " \t"
abbrev pub is_indent : ℕ → Bool
is_indent c = c == b' ' || c == 9

unfoldable pub collect_quote : List Text → Cut
unfolding trim_left trim_prefix has_prefix
collect_quote [] = record { taken = []; kept = []; left = [] }
collect_quote (l ∷ lines) =
    let c = collect_quote lines in
    let trimmed = trim_left is_indent l in
    if has_prefix (codes ">") trimmed
    then record {
      taken = l ∷ c.taken;
      kept = trim_left is_indent (trim_prefix (codes ">") trimmed) ∷ c.kept;
      left = c.left;
    }
    else record { taken = []; kept = []; left = l ∷ lines }

-- A line that goes on with a list: an item, or an indented line, and not blank.
unfoldable pub continues_list : Text → Bool
unfolding is_list_item trim_space has_prefix
continues_list l =
    not (is_empty (trim_space l))
    && (is_list_item l || has_prefix (codes " ") l || has_prefix (9 ∷ []) l)

unfoldable pub collect_list : List Text → Cut
unfolding continues_list
collect_list [] = record { taken = []; kept = []; left = [] }
collect_list (l ∷ lines) =
    let c = collect_list lines in
    if continues_list l
    then record { taken = l ∷ c.taken; kept = l ∷ c.kept; left = c.left }
    else record { taken = []; kept = []; left = l ∷ lines }

-- Whether another block than a paragraph starts here.
unfoldable pub paragraph_boundary : List Text → Bool
unfolding is_fence is_table_start is_heading is_rule is_list_item trim_space has_prefix
paragraph_boundary [] = false
paragraph_boundary (l ∷ lines) =
    is_empty (trim_space l)
    || is_fence (trim_space l)
    || is_table_start (l ∷ lines)
    || is_heading l
    || has_prefix (codes ">") (trim_space l)
    || is_rule l
    || is_list_item l

-- paragraphEnd, from the line after the first
unfoldable pub collect_paragraph : List Text → Cut
unfolding paragraph_boundary
collect_paragraph [] = record { taken = []; kept = []; left = [] }
collect_paragraph (l ∷ lines) =
    let c = collect_paragraph lines in
    if paragraph_boundary (l ∷ lines)
    then record { taken = []; kept = []; left = l ∷ lines }
    else record { taken = l ∷ c.taken; kept = l ∷ c.kept; left = c.left }

-- A block of one line.
abbrev pub one_line : Kind → Text → List Text → Block
one_line kind l lines = record { kind = kind; own = l ∷ []; body = []; rest = lines }

-- A block of the first line and what a collector takes after it.
abbrev pub and_more : Kind → Text → Cut → Block
and_more kind l c = record { kind = kind; own = l ∷ c.taken; body = []; rest = c.left }

-- A block of what a collector takes from the first line on.
abbrev pub whole : Kind → Cut → Block
whole kind c = record { kind = kind; own = c.taken; body = c.kept; rest = c.left }

abbrev pub fenced : Text → Cut → Block
fenced l c = record { kind = Kind.fence; own = l ∷ c.taken; body = c.kept; rest = c.left }

-- collectMarkdownBlock at the line `l`, which `lines` follow.
unfoldable pub collect_block : Text → List Text → Block
unfolding is_fence is_table_start is_heading is_rule is_list_item trim_space has_prefix
    collect_fence collect_table collect_quote collect_list collect_paragraph fence_marker
collect_block l lines =
    if is_empty (trim_space l)
    then one_line Kind.blank l lines
    else if is_fence (trim_space l)
    then fenced l (collect_fence (fence_marker (trim_space l)) lines)
    else if is_table_start (l ∷ lines)
    then whole Kind.table (collect_table (l ∷ lines))
    else if is_heading l
    then one_line Kind.heading l lines
    else if has_prefix (codes ">") (trim_space l)
    then whole Kind.quote (collect_quote (l ∷ lines))
    else if is_rule l
    then one_line Kind.rule l lines
    else if is_list_item l
    then and_more Kind.list l (collect_list lines)
    else and_more Kind.paragraph l (collect_paragraph lines)
