-- ===== src/Telegram/Syntax.antt =====
-- The regular expressions of internal/telegram/markdown.go, each as a recogniser of one line.
use omp_telegram.Common.{
  ℕ, zero, suc, Text, trim_left, trim_right, contains, length, drop, Bool, true, false, ◌&&◌, ◌||◌,
  not, leb, ◌==◌, if◌then◌else◌, Option, none, some, [], ◌∷◌,
}

-- \s
unfoldable pub is_blank : ℕ → Bool
is_blank c = c == 9 || c == 10 || c == 12 || c == 13 || c == 32

-- \d
abbrev pub is_digit : ℕ → Bool
is_digit c = leb b'0' c && leb c b'9'

unfoldable pub count_while : (ℕ → Bool) → Text → ℕ
count_while p [] = 0
count_while p (c ∷ s) = if p c then suc (count_while p s) else 0

unfoldable pub take_while : (ℕ → Bool) → Text → Text
take_while p [] = []
take_while p (c ∷ s) = if p c then c ∷ take_while p s else []

-- \s+(.+)$: the rest after blanks. If there are only blanks, the last of them is the rest.
unfoldable pub after_blanks : Text → Option Text
unfolding is_blank trim_left
after_blanks [] = none
after_blanks (c ∷ s) = if not (is_blank c) then none else elim (trim_left is_blank s) [
  | d ∷ t ↦ some (d ∷ t)
  | [] ↦ elim s [ [] ↦ none | d ∷ t ↦ some (drop (length t) (d ∷ t)) ]
]

-- headingRe, `^\s{0,3}(#{1,6})\s+(.+)$`: the second group
unfoldable pub heading_text : Text → Option Text
unfolding after_blanks count_while
heading_text line =
    let s = trim_left is_blank line in
    let marks = count_while (λ c. c == b'#') s in
    if leb (count_while is_blank line) 3 && leb 1 marks && leb marks 6
    then after_blanks (drop marks s)
    else none

unfoldable pub is_heading : Text → Bool
unfolding heading_text
is_heading line = elim (heading_text line) [ none ↦ false | some _ ↦ true ]

unfoldable pub all_chars : (ℕ → Bool) → Text → Bool
all_chars p [] = true
all_chars p (c ∷ s) = p c && all_chars p s

-- ruleRe, `^\s*(?:-{3,}|\*{3,}|_{3,})\s*$`
unfoldable pub is_rule : Text → Bool
unfolding all_chars trim_left trim_right is_blank
is_rule line =
    let s = trim_right is_blank (trim_left is_blank line) in
    leb 3 (length s)
    && (all_chars (λ c. c == b'-') s
        || all_chars (λ c. c == b'*') s
        || all_chars (λ c. c == b'_') s)

-- The groups of listItemRe.
pub record ListItem : Type 0 where
  pub indent : Text
  pub marker : Text
  pub content : Text

-- ([-*+]|\d{1,9}[.)]): the length of the marker, 0 if there is none
unfoldable pub marker_len : Text → ℕ
unfolding count_while
marker_len [] = 0
marker_len (c ∷ s) =
    let digits = count_while is_digit (c ∷ s) in
    if c == b'-' || c == b'*' || c == b'+'
    then 1
    else if leb 1 digits && leb digits 9
    then elim (drop digits (c ∷ s)) [
      | [] ↦ 0
      | d ∷ _ ↦ if d == b'.' || d == b')' then suc digits else 0
    ]
    else 0

abbrev pub take_text : ℕ → Text → Text
take_text zero s = []
take_text (suc n) [] = []
take_text (suc n) (c ∷ s) = c ∷ take_text n s

-- listItemRe, `^(\s*)([-*+]|\d{1,9}[.)])\s+(.*)$`
unfoldable pub list_item : Text → Option ListItem
unfolding marker_len take_while trim_left is_blank
list_item line =
    let s = trim_left is_blank line in
    let n = marker_len s in
    if n == 0 then none else elim (drop n s) [
      | [] ↦ none
      | c ∷ rest ↦
          if is_blank c
          then some (record {
            indent = take_while is_blank line;
            marker = take_text n s;
            content = trim_left is_blank rest;
          })
          else none
    ]

unfoldable pub is_list_item : Text → Bool
unfolding list_item
is_list_item line = elim (list_item line) [ none ↦ false | some _ ↦ true ]

-- tableDelim, `^\s*\|?[\s:|-]*-[\s:|-]*\|?\s*$`: only characters of the class, and a dash
unfoldable pub is_table_delim : Text → Bool
unfolding all_chars is_blank
is_table_delim line =
    all_chars (λ c. is_blank c || c == b':' || c == b'|' || c == b'-') line && contains b'-' line

-- strings.HasPrefix(trimmed, "```") || strings.HasPrefix(trimmed, "~~~")
unfoldable pub is_fence : Text → Bool
is_fence (a ∷ b ∷ c ∷ s) =
    (a == b'`' && b == b'`' && c == b'`') || (a == b'~' && b == b'~' && c == b'~')
is_fence _ = false

-- The run of the first character.
unfoldable pub fence_marker : Text → Text
unfolding take_while
fence_marker [] = []
fence_marker (c ∷ s) = take_while (λ d. d == c) (c ∷ s)
