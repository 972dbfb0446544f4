-- ===== src/Common/Texts.antt =====
-- Go's functions on strings, over texts as lists of code points.
use Prim.Native.Nat.{ℕ, zero, suc, ◌+◌, ◌/◌, ◌%◌}
use mathlib.Core.Bool.{Bool, true, false, ◌&&◌, ◌||◌}
use mathlib.Core.List.{List, [], ◌∷◌, ◌++◌}
use omp_telegram.Common.Tests.{ltb, leb, ◌==◌, if◌then◌else◌}
use omp_telegram.Common.Lists.{drop, length}
use omp_telegram.Common.Keys.{Text, ℤ, pos, negsuc}

-- utf16.RuneLen: the UTF-16 units of a code point.
abbrev pub width : ℕ → ℕ
width r = if ltb 0xffff r then 2 else 1

-- The UTF-16 length of a text.
abbrev pub units_of : Text → ℕ
units_of [] = 0
units_of (r ∷ s) = width r + units_of s

-- The decimal digits of n, before `rest`, on fuel that n + 1 suffices for.
unfoldable pub digits : ℕ → ℕ → Text → Text
digits zero n rest = rest
digits (suc fuel) n rest =
    let d = n % 10 + b'0' in
    let more = digits fuel (n / 10) (d ∷ rest) in if ltb n 10 then d ∷ rest else more

-- %d
unfoldable pub decimal : ℤ → Text
unfolding digits
decimal (pos n) = digits (suc n) n []
decimal (negsuc n) = b'-' ∷ digits (suc (suc n)) (suc n) []

-- unicode.IsSpace
unfoldable pub is_space : ℕ → Bool
is_space c =
    (leb 9 c && leb c 13)
    || c == 32
    || c == 0x85
    || c == 0xa0
    || c == 0x1680
    || (leb 0x2000 c && leb c 0x200a)
    || c == 0x2028
    || c == 0x2029
    || c == 0x202f
    || c == 0x205f
    || c == 0x3000

-- strings.TrimLeft, with the test of the characters to trim
unfoldable pub trim_left : (ℕ → Bool) → Text → Text
trim_left p [] = []
trim_left p (c ∷ s) = if p c then trim_left p s else c ∷ s

-- strings.TrimRight
unfoldable pub trim_right : (ℕ → Bool) → Text → Text
trim_right p [] = []
trim_right p (c ∷ s) =
    let rest = trim_right p s in elim rest [ [] ↦ if p c then [] else c ∷ [] | d ∷ t ↦ c ∷ d ∷ t ]

-- strings.TrimSpace
unfoldable pub trim_space : Text → Text
unfolding is_space trim_left trim_right
trim_space s = trim_right is_space (trim_left is_space s)

-- strings.HasPrefix(s, p)
unfoldable pub has_prefix : Text → Text → Bool
has_prefix [] s = true
has_prefix (c ∷ p) [] = false
has_prefix (c ∷ p) (d ∷ s) = c == d && has_prefix p s

-- strings.HasSuffix(s, c) for one character
unfoldable pub ends_with : ℕ → Text → Bool
ends_with c [] = false
ends_with c (d ∷ []) = d == c
ends_with c (d ∷ e ∷ s) = ends_with c (e ∷ s)

-- strings.TrimPrefix(s, p)
unfoldable pub trim_prefix : Text → Text → Text
unfolding has_prefix
trim_prefix p s = if has_prefix p s then drop (length p) s else s

-- strings.TrimSuffix for one character
unfoldable pub trim_last : ℕ → Text → Text
trim_last c [] = []
trim_last c (d ∷ []) = if d == c then [] else d ∷ []
trim_last c (d ∷ e ∷ s) = d ∷ trim_last c (e ∷ s)

-- strings.Split(s, sep) for one character
unfoldable pub split : ℕ → Text → List Text
split sep [] = [] ∷ []
split sep (c ∷ s) =
    let rest = split sep s in
    elim rest [ [] ↦ (c ∷ []) ∷ [] | l ∷ ls ↦ if c == sep then [] ∷ l ∷ ls else (c ∷ l) ∷ ls ]

-- strings.Join(parts, sep)
unfoldable pub join : Text → List Text → Text
join sep [] = []
join sep (l ∷ []) = l
join sep (l ∷ m ∷ ls) = l ++ (sep ++ join sep (m ∷ ls))

-- strings.Repeat for one character
unfoldable pub repeat : ℕ → ℕ → Text
repeat c zero = []
repeat c (suc n) = c ∷ repeat c n

abbrev pub newline : ℕ
newline = 10

-- strings.Split(s, "\n")
unfoldable pub lines_of : Text → List Text
unfolding split
lines_of = split newline

-- strings.Join(lines, "\n")
unfoldable pub unlines : List Text → Text
unfolding join
unlines = join (newline ∷ [])
