-- ===== src/Telegram/Fences.antt =====
-- A literal fence of internal/telegram/markdown.go cannot close early: collecting the block gives back
-- the text.
use omp_telegram.Common.{
  ℕ, zero, suc, ◌+◌, ◌-◌, ◌≤◌, Text, text_eq, text_eq_iff, is_empty, is_space, contains, trim_space,
  repeat, lines_of, newline, length, Bool, true, false, leb, ◌==◌, if◌then◌else◌, Bool-cases, All,
  List, [], ◌∷◌, ◌++◌, ◌≡◌, refl, ap, ◌∙◌, Option, none, some, inl, inr, arith,
}
use omp_telegram.Telegram.Syntax.{is_fence, fence_marker, take_while, all_chars}
use omp_telegram.Telegram.Tables.{max}
use omp_telegram.Telegram.Blocks.{Block, Kind, collect_fence, collect_block, fenced}
use omp_telegram.Telegram.Literal.{is_run, longest_run, safe_marker, literal_fence}
use omp_telegram.Telegram.Lines.{
  lines_of-break, lines_of-head, contains-repeat, trim_space-repeat, length-repeat,
}

-- The characters that open a fence.
abbrev pub is_fence_char : ℕ → Bool
is_fence_char c = if c == b'`' then true else c == b'~'

not_space : (c : ℕ) → is_fence_char c ≡ true → is_space c ≡ false
unfolding is_space
not_space c h = ground arith

not_newline : (c : ℕ) → is_fence_char c ≡ true → (c == newline) ≡ false
not_newline c h = ground arith

all_chars-repeat : (c n : ℕ) → all_chars (λ d. d == c) (repeat c n) ≡ true
unfolding all_chars repeat
all_chars-repeat c zero = refl
all_chars-repeat c (suc n) = ground (arith, all_chars-repeat c n)

is_run-repeat : (c n k : ℕ) → n ≤ k → is_run c n (repeat c k) ≡ true
unfolding is_run
is_run-repeat c n k h = ground (arith, length-repeat c k, all_chars-repeat c k)

longest_run-grows : (c n longest : ℕ) (lines : List Text) → longest ≤ longest_run c n longest lines
unfolding longest_run
longest_run-grows c n longest [] = omega arith
longest_run-grows c n longest (l ∷ lines) =
    let next = if is_run c n (trim_space l) then max longest (length (trim_space l)) else longest in
    let ih = longest_run-grows c n next lines in ground (arith, ih)

-- The longest run so far, with one more line.
abbrev pub run_with : ℕ → ℕ → ℕ → Text → ℕ
run_with c n longest line = if is_run c n line then max longest (length line) else longest

not_the_run :
    (c n k longest : ℕ) (line : Text)
    → n ≤ k
    → suc (run_with c n longest line) ≤ k
    → text_eq line (repeat c k) ≡ false
not_the_run c n k longest line nk h = elim (Bool-cases (text_eq line (repeat c k))) [
  | inr e ↦ e
  | inl e ↦
      let same : line ≡ repeat c k = (text_eq_iff line (repeat c k)).0 e in
      let run : is_run c n line ≡ true = rw same (is_run-repeat c n k nk) in
      let len : length line ≡ k = rw same (length-repeat c k) in ground (arith, run, len)
]

-- No line is a run of `c` longer than the longest one.
no_longer :
    (c n k longest : ℕ) (lines : List Text)
    → n ≤ k
    → suc (longest_run c n longest lines) ≤ k
    → All (λ l. text_eq (trim_space l) (repeat c k) ≡ false) lines
unfolding longest_run
no_longer c n k longest [] nk h = tt
no_longer c n k longest (l ∷ lines) nk h =
    let next = run_with c n longest (trim_space l) in
    (
      not_the_run c n k longest (trim_space l) nk
          (omega (arith, longest_run-grows c n next lines, h)),
      no_longer c n k next lines nk h,
    )

-- A marker: a run of a fence character, three at least.
pub record Marker (m : Text) : Type 0 where
  pub char : ℕ
  pub size : ℕ
  pub is_char : is_fence_char char ≡ true
  pub at_least : 3 ≤ size
  pub is_repeat : m ≡ repeat char size

safe_marker-repeat :
    (c n : ℕ) (lines : List Text)
    → (k : ℕ) × (suc n ≤ k)
      × (safe_marker lines (repeat c (suc n)) ≡ repeat c k)
      × (suc (longest_run c (suc n) n lines) ≤ k)
unfolding safe_marker repeat
safe_marker-repeat c n lines =
    let longest = longest_run c (suc n) n lines in
    let minus : suc n - 1 ≡ n = omega arith in
    let plus : longest + 1 ≡ suc longest = omega arith in
    elim (Bool-cases (leb (suc n) longest)) [
      | inl e ↦
          (suc longest, ground arith, rw (length-repeat c n, minus, e, plus) refl, omega arith)
      | inr e ↦ (suc n, omega arith, rw (length-repeat c n, minus, e) refl, ground arith)
    ]

-- The marker chosen for a text is longer than any line of it that could close the fence.
pub record Safe (lines : List Text) (m : Text) : Type 0 where
  pub marker : Marker m
  pub open_until_end : All (λ l. text_eq (trim_space l) m ≡ false) lines

pub safe_marker-Safe : (lines : List Text) (m : Text) → Marker m → Safe lines (safe_marker lines m)
safe_marker-Safe lines m mk =
    let c = mk.char in
    let n = mk.size - 1 in
    let h = safe_marker-repeat c n lines in
    let at_least = mk.at_least in
    let size : mk.size ≡ suc n = omega (arith, at_least) in
    let chosen : safe_marker lines m ≡ repeat c h.0 =
      ap (λ (t : Text). safe_marker lines t) (mk.is_repeat ∙ ap (repeat c) size) ∙ h.2 in
    let longer = h.1 in
    rw chosen (record {
      marker = record {
        char = c;
        size = h.0;
        is_char = mk.is_char;
        at_least = omega (arith, at_least, longer, size);
        is_repeat = refl;
      };
      open_until_end = no_longer c (suc n) (h.0) n lines h.1 h.3;
    })

pub trim_space-Marker : (m : Text) → Marker m → trim_space m ≡ m
trim_space-Marker m mk =
    rw mk.is_repeat (trim_space-repeat mk.char mk.size (not_space mk.char mk.is_char))

pub collect_fence-Safe :
    (lines : List Text) (m : Text)
    → Marker m
    → All (λ l. text_eq (trim_space l) m ≡ false) lines
    → collect_fence m (lines ++ (m ∷ []))
      ≡ record { taken = lines ++ (m ∷ []); kept = lines; left = [] }
unfolding collect_fence
collect_fence-Safe [] m mk h = rw (trim_space-Marker m mk, (text_eq_iff m m).1 refl) refl
collect_fence-Safe (l ∷ lines) m mk h = rw (collect_fence-Safe lines m mk h.1, h.0) refl

take_while-repeat : (c n : ℕ) → take_while (λ d. d == c) (repeat c n) ≡ repeat c n
unfolding take_while repeat
take_while-repeat c zero = refl
take_while-repeat c (suc n) = ground (arith, take_while-repeat c n)

-- A run of three fence characters or more opens a fence with itself as the marker.
opens :
    (c n : ℕ)
    → is_fence_char c ≡ true
    → 3 ≤ n
    → (is_empty (repeat c n) ≡ false)
      × (is_fence (repeat c n) ≡ true)
      × (fence_marker (repeat c n) ≡ repeat c n)
unfolding is_empty is_fence repeat fence_marker
opens c (suc (suc (suc n))) h k = (refl, ground arith, take_while-repeat c (suc (suc (suc n))))
opens c zero h k = ground arith
opens c (suc zero) h k = ground arith
opens c (suc (suc zero)) h k = ground arith

pub collect_block-Marker :
    (m : Text) (lines : List Text)
    → Marker m
    → collect_block m lines ≡ fenced m (collect_fence m lines)
unfolding collect_block
collect_block-Marker m lines mk =
    let o = opens mk.char mk.size mk.is_char mk.at_least in
    let same = mk.is_repeat in
    let not_empty : is_empty m ≡ false = rw same o.0 in
    let is_open : is_fence m ≡ true = rw same o.1 in
    let marker : fence_marker m ≡ m = rw same o.2 in
    rw (trim_space-Marker m mk, not_empty, is_open, marker) refl

pub contains-Marker : (m : Text) → Marker m → contains newline m ≡ false
contains-Marker m mk =
    rw mk.is_repeat (contains-repeat mk.char mk.size newline (not_newline mk.char mk.is_char))

-- The lines of a literal fence.
pub lines_of-literal_fence :
    (text marker : Text)
    → Marker marker
    → let m = safe_marker (lines_of text) marker in
      lines_of (literal_fence text marker) ≡ m ∷ (lines_of text ++ (m ∷ []))
unfolding literal_fence
lines_of-literal_fence text marker mk =
    let m = safe_marker (lines_of text) marker in
    let safe = (safe_marker-Safe (lines_of text) marker mk).marker in
    lines_of-head m (text ++ (newline ∷ m)) (contains-Marker m safe)
    ∙ ap (λ (ls : List Text). m ∷ ls) (lines_of-break text m (contains-Marker m safe))

-- The block at the head of a text.
unfoldable pub first_block : Text → Option Block
unfolding lines_of
first_block s = elim (lines_of s) [ [] ↦ none | l ∷ lines ↦ some (collect_block l lines) ]

first_block-lines :
    (s l : Text) (ls : List Text) → lines_of s ≡ l ∷ ls → first_block s ≡ some (collect_block l ls)
unfolding first_block
first_block-lines s l ls e = rw (e, first_block) refl

-- Text in a literal fence, whatever it holds, is read back as one fence block that ends with the text
-- and has exactly its lines for a body, if the marker is a run of at least three backticks or tildes.
pub first_block-literal_fence :
    (text marker : Text)
    → Marker marker
    → first_block (literal_fence text marker)
      ≡ some (record {
        kind = Kind.fence;
        own = lines_of (literal_fence text marker);
        body = lines_of text;
        rest = [];
      })
unfolding first_block
first_block-literal_fence text marker mk =
    let m = safe_marker (lines_of text) marker in
    let safe = safe_marker-Safe (lines_of text) marker mk in
    let e = lines_of-literal_fence text marker mk in
    let cut = collect_fence-Safe (lines_of text) m safe.marker safe.open_until_end in
    let block : collect_block m (lines_of text ++ (m ∷ []))
        ≡ fenced m (record { taken = lines_of text ++ (m ∷ []); kept = lines_of text; left = [] }) =
      collect_block-Marker m (lines_of text ++ (m ∷ [])) safe.marker ∙ ap (fenced m) cut in
    first_block-lines (literal_fence text marker) m (lines_of text ++ (m ∷ [])) e
    ∙ rw (block, e) refl
