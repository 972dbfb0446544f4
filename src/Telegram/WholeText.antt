-- ===== src/Telegram/WholeText.antt =====
-- markdownBlocks of internal/telegram/markdown.go loses no line.
use mathlib.Core.List.{append-nil, append_assoc}
use omp_telegram.Common.{
  ℕ, zero, suc, ◌≤◌, Text, text_eq, is_empty, trim_space, contains, lines_of, unlines, newline,
  length, length-append, true, false, ◌&&◌, not, Bool-cases, All, All-append, List, [], ◌∷◌, ◌++◌,
  ◌≡◌, refl, sym, ap, ◌∙◌, inl, inr, arith,
}
use omp_telegram.Telegram.Syntax.{is_fence, fence_marker}
use omp_telegram.Telegram.Blocks.{Cut, collect_fence, collect_table, is_table_start}
use omp_telegram.Telegram.Split.{closing_line, flush_lines, blocks_from, markdown_blocks}
use omp_telegram.Telegram.Advance.{
  if-elim, contains-not_empty, contains-trim_space, collect_fence-Covers, collect_table-Covers,
}
use omp_telegram.Telegram.Shown.{
  OneLine, lines_of-unlines, lines_of-OneLine, shown-append, lines_of_blocks-append,
  trim_space-twice, shown, lines_of_blocks,
}

flush_lines-keeps : (cur : List Text) → All OneLine cur → lines_of_blocks (flush_lines cur) ≡ cur
unfolding flush_lines lines_of_blocks
flush_lines-keeps [] h = refl
flush_lines-keeps (l ∷ cur) h = append-nil _ ∙ lines_of-unlines l cur h

closing_line-cons :
    (marker l : Text) (lines : List Text)
    → text_eq (trim_space l) marker ≡ false
    → closing_line marker (l ∷ lines) ≡ closing_line marker lines
unfolding closing_line
closing_line-cons marker l [] e = rw e refl
closing_line-cons marker l (m ∷ lines) e = refl

closing_line-fence :
    (marker : Text) (lines : List Text)
    → let c = collect_fence marker lines in c.kept ++ closing_line marker c.taken ≡ c.taken
unfolding collect_fence closing_line
closing_line-fence marker [] = refl
closing_line-fence marker (l ∷ lines) = elim (Bool-cases (text_eq (trim_space l) marker)) [
  | inl e ↦ rw e (rw (e, closing_line) refl)
  | inr e ↦ rw e (
      rw (closing_line-cons marker l (collect_fence marker lines).taken e)
        (ap (λ (t : List Text). l ∷ t) (closing_line-fence marker lines)))
]

shown-trim :
    (l : Text) (xs ys : List Text)
    → shown xs ≡ shown ys
    → shown (trim_space l ∷ xs) ≡ shown (l ∷ ys)
unfolding shown
shown-trim l xs ys h = rw (trim_space-twice l, h) refl

shown-cons : (l : Text) (xs ys : List Text) → shown xs ≡ shown ys → shown (l ∷ xs) ≡ shown (l ∷ ys)
unfolding shown
shown-cons l xs ys h = rw h refl

shown-collect_table :
    (lines : List Text) → shown (collect_table lines).kept ≡ shown (collect_table lines).taken
unfolding collect_table
shown-collect_table [] = refl
shown-collect_table (l ∷ lines) =
    elim (Bool-cases (contains b'|' l && not (is_empty (trim_space l)))) [
      | inl e ↦ rw e (shown-trim l _ _ (shown-collect_table lines))
      | inr e ↦ rw e refl
    ]

trim_space-OneLine : (l : Text) → OneLine l → OneLine (trim_space l)
trim_space-OneLine l h = elim (Bool-cases (contains newline (trim_space l))) [
  | inl e ↦ let k = contains-trim_space newline l e in ground (arith, k, h)
  | inr e ↦ e
]

collect_table-OneLine :
    (lines : List Text) → All OneLine lines → All OneLine (collect_table lines).kept
unfolding collect_table
collect_table-OneLine [] h = tt
collect_table-OneLine (l ∷ lines) h =
    elim (Bool-cases (contains b'|' l && not (is_empty (trim_space l)))) [
      | inl e ↦ rw e (trim_space-OneLine l h.0, collect_table-OneLine lines h.1)
      | inr e ↦ rw e tt
    ]

All-parts : (P : Text → Type 0) (xs ys : List Text) → All P (xs ++ ys) → All P xs × All P ys
All-parts P [] ys h = (tt, h)
All-parts P (x ∷ xs) ys h = let rest = All-parts P xs ys h.1 in ((h.0, rest.0), rest.1)

-- The lines gathered go out, then a block of the lines `own`, which stand for `taken`.
block_out :
    (cur own taken left blocks : List Text) (block : Text)
    → All OneLine cur
    → lines_of block ≡ own
    → shown own ≡ shown taken
    → shown (lines_of_blocks blocks) ≡ shown left
    → shown (lines_of_blocks (flush_lines cur ++ (block ∷ blocks))) ≡ shown (cur ++ (taken ++ left))
unfolding lines_of_blocks
block_out cur own taken left blocks block one lines same rest =
    ap shown (lines_of_blocks-append (flush_lines cur) (block ∷ blocks))
    ∙ (rw (flush_lines-keeps cur one, lines)
        (shown-append cur (own ++ lines_of_blocks blocks)
          ∙ (rw (shown-append own (lines_of_blocks blocks), same, rest)
              (rw (shown-append cur (taken ++ left), shown-append taken left) refl))))

blank_out :
    (cur lines blocks : List Text) (l : Text)
    → All OneLine cur
    → is_empty (trim_space l) ≡ true
    → shown (lines_of_blocks blocks) ≡ shown lines
    → shown (lines_of_blocks (flush_lines cur ++ blocks)) ≡ shown (cur ++ (l ∷ lines))
unfolding shown
blank_out cur lines blocks l one blank rest =
    ap shown (lines_of_blocks-append (flush_lines cur) blocks)
    ∙ (rw (flush_lines-keeps cur one) (
        shown-append cur (lines_of_blocks blocks)
        ∙ (rw (rest, shown-append cur (l ∷ lines)) (rw blank refl))))

length-part : (xs ys : List Text) (zs : List Text) → xs ++ ys ≡ zs → length ys ≤ length zs
length-part xs ys zs e =
    let n = ap (λ (t : List Text). length t) e in omega (arith, n, length-append {0} xs ys)

-- A table keeps its first line.
collect_table-opens :
    (l : Text) (lines : List Text)
    → is_table_start (l ∷ lines) ≡ true
    → collect_table (l ∷ lines) ≡ record {
      taken = l ∷ (collect_table lines).taken;
      kept = trim_space l ∷ (collect_table lines).kept;
      left = (collect_table lines).left;
    }
unfolding collect_table is_table_start
collect_table-opens l [] h = cc
collect_table-opens l (m ∷ lines) h =
    let bar : contains b'|' (trim_space l) ≡ true = ground arith in
    let has = contains-trim_space b'|' l bar in
    let full = contains-not_empty b'|' (trim_space l) bar in rw (has, full) refl

abbrev SameShown : List Text → List Text → List Text → Type 0
SameShown cur lines blocks = shown (lines_of_blocks blocks) ≡ shown (cur ++ lines)

fence_out :
    (cur : List Text) (l marker : Text) (lines blocks : List Text)
    → All OneLine cur
    → All OneLine (l ∷ lines)
    → let c = collect_fence marker lines in
      SameShown [] c.left blocks
      → SameShown cur
          (l ∷ lines)
          (flush_lines cur ++ (unlines (l ∷ (c.kept ++ closing_line marker c.taken)) ∷ blocks))
fence_out cur l marker lines blocks one ones rest =
    let c = collect_fence marker lines in
    let covers = collect_fence-Covers marker lines in
    let taken = All-parts OneLine c.taken c.left (rw covers ones.1) in
    let out =
      block_out cur (l ∷ c.taken) (l ∷ c.taken) c.left blocks (unlines (l ∷ c.taken)) one
        (lines_of-unlines l c.taken (ones.0, taken.0)) refl rest in
    rw (closing_line-fence marker lines) (rw covers at out)

table_out :
    (cur : List Text) (l : Text) (lines blocks : List Text)
    → is_table_start (l ∷ lines) ≡ true
    → All OneLine cur
    → All OneLine (l ∷ lines)
    → SameShown [] (collect_table lines).left blocks
    → SameShown cur
        (l ∷ lines)
        (flush_lines cur ++ (unlines (collect_table (l ∷ lines)).kept ∷ blocks))
table_out cur l lines blocks table one ones rest =
    let c = collect_table lines in
    let kept = collect_table-OneLine lines ones.1 in
    let out =
      block_out cur (trim_space l ∷ c.kept) (l ∷ c.taken) c.left blocks
        (unlines (trim_space l ∷ c.kept)) one
        (lines_of-unlines (trim_space l) c.kept (trim_space-OneLine l ones.0, kept))
        (shown-trim l c.kept c.taken (shown-collect_table lines)) rest in
    rw (collect_table-opens l lines table) (rw (collect_table-Covers lines) at out)

blocks_from-keeps :
    (fuel : ℕ) (cur lines : List Text)
    → suc (length lines) ≤ fuel
    → All OneLine cur
    → All OneLine lines
    → SameShown cur lines (blocks_from fuel cur lines)
unfolding blocks_from
blocks_from-keeps zero cur lines enough one ones = ground (arith, enough)
blocks_from-keeps (suc fuel) cur [] enough one ones =
    rw (flush_lines-keeps cur one) (ap shown (sym (append-nil cur)))
blocks_from-keeps (suc fuel) cur (l ∷ lines) enough one ones =
    let marker = fence_marker (trim_space l) in
    let fence = collect_fence marker lines in
    let p = SameShown cur (l ∷ lines) in
    if-elim p (is_empty (trim_space l)) _ _
      (λ h.
        blank_out cur lines (blocks_from fuel [] lines) l one h
          (blocks_from-keeps fuel [] lines (omega (arith, enough)) tt ones.1))
      (λ h.
        if-elim p (is_fence (trim_space l)) _ _
          (λ h.
            let covers = collect_fence-Covers marker lines in
            let left = All-parts OneLine fence.taken fence.left (rw covers ones.1) in
            fence_out cur l marker lines (blocks_from fuel [] fence.left) one ones (
              blocks_from-keeps fuel [] fence.left
                (omega (arith, enough, length-part fence.taken fence.left lines covers)) tt left.1))
          (λ h.
            if-elim p (is_table_start (l ∷ lines)) _ _
              (λ h.
                let rest = collect_table lines in
                let covers = collect_table-Covers lines in
                let left = All-parts OneLine rest.taken rest.left (rw covers ones.1) in
                let ih =
                  blocks_from-keeps fuel [] rest.left
                    (omega (arith, enough, length-part rest.taken rest.left lines covers)) tt
                    left.1 in
                let same : (collect_table (l ∷ lines)).left ≡ rest.left =
                  ap (λ (c : Cut). c.left) (collect_table-opens l lines h) in
                rw same (table_out cur l lines (blocks_from fuel [] rest.left) h one ones ih))
              (λ h.
                blocks_from-keeps fuel (cur ++ (l ∷ [])) lines (omega (arith, enough))
                  (All-append OneLine cur (l ∷ []) one (ones.0, tt)) ones.1
                ∙ ap shown (append_assoc cur (l ∷ []) lines))))

-- The blocks that a text is cut into hold all its lines in order, blank ones and the white space around a
-- line apart.
pub markdown_blocks-keeps :
    (md : Text) → shown (lines_of_blocks (markdown_blocks md)) ≡ shown (lines_of md)
unfolding markdown_blocks
markdown_blocks-keeps md =
    blocks_from-keeps (suc (length (lines_of md))) [] (lines_of md) (omega arith) tt
      (lines_of-OneLine md)
