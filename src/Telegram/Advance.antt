-- ===== src/Telegram/Advance.antt =====
-- Whether the block loop of internal/telegram/markdown.go advances.
use omp_telegram.Common.{
  ℕ, Text, codes, text_eq, is_empty, is_space, trim_space, trim_left, trim_right, has_prefix,
  contains, Bool, true, false, ◌&&◌, not, if◌then◌else◌, Bool-cases, List, [], ◌∷◌, ◌++◌, ◌≡◌, refl,
  sym, ap, ◌∙◌, ◌⊎◌, inl, inr, arith,
}
use omp_telegram.Telegram.Syntax.{is_heading, is_rule, is_list_item, is_fence, fence_marker}
use omp_telegram.Telegram.Blocks.{
  Kind, Block, Cut, collect_fence, is_table_start, collect_table, is_indent, collect_quote,
  continues_list, collect_list, paragraph_boundary, collect_paragraph, one_line, whole,
  collect_block,
}

-- What a collector takes and leaves are the lines it is given.
abbrev pub Covers : Cut → List Text → Type 0
Covers c lines = c.taken ++ c.left ≡ lines

pub collect_fence-Covers :
    (marker : Text) (lines : List Text) → Covers (collect_fence marker lines) lines
unfolding collect_fence
collect_fence-Covers marker [] = refl
collect_fence-Covers marker (l ∷ lines) = elim (Bool-cases (text_eq (trim_space l) marker)) [
  | inl e ↦ rw e refl
  | inr e ↦ rw e (ap (λ (ls : List Text). l ∷ ls) (collect_fence-Covers marker lines))
]

pub collect_table-Covers : (lines : List Text) → Covers (collect_table lines) lines
unfolding collect_table
collect_table-Covers [] = refl
collect_table-Covers (l ∷ lines) =
    elim (Bool-cases (contains b'|' l && not (is_empty (trim_space l)))) [
      | inl e ↦ rw e (ap (λ (ls : List Text). l ∷ ls) (collect_table-Covers lines))
      | inr e ↦ rw e refl
    ]

collect_quote-Covers : (lines : List Text) → Covers (collect_quote lines) lines
unfolding collect_quote
collect_quote-Covers [] = refl
collect_quote-Covers (l ∷ lines) =
    elim (Bool-cases (has_prefix (codes ">") (trim_left is_indent l))) [
      | inl e ↦ rw e (ap (λ (ls : List Text). l ∷ ls) (collect_quote-Covers lines))
      | inr e ↦ rw e refl
    ]

collect_list-Covers : (lines : List Text) → Covers (collect_list lines) lines
unfolding collect_list
collect_list-Covers [] = refl
collect_list-Covers (l ∷ lines) = elim (Bool-cases (continues_list l)) [
  | inl e ↦ rw e (ap (λ (ls : List Text). l ∷ ls) (collect_list-Covers lines))
  | inr e ↦ rw e refl
]

collect_paragraph-Covers : (lines : List Text) → Covers (collect_paragraph lines) lines
unfolding collect_paragraph
collect_paragraph-Covers [] = refl
collect_paragraph-Covers (l ∷ lines) = elim (Bool-cases (paragraph_boundary (l ∷ lines))) [
  | inl e ↦ rw e refl
  | inr e ↦ rw e (ap (λ (ls : List Text). l ∷ ls) (collect_paragraph-Covers lines))
]

-- A line that opens a quote for collectMarkdownBlock opens one for collectQuote.
abbrev pub QuotesAgree : Text → Type 0
QuotesAgree l =
    has_prefix (codes ">") (trim_space l) ≡ has_prefix (codes ">") (trim_left is_indent l)

-- The block takes its first line, and what it takes and leaves are the lines.
pub record Advances (b : Block) (l : Text) (lines : List Text) : Type 0 where
  pub more : List Text
  pub takes_first : b.own ≡ l ∷ more
  pub covers : b.own ++ b.rest ≡ l ∷ lines

pub if-elim {ℓ} :
    {A : Type ℓ} (P : A → Type 0) (b : Bool) (x y : A)
    → (b ≡ true → P x)
    → (b ≡ false → P y)
    → P (if b then x else y)
if-elim P true x y h k = h refl
if-elim P false x y h k = k refl

from_first :
    (b : Block) (l : Text) (lines more left : List Text)
    → more ++ left ≡ lines
    → b.own ≡ l ∷ more
    → b.rest ≡ left
    → Advances b l lines
from_first b l lines more left covers own rest = record {
  more = more;
  takes_first = own;
  covers = rw (own, rest) (ap (λ (ls : List Text). l ∷ ls) covers);
}

contains-trim_left :
    (n : ℕ) (p : ℕ → Bool) (s : Text) → contains n (trim_left p s) ≡ true → contains n s ≡ true
unfolding trim_left
contains-trim_left n p [] h = h
contains-trim_left n p (c ∷ s) h = ground (arith, contains-trim_left n p s)

pub Text-cases : (s : Text) → (s ≡ []) ⊎ ((c : ℕ) × (t : Text) × (s ≡ c ∷ t))
Text-cases [] = inl refl
Text-cases (c ∷ t) = inr (c, t, refl)

contains-trim_right :
    (n : ℕ) (p : ℕ → Bool) (s : Text) → contains n (trim_right p s) ≡ true → contains n s ≡ true
unfolding trim_right
contains-trim_right n p [] h = h
contains-trim_right n p (c ∷ s) h =
    let ih = contains-trim_right n p s in
    elim (Text-cases (trim_right p s)) [
      | inl e ↦
          let k : contains n (if p c then [] else c ∷ []) ≡ true = rw (e, trim_right) at h in
          ground (arith, k)
      | inr e ↦
          let k : contains n (c ∷ e.0 ∷ e.1) ≡ true = rw (e.2, trim_right) at h in
          ground (arith, k, rw e.2 at ih)
    ]

pub contains-trim_space :
    (n : ℕ) (s : Text) → contains n (trim_space s) ≡ true → contains n s ≡ true
unfolding trim_space
contains-trim_space n s h =
    contains-trim_left n is_space s (contains-trim_right n is_space (trim_left is_space s) h)

pub contains-not_empty : (n : ℕ) (s : Text) → contains n s ≡ true → is_empty s ≡ false
unfolding is_empty
contains-not_empty n [] h = cc
contains-not_empty n (c ∷ s) h = refl

pub collect_table-first :
    (l : Text) (lines : List Text)
    → is_table_start (l ∷ lines) ≡ true
    → (collect_table (l ∷ lines)).taken ≡ l ∷ (collect_table lines).taken
unfolding collect_table is_table_start
collect_table-first l [] h = cc
collect_table-first l (m ∷ lines) h =
    let bar : contains b'|' (trim_space l) ≡ true = ground arith in
    ground (arith, contains-trim_space b'|' l bar, contains-not_empty b'|' (trim_space l) bar)

collect_quote-first :
    (l : Text) (lines : List Text)
    → has_prefix (codes ">") (trim_left is_indent l) ≡ true
    → (collect_quote (l ∷ lines)).taken ≡ l ∷ (collect_quote lines).taken
unfolding collect_quote
collect_quote-first l lines h = rw h refl

whole-Advances :
    (kind : Kind) (c d : Cut) (l : Text) (lines : List Text)
    → c.taken ≡ l ∷ d.taken
    → Covers c (l ∷ lines)
    → Advances (whole kind c) l lines
whole-Advances kind c d l lines first covers = record {
  more = d.taken;
  takes_first = first;
  covers = covers;
}

one_line-Advances :
    (kind : Kind) (l : Text) (lines : List Text) → Advances (one_line kind l lines) l lines
one_line-Advances kind l lines = record { more = []; takes_first = refl; covers = refl }

-- A block takes the line it starts at and leaves the rest of the lines as they are, if that line opens a
-- quote in the sense of collectMarkdownBlock exactly when it does in the sense of collectQuote.
pub collect_block-Advances :
    (l : Text) (lines : List Text) → QuotesAgree l → Advances (collect_block l lines) l lines
unfolding collect_block
collect_block-Advances l lines agree =
    let p = λ (b : Block). Advances b l lines in
    if-elim p (is_empty (trim_space l)) _ _ (λ h. one_line-Advances Kind.blank l lines)
      (λ h.
        if-elim p (is_fence (trim_space l)) _ _
          (λ h.
            from_first _ l lines _ _ (collect_fence-Covers (fence_marker (trim_space l)) lines) refl
              refl)
          (λ h.
            if-elim p (is_table_start (l ∷ lines)) _ _
              (λ h.
                whole-Advances Kind.table _ (collect_table lines) l lines
                  (collect_table-first l lines h) (collect_table-Covers (l ∷ lines)))
              (λ h.
                if-elim p (is_heading l) _ _ (λ h. one_line-Advances Kind.heading l lines)
                  (λ h.
                    if-elim p (has_prefix (codes ">") (trim_space l)) _ _
                      (λ h.
                        whole-Advances Kind.quote _ (collect_quote lines) l lines
                          (collect_quote-first l lines (sym agree ∙ h))
                          (collect_quote-Covers (l ∷ lines)))
                      (λ h.
                        if-elim p (is_rule l) _ _ (λ h. one_line-Advances Kind.rule l lines)
                          (λ h.
                            if-elim p (is_list_item l) _ _
                              (λ h. from_first _ l lines _ _ (collect_list-Covers lines) refl refl)
                              (λ h.
                                from_first _ l lines _ _ (collect_paragraph-Covers lines) refl
                                  refl)))))))
