-- ===== src/Telegram/TableLimits.antt =====
-- The tables that internal/telegram/markdown.go cuts fit in the limit, and what the splitter relies on.
use omp_telegram.Common.{
  exists?, text_eq, text_eq_iff, All-map, ◌⊎◌, ◌<◌, ℕ, suc, ◌+◌, ◌≤◌, Text, codes, width, units_of,
  unlines, newline, repeat, length, Bool, true, false, ltb, ◌==◌, ==_iff, if◌then◌else◌, Bool-cases,
  Option-cases, All, All-append, length-append, some, List, [], ◌∷◌, ◌++◌, ◌≡◌, refl, sym, ap, inl,
  inr, arith,
}
use omp_telegram.Telegram.Syntax.{is_fence, fence_marker, take_while}
use omp_telegram.Telegram.Tables.{literal_table_text}
use omp_telegram.Telegram.Convert.{Inline, convert_len}
use omp_telegram.Telegram.Literal.{hard_split_from, split_literal_block}
use omp_telegram.Telegram.Split.{all_fit, fits, table_chunks, split_table_block}
use omp_telegram.Telegram.Fences.{Marker}
use omp_telegram.Telegram.Chunks.{units_of-append}
use omp_telegram.Telegram.LiteralParts.{Fits, split_literal_block-Fits}

pub length-units_of : (s : Text) → length s ≤ units_of s
length-units_of [] = omega arith
length-units_of (c ∷ s) = ground (arith, length-units_of s)

pub take_while-repeat : (c : ℕ) (s : Text) → (n : ℕ) × (take_while (λ d. d == c) s ≡ repeat c n)
unfolding take_while repeat
take_while-repeat c [] = (0, refl)
take_while-repeat c (d ∷ s) =
    let ih = take_while-repeat c s in
    elim (Bool-cases (d == c)) [
      | inl e ↦ (suc ih.0, rw (e, (==_iff d c).0 e) (ap (λ (t : Text). c ∷ t) ih.1))
      | inr e ↦ (0, rw e refl)
    ]

-- The marker of a line that opens a fence.
pub fence_marker-Marker : (s : Text) → is_fence s ≡ true → Marker (fence_marker s)
unfolding is_fence fence_marker take_while repeat
fence_marker-Marker [] h = ground arith
fence_marker-Marker (a ∷ []) h = ground arith
fence_marker-Marker (a ∷ b ∷ []) h = ground arith
fence_marker-Marker (a ∷ b ∷ c ∷ s) h =
    let rest = take_while-repeat a s in
    record {
      char = a;
      size = suc (suc (suc rest.0));
      is_char = ground arith;
      at_least = omega arith;
      is_repeat = ground (arith, rest.1);
    }

pub backticks : Marker (codes "```")
unfolding repeat
backticks = record {
  char = b'`';
  size = 3;
  is_char = refl;
  at_least = omega arith;
  is_repeat = refl;
}

-- A cut of at most one unit leaves single characters.
pub hard_split_from-singles :
    (cut : ℕ) (piece : Text) (n : ℕ) (s : Text)
    → cut ≤ 1
    → units_of piece ≡ n
    → length piece ≤ 1
    → All (λ p. length p ≤ 1) (hard_split_from cut piece n s)
unfolding hard_split_from
hard_split_from-singles cut piece n [] le e short = (short, tt)
hard_split_from-singles cut piece n (r ∷ s) le e short =
    let alone = hard_split_from-singles cut (r ∷ []) (width r) s le (omega arith) (omega arith) in
    elim (Bool-cases (ltb cut (n + width r))) [
      | inl over ↦ rw over (short, alone)
      | inr fit ↦
          let empty : length piece ≡ 0 = ground (arith, le, e, length-units_of piece) in
          let longer : length (piece ++ (r ∷ [])) ≤ 1 =
            omega (arith, length-append piece (r ∷ []), empty) in
          rw fit (
            hard_split_from-singles cut (piece ++ (r ∷ [])) (n + width r) s le
              (omega (arith, units_of-append piece (r ∷ []), e)) longer)
    ]

pub if-All {ℓ} :
    {A : Type ℓ} (P : A → Type 0) (b : Bool) (xs ys : List A)
    → (b ≡ true → All P xs)
    → (b ≡ false → All P ys)
    → All P (if b then xs else ys)
if-All P true xs ys h k = h refl
if-All P false xs ys h k = k refl

all_pieces : (ps : List Text) → All (λ p. exists? (text_eq p) ps ≡ true) ps
unfolding exists?
all_pieces [] = tt
all_pieces (x ∷ ps) = (
  ground (arith, text_eq_iff x x),
  All-map (λ p. exists? (text_eq p) ps ≡ true) _ ps (λ p there. ground (arith, there))
      (all_pieces ps),
)

module _ (inline : Inline) where
  -- A piece that fits, or one that nothing cuts smaller: a single character, or a piece that the inline
  -- splitter made of a text that does not fit.
  abbrev pub Allowed : ℕ → Text → Type 0
  Allowed limit p =
      Fits inline limit p
      ⊎ ((length p ≤ 1)
          ⊎ ((text : Text) × (limit < convert_len inline text)
              × (exists? (text_eq p) (inline.split_inline_paragraph text limit) ≡ true)))

  pub fitting : (limit : ℕ) (ps : List Text) → All (Fits inline limit) ps → All (Allowed limit) ps
  fitting limit ps h = All-map _ _ ps (λ p fit. inl fit) h

  pub singles : (limit : ℕ) (ps : List Text) → All (λ p. length p ≤ 1) ps → All (Allowed limit) ps
  singles limit ps h = All-map _ _ ps (λ p short. inr (inl short)) h

  pub inline_pieces :
      (limit : ℕ) (text : Text)
      → limit < convert_len inline text
      → All (Allowed limit) (inline.split_inline_paragraph text limit)
  inline_pieces limit text long =
      All-map _ _ (inline.split_inline_paragraph text limit)
        (λ p there. inr (inr (text, long, there)))
        (all_pieces (inline.split_inline_paragraph text limit))

  pub all_fit-Fits :
      (limit : ℕ) (ps : List Text) → all_fit inline limit ps ≡ true → All (Fits inline limit) ps
  all_fit-Fits limit [] h = tt
  all_fit-Fits limit (p ∷ ps) h = (ground arith, all_fit-Fits limit ps (ground arith))

  pub table_chunks-Fits :
      (limit : ℕ) (head : Text) (out : List Text) (chunk : Text) (has_rows : Bool)
      (rows : List Text) (parts : List Text)
      → All (Fits inline limit) out
      → Fits inline limit chunk
      → table_chunks inline limit head out chunk has_rows rows ≡ some parts
      → All (Fits inline limit) parts
  unfolding table_chunks
  table_chunks-Fits limit head out chunk has_rows [] parts fit_out fit e =
      let same : out ++ (chunk ∷ []) ≡ parts = cc in
      rw (sym same) (All-append (Fits inline limit) out (chunk ∷ []) fit_out (fit, tt))
  table_chunks-Fits limit head out chunk has_rows (row ∷ rows) parts fit_out fit e =
      let single = head ++ (newline ∷ row) in
      let candidate = chunk ++ (newline ∷ row) in
      elim (Bool-cases (fits inline limit single)) [
        | inr s ↦ ground (arith, s, e)
        | inl s ↦
            let fit_single : Fits inline limit single = ground (arith, s) in
            elim (Bool-cases has_rows) [
              | inr h ↦
                  table_chunks-Fits limit head out single true rows parts fit_out fit_single
                    (rw (s, h) at e)
              | inl h ↦ elim (Bool-cases (fits inline limit candidate)) [
                | inl c ↦
                    table_chunks-Fits limit head out candidate true rows parts fit_out
                      (ground (arith, c)) (rw (s, h, c) at e)
                | inr c ↦
                    table_chunks-Fits limit head (out ++ (chunk ∷ [])) single true rows parts
                      (All-append (Fits inline limit) out (chunk ∷ []) fit_out (fit, tt)) fit_single
                      (rw (s, h, c) at e)
              ]
            ]
      ]

  pub literal_small :
      (text marker : Text) (limit : ℕ)
      → Marker marker
      → 2 ≤ limit
      → All (Fits inline limit) (split_literal_block text marker limit)
  literal_small text marker limit mk two =
      (split_literal_block-Fits inline text marker limit mk two).1

  pub split_table_block-Fits :
      (header delimiter : Text) (rows : List Text) (limit : ℕ)
      → 2 ≤ limit
      → All (Fits inline limit) (split_table_block inline header delimiter rows limit)
  unfolding split_table_block
  split_table_block-Fits header delimiter rows limit two =
      let head = unlines (header ∷ delimiter ∷ []) in
      let literal =
        literal_small (literal_table_text (header ∷ delimiter ∷ rows)) (codes "```") limit backticks
          two in
      elim (Bool-cases (fits inline limit head)) [
        | inr e ↦ rw e literal
        | inl e ↦ elim (Option-cases (table_chunks inline limit head [] head false rows)) [
          | inl c ↦ rw (e, c) literal
          | inr c ↦
              rw (e, c.1)
                (table_chunks-Fits limit head [] head false rows c.0 tt (ground (arith, e)) c.1)
        ]
      ]
