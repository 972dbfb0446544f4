-- ===== src/Telegram/Chunks.antt =====
-- The chunks of internal/telegram/markdown.go's literal splitting: nothing is lost, and each one fits.
use mathlib.Core.List.{append-nil, append_assoc}
use omp_telegram.Common.{
  ℕ, ◌+◌, ◌≤◌, Text, is_empty, width, units_of, lines_of, unlines, newline, true, leb, ltb,
  Bool-cases, All, All-append, List, [], ◌∷◌, ◌++◌, map, ◌≡◌, refl, sym, ap, ◌∙◌, inl, inr, arith,
  join,
}
use omp_telegram.Telegram.Literal.{
  hard_split_from, hard_split_units, literal_fence, Chunks, flush, append_piece, append_pieces,
  append_line, append_lines, at_least_one, split_literal_block,
}
use omp_telegram.Telegram.Lines.{unlines-lines_of}

abbrev pub concat : List Text → Text
concat [] = []
concat (p ∷ ps) = p ++ concat ps

pub concat-append : (ps qs : List Text) → concat (ps ++ qs) ≡ concat ps ++ concat qs
concat-append [] qs = refl
concat-append (p ∷ ps) qs = rw (concat-append ps qs) (sym (append_assoc p (concat ps) (concat qs)))

pub units_of-append : (s t : Text) → units_of (s ++ t) ≡ units_of s + units_of t
units_of-append [] t = omega arith
units_of-append (c ∷ s) t = omega (arith, units_of-append s t)

is_empty-nil : (s : Text) → is_empty s ≡ true → s ≡ []
unfolding is_empty
is_empty-nil [] h = refl
is_empty-nil (c ∷ s) h = ground arith

abbrev pub Within : ℕ → Text → Type 0
Within limit p = units_of p ≤ limit

concat-hard_split_from :
    (limit : ℕ) (piece : Text) (n : ℕ) (s : Text)
    → concat (hard_split_from limit piece n s) ≡ piece ++ s
unfolding hard_split_from
concat-hard_split_from limit piece n [] = refl
concat-hard_split_from limit piece n (r ∷ s) =
    let cut = concat-hard_split_from limit (r ∷ []) (width r) s in
    let more = concat-hard_split_from limit (piece ++ (r ∷ [])) (n + width r) s in
    elim (Bool-cases (ltb limit (n + width r))) [
      | inl e ↦ rw (e, cut) refl
      | inr e ↦ rw (e, more) (append_assoc piece (r ∷ []) s)
    ]

hard_split_from-Within :
    (limit : ℕ) (piece : Text) (n : ℕ) (s : Text)
    → 2 ≤ limit
    → units_of piece ≡ n
    → n ≤ limit
    → All (Within limit) (hard_split_from limit piece n s)
unfolding hard_split_from
hard_split_from-Within limit piece n [] two e le = (omega (arith, e, le), tt)
hard_split_from-Within limit piece n (r ∷ s) two e le =
    let cut = hard_split_from-Within limit (r ∷ []) (width r) s two (omega arith) (ground arith) in
    elim (Bool-cases (ltb limit (n + width r))) [
      | inl over ↦ rw over (omega (arith, e, le), cut)
      | inr fits ↦
          let more =
            hard_split_from-Within limit (piece ++ (r ∷ [])) (n + width r) s two
              (omega (arith, units_of-append piece (r ∷ []), e)) (ground arith) in
          rw fits more
    ]

pub concat-hard_split_units : (s : Text) (limit : ℕ) → concat (hard_split_units s limit) ≡ s
unfolding hard_split_units
concat-hard_split_units s limit = concat-hard_split_from limit [] 0 s

pub hard_split_units-Within :
    (s : Text) (limit : ℕ) → 2 ≤ limit → All (Within limit) (hard_split_units s limit)
unfolding hard_split_units
hard_split_units-Within s limit two = hard_split_from-Within limit [] 0 s two refl (omega arith)

module _ (marker : Text) (limit : ℕ) where
  -- The state of the loop once `text` is consumed: `payloads` are what the chunks hold.
  pub record Consumed (text : Text) (c : Chunks) : Type 0 where
    pub payloads : List Text
    pub is_out : c.out ≡ map (λ p. literal_fence p marker) payloads
    pub all_fit : All (Within limit) payloads
    pub is_units : c.units ≡ units_of c.chunk
    pub chunk_fits : c.units ≤ limit
    pub is_text : concat payloads ++ c.chunk ≡ text

  map-snoc :
      (ps : List Text) (p : Text)
      → map (λ q. literal_fence q marker) (ps ++ (p ∷ []))
        ≡ map (λ q. literal_fence q marker) ps ++ (literal_fence p marker ∷ [])
  map-snoc [] p = refl
  map-snoc (q ∷ ps) p = rw (map-snoc ps p) refl

  -- The chunk goes out as it is.
  closed :
      (text : Text) (c : Chunks)
      → Consumed text c
      → Consumed text
          (record { out = c.out ++ (literal_fence c.chunk marker ∷ []); chunk = []; units = 0 })
  closed text c h =
      let ps = h.payloads in
      let units = h.is_units in
      let fits = h.chunk_fits in
      record {
        payloads = ps ++ (c.chunk ∷ []);
        is_out =
            ap (λ (out : List Text). out ++ (literal_fence c.chunk marker ∷ [])) h.is_out
            ∙ sym (map-snoc ps c.chunk);
        all_fit =
            All-append (Within limit) ps (c.chunk ∷ []) h.all_fit (omega (arith, units, fits), tt);
        is_units = refl;
        chunk_fits = omega arith;
        is_text =
            append-nil (concat (ps ++ (c.chunk ∷ [])))
            ∙ (concat-append ps (c.chunk ∷ [])
                ∙ (ap (λ (t : Text). concat ps ++ t) (append-nil c.chunk) ∙ h.is_text));
      }

  pub flush-Consumed :
      (text : Text) (c : Chunks)
      → Consumed text c
      → Consumed text (flush marker limit c) × ((flush marker limit c).chunk ≡ [])
  unfolding flush is_empty
  flush-Consumed text c h = elim (Bool-cases (is_empty c.chunk)) [
    | inl e ↦ rw e (h, is_empty-nil c.chunk e)
    | inr e ↦ rw e (closed text c h, refl)
  ]

  -- A piece joins the chunk.
  grown :
      (text piece : Text) (c : Chunks)
      → c.units + units_of piece ≤ limit
      → Consumed text c
      → Consumed
          (text ++ piece)
          (record { out = c.out; chunk = c.chunk ++ piece; units = c.units + units_of piece })
  grown text piece c fits h =
      let units = h.is_units in
      record {
        payloads = h.payloads;
        is_out = h.is_out;
        all_fit = h.all_fit;
        is_units = omega (arith, units, units_of-append c.chunk piece);
        chunk_fits = fits;
        is_text =
            sym (append_assoc (concat h.payloads) c.chunk piece)
            ∙ ap (λ (t : Text). t ++ piece) h.is_text;
      }

  pub append_piece-Consumed :
      (text piece : Text) (c : Chunks)
      → units_of piece ≤ limit
      → Consumed text c
      → Consumed (text ++ piece) (append_piece marker limit piece c)
  unfolding append_piece
  append_piece-Consumed text piece c fits h =
      elim (Bool-cases (ltb limit (c.units + units_of piece))) [
        | inl e ↦
            let f = flush-Consumed text c h in
            let empty : (flush marker limit c).units ≡ 0 =
              f.0.is_units ∙ ap (λ (s : Text). units_of s) f.1 in
            rw e (grown text piece (flush marker limit c) (omega (arith, empty, fits)) f.0)
        | inr e ↦ rw e (grown text piece c (ground arith) h)
      ]

  append_pieces-Consumed :
      (text : Text) (ps : List Text) (c : Chunks)
      → All (Within limit) ps
      → Consumed text c
      → Consumed (text ++ concat ps) (append_pieces marker limit ps c)
  unfolding append_pieces
  append_pieces-Consumed text [] c fits h = rw (append-nil text) h
  append_pieces-Consumed text (p ∷ ps) c fits h =
      let next = append_piece-Consumed text p c fits.0 h in
      rw (sym (append_assoc text p (concat ps)))
        (append_pieces-Consumed (text ++ p) ps (append_piece marker limit p c) fits.1 next)

  append_line-Consumed :
      (text line : Text) (c : Chunks)
      → 2 ≤ limit
      → Consumed text c
      → Consumed (text ++ line) (append_line marker limit line c)
  unfolding append_line
  append_line-Consumed text line c two h = elim (Bool-cases (leb (units_of line) limit)) [
    | inl e ↦ rw e (append_piece-Consumed text line c (ground arith) h)
    | inr e ↦
        let f = flush-Consumed text c h in
        let all =
          append_pieces-Consumed text (hard_split_units line limit) (flush marker limit c)
            (hard_split_units-Within line limit two) f.0 in
        rw e (rw (concat-hard_split_units line limit) at all)
  ]

  append_lines-Consumed :
      (text : Text) (lines : List Text) (c : Chunks)
      → 2 ≤ limit
      → Consumed text c
      → Consumed (text ++ unlines lines) (append_lines marker limit lines c)
  unfolding append_lines unlines join
  append_lines-Consumed text [] c two h = rw (append-nil text) h
  append_lines-Consumed text (l ∷ []) c two h = append_line-Consumed text l c two h
  append_lines-Consumed text (l ∷ m ∷ lines) c two h =
      let line = append_line-Consumed text l c two h in
      let next =
        append_piece-Consumed (text ++ l) (newline ∷ []) (append_line marker limit l c)
          (omega arith) line in
      let rest =
        append_lines-Consumed ((text ++ l) ++ (newline ∷ [])) (m ∷ lines)
          (append_piece marker limit (newline ∷ []) (append_line marker limit l c)) two next in
      let u = unlines (m ∷ lines) in
      let e : ((text ++ l) ++ (newline ∷ [])) ++ u ≡ text ++ (l ++ (newline ∷ u)) =
        append_assoc (text ++ l) (newline ∷ []) u ∙ append_assoc text l (newline ∷ u) in
      rw e at rest

start-Consumed :
    (marker : Text) (limit : ℕ)
    → Consumed marker limit [] (record { out = []; chunk = []; units = 0 })
start-Consumed marker limit = record {
  payloads = [];
  is_out = refl;
  all_fit = tt;
  is_units = refl;
  chunk_fits = omega arith;
  is_text = refl;
}

-- What split_literal_block makes of a text: fences around pieces of it that fit, in order.
pub record Pieces (marker : Text) (limit : ℕ) (text : Text) : Type 0 where
  pub payloads : List Text
  pub is_split : split_literal_block text marker limit ≡ map (λ p. literal_fence p marker) payloads
  pub all_fit : All (Within limit) payloads
  pub is_text : concat payloads ≡ text

payloads_of :
    (text marker : Text) (limit : ℕ) (out ps : List Text)
    → split_literal_block text marker limit ≡ at_least_one (literal_fence [] marker) out
    → out ≡ map (λ p. literal_fence p marker) ps
    → All (Within limit) ps
    → concat ps ≡ text
    → Pieces marker limit text
payloads_of text marker limit out [] split is_out fit is_text = record {
  payloads = [] ∷ [];
  is_split = rw is_out at split;
  all_fit = (omega arith, tt);
  is_text = is_text;
}
payloads_of text marker limit out (p ∷ ps) split is_out fit is_text = record {
  payloads = p ∷ ps;
  is_split = rw is_out at split;
  all_fit = fit;
  is_text = is_text;
}

pub split_literal_block-Pieces :
    (text marker : Text) (limit : ℕ) → 2 ≤ limit → Pieces marker limit text
unfolding split_literal_block
split_literal_block-Pieces text marker limit two =
    let start : Chunks = record { out = []; chunk = []; units = 0 } in
    let all =
      append_lines-Consumed marker limit [] (lines_of text) start two
        (start-Consumed marker limit) in
    let end =
      flush-Consumed marker limit (unlines (lines_of text))
        (append_lines marker limit (lines_of text) start) all in
    let last = flush marker limit (append_lines marker limit (lines_of text) start) in
    let done = end.0 in
    let texts : concat done.payloads ≡ text =
      sym (append-nil (concat done.payloads))
      ∙ (ap (λ (t : Text). concat done.payloads ++ t) (sym end.1)
          ∙ (done.is_text ∙ unlines-lines_of text)) in
    payloads_of text marker limit (last.out) (done.payloads) refl done.is_out done.all_fit texts
