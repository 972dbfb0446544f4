-- ===== src/Telegram/Rendering.antt =====
-- What Telegram counts of escaped text: internal/telegram/markdown.go, escapeHTML and renderedUTF16Len.
use omp_telegram.Common.{
  ℕ, ◌+◌, Text, codes, width, units_of, has_prefix, false, Bool-cases, ◌==◌, ==_iff, [], ◌∷◌, ◌++◌,
  ◌≡◌, refl, ◌∙◌, inl, inr, arith,
}
use mathlib.Core.List.{append-nil, append_assoc}
use omp_telegram.Telegram.Tables.{pre_block}
use omp_telegram.Telegram.Html.{
  escape_char, escape_html, in_text, in_escape, scan_html, escape_rest, rendered_len,
}

-- Text that is not the start of a tag or an escape counts its units.
scan-plain :
    (c : ℕ) (s : Text)
    → (c == b'<') ≡ false
    → (c == b'&') ≡ false
    → scan_html in_text (c ∷ s) ≡ width c + scan_html in_text s
unfolding scan_html
scan-plain c s lt amp = rw (lt, amp) refl

escape-over : (s : Text) → scan_html (in_escape 0) s ≡ scan_html in_text s
unfolding scan_html
escape-over [] = refl
escape-over (c ∷ s) = refl

scan-escape_char :
    (c : ℕ) (s : Text) → scan_html in_text (escape_char c ++ s) ≡ width c + scan_html in_text s
unfolding escape_char scan_html escape_rest has_prefix
scan-escape_char c s = elim (Bool-cases (c == b'&')) [
  | inl e ↦ rw (e, (==_iff c b'&').0 e) (omega (arith, escape-over s))
  | inr amp ↦ elim (Bool-cases (c == b'<')) [
    | inl e ↦ rw (amp, e, (==_iff c b'<').0 e) (omega (arith, escape-over s))
    | inr lt ↦ elim (Bool-cases (c == b'>')) [
      | inl e ↦ rw (amp, lt, e, (==_iff c b'>').0 e) (omega (arith, escape-over s))
      | inr gt ↦ rw (amp, lt, gt) (scan-plain c s lt amp)
    ]
  ]
]

pub scan-escape_html :
    (s t : Text) → scan_html in_text (escape_html s ++ t) ≡ units_of s + scan_html in_text t
unfolding escape_html
scan-escape_html [] t = omega arith
scan-escape_html (c ∷ s) t =
    rw (append_assoc (escape_char c) (escape_html s) t)
      (scan-escape_char c (escape_html s ++ t) ∙ omega (arith, scan-escape_html s t))

-- Escaped text in <pre> counts exactly the units of the text.
pub rendered_len-pre_block : (s : Text) → rendered_len (pre_block s) ≡ units_of s
unfolding rendered_len scan_html escape_rest has_prefix
rendered_len-pre_block s = scan-escape_html s (codes "</pre>") ∙ omega arith

pub rendered_len-escape_html : (s : Text) → rendered_len (escape_html s) ≡ units_of s
unfolding rendered_len scan_html
rendered_len-escape_html s =
    let e = scan-escape_html s [] in rw (append-nil (escape_html s)) at e ∙ omega arith
