-- ===== src/Telegram/Clipping.antt =====
-- What ClipConvertible of internal/telegram/markdown.go keeps of a text.
use Prim.Native.Nat.{◌/◌}
use omp_telegram.Common.{
  ℕ, zero, suc, ◌+◌, ◌-◌, ◌≤◌, ◌<◌, ℤ, Text, width, units_of, leb, ltb, Bool-cases, [], ◌∷◌, ◌++◌,
  ◌≡◌, refl, ap, ◌⊎◌, inl, inr, arith,
}
use omp_telegram.Telegram.Convert.{Inline, convert_len}
use omp_telegram.Telegram.Split.{effective_limit}
use omp_telegram.Telegram.Clip.{
  clip_from, clip_units, clip_marker, cut_len, search_clip, clip_within, clip_convertible,
}

clip_from-prefix :
    (units used : ℕ) (s : Text) → (rest : Text) × (s ≡ clip_from units used s ++ rest)
unfolding clip_from
clip_from-prefix units used [] = ([], refl)
clip_from-prefix units used (r ∷ s) =
    let h = clip_from-prefix units (used + width r) s in
    elim (Bool-cases (ltb units (used + width r))) [
      | inl e ↦ (r ∷ s, rw e refl)
      | inr e ↦ (h.0, rw e (ap (λ (t : Text). r ∷ t) h.1))
    ]

clip_units-prefix : (s : Text) (units : ℕ) → (rest : Text) × (s ≡ clip_units s units ++ rest)
unfolding clip_units
clip_units-prefix s units =
    let h = clip_from-prefix units 0 s in
    elim (Bool-cases (leb units 0)) [ inl e ↦ (s, rw e refl) | inr e ↦ (h.0, rw e h.1) ]

module _ (inline : Inline) where
  -- The cut fits, and the next one does not or is the whole text.
  pub record Longest (s : Text) (limit n : ℕ) : Type 0 where
    pub cut_fits : cut_len inline s n ≤ limit
    pub no_longer : (n ≡ units_of s) ⊎ (limit < cut_len inline s (suc n))

  search_clip-Longest :
      (fuel : ℕ) (s : Text) (limit lo hi : ℕ)
      → lo ≤ hi
      → hi - lo ≤ fuel
      → cut_len inline s lo ≤ limit
      → ((hi ≡ units_of s) ⊎ (limit < cut_len inline s (suc hi)))
      → Longest s limit (search_clip inline fuel s limit lo hi)
  unfolding search_clip
  search_clip-Longest zero s limit lo hi le enough low high =
      let same : hi ≡ lo = omega (arith, le, enough) in
      record { cut_fits = low; no_longer = rw same at high }
  search_clip-Longest (suc fuel) s limit lo hi le enough low high =
      let mid = (lo + hi + 1) / 2 in
      elim (Bool-cases (ltb lo hi)) [
        | inr c ↦
            let same : hi ≡ lo = ground (arith, c, le) in
            rw c (record { cut_fits = low; no_longer = rw same at high })
        | inl c ↦
            let less : lo < hi = ground (arith, c) in
            elim (Bool-cases (leb (cut_len inline s mid) limit)) [
              | inl e ↦
                  rw (c, e)
                    (search_clip-Longest fuel s limit mid hi (omega (arith, less))
                      (omega (arith, less, enough)) (ground (arith, e)) high)
              | inr e ↦
                  let after : suc (mid - 1) ≡ mid = omega (arith, less) in
                  rw (c, e)
                    (search_clip-Longest fuel s limit lo (mid - 1) (omega (arith, less))
                      (omega (arith, less, enough)) low (inr (rw after (ground (arith, e)))))
            ]
      ]

  cut_len-zero : (s : Text) → cut_len inline s 0 ≡ convert_len inline clip_marker
  unfolding cut_len clip_units
  cut_len-zero s = refl

  -- A text cut at some units, with the marker: it fits, and with one unit more it does not or nothing
  -- is cut off.
  pub record Cut (s : Text) (limit : ℕ) (result : Text) : Type 0 where
    pub units : ℕ
    pub rest : Text
    pub is_result : result ≡ clip_units s units ++ clip_marker
    pub is_prefix : s ≡ clip_units s units ++ rest
    pub longest : Longest s limit units

  pub clip_within-Cut :
      (s : Text) (limit : ℕ)
      → convert_len inline clip_marker ≤ limit
      → ((convert_len inline s ≤ limit) × (clip_within inline s limit ≡ s))
        ⊎ ((limit < convert_len inline s) × Cut s limit (clip_within inline s limit))
  unfolding clip_within
  clip_within-Cut s limit marker =
      let n = search_clip inline (suc (units_of s)) s limit 0 (units_of s) in
      let found =
        search_clip-Longest (suc (units_of s)) s limit 0 (units_of s) (omega arith) (omega arith)
          (rw (cut_len-zero s) marker) (inl refl) in
      let h = clip_units-prefix s n in
      elim (Bool-cases (leb (convert_len inline s) limit)) [
        | inl e ↦ inl (ground (arith, e), rw e refl)
        | inr e ↦ inr (
          ground (arith, e),
          rw e (record {
            units = n;
            rest = h.0;
            is_result = refl;
            is_prefix = h.1;
            longest = found;
          }),
        )
      ]

  -- A text that fits is kept. Any other is cut to a prefix with the marker behind it that fits, such that
  -- the prefix of one unit more does not fit with the marker, or nothing is cut off. This is if the
  -- marker alone fits, for a text whose conversions end.
  pub clip_convertible-Cut :
      (s : Text) (limit : ℤ)
      → convert_len inline clip_marker ≤ effective_limit limit
      → ((convert_len inline s ≤ effective_limit limit) × (clip_convertible inline s limit ≡ s))
        ⊎ ((effective_limit limit < convert_len inline s)
            × Cut s (effective_limit limit) (clip_convertible inline s limit))
  unfolding clip_convertible
  clip_convertible-Cut s limit marker = clip_within-Cut s (effective_limit limit) marker
