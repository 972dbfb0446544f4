-- ===== src/Telegram/Clip.antt =====
-- ClipConvertible in internal/telegram/markdown.go: the longest prefix that converts within a limit.
use omp_telegram.Common.{
  ℕ, zero, suc, ◌+◌, ◌-◌, ℤ, Text, width, units_of, newline, ltb, leb, if◌then◌else◌, [], ◌∷◌, ◌++◌,
}
use Prim.Native.Nat.{◌/◌}
use omp_telegram.Telegram.Convert.{Inline, convert_len}
use omp_telegram.Telegram.Split.{effective_limit}

-- clipUnits, from a position where `used` units are taken
unfoldable pub clip_from : ℕ → ℕ → Text → Text
clip_from units used [] = []
clip_from units used (r ∷ s) =
    let rest = clip_from units (used + width r) s in
    if ltb units (used + width r) then [] else r ∷ rest

-- clipUnits
unfoldable pub clip_units : Text → ℕ → Text
unfolding clip_from
clip_units s units = if leb units 0 then [] else clip_from units 0 s

-- "\n…"
abbrev pub clip_marker : Text
clip_marker = newline ∷ 0x2026 ∷ []

module _ (inline : Inline) where
  -- How long the text converts when it is cut at some units.
  unfoldable pub cut_len : Text → ℕ → ℕ
  unfolding convert_len clip_units
  cut_len s n = convert_len inline (clip_units s n ++ clip_marker)

  -- The binary search, on fuel for each halving.
  unfoldable pub search_clip : ℕ → Text → ℕ → ℕ → ℕ → ℕ
  unfolding cut_len
  search_clip zero s limit lo hi = lo
  search_clip (suc fuel) s limit lo hi =
      let mid = (lo + hi + 1) / 2 in
      let upper = search_clip fuel s limit mid hi in
      let lower = search_clip fuel s limit lo (mid - 1) in
      if ltb lo hi then (if leb (cut_len s mid) limit then upper else lower) else lo

  unfoldable pub clip_within : Text → ℕ → Text
  unfolding search_clip clip_units convert_len
  clip_within s limit =
      if leb (convert_len inline s) limit
      then s
      else clip_units s (search_clip (suc (units_of s)) s limit 0 (units_of s)) ++ clip_marker

  -- ClipConvertible
  unfoldable pub clip_convertible : Text → ℤ → Text
  unfolding clip_within effective_limit
  clip_convertible s limit = clip_within s (effective_limit limit)
