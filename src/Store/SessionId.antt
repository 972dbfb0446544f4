-- ===== src/Store/SessionId.antt =====
-- The session id in the name of a session file (internal/store/store.go).
use omp_telegram.Common.{
  ℕ, Text, codes, text_eq, Bool, true, false, ◌&&◌, ◌||◌, not, ltb, leb, ◌==◌, if◌then◌else◌,
  Option, none, some, [], ◌∷◌, length,
}

-- What follows the last `c`.
unfoldable pub after_last : ℕ → Text → Option Text
after_last c [] = none
after_last c (x ∷ s) =
    let rest = after_last c s in
    elim rest [ some t ↦ some t | none ↦ if x == c then some s else none ]

unfoldable pub trim_trailing : ℕ → Text → Text
trim_trailing c [] = []
trim_trailing c (x ∷ s) =
    let rest = trim_trailing c s in
    elim rest [ [] ↦ if x == c then [] else x ∷ [] | y ∷ t ↦ x ∷ y ∷ t ]

unfoldable pub trim_suffix : Text → Text → Text
trim_suffix suffix [] = []
trim_suffix suffix (x ∷ s) = if text_eq (x ∷ s) suffix then [] else x ∷ trim_suffix suffix s

-- filepath.Base of a path with no trailing slash
unfoldable pub last_element : Text → Text
unfolding after_last
last_element [] = codes "/"
last_element (c ∷ path) = elim (after_last b'/' (c ∷ path)) [ none ↦ c ∷ path | some s ↦ s ]

-- filepath.Base
unfoldable pub base_name : Text → Text
unfolding last_element trim_trailing
base_name [] = codes "."
base_name (c ∷ path) = last_element (trim_trailing b'/' (c ∷ path))

abbrev pub is_id_char : ℕ → Bool
is_id_char c =
    c == b'-'
    || (leb b'0' c && leb c b'9')
    || (leb b'a' c && leb c b'f')
    || (leb b'A' c && leb c b'F')

unfoldable pub all_id_chars : Text → Bool
all_id_chars [] = true
all_id_chars (c ∷ s) = is_id_char c && all_id_chars s

unfoldable pub starts_with_dash : Text → Bool
starts_with_dash [] = false
starts_with_dash (c ∷ s) = c == b'-'

unfoldable pub ends_with_dash : Text → Bool
ends_with_dash [] = false
ends_with_dash (c ∷ []) = c == b'-'
ends_with_dash (c ∷ d ∷ s) = ends_with_dash (d ∷ s)

-- The id itself, or "" for a text that is no id.
unfoldable pub valid_session_id : Text → Text
unfolding all_id_chars starts_with_dash ends_with_dash
valid_session_id id =
    if ltb (length id) 8
      || ltb 64 (length id)
      || starts_with_dash id
      || ends_with_dash id
      || not (all_id_chars id)
    then []
    else id

unfoldable pub session_id_from_path : Text → Text
unfolding base_name trim_suffix valid_session_id after_last
session_id_from_path session =
    let base = trim_suffix (codes ".jsonl") (base_name session) in
    elim (valid_session_id base) [
      | c ∷ id ↦ c ∷ id
      | [] ↦ elim (after_last b'_' base) [ none ↦ [] | some s ↦ valid_session_id s ]
    ]
