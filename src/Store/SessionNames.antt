-- ===== src/Store/SessionNames.antt =====
-- The id of a session is read back from the name of its file (internal/store/store.go).
use omp_telegram.Common.{
  ℕ, ◌≤◌, ◌&&◌, ==_iff, ◌≡◌, refl, ◌∙◌, Bool, true, false, ◌==◌, Text, codes, text_eq, text_eq_iff,
  [], ◌∷◌, ◌++◌, none, some, length, length-append, contains, contains-append, inl, inr, Bool-cases,
  arith,
}
use mathlib.Core.Path.{subst, sym}
use mathlib.Core.List.{append_assoc}
use omp_telegram.Store.SessionId.{
  after_last, trim_trailing, trim_suffix, last_element, base_name, is_id_char, all_id_chars,
  starts_with_dash, ends_with_dash, valid_session_id, session_id_from_path,
}

-- What the store takes for a session id.
pub record IsSessionId (id : Text) : Type 0 where
  pub long : 8 ≤ length id
  pub short : length id ≤ 64
  pub has_id_chars : all_id_chars id ≡ true
  pub no_dash_before : starts_with_dash id ≡ false
  pub no_dash_after : ends_with_dash id ≡ false

after_last-none : (c : ℕ) (s : Text) → contains c s ≡ false → after_last c s ≡ none
unfolding after_last
after_last-none c [] h = refl
after_last-none c (x ∷ s) h = ground (arith, after_last-none c s)

after_last-append :
    (c : ℕ) (d s : Text) → contains c s ≡ false → after_last c (d ++ (c ∷ s)) ≡ some s
unfolding after_last
after_last-append c [] s h = ground (arith, after_last-none c s)
after_last-append c (x ∷ d) s h = ground (arith, after_last-append c d s)

-- A text that does not end in `c`.
data Ends (c : ℕ) : Text → Type 0 where
  last : (x : ℕ) → (x == c) ≡ false → Ends c (x ∷ [])
  more : (x y : ℕ) (s : Text) → Ends c (y ∷ s) → Ends c (x ∷ y ∷ s)

trim_trailing-Ends : (c : ℕ) (s : Text) → Ends c s → trim_trailing c s ≡ s
unfolding trim_trailing
trim_trailing-Ends c _ (last x h) = rw h
trim_trailing-Ends c _ (more x y s e) = rw (trim_trailing-Ends c (y ∷ s) e) refl

Ends-append : (c x : ℕ) (s t : Text) → Ends c (x ∷ t) → Ends c (s ++ (x ∷ t))
Ends-append c x [] t e = e
Ends-append c x (y ∷ []) t e = more y x t e
Ends-append c x (y ∷ z ∷ s) t e = more y z (s ++ (x ∷ t)) (Ends-append c x (z ∷ s) t e)

text_eq_longer : (x : ℕ) (s t : Text) → text_eq (x ∷ (s ++ t)) t ≡ false
text_eq_longer x s t = elim (Bool-cases (text_eq (x ∷ (s ++ t)) t)) [
  | inr differs ↦ differs
  | inl same ↦
      let whole : x ∷ (s ++ t) ≡ t = (text_eq_iff (x ∷ (s ++ t)) t).0 same in
      let lengths : length (x ∷ (s ++ t)) ≡ length t = (λ i. length (whole i)) in
      absurd (omega (arith, lengths, length-append s t))
]

trim_suffix-append : (a : ℕ) (b s : Text) → trim_suffix (a ∷ b) (s ++ (a ∷ b)) ≡ s
unfolding trim_suffix
trim_suffix-append a b [] = rw ((text_eq_iff (a ∷ b) (a ∷ b)).1 refl) refl
trim_suffix-append a b (x ∷ s) =
    rw (text_eq_longer x s (a ∷ b)) (λ i. x ∷ trim_suffix-append a b s i)

and_left : (a b : Bool) → (a && b) ≡ true → a ≡ true
and_left a b h = ground arith

and_right : (a b : Bool) → (a && b) ≡ true → b ≡ true
and_right a b h = ground arith

lacks : (c : ℕ) (s : Text) → is_id_char c ≡ false → all_id_chars s ≡ true → contains c s ≡ false
unfolding all_id_chars
lacks c [] other h = refl
lacks c (x ∷ s) other h = elim (Bool-cases (x == c)) [
  | inr differs ↦ rw differs (lacks c s other (and_right (is_id_char x) (all_id_chars s) h))
  | inl same ↦
      let e : x ≡ c = (==_iff x c).0 same in
      let is_one : is_id_char c ≡ true =
        subst (λ y. is_id_char y ≡ true) e (and_left (is_id_char x) (all_id_chars s) h) in
      absurd (cc (is_one, other))
]

foreign_char : (c : ℕ) (s t : Text) → is_id_char c ≡ false → all_id_chars (s ++ (c ∷ t)) ≡ false
unfolding all_id_chars
foreign_char c [] t other = rw other
foreign_char c (x ∷ s) t other = rw (foreign_char c s t other) (and_false (is_id_char x))
  where
    and_false : (a : Bool) → (a && false) ≡ false
    and_false a = ground arith

valid-foreign : (c : ℕ) (s t : Text) → is_id_char c ≡ false → valid_session_id (s ++ (c ∷ t)) ≡ []
unfolding valid_session_id
valid-foreign c s t other = let bad = foreign_char c s t other in ground (arith, bad)

valid-IsSessionId : (id : Text) → IsSessionId id → valid_session_id id ≡ id
unfolding valid_session_id
valid-IsSessionId id h =
    ground (arith, h.long, h.short, h.has_id_chars, h.no_dash_before, h.no_dash_after)

-- The name that OMP gives the file of a session.
abbrev pub file_name : Text → Text → Text
file_name stamp id = stamp ++ (b'_' ∷ (id ++ codes ".jsonl"))

file_name-Ends : (stamp id : Text) → Ends b'/' (file_name stamp id)
file_name-Ends stamp id = Ends-append b'/' b'_' stamp (id ++ codes ".jsonl") (
    Ends-append b'/' b'.' (b'_' ∷ id) (codes "jsonl") (
      more b'.' b'j' _ (
        more b'j' b's' _
          (more b's' b'o' _ (more b'o' b'n' _ (more b'n' b'l' _ (last b'l' refl)))))))

base_name-Ends : (p name : Text) → Ends b'/' p → after_last b'/' p ≡ some name → base_name p ≡ name
unfolding base_name last_element
base_name-Ends [] name e found = elim e [ ]
base_name-Ends (c ∷ p) name e found =
    rw (trim_trailing-Ends b'/' (c ∷ p) e) (rw (last_element, found) refl)

path-Ends : (dir stamp id : Text) → Ends b'/' (dir ++ (b'/' ∷ file_name stamp id))
path-Ends dir [] id = Ends-append b'/' b'/' dir _ (more b'/' b'_' _ (file_name-Ends [] id))
path-Ends dir (x ∷ stamp) id =
    Ends-append b'/' b'/' dir _ (more b'/' x _ (file_name-Ends (x ∷ stamp) id))

file_name-plain :
    (stamp id : Text)
    → contains b'/' stamp ≡ false
    → contains b'/' id ≡ false
    → contains b'/' (file_name stamp id) ≡ false
file_name-plain stamp id s i =
    rw
      (
        contains-append b'/' stamp (b'_' ∷ (id ++ codes ".jsonl")),
        s,
        contains-append b'/' id (codes ".jsonl"),
        i,
      )
      refl

trimmed :
    (stamp id : Text) → trim_suffix (codes ".jsonl") (file_name stamp id) ≡ stamp ++ (b'_' ∷ id)
trimmed stamp id =
    (λ i. trim_suffix (codes ".jsonl") (sym (append_assoc stamp (b'_' ∷ id) (codes ".jsonl")) i))
    ∙ trim_suffix-append b'.' (codes "jsonl") (stamp ++ (b'_' ∷ id))

read_back :
    (path stem id : Text)
    → trim_suffix (codes ".jsonl") (base_name path) ≡ stem
    → valid_session_id stem ≡ []
    → after_last b'_' stem ≡ some id
    → session_id_from_path path ≡ valid_session_id id
unfolding session_id_from_path valid_session_id
read_back path stem id base no_id found =
    rw (session_id_from_path, base, no_id) (rw (base, found) refl)

-- The id in the name of a session file, after its directory and whatever the name has before the last
-- underscore, which is no slash, is the one that the store reads back from the path, if it is an id.
pub session_id-path :
    (dir stamp id : Text)
    → IsSessionId id
    → contains b'/' stamp ≡ false
    → session_id_from_path (dir ++ (b'/' ∷ file_name stamp id)) ≡ id
session_id-path dir stamp id h plain =
    let no_slash = lacks b'/' id refl h.has_id_chars in
    let no_underscore = lacks b'_' id refl h.has_id_chars in
    let name = file_name stamp id in
    let base : base_name (dir ++ (b'/' ∷ name)) ≡ name =
      base_name-Ends (dir ++ (b'/' ∷ name)) name (path-Ends dir stamp id)
        (after_last-append b'/' dir name (file_name-plain stamp id plain no_slash)) in
    read_back (dir ++ (b'/' ∷ name)) (stamp ++ (b'_' ∷ id)) id (rw base (trimmed stamp id))
      (valid-foreign b'_' stamp id refl) (after_last-append b'_' stamp id no_underscore)
    ∙ valid-IsSessionId id h
