-- ===== src/Store/Titles.antt =====
-- Titles of topics (internal/store/topic_names.go): what a truncated title is, and that a reserved one
-- is free.
use omp_telegram.Common.{
  width, units_of, Bool, List, true, ◌||◌, text_eq_iff, ◌∙◌, not, ◌&&◌, ◌==◌, first?, exists?,
  first?-test, exists?-append, ℕ, zero, suc, ◌+◌, ◌-◌, ◌≤◌, ◌<◌, ◌≡◌, refl, if◌then◌else◌, inl, inr,
  false, ltb, Text, [], ◌∷◌, ◌++◌, some, ok, Bool-cases, arith,
}
use mathlib.Core.Path.{subst}
use omp_telegram.Store.Schema.{BindingKey, key_eq, key_eq_iff, ReservationRow, Db}
use omp_telegram.Store.Topics.{
  topic_revision, is_reservation, set_revision, truncate_topic_name, choose_name, candidate,
  is_occupied, TopicNameReservation, reserve_topic_name,
}

-- What is left of a truncated name.
unfoldable pub cut : Text → ℕ → Text
cut [] units = []
cut (r ∷ name) units =
    let rest = cut name (units - width r) in if ltb units (width r) then r ∷ name else rest

-- The next code point does not fit.
abbrev pub Overflows : ℕ → Text → Type 0
Overflows used [] = Unit
Overflows used (r ∷ s) = used < width r

-- A truncated title is the longest beginning of the title that fits into the UTF-16 units: it fits, what is
-- cut off follows it, and the first code point that is cut off would not fit.
pub truncate_longest :
    (name : Text) (units : ℕ)
    → (units_of (truncate_topic_name name units) ≤ units)
      × (truncate_topic_name name units ++ cut name units ≡ name)
      × Overflows (units - units_of (truncate_topic_name name units)) (cut name units)
unfolding truncate_topic_name cut
truncate_longest [] units = (omega arith, refl, tt)
truncate_longest (r ∷ name) units =
    let (fits, whole, over) = truncate_longest name (units - width r) in
    elim (Bool-cases (ltb units (width r))) [
      | inl full ↦ rw full (omega arith, refl, ground arith)
      | inr room ↦
          let rest = truncate_topic_name name (units - width r) in
          let left = cut name (units - width r) in
          let spent : units - width r - units_of rest ≡ units - (width r + units_of rest) =
            omega arith in
          rw room (ground arith, (λ i. r ∷ whole i), subst (λ u. Overflows u left) spent over)
    ]

unfoldable pub is_free : BindingKey → Db → Text → Bool
is_free key db name = not (is_occupied key name db)

-- The titles that are tried: a name, then the candidate of each attempt from `attempt` on.
unfoldable pub titles : ℕ → BindingKey → Text → ℕ → Text → List Text
titles zero key base attempt name = []
titles (suc fuel) key base attempt name =
    name ∷ titles fuel key base (suc attempt) (candidate key.thread base attempt)

choose_name-first? :
    (fuel : ℕ) (key : BindingKey) (base : Text) (attempt : ℕ) (name : Text) (db : Db)
    → choose_name fuel key base attempt name db
      ≡ first? (is_free key db) (titles fuel key base attempt name)
unfolding choose_name first? titles is_free
choose_name-first? zero key base attempt name db = refl
choose_name-first? (suc fuel) key base attempt name db =
    ground
      (arith, choose_name-first? fuel key base (suc attempt) (candidate key.thread base attempt) db)

reserved_db : BindingKey → Text → Db → Db
reserved_db key name db = record db {
  topic_names = set_revision key (suc (topic_revision key db)) db.topic_names;
  reservations =
      db.reservations
      ++ record { key = key; name = name; revision = suc (topic_revision key db); active = true }
        ∷ [];
}

or_right : (a b : Bool) → b ≡ true → (a || b) ≡ true
or_right a b h = ground arith

reserved-is_reservation :
    (key : BindingKey) (name : Text) (db : Db)
    → exists?
        (is_reservation key (record { name = name; revision = suc (topic_revision key db) }))
        (reserved_db key name db).reservations
      ≡ true
unfolding reserved_db
reserved-is_reservation key name db =
    let r : TopicNameReservation = record { name = name; revision = suc (topic_revision key db) } in
    let row : ReservationRow = record {
      key = key;
      name = name;
      revision = suc (topic_revision key db);
      active = true;
    } in
    let here : exists? (is_reservation key r) (row ∷ []) ≡ true =
      unfold exists? in
      ground (arith, (key_eq_iff key key).1 refl, (text_eq_iff name name).1 refl) in
    rw (exists?-append (is_reservation key r) db.reservations (row ∷ []))
      (or_right (exists? (is_reservation key r) db.reservations) _ here)

-- If one of the titles that the fuel allows for is free, and no reservation of the topic has the next revision,
-- then the call reserves the first free one: no other topic of the chat has it or has reserved it, and
-- the reservation is active afterwards.
pub reserve_first_free :
    (fuel : ℕ) (key : BindingKey) (base name : Text) (db : Db)
    → first? (is_free key db) (titles fuel key base 1 (truncate_topic_name base 128)) ≡ some name
    → exists? (λ x. key_eq x.key key && x.revision == suc (topic_revision key db)) db.reservations
      ≡ false
    → (db' : Db) × (reserve_topic_name fuel key base db
        ≡ some (ok (record { name = name; revision = suc (topic_revision key db) }, db')))
      × (is_occupied key name db ≡ false)
      × (exists?
            (is_reservation key (record { name = name; revision = suc (topic_revision key db) }))
            db'.reservations
          ≡ true)
unfolding reserve_topic_name reserved_db
reserve_first_free fuel key base name db found fresh =
    let chosen : choose_name fuel key base 1 (truncate_topic_name base 128) db ≡ some name =
      choose_name-first? fuel key base 1 (truncate_topic_name base 128) db ∙ found in
    let free : is_free key db name ≡ true = first?-test (is_free key db) _ name found in
    (
      reserved_db key name db,
      ground arith,
      unfold is_free in ground arith,
      reserved-is_reservation key name db,
    )
