-- ===== src/Store/Topics.antt =====
-- internal/store/topic_names.go: titles of topics, unique within a chat, reserved while a rename is
-- under way.
use omp_telegram.Common.{
  width, decimal, ℕ, zero, suc, ◌-◌, ℤ, pos, int_eq, Text, text_eq, is_empty, codes, Bool, true,
  false, ◌&&◌, ◌||◌, not, ltb, ◌==◌, if◌then◌else◌, Option, none, some, List, [], ◌∷◌, ◌++◌,
  exists?, first?, update, delete, length, constraint, Result, ok, err,
}
use omp_telegram.Store.Schema.{BindingKey, key_eq, TopicName, ReservationRow, Db}

unfoldable pub truncate_topic_name : Text → ℕ → Text
truncate_topic_name [] units = []
truncate_topic_name (r ∷ name) units =
    let rest = truncate_topic_name name (units - width r) in
    if ltb units (width r) then [] else r ∷ rest

-- " [%d]" at the first attempt, " [%d-%d]" at later ones
unfoldable pub suffix : ℤ → ℕ → Text
unfolding decimal
suffix thread attempt =
    if attempt == 1
    then codes " [" ++ (decimal thread ++ codes "]")
    else codes " [" ++ (decimal thread ++ (codes "-" ++ (decimal (pos attempt) ++ codes "]")))

unfoldable pub candidate : ℤ → Text → ℕ → Text
unfolding suffix truncate_topic_name
candidate thread base attempt =
    truncate_topic_name base (128 - length (suffix thread attempt)) ++ suffix thread attempt

-- bot=? AND chat=? AND thread<>? AND name=?
unfoldable pub is_other : BindingKey → Text → BindingKey → Text → Bool
is_other key name k n =
    int_eq k.bot key.bot
    && int_eq k.chat key.chat
    && not (int_eq k.thread key.thread)
    && text_eq n name

unfoldable pub is_occupied : BindingKey → Text → Db → Bool
unfolding is_other
is_occupied key name db =
    exists? (λ (t : TopicName). is_other key name t.key t.name) db.topic_names
    || exists? (λ (r : ReservationRow). is_other key name r.key r.name) db.reservations

-- The loop, with fuel: `name` is tried, then the candidate of each attempt from `attempt` on.
unfoldable pub choose_name : ℕ → BindingKey → Text → ℕ → Text → Db → Option Text
unfolding candidate is_occupied
choose_name zero key base attempt name db = none
choose_name (suc fuel) key base attempt name db =
    let rest = choose_name fuel key base (suc attempt) (candidate key.thread base attempt) db in
    if is_occupied key name db then rest else some name

pub record TopicNameReservation : Type 0 where
  pub name : Text
  pub revision : ℕ

abbrev pub of_topic : BindingKey → TopicName → Bool
of_topic key t = key_eq t.key key

unfoldable pub topic_revision : BindingKey → Db → ℕ
topic_revision key db = elim (first? (of_topic key) db.topic_names) [
  | none ↦ 0
  | some t ↦ t.revision
]

abbrev pub is_reservation : BindingKey → TopicNameReservation → ReservationRow → Bool
is_reservation key r x =
    key_eq x.key key && text_eq x.name r.name && x.revision == r.revision && x.active

-- INSERT INTO topic_names ... ON CONFLICT DO UPDATE SET revision, with an empty name if it is new
unfoldable pub set_revision : BindingKey → ℕ → List TopicName → List TopicName
set_revision key revision rows =
    if exists? (of_topic key) rows
    then update (of_topic key) (λ t. record t { revision = revision }) rows
    else rows ++ record { key = key; name = []; revision = revision } ∷ []

-- `none` means that the fuel ran out. The primary key of a reservation is its key and its revision.
unfoldable pub reserve_topic_name :
    ℕ → BindingKey → Text → Db → Option (Result (TopicNameReservation × Db))
unfolding choose_name set_revision topic_revision truncate_topic_name
reserve_topic_name fuel key base db =
    elim (choose_name fuel key base 1 (truncate_topic_name base 128) db) [
      | none ↦ none
      | some name ↦
          let revision = suc (topic_revision key db) in
          some (
            if exists? (λ (x : ReservationRow). key_eq x.key key && x.revision == revision)
              db.reservations
            then err constraint
            else ok (
              record { name = name; revision = revision },
              record db {
                topic_names = set_revision key revision db.topic_names;
                reservations =
                    db.reservations
                    ++ record { key = key; name = name; revision = revision; active = true } ∷ [];
              },
            ))
    ]

unfoldable pub observe_topic_name : BindingKey → Text → Db → Db
observe_topic_name key name db = if is_empty name then db else record db {
  topic_names =
      if exists? (of_topic key) db.topic_names
      then update (of_topic key) (λ t. record t { name = name; revision = suc t.revision })
          db.topic_names
      else db.topic_names ++ record { key = key; name = name; revision = 1 } ∷ [];
  reservations = delete (λ x. key_eq x.key key && not x.active) db.reservations;
}

unfoldable pub release_topic_name : BindingKey → TopicNameReservation → Db → Db
release_topic_name key r db = record db {
  reservations = delete (is_reservation key r) db.reservations;
}

unfoldable pub retain_topic_name : BindingKey → TopicNameReservation → Db → Db
retain_topic_name key r db = record db {
  reservations = update (is_reservation key r) (λ x. record x { active = false }) db.reservations;
}

unfoldable pub confirm_known : BindingKey → TopicNameReservation → TopicName → Db → Db
unfolding release_topic_name retain_topic_name
confirm_known key r t db =
    if t.revision == r.revision
    then release_topic_name key r (record db {
      topic_names =
          update (of_topic key) (λ x. record x { name = r.name; revision = suc x.revision })
            db.topic_names;
    })
    else if text_eq t.name r.name
    then release_topic_name key r db
    else retain_topic_name key r db

-- Nothing happens for a request that is not active, or whose topic has no row.
unfoldable pub confirm_topic_name : BindingKey → TopicNameReservation → Db → Db
unfolding confirm_known
confirm_topic_name key r db =
    if exists? (is_reservation key r) db.reservations
    then elim (first? (of_topic key) db.topic_names) [
      | none ↦ db
      | some t ↦ confirm_known key r t db
    ]
    else db
