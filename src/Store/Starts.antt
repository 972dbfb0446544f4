-- ===== src/Store/Starts.antt =====
-- Startup intents of internal/store/store.go: the durable record that a conversation is about to be
-- bound to a new or resumed session, and its commit, cancellation and expiry.
use omp_telegram.Common.{
  ℕ, ℤ, suc_ℤ, int_eq, int_ltb, is_positive, is_negative, Bool, false, ◌&&◌, ◌||◌, not, ltb, ◌==◌,
  if◌then◌else◌, none, some, List, [], ◌∷◌, ◌++◌, exists?, first?, select, update, affected, delete,
  map, order_by, no_rows, constraint, invalid, Result, ok, err, ◌>>=◌, ◌>>◌, guard, or_fail,
}
use omp_telegram.Store.Schema.{BindingKey, key_eq, Binding, StartIntent, IntentRow, Db}
use omp_telegram.Store.SessionId.{session_id_from_path}
use omp_telegram.Store.Migrations.{migration_guard, migration_session_guard, of_key, keep_history}
use omp_telegram.Store.Bindings.{upsert_binding, at_generation}

abbrev pub intent_of : BindingKey → IntentRow → Bool
intent_of key i = key_eq i.key key

-- The kind is `new` or `resume` by its type.
abbrev pub is_valid : Binding → StartIntent → Bool
is_valid previous intent = not (
    is_negative previous.generation
    || not (int_eq intent.generation (suc_ℤ previous.generation))
    || not (key_eq intent.key previous.key))

-- A running binding is stopped, if it is still the one that the caller saw.
unfoldable pub stop_previous : Binding → Db → Result Db
stop_previous previous db =
    let p = λ (b : Binding). at_generation previous.key previous.generation b && b.running in
    let stopped : Db = record db {
      bindings = update p (λ b. record b { running = false }) db.bindings;
    } in
    if previous.running
    then (if affected p db.bindings == 1
        then ok stopped
        else err (invalid "startup binding changed"))
    else ok db

-- The WHERE clause of the intent's INSERT.
unfoldable pub is_current : Binding → Db → Bool
is_current previous db =
    if is_positive previous.generation
    then exists? (at_generation previous.key previous.generation) db.bindings
    else not (exists? (of_key previous.key) db.bindings)

unfoldable pub prepare_start : ℕ → Binding → StartIntent → Db → Result (Unit {0} × Db)
unfolding stop_previous is_current migration_guard migration_session_guard
prepare_start now previous intent db = do
  guard (is_valid previous intent) (invalid "invalid startup intent")
  migration_guard previous.key db
  migration_session_guard intent.bot intent.session (session_id_from_path intent.session) db
  stopped ← stop_previous previous db
  guard (is_current previous stopped) (invalid "startup binding changed")
  guard (not (exists? (intent_of intent.key) stopped.startup_intents)) constraint
  ok (
    tt,
    record stopped {
      startup_intents =
          stopped.startup_intents ++ record { intent = intent; created_at = now } ∷ [];
    },
  )

-- The time of last use is the one stored, if there is one.
unfoldable pub last_used : Binding → Db → ℕ
last_used b db = elim (first? (of_key b.key) db.bindings) [
  | none ↦ b.last_used_at
  | some x ↦ x.last_used_at
]

unfoldable pub commit_start : Binding → Db → Result (Unit {0} × Db)
unfolding last_used keep_history upsert_binding
commit_start b db = do
  i ← or_fail (first? (intent_of b.key) db.startup_intents) no_rows
  guard (int_eq i.generation b.generation) (invalid "startup intent changed")
  let kept = keep_history b.key db
  ok (
    tt,
    record kept {
      bindings = upsert_binding (record b { last_used_at = last_used b db }) kept.bindings;
      startup_intents =
          delete (λ x. intent_of b.key x && int_eq x.generation b.generation) kept.startup_intents;
    },
  )

unfoldable pub retire_startup_intents : (IntentRow → Bool) → Db → ℕ × Db
retire_startup_intents p db =
    (affected p db.startup_intents, record db { startup_intents = delete p db.startup_intents })

abbrev pub is_intent : StartIntent → IntentRow → Bool
is_intent intent i = intent_of intent.key i && int_eq i.generation intent.generation

abbrev pub has_expired : ℕ → IntentRow → Bool
has_expired cutoff i = ltb 0 i.created_at && ltb i.created_at cutoff

unfoldable pub cancel_start : StartIntent → Db → Db
unfolding retire_startup_intents
cancel_start intent db = (retire_startup_intents (is_intent intent) db).1

unfoldable pub cleanup_expired_starts : ℕ → Db → ℕ × Db
unfolding retire_startup_intents
cleanup_expired_starts cutoff = retire_startup_intents (has_expired cutoff)

unfoldable pub expire_start : StartIntent → ℕ → Db → Bool × Db
unfolding retire_startup_intents
expire_start intent cutoff db =
    let p = λ (i : IntentRow). is_intent intent i && has_expired cutoff i in
    (not ((retire_startup_intents p db).0 == 0), (retire_startup_intents p db).1)

-- ORDER BY chat,thread
abbrev pub before : IntentRow → IntentRow → Bool
before a b = int_ltb a.chat b.chat || (int_eq a.chat b.chat && int_ltb a.thread b.thread)

unfoldable pub pending_starts : ℤ → Db → List StartIntent
pending_starts bot db =
    map (λ i. i.intent) (order_by before (select (λ i. int_eq i.bot bot) db.startup_intents))
