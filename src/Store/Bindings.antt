-- ===== src/Store/Bindings.antt =====
-- Bindings of conversations to sessions in internal/store/store.go: saving, compare-and-set changes by
-- generation, favorites, and the removal of a session's references.
use omp_telegram.Common.{
  ℕ, ℤ, int_eq, int_ltb, Text, text_eq, is_empty, Bool, true, false, ◌&&◌, ◌||◌, not, ◌==◌,
  if◌then◌else◌, Option, none, some, List, [], ◌∷◌, ◌++◌, exists?, first?, select, update, affected,
  delete, map, order_by, stale_binding, migration_locked, session_path_conflict, invalid, Result,
  ok, ◌>>◌, guard,
}
use omp_telegram.Store.Schema.{BindingKey, key_eq, Binding, Favorite, StartIntent, IntentRow, Db}
use omp_telegram.Store.Migrations.{
  is_locked, migration_guard, migration_session_guard, of_key, keep_history, nocase_eq, lower_text,
}

unfoldable pub binding : BindingKey → Db → Option Binding
binding key db = first? (of_key key) db.bindings

-- INSERT ... ON CONFLICT(bot,chat,thread) DO UPDATE SET every other column
unfoldable pub upsert_binding : Binding → List Binding → List Binding
upsert_binding b rows =
    if exists? (of_key b.key) rows
    then update (of_key b.key) (λ x. record b { key = x.key }) rows
    else rows ++ b ∷ []

unfoldable pub save : Binding → Db → Result (Unit {0} × Db)
unfolding migration_guard migration_session_guard keep_history upsert_binding
save b db = do
  migration_guard b.key db
  migration_session_guard b.bot b.session b.session_id db
  let kept = keep_history b.key db
  ok (tt, record kept { bindings = upsert_binding b kept.bindings })

-- bot=? AND chat=? AND thread=? AND generation=?
abbrev pub at_generation : BindingKey → ℤ → Binding → Bool
at_generation key generation b = of_key key b && int_eq b.generation generation

unfoldable pub touch_binding : BindingKey → ℤ → ℕ → Db → Bool × Db
unfolding is_locked
touch_binding key generation used_at db =
    let p = λ (b : Binding). at_generation key generation b && not (is_locked key db) in
    (
      affected p db.bindings == 1,
      record db { bindings = update p (λ b. record b { last_used_at = used_at }) db.bindings },
    )

unfoldable pub set_running : Binding → Bool → Db → Result (Unit {0} × Db)
unfolding is_locked
set_running b running db = do
  let p = λ (x : Binding). at_generation b.key b.generation x && not (is_locked b.key db)
  guard (affected p db.bindings == 1) stale_binding
  ok (tt, record db { bindings = update p (λ x. record x { running = running }) db.bindings })

unfoldable pub set_interrupted : Binding → Bool → Db → Result (Unit {0} × Db)
set_interrupted b interrupted db = do
  let p = at_generation b.key b.generation
  guard (affected p db.bindings == 1) stale_binding
  ok (
    tt,
    record db { bindings = update p (λ x. record x { interrupted = interrupted }) db.bindings },
  )

-- Only a binding of the given generation that is closed, not starting and not migrating is deleted.
unfoldable pub delete_closed_binding : BindingKey → ℤ → Db → Bool × Db
unfolding is_locked
delete_closed_binding key generation db =
    let p = λ (b : Binding).
      at_generation key generation b
      && not b.running
      && not (exists? (λ i. key_eq i.key key) db.startup_intents)
      && not (is_locked key db) in
    if affected p db.bindings == 1
    then (
      true,
      record db {
        bindings = delete p db.bindings;
        history = delete (λ h. key_eq h.key key) db.history;
        favorites = delete (λ f. key_eq f.key key) db.favorites;
      },
    )
    else (false, db)

-- ORDER BY chat,thread
abbrev pub before : Binding → Binding → Bool
before a b = int_ltb a.chat b.chat || (int_eq a.chat b.chat && int_ltb a.thread b.thread)

unfoldable pub running_bindings : ℤ → Db → List Binding
running_bindings bot db = order_by before (select (λ b. int_eq b.bot bot && b.running) db.bindings)

pub record BindingListEntry : Type 0 where
  pub entry_key : BindingKey
  pub entry_binding : Option Binding
  pub entry_intent : Option StartIntent

abbrev pub entry_of : Binding → BindingListEntry
entry_of b = record { entry_key = b.key; entry_binding = some b; entry_intent = none }

-- The map of entries by key: an intent joins its binding's entry, or makes one.
unfoldable pub add_intent : StartIntent → List BindingListEntry → List BindingListEntry
add_intent i entries =
    if exists? (λ e. key_eq e.entry_key i.key) entries
    then update (λ e. key_eq e.entry_key i.key) (λ e. record e { entry_intent = some i }) entries
    else entries ++ record { entry_key = i.key; entry_binding = none; entry_intent = some i } ∷ []

unfoldable pub add_intents : List IntentRow → List BindingListEntry → List BindingListEntry
unfolding add_intent
add_intents [] entries = entries
add_intents (i ∷ rows) entries = add_intents rows (add_intent i.intent entries)

unfoldable pub bindings_for_chat : ℤ → ℤ → Db → List BindingListEntry
unfolding add_intents
bindings_for_chat bot chat db =
    order_by (λ a b. int_ltb a.entry_key.thread b.entry_key.thread)
      (add_intents (select (λ i. int_eq i.bot bot && int_eq i.chat chat) db.startup_intents)
        (map entry_of (select (λ b. int_eq b.bot bot && int_eq b.chat chat) db.bindings)))

unfoldable pub is_favorite : BindingKey → Text → Text → Favorite → Bool
is_favorite key workspace session_id f =
    key_eq f.key key && text_eq f.workspace workspace && text_eq f.session_id session_id

-- The pinned ids of one workspace, in lower case.
unfoldable pub pinned_sessions : BindingKey → Text → Db → List Text
pinned_sessions key workspace db =
    map (λ f. lower_text f.session_id)
      (select (λ f. key_eq f.key key && text_eq f.workspace workspace) db.favorites)

-- The INSERT ... DO NOTHING and the DELETE of one favorite, its session id in lower case.
unfoldable pub change_favorite : BindingKey → Text → Text → Bool → List Favorite → List Favorite
unfolding is_favorite
change_favorite key workspace session_id pinned rows =
    let id = lower_text session_id in
    if pinned
    then (if exists? (is_favorite key workspace id) rows
        then rows
        else rows ++ record { key = key; workspace = workspace; session_id = id } ∷ [])
    else delete (is_favorite key workspace id) rows

unfoldable pub set_pinned_session : BindingKey → Text → Text → Bool → Db → Result (Unit {0} × Db)
unfolding change_favorite
set_pinned_session key workspace session_id pinned db = do
  guard (not (is_empty workspace || is_empty session_id)) (invalid "invalid pinned session")
  ok (tt, record db { favorites = change_favorite key workspace session_id pinned db.favorites })

unfoldable pub set_pinned_session_if_generation :
    BindingKey → ℤ → Text → Text → Bool → Db → Result (Bool × Db)
unfolding change_favorite
set_pinned_session_if_generation key generation workspace session_id pinned db = do
  guard (not (is_empty workspace || is_empty session_id)) (invalid "invalid pinned session")
  let changed = record db {
    favorites = change_favorite key workspace session_id pinned db.favorites;
  }
  elim (first? (of_key key) db.bindings) [
    | none ↦ ok (false, db)
    | some b ↦ if int_eq b.generation generation then ok (true, changed) else ok (false, db)
  ]

-- filepath.IsAbs on Linux
abbrev pub is_absolute : Text → Bool
is_absolute [] = false
is_absolute (c ∷ _) = c == b'/'

-- A binding of this bot to the session, whatever the case of its id.
unfoldable pub refers : ℤ → Text → Binding → Bool
refers bot session_id b = int_eq b.bot bot && nocase_eq b.session_id session_id

unfoldable pub is_migrating : ℤ → Text → Db → Bool
is_migrating bot session_id db =
    exists?
      (λ m.
        int_eq m.source.bot bot
        && (nocase_eq m.source.session_id session_id || nocase_eq m.candidate_id session_id))
      db.migrations

unfoldable pub delete_references : ℤ → Text → Text → Db → Result (ℕ × Db)
unfolding refers is_migrating
delete_references bot session_id missing_file db = do
  guard (not (is_empty session_id)) (invalid "invalid session ID")
  guard (not (is_migrating bot session_id db)) migration_locked
  guard
      (is_empty missing_file
        || not (
            exists? (λ b. refers bot session_id b && not (text_eq b.session missing_file))
              db.bindings))
      session_path_conflict
  let p = refers bot session_id
  ok (
    affected p db.bindings,
    record db {
      history =
          delete
            (λ h.
              int_eq h.key.bot bot
              && not (is_empty h.session)
              && exists? (λ b. p b && text_eq b.session h.session) db.bindings)
            db.history;
      bindings = delete p db.bindings;
      favorites =
          delete (λ f. int_eq f.key.bot bot && nocase_eq f.session_id session_id) db.favorites;
    },
  )

unfoldable pub delete_session_references : ℤ → Text → Db → Result (ℕ × Db)
unfolding delete_references
delete_session_references bot session_id = delete_references bot session_id []

unfoldable pub delete_missing_session_references : ℤ → Text → Text → Db → Result (ℕ × Db)
unfolding delete_references
delete_missing_session_references bot session_id session_file db = do
  guard (is_absolute session_file) (invalid "invalid missing session file")
  delete_references bot session_id session_file db
