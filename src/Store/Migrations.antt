-- ===== src/Store/Migrations.antt =====
-- internal/store/migration.go: the lock that a session migration holds on a conversation, its phases,
-- and the transaction that publishes its target.
use omp_telegram.Common.{
  ℕ, suc, ◌+◌, ℤ, suc_ℤ, int_eq, is_positive, Text, text_eq, is_empty, Bool, true, false, ◌&&◌,
  ◌||◌, not, leb, ◌==◌, if◌then◌else◌, Option, List, [], ◌∷◌, ◌++◌, exists?, first?, select, update,
  delete, map, order_by, int_ltb, inbox_state_transition, stale_binding, migration_locked,
  stale_migration, no_rows, constraint, invalid, Result, ok, ◌>>=◌, ◌>>◌, guard, or_fail,
}
use omp_telegram.Store.Schema.{
  InboxRow, InboxState, inbox_in, BindingKey, key_eq, Binding, HistoryRow, Phase, Migration, Db,
}
use omp_telegram.Store.Inbox
use omp_telegram.Store.Outbox.{new_row, push_row}

-- ASCII letters in lower case; COLLATE NOCASE compares by it.
unfoldable pub lower : ℕ → ℕ
lower c = if leb b'A' c && leb c b'Z' then c + 32 else c

unfoldable pub lower_text : Text → Text
unfolding lower
lower_text = map lower

unfoldable pub nocase_eq : Text → Text → Bool
unfolding lower_text
nocase_eq s t = text_eq (lower_text s) (lower_text t)

unfoldable pub bool_eq : Bool → Bool → Bool
bool_eq true b = b
bool_eq false b = not b

-- Go's == on two `Binding` values
unfoldable pub binding_eq : Binding → Binding → Bool
unfolding bool_eq
binding_eq a b =
    key_eq a.key b.key
    && text_eq a.workspace b.workspace
    && text_eq a.session b.session
    && text_eq a.session_id b.session_id
    && int_eq a.generation b.generation
    && a.last_used_at == b.last_used_at
    && bool_eq a.running b.running
    && bool_eq a.interrupted b.interrupted

abbrev pub of_key : BindingKey → Binding → Bool
of_key key b = key_eq b.key key

abbrev pub locks : BindingKey → Migration → Bool
locks key m = key_eq m.source.key key

unfoldable pub is_locked : BindingKey → Db → Bool
is_locked key db = exists? (locks key) db.migrations

unfoldable pub migration_guard : BindingKey → Db → Result (Unit {0})
unfolding is_locked
migration_guard key db = guard (not (is_locked key db)) migration_locked

-- Another migration of this bot has the file or the session id as its source or its candidate.
unfoldable pub uses_session : ℤ → Text → Text → Migration → Bool
unfolding nocase_eq
uses_session bot file id m =
    int_eq m.source.bot bot
    && ((not (is_empty file) && (text_eq m.source.session file || text_eq m.candidate_file file))
        || (not (is_empty id) && (nocase_eq m.source.session_id id || nocase_eq m.candidate_id id)))

unfoldable pub migration_session_guard : ℤ → Text → Text → Db → Result (Unit {0})
unfolding uses_session
migration_session_guard bot file id db =
    guard (not (exists? (uses_session bot file id) db.migrations)) migration_locked

unfoldable pub migration_phase : Phase → ℕ
migration_phase Phase.prepared = 1
migration_phase Phase.handoff = 2
migration_phase Phase.initialize = 3
migration_phase Phase.verify = 4

unfoldable pub phase_eq : Phase → Phase → Bool
unfolding migration_phase
phase_eq a b = migration_phase a == migration_phase b

unfoldable pub migration : BindingKey → Db → Option Migration
migration key db = first? (locks key) db.migrations

-- ORDER BY chat,thread
abbrev pub before : Migration → Migration → Bool
before a b =
    int_ltb a.source.chat b.source.chat
    || (int_eq a.source.chat b.source.chat && int_ltb a.source.thread b.source.thread)

unfoldable pub pending_migrations : ℤ → Db → List Migration
pending_migrations bot db = order_by before (select (λ m. int_eq m.source.bot bot) db.migrations)

abbrev pub is_valid : Migration → Bool
is_valid m = not (
    is_empty m.id
    || not (is_positive m.source.generation)
    || is_empty m.source.workspace
    || is_empty m.source.session
    || is_empty m.source.session_id
    || m.inbox_id == 0
    || not (phase_eq m.phase Phase.prepared)
    || not (is_empty m.summary_entry_id)
    || not (is_empty m.summary_hash)
    || not (is_empty m.candidate_file)
    || not (is_empty m.candidate_id))

-- The row's key is primary and its id unique; the guards above leave only the id to clash.
unfoldable pub prepare_migration : ℕ → Migration → Db → Result (Unit {0} × Db)
unfolding phase_eq migration_guard migration_session_guard binding_eq
prepare_migration now m db = do
  guard (is_valid m) (invalid "invalid migration")
  migration_guard m.source.key db
  migration_session_guard m.source.bot m.source.session m.source.session_id db
  source ← or_fail (first? (of_key m.source.key) db.bindings) stale_binding
  guard (binding_eq source m.source) stale_binding
  guard (not (exists? (λ i. key_eq i.key source.key) db.startup_intents))
      (invalid "binding has a pending start")
  r ← or_fail (first? (Inbox.has_id m.inbox_id) db.inbox) no_rows
  guard (inbox_in (InboxState.pending ∷ InboxState.submitted ∷ []) r.state) inbox_state_transition
  guard (not (exists? (λ x. text_eq x.id m.id) db.migrations)) constraint
  ok (
    tt,
    record db {
      migrations =
          db.migrations
          ++ record m { created_at = if m.created_at == 0 then now else m.created_at } ∷ [];
    },
  )

unfoldable pub same_migration_source : Migration → Migration → Bool
unfolding binding_eq bool_eq
same_migration_source a b =
    text_eq a.id b.id
    && binding_eq a.source b.source
    && a.inbox_id == b.inbox_id
    && text_eq a.provider b.provider
    && text_eq a.model b.model
    && text_eq a.thinking b.thinking
    && bool_eq a.fast b.fast
    && (a.created_at == b.created_at || b.created_at == 0)

-- `interrupted` is not part of a migration's identity.
unfoldable pub migration_source_cas : Migration → Db → Result (Unit {0})
unfolding binding_eq
migration_source_cas m db = do
  current ← or_fail (first? (of_key m.source.key) db.bindings) stale_binding
  guard (binding_eq (record current { interrupted = m.source.interrupted }) m.source) stale_binding

-- `Phase` has no unknown phase, so the source's test that the expected phase is known always passes.
unfoldable pub is_update : Migration → Phase → Bool
unfolding migration_phase bool_eq
is_update m expected =
    leb (migration_phase expected) (migration_phase m.phase)
    && leb (migration_phase m.phase) (migration_phase expected + 1)
    && bool_eq (is_empty m.candidate_file) (is_empty m.candidate_id)
    && bool_eq (is_empty m.summary_entry_id) (is_empty m.summary_hash)

-- Evidence once recorded is not replaced.
unfoldable pub keeps_evidence : Migration → Migration → Bool
keeps_evidence current m =
    (is_empty current.candidate_file
      || (text_eq current.candidate_file m.candidate_file
          && text_eq current.candidate_id m.candidate_id))
    && (is_empty current.summary_entry_id
        || (text_eq current.summary_entry_id m.summary_entry_id
            && text_eq current.summary_hash m.summary_hash))

abbrev pub discovers : Migration → Migration → Bool
discovers current m = is_empty current.candidate_file && not (is_empty m.candidate_file)

-- A candidate that is found now must not belong to another migration.
unfoldable pub guard_discovery : Migration → Migration → Db → Result (Unit {0})
unfolding migration_session_guard
guard_discovery current m db =
    if discovers current m
    then migration_session_guard m.source.bot m.candidate_file m.candidate_id db
    else ok tt

abbrev pub mark_uncertain : ℕ → ℕ → Db → Db
mark_uncertain now inbox_id db = record db {
  inbox =
      update (Inbox.is_submitted inbox_id)
        (λ r. record r { state = InboxState.uncertain; updated_at = now }) db.inbox;
}

unfoldable pub update_row : Migration → Text → Migration → Migration
update_row m error_kind x = record x {
  phase = m.phase;
  summary_entry_id = m.summary_entry_id;
  summary_hash = m.summary_hash;
  candidate_file = m.candidate_file;
  candidate_id = m.candidate_id;
  error_kind = error_kind;
}

unfoldable pub update_migration : ℕ → Migration → Phase → Db → Result (Unit {0} × Db)
unfolding is_update same_migration_source phase_eq keeps_evidence guard_discovery
    migration_source_cas update_row migration
update_migration now m expected db = do
  guard (is_update m expected) (invalid "invalid migration update")
  current ← or_fail (migration m.source.key db) stale_migration
  guard
      (same_migration_source current m
        && phase_eq current.phase expected
        && keeps_evidence current m)
      stale_migration
  guard_discovery current m db
  migration_source_cas current db
  let error_kind = if discovers current m then current.error_kind else m.error_kind
  let moved = record db {
    migrations = update (λ x. text_eq x.id m.id) (update_row m error_kind) db.migrations;
  }
  ok (tt, if is_empty error_kind then moved else mark_uncertain now current.inbox_id moved)

unfoldable pub fail_migration : ℕ → Text → Text → Db → Result (Migration × Db)
unfolding migration_source_cas
fail_migration now id kind db = do
  guard (not (is_empty id || is_empty kind)) stale_migration
  m ← or_fail (first? (λ x. text_eq x.id id) db.migrations) stale_migration
  migration_source_cas m db
  let failed = record db {
    migrations = update (λ x. text_eq x.id id) (λ x. record x { error_kind = kind }) db.migrations;
  }
  ok (record m { error_kind = kind }, mark_uncertain now m.inbox_id failed)

unfoldable pub is_target : Migration → Binding → Text → Bool
is_target m target notice =
    key_eq target.key m.source.key
    && text_eq target.workspace m.source.workspace
    && int_eq target.generation (suc_ℤ m.source.generation)
    && not (is_empty notice)

unfoldable pub same_evidence : Migration → Migration → Bool
unfolding phase_eq
same_evidence a b =
    phase_eq a.phase b.phase
    && text_eq a.candidate_file b.candidate_file
    && text_eq a.candidate_id b.candidate_id
    && text_eq a.summary_entry_id b.summary_entry_id
    && text_eq a.summary_hash b.summary_hash
    && text_eq a.error_kind b.error_kind

abbrev pub is_candidate : Migration → Binding → Bool
is_candidate current target =
    not (is_empty current.candidate_file)
    && text_eq target.session current.candidate_file
    && text_eq target.session_id current.candidate_id

abbrev pub is_source : Migration → Binding → Bool
is_source current target =
    text_eq target.session current.source.session
    && text_eq target.session_id current.source.session_id

-- A commit needs the verified candidate; a recovery may also go back to the source.
unfoldable pub may_publish : Migration → Binding → Bool → Bool
unfolding phase_eq
may_publish current target recovery =
    if recovery
    then is_candidate current target || is_source current target
    else phase_eq current.phase Phase.verify
      && not (is_empty current.summary_entry_id)
      && not (is_empty current.summary_hash)
      && is_candidate current target

abbrev pub history_row : Binding → HistoryRow
history_row b = record {
  key = b.key;
  workspace = b.workspace;
  session = b.session;
  generation = b.generation;
}

-- INSERT INTO history(...) SELECT ... FROM bindings WHERE bot=? AND chat=? AND thread=?
unfoldable pub keep_history : BindingKey → Db → Db
keep_history key db = record db {
  history = db.history ++ map history_row (select (of_key key) db.bindings);
}

-- The input that a migration answers may still be waiting, or have been given up as uncertain.
abbrev pub is_answerable : ℕ → InboxRow → Bool
is_answerable inbox_id r =
    Inbox.has_id inbox_id r
    && inbox_in (InboxState.pending ∷ InboxState.submitted ∷ InboxState.uncertain ∷ []) r.state

-- What PublishMigration checks and reads: the recorded migration, and the message that the notice answers.
unfoldable pub publishable : Migration → Binding → Text → Bool → Db → Result (Migration × ℤ)
unfolding is_target same_migration_source same_evidence may_publish migration_source_cas migration
publishable m target notice recovery db = do
  guard (is_target m target notice) (invalid "invalid migration target")
  current ← or_fail (migration m.source.key db) stale_migration
  guard (same_migration_source current m && same_evidence current m) stale_migration
  guard (may_publish current target recovery)
      (invalid "migration target is not recorded or verified")
  migration_source_cas current db
  r ← or_fail (first? (is_answerable current.inbox_id) db.inbox) inbox_state_transition
  ok (current, r.reply_to)

-- What it writes: the old binding into the history, the target, no migration, a notice, a settled input.
unfoldable pub publish : ℕ → Migration → Binding → Text → ℤ → Db → Db
unfolding keep_history new_row push_row
publish now current target notice reply_to db =
    let kept = keep_history target.key db in
    push_row
      (new_row now (suc db.outbox_seq) current.inbox_id target.chat target.thread notice reply_to)
      (record kept {
        bindings = update (of_key target.key) (λ b. record target { key = b.key }) kept.bindings;
        migrations = delete (λ x. text_eq x.id current.id) kept.migrations;
        inbox =
            update (Inbox.has_id current.inbox_id)
              (λ x. record x { state = InboxState.done; updated_at = now }) kept.inbox;
      })

unfoldable pub publish_migration :
    ℕ → Migration → Binding → Text → Bool → Db → Result (Unit {0} × Db)
unfolding publishable publish
publish_migration now m target notice recovery db = do
  r ← publishable m target notice recovery db
  ok (tt, publish now r.0 target notice r.1 db)

unfoldable pub commit_migration : ℕ → Migration → Binding → Text → Db → Result (Unit {0} × Db)
unfolding publish_migration
commit_migration now m target notice = publish_migration now m target notice false

unfoldable pub resolve_migration : ℕ → Migration → Binding → Text → Db → Result (Unit {0} × Db)
unfolding publish_migration
resolve_migration now m target notice = publish_migration now m target notice true
