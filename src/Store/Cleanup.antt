-- ===== src/Store/Cleanup.antt =====
-- Retention in internal/store/store.go: batches that delete settled inputs, outputs and follow-ups older
-- than a cutoff, repeated until a batch is not full. A cancelled context is not modelled.
use omp_telegram.Common.{
  ℕ, zero, suc, ◌+◌, is_positive, is_empty, Text, Bool, ◌&&◌, ◌||◌, not, ltb, ◌==◌, if◌then◌else◌,
  List, [], ◌∷◌, ◌++◌, map, select, exists?, affected, delete, take, length, contains,
}
use omp_telegram.Store.Schema.{
  InboxState, inbox_in, InboxRow, OutboxState, outbox_in, OutboxRow, is_text, ProgressRow,
  Migration, ActionRow, Db,
}
use omp_telegram.Store.Followups.{message_cleanup_batch_size, cleanup_followup_requests}

-- DELETE WHERE id IN (SELECT id ... WHERE p ORDER BY id LIMIT n), on a table in the order of its ids.
module _ {A : Type 0} (id_of : A → ℕ) where
  unfoldable pub batch_ids : ℕ → (A → Bool) → List A → List ℕ
  batch_ids n p rows = map id_of (take n (select p rows))

  abbrev pub in_batch : ℕ → (A → Bool) → List A → A → Bool
  in_batch n p rows x = contains (id_of x) (batch_ids n p rows)

abbrev pub inbox_id_of : InboxRow → ℕ
inbox_id_of r = r.id

abbrev pub outbox_id_of : OutboxRow → ℕ
outbox_id_of o = o.id

-- The states of an input that is settled.
abbrev pub is_settled : InboxState → Bool
is_settled = inbox_in (
    InboxState.done ∷ InboxState.cancelled ∷ InboxState.ignored ∷ InboxState.failed
    ∷ InboxState.uncertain ∷ [])

-- Settled and old, with no preview left and no migration that answers it.
unfoldable pub inbox_expired : ℕ → List ProgressRow → List Migration → InboxRow → Bool
inbox_expired cutoff progress migrations r =
    is_settled r.state
    && not (exists? (λ (p : ProgressRow). p.inbox_id == r.id) progress)
    && ltb r.updated_at cutoff
    && not (exists? (λ (m : Migration). m.inbox_id == r.id) migrations)

unfoldable pub cleanup_inbox_batch : ℕ → Db → ℕ × Db
unfolding inbox_expired batch_ids
cleanup_inbox_batch cutoff db =
    let p =
      in_batch inbox_id_of message_cleanup_batch_size
        (inbox_expired cutoff db.progress db.migrations) db.inbox in
    (affected p db.inbox, record db { inbox = delete p db.inbox })

abbrev pub is_finished : OutboxState → Bool
is_finished = outbox_in (
    OutboxState.done ∷ OutboxState.sent ∷ OutboxState.failed ∷ OutboxState.uncertain
    ∷ OutboxState.cancelled ∷ [])

-- A delivered message whose header or buttons are still to be edited.
unfoldable pub has_pending_edit : OutboxRow → Bool
has_pending_edit o =
    outbox_in (OutboxState.done ∷ []) o.state
    && is_positive o.message_id
    && ((o.header_editable && o.header_pending) || o.actions_pending == 1 || o.actions_pending == 2)

-- Finished and old, with no edit pending, no preview left and no button of it reserved.
unfoldable pub outbox_expired : ℕ → List ProgressRow → List ActionRow → OutboxRow → Bool
unfolding has_pending_edit
outbox_expired cutoff progress actions o =
    is_finished o.state
    && not (has_pending_edit o)
    && ltb o.updated_at cutoff
    && not (exists? (λ (p : ProgressRow). p.inbox_id == o.inbox_id) progress)
    && not (
        exists?
          (λ (a : ActionRow). a.outbox_id == o.id && not a.consumed && not (a.consumed_by == 0))
          actions)

-- The deleted rows' files are returned; the trigger delete_outbox_final_actions drops their buttons.
unfoldable pub cleanup_outbox_batch : ℕ → Db → (ℕ × List Text) × Db
unfolding outbox_expired batch_ids
cleanup_outbox_batch cutoff db =
    let expired = outbox_expired cutoff db.progress db.final_actions in
    let ids = batch_ids outbox_id_of message_cleanup_batch_size expired db.outbox in
    let p = λ (o : OutboxRow). contains o.id ids in
    (
      (
        affected p db.outbox,
        map (λ o. o.path) (select (λ o. p o && not (is_text o.kind)) db.outbox),
      ),
      record db {
        outbox = delete p db.outbox;
        final_actions =
            delete (λ a. exists? (λ o. p o && o.id == a.outbox_id) db.outbox) db.final_actions;
      },
    )

unfoldable pub outbox_attachment_paths : Db → List Text
outbox_attachment_paths db =
    select (λ p. not (is_empty p))
      (map (λ o. o.path) (select (λ o. not (is_text o.kind)) db.outbox))

pub record CleanupResult : Type 0 where
  pub inbox : ℕ
  pub outbox : ℕ
  pub followups : ℕ
  pub attachment_paths : List Text

-- The three loops, each on fuel: the database's own lengths suffice.
unfoldable pub clean_inbox : ℕ → ℕ → ℕ → Db → ℕ × Db
unfolding cleanup_inbox_batch
clean_inbox zero cutoff total db = (total, db)
clean_inbox (suc fuel) cutoff total db =
    let r = cleanup_inbox_batch cutoff db in
    let rest = clean_inbox fuel cutoff (total + r.0) r.1 in
    if ltb r.0 message_cleanup_batch_size then (total + r.0, r.1) else rest

unfoldable pub clean_outbox : ℕ → ℕ → ℕ → List Text → Db → (ℕ × List Text) × Db
unfolding cleanup_outbox_batch
clean_outbox zero cutoff total paths db = ((total, paths), db)
clean_outbox (suc fuel) cutoff total paths db =
    let r = cleanup_outbox_batch cutoff db in
    let count = (r.0).0 in
    let found = paths ++ (r.0).1 in
    let rest = clean_outbox fuel cutoff (total + count) found r.1 in
    if ltb count message_cleanup_batch_size then ((total + count, found), r.1) else rest

unfoldable pub clean_followups : ℕ → ℕ → ℕ → ℕ → Db → ℕ × Db
unfolding cleanup_followup_requests
clean_followups zero now cutoff total db = (total, db)
clean_followups (suc fuel) now cutoff total db =
    let r = cleanup_followup_requests now cutoff db in
    let rest = clean_followups fuel now cutoff (total + r.0) r.1 in
    if ltb r.0 message_cleanup_batch_size then (total + r.0, r.1) else rest

unfoldable pub cleanup_messages : ℕ → ℕ → Db → CleanupResult × Db
unfolding clean_inbox clean_outbox clean_followups
cleanup_messages now cutoff db =
    let i = clean_inbox (suc (length db.inbox)) cutoff 0 db in
    let o = clean_outbox (suc (length (i.1).outbox)) cutoff 0 [] i.1 in
    let f = clean_followups (suc (length (o.1).followups)) now cutoff 0 o.1 in
    (record { inbox = i.0; outbox = (o.0).0; followups = f.0; attachment_paths = (o.0).1 }, f.1)
