-- ===== src/Store/Edits.antt =====
-- Edits of a message that Telegram has already shown: the status header of an assistant reply and its
-- action buttons (internal/store/store.go, internal/store/final_actions.go).
-- `actions_pending` is 0 when nothing is to edit, 1 when an edit is due and 2 while one is claimed.
use omp_telegram.Common.{
  ℕ, is_positive, Text, text_eq, Bool, true, false, ◌&&◌, not, ◌==◌, if◌then◌else◌, [], ◌∷◌, first?,
  update, affected, no_rows, Result, ok, ◌>>=◌, ◌>>◌, guard, or_fail,
}
use omp_telegram.Store.Schema.{OutboxState, outbox_in, OutboxRow, is_text, Db}
use omp_telegram.Store.Outbox.{has_id}

-- header=?,header_pending=CASE WHEN header<>? THEN 1 ELSE header_pending END,updated_at=?
unfoldable pub set_header_row : ℕ → Text → OutboxRow → OutboxRow
set_header_row clock header o = record o {
  header = header;
  header_pending = if text_eq o.header header then o.header_pending else true;
  updated_at = clock;
}

unfoldable pub set_assistant_header : ℕ → ℕ → Text → Db → Result (Unit {0} × Db)
unfolding set_header_row
set_assistant_header clock id header db = do
  let p = λ (o : OutboxRow). has_id id o && is_text o.kind && o.header_editable
  guard (affected p db.outbox == 1) no_rows
  ok (tt, record db { outbox = update p (set_header_row clock header) db.outbox })

abbrev pub is_done : OutboxRow → Bool
is_done o = outbox_in (OutboxState.done ∷ []) o.state

-- A header edit is due, and no edit of the message is claimed.
abbrev pub header_due : OutboxRow → Bool
header_due o =
    is_done o
    && o.header_editable
    && o.header_pending
    && is_positive o.message_id
    && not (o.actions_pending == 2)

abbrev pub claim_edit : OutboxRow → OutboxRow
claim_edit o = record o { actions_pending = 2 }

-- UPDATE ... WHERE id=(SELECT ... LIMIT 1) RETURNING: the returned row is the updated one.
unfoldable pub next_assistant_header : Db → Result (OutboxRow × Db)
next_assistant_header db = do
  o ← or_fail (first? header_due db.outbox) no_rows
  ok (claim_edit o, record db { outbox = update (has_id o.id) claim_edit db.outbox })

abbrev pub is_claimed : ℕ → OutboxRow → Bool
is_claimed id o = has_id id o && is_done o && o.actions_pending == 2

unfoldable pub header_delivered_row : Text → Text → OutboxRow → OutboxRow
header_delivered_row header actions o = record o {
  header_pending = if text_eq o.header header then false else o.header_pending;
  actions_pending = if text_eq o.final_actions actions then 0 else 1;
}

unfoldable pub mark_assistant_header_delivered : ℕ → Text → Text → Db → Db
unfolding header_delivered_row
mark_assistant_header_delivered id header actions db = record db {
  outbox =
      update (λ o. is_claimed id o && o.header_editable) (header_delivered_row header actions)
        db.outbox;
}

abbrev pub actions_due : OutboxRow → Bool
actions_due o = is_done o && o.actions_pending == 1 && is_positive o.message_id

-- The returned row is the one selected, before the claim.
unfoldable pub claim_final_action_edit : ℕ → Db → Result (OutboxRow × Db)
claim_final_action_edit clock db = do
  o ← or_fail (first? actions_due db.outbox) no_rows
  let p = λ (x : OutboxRow). has_id o.id x && x.actions_pending == 1
  let f = λ (x : OutboxRow). record x { actions_pending = 2; updated_at = clock }
  ok (o, record db { outbox = update p f db.outbox })

unfoldable pub release_row : OutboxRow → OutboxRow
release_row o = record o { actions_pending = 1 }

unfoldable pub release_assistant_edit : ℕ → Db → Db
unfolding release_row
release_assistant_edit id db = record db { outbox = update (is_claimed id) release_row db.outbox }

unfoldable pub edit_finished_row : Text → OutboxRow → OutboxRow
edit_finished_row snapshot o = record o {
  actions_pending = if text_eq o.final_actions snapshot then 0 else 1;
}

unfoldable pub finish_final_action_edit : ℕ → Text → Db → Db
unfolding edit_finished_row
finish_final_action_edit id snapshot db = record db {
  outbox = update (is_claimed id) (edit_finished_row snapshot) db.outbox;
}
