-- ===== src/Store/Outbox.antt =====
-- The outbox of internal/store/store.go: Telegram messages queued for delivery, the claim that a
-- sender takes on one of them, and the status header that is edited after delivery.
use omp_telegram.Common.{
  ℕ, suc, ℤ, pos, int_eq, Text, text_eq, Bool, false, ◌&&◌, not, ltb, leb, ◌==◌, if◌then◌else◌,
  Option, none, some, List, [], ◌∷◌, ◌++◌, exists?, first?, update, affected,
  outbox_state_transition, no_rows, invalid, Result, ok, ◌>>=◌, ◌>>◌, guard, or_fail,
}
use omp_telegram.Store.Schema.{OutboxState, outbox_in, OutboxRow, Kind, is_text, Db}

abbrev pub has_id : ℕ → OutboxRow → Bool
has_id id o = o.id == id

-- A row as INSERT makes it with the columns that every caller gives, at the schema's defaults.
unfoldable pub new_row : ℕ → ℕ → ℕ → ℤ → ℤ → Text → ℤ → OutboxRow
new_row now id inbox_id chat thread text reply_to = record {
  id = id;
  inbox_id = inbox_id;
  chat = chat;
  thread = thread;
  text = text;
  state = OutboxState.pending;
  reply_to = reply_to;
  kind = Kind.text;
  path = [];
  name = [];
  created_at = now;
  updated_at = now;
  next_attempt_at = now;
  attempt_count = 0;
  server_retry_count = 0;
  header = [];
  message_id = pos 0;
  header_pending = false;
  header_editable = false;
  assistant_body = false;
  final_actions = [];
  actions_pending = 0;
}

-- AUTOINCREMENT: the next id is above every id ever given out, so the row goes to the end.
unfoldable pub push_row : OutboxRow → Db → Db
push_row o db = record db { outbox = db.outbox ++ o ∷ []; outbox_seq = suc db.outbox_seq }

unfoldable pub enqueue : ℕ → ℤ → ℤ → Text → Db → Db
unfolding new_row push_row
enqueue now chat thread text db =
    push_row (new_row now (suc db.outbox_seq) 0 chat thread text (pos 0)) db

unfoldable pub enqueue_attachment :
    ℕ → ℤ → ℤ → Kind → Text → Text → Text → Db → Result (Unit {0} × Db)
unfolding new_row push_row
enqueue_attachment now chat thread kind path name caption db = do
  guard (not (is_text kind)) (invalid "unsupported attachment kind")
  let o = new_row now (suc db.outbox_seq) 0 chat thread caption (pos 0)
  ok (tt, push_row (record o { kind = kind; path = path; name = name }) db)

-- chat IS ? AND thread IS ?
unfoldable pub same_conversation : ℤ → ℤ → OutboxRow → Bool
same_conversation chat thread o = int_eq o.chat chat && int_eq o.thread thread

abbrev pub is_active : OutboxRow → Bool
is_active o = outbox_in (OutboxState.pending ∷ OutboxState.sending ∷ []) o.state

unfoldable pub next_output : Db → Option OutboxRow
next_output db = first? (λ o. outbox_in (OutboxState.pending ∷ []) o.state) db.outbox

unfoldable pub has_pending_outputs : ℤ → ℤ → Db → Bool
unfolding same_conversation
has_pending_outputs chat thread db =
    exists? (λ o. same_conversation chat thread o && is_active o) db.outbox

-- Another row of the candidate's conversation is being sent.
unfoldable pub has_active : OutboxRow → List OutboxRow → Bool
unfolding same_conversation
has_active c =
    exists?
      (λ o. same_conversation c.chat c.thread o && outbox_in (OutboxState.sending ∷ []) o.state)

-- An older row of the candidate's conversation is still queued or being sent.
unfoldable pub has_earlier : OutboxRow → List OutboxRow → Bool
unfolding same_conversation
has_earlier c = exists? (λ o. same_conversation c.chat c.thread o && ltb o.id c.id && is_active o)

-- The WHERE clause of the claim's query.
unfoldable pub is_claimable : ℕ → List OutboxRow → OutboxRow → Bool
unfolding has_active has_earlier
is_claimable now rows c =
    outbox_in (OutboxState.pending ∷ []) c.state
    && leb c.next_attempt_at now
    && not (has_active c rows)
    && not (has_earlier c rows)

unfoldable pub claim_row : ℕ → OutboxRow → OutboxRow
claim_row clock o = record o {
  state = OutboxState.sending;
  attempt_count = suc o.attempt_count;
  updated_at = clock;
}

abbrev pub is_pending : ℕ → OutboxRow → Bool
is_pending id o = has_id id o && outbox_in (OutboxState.pending ∷ []) o.state

abbrev pub is_sending : ℕ → OutboxRow → Bool
is_sending id o = has_id id o && outbox_in (OutboxState.sending ∷ []) o.state

-- An UPDATE of the outbox that must change one row.
unfoldable pub change_one :
    (OutboxRow → Bool) → (OutboxRow → OutboxRow) → Db → Result (Unit {0} × Db)
change_one p f db = do
  guard (affected p db.outbox == 1) outbox_state_transition
  ok (tt, record db { outbox = update p f db.outbox })

-- `now` is the caller's, `clock` the time of the UPDATE. The row is returned with its new count of attempts.
unfoldable pub claim_next_output : ℕ → ℕ → Db → Result (OutboxRow × Db)
unfolding is_claimable claim_row change_one
claim_next_output now clock db = do
  o ← or_fail (first? (is_claimable now db.outbox) db.outbox) no_rows
  r ← change_one (is_pending o.id) (claim_row clock) db
  ok (record o { attempt_count = suc o.attempt_count }, r.1)

unfoldable pub retry_output : ℕ → ℕ → ℕ → Db → Result (Unit {0} × Db)
unfolding change_one
retry_output clock id next_attempt_at = change_one (is_sending id) λ o. record o {
  state = OutboxState.pending;
  next_attempt_at = next_attempt_at;
  updated_at = clock;
}

unfoldable pub server_retry_row : ℕ → ℕ → ℕ → Bool → OutboxRow → OutboxRow
server_retry_row clock count next_attempt_at exhausted o = record o {
  state = if exhausted then OutboxState.failed else OutboxState.pending;
  server_retry_count = count;
  next_attempt_at = if exhausted then 0 else next_attempt_at;
  updated_at = clock;
}

-- Returns the new count and whether the output has failed for good. A limit below 1 is refused.
unfoldable pub retry_server_output : ℕ → ℕ → ℕ → ℕ → Db → Result ((ℕ × Bool) × Db)
unfolding server_retry_row change_one
retry_server_output clock id next_attempt_at max_attempts db = do
  guard (leb 1 max_attempts) (invalid "server retry limit must be positive")
  o ← or_fail (first? (is_sending id) db.outbox) outbox_state_transition
  let count = suc o.server_retry_count
  let exhausted = leb max_attempts count
  r ← change_one (is_sending id) (server_retry_row clock count next_attempt_at exhausted) db
  ok ((count, exhausted), r.1)

-- The states that `MarkOutput` lets a row leave for each target.
unfoldable pub mark_expected : OutboxState → Option (List OutboxState)
mark_expected OutboxState.sending = some (OutboxState.pending ∷ [])
mark_expected OutboxState.done = some (OutboxState.sending ∷ [])
mark_expected OutboxState.failed = some (OutboxState.sending ∷ [])
mark_expected OutboxState.uncertain = some (OutboxState.sending ∷ [])
mark_expected OutboxState.cancelled = some (OutboxState.sending ∷ [])
mark_expected OutboxState.sent = some (OutboxState.sending ∷ [])
mark_expected OutboxState.pending = none

unfoldable pub mark_output : ℕ → ℕ → OutboxState → Db → Result (Unit {0} × Db)
unfolding mark_expected change_one
mark_output clock id state db = do
  expected ← or_fail (mark_expected state) outbox_state_transition
  change_one (λ o. has_id id o && outbox_in expected o.state)
      (λ o. record o { state = state; next_attempt_at = 0; updated_at = clock }) db

unfoldable pub delivered_row : ℕ → ℤ → Text → Text → OutboxRow → OutboxRow
delivered_row clock message_id sent_header markup o = record o {
  state = OutboxState.done;
  message_id = message_id;
  header_pending = o.header_editable && not (text_eq o.header sent_header);
  actions_pending = if text_eq o.final_actions markup then 0 else 1;
  next_attempt_at = 0;
  updated_at = clock;
}

unfoldable pub mark_output_delivered : ℕ → ℕ → ℤ → Text → Text → Db → Result (Unit {0} × Db)
unfolding delivered_row change_one
mark_output_delivered clock id message_id sent_header markup =
    change_one (is_sending id) (delivered_row clock message_id sent_header markup)
