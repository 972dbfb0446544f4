-- ===== src/Bridge/Delivery.antt =====
-- The sender of internal/bridge/bridge.go: one round of `deliver`, from the claim of a message on, and its
-- schedule of retries.
use omp_telegram.Common.{
  ℕ, zero, suc, ◌+◌, ◌-◌, ℤ, pos, negsuc, is_zero, Text, codes, text_eq, is_empty, Bool, ◌&&◌, ◌||◌,
  not, ltb, leb, ◌==◌, if◌then◌else◌, Option, none, some, List, [], ◌∷◌, Result, ok, ◌>>=◌,
}
use Prim.Native.Nat.{◌*◌}
use omp_telegram.Telegram.Failures.{ErrorInfo}
use omp_telegram.Store.Schema.{OutboxState, OutboxRow, is_text, Db}
use omp_telegram.Store.Outbox.{
  claim_next_output, retry_output, retry_server_output, mark_output, mark_output_delivered, enqueue,
}
use omp_telegram.Store.PreviewChats.{UpdateChats}
use omp_telegram.Store.Progress.{
  ProgressMessage, completed_progress_messages, clear_progress_message,
}

abbrev pub max_server_retry_delay_seconds : ℕ
max_server_retry_delay_seconds = 300

abbrev pub max_server_delivery_attempts : ℕ
max_server_delivery_attempts = 12

-- maxInt64
abbrev pub max_int64 : ℕ
max_int64 = 9223372036854775807

unfoldable pub retryable_server_rejection : ErrorInfo → Bool
retryable_server_rejection info =
    not (info.uncertain)
    && (info.code == 500 || info.code == 502 || info.code == 503 || info.code == 504)

abbrev pub is_rate_limited : ErrorInfo → Bool
is_rate_limited info = text_eq (info.reason) (codes "rate_limited")

-- The loop of deliveryRetryDelaySeconds, over the attempts that are left.
unfoldable pub double_delay : ℕ → ℕ → ℕ
double_delay zero delay = delay
double_delay (suc attempts) delay =
    let doubled = double_delay attempts (delay * 2) in
    if ltb delay max_server_retry_delay_seconds then doubled else delay

-- The delay before the attempt with this count.
unfoldable pub backoff : ℕ → ℕ
unfolding double_delay
backoff attempt_count =
    let delay = double_delay (attempt_count - 1) 1 in
    if ltb max_server_retry_delay_seconds delay then max_server_retry_delay_seconds else delay

-- A RetryAfter that is positive.
abbrev pub retry_after_or_one : ℤ → ℕ
retry_after_or_one (pos n) = if ltb 0 n then n else 1
retry_after_or_one (negsuc n) = 1

unfoldable pub delivery_retry_delay_seconds : OutboxRow → ErrorInfo → ℕ
unfolding text_eq backoff retryable_server_rejection
delivery_retry_delay_seconds o info =
    if is_rate_limited info
    then retry_after_or_one (info.retry_after)
    else backoff
        (if retryable_server_rejection info then o.server_retry_count + 1 else o.attempt_count)

-- The saturating sum of the time and the delay.
unfoldable pub next_attempt : ℕ → ℕ → ℕ
next_attempt now delay = if ltb (max_int64 - now) delay then max_int64 else now + delay

-- What the Bot API did with a message: the id it was sent with (0 for a file), or why it was not.
pub data Outcome : Type 0 where
  sent : ℤ → Outcome
  refused : ErrorInfo → Outcome

-- What a deletion of a preview did.
pub data Deletion : Type 0 where
  deleted : Deletion
  undeleted : ErrorInfo → Deletion

-- A rejection that no retry would change.
abbrev pub is_permanent : ErrorInfo → Bool
is_permanent info =
    not (info.uncertain) && leb 400 (info.code) && ltb (info.code) 500 && not (info.code == 429)

-- deleteProgressMessage, while the context lives
unfoldable pub delete_progress_message : Deletion → ProgressMessage → Db → Db
unfolding is_zero clear_progress_message
delete_progress_message deletion m db =
    let cleared = clear_progress_message (m.inbox_id) (m.message_id) db in
    if is_zero (m.message_id) then db else elim deletion [
      | deleted ↦ cleared
      | undeleted info ↦ if is_permanent info then cleared else db
    ]

-- The world that a round meets, with the chats that JSON gives for a raw update: the time of its claim, the clock of each call, the time after the send, the Bot API's answers, the two notices.
pub record World : Type 0 where
  pub now : ℕ
  pub clock : ℕ
  pub sent_at : ℕ
  pub outcome : OutboxRow → Outcome
  pub deletion : ProgressMessage → Deletion
  pub chats : UpdateChats
  pub failed_notice : Text
  pub uncertain_notice : Text

-- Whether delivery is recorded with the header and the buttons that were shown.
abbrev pub has_extras : OutboxRow → Bool
has_extras o = o.header_editable || o.assistant_body || not (is_empty (o.final_actions))

module _ (w : World) where
  unfoldable pub delete_previews : List ProgressMessage → Db → Db
  unfolding delete_progress_message
  delete_previews [] db = db
  delete_previews (m ∷ messages) db =
      delete_previews messages (delete_progress_message (w.deletion m) m db)

  unfoldable pub cleanup_delivered_progress : ℕ → Db → Db
  unfolding delete_previews completed_progress_messages
  cleanup_delivered_progress inbox_id db =
      let completed = completed_progress_messages w.chats inbox_id db in
      delete_previews (completed.0) (completed.1)

  -- The notice for a file that was not sent.
  unfoldable pub failure_notice : OutboxRow → OutboxState → Option Text
  failure_notice o state = if is_text (o.kind) then none else elim state [
    | OutboxState.done ↦ none
    | OutboxState.uncertain ↦ some (w.uncertain_notice)
    | _ ↦ some (w.failed_notice)
  ]

  unfoldable pub clean_after : OutboxRow → Db → Db
  unfolding cleanup_delivered_progress
  clean_after o db = if o.inbox_id == 0 then db else cleanup_delivered_progress (o.inbox_id) db

  -- After the row is settled: the previews of its update, and the notice.
  unfoldable pub after_settled : OutboxRow → OutboxState → Db → Db
  unfolding clean_after failure_notice enqueue
  after_settled o state db =
      let cleaned = clean_after o db in
      elim (failure_notice o state) [
        | none ↦ cleaned
        | some text ↦ enqueue (w.clock) (o.chat) (o.thread) text cleaned
      ]

  unfoldable pub settle_sent : OutboxRow → ℤ → Db → Result Db
  unfolding mark_output_delivered mark_output after_settled is_empty
  settle_sent o message_id db = do
    r ←
        if has_extras o
        then mark_output_delivered (w.clock) (o.id) message_id (o.header) (o.final_actions) db
        else mark_output (w.clock) (o.id) OutboxState.done db
    ok (after_settled o OutboxState.done (r.1))

  unfoldable pub settle_lost : OutboxRow → OutboxState → Db → Result Db
  unfolding mark_output after_settled
  settle_lost o state db = do
    r ← mark_output (w.clock) (o.id) state db
    ok (after_settled o state (r.1))

  -- The retry of a server's rejection, which gives up after the last attempt.
  unfoldable pub retry_or_fail : OutboxRow → ℕ → Db → Result Db
  unfolding retry_server_output after_settled
  retry_or_fail o at db = do
    r ← retry_server_output (w.clock) (o.id) at max_server_delivery_attempts db
    ok (if (r.0).1 then after_settled o OutboxState.failed (r.1) else r.1)

  unfoldable pub retry_later : OutboxRow → ℕ → Db → Result Db
  unfolding retry_output
  retry_later o at db = do r ← retry_output (w.clock) (o.id) at db; ok (r.1)

  unfoldable pub settle_refused : OutboxRow → ErrorInfo → Db → Result Db
  unfolding retry_or_fail retry_later settle_lost delivery_retry_delay_seconds next_attempt
      retryable_server_rejection text_eq
  settle_refused o info db =
      let at = next_attempt (w.sent_at) (delivery_retry_delay_seconds o info) in
      if retryable_server_rejection info
      then retry_or_fail o at db
      else if is_rate_limited info && not (info.uncertain)
      then retry_later o at db
      else settle_lost o (if info.uncertain then OutboxState.uncertain else OutboxState.failed) db

  unfoldable pub settle : OutboxRow → Outcome → Db → Result Db
  unfolding settle_sent settle_refused
  settle o (sent message_id) db = settle_sent o message_id db
  settle o (refused info) db = settle_refused o info db

  -- A round of `deliver` that finds a message to claim.
  unfoldable pub deliver_round : Db → Result (OutboxRow × Db)
  unfolding claim_next_output settle
  deliver_round db = do
    claimed ← claim_next_output (w.now) (w.clock) db
    db' ← settle (claimed.0) (w.outcome (claimed.0)) (claimed.1)
    ok (claimed.0, db')
