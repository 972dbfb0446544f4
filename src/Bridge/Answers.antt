-- ===== src/Bridge/Answers.antt =====
-- What the sender of internal/bridge/bridge.go tells the store of a message, as a table of the Bot API's
-- answers.
use omp_telegram.Common.{
  Result, err, if◌then◌else◌, codes, text_eq, contains, true, Bool, ℕ, ℤ, Text, false, ◌&&◌, not,
  Bool-cases, List, [], ◌∷◌, All, ok, ◌≡◌, refl, inl, inr, arith,
}
use omp_telegram.Telegram.Failures.{ErrorInfo}
use omp_telegram.Store.Schema.{OutboxState, OutboxRow, is_text, Db}
use omp_telegram.Store.Outbox.{retry_server_output}
use omp_telegram.Store.DeliveryOrder.Calls.{Call, IsMade}
use omp_telegram.Bridge.Delivery.{
  World, Outcome, sent, refused, has_extras, next_attempt, delivery_retry_delay_seconds,
  retryable_server_rejection, is_rate_limited,
}

-- What the Bot API's answer means for a message.
pub data Answer : Type 0 where
  accepted : ℤ → Answer
  server_error : ErrorInfo → Answer
  rate_limited : ErrorInfo → Answer
  unclear : Answer
  rejected : Answer

unfoldable pub answer : Outcome → Answer
answer (sent message_id) = accepted message_id
answer (refused info) =
    if info.uncertain
    then unclear
    else if contains info.code (500 ∷ 502 ∷ 503 ∷ 504 ∷ [])
    then server_error info
    else if text_eq info.reason (codes "rate_limited")
    then rate_limited info
    else rejected

-- When a message is tried again.
abbrev pub again_at : World → OutboxRow → ErrorInfo → ℕ
again_at w o info = next_attempt w.sent_at (delivery_retry_delay_seconds o info)

-- The call that settles a message: what was accepted is done, with the header and the buttons it shows
-- where it has any, a server's error and a rate limit are tried again, the former 12 times at most,
-- an unclear end is uncertain, and any other rejection is a failure.
unfoldable pub report : World → OutboxRow → Answer → Call
report w o (accepted message_id) =
    if has_extras o
    then Call.delivers w.clock o.id message_id o.header o.final_actions
    else Call.marks w.clock o.id OutboxState.done
report w o (server_error info) = Call.server_retries w.clock o.id (again_at w o info) 12
report w o (rate_limited info) = Call.retries w.clock o.id (again_at w o info)
report w o unclear = Call.marks w.clock o.id OutboxState.uncertain
report w o rejected = Call.marks w.clock o.id OutboxState.failed

-- The notice in the conversation, which only a file needs.
abbrev pub notice : World → OutboxRow → Text → List Call
notice w o text = if is_text o.kind then [] else Call.enqueues w.clock o.chat o.thread text ∷ []

-- A file that is lost is told of; `gave_up` tells whether a server's error was the last one.
unfoldable pub tell : World → OutboxRow → Bool → Answer → List Call
tell w o gave_up (accepted message_id) = []
tell w o gave_up (server_error info) = if gave_up then notice w o w.failed_notice else []
tell w o gave_up (rate_limited info) = []
tell w o gave_up unclear = notice w o w.uncertain_notice
tell w o gave_up rejected = notice w o w.failed_notice

-- Whether the store says that a retry was the last one.
abbrev pub exhausted : Result ((ℕ × Bool) × Db) → Bool
exhausted (ok r) = (r.0).1
exhausted (err e) = false

-- Whether the message is given up after a server's error.
unfoldable pub gives_up : World → OutboxRow → Answer → Db → Bool
gives_up w o (server_error info) db =
    exhausted (retry_server_output w.clock o.id (again_at w o info) 12 db)
gives_up w o _ db = false

unfoldable pub settling_calls : World → OutboxRow → Bool → Outcome → List Call
unfolding report tell answer
settling_calls w o gave_up outcome = report w o (answer outcome) ∷ tell w o gave_up (answer outcome)

-- The calls of a round that claims `o`.
unfoldable pub round_calls : World → OutboxRow → Bool → List Call
unfolding settling_calls
round_calls w o gave_up = Call.claims w.now w.clock ∷ settling_calls w o gave_up (w.outcome o)

notice-IsMade : (w : World) (o : OutboxRow) (text : Text) → All IsMade (notice w o text)
notice-IsMade w o text = elim (Bool-cases (is_text o.kind)) [
  | inl e ↦ rw e tt
  | inr e ↦ rw e (tt, tt)
]

report-IsMade : (w : World) (o : OutboxRow) (a : Answer) → IsMade (report w o a)
unfolding report
report-IsMade w o (accepted message_id) = elim (Bool-cases (has_extras o)) [
  | inl e ↦ rw e tt
  | inr e ↦ rw e refl
]
report-IsMade w o (server_error info) = tt
report-IsMade w o (rate_limited info) = tt
report-IsMade w o unclear = refl
report-IsMade w o rejected = refl

tell-IsMade :
    (w : World) (o : OutboxRow) (gave_up : Bool) (a : Answer) → All IsMade (tell w o gave_up a)
unfolding tell
tell-IsMade w o gave_up (accepted message_id) = tt
tell-IsMade w o true (server_error info) = notice-IsMade w o w.failed_notice
tell-IsMade w o false (server_error info) = tt
tell-IsMade w o gave_up (rate_limited info) = tt
tell-IsMade w o gave_up unclear = notice-IsMade w o w.uncertain_notice
tell-IsMade w o gave_up rejected = notice-IsMade w o w.failed_notice

pub round_calls-IsMade :
    (w : World) (o : OutboxRow) (gave_up : Bool) → All IsMade (round_calls w o gave_up)
unfolding round_calls settling_calls
round_calls-IsMade w o gave_up =
    (tt, (report-IsMade w o (answer (w.outcome o)), tell-IsMade w o gave_up (answer (w.outcome o))))

-- The source's order of the tests gives the same answers.
pub server_answer :
    (info : ErrorInfo)
    → retryable_server_rejection info ≡ true
    → answer (refused info) ≡ server_error info
unfolding answer retryable_server_rejection
server_answer info h = ground arith

pub limited_answer :
    (info : ErrorInfo)
    → retryable_server_rejection info ≡ false
    → (is_rate_limited info && not info.uncertain) ≡ true
    → answer (refused info) ≡ rate_limited info
unfolding answer retryable_server_rejection
limited_answer info h r = ground arith

pub unclear_answer : (info : ErrorInfo) → info.uncertain ≡ true → answer (refused info) ≡ unclear
unfolding answer
unclear_answer info u = rw u refl

pub rejected_answer :
    (info : ErrorInfo)
    → retryable_server_rejection info ≡ false
    → (is_rate_limited info && not info.uncertain) ≡ false
    → info.uncertain ≡ false
    → answer (refused info) ≡ rejected
unfolding answer retryable_server_rejection
rejected_answer info h r u = ground arith
