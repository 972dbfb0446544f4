-- ===== src/Bridge/Tests.antt =====
-- Rounds of the sender in internal/bridge/bridge.go on a small store.
use omp_telegram.Common.{
  ℕ, text_eq, Text, pos, codes, true, false, All, List, [], ◌∷◌, map, none, some, ltb,
  if◌then◌else◌, ◌≤◌, ok, ◌≡◌, refl,
}
use omp_telegram.Telegram.Failures.{ErrorInfo, classify_error}
use Prim.Native.Nat.{◌*◌}
use omp_telegram.Bridge.Exclusion.{Exclusive}
use omp_telegram.Bridge.Holders.{Step, take_steps, no_claims, holders_apart}
use omp_telegram.Bridge.Schedule.{delay_doubles}
use omp_telegram.Store.Schema.{InboxState, OutboxState, OutboxRow, Db, empty_db}
use omp_telegram.Store.Outbox.{enqueue, new_row}
use omp_telegram.Store.DeliveryOrder.Calls.{Call, step, run, Overtakes}
use omp_telegram.Store.DeliveryOrder.Others.{accepts, submits, sets_progress}
use omp_telegram.Store.Replies.{Completion, plain_completion}
use omp_telegram.Store.Tests.Encoding.{counted}
use omp_telegram.Bridge.Delivery.{
  World, sent, refused, deleted, deliver_round, backoff, delivery_retry_delay_seconds,
  retryable_server_rejection,
}
use omp_telegram.Bridge.Settling.{IsSettled, SameOutbox}
use omp_telegram.Bridge.Settlement.{deliver_round-IsSettled}
use omp_telegram.Bridge.Answers.{answer, gives_up, round_calls}
use omp_telegram.Bridge.Simulation.{deliver_round-calls}
use omp_telegram.Bridge.Rounds.{Event, call, round, play, play_in_order}
use omp_telegram.Common.{first?}
use omp_telegram.Common.{exists?}
use omp_telegram.Common.{int_eq}
use omp_telegram.Common.{affected}
use omp_telegram.Common.{update}
use omp_telegram.Common.{first?}
use omp_telegram.Common.{exists?}
use omp_telegram.Common.{int_eq}
use omp_telegram.Common.{affected}
use omp_telegram.Common.{update}
use omp_telegram.Common.{delete}
use omp_telegram.Common.{delete}
use omp_telegram.Store.Replies.{complete_inbox}
use omp_telegram.Store.Replies.{append_replies}
use omp_telegram.Store.Progress.{set_progress_message}
use omp_telegram.Common.{is_positive}
use omp_telegram.Store.Inbox.{submit}
use omp_telegram.Common.{is_negative}
use omp_telegram.Store.Inbox.{accept}
use omp_telegram.Common.{order_by}
use omp_telegram.Common.{select}

abbrev unavailable : ErrorInfo
unavailable = record {
  code = 503;
  reason = codes "api_error";
  retry_after = pos 0;
  uncertain = false;
}

-- The Bot API is down.
abbrev down : World
down = record {
  now = 50;
  clock = 50;
  sent_at = 52;
  outcome = λ o. refused unavailable;
  deletion = λ m. deleted;
  chats = λ raw. none;
  failed_notice = codes "not sent";
  uncertain_notice = codes "perhaps sent";
}

abbrev up : World
up = record {
  now = 60;
  clock = 60;
  sent_at = 61;
  outcome = λ o. sent (pos 7);
  deletion = λ m. deleted;
  chats = λ raw. none;
  failed_notice = codes "not sent";
  uncertain_notice = codes "perhaps sent";
}

abbrev queue : Db
queue = enqueue 10 (pos 5) (pos 0) (codes "hello") empty_db

-- The message as the sender claims it, and as the server's rejection leaves it.
abbrev claimed_row : OutboxRow
claimed_row = record (new_row 10 1 0 (pos 5) (pos 0) (codes "hello") (pos 0)) { attempt_count = 1 }

abbrev waiting : Db
waiting = record empty_db {
  outbox =
      record claimed_row { server_retry_count = 1; next_attempt_at = 53; updated_at = 50 } ∷ [];
  outbox_seq = 1;
}

retried : deliver_round down queue ≡ ok (claimed_row, waiting)
unfolding deliver_round first? empty_db exists? int_eq affected update
retried = refl

deliver_round-IsSettled_example : IsSettled 1 waiting
unfolding new_row
deliver_round-IsSettled_example = deliver_round-IsSettled down queue waiting claimed_row retried

deliver_round-calls_example :
    let claimed = step counted (Call.claims 50 50) queue in
    SameOutbox waiting (
      run counted
        (round_calls down claimed_row
          (gives_up down claimed_row (answer (refused unavailable)) claimed))
        queue)
deliver_round-calls_example = deliver_round-calls counted down queue waiting claimed_row retried

abbrev answered : Completion
answered = plain_completion 5 (pos 100) (pos 3) InboxState.done (codes "bye" ∷ [])

-- An update is accepted and answered in two parts with a header, while a message of another conversation is
-- rejected by the server, then sent. Each round sends what it can.
abbrev events : List Event
events =
    call (Call.enqueues 10 (pos 5) (pos 0) (codes "hello"))
    ∷ call (Call.others (accepts 11 5 (codes "{}")))
    ∷ call (Call.others (submits 12 5 (pos 9)))
    ∷ call (Call.others (sets_progress 5 (pos 100) (pos 70)))
    ∷ call (Call.appends 13 5 (pos 100) (pos 3) (codes "a" ∷ codes "b" ∷ []) (codes "h") true 2)
    ∷ round down
    ∷ round up
    ∷ call (Call.completes 14 answered)
    ∷ round up
    ∷ round up
    ∷ []

events_sent :
    map (λ o. o.state) ((play counted events empty_db).outbox)
    ≡ OutboxState.done ∷ OutboxState.done ∷ OutboxState.done ∷ OutboxState.pending ∷ []
unfolding play first? empty_db exists? int_eq affected update complete_inbox append_replies
    set_progress_message is_positive submit is_negative accept order_by select
events_sent = refl

play_in_order_example :
    let rows = (play counted events empty_db).outbox in
    All (λ b. All (λ a. ¬ Overtakes b a) rows) rows
play_in_order_example =
    play_in_order counted events (tt, (tt, (tt, (tt, (tt, (tt, (tt, (tt, (tt, (tt, tt))))))))))

-- The sixth attempt waits for 32 seconds, and a late one for 5 minutes.
sixth_delay : backoff 6 ≡ 32
unfolding backoff
sixth_delay = refl

late_delay : backoff 40 ≡ 300
unfolding backoff
late_delay = refl

delay_doubles_example :
    let delay = λ (count : ℕ).
      delivery_retry_delay_seconds
        (record claimed_row { server_retry_count = count })
        unavailable in
    (delay 0 ≡ 1)
    × (delay 9 ≡ (if ltb 300 (delay 8 * 2) then 300 else delay 8 * 2))
    × (1 ≤ delay 8)
    × (delay 8 ≤ 300)
unfolding retryable_server_rejection text_eq
delay_doubles_example = delay_doubles 8 claimed_row unavailable refl refl

-- A failure that carries neither an APIError nor a deliveryError counts as uncertain.
lost_connection :
    (classify_error
      (λ s. s)
      (some (record {
        cancelled = false;
        deadline_exceeded = false;
        delivery = none;
        api = none;
        reason = some (codes "transport_failed");
        times_out = true;
      }))).uncertain
    ≡ true
unfolding classify_error
lost_connection = refl

-- Two workers and one session: the second cannot claim it, in another case either, until the first lets go.
abbrev first_id : Text
first_id = codes "abcdef12"

abbrev steps : List Step
steps =
    Step.claims (some []) 1 (codes "/a.jsonl") first_id
    ∷ Step.claims (some []) 2 (codes "/b.jsonl") (codes "ABCDEF12")
    ∷ Step.exports (some []) 1 first_id
    ∷ Step.deletes (some []) (λ w. true) 2 first_id
    ∷ []

first_holds : map (λ s. s.owner) ((take_steps steps no_claims).sessions) ≡ 1 ∷ []
unfolding take_steps exists? delete
first_holds = refl

none_deletes : (take_steps steps no_claims).deletes ≡ []
unfolding take_steps exists? delete
none_deletes = refl

holders_apart_example : Exclusive (take_steps steps no_claims)
holders_apart_example = holders_apart steps
