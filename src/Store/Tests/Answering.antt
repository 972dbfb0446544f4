-- ===== src/Store/Tests/Answering.antt =====
-- Incoming updates and their answers, at concrete inputs.
use omp_telegram.Common.{
  exists?, arith, affected, text_eq, ◌≤◌, ◌<◌, ℤ, pos, Text, codes, ◌≡◌, refl, true, false, ◌&&◌,
  List, [], ◌∷◌, ◌++◌, map, All, some, ok, err, after, first?, contains, invalid,
}
use omp_telegram.Store.Schema.{InboxState, OutboxRow, Db, empty_db}
use omp_telegram.Store.Inbox
use omp_telegram.Store.Inbox.{accept, offset, pending_ids}
use omp_telegram.Store.Inbox.Acceptance.{offset-accept}
use omp_telegram.Store.Inbox.Pages.{waits, contains-pending_ids}
use omp_telegram.Store.InboxLifecycle.{row, Advances}
use omp_telegram.Store.InboxLifecycle.Calls.{
  Call, accepts, submits, completes, restarts, run, run-Advances,
}
use omp_telegram.Store.InboxLifecycle.Redelivery.{accept_again}
use omp_telegram.Store.Replies.{
  Completion, plain_completion, complete_inbox, append_replies, reply_target,
}
use omp_telegram.Store.Completions.{complete_once}
use omp_telegram.Store.ReplyOrder.{IsConsecutive, Waits, LeadsWith, append_in_order}
use omp_telegram.Store.Recovery.{recover}
use omp_telegram.Store.Restart.{IsQuiet, recover-IsQuiet}
use omp_telegram.Store.Followups
use omp_telegram.Store.Followups.{consume_followup_request}
use omp_telegram.Store.Followups.Once.{consume_once}
use omp_telegram.Store.Cleanup.{inbox_expired, cleanup_messages}
use omp_telegram.Store.Retention.{is_needed, cleanup-keeps_input}
use omp_telegram.Store.RetentionDone.{cleanup-expired_input}
use omp_telegram.Store.Tests.Encoding.{counted}
use omp_telegram.Store.Tests.Samples.{bound, migration_of, input, busy, request}
use omp_telegram.Common.{affected}
use omp_telegram.Store.FinalActions.{recover_final_action_reservations}
use omp_telegram.Common.{affected}
use omp_telegram.Common.{text_eq}
use omp_telegram.Common.{int_eq}
use omp_telegram.Store.Schema.{key_eq}
use omp_telegram.Common.{exists?}
use omp_telegram.Common.{affected}

offset-accept_example :
    (5 < offset (accept 10 5 (codes "{}") empty_db))
    × (offset empty_db ≤ offset (accept 10 5 (codes "{}") empty_db))
offset-accept_example = offset-accept 10 5 (codes "{}") empty_db

contains-pending_ids_example :
    contains 6 (pending_ids (5 ∷ 6 ∷ []) (busy InboxState.submitted))
    ≡ (contains 6 (5 ∷ 6 ∷ []) && waits 6 (busy InboxState.submitted).inbox)
contains-pending_ids_example = contains-pending_ids 6 (5 ∷ 6 ∷ []) (busy InboxState.submitted)

abbrev answer : Completion
answer = plain_completion 5 (pos 100) (pos 3) InboxState.done (codes "hi" ∷ codes "bye" ∷ [])

-- An update that is accepted, handed over and answered, across a restart.
abbrev life : List Call
life = accepts 10 5 (codes "{}") ∷ submits 11 5 (pos 9) ∷ completes 12 answer ∷ restarts 13 ∷ []

run-Advances_example : Advances (row 5 empty_db) (row 5 (run counted life empty_db))
run-Advances_example = run-Advances counted 5 life empty_db (tt, (tt, (refl, (tt, tt))))

-- The update is delivered again after all that.
accept_again_example :
    let db' =
      run counted
        (submits 11 5 (pos 9) ∷ completes 12 answer ∷ restarts 13 ∷ [])
        (accept 10 5 (codes "{}") empty_db) in
    (accept 20 5 (codes "x") db').inbox ≡ db'.inbox
accept_again_example =
    accept_again counted 10 20 5 (codes "{}") (codes "x")
      (submits 11 5 (pos 9) ∷ completes 12 answer ∷ restarts 13 ∷ []) empty_db
      (tt, (refl, (tt, tt)))

abbrev answered : Db
answered =
    after (busy InboxState.submitted) (complete_inbox counted 12 answer (busy InboxState.submitted))

answer_fits : complete_inbox counted 12 answer (busy InboxState.submitted) ≡ ok (0, answered)
unfolding complete_inbox first? affected
answer_fits = refl

complete_once_example :
    (complete_inbox counted 13 answer answered ≡ err (invalid "input is not submitted"))
    × (append_replies 13 5 (pos 100) (pos 3) (codes "late" ∷ []) (codes "h") true 1 answered
        ≡ err (invalid "input is not submitted"))
complete_once_example =
    complete_once counted 12 13 answer answer (pos 100) (pos 3) (codes "late" ∷ []) (codes "h") true
      1 (busy InboxState.submitted) answered 0 answer_fits refl refl

abbrev parts : List Text
parts = codes "a" ∷ codes "b" ∷ []

abbrev appended : Db
appended =
    after (busy InboxState.submitted)
      (append_replies 12 5 (pos 100) (pos 3) parts (codes "h") true 2 (busy InboxState.submitted))

append_fits :
    append_replies 12 5 (pos 100) (pos 3) parts (codes "h") true 2 (busy InboxState.submitted)
    ≡ ok (2, appended)
unfolding append_replies first?
append_fits = refl

append_in_order_example :
    (reply_to : ℤ) × (rows : List OutboxRow) × (reply_target 5 (busy InboxState.submitted)
      ≡ some reply_to)
    × (appended.outbox ≡ (busy InboxState.submitted).outbox ++ rows)
    × (map (λ o. o.text) rows ≡ parts)
    × IsConsecutive 2 rows
    × (appended.outbox_seq ≡ 3)
    × All (Waits 5 (pos 100) (pos 3)) rows
    × LeadsWith (codes "h") reply_to rows
append_in_order_example =
    append_in_order 12 5 (pos 100) (pos 3) parts (codes "h") true 2 2 (busy InboxState.submitted)
      appended append_fits

abbrev reopened : Db
reopened = elim (recover counted 99 (busy InboxState.submitted)) [ ok db ↦ db | err e ↦ empty_db ]

reopens : recover counted 99 (busy InboxState.submitted) ≡ ok reopened
unfolding recover recover_final_action_reservations
reopens = refl

recover-IsQuiet_example : IsQuiet reopened
recover-IsQuiet_example = recover-IsQuiet counted 99 (busy InboxState.submitted) reopened reopens

abbrev replied : Db
replied =
    after (busy InboxState.submitted)
      (consume_followup_request 100 request 6 (busy InboxState.submitted))

reply_fits : consume_followup_request 100 request 6 (busy InboxState.submitted) ≡ ok (true, replied)
unfolding consume_followup_request affected text_eq int_eq key_eq exists?
reply_fits = refl

one_request : affected (Followups.has_token (codes "ask")) (busy InboxState.submitted).followups ≤ 1
unfolding affected text_eq empty_db
one_request = omega arith

consume_once_example : consume_followup_request 101 request 5 replied ≡ ok (false, replied)
consume_once_example =
    consume_once 100 101 request 6 5 (busy InboxState.submitted) replied one_request reply_fits

-- An input that is settled and old, but that a migration answers.
abbrev settled_source : Db
settled_source = record (busy InboxState.done) { migrations = migration_of bound ∷ [] }

cleanup-keeps_input_example :
    first? (Inbox.has_id 5) ((cleanup_messages 900 800 settled_source).1).inbox
    ≡ some (input 5 InboxState.done)
unfolding is_needed affected first? exists? empty_db
cleanup-keeps_input_example =
    cleanup-keeps_input 900 800 5 (input 5 InboxState.done) settled_source refl refl refl

cleanup-expired_input_example :
    exists?
      (inbox_expired 800 (busy InboxState.done).progress (busy InboxState.done).migrations)
      ((cleanup_messages 900 800 (busy InboxState.done)).1).inbox
    ≡ false
cleanup-expired_input_example = cleanup-expired_input 900 800 (busy InboxState.done)
