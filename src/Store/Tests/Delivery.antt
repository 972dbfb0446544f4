-- ===== src/Store/Tests/Delivery.antt =====
-- Messages on their way to the chat, at concrete inputs.
use omp_telegram.Common.{
  ◌||◌, not, ◌==◌, ℕ, pos, text_eq, codes, ◌≡◌, refl, true, List, [], ◌∷◌, map, All, none, some,
  after, ok, first?, affected, exists?, int_eq, update,
}
use omp_telegram.Store.Schema.{InboxState, OutboxState, OutboxRow, Migration, Db, empty_db}
use omp_telegram.Store.Outbox
use omp_telegram.Store.Outbox.{
  claim_next_output, mark_output_delivered, retry_server_output, enqueue,
}
use omp_telegram.Store.FinalActions.{FinalActionClaim, reserve_final_action}
use omp_telegram.Store.FinalActions.Exclusive.{reserve_once}
use omp_telegram.Store.DeliveryOrder.Calls.{
  Call, enqueues, appends, completes, claims, server_retries, delivers, sets_header, claims_header,
  publishes, others, step, run, Overtakes, run_in_order,
}
use omp_telegram.Store.DeliveryOrder.Others.{accepts, saves, submits, prepares_migration}
use omp_telegram.Store.Edits.{set_assistant_header, next_assistant_header}
use omp_telegram.Store.Replies.{Completion, plain_completion, append_replies, complete_inbox}
use omp_telegram.Store.HeaderSync.{
  Event, new_header, new_actions, claimed, released, header_edited, restarted, Face, delivered,
  history, edits_never_lost,
}
use omp_telegram.Store.Tests.Encoding.{counted}
use omp_telegram.Store.Tests.Samples.{message, busy, topic, bound, migration_of}
use omp_telegram.Store.Schema.{key_eq}
use omp_telegram.Common.{is_positive}
use omp_telegram.Store.Inbox.{submit}
use omp_telegram.Common.{is_negative}
use omp_telegram.Store.Bindings.{save}
use omp_telegram.Store.Inbox.{accept}
use omp_telegram.Common.{is_negative}
use omp_telegram.Store.Inbox.{accept}
use omp_telegram.Store.Migrations.{publish_migration}
use omp_telegram.Common.{suc_ℤ}
use omp_telegram.Common.{is_empty}
use omp_telegram.Store.Migrations.{prepare_migration}
use omp_telegram.Common.{suc_ℤ}
use omp_telegram.Common.{is_empty}
use omp_telegram.Store.Migrations.{prepare_migration}

abbrev answer : Completion
answer = plain_completion 5 (pos 100) (pos 3) InboxState.done (codes "bye" ∷ [])

abbrev move : Migration
move = record (migration_of bound) { inbox_id = 6 }

-- Two conversations. The first message of one is rejected by the server and tried again. The update of the
-- other is accepted, submitted, answered in two parts with a header, and
-- completed. A migration of its session is prepared for another update, and goes back to its source.
abbrev traffic : List Call
traffic =
    enqueues 1 (pos 100) (pos 4) (codes "one")
    ∷ others (accepts 1 5 (codes "{}"))
    ∷ others (saves bound)
    ∷ others (submits 1 5 (pos 9))
    ∷ appends 2 5 (pos 100) (pos 3) (codes "a" ∷ codes "b" ∷ []) (codes "h") true 2
    ∷ claims 2 2
    ∷ server_retries 2 1 30 5
    ∷ claims 3 3
    ∷ delivers 4 2 (pos 55) (codes "h") []
    ∷ sets_header 5 2 (codes "done")
    ∷ claims_header
    ∷ completes 6 answer
    ∷ claims 7 7
    ∷ claims 31 31
    ∷ others (accepts 40 6 (codes "{}"))
    ∷ others (prepares_migration 41 move)
    ∷ publishes 42 move (record bound { generation = pos 2 }) (codes "stays") true
    ∷ claims 43 43
    ∷ []

traffic_states :
    map (λ o. o.state) ((run counted traffic empty_db).outbox)
    ≡ OutboxState.sending ∷ OutboxState.done ∷ OutboxState.sending ∷ OutboxState.pending
      ∷ OutboxState.pending ∷ []
unfolding run step counted empty_db claim_next_output first? mark_output_delivered affected
    retry_server_output enqueue exists? int_eq update complete_inbox append_replies
    next_assistant_header set_assistant_header submit is_negative save accept text_eq is_positive
    publish_migration key_eq suc_ℤ is_empty prepare_migration
traffic_states = refl

-- The edit of the header is claimed, and the update is done.
traffic_header :
    map (λ o. o.actions_pending) ((run counted traffic empty_db).outbox) ≡ 0 ∷ 2 ∷ 0 ∷ 0 ∷ 0 ∷ []
unfolding run step counted empty_db claim_next_output first? mark_output_delivered affected
    retry_server_output enqueue exists? int_eq update complete_inbox append_replies
    next_assistant_header set_assistant_header submit is_negative save accept text_eq is_positive
    publish_migration key_eq suc_ℤ is_empty prepare_migration
traffic_header = refl

run_in_order_example :
    let rows = (run counted traffic empty_db).outbox in
    All (λ b. All (λ a. ¬ Overtakes b a) rows) rows
run_in_order_example = run_in_order counted traffic (
  tt,
  (
    tt,
    (
      tt,
      (tt, (tt, (tt, (tt, (tt, (tt, (tt, (tt, (tt, (tt, (tt, (tt, (tt, (tt, (tt, tt))))))))))))))),
    ),
  ),
)

abbrev first_face : Face
first_face = record { header = codes "working"; actions = [] }

-- The header changes while an edit is in flight, buttons appear, and the store is reopened during an edit.
abbrev edits : List Event
edits =
    new_header 20 (codes "done")
    ∷ claimed
    ∷ new_header 21 (codes "failed")
    ∷ header_edited
    ∷ new_actions (codes "[]")
    ∷ claimed
    ∷ released
    ∷ claimed
    ∷ new_actions (codes "[1]")
    ∷ restarted
    ∷ []

abbrev sent_message : OutboxRow
sent_message = message 1 OutboxState.sending

edits_never_lost_example :
    let m = history edits (delivered 12 (pos 77) first_face sent_message) in
    ((text_eq m.row.header m.tried.header || m.row.header_pending) ≡ true)
    × ((text_eq m.row.final_actions m.tried.actions
          || (not (m.row.actions_pending == 0) || m.given_up))
        ≡ true)
edits_never_lost_example = edits_never_lost 12 (pos 77) first_face sent_message edits refl

abbrev click : ℕ → FinalActionClaim
click id = record {
  token = codes "tok";
  config = codes "cfg";
  inbox_id = id;
  key = topic;
  user = pos 8;
  message_id = pos 77;
  binding = bound;
}

abbrev clicked : Db
clicked =
    after (busy InboxState.submitted) (reserve_final_action (click 6) (busy InboxState.submitted))

click_reserves :
    reserve_final_action (click 6) (busy InboxState.submitted) ≡ ok (some (codes "retry"), clicked)
unfolding reserve_final_action first? text_eq key_eq int_eq exists? is_positive empty_db affected
click_reserves = refl

reserve_once_example : reserve_final_action (click 5) clicked ≡ ok (none, clicked)
reserve_once_example =
    reserve_once (click 6) (click 5) (busy InboxState.submitted) clicked (codes "retry")
      click_reserves refl (λ e. cc)
