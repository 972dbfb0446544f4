-- ===== src/Store/DeliveryOrder/Calls.antt =====
-- A history of the store: any sequence of its calls on the outbox and of those that fill the inbox, the
-- bindings, the migrations and the rest. What a call returns, and whether it fails, makes no
-- difference to the order of delivery.
use omp_telegram.Common.{
  ℕ, ◌<◌, ℤ, Text, ◌≡◌, inl, inr, Bool, true, false, List, [], ◌∷◌, All, All-const, All-map,
  All-exists?, Bool-cases, Result, ok, err, after, Holds-after, arith, Result-cases,
}
use omp_telegram.Store.Schema.{
  OutboxState, outbox_in, OutboxRow, Kind, Binding, Migration, Db, empty_db,
}
use omp_telegram.Store.Outbox.{
  same_conversation, is_active, has_earlier, claim_next_output, enqueue, enqueue_attachment,
  retry_output, retry_server_output, mark_output, mark_output_delivered,
}
use omp_telegram.Store.Edits.{
  set_assistant_header, next_assistant_header, mark_assistant_header_delivered,
  claim_final_action_edit, release_assistant_edit, finish_final_action_edit,
}
use omp_telegram.Store.FinalActions.{Json, consume_final_action}
use omp_telegram.Store.Replies.{append_replies, Completion, complete_inbox}
use omp_telegram.Store.Migrations.{publish_migration}
use omp_telegram.Store.Cleanup.{cleanup_outbox_batch}
use omp_telegram.Store.Recovery.{recover}
use omp_telegram.Store.DeliveryOrder.{being_sent, InOrder, IsOrdered}
use omp_telegram.Store.DeliveryOrder.Others.{OtherCall, step_other, step_other-LeavesOutbox}
use omp_telegram.Store.DeliveryOrder.Steps.{
  enqueue-IsOrdered, enqueue_attachment-IsOrdered, claim_next_output-IsOrdered,
  retry_output-IsOrdered, retry_server_output-IsOrdered, mark_output-IsOrdered,
  mark_output_delivered-IsOrdered,
}
use omp_telegram.Store.DeliveryOrder.Answers.{
  append_replies-IsOrdered, complete_inbox-IsOrdered, set_assistant_header-IsOrdered,
  next_assistant_header-IsOrdered, mark_assistant_header_delivered-IsOrdered,
  claim_final_action_edit-IsOrdered, release_assistant_edit-IsOrdered,
  finish_final_action_edit-IsOrdered,
}
use omp_telegram.Store.DeliveryOrder.Settling.{
  consume_final_action-IsOrdered, recover-IsOrdered, cleanup_outbox_batch-IsOrdered,
  publish_migration-IsOrdered,
}

pub data Call : Type 0 where
  enqueues : ℕ → ℤ → ℤ → Text → Call
  attaches : ℕ → ℤ → ℤ → Kind → Text → Text → Text → Call
  appends : ℕ → ℕ → ℤ → ℤ → List Text → Text → Bool → ℕ → Call
  completes : ℕ → Completion → Call
  claims : ℕ → ℕ → Call
  retries : ℕ → ℕ → ℕ → Call
  server_retries : ℕ → ℕ → ℕ → ℕ → Call
  marks : ℕ → ℕ → OutboxState → Call
  delivers : ℕ → ℕ → ℤ → Text → Text → Call
  sets_header : ℕ → ℕ → Text → Call
  claims_header : Call
  header_delivered : ℕ → Text → Text → Call
  claims_edit : ℕ → Call
  releases_edit : ℕ → Call
  finishes_edit : ℕ → Text → Call
  consumes : ℕ → Call
  publishes : ℕ → Migration → Binding → Text → Bool → Call
  cleans : ℕ → Call
  restarts : ℕ → Call
  others : OtherCall → Call

-- The only caller of MarkOutput (internal/bridge/bridge.go) never marks a message as being sent.
abbrev pub IsMade : Call → Type 0
IsMade (marks clock id state) = outbox_in (OutboxState.sending ∷ []) state ≡ false
IsMade _ = Unit

abbrev pub recovered : Db → Result Db → Db
recovered db (ok db') = db'
recovered db (err e) = db

unfoldable pub step : Json → Call → Db → Db
unfolding step_other
step json (enqueues now chat thread text) db = enqueue now chat thread text db
step json (attaches now chat thread kind path name caption) db =
    after db (enqueue_attachment now chat thread kind path name caption db)
step json (appends now id chat thread replies header editable body_parts) db =
    after db (append_replies now id chat thread replies header editable body_parts db)
step json (completes now c) db = after db (complete_inbox json now c db)
step json (claims now clock) db = after db (claim_next_output now clock db)
step json (retries clock id at) db = after db (retry_output clock id at db)
step json (server_retries clock id at max) db = after db (retry_server_output clock id at max db)
step json (marks clock id state) db = after db (mark_output clock id state db)
step json (delivers clock id message_id header markup) db =
    after db (mark_output_delivered clock id message_id header markup db)
step json (sets_header clock id header) db = after db (set_assistant_header clock id header db)
step json claims_header db = after db (next_assistant_header db)
step json (header_delivered id header actions) db =
    mark_assistant_header_delivered id header actions db
step json (claims_edit clock) db = after db (claim_final_action_edit clock db)
step json (releases_edit id) db = release_assistant_edit id db
step json (finishes_edit id snapshot) db = finish_final_action_edit id snapshot db
step json (consumes inbox_id) db = after db (consume_final_action json inbox_id db)
step json (publishes now m target notice recovery) db =
    after db (publish_migration now m target notice recovery db)
step json (cleans cutoff) db = (cleanup_outbox_batch cutoff db).1
step json (restarts now) db = recovered db (recover json now db)
step json (others c) db = step_other c db

step-IsOrdered :
    (json : Json) (c : Call) (db : Db) → IsMade c → IsOrdered db → IsOrdered (step json c db)
unfolding step
step-IsOrdered json (enqueues now chat thread text) db made h =
    enqueue-IsOrdered now chat thread text db h
step-IsOrdered json (attaches now chat thread kind path name caption) db made h =
    Holds-after IsOrdered db _ h
      (enqueue_attachment-IsOrdered now chat thread kind path name caption db h)
step-IsOrdered json (appends now id chat thread replies header editable body_parts) db made h =
    Holds-after IsOrdered db _ h
      (append_replies-IsOrdered now id chat thread replies header editable body_parts db h)
step-IsOrdered json (completes now c) db made h =
    Holds-after IsOrdered db _ h (complete_inbox-IsOrdered json now c db h)
step-IsOrdered json (claims now clock) db made h =
    Holds-after IsOrdered db _ h (claim_next_output-IsOrdered now clock db h)
step-IsOrdered json (retries clock id at) db made h =
    Holds-after IsOrdered db _ h (retry_output-IsOrdered clock id at db h)
step-IsOrdered json (server_retries clock id at max) db made h =
    Holds-after IsOrdered db _ h (retry_server_output-IsOrdered clock id at max db h)
step-IsOrdered json (marks clock id state) db made h =
    Holds-after IsOrdered db _ h (mark_output-IsOrdered clock id state db made h)
step-IsOrdered json (delivers clock id message_id header markup) db made h =
    Holds-after IsOrdered db _ h
      (mark_output_delivered-IsOrdered clock id message_id header markup db h)
step-IsOrdered json (sets_header clock id header) db made h =
    Holds-after IsOrdered db _ h (set_assistant_header-IsOrdered clock id header db h)
step-IsOrdered json claims_header db made h =
    Holds-after IsOrdered db _ h (next_assistant_header-IsOrdered db h)
step-IsOrdered json (header_delivered id header actions) db made h =
    mark_assistant_header_delivered-IsOrdered id header actions db h
step-IsOrdered json (claims_edit clock) db made h =
    Holds-after IsOrdered db _ h (claim_final_action_edit-IsOrdered clock db h)
step-IsOrdered json (releases_edit id) db made h = release_assistant_edit-IsOrdered id db h
step-IsOrdered json (finishes_edit id snapshot) db made h =
    finish_final_action_edit-IsOrdered id snapshot db h
step-IsOrdered json (consumes inbox_id) db made h =
    Holds-after IsOrdered db _ h (consume_final_action-IsOrdered json inbox_id db h)
step-IsOrdered json (publishes now m target notice recovery) db made h =
    Holds-after IsOrdered db _ h (publish_migration-IsOrdered now m target notice recovery db h)
step-IsOrdered json (cleans cutoff) db made h = cleanup_outbox_batch-IsOrdered cutoff db h
step-IsOrdered json (restarts now) db made h = elim (Result-cases (recover json now db)) [
  | inl (db', e) ↦ rw e (rw e at (recover-IsOrdered json now db h))
  | inr (x, e) ↦ rw e h
]
step-IsOrdered json (others c) db made h =
    let same = step_other-LeavesOutbox c db in rw (same.0, same.1) h

unfoldable pub run : Json → List Call → Db → Db
unfolding step
run json [] db = db
run json (c ∷ calls) db = run json calls (step json c db)

pub run-IsOrdered :
    (json : Json) (calls : List Call) (db : Db)
    → All IsMade calls
    → IsOrdered db
    → IsOrdered (run json calls db)
unfolding run
run-IsOrdered json [] db made h = h
run-IsOrdered json (c ∷ calls) db made h =
    run-IsOrdered json calls (step json c db) made.1 (step-IsOrdered json c db made.0 h)

pub IsOrdered-empty : IsOrdered empty_db
unfolding empty_db
IsOrdered-empty = record { fresh = tt; in_order = tt }

-- The messages of one conversation, of which `a` waits or is sent, and `b` is sent.
abbrev pub Overtakes : OutboxRow → OutboxRow → Type 0
Overtakes b a =
    (being_sent b ≡ true)
    × (is_active a ≡ true)
    × (same_conversation b.chat b.thread a ≡ true)
    × (a.id < b.id)

pub never-Overtakes :
    (seq : ℕ) (rows : List OutboxRow)
    → InOrder seq rows
    → All (λ b. All (λ a. ¬ Overtakes b a) rows) rows
unfolding has_earlier
never-Overtakes seq rows h =
    All-map _ (λ b. All (λ a. ¬ Overtakes b a) rows) rows
      (λ b old. elim (Bool-cases (being_sent b)) [
        | inr idle ↦
            All-map (λ a. Unit {0}) _ rows (λ a _ o. cc (o.0, idle)) (All-const _ rows (λ a. tt))
        | inl sent ↦
            All-map _ _ rows (λ a no o. ground (arith, o.0, o.1, o.2, o.3))
              (All-exists? _ rows (old sent))
      ])
      h.in_order

-- Whatever calls of these kinds are made on a new database, with whatever arguments and in whatever order,
-- where no call marks a message as being sent by hand, no message is being sent while an older message
-- of its conversation is queued or being sent. The calls accept and submit updates, queue, answer,
-- claim, retry, settle, edit and clean messages, reserve and use buttons, write bindings, starts,
-- migrations, previews and follow-up requests, and reopen the store.
pub run_in_order :
    (json : Json) (calls : List Call)
    → All IsMade calls
    → let rows = (run json calls empty_db).outbox in All (λ b. All (λ a. ¬ Overtakes b a) rows) rows
run_in_order json calls made =
    never-Overtakes _ _ (run-IsOrdered json calls empty_db made IsOrdered-empty)
