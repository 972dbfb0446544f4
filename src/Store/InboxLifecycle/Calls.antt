-- ===== src/Store/InboxLifecycle/Calls.antt =====
-- The lifecycle of an incoming update over the calls of internal/store that change the inbox. Two
-- are no calls here: retention deletes settled rows, and a published migration may settle an
-- uncertain row.
use omp_telegram.Common.{ℕ, ℤ, Text, ◌≡◌, refl, true, List, [], ◌∷◌, after, All, arith}
use omp_telegram.Store.Schema.{InboxState, Migration, Phase, Db}
use omp_telegram.Store.Inbox.{
  accept, accept_ignored, mark, finish_submitted, settles, submit, cancel_pending_followup_inbox,
}
use omp_telegram.Store.FinalActions.{Json, release_final_action, settle_rejected_final_action}
use omp_telegram.Store.Replies.{Completion, complete_inbox}
use omp_telegram.Store.Migrations.{update_migration, fail_migration}
use omp_telegram.Store.Recovery.{recover}
use omp_telegram.Store.DeliveryOrder.Calls.{recovered}
use omp_telegram.Store.InboxLifecycle.{
  row, Advances, Advances-refl, Advances-trans, update-Advances,
}
use omp_telegram.Store.InboxLifecycle.Updates.{
  mark-Advances, finish_submitted-Advances, submit-Advances, insert_new-Advances,
}
use omp_telegram.Store.InboxLifecycle.Transactions.{
  complete_inbox-Advances, update_migration-Advances, fail_migration-Advances, recover-Advances,
}

-- The calls that change the inbox.
pub data Call : Type 0 where
  accepts : ℕ → ℕ → Text → Call
  ignores : ℕ → ℕ → Call
  marks : ℕ → ℕ → InboxState → Call
  finishes : ℕ → ℕ → InboxState → Call
  submits : ℕ → ℕ → ℤ → Call
  cancels_followup : ℕ → ℕ → Call
  releases_action : ℕ → ℕ → Call
  rejects_action : ℕ → ℕ → Call
  completes : ℕ → Completion → Call
  updates_migration : ℕ → Migration → Phase → Call
  fails_migration : ℕ → Text → Text → Call
  restarts : ℕ → Call

-- The completions of the source end an update as done, uncertain or cancelled.
abbrev pub IsMade : Call → Type 0
IsMade (completes now c) = settles c.state ≡ true
IsMade _ = Unit

unfoldable pub step : Json → Call → Db → Db
step json (accepts now id raw) db = accept now id raw db
step json (ignores now id) db = accept_ignored now id db
step json (marks now id state) db = after db (mark now id state db)
step json (finishes now id state) db = after db (finish_submitted now id state db)
step json (submits now id reply_to) db = after db (submit now id reply_to db)
step json (cancels_followup now id) db = cancel_pending_followup_inbox now id db
step json (releases_action now id) db = release_final_action now id db
step json (rejects_action now id) db = settle_rejected_final_action now id db
step json (completes now c) db = after db (complete_inbox json now c db)
step json (updates_migration now m expected) db = after db (update_migration now m expected db)
step json (fails_migration now id kind) db = after db (fail_migration now id kind db)
step json (restarts now) db = recovered db (recover json now db)

step-Advances :
    (json : Json) (j : ℕ) (c : Call) (db : Db)
    → IsMade c
    → Advances (row j db) (row j (step json c db))
unfolding step accept accept_ignored cancel_pending_followup_inbox release_final_action
    settle_rejected_final_action
step-Advances json j (accepts now id raw) db made = insert_new-Advances j _ db.inbox
step-Advances json j (ignores now id) db made = insert_new-Advances j _ db.inbox
step-Advances json j (marks now id state) db made = mark-Advances j now id state db
step-Advances json j (finishes now id state) db made = finish_submitted-Advances j now id state db
step-Advances json j (submits now id reply_to) db made = submit-Advances j now id reply_to db
step-Advances json j (cancels_followup now id) db made =
    update-Advances j _ _ db.inbox (λ x. refl) (λ x hit. ground arith)
step-Advances json j (releases_action now id) db made =
    update-Advances j _ _ db.inbox (λ x. refl) (λ x hit. ground arith)
step-Advances json j (rejects_action now id) db made =
    update-Advances j _ _ db.inbox (λ x. refl) (λ x hit. ground arith)
step-Advances json j (completes now c) db made = complete_inbox-Advances json j now c db made
step-Advances json j (updates_migration now m expected) db made =
    update_migration-Advances j now m expected db
step-Advances json j (fails_migration now id kind) db made =
    fail_migration-Advances j now id kind db
step-Advances json j (restarts now) db made = recover-Advances json j now db

unfoldable pub run : Json → List Call → Db → Db
unfolding step
run json [] db = db
run json (c ∷ calls) db = run json calls (step json c db)

-- Whatever calls of this kind are made, retention and published migrations left out and each completion
-- with a final state, a row of the inbox stays, with its id and its time of arrival, and its state only
-- moves forward: a submitted row is never pending again, and a settled row never changes state.
pub run-Advances :
    (json : Json) (j : ℕ) (calls : List Call) (db : Db)
    → All IsMade calls
    → Advances (row j db) (row j (run json calls db))
unfolding run
run-Advances json j [] db made = Advances-refl (row j db)
run-Advances json j (c ∷ calls) db made =
    Advances-trans (row j db) (row j (step json c db)) _ (step-Advances json j c db made.0)
      (run-Advances json j calls (step json c db) made.1)
