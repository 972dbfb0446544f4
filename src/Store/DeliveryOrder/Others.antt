-- ===== src/Store/DeliveryOrder/Others.antt =====
-- The calls of internal/store that fill the inbox, the bindings, the starts, the migrations, the previews and
-- the follow-up requests. None of them touches the outbox.
use omp_telegram.Common.{ℕ, ℤ, Text, ◌≡◌, refl, Bool, Result, ok, err, after, arith}
use omp_telegram.Store.Schema.{
  InboxState, BindingKey, Binding, StartIntent, Phase, Migration, FollowupRequest, Db,
}
use omp_telegram.Store.Inbox.{
  accept, accept_ignored, mark, finish_submitted, submit, change_one, cancel_pending_followup_inbox,
}
use omp_telegram.Store.FinalActions.{
  FinalActionClaim, reserve_final_action, release_final_action, settle_rejected_final_action,
}
use omp_telegram.Store.Bindings.{
  save, touch_binding, set_running, set_interrupted, delete_closed_binding,
}
use omp_telegram.Store.Starts.{prepare_start, commit_start, cancel_start}
use omp_telegram.Store.Migrations.{
  prepare_migration, update_migration, fail_migration, keep_history,
}
use omp_telegram.Store.Progress.{
  set_progress_message, retire_progress_messages, clear_progress_message,
}
use omp_telegram.Store.Followups.{create_followup_request, consume_followup_request}

pub data OtherCall : Type 0 where
  accepts : ℕ → ℕ → Text → OtherCall
  ignores : ℕ → ℕ → OtherCall
  marks_input : ℕ → ℕ → InboxState → OtherCall
  submits : ℕ → ℕ → ℤ → OtherCall
  finishes : ℕ → ℕ → InboxState → OtherCall
  cancels_followup : ℕ → ℕ → OtherCall
  reserves_action : FinalActionClaim → OtherCall
  releases_action : ℕ → ℕ → OtherCall
  rejects_action : ℕ → ℕ → OtherCall
  saves : Binding → OtherCall
  touches : BindingKey → ℤ → ℕ → OtherCall
  sets_running : Binding → Bool → OtherCall
  sets_interrupted : Binding → Bool → OtherCall
  closes : BindingKey → ℤ → OtherCall
  prepares_start : ℕ → Binding → StartIntent → OtherCall
  commits_start : Binding → OtherCall
  cancels_start : StartIntent → OtherCall
  prepares_migration : ℕ → Migration → OtherCall
  updates_migration : ℕ → Migration → Phase → OtherCall
  fails_migration : ℕ → Text → Text → OtherCall
  sets_progress : ℕ → ℤ → ℤ → OtherCall
  retires_progress : ℕ → ℤ → ℕ → ℕ → OtherCall
  clears_progress : ℕ → ℤ → OtherCall
  asks : FollowupRequest → OtherCall
  answers : ℕ → FollowupRequest → ℕ → OtherCall

unfoldable pub step_other : OtherCall → Db → Db
step_other (accepts now id raw) db = accept now id raw db
step_other (ignores now id) db = accept_ignored now id db
step_other (marks_input now id state) db = after db (mark now id state db)
step_other (submits now id reply_to) db = after db (submit now id reply_to db)
step_other (finishes now id state) db = after db (finish_submitted now id state db)
step_other (cancels_followup now id) db = cancel_pending_followup_inbox now id db
step_other (reserves_action claim) db = after db (reserve_final_action claim db)
step_other (releases_action now id) db = release_final_action now id db
step_other (rejects_action now id) db = settle_rejected_final_action now id db
step_other (saves b) db = after db (save b db)
step_other (touches key generation used_at) db = (touch_binding key generation used_at db).1
step_other (sets_running b running) db = after db (set_running b running db)
step_other (sets_interrupted b interrupted) db = after db (set_interrupted b interrupted db)
step_other (closes key generation) db = (delete_closed_binding key generation db).1
step_other (prepares_start now previous intent) db = after db (prepare_start now previous intent db)
step_other (commits_start b) db = after db (commit_start b db)
step_other (cancels_start intent) db = cancel_start intent db
step_other (prepares_migration now m) db = after db (prepare_migration now m db)
step_other (updates_migration now m expected) db = after db (update_migration now m expected db)
step_other (fails_migration now id kind) db = after db (fail_migration now id kind db)
step_other (sets_progress inbox_id chat message_id) db =
    after db (set_progress_message inbox_id chat message_id db)
step_other (retires_progress inbox_id message_id first_id parts) db =
    after db (retire_progress_messages inbox_id message_id first_id parts db)
step_other (clears_progress inbox_id message_id) db = clear_progress_message inbox_id message_id db
step_other (asks request) db = after db (create_followup_request request db)
step_other (answers now request id) db = after db (consume_followup_request now request id db)

-- The outbox and its counter are as they were.
abbrev pub LeavesOutbox : Db → Db → Type 0
LeavesOutbox db db' = (db'.outbox ≡ db.outbox) × (db'.outbox_seq ≡ db.outbox_seq)

after-LeavesOutbox :
    {A : Type 0} (db : Db) (r : Result (A × Db))
    → ((a : A) (db' : Db) → r ≡ ok (a, db') → LeavesOutbox db db')
    → LeavesOutbox db (after db r)
after-LeavesOutbox db (err e) h = (refl, refl)
after-LeavesOutbox db (ok r) h = h r.0 r.1 refl

mark-LeavesOutbox :
    (now : ℕ) (id : ℕ) (state : InboxState) (db : Db)
    → LeavesOutbox db (after db (mark now id state db))
unfolding mark change_one
mark-LeavesOutbox now id state db =
    after-LeavesOutbox db (mark now id state db) (λ a db' h. ground arith)

submit-LeavesOutbox :
    (now : ℕ) (id : ℕ) (reply_to : ℤ) (db : Db)
    → LeavesOutbox db (after db (submit now id reply_to db))
unfolding submit change_one
submit-LeavesOutbox now id reply_to db =
    after-LeavesOutbox db (submit now id reply_to db) (λ a db' h. ground arith)

finish_submitted-LeavesOutbox :
    (now : ℕ) (id : ℕ) (state : InboxState) (db : Db)
    → LeavesOutbox db (after db (finish_submitted now id state db))
unfolding finish_submitted change_one
finish_submitted-LeavesOutbox now id state db =
    after-LeavesOutbox db (finish_submitted now id state db) (λ a db' h. ground arith)

reserve_final_action-LeavesOutbox :
    (claim : FinalActionClaim) (db : Db)
    → LeavesOutbox db (after db (reserve_final_action claim db))
unfolding reserve_final_action
reserve_final_action-LeavesOutbox claim db =
    after-LeavesOutbox db (reserve_final_action claim db) (λ a db' h. ground arith)

save-LeavesOutbox : (b : Binding) (db : Db) → LeavesOutbox db (after db (save b db))
unfolding save keep_history
save-LeavesOutbox b db = after-LeavesOutbox db (save b db) (λ a db' h. ground arith)

set_running-LeavesOutbox :
    (b : Binding) (running : Bool) (db : Db) → LeavesOutbox db (after db (set_running b running db))
unfolding set_running
set_running-LeavesOutbox b running db =
    after-LeavesOutbox db (set_running b running db) (λ a db' h. ground arith)

set_interrupted-LeavesOutbox :
    (b : Binding) (interrupted : Bool) (db : Db)
    → LeavesOutbox db (after db (set_interrupted b interrupted db))
unfolding set_interrupted
set_interrupted-LeavesOutbox b interrupted db =
    after-LeavesOutbox db (set_interrupted b interrupted db) (λ a db' h. ground arith)

delete_closed_binding-LeavesOutbox :
    (key : BindingKey) (generation : ℤ) (db : Db)
    → LeavesOutbox db ((delete_closed_binding key generation db).1)
unfolding delete_closed_binding
delete_closed_binding-LeavesOutbox key generation db = ground arith

prepare_start-LeavesOutbox :
    (now : ℕ) (previous : Binding) (intent : StartIntent) (db : Db)
    → LeavesOutbox db (after db (prepare_start now previous intent db))
unfolding prepare_start
prepare_start-LeavesOutbox now previous intent db =
    after-LeavesOutbox db (prepare_start now previous intent db) (λ a db' h. ground arith)

commit_start-LeavesOutbox : (b : Binding) (db : Db) → LeavesOutbox db (after db (commit_start b db))
unfolding commit_start keep_history
commit_start-LeavesOutbox b db = after-LeavesOutbox db (commit_start b db) (λ a db' h. ground arith)

prepare_migration-LeavesOutbox :
    (now : ℕ) (m : Migration) (db : Db) → LeavesOutbox db (after db (prepare_migration now m db))
unfolding prepare_migration
prepare_migration-LeavesOutbox now m db =
    after-LeavesOutbox db (prepare_migration now m db) (λ a db' h. ground arith)

update_migration-LeavesOutbox :
    (now : ℕ) (m : Migration) (expected : Phase) (db : Db)
    → LeavesOutbox db (after db (update_migration now m expected db))
unfolding update_migration
update_migration-LeavesOutbox now m expected db =
    after-LeavesOutbox db (update_migration now m expected db) (λ a db' h. ground arith)

fail_migration-LeavesOutbox :
    (now : ℕ) (id : Text) (kind : Text) (db : Db)
    → LeavesOutbox db (after db (fail_migration now id kind db))
unfolding fail_migration
fail_migration-LeavesOutbox now id kind db =
    after-LeavesOutbox db (fail_migration now id kind db) (λ a db' h. ground arith)

set_progress_message-LeavesOutbox :
    (inbox_id : ℕ) (chat : ℤ) (message_id : ℤ) (db : Db)
    → LeavesOutbox db (after db (set_progress_message inbox_id chat message_id db))
unfolding set_progress_message
set_progress_message-LeavesOutbox inbox_id chat message_id db =
    after-LeavesOutbox db (set_progress_message inbox_id chat message_id db)
      (λ a db' h. ground arith)

retire_progress_messages-LeavesOutbox :
    (inbox_id : ℕ) (message_id : ℤ) (first_id : ℕ) (parts : ℕ) (db : Db)
    → LeavesOutbox db (after db (retire_progress_messages inbox_id message_id first_id parts db))
unfolding retire_progress_messages
retire_progress_messages-LeavesOutbox inbox_id message_id first_id parts db =
    after-LeavesOutbox db (retire_progress_messages inbox_id message_id first_id parts db)
      (λ a db' h. ground arith)

create_followup_request-LeavesOutbox :
    (request : FollowupRequest) (db : Db)
    → LeavesOutbox db (after db (create_followup_request request db))
unfolding create_followup_request
create_followup_request-LeavesOutbox request db =
    after-LeavesOutbox db (create_followup_request request db) (λ a db' h. ground arith)

consume_followup_request-LeavesOutbox :
    (now : ℕ) (request : FollowupRequest) (id : ℕ) (db : Db)
    → LeavesOutbox db (after db (consume_followup_request now request id db))
unfolding consume_followup_request
consume_followup_request-LeavesOutbox now request id db =
    after-LeavesOutbox db (consume_followup_request now request id db) (λ a db' h. ground arith)

pub step_other-LeavesOutbox : (c : OtherCall) (db : Db) → LeavesOutbox db (step_other c db)
unfolding step_other accept accept_ignored cancel_pending_followup_inbox release_final_action
    settle_rejected_final_action touch_binding cancel_start clear_progress_message
step_other-LeavesOutbox (accepts now id raw) db = (refl, refl)
step_other-LeavesOutbox (ignores now id) db = (refl, refl)
step_other-LeavesOutbox (marks_input now id state) db = mark-LeavesOutbox now id state db
step_other-LeavesOutbox (submits now id reply_to) db = submit-LeavesOutbox now id reply_to db
step_other-LeavesOutbox (finishes now id state) db = finish_submitted-LeavesOutbox now id state db
step_other-LeavesOutbox (cancels_followup now id) db = (refl, refl)
step_other-LeavesOutbox (reserves_action claim) db = reserve_final_action-LeavesOutbox claim db
step_other-LeavesOutbox (releases_action now id) db = (refl, refl)
step_other-LeavesOutbox (rejects_action now id) db = (refl, refl)
step_other-LeavesOutbox (saves b) db = save-LeavesOutbox b db
step_other-LeavesOutbox (touches key generation used_at) db = (refl, refl)
step_other-LeavesOutbox (sets_running b running) db = set_running-LeavesOutbox b running db
step_other-LeavesOutbox (sets_interrupted b interrupted) db =
    set_interrupted-LeavesOutbox b interrupted db
step_other-LeavesOutbox (closes key generation) db =
    delete_closed_binding-LeavesOutbox key generation db
step_other-LeavesOutbox (prepares_start now previous intent) db =
    prepare_start-LeavesOutbox now previous intent db
step_other-LeavesOutbox (commits_start b) db = commit_start-LeavesOutbox b db
step_other-LeavesOutbox (cancels_start intent) db = (refl, refl)
step_other-LeavesOutbox (prepares_migration now m) db = prepare_migration-LeavesOutbox now m db
step_other-LeavesOutbox (updates_migration now m expected) db =
    update_migration-LeavesOutbox now m expected db
step_other-LeavesOutbox (fails_migration now id kind) db =
    fail_migration-LeavesOutbox now id kind db
step_other-LeavesOutbox (sets_progress inbox_id chat message_id) db =
    set_progress_message-LeavesOutbox inbox_id chat message_id db
step_other-LeavesOutbox (retires_progress inbox_id message_id first_id parts) db =
    retire_progress_messages-LeavesOutbox inbox_id message_id first_id parts db
step_other-LeavesOutbox (clears_progress inbox_id message_id) db = (refl, refl)
step_other-LeavesOutbox (asks request) db = create_followup_request-LeavesOutbox request db
step_other-LeavesOutbox (answers now request id) db =
    consume_followup_request-LeavesOutbox now request id db
