-- ===== src/Bridge/Settling.antt =====
-- What each call of the sender in internal/bridge/bridge.go does to the row that it settles.
use omp_telegram.Common.{
  ℕ, suc, ℤ, Text, Bool, true, false, leb, ◌==◌, Bool-cases, some, Option-cases, List, [], ◌∷◌,
  exists?, first?, update, exists?-update_none, exists?-append, Result, ok, err, ◌>>=◌, ◌≡◌, refl,
  ◌∙◌, inl, inr, arith,
}
use omp_telegram.Store.Schema.{OutboxState, outbox_in, OutboxRow, Db}
use omp_telegram.Store.Outbox.{
  is_sending, push_row, new_row, change_one, retry_output, retry_server_output, server_retry_row,
  mark_expected, mark_output, mark_output_delivered, delivered_row, enqueue,
}
use omp_telegram.Store.Progress.{
  ProgressMessage, completed_progress_messages, clear_progress_message,
}
use omp_telegram.Bridge.Delivery.{
  World, Deletion, deleted, undeleted, delete_progress_message, delete_previews,
  cleanup_delivered_progress, clean_after, failure_notice, after_settled,
}

-- No row with this id is being sent.
abbrev pub IsSettled : ℕ → Db → Type 0
IsSettled id db = exists? (is_sending id) db.outbox ≡ false

pub change_one-IsSettled :
    (id : ℕ) (f : OutboxRow → OutboxRow) (db : Db) (r : Unit {0} × Db)
    → ((x : OutboxRow) → outbox_in (OutboxState.sending ∷ []) (f x).state ≡ false)
    → change_one (is_sending id) f db ≡ ok r
    → IsSettled id r.1
unfolding change_one
change_one-IsSettled id f db r out h =
    let e : r.1.outbox ≡ update (is_sending id) f db.outbox = ground arith in
    rw e (
      exists?-update_none (is_sending id) (is_sending id) f db.outbox
        (λ x hit. ground (arith, out x)) (λ x hit. hit))

pub mark_output-IsSettled :
    (clock id : ℕ) (state : OutboxState) (db : Db) (r : Unit {0} × Db)
    → mark_expected state ≡ some (OutboxState.sending ∷ [])
    → outbox_in (OutboxState.sending ∷ []) state ≡ false
    → mark_output clock id state db ≡ ok r
    → IsSettled id r.1
unfolding mark_output
mark_output-IsSettled clock id state db r expected out h =
    change_one-IsSettled id
      (λ o. record o { state = state; next_attempt_at = 0; updated_at = clock }) db r (λ x. out)
      (rw expected at h)

pub mark_output_delivered-IsSettled :
    (clock id : ℕ) (message_id : ℤ) (header markup : Text) (db : Db) (r : Unit {0} × Db)
    → mark_output_delivered clock id message_id header markup db ≡ ok r
    → IsSettled id r.1
unfolding mark_output_delivered delivered_row
mark_output_delivered-IsSettled clock id message_id header markup db r h =
    change_one-IsSettled id (delivered_row clock message_id header markup) db r (λ x. refl) h

pub retry_output-IsSettled :
    (clock id at : ℕ) (db : Db) (r : Unit {0} × Db)
    → retry_output clock id at db ≡ ok r
    → IsSettled id r.1
unfolding retry_output
retry_output-IsSettled clock id at db r h = change_one-IsSettled id _ db r (λ x. refl) h

-- Both steps of a computation that succeeds succeed.
pub bind-ok {ℓ κ} :
    {A : Type ℓ} {B : Type κ} (r : Result A) (next : A → Result B) (b : B)
    → (r >>= next) ≡ ok b
    → (a : A) × (r ≡ ok a) × (next a ≡ ok b)
bind-ok (ok a) next b h = (a, refl, h)
bind-ok (err e) next b h = cc

pub retry_server_output-IsSettled :
    (clock id at max : ℕ) (db : Db) (r : (ℕ × Bool) × Db)
    → retry_server_output clock id at max db ≡ ok r
    → IsSettled id r.1
unfolding retry_server_output change_one
retry_server_output-IsSettled clock id at max db r h =
    elim (Option-cases (first? (is_sending id) db.outbox)) [
      | inl e ↦ ground (arith, e)
      | inr x ↦
          let count = suc x.0.server_retry_count in
          let exhausted = leb max count in
          let same : r.1.outbox
              ≡ update (is_sending id) (server_retry_row clock count at exhausted) db.outbox =
            ground (arith, x.1) in
          rw same (
            exists?-update_none (is_sending id) (is_sending id)
              (server_retry_row clock count at exhausted) db.outbox
              (λ y hit. ground (arith, stopped clock count at exhausted y)) (λ y hit. hit))
    ]
  where
    stopped :
        (clock count at : ℕ) (exhausted : Bool) (x : OutboxRow)
        → outbox_in (OutboxState.sending ∷ []) (server_retry_row clock count at exhausted x).state
          ≡ false
    stopped clock count at true x = unfold server_retry_row in refl
    stopped clock count at false x = unfold server_retry_row in refl

-- The two have the same outbox.
pub record SameOutbox (c d : Db) : Type 0 where
  pub same_rows : c.outbox ≡ d.outbox
  pub same_seq : c.outbox_seq ≡ d.outbox_seq

pub delete_progress_message-SameOutbox :
    (deletion : Deletion) (m : ProgressMessage) (db : Db)
    → SameOutbox (delete_progress_message deletion m db) db
unfolding delete_progress_message clear_progress_message
delete_progress_message-SameOutbox deleted m db = record {
  same_rows = ground arith;
  same_seq = ground arith;
}
delete_progress_message-SameOutbox (undeleted info) m db = record {
  same_rows = ground arith;
  same_seq = ground arith;
}

pub delete_previews-SameOutbox :
    (w : World) (ms : List ProgressMessage) (db : Db) → SameOutbox (delete_previews w ms db) db
unfolding delete_previews
delete_previews-SameOutbox w [] db = record { same_rows = refl; same_seq = refl }
delete_previews-SameOutbox w (m ∷ ms) db =
    let first = delete_progress_message-SameOutbox (w.deletion m) m db in
    let rest = delete_previews-SameOutbox w ms (delete_progress_message (w.deletion m) m db) in
    record {
      same_rows = rest.same_rows ∙ first.same_rows;
      same_seq = rest.same_seq ∙ first.same_seq;
    }

-- Cleaning up previews leaves the outbox alone.
pub clean_after-SameOutbox :
    (w : World) (o : OutboxRow) (db : Db) → SameOutbox (clean_after w o db) db
unfolding clean_after cleanup_delivered_progress completed_progress_messages
clean_after-SameOutbox w o db = elim (Bool-cases (o.inbox_id == 0)) [
  | inl e ↦ rw e (record { same_rows = refl; same_seq = refl })
  | inr e ↦
      let completed = completed_progress_messages w.chats o.inbox_id db in
      let same = delete_previews-SameOutbox w completed.0 completed.1 in
      rw e (record { same_rows = same.same_rows; same_seq = same.same_seq })
]

pub enqueue-IsSettled :
    (now : ℕ) (chat thread : ℤ) (text : Text) (id : ℕ) (db : Db)
    → IsSettled id db
    → IsSettled id (enqueue now chat thread text db)
unfolding enqueue push_row new_row exists?
enqueue-IsSettled now chat thread text id db h =
    exists?-append (is_sending id) db.outbox _ ∙ rw h (ground arith)

pub after_settled-IsSettled :
    (w : World) (o : OutboxRow) (state : OutboxState) (id : ℕ) (db : Db)
    → IsSettled id db
    → IsSettled id (after_settled w o state db)
unfolding after_settled
after_settled-IsSettled w o state id db h =
    let clean = clean_after-SameOutbox w o db in
    let settled : IsSettled id (clean_after w o db) = rw clean.same_rows h in
    elim (Option-cases (failure_notice w o state)) [
      | inl e ↦ rw (e, after_settled) settled
      | inr e ↦
          rw (e.1, after_settled)
            (enqueue-IsSettled w.clock o.chat o.thread e.0 id (clean_after w o db) settled)
    ]
