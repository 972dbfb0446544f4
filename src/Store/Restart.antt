-- ===== src/Store/Restart.antt =====
-- Opening the database after a crash (internal/store/store.go): nothing is left in flight.
use omp_telegram.Common.{
  ℕ, ◌≡◌, refl, inl, inr, false, List, [], ◌∷◌, exists?, first?, update, exists?-update_none,
  exists?-update_mono, ok, Result-cases, Option-cases, Holds, Holds-ok, arith,
}
use omp_telegram.Store.Schema.{InboxState, OutboxState, Db}
use omp_telegram.Store.Inbox
use omp_telegram.Store.Outbox
use omp_telegram.Store.FinalActions.{
  Json, consume_final_action, find_reservation, recover_ids, recover_final_action_reservations,
}
use omp_telegram.Store.Recovery.{
  in_state, out_state, settle_inbox, settle_outbox, settle_reservations, recover,
}

-- No update was handed to OMP and not settled, no message is being sent, no rename is under way.
pub record IsQuiet (db : Db) : Type 0 where
  pub no_input : exists? (in_state InboxState.submitted) db.inbox ≡ false
  pub no_output : exists? (out_state OutboxState.sending) db.outbox ≡ false
  pub no_rename : exists? (λ x. x.active) db.reservations ≡ false

settled-IsQuiet :
    (now : ℕ) (db : Db) → IsQuiet (settle_reservations (settle_outbox now (settle_inbox now db)))
unfolding settle_inbox settle_outbox settle_reservations
settled-IsQuiet now db = record {
  no_input =
      exists?-update_mono (in_state InboxState.submitted) _ _ _ (λ x p q. ground arith)
        (exists?-update_none (in_state InboxState.submitted) (in_state InboxState.submitted) _
          db.inbox (λ x p. refl) (λ x p. p));
  no_output =
      exists?-update_mono (out_state OutboxState.sending) _ _ _ (λ x p q. q)
        (exists?-update_none (out_state OutboxState.sending) (out_state OutboxState.sending) _
          db.outbox (λ x p. refl) (λ x p. p));
  no_rename =
      exists?-update_none (λ x. x.active) (λ x. x.active) _ db.reservations (λ x p. refl)
        (λ x p. p);
}

consume-IsQuiet :
    (json : Json) (inbox_id : ℕ) (db : Db)
    → IsQuiet db
    → Holds (λ (r : Unit {0} × Db). IsQuiet r.1) (consume_final_action json inbox_id db)
unfolding consume_final_action
consume-IsQuiet json inbox_id db h = elim (Option-cases (find_reservation inbox_id db)) [
  | inl e ↦ rw e tt
  | inr (a, e) ↦ rw e (elim (Option-cases (first? (Outbox.has_id a.outbox_id) db.outbox)) [
    | inl e' ↦ rw e' tt
    | inr (o, e') ↦ rw e' (elim (Option-cases (json.unmarshal o.final_actions)) [
      | inl bad ↦ rw bad tt
      | inr (actions, good) ↦ rw good (record {
        no_input = h.no_input;
        no_output =
            exists?-update_mono (out_state OutboxState.sending) _ _ db.outbox (λ x p q. q)
              h.no_output;
        no_rename = h.no_rename;
      })
    ])
  ])
]

cancel-IsQuiet :
    (id : ℕ) (db : Db)
    → IsQuiet db
    → IsQuiet (record db {
      inbox =
          update (Inbox.is_pending id) (λ x. record x { state = InboxState.cancelled }) db.inbox;
    })
cancel-IsQuiet id db h = record {
  no_input =
      exists?-update_mono (in_state InboxState.submitted) _ _ db.inbox (λ x p q. ground arith)
        h.no_input;
  no_output = h.no_output;
  no_rename = h.no_rename;
}

recover_ids-IsQuiet :
    (json : Json) (ids : List ℕ) (db : Db) → IsQuiet db → Holds IsQuiet (recover_ids json ids db)
unfolding recover_ids
recover_ids-IsQuiet json [] db h = h
recover_ids-IsQuiet json (id ∷ ids) db h = elim (Result-cases (consume_final_action json id db)) [
  | inr (x, e) ↦ rw e tt
  | inl (r, e) ↦ rw e (
      recover_ids-IsQuiet json ids _ (
        cancel-IsQuiet id r.1
          (Holds-ok (λ (q : Unit {0} × Db). IsQuiet q.1) _ r e (consume-IsQuiet json id db h))))
]

-- Whatever state the database was left in, if it opens, then no update is waiting for an answer that
-- no process works on, no message is being sent and no rename is under way.
pub recover-IsQuiet :
    (json : Json) (now : ℕ) (db db' : Db) → recover json now db ≡ ok db' → IsQuiet db'
unfolding recover recover_final_action_reservations
recover-IsQuiet json now db db' h =
    Holds-ok IsQuiet _ db' h (recover_ids-IsQuiet json _ _ (settled-IsQuiet now db))
