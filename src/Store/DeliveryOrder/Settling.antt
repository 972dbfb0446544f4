-- ===== src/Store/DeliveryOrder/Settling.antt =====
-- Buttons that are used up, migrations, retention and recovery keep the order of delivery.
use omp_telegram.Common.{
  ℕ, Text, refl, inl, inr, Bool, List, [], ◌∷◌, first?, Option-cases, Result-cases, Holds-ok, Holds,
  arith,
}
use omp_telegram.Store.Schema.{Binding, Migration, Db}
use omp_telegram.Store.Outbox
use omp_telegram.Store.FinalActions.{
  Json, consume_final_action, find_reservation, recover_ids, recover_final_action_reservations,
}
use omp_telegram.Store.Migrations.{publishable, publish, publish_migration, keep_history}
use omp_telegram.Store.Cleanup.{cleanup_outbox_batch}
use omp_telegram.Store.Recovery.{recover, settle_inbox, settle_outbox}
use omp_telegram.Store.DeliveryOrder.{IsOrdered, quiet-InOrder, delete-InOrder, append-InOrder}
use omp_telegram.Store.DeliveryOrder.Steps.{Orders}
use omp_telegram.Store.DeliveryOrder.Answers.{show_actions-IsOrdered}

pub consume_final_action-IsOrdered :
    (json : Json) (inbox_id : ℕ) (db : Db)
    → IsOrdered db
    → Orders (consume_final_action json inbox_id db)
unfolding consume_final_action
consume_final_action-IsOrdered json inbox_id db h =
    elim (Option-cases (find_reservation inbox_id db)) [
      | inl e ↦ rw e tt
      | inr (a, e) ↦ rw e (elim (Option-cases (first? (Outbox.has_id a.outbox_id) db.outbox)) [
        | inl e' ↦ rw e' tt
        | inr (o, e') ↦ rw e' (elim (Option-cases (json.unmarshal o.final_actions)) [
          | inl bad ↦ rw bad tt
          | inr (actions, good) ↦ rw good (show_actions-IsOrdered a.outbox_id _ db h)
        ])
      ])
    ]

recover_ids-IsOrdered :
    (json : Json) (ids : List ℕ) (db : Db)
    → IsOrdered db
    → Holds IsOrdered (recover_ids json ids db)
unfolding recover_ids
recover_ids-IsOrdered json [] db h = h
recover_ids-IsOrdered json (id ∷ ids) db h = elim (Result-cases (consume_final_action json id db)) [
  | inr (x, e) ↦ rw e tt
  | inl (r, e) ↦ rw e (
      recover_ids-IsOrdered json ids _ (
        Holds-ok (λ (q : Unit {0} × Db). IsOrdered q.1) _ r e
          (consume_final_action-IsOrdered json id db h)))
]

settle_outbox-IsOrdered : (now : ℕ) (db : Db) → IsOrdered db → IsOrdered (settle_outbox now db)
unfolding settle_outbox
settle_outbox-IsOrdered now db h =
    quiet-InOrder _ _ db.outbox_seq _ (λ x hit. ground arith) (λ x hit sent. sent)
      (quiet-InOrder _ _ db.outbox_seq db.outbox (λ x hit. ground arith) (λ x hit sent. cc) h)

pub recover-IsOrdered :
    (json : Json) (now : ℕ) (db : Db) → IsOrdered db → Holds IsOrdered (recover json now db)
unfolding recover recover_final_action_reservations
recover-IsOrdered json now db h =
    recover_ids-IsOrdered json _ _ (settle_outbox-IsOrdered now (settle_inbox now db) h)

pub cleanup_outbox_batch-IsOrdered :
    (cutoff : ℕ) (db : Db) → IsOrdered db → IsOrdered (cleanup_outbox_batch cutoff db).1
unfolding cleanup_outbox_batch
cleanup_outbox_batch-IsOrdered cutoff db h = delete-InOrder _ db.outbox_seq db.outbox h

pub publish_migration-IsOrdered :
    (now : ℕ) (m : Migration) (target : Binding) (notice : Text) (recovery : Bool) (db : Db)
    → IsOrdered db
    → Orders (publish_migration now m target notice recovery db)
unfolding publish_migration
publish_migration-IsOrdered now m target notice recovery db h =
    elim (Result-cases (publishable m target notice recovery db)) [
      | inr (x, e) ↦ rw e tt
      | inl (r, e) ↦
          rw e (unfold publish keep_history in append-InOrder _ db.outbox_seq db.outbox refl refl h)
    ]
