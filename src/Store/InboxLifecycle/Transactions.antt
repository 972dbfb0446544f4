-- ===== src/Store/InboxLifecycle/Transactions.antt =====
-- The lifecycle of an incoming update over the transactions that settle it on the way: completions,
-- migrations and the recovery at start.
use omp_telegram.Common.{
  ℕ, Text, ◌≡◌, refl, inl, inr, true, List, [], ◌∷◌, first?, Bool-cases, if◌then◌else◌, after,
  Result, ok, err, Result-cases, Option-cases, ◌⊎◌, is_empty, text_eq, arith,
}
use omp_telegram.Store.Schema.{InboxState, Migration, Phase, Db}
use omp_telegram.Store.Inbox.{settles, is_pending}
use omp_telegram.Store.Outbox
use omp_telegram.Store.FinalActions.{
  Json, consume_final_action, find_reservation, recover_ids, recover_final_action_reservations,
}
use omp_telegram.Store.Replies.{Completion, complete_inbox}
use omp_telegram.Store.Completions.{complete-inbox, settle_row}
use omp_telegram.Store.Migrations.{
  mark_uncertain, migration, discovers, update_migration, fail_migration,
}
use omp_telegram.Store.Recovery.{settle_outbox, settle_reservations, recover}
use omp_telegram.Store.DeliveryOrder.Calls.{recovered}
use omp_telegram.Store.InboxLifecycle.{
  row, Advances, Advances-refl, Advances-trans, update-Advances,
}
use omp_telegram.Store.InboxLifecycle.Updates.{settle_inbox-Advances}

-- What is shown of each successful result holds of the state after the call.
after-Advances :
    {A : Type 0} (j : ℕ) (db : Db) (r : Result (A × Db))
    → ((a : A) (db' : Db) → r ≡ ok (a, db') → Advances (row j db) (row j db'))
    → Advances (row j db) (row j (after db r))
after-Advances j db (err e) h = Advances-refl (row j db)
after-Advances j db (ok (a, db')) h = h a db' refl

-- A table that is left as it was.
same-Advances : (j : ℕ) (db db' : Db) → db'.inbox ≡ db.inbox → Advances (row j db) (row j db')
same-Advances j db db' e = simp e (Advances-refl (row j db))

pub complete_inbox-Advances :
    (json : Json) (j now : ℕ) (c : Completion) (db : Db)
    → settles c.state ≡ true
    → Advances (row j db) (row j (after db (complete_inbox json now c db)))
complete_inbox-Advances json j now c db settles_ =
    after-Advances j db (complete_inbox json now c db) (λ n db' h.
      simp (complete-inbox json now c db db' n h)
        (unfold settle_row in update-Advances j _ _ db.inbox (λ x. refl) (λ x hit. ground arith)))

mark_uncertain-Advances :
    (j now id : ℕ) (db : Db) → Advances (row j db) (row j (mark_uncertain now id db))
mark_uncertain-Advances j now id db =
    update-Advances j _ _ db.inbox (λ x. refl) (λ x hit. ground arith)

updated-inbox :
    (now : ℕ) (m : Migration) (expected : Phase) (db db' : Db)
    → update_migration now m expected db ≡ ok (tt, db')
    → (db'.inbox ≡ db.inbox) ⊎ ((id : ℕ) × (db'.inbox ≡ (mark_uncertain now id db).inbox))
unfolding update_migration
updated-inbox now m expected db db' h = elim (Option-cases (migration m.source.key db)) [
  | inl e ↦ absurd (ground arith)
  | inr (current, e) ↦
      elim (Bool-cases
        (is_empty (if discovers current m then current.error_kind else m.error_kind))) [
          | inl calm ↦ inl (ground arith)
          | inr failed ↦ inr (current.inbox_id, ground arith)
        ]
]

failed-inbox :
    (now : ℕ) (id kind : Text) (db db' : Db) (failed : Migration)
    → fail_migration now id kind db ≡ ok (failed, db')
    → (inbox_id : ℕ) × (db'.inbox ≡ (mark_uncertain now inbox_id db).inbox)
unfolding fail_migration
failed-inbox now id kind db db' failed h =
    elim (Option-cases (first? (λ x. text_eq x.id id) db.migrations)) [
      | inl e ↦ absurd (ground arith)
      | inr (m, e) ↦ (m.inbox_id, ground arith)
    ]

pub update_migration-Advances :
    (j now : ℕ) (m : Migration) (expected : Phase) (db : Db)
    → Advances (row j db) (row j (after db (update_migration now m expected db)))
update_migration-Advances j now m expected db =
    after-Advances j db (update_migration now m expected db) (λ _ db' h.
      elim (updated-inbox now m expected db db' h) [
        | inl e ↦ same-Advances j db db' e
        | inr (id, e) ↦ simp e (mark_uncertain-Advances j now id db)
      ])

pub fail_migration-Advances :
    (j now : ℕ) (id kind : Text) (db : Db)
    → Advances (row j db) (row j (after db (fail_migration now id kind db)))
fail_migration-Advances j now id kind db =
    after-Advances j db (fail_migration now id kind db) (λ failed db' h.
      let (id, e) = failed-inbox now id kind db db' failed h in
      simp e (mark_uncertain-Advances j now id db))

consume-inbox :
    (json : Json) (id : ℕ) (db : Db) (r : Unit {0} × Db)
    → consume_final_action json id db ≡ ok r
    → (r.1).inbox ≡ db.inbox
unfolding consume_final_action
consume-inbox json id db r h = elim (Option-cases (find_reservation id db)) [
  | inl e ↦ ground arith
  | inr (a, e) ↦ elim (Option-cases (first? (Outbox.has_id a.outbox_id) db.outbox)) [
    | inl e₁ ↦ ground arith
    | inr (o, e₁) ↦ elim (Option-cases (json.unmarshal o.final_actions)) [
      | inl e₂ ↦ ground arith
      | inr (actions, e₂) ↦ ground arith
    ]
  ]
]

recover_ids-Advances :
    (json : Json) (j : ℕ) (ids : List ℕ) (db db' : Db)
    → recover_ids json ids db ≡ ok db'
    → Advances (row j db) (row j db')
unfolding recover_ids
recover_ids-Advances json j [] db db' h = same-Advances j db db' (ground arith)
recover_ids-Advances json j (id ∷ ids) db db' h =
    elim (Result-cases (consume_final_action json id db)) [
      | inr (x, e) ↦ absurd (ground arith)
      | inl (r, e) ↦
          let kept = same-Advances j db r.1 (consume-inbox json id db r e) in
          let cancelled_ =
            update-Advances j (is_pending id) (λ x. record x { state = InboxState.cancelled })
              (r.1).inbox (λ x. refl) (λ x hit. ground arith) in
          Advances-trans (row j db) (row j r.1) _ kept (
            Advances-trans (row j r.1) _ _ cancelled_
              (recover_ids-Advances json j ids _ db' (rw e at h)))
    ]

pub recover-Advances :
    (json : Json) (j now : ℕ) (db : Db)
    → Advances (row j db) (row j (recovered db (recover json now db)))
unfolding recover recover_final_action_reservations settle_outbox settle_reservations
recover-Advances json j now db = elim (Result-cases (recover json now db)) [
  | inr (x, e) ↦ rw e (Advances-refl (row j db))
  | inl (db', e) ↦ rw e (
      Advances-trans (row j db) _ _ (settle_inbox-Advances j now db)
        (recover_ids-Advances json j _ _ db' e))
]
