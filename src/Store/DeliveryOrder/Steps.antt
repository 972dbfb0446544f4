-- ===== src/Store/DeliveryOrder/Steps.antt =====
-- Every operation of the store that touches the outbox keeps the order of delivery.
use omp_telegram.Common.{
  ℕ, suc, ℤ, Text, ◌≡◌, refl, inl, inr, Bool, true, false, ◌==◌, some, [], ◌∷◌, first?, first?-test,
  update, affected, All, All-map, affected_only, Bool-cases, Option-cases, Result, leb, Holds,
  arith,
}
use omp_telegram.Store.Schema.{OutboxState, outbox_in, OutboxRow, Kind, Db}
use omp_telegram.Store.Outbox
use omp_telegram.Store.Outbox.{
  has_earlier, is_claimable, claim_row, change_one, claim_next_output, retry_output,
  server_retry_row, retry_server_output, mark_output, mark_expected, delivered_row,
  mark_output_delivered, push_row, enqueue, enqueue_attachment, new_row,
}
use omp_telegram.Store.DeliveryOrder.{
  being_sent, InOrder, IsOrdered, update-InOrder, quiet-InOrder, append-InOrder,
}

abbrev pub Orders {ℓ} : {A : Type ℓ} → Result (A × Db) → Type 0
Orders = Holds (λ r. IsOrdered r.1)

change_one-IsOrdered :
    (p : OutboxRow → Bool) (f : OutboxRow → OutboxRow) (db : Db)
    → InOrder db.outbox_seq (update p f db.outbox)
    → Orders (change_one p f db)
unfolding change_one
change_one-IsOrdered p f db h = elim (Bool-cases (affected p db.outbox == 1)) [
  | inl e ↦ rw e h
  | inr e ↦ rw e tt
]

pub push_row-IsOrdered :
    (o : OutboxRow) (db : Db)
    → o.id ≡ suc db.outbox_seq
    → being_sent o ≡ false
    → IsOrdered db
    → IsOrdered (push_row o db)
unfolding push_row
push_row-IsOrdered o db e quiet h = append-InOrder o db.outbox_seq db.outbox e quiet h

pub enqueue-IsOrdered :
    (now : ℕ) (chat thread : ℤ) (text : Text) (db : Db)
    → IsOrdered db
    → IsOrdered (enqueue now chat thread text db)
unfolding enqueue
enqueue-IsOrdered now chat thread text db h = push_row-IsOrdered _ db refl refl h

pub enqueue_attachment-IsOrdered :
    (now : ℕ) (chat thread : ℤ) (kind : Kind) (path name caption : Text) (db : Db)
    → IsOrdered db
    → Orders (enqueue_attachment now chat thread kind path name caption db)
unfolding enqueue_attachment
enqueue_attachment-IsOrdered now chat thread Kind.text path name caption db h = tt
enqueue_attachment-IsOrdered now chat thread _ path name caption db h =
    push_row-IsOrdered _ db refl refl h

-- The row that a claim reads is the only one that its UPDATE changes, and has no older one before it.
claim_starts :
    (now clock : ℕ) (db : Db) (o : OutboxRow)
    → first? (is_claimable now db.outbox) db.outbox ≡ some o
    → affected (Outbox.is_pending o.id) db.outbox ≡ 1
    → All
        (λ x.
          Outbox.is_pending o.id x ≡ true
          → being_sent (claim_row clock x) ≡ true
          → has_earlier x db.outbox ≡ false)
        db.outbox
claim_starts now clock db o e one =
    All-map (λ x. Outbox.is_pending o.id x ≡ true → x ≡ o) _ db.outbox
      (λ x same hit sent. rw (same hit) unclaimed)
      (affected_only (is_claimable now db.outbox) (Outbox.is_pending o.id) db.outbox o e pending
        one)
  where
    claimable : is_claimable now db.outbox o ≡ true
    claimable = first?-test _ db.outbox o e

    pending : Outbox.is_pending o.id o ≡ true
    pending = unfold is_claimable in ground (arith, claimable)

    unclaimed : has_earlier o db.outbox ≡ false
    unclaimed = unfold is_claimable in ground (arith, claimable)

pub claim_next_output-IsOrdered :
    (now clock : ℕ) (db : Db) → IsOrdered db → Orders (claim_next_output now clock db)
unfolding claim_next_output
claim_next_output-IsOrdered now clock db h =
    elim (Option-cases (first? (is_claimable now db.outbox) db.outbox)) [
      | inl e ↦ rw e tt
      | inr (o, e) ↦ elim (Bool-cases (affected (Outbox.is_pending o.id) db.outbox == 1)) [
        | inl one ↦
            rw (e, one)
              (update-InOrder (Outbox.is_pending o.id) (claim_row clock) db.outbox_seq db.outbox
                (λ x hit. ground arith) (claim_starts now clock db o e (ground arith)) h)
        | inr none_ ↦ rw (e, none_) tt
      ]
    ]

pub retry_output-IsOrdered :
    (clock id next_attempt_at : ℕ) (db : Db)
    → IsOrdered db
    → Orders (retry_output clock id next_attempt_at db)
unfolding retry_output
retry_output-IsOrdered clock id next_attempt_at db h =
    change_one-IsOrdered _ _ db
      (quiet-InOrder _ _ db.outbox_seq db.outbox (λ x hit. ground arith) (λ x hit sent. cc) h)

pub retry_server_output-IsOrdered :
    (clock id next_attempt_at max_attempts : ℕ) (db : Db)
    → IsOrdered db
    → Orders (retry_server_output clock id next_attempt_at max_attempts db)
unfolding retry_server_output
retry_server_output-IsOrdered clock id next_attempt_at max_attempts db h =
    elim (Bool-cases (leb 1 max_attempts)) [
      | inr refused ↦ rw refused tt
      | inl allowed ↦ rw allowed (elim (Option-cases (first? (Outbox.is_sending id) db.outbox)) [
        | inl e ↦ rw e tt
        | inr (o, e) ↦ rw e (elim (Bool-cases (affected (Outbox.is_sending id) db.outbox == 1)) [
          | inl one ↦ rw one (
              quiet-InOrder _ _ db.outbox_seq db.outbox
                (λ x hit. unfold server_retry_row in ground arith)
                (λ x hit sent. unfold server_retry_row in ground arith) h)
          | inr none_ ↦ rw none_ tt
        ])
      ])
    ]

-- The only caller of MarkOutput settles a message; it never marks one as being sent.
pub mark_output-IsOrdered :
    (clock id : ℕ) (state : OutboxState) (db : Db)
    → outbox_in (OutboxState.sending ∷ []) state ≡ false
    → IsOrdered db
    → Orders (mark_output clock id state db)
unfolding mark_output
mark_output-IsOrdered clock id OutboxState.pending db e h = tt
mark_output-IsOrdered clock id OutboxState.sending db e h = cc
mark_output-IsOrdered clock id _ db e h =
    change_one-IsOrdered _ _ db
      (quiet-InOrder _ _ db.outbox_seq db.outbox (λ x hit. ground arith) (λ x hit sent. cc) h)

pub mark_output_delivered-IsOrdered :
    (clock id : ℕ) (message_id : ℤ) (sent_header markup : Text) (db : Db)
    → IsOrdered db
    → Orders (mark_output_delivered clock id message_id sent_header markup db)
unfolding mark_output_delivered
mark_output_delivered-IsOrdered clock id message_id sent_header markup db h =
    change_one-IsOrdered _ _ db
      (quiet-InOrder _ _ db.outbox_seq db.outbox (λ x hit. ground arith) (λ x hit sent. cc) h)
