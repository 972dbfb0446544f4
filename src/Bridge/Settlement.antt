-- ===== src/Bridge/Settlement.antt =====
-- What one round of the sender in internal/bridge/bridge.go leaves behind.
use omp_telegram.Common.{
  ℕ, ℤ, false, ◌&&◌, not, Bool-cases, some, sym, [], ◌∷◌, ok, ◌≡◌, refl, inl, inr, arith,
}
use omp_telegram.Telegram.Failures.{ErrorInfo}
use omp_telegram.Store.Schema.{OutboxState, outbox_in, OutboxRow, Db}
use omp_telegram.Store.Outbox.{
  claim_next_output, retry_output, retry_server_output, mark_expected, mark_output,
  mark_output_delivered,
}
use omp_telegram.Bridge.Delivery.{
  max_server_delivery_attempts, World, Outcome, sent, refused, after_settled, has_extras,
  settle_sent, settle_lost, retry_or_fail, retry_later, settle_refused, settle, deliver_round,
  retryable_server_rejection, is_rate_limited,
}
use omp_telegram.Bridge.Settling.{
  mark_output-IsSettled, mark_output_delivered-IsSettled, retry_output-IsSettled,
  retry_server_output-IsSettled, after_settled-IsSettled, IsSettled, bind-ok,
}

settle_sent-IsSettled :
    (w : World) (o : OutboxRow) (message_id : ℤ) (db db' : Db)
    → settle_sent w o message_id db ≡ ok db'
    → IsSettled o.id db'
unfolding settle_sent
settle_sent-IsSettled w o message_id db db' h = elim (Bool-cases (has_extras o)) [
  | inl e ↦
      let b =
        bind-ok (mark_output_delivered w.clock o.id message_id o.header o.final_actions db) _ db'
          (rw e at h) in
      let settled =
        mark_output_delivered-IsSettled w.clock o.id message_id o.header o.final_actions db b.0
          b.1 in
      finish b.0.1 (ground (arith, b.2)) settled
  | inr e ↦
      let b = bind-ok (mark_output w.clock o.id OutboxState.done db) _ db' (rw e at h) in
      finish b.0.1 (ground (arith, b.2)) (
        mark_output-IsSettled w.clock o.id OutboxState.done db b.0 (unfold mark_expected in refl)
          refl b.1)
]
  where
    finish :
        (d : Db)
        → after_settled w o OutboxState.done d ≡ db'
        → IsSettled o.id d
        → IsSettled o.id db'
    finish d same settled =
        rw (sym same) (after_settled-IsSettled w o OutboxState.done o.id d settled)

settle_lost-IsSettled :
    (w : World) (o : OutboxRow) (state : OutboxState) (db db' : Db)
    → mark_expected state ≡ some (OutboxState.sending ∷ [])
    → outbox_in (OutboxState.sending ∷ []) state ≡ false
    → settle_lost w o state db ≡ ok db'
    → IsSettled o.id db'
unfolding settle_lost
settle_lost-IsSettled w o state db db' expected out h =
    let b = bind-ok (mark_output w.clock o.id state db) _ db' h in
    let settled = mark_output-IsSettled w.clock o.id state db b.0 expected out b.1 in
    let same : after_settled w o state b.0.1 ≡ db' = ground (arith, b.2) in
    rw (sym same) (after_settled-IsSettled w o state o.id b.0.1 settled)

retry_or_fail-IsSettled :
    (w : World) (o : OutboxRow) (at : ℕ) (db db' : Db)
    → retry_or_fail w o at db ≡ ok db'
    → IsSettled o.id db'
unfolding retry_or_fail
retry_or_fail-IsSettled w o at db db' h =
    let b = bind-ok (retry_server_output w.clock o.id at max_server_delivery_attempts db) _ db' h in
    let settled =
      retry_server_output-IsSettled w.clock o.id at max_server_delivery_attempts db b.0 b.1 in
    elim (Bool-cases b.0.0.1) [
      | inl e ↦
          let same : after_settled w o OutboxState.failed b.0.1 ≡ db' = ground (arith, e, b.2) in
          rw (sym same) (after_settled-IsSettled w o OutboxState.failed o.id b.0.1 settled)
      | inr e ↦ let same : b.0.1 ≡ db' = ground (arith, e, b.2) in rw (sym same) settled
    ]

retry_later-IsSettled :
    (w : World) (o : OutboxRow) (at : ℕ) (db db' : Db)
    → retry_later w o at db ≡ ok db'
    → IsSettled o.id db'
unfolding retry_later
retry_later-IsSettled w o at db db' h =
    let b = bind-ok (retry_output w.clock o.id at db) _ db' h in
    let same : b.0.1 ≡ db' = ground (arith, b.2) in
    rw (sym same) (retry_output-IsSettled w.clock o.id at db b.0 b.1)

settle_refused-IsSettled :
    (w : World) (o : OutboxRow) (info : ErrorInfo) (db db' : Db)
    → settle_refused w o info db ≡ ok db'
    → IsSettled o.id db'
unfolding settle_refused mark_expected
settle_refused-IsSettled w o info db db' h = elim (Bool-cases (retryable_server_rejection info)) [
  | inl e ↦ retry_or_fail-IsSettled w o _ db db' (rw e at h)
  | inr e ↦ elim (Bool-cases (is_rate_limited info && not info.uncertain)) [
    | inl r ↦ retry_later-IsSettled w o _ db db' (rw (e, r) at h)
    | inr r ↦ elim (Bool-cases info.uncertain) [
      | inl u ↦ settle_lost-IsSettled w o OutboxState.uncertain db db' refl refl (rw (e, r, u) at h)
      | inr u ↦ settle_lost-IsSettled w o OutboxState.failed db db' refl refl (rw (e, r, u) at h)
    ]
  ]
]

settle-IsSettled :
    (w : World) (o : OutboxRow) (outcome : Outcome) (db db' : Db)
    → settle w o outcome db ≡ ok db'
    → IsSettled o.id db'
unfolding settle
settle-IsSettled w o (sent message_id) db db' h = settle_sent-IsSettled w o message_id db db' h
settle-IsSettled w o (refused info) db db' h = settle_refused-IsSettled w o info db db' h

-- A round of the sender that ends without a database error leaves no row with the id of the message it
-- claimed marked as being sent, whatever the Bot API answered.
pub deliver_round-IsSettled :
    (w : World) (db db' : Db) (o : OutboxRow)
    → deliver_round w db ≡ ok (o, db')
    → IsSettled o.id db'
unfolding deliver_round settle
deliver_round-IsSettled w db db' o h =
    let c = bind-ok (claim_next_output w.now w.clock db) _ (o, db') h in
    let s = bind-ok (settle w c.0.0 (w.outcome c.0.0) c.0.1) _ (o, db') c.2 in
    let row : c.0.0 ≡ o = ground (arith, s.2) in
    let end : s.0 ≡ db' = ground (arith, s.2) in
    rw (sym row, sym end) (settle-IsSettled w c.0.0 (w.outcome c.0.0) c.0.1 s.0 s.1)
