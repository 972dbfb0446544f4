-- ===== src/Store/Recovery.antt =====
-- What internal/store/store.go does each time it opens the database: work that was in flight when the
-- process died is settled as uncertain, and a reserved button counts as used. Also the counts that
-- the diagnostics read.
use omp_telegram.Common.{
  ℕ, ◌+◌, ℤ, Bool, false, ◌&&◌, ltb, ◌==◌, if◌then◌else◌, Option, List, [], ◌∷◌, exists?, first?,
  select, update, affected, Result,
}
use omp_telegram.Store.Schema.{
  InboxState, inbox_in, InboxRow, OutboxState, outbox_in, OutboxRow, Db,
}
use omp_telegram.Store.Outbox.{same_conversation, is_active}
use omp_telegram.Store.FinalActions.{Json, recover_final_action_reservations}

abbrev pub in_state : InboxState → InboxRow → Bool
in_state s r = inbox_in (s ∷ []) r.state

abbrev pub out_state : OutboxState → OutboxRow → Bool
out_state s o = outbox_in (s ∷ []) o.state

-- The two UPDATEs of the inbox, in their order.
unfoldable pub settle_inbox : ℕ → Db → Db
settle_inbox now db =
    let unsure =
      update (in_state InboxState.submitted)
        (λ r. record r { state = InboxState.uncertain; updated_at = now }) db.inbox in
    record db {
      inbox =
          update
            (λ r.
              in_state InboxState.pending r
              && exists? (λ a. a.consumed && a.consumed_by == r.id) db.final_actions)
            (λ r. record r { state = InboxState.cancelled; updated_at = now }) unsure;
    }

-- SET actions_pending=0, of an edit that was claimed: it may have been made, and is not repeated.
abbrev pub edit_given_up : OutboxRow → OutboxRow
edit_given_up o = record o { actions_pending = 0 }

-- The two UPDATEs of the outbox, in their order.
unfoldable pub settle_outbox : ℕ → Db → Db
settle_outbox now db =
    let unsure =
      update (out_state OutboxState.sending)
        (λ o. record o { state = OutboxState.uncertain; updated_at = now }) db.outbox in
    record db { outbox = update (λ o. o.actions_pending == 2) edit_given_up unsure }

unfoldable pub settle_reservations : Db → Db
settle_reservations db = record db {
  reservations = update (λ x. x.active) (λ x. record x { active = false }) db.reservations;
}

-- The end of `initialize`, for a database at the current schema version.
unfoldable pub recover : Json → ℕ → Db → Result Db
unfolding settle_inbox settle_outbox settle_reservations
recover json now db =
    recover_final_action_reservations json
      (settle_reservations (settle_outbox now (settle_inbox now db)))

unfoldable pub uncertain : Db → ℕ
uncertain db =
    affected (in_state InboxState.uncertain) db.inbox
    + affected (out_state OutboxState.uncertain) db.outbox

pub record DeliveryCounts : Type 0 where
  pub pending : ℕ
  pub sending : ℕ
  pub uncertain : ℕ

unfoldable pub delivery_counts : List OutboxRow → DeliveryCounts
delivery_counts rows = record {
  pending = affected (out_state OutboxState.pending) rows;
  sending = affected (out_state OutboxState.sending) rows;
  uncertain = affected (out_state OutboxState.uncertain) rows;
}

-- COALESCE(MIN(created_at),0)
unfoldable pub oldest : List OutboxRow → ℕ
oldest [] = 0
oldest (o ∷ []) = o.created_at
oldest (o ∷ p ∷ rows) =
    let rest = oldest (p ∷ rows) in if ltb o.created_at rest then o.created_at else rest

pub record DeliveryDiagnostics : Type 0 where
  pub topic : DeliveryCounts
  pub global : DeliveryCounts
  pub oldest_pending_at : ℕ
  pub head : Option OutboxRow

-- `head` is the row of which the source reads four columns, or their zero values.
unfoldable pub delivery_diagnostics : ℤ → ℤ → Db → DeliveryDiagnostics
unfolding delivery_counts oldest same_conversation
delivery_diagnostics chat thread db =
    let here = select (same_conversation chat thread) db.outbox in
    record {
      topic = delivery_counts here;
      global = delivery_counts db.outbox;
      oldest_pending_at = oldest (select (out_state OutboxState.pending) here);
      head = first? is_active here;
    }
