-- ===== src/Store/DeliveryOrder.antt =====
-- The order of delivery: the outbox sends each conversation's messages one at a time, oldest first.
mod Steps
mod Answers
mod Settling
pub mod Others
pub mod Calls
use omp_telegram.Common.{
  ℕ, suc, ◌≤◌, ◌≡◌, ◌∙◌, Bool, true, false, List, [], ◌∷◌, ◌++◌, exists?, update, delete, All,
  All-append, All-update_with, All-map, All-map_with, All-const, All-delete, exists?-update_mono,
  exists?-delete_mono, exists?-append, arith,
}
use omp_telegram.Store.Schema.{OutboxState, outbox_in, OutboxRow, Db}
use omp_telegram.Store.Outbox.{is_active, has_earlier}

abbrev pub being_sent : OutboxRow → Bool
being_sent o = outbox_in (OutboxState.sending ∷ []) o.state

-- Ids are handed out in order, and a message that is being sent has no older message of its conversation
-- queued or being sent.
pub record InOrder (seq : ℕ) (rows : List OutboxRow) : Type 0 where
  pub fresh : All (λ o. o.id ≤ seq) rows
  pub in_order : All (λ o. being_sent o ≡ true → has_earlier o rows ≡ false) rows

abbrev pub IsOrdered : Db → Type 0
IsOrdered db = InOrder db.outbox_seq db.outbox

-- What every UPDATE of a queued message leaves alone; none makes a settled message active.
pub record Keeps (x y : OutboxRow) : Type 0 where
  pub same_id : y.id ≡ x.id
  pub same_chat : y.chat ≡ x.chat
  pub same_thread : y.thread ≡ x.thread
  pub active : is_active y ≡ true → is_active x ≡ true

has_earlier-cong :
    (a b : OutboxRow) (rows : List OutboxRow)
    → a.id ≡ b.id
    → a.chat ≡ b.chat
    → a.thread ≡ b.thread
    → has_earlier a rows ≡ has_earlier b rows
unfolding has_earlier
has_earlier-cong a b rows i c t = rw (i, c, t)

has_earlier-update :
    (c : OutboxRow) (p : OutboxRow → Bool) (f : OutboxRow → OutboxRow) (rows : List OutboxRow)
    → ((x : OutboxRow) → p x ≡ true → Keeps x (f x))
    → has_earlier c rows ≡ false
    → has_earlier c (update p f rows) ≡ false
unfolding has_earlier
has_earlier-update c p f rows keep h =
    exists?-update_mono _ p f rows (λ x hit. ground (arith, keep x hit)) h

module _ (p : OutboxRow → Bool) (f : OutboxRow → OutboxRow) (seq : ℕ) (rows : List OutboxRow)
    (keep : (x : OutboxRow) → p x ≡ true → Keeps x (f x)) where
  -- An update keeps the order, if each message that it starts to send has no older one before it.
  pub update-InOrder :
      All (λ x. p x ≡ true → being_sent (f x) ≡ true → has_earlier x rows ≡ false) rows
      → InOrder seq rows
      → InOrder seq (update p f rows)
  update-InOrder starts h = record {
    fresh =
        All-update_with (λ x. Unit {0}) (λ o. o.id ≤ seq) (λ o. o.id ≤ seq) p f rows
          (λ x hit _ le. omega (arith, (keep x hit).same_id)) (λ x miss _ le. le)
          (All-const _ rows (λ x. tt)) h.fresh;
    in_order =
        All-update_with (λ x. p x ≡ true → being_sent (f x) ≡ true → has_earlier x rows ≡ false)
          (λ o. being_sent o ≡ true → has_earlier o rows ≡ false)
          (λ o. being_sent o ≡ true → has_earlier o (update p f rows) ≡ false) p f rows
          (λ x hit start old sent. has_earlier-update (f x) p f rows keep (
            has_earlier-cong (f x) x rows (keep x hit).same_id (keep x hit).same_chat
              (keep x hit).same_thread
            ∙ start hit sent))
          (λ x miss start old sent. has_earlier-update x p f rows keep (old sent)) starts
          h.in_order;
  }

  -- An update that starts to send nothing keeps the order.
  pub quiet-InOrder :
      ((x : OutboxRow) → p x ≡ true → being_sent (f x) ≡ true → being_sent x ≡ true)
      → InOrder seq rows
      → InOrder seq (update p f rows)
  quiet-InOrder quiet h =
      update-InOrder
        (All-map (λ o. being_sent o ≡ true → has_earlier o rows ≡ false) _ rows
          (λ x old hit sent. old (quiet x hit sent)) h.in_order)
        h

pub delete-InOrder :
    (p : OutboxRow → Bool) (seq : ℕ) (rows : List OutboxRow)
    → InOrder seq rows
    → InOrder seq (delete p rows)
unfolding has_earlier
delete-InOrder p seq rows h = record {
  fresh = All-delete _ p rows h.fresh;
  in_order =
      All-delete _ p rows
        (All-map _ _ rows (λ x old sent. exists?-delete_mono _ p rows (old sent)) h.in_order);
}

-- A new message is younger than all others.
pub append-InOrder :
    (o : OutboxRow) (seq : ℕ) (rows : List OutboxRow)
    → o.id ≡ suc seq
    → being_sent o ≡ false
    → InOrder seq rows
    → InOrder (suc seq) (rows ++ o ∷ [])
unfolding has_earlier exists?
append-InOrder o seq rows e quiet h = record {
  fresh =
      All-append _ rows (o ∷ []) (All-map _ _ rows (λ x le. omega arith) h.fresh) (omega arith, tt);
  in_order =
      All-append _ rows (o ∷ [])
        (All-map_with (λ x. x.id ≤ seq) (λ x. being_sent x ≡ true → has_earlier x rows ≡ false)
          (λ x. being_sent x ≡ true → has_earlier x (rows ++ o ∷ []) ≡ false) rows
          (λ x le old sent. simp exists?-append (ground (arith, old sent))) h.fresh h.in_order)
        ((λ sent. cc), tt);
}
