-- ===== src/Store/ReplyOrder.antt =====
-- Queueing the parts of an answer (internal/store/store.go): which rows the outbox gets, in which order.
use omp_telegram.Common.{
  ℕ, suc, ◌+◌, ℤ, pos, Text, ◌≡◌, refl, ◌∙◌, inl, inr, Bool, true, false, some, List, [], ◌∷◌, ◌++◌,
  map, length, All, ok, Option-cases, arith,
}
use mathlib.Core.Path.{sym}
use mathlib.Core.List.{append-nil, append_assoc}
use omp_telegram.Store.Schema.{OutboxState, OutboxRow, is_text, Db}
use omp_telegram.Store.Replies.{
  Part, part_of, part_row, insert_replies, reply_target, append_replies,
}

-- The rows of the parts, the first of which has the id after `seq`.
part_rows : Part → ℕ → ℕ → List Text → Text → Bool → ℤ → List OutboxRow
part_rows c seq i [] header editable reply_to = []
part_rows c seq i (r ∷ replies) header editable reply_to =
    part_row c (suc seq) i r header editable reply_to
    ∷ part_rows c (suc seq) (suc i) replies [] false (pos 0)

insert_replies-rows :
    (c : Part) (i : ℕ) (replies : List Text) (header : Text) (editable : Bool) (reply_to : ℤ)
    (db : Db)
    → ((insert_replies c i replies header editable reply_to db).outbox
        ≡ db.outbox ++ part_rows c db.outbox_seq i replies header editable reply_to)
      × ((insert_replies c i replies header editable reply_to db).outbox_seq
          ≡ db.outbox_seq + length replies)
unfolding insert_replies part_rows
insert_replies-rows c i [] header editable reply_to db = (sym (append-nil db.outbox), omega arith)
insert_replies-rows c i (r ∷ replies) header editable reply_to db =
    let (rows, seq) = insert_replies-rows c (suc i) replies [] false (pos 0) _ in
    (rows ∙ append_assoc db.outbox _ _, seq ∙ omega arith)

-- The ids count up from `id`.
abbrev pub IsConsecutive : ℕ → List OutboxRow → Type 0
IsConsecutive id [] = Unit
IsConsecutive id (o ∷ rows) = (o.id ≡ id) × IsConsecutive (suc id) rows

-- Only the first part has a header and answers a message.
abbrev pub LeadsWith : Text → ℤ → List OutboxRow → Type 0
LeadsWith header reply_to [] = Unit
LeadsWith header reply_to (o ∷ rows) =
    (o.header ≡ header)
    × (o.reply_to ≡ reply_to)
    × All (λ x. (x.header ≡ []) × (x.reply_to ≡ pos 0) × (x.header_editable ≡ false)) rows

-- A row that waits to be sent for the update, to its conversation.
pub record Waits (id : ℕ) (chat thread : ℤ) (o : OutboxRow) : Type 0 where
  pub of_update : o.inbox_id ≡ id
  pub in_chat : o.chat ≡ chat
  pub in_thread : o.thread ≡ thread
  pub is_pending : o.state ≡ OutboxState.pending
  pub is_reply : is_text o.kind ≡ true

part_rows-texts :
    (c : Part) (seq i : ℕ) (replies : List Text) (header : Text) (editable : Bool) (reply_to : ℤ)
    → map (λ o. o.text) (part_rows c seq i replies header editable reply_to) ≡ replies
unfolding part_rows part_row
part_rows-texts c seq i [] header editable reply_to = refl
part_rows-texts c seq i (r ∷ replies) header editable reply_to =
    λ j. r ∷ part_rows-texts c (suc seq) (suc i) replies [] false (pos 0) j

part_rows-IsConsecutive :
    (c : Part) (seq i : ℕ) (replies : List Text) (header : Text) (editable : Bool) (reply_to : ℤ)
    → IsConsecutive (suc seq) (part_rows c seq i replies header editable reply_to)
unfolding part_rows part_row
part_rows-IsConsecutive c seq i [] header editable reply_to = tt
part_rows-IsConsecutive c seq i (r ∷ replies) header editable reply_to =
    (refl, part_rows-IsConsecutive c (suc seq) (suc i) replies [] false (pos 0))

part_rows-Waits :
    (c : Part) (seq i : ℕ) (replies : List Text) (header : Text) (editable : Bool) (reply_to : ℤ)
    → All (Waits c.inbox_id c.chat c.thread) (part_rows c seq i replies header editable reply_to)
unfolding part_rows part_row
part_rows-Waits c seq i [] header editable reply_to = tt
part_rows-Waits c seq i (r ∷ replies) header editable reply_to = (
  record { of_update = refl; in_chat = refl; in_thread = refl; is_pending = refl; is_reply = refl },
  part_rows-Waits c (suc seq) (suc i) replies [] false (pos 0),
)

part_rows-follow :
    (c : Part) (seq i : ℕ) (replies : List Text)
    → All
        (λ x. (x.header ≡ []) × (x.reply_to ≡ pos 0) × (x.header_editable ≡ false))
        (part_rows c seq i replies [] false (pos 0))
unfolding part_rows part_row
part_rows-follow c seq i [] = tt
part_rows-follow c seq i (r ∷ replies) =
    ((refl, refl, refl), part_rows-follow c (suc seq) (suc i) replies)

part_rows-LeadsWith :
    (c : Part) (seq i : ℕ) (replies : List Text) (header : Text) (editable : Bool) (reply_to : ℤ)
    → LeadsWith header reply_to (part_rows c seq i replies header editable reply_to)
unfolding part_rows part_row
part_rows-LeadsWith c seq i [] header editable reply_to = tt
part_rows-LeadsWith c seq i (r ∷ replies) header editable reply_to =
    (refl, refl, part_rows-follow c (suc seq) (suc i) replies)

-- What a successful call queues: the rows before, then one row for each reply in the order of the replies,
-- all waiting in the conversation of the update, with consecutive new ids, of which only the first
-- has the header and the target of the answer.
pub append_in_order :
    (now id : ℕ) (chat thread : ℤ) (replies : List Text) (header : Text) (editable : Bool)
    (body_parts n : ℕ) (db db' : Db)
    → append_replies now id chat thread replies header editable body_parts db ≡ ok (n, db')
    → (reply_to : ℤ) × (rows : List OutboxRow) × (reply_target id db ≡ some reply_to)
      × (db'.outbox ≡ db.outbox ++ rows)
      × (map (λ o. o.text) rows ≡ replies)
      × IsConsecutive (suc db.outbox_seq) rows
      × (db'.outbox_seq ≡ db.outbox_seq + length replies)
      × All (Waits id chat thread) rows
      × LeadsWith header reply_to rows
unfolding append_replies
append_in_order now id chat thread replies header editable body_parts n db db' h =
    elim (Option-cases (reply_target id db)) [
      | inl e ↦ absurd (ground arith)
      | inr (reply_to, e) ↦
          let part = part_of now id chat thread body_parts in
          let same : db' ≡ insert_replies part 0 replies header editable reply_to db =
            ground arith in
          let (rows, seq) = insert_replies-rows part 0 replies header editable reply_to db in
          (
            reply_to,
            part_rows part db.outbox_seq 0 replies header editable reply_to,
            e,
            (λ i. (same i).outbox) ∙ rows,
            part_rows-texts part db.outbox_seq 0 replies header editable reply_to,
            part_rows-IsConsecutive part db.outbox_seq 0 replies header editable reply_to,
            (λ i. (same i).outbox_seq) ∙ seq,
            part_rows-Waits part db.outbox_seq 0 replies header editable reply_to,
            part_rows-LeadsWith part db.outbox_seq 0 replies header editable reply_to,
          )
    ]
