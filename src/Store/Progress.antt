-- ===== src/Store/Progress.antt =====
-- Progress previews of internal/store/store.go: temporary messages that are deleted once their
-- replacement has been delivered.
use omp_telegram.Common.{
  ltb, int_ltb, order_by, ℕ, ◌-◌, ℤ, int_eq, is_positive, is_zero, Bool, true, false, ◌&&◌, ◌||◌,
  not, leb, ◌==◌, if◌then◌else◌, Option, none, some, List, [], ◌∷◌, ◌++◌, select, exists?, update,
  delete, drop, no_rows, invalid, Result, ok, ◌>>=◌, ◌>>◌, guard, or_fail,
}
use omp_telegram.Store.Schema.{
  InboxState, inbox_in, InboxRow, OutboxState, outbox_in, OutboxRow, is_text, ProgressRow, Db,
}
use omp_telegram.Store.Inbox
use omp_telegram.Store.PreviewChats.{UpdateChats, backfill_progress_chats}
use omp_telegram.Store.Outbox

pub record ProgressMessage : Type 0 where
  pub inbox_id : ℕ
  pub chat : ℤ
  pub message_id : ℤ

abbrev pub is_preview : ℕ → ℤ → ProgressRow → Bool
is_preview inbox_id message_id p = p.inbox_id == inbox_id && int_eq p.message_id message_id

-- chat=COALESCE(progress_messages.chat,excluded.chat)
unfoldable pub fill_chat : ℤ → ProgressRow → ProgressRow
fill_chat chat p = record p { chat = elim p.chat [ none ↦ some chat | some c ↦ some c ] }

-- INSERT ... SELECT id FROM inbox WHERE id=? ON CONFLICT(inbox_id,message_id) DO UPDATE
unfoldable pub set_progress_message : ℕ → ℤ → ℤ → Db → Result (Unit {0} × Db)
unfolding fill_chat
set_progress_message inbox_id chat message_id db = do
  guard (not (inbox_id == 0 || is_zero chat || not (is_positive message_id)))
      (invalid "invalid progress message identity")
  guard (exists? (Inbox.has_id inbox_id) db.inbox) no_rows
  ok (
    tt,
    record db {
      progress =
          if exists? (is_preview inbox_id message_id) db.progress
          then update (is_preview inbox_id message_id) (fill_chat chat) db.progress
          else db.progress
            ++ record {
              inbox_id = inbox_id;
              chat = some chat;
              message_id = message_id;
              retired = false;
              first_outbox_id = 0;
              last_outbox_id = 0;
            }
              ∷ [];
    },
  )

abbrev pub head_id : List OutboxRow → Option ℕ
head_id [] = none
head_id (o ∷ _) = some o.id

-- The id of the last of `parts` rows from `first_id` on; 0 for no part.
unfoldable pub replacement_end : ℕ → ℕ → ℕ → Db → Result ℕ
replacement_end inbox_id first_id parts db =
    if leb 1 parts
    then or_fail
        (head_id
          (drop (parts - 1) (select (λ o. o.inbox_id == inbox_id && leb first_id o.id) db.outbox)))
        no_rows
    else ok 0

unfoldable pub retire_progress_messages : ℕ → ℤ → ℕ → ℕ → Db → Result (Unit {0} × Db)
unfolding replacement_end
retire_progress_messages inbox_id message_id first_id parts db = do
  last_id ← replacement_end inbox_id first_id parts db
  let p = λ (x : ProgressRow).
      x.inbox_id == inbox_id
      && (is_zero message_id || int_eq x.message_id message_id)
      && not x.retired
  let f = λ (x : ProgressRow). record x {
    retired = true;
    first_outbox_id = first_id;
    last_outbox_id = last_id;
  }
  ok (tt, record db { progress = update p f db.progress })

-- The previews whose chat is known, in table order.
unfoldable pub known_previews : List ProgressRow → List ProgressMessage
known_previews [] = []
known_previews (p ∷ rows) =
    let rest = known_previews rows in
    elim p.chat [
      | none ↦ rest
      | some chat ↦ record { inbox_id = p.inbox_id; chat = chat; message_id = p.message_id } ∷ rest
    ]

-- ORDER BY inbox_id,message_id
abbrev pub before : ProgressRow → ProgressRow → Bool
before a b =
    ltb a.inbox_id b.inbox_id || (a.inbox_id == b.inbox_id && int_ltb a.message_id b.message_id)

unfoldable pub progress_messages : ℕ → Db → List ProgressMessage
unfolding known_previews
progress_messages inbox_id db =
    known_previews (order_by before (select (λ p. p.inbox_id == inbox_id) db.progress))

abbrev pub belongs_to : ℕ → OutboxRow → Bool
belongs_to inbox_id o = o.inbox_id == inbox_id

abbrev pub is_undelivered : OutboxRow → Bool
is_undelivered o = not (outbox_in (OutboxState.done ∷ OutboxState.sent ∷ []) o.state)

-- A retired preview: its replacement's first and last rows are there, and all between are delivered.
unfoldable pub replacement_delivered : ProgressRow → List OutboxRow → Bool
replacement_delivered p rows =
    p.first_outbox_id == 0
    || (exists? (λ o. belongs_to p.inbox_id o && Outbox.has_id p.first_outbox_id o) rows
        && exists? (λ o. belongs_to p.inbox_id o && Outbox.has_id p.last_outbox_id o) rows
        && not (
            exists?
              (λ o.
                belongs_to p.inbox_id o
                && leb p.first_outbox_id o.id
                && leb o.id p.last_outbox_id
                && is_undelivered o)
              rows))

abbrev pub is_settled : InboxState → Bool
is_settled = inbox_in (
    InboxState.done ∷ InboxState.cancelled ∷ InboxState.failed ∷ InboxState.ignored
    ∷ InboxState.uncertain ∷ [])

-- Any other preview: its update is settled, has a text, and has nothing undelivered.
unfoldable pub answer_delivered : ProgressRow → InboxRow → List OutboxRow → Bool
answer_delivered p i rows =
    is_settled i.state
    && exists? (λ o. belongs_to i.id o && is_text o.kind) rows
    && not (exists? (λ o. belongs_to i.id o && is_undelivered o) rows)

abbrev pub is_some_chat : Option ℤ → Bool
is_some_chat none = false
is_some_chat (some _) = true

unfoldable pub is_completed : ℕ → Db → ProgressRow → Bool
unfolding replacement_delivered answer_delivered
is_completed inbox_id db p =
    exists?
      (λ i.
        Inbox.has_id p.inbox_id i
        && (inbox_id == 0 || i.id == inbox_id)
        && ((p.retired && replacement_delivered p db.outbox)
            || (not p.retired && answer_delivered p i db.outbox)))
      db.inbox
    && is_some_chat p.chat

-- The chats of old previews are filled in first.
unfoldable pub completed_progress_messages : UpdateChats → ℕ → Db → List ProgressMessage × Db
unfolding known_previews is_completed backfill_progress_chats
completed_progress_messages chats inbox_id db =
    let filled = backfill_progress_chats chats db in
    (
      known_previews (order_by before (select (is_completed inbox_id filled) filled.progress)),
      filled,
    )

unfoldable pub clear_progress_message : ℕ → ℤ → Db → Db
clear_progress_message inbox_id message_id db = record db {
  progress = delete (is_preview inbox_id message_id) db.progress;
}
