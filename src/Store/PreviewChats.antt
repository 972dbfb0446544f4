-- ===== src/Store/PreviewChats.antt =====
-- backfillProgressChats of internal/store/store.go: the chats of previews from before previews had one.
use omp_telegram.Common.{
  ℤ, int_eq, pos, is_zero, Text, ◌&&◌, not, ◌==◌, ℕ, if◌then◌else◌, Option, none, some, List, [],
  ◌∷◌, map, select, exists?, first?,
}
use omp_telegram.Store.Schema.{InboxRow, OutboxRow, ProgressRow, Db}
use omp_telegram.Store.Inbox

-- The chats of the message and of the callback's message that encoding/json reads from a raw update, 0 where
-- there is none; nothing where it reads no update. It is a parameter.
abbrev pub UpdateChats : Type 0
UpdateChats = Text → Option (ℤ × ℤ)

-- `chat` with one more sign of the chat: 0 tells nothing, and another chat than the known one ends it.
unfoldable pub agree : ℤ → ℤ → Option ℤ
agree chat sign =
    if is_zero sign
    then some chat
    else if not (is_zero chat) && not (int_eq chat sign)
    then none
    else some sign

-- MIN(NULLIF(chat,0)) where it is the MAX(NULLIF(chat,0)), as 0 where both are NULL.
unfoldable pub common_chat : List ℤ → Option ℤ
common_chat [] = some (pos 0)
common_chat (c ∷ chats) = if exists? (λ d. not (int_eq d c)) chats then none else some c

unfoldable pub answered_chats : ℕ → List OutboxRow → List ℤ
answered_chats inbox_id rows =
    map (λ o. o.chat) (select (λ o. o.inbox_id == inbox_id && not (is_zero o.chat)) rows)

-- The signs of the update, on top of the chat of its answers.
unfoldable pub signs : Option (ℤ × ℤ) → ℤ → Option ℤ
unfolding agree
signs none chat = some chat
signs (some found) chat = elim (agree chat found.0) [
  | none ↦ none
  | some agreed ↦ agree agreed found.1
]

-- No chat is known as 0.
abbrev pub known : Option ℤ → Option ℤ
known none = none
known (some chat) = if is_zero chat then none else some chat

unfoldable pub resolved_chat : UpdateChats → List OutboxRow → InboxRow → Option ℤ
unfolding common_chat answered_chats signs
resolved_chat chats rows i = elim (common_chat (answered_chats i.id rows)) [
  | none ↦ none
  | some chat ↦ known (signs (chats i.raw) chat)
]

-- The chat of a preview's update, for a preview that has none.
unfoldable pub backfilled : UpdateChats → Db → ProgressRow → ProgressRow
unfolding resolved_chat
backfilled chats db p = elim p.chat [
  | some chat ↦ p
  | none ↦ elim (first? (Inbox.has_id p.inbox_id) db.inbox) [
    | none ↦ p
    | some i ↦ record p { chat = resolved_chat chats db.outbox i }
  ]
]

unfoldable pub backfill_progress_chats : UpdateChats → Db → Db
unfolding backfilled
backfill_progress_chats chats db = record db { progress = map (backfilled chats db) db.progress }
