-- ===== src/Store/Replies.antt =====
-- Replies of internal/store/store.go: the parts of an answer queued for an incoming update, and the
-- transaction that queues the last parts and settles the update.
use omp_telegram.Common.{
  ℕ, suc, ℤ, pos, Text, Bool, true, false, ◌&&◌, ◌||◌, ltb, ◌==◌, if◌then◌else◌, Option, none, some,
  List, [], ◌∷◌, exists?, first?, update, affected, length, no_rows, invalid, Result, ok, ◌>>=◌,
  ◌>>◌, guard, or_fail,
}
use omp_telegram.Store.Schema.{InboxState, inbox_in, OutboxRow, is_text, Db}
use omp_telegram.Store.Inbox
use omp_telegram.Store.Outbox
use omp_telegram.Store.Outbox.{new_row, push_row}
use omp_telegram.Store.Edits.{set_header_row}
use omp_telegram.Store.FinalActions.{FinalActionSet, Json, register_final_actions}

-- The first text queued for an update answers the message that caused it; later ones answer none.
unfoldable pub reply_target : ℕ → Db → Option ℤ
reply_target id db = elim (first? (Inbox.is_submitted id) db.inbox) [
  | none ↦ none
  | some r ↦
      some
        (if exists? (λ o. o.inbox_id == id && is_text o.kind) db.outbox then pos 0 else r.reply_to)
]

-- What all parts of one call share.
pub record Part : Type 0 where
  pub now : ℕ
  pub inbox_id : ℕ
  pub chat : ℤ
  pub thread : ℤ
  pub body_parts : ℕ

abbrev pub part_of : ℕ → ℕ → ℤ → ℤ → ℕ → Part
part_of now id chat thread body_parts = record {
  now = now;
  inbox_id = id;
  chat = chat;
  thread = thread;
  body_parts = body_parts;
}

unfoldable pub part_row : Part → ℕ → ℕ → Text → Text → Bool → ℤ → OutboxRow
unfolding new_row
part_row c id i reply header editable reply_to =
    record (new_row c.now id c.inbox_id c.chat c.thread reply reply_to) {
      header = header;
      header_editable = editable;
      assistant_body = ltb i c.body_parts;
    }

-- The loop over the parts, from part `i`. Only its first round has a header and a reply target.
unfoldable pub insert_replies : Part → ℕ → List Text → Text → Bool → ℤ → Db → Db
unfolding part_row push_row
insert_replies c i [] header editable reply_to db = db
insert_replies c i (reply ∷ replies) header editable reply_to db =
    insert_replies c (suc i) replies [] false (pos 0)
      (push_row (part_row c (suc db.outbox_seq) i reply header editable reply_to) db)

-- The id of the first part, 0 if there is none.
abbrev pub first_id : List Text → Db → ℕ
first_id [] db = 0
first_id (_ ∷ _) db = suc db.outbox_seq

unfoldable pub append_replies : ℕ → ℕ → ℤ → ℤ → List Text → Text → Bool → ℕ → Db → Result (ℕ × Db)
unfolding reply_target insert_replies
append_replies now id chat thread replies header editable body_parts db = do
  reply_to ← or_fail (reply_target id db) (invalid "input is not submitted")
  let part = part_of now id chat thread body_parts
  ok (first_id replies db, insert_replies part 0 replies header editable reply_to db)

unfoldable pub append_inbox_replies : ℕ → ℕ → ℤ → ℤ → List Text → Db → Result (ℕ × Db)
unfolding append_replies
append_inbox_replies now id chat thread replies =
    append_replies now id chat thread replies [] false 0

unfoldable pub append_assistant_replies : ℕ → ℕ → ℤ → ℤ → List Text → Text → Db → Result (ℕ × Db)
unfolding append_replies
append_assistant_replies now id chat thread replies header =
    append_replies now id chat thread replies header true (length replies)

unfoldable pub append_assistant_body_replies :
    ℕ → ℕ → ℤ → ℤ → List Text → Text → ℕ → Db → Result (ℕ × Db)
unfolding append_replies
append_assistant_body_replies now id chat thread replies header body_parts =
    append_replies now id chat thread replies header true body_parts

-- What a completion is asked to do.
pub record Completion : Type 0 where
  pub id : ℕ
  pub chat : ℤ
  pub thread : ℤ
  pub state : InboxState
  pub replies : List Text
  pub target_id : ℕ
  pub header : Text
  pub header_editable : Bool
  pub actions : Option FinalActionSet

unfoldable pub settle_submitted : ℕ → ℕ → InboxState → Db → Result Db
settle_submitted now id state db = do
  guard (affected (Inbox.is_submitted id) db.inbox == 1) (invalid "input is not submitted")
  ok (record db {
    inbox =
        update (Inbox.is_submitted id) (λ r. record r { state = state; updated_at = now }) db.inbox;
  })

-- The final header goes to an earlier reply of the same update, if the caller names one.
unfoldable pub set_target_header : ℕ → Completion → Db → Result Db
unfolding set_header_row
set_target_header now c db = do
  let p = λ (o : OutboxRow).
      Outbox.has_id c.target_id o && o.inbox_id == c.id && is_text o.kind && o.header_editable
  guard (c.target_id == 0 || affected p db.outbox == 1) no_rows
  ok (
      if c.target_id == 0
      then db
      else record db { outbox = update p (set_header_row now c.header) db.outbox })

unfoldable pub register_actions : Json → Completion → Option FinalActionSet → Db → Result Db
unfolding register_final_actions
register_actions json c none db = ok db
register_actions json c (some set) db = elim set.actions [
  | [] ↦ ok db
  | _ ∷ _ ↦ do
    guard (inbox_in (InboxState.done ∷ []) c.state)
        (invalid "final actions require successful settlement")
    register_final_actions json c.id c.chat c.thread set db
]

abbrev pub body_parts_of : Option FinalActionSet → ℕ
body_parts_of none = 0
body_parts_of (some set) = set.body_parts

-- The new first reply carries the header, unless a target does.
abbrev pub carries_header : Completion → Bool
carries_header c = c.header_editable && c.target_id == 0

unfoldable pub complete_inbox : Json → ℕ → Completion → Db → Result (ℕ × Db)
unfolding reply_target settle_submitted insert_replies set_target_header register_actions
complete_inbox json now c db = do
  reply_to ← or_fail (reply_target c.id db) (invalid "input is not submitted")
  settled ← settle_submitted now c.id c.state db
  let part = part_of now c.id c.chat c.thread (body_parts_of c.actions)
  let queued =
      insert_replies part 0 c.replies (if carries_header c then c.header else []) (carries_header c)
        reply_to settled
  titled ← set_target_header now c queued
  final ← register_actions json c c.actions titled
  ok (if carries_header c then first_id c.replies db else c.target_id, final)

abbrev pub plain_completion : ℕ → ℤ → ℤ → InboxState → List Text → Completion
plain_completion id chat thread state replies = record {
  id = id;
  chat = chat;
  thread = thread;
  state = state;
  replies = replies;
  target_id = 0;
  header = [];
  header_editable = false;
  actions = none;
}

unfoldable pub complete_inbox_with_replies : Json → ℕ → ℕ → ℤ → ℤ → List Text → Db → Result (ℕ × Db)
unfolding complete_inbox
complete_inbox_with_replies json now id chat thread replies =
    complete_inbox json now (plain_completion id chat thread InboxState.done replies)

unfoldable pub complete_inbox_uncertain_with_replies :
    Json → ℕ → ℕ → ℤ → ℤ → List Text → Db → Result (ℕ × Db)
unfolding complete_inbox
complete_inbox_uncertain_with_replies json now id chat thread replies =
    complete_inbox json now (plain_completion id chat thread InboxState.uncertain replies)

unfoldable pub complete_inbox_cancelled_with_replies :
    Json → ℕ → ℕ → ℤ → ℤ → List Text → Db → Result (ℕ × Db)
unfolding complete_inbox
complete_inbox_cancelled_with_replies json now id chat thread replies =
    complete_inbox json now (plain_completion id chat thread InboxState.cancelled replies)

unfoldable pub complete_inbox_with_assistant_header :
    Json → ℕ → ℕ → ℤ → ℤ → ℕ → Text → List Text → Db → Result (ℕ × Db)
unfolding complete_inbox
complete_inbox_with_assistant_header json now id chat thread target_id header replies =
    complete_inbox json now (record (plain_completion id chat thread InboxState.done replies) {
      target_id = target_id;
      header = header;
      header_editable = true;
    })

unfoldable pub complete_inbox_with_final_actions :
    Json → ℕ → ℕ → ℤ → ℤ → ℕ → Text → List Text → Option FinalActionSet → Db → Result (ℕ × Db)
unfolding complete_inbox
complete_inbox_with_final_actions json now id chat thread target_id header replies actions =
    complete_inbox json now (record (plain_completion id chat thread InboxState.done replies) {
      target_id = target_id;
      header = header;
      header_editable = true;
      actions = actions;
    })
