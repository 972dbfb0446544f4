-- ===== src/Store/Inbox.antt =====
-- The inbox of internal/store/store.go: incoming Telegram updates and their durable lifecycle.
-- Each operation takes the clock `now` where the source reads time.Now().Unix().
pub mod Acceptance
pub mod Pages
use omp_telegram.Common.{
  ℕ, zero, suc, ◌+◌, int_eq, ℤ, pos, negsuc, is_positive, is_negative, int_ltb, Text, Bool, ◌&&◌,
  not, ltb, leb, ◌==◌, if◌then◌else◌, Option, none, some, List, [], ◌∷◌, ◌++◌, map, select, exists?,
  update, affected, take, drop, length, contains, inbox_state_transition, invalid, Result, ok, err,
  ◌>>=◌, ◌>>◌, guard, or_fail,
}
use omp_telegram.Store.Schema.{InboxState, inbox_in, InboxRow, Db}

-- An update as the worker reads it.
pub record Input : Type 0 where
  pub id : ℕ
  pub raw : Text

abbrev pub has_id : ℕ → InboxRow → Bool
has_id id r = r.id == id

-- A table with an INTEGER PRIMARY KEY is kept in the order of its keys.
unfoldable pub place : InboxRow → List InboxRow → List InboxRow
place r [] = r ∷ []
place r (x ∷ xs) = if ltb r.id x.id then r ∷ x ∷ xs else x ∷ place r xs

-- INSERT ... ON CONFLICT(id) DO NOTHING
unfoldable pub insert_new : InboxRow → List InboxRow → List InboxRow
unfolding place
insert_new r rows = if exists? (has_id r.id) rows then rows else place r rows

-- INSERT INTO meta VALUES('offset',?) ON CONFLICT(key) DO UPDATE SET value=MAX(value,excluded.value)
unfoldable pub raise_offset : Option ℕ → ℕ → Option ℕ
raise_offset none n = some n
raise_offset (some m) n = some (if leb n m then m else n)

unfoldable pub accept : ℕ → ℕ → Text → Db → Db
unfolding insert_new raise_offset
accept now id raw db = record db {
  inbox =
      insert_new
        (record {
          id = id;
          raw = raw;
          state = InboxState.pending;
          reply_to = pos 0;
          created_at = now;
          updated_at = now;
        })
        db.inbox;
  offset = raise_offset db.offset (id + 1);
}

unfoldable pub accept_ignored : ℕ → ℕ → Db → Db
unfolding insert_new raise_offset
accept_ignored now id db = record db {
  inbox =
      insert_new
        (record {
          id = id;
          raw = [];
          state = InboxState.ignored;
          reply_to = pos 0;
          created_at = now;
          updated_at = now;
        })
        db.inbox;
  offset = raise_offset db.offset (id + 1);
}

-- The next update to poll for: 0 before any was accepted.
unfoldable pub offset : Db → ℕ
offset db = elim db.offset [ none ↦ 0 | some n ↦ n ]

-- The first call records the bot that owns the database; a later one refuses another bot.
unfoldable pub check_bot : ℤ → Db → Result (Unit {0} × Db)
check_bot id db = elim db.bot [
  | none ↦ ok (tt, record db { bot = some id })
  | some old ↦
      if int_eq old id then ok (tt, db) else err (invalid "data directory belongs to another bot")
]

abbrev pub limit_of : ℤ → ℕ
limit_of (pos n) = n
limit_of (negsuc n) = 0

-- state='pending' AND id>? AND id<=?
abbrev pub in_page : ℤ → ℕ → InboxRow → Bool
in_page after_id through_id r =
    inbox_in (InboxState.pending ∷ []) r.state && int_ltb after_id (pos r.id) && leb r.id through_id

unfoldable pub pending_after : ℤ → ℕ → ℤ → Db → Result (List Input)
pending_after after_id through_id limit db = do
  guard (is_positive limit) (invalid "pending input limit must be positive")
  ok (
      map (λ r. record { id = r.id; raw = r.raw })
        (take (limit_of limit) (select (in_page after_id through_id) db.inbox)))

-- int64(^uint64(0)>>1)
abbrev pub max_int64 : ℕ
max_int64 = 9223372036854775807

unfoldable pub pending : ℤ → Db → Result (List Input)
unfolding pending_after
pending limit db = pending_after (negsuc 0) max_int64 limit db

abbrev pub pending_id_query_batch_size : ℕ
pending_id_query_batch_size = 500

-- SELECT id FROM inbox WHERE state='pending' AND id IN (batch)
unfoldable pub pending_batch : List ℕ → List InboxRow → List ℕ
pending_batch ids rows =
    map (λ r. r.id)
      (select (λ r. inbox_in (InboxState.pending ∷ []) r.state && contains r.id ids) rows)

-- The loop over batches, with fuel; the map of ids that it fills is a list here.
unfoldable pub pending_batches : ℕ → List ℕ → List InboxRow → List ℕ
unfolding pending_batch
pending_batches zero ids rows = []
pending_batches (suc fuel) [] rows = []
pending_batches (suc fuel) (i ∷ ids) rows =
    pending_batch (take pending_id_query_batch_size (i ∷ ids)) rows
    ++ pending_batches fuel (drop pending_id_query_batch_size (i ∷ ids)) rows

unfoldable pub pending_ids : List ℕ → Db → List ℕ
unfolding pending_batches
pending_ids ids db = pending_batches (length ids) ids db.inbox

-- The states that `Mark` lets a row leave for each target.
unfoldable pub mark_expected : InboxState → Option (List InboxState)
mark_expected InboxState.submitted = some (InboxState.pending ∷ [])
mark_expected InboxState.done = some (InboxState.pending ∷ InboxState.submitted ∷ [])
mark_expected InboxState.cancelled = some (InboxState.pending ∷ InboxState.submitted ∷ [])
mark_expected InboxState.failed = some (InboxState.pending ∷ [])
mark_expected InboxState.ignored = some (InboxState.pending ∷ [])
mark_expected InboxState.uncertain = some (InboxState.submitted ∷ [])
mark_expected InboxState.pending = none

-- state=?,updated_at=?, and raw=X'' for an ignored row
unfoldable pub mark_row : ℕ → InboxState → InboxRow → InboxRow
mark_row now InboxState.ignored r = record r {
  state = InboxState.ignored;
  updated_at = now;
  raw = [];
}
mark_row now s r = record r { state = s; updated_at = now }

-- An UPDATE of the inbox that must change one row.
unfoldable pub change_one : (InboxRow → Bool) → (InboxRow → InboxRow) → Db → Result (Unit {0} × Db)
change_one p f db = do
  guard (affected p db.inbox == 1) inbox_state_transition
  ok (tt, record db { inbox = update p f db.inbox })

unfoldable pub mark : ℕ → ℕ → InboxState → Db → Result (Unit {0} × Db)
unfolding mark_expected mark_row change_one
mark now id state db = do
  expected ← or_fail (mark_expected state) inbox_state_transition
  change_one (λ r. has_id id r && inbox_in expected r.state) (mark_row now state) db

abbrev pub is_submitted : ℕ → InboxRow → Bool
is_submitted id r = has_id id r && inbox_in (InboxState.submitted ∷ []) r.state

abbrev pub is_pending : ℕ → InboxRow → Bool
is_pending id r = has_id id r && inbox_in (InboxState.pending ∷ []) r.state

-- The states in which `FinishSubmitted` may settle a row.
abbrev pub settles : InboxState → Bool
settles =
    inbox_in
      (InboxState.done ∷ InboxState.cancelled ∷ InboxState.failed ∷ InboxState.uncertain ∷ [])

unfoldable pub finish_submitted : ℕ → ℕ → InboxState → Db → Result (Unit {0} × Db)
unfolding change_one
finish_submitted now id state db = do
  guard (settles state) inbox_state_transition
  change_one (is_submitted id) (λ r. record r { state = state; updated_at = now }) db

unfoldable pub submit : ℕ → ℕ → ℤ → Db → Result (Unit {0} × Db)
unfolding change_one
submit now id reply_to db = do
  guard (not (is_negative reply_to)) (invalid "invalid reply target")
  change_one (is_pending id)
      (λ r. record r { state = InboxState.submitted; reply_to = reply_to; updated_at = now }) db

-- A consumed follow-up that was interrupted before it was appended.
unfoldable pub cancel_pending_followup_inbox : ℕ → ℕ → Db → Db
cancel_pending_followup_inbox now id db = record db {
  inbox =
      update (is_pending id) (λ r. record r { state = InboxState.cancelled; updated_at = now })
        db.inbox;
}

unfoldable pub inbox_uncertain_count : Db → ℕ
inbox_uncertain_count db = affected (λ r. inbox_in (InboxState.uncertain ∷ []) r.state) db.inbox
