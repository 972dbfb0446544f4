-- ===== src/Store/Schema.antt =====
-- The tables of internal/store/store.go, migration.go, final_actions.go, followup.go and
-- topic_names.go, and the Go structs that carry their rows.
use omp_telegram.Common.{
  ℕ, ℤ, Text, int_eq, int_eq_iff, ◌≡◌, ◌↔◌, arith, Bool, false, true, ◌&&◌, ◌||◌, ◌==◌, Option,
  none, List, [], ◌∷◌,
}

pub data InboxState : Type 0 where
  pending submitted done cancelled failed ignored uncertain : InboxState

abbrev pub inbox_tag : InboxState → ℕ
inbox_tag InboxState.pending = 0
inbox_tag InboxState.submitted = 1
inbox_tag InboxState.done = 2
inbox_tag InboxState.cancelled = 3
inbox_tag InboxState.failed = 4
inbox_tag InboxState.ignored = 5
inbox_tag InboxState.uncertain = 6

-- state IN (...)
abbrev pub inbox_in : List InboxState → InboxState → Bool
inbox_in [] s = false
inbox_in (t ∷ ts) s = inbox_tag t == inbox_tag s || inbox_in ts s

pub data OutboxState : Type 0 where
  pending sending done failed uncertain cancelled sent : OutboxState

abbrev pub outbox_tag : OutboxState → ℕ
outbox_tag OutboxState.pending = 0
outbox_tag OutboxState.sending = 1
outbox_tag OutboxState.done = 2
outbox_tag OutboxState.failed = 3
outbox_tag OutboxState.uncertain = 4
outbox_tag OutboxState.cancelled = 5
outbox_tag OutboxState.sent = 6

-- state IN (...)
abbrev pub outbox_in : List OutboxState → OutboxState → Bool
outbox_in [] s = false
outbox_in (t ∷ ts) s = outbox_tag t == outbox_tag s || outbox_in ts s

-- The three columns by which a conversation is found.
pub record BindingKey : Type 0 where
  pub bot : ℤ
  pub chat : ℤ
  pub thread : ℤ

-- bot=? AND chat=? AND thread=?
unfoldable pub key_eq : BindingKey → BindingKey → Bool
key_eq a b = int_eq a.bot b.bot && int_eq a.chat b.chat && int_eq a.thread b.thread

pub key_eq_iff : (a b : BindingKey) → (key_eq a b ≡ true) ↔ (a ≡ b)
unfolding key_eq
key_eq_iff a b =
    ground (arith, int_eq_iff a.bot b.bot, int_eq_iff a.chat b.chat, int_eq_iff a.thread b.thread)

pub record InboxRow : Type 0 where
  pub id : ℕ
  pub raw : Text
  pub state : InboxState
  pub reply_to : ℤ
  pub created_at : ℕ
  pub updated_at : ℕ

pub data Kind : Type 0 where
  text photo document : Kind

abbrev pub is_text : Kind → Bool
is_text Kind.text = true
is_text _ = false

pub record OutboxRow : Type 0 where
  pub id : ℕ
  pub inbox_id : ℕ
  pub chat : ℤ
  pub thread : ℤ
  pub text : Text
  pub state : OutboxState
  pub reply_to : ℤ
  pub kind : Kind
  pub path : Text
  pub name : Text
  pub created_at : ℕ
  pub updated_at : ℕ
  pub next_attempt_at : ℕ
  pub attempt_count : ℕ
  pub server_retry_count : ℕ
  pub header : Text
  pub message_id : ℤ
  pub header_pending : Bool
  pub header_editable : Bool
  pub assistant_body : Bool
  pub final_actions : Text
  pub actions_pending : ℕ  -- 0, 1 or 2

pub record Binding : Type 0 where
  pub key : BindingKey
  pub open key use *
  pub workspace : Text
  pub session : Text
  pub session_id : Text
  pub generation : ℤ
  pub last_used_at : ℕ
  pub running : Bool
  pub interrupted : Bool

pub data StartKind : Type 0 where
  new resume : StartKind

pub record StartIntent : Type 0 where
  pub key : BindingKey
  pub open key use *
  pub kind : StartKind
  pub workspace : Text
  pub session : Text
  pub generation : ℤ

pub record IntentRow : Type 0 where
  pub intent : StartIntent
  pub open intent use *
  pub created_at : ℕ

pub record HistoryRow : Type 0 where
  pub key : BindingKey
  pub workspace : Text
  pub session : Text
  pub generation : ℤ

pub record Favorite : Type 0 where
  pub key : BindingKey
  pub workspace : Text
  pub session_id : Text

pub record ArgsRow : Type 0 where
  pub preset_index : ℕ
  pub args_fingerprint : Text

pub data Phase : Type 0 where
  prepared handoff initialize verify : Phase

pub record Migration : Type 0 where
  pub id : Text
  pub source : Binding
  pub inbox_id : ℕ
  pub phase : Phase
  pub summary_entry_id : Text
  pub summary_hash : Text
  pub candidate_file : Text
  pub candidate_id : Text
  pub provider : Text
  pub model : Text
  pub thinking : Text
  pub fast : Bool
  pub created_at : ℕ
  pub error_kind : Text

pub record TopicName : Type 0 where
  pub key : BindingKey
  pub name : Text
  pub revision : ℕ

pub record ReservationRow : Type 0 where
  pub key : BindingKey
  pub name : Text
  pub revision : ℕ
  pub active : Bool

pub record ProgressRow : Type 0 where
  pub inbox_id : ℕ
  pub chat : Option ℤ
  pub message_id : ℤ
  pub retired : Bool
  pub first_outbox_id : ℕ
  pub last_outbox_id : ℕ

pub record ActionRow : Type 0 where
  pub token : Text
  pub outbox_id : ℕ
  pub key : BindingKey
  pub user : ℤ
  pub workspace : Text
  pub session : Text
  pub session_id : Text
  pub generation : ℤ
  pub config : Text
  pub command : Text
  pub consumed : Bool
  pub consumed_by : ℕ

pub data FollowupState : Type 0 where
  pending delivered cancelled consumed uncertain : FollowupState

pub record FollowupRequest : Type 0 where
  pub token : Text
  pub instance_id : Text
  pub key : BindingKey
  pub user : ℤ
  pub prompt_id : ℤ
  pub task_id : ℕ
  pub inbox_id : ℕ
  pub workspace : Text
  pub session : Text
  pub generation : ℤ
  pub expires_at : ℕ
  pub state : FollowupState

-- The database. `outbox_seq` is the largest id that AUTOINCREMENT has given out; `offset` and `bot` are
-- the two rows of the table `meta`.
pub record Db : Type 0 where
  pub offset : Option ℕ
  pub bot : Option ℤ
  pub bindings : List Binding
  pub startup_intents : List IntentRow
  pub history : List HistoryRow
  pub favorites : List Favorite
  pub inbox : List InboxRow
  pub outbox : List OutboxRow
  pub outbox_seq : ℕ
  pub args_selection : List ArgsRow
  pub migrations : List Migration
  pub language : Option Text
  pub topic_names : List TopicName
  pub reservations : List ReservationRow
  pub progress : List ProgressRow
  pub final_actions : List ActionRow
  pub followups : List FollowupRequest

-- A new database.
unfoldable pub empty_db : Db
empty_db = record {
  offset = none;
  bot = none;
  bindings = [];
  startup_intents = [];
  history = [];
  favorites = [];
  inbox = [];
  outbox = [];
  outbox_seq = 0;
  args_selection = [];
  migrations = [];
  language = none;
  topic_names = [];
  reservations = [];
  progress = [];
  final_actions = [];
  followups = [];
}
