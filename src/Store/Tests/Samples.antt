-- ===== src/Store/Tests/Samples.antt =====
-- Sample rows of the tables.
use omp_telegram.Common.{ℕ, pos, codes, true, false, [], ◌∷◌}
use omp_telegram.Store.Schema.{
  InboxState, InboxRow, OutboxState, OutboxRow, Kind, BindingKey, Binding, StartKind, StartIntent,
  Phase, Migration, ActionRow, FollowupState, FollowupRequest, Db, empty_db,
}

abbrev pub topic : BindingKey
topic = record { bot = pos 7; chat = pos 100; thread = pos 3 }

abbrev pub other_topic : BindingKey
other_topic = record { bot = pos 7; chat = pos 100; thread = pos 4 }

abbrev pub bound : Binding
bound = record {
  key = topic;
  workspace = codes "/work";
  session = codes "/s/a.jsonl";
  session_id = codes "0a1b2c3d";
  generation = pos 1;
  last_used_at = 50;
  running = true;
  interrupted = false;
}

abbrev pub input : ℕ → InboxState → InboxRow
input id state = record {
  id = id;
  raw = codes "{}";
  state = state;
  reply_to = pos 9;
  created_at = 10;
  updated_at = 10;
}

abbrev pub message : ℕ → OutboxState → OutboxRow
message id state = record {
  id = id;
  inbox_id = 5;
  chat = pos 100;
  thread = pos 3;
  text = codes "hi";
  state = state;
  reply_to = pos 0;
  kind = Kind.text;
  path = [];
  name = [];
  created_at = 10;
  updated_at = 10;
  next_attempt_at = 10;
  attempt_count = 0;
  server_retry_count = 0;
  header = codes "working";
  message_id = pos 77;
  header_pending = false;
  header_editable = true;
  assistant_body = true;
  final_actions = [];
  actions_pending = 0;
}

abbrev pub button : ActionRow
button = record {
  token = codes "tok";
  outbox_id = 1;
  key = topic;
  user = pos 8;
  workspace = codes "/work";
  session = codes "/s/a.jsonl";
  session_id = codes "0a1b2c3d";
  generation = pos 1;
  config = codes "cfg";
  command = codes "retry";
  consumed = false;
  consumed_by = 0;
}

abbrev pub request : FollowupRequest
request = record {
  token = codes "ask";
  instance_id = codes "run";
  key = topic;
  user = pos 8;
  prompt_id = pos 12;
  task_id = 4;
  inbox_id = 0;
  workspace = codes "/work";
  session = codes "/s/a.jsonl";
  generation = pos 1;
  expires_at = 500;
  state = FollowupState.delivered;
}

abbrev pub migration_of : Binding → Migration
migration_of b = record {
  id = codes "m1";
  source = b;
  inbox_id = 5;
  phase = Phase.prepared;
  summary_entry_id = [];
  summary_hash = [];
  candidate_file = [];
  candidate_id = [];
  provider = codes "p";
  model = codes "m";
  thinking = codes "low";
  fast = false;
  created_at = 20;
  error_kind = [];
}

abbrev pub intent : StartIntent
intent = record {
  key = topic;
  kind = StartKind.new;
  workspace = codes "/work";
  session = codes "/s/b.jsonl";
  generation = pos 2;
}

-- A conversation with a session, an input, a message with a button, and a follow-up that was asked for.
abbrev pub busy : InboxState → Db
busy state = record empty_db {
  bindings = bound ∷ [];
  inbox = input 5 state ∷ input 6 InboxState.pending ∷ [];
  outbox = message 1 OutboxState.done ∷ [];
  outbox_seq = 1;
  final_actions = button ∷ [];
  followups = request ∷ [];
}

-- The same with a migration under way.
abbrev pub migrating : Db
migrating = record (busy InboxState.submitted) { migrations = migration_of bound ∷ [] }
