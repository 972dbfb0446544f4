-- ===== src/Store/FinalActions.antt =====
-- internal/store/final_actions.go: the buttons under a final reply. A click reserves its button, and
-- the reservation is consumed before the command runs.
pub mod Exclusive
use omp_telegram.Common.{
  ℕ, ℤ, int_eq, is_positive, is_zero, Text, text_eq, is_empty, Bool, true, false, ◌&&◌, ◌||◌, not,
  ◌==◌, if◌then◌else◌, Option, none, some, List, [], ◌∷◌, ◌++◌, ◌≡◌, ◌≢◌, exists?, first?, last?,
  update, affected, delete, contains, stale_binding, no_rows, constraint, invalid, Result, ok,
  ◌>>=◌, ◌>>◌, guard, or_fail,
}
use omp_telegram.Store.Schema.{
  InboxState, inbox_in, OutboxState, outbox_in, OutboxRow, is_text, BindingKey, key_eq, Binding,
  ActionRow, Db,
}
use omp_telegram.Store.Inbox
use omp_telegram.Store.Outbox

pub record FinalAction : Type 0 where
  pub token : Text
  pub label : Text
  pub command : Text

pub record FinalActionSet : Type 0 where
  pub binding : Binding
  pub user : ℤ
  pub config : Text
  pub body_parts : ℕ
  pub actions : List FinalAction

pub record FinalActionClaim : Type 0 where
  pub token : Text
  pub config : Text
  pub inbox_id : ℕ
  pub key : BindingKey
  pub user : ℤ
  pub message_id : ℤ
  pub binding : Binding

-- encoding/json on a list of actions: what was marshalled is read back, and is never the empty text.
pub record Json : Type 0 where
  pub marshal : List FinalAction → Text
  pub unmarshal : Text → Option (List FinalAction)
  pub unmarshal-marshal : (actions : List FinalAction) → unmarshal (marshal actions) ≡ some actions
  pub marshal_nonempty : (actions : List FinalAction) → marshal actions ≢ []

-- workspace=? AND session=? AND session_id=? AND generation=?
unfoldable pub same_session : Binding → Binding → Bool
same_session a b =
    text_eq a.workspace b.workspace
    && text_eq a.session b.session
    && text_eq a.session_id b.session_id
    && int_eq a.generation b.generation

-- The INSERT of one button; its token is a primary key.
unfoldable pub insert_action : FinalActionSet → ℕ → FinalAction → Db → Result Db
insert_action set target action db = do
  guard (not (is_empty action.token || is_empty action.command || is_empty action.label))
      (invalid "invalid final action")
  guard (not (exists? (λ a. text_eq a.token action.token) db.final_actions)) constraint
  ok (record db {
    final_actions =
        db.final_actions
        ++ record {
          token = action.token;
          outbox_id = target;
          key = set.binding.key;
          user = set.user;
          workspace = set.binding.workspace;
          session = set.binding.session;
          session_id = set.binding.session_id;
          generation = set.binding.generation;
          config = set.config;
          command = action.command;
          consumed = false;
          consumed_by = 0;
        }
          ∷ [];
  })

unfoldable pub insert_actions : FinalActionSet → ℕ → List FinalAction → Db → Result Db
unfolding insert_action
insert_actions set target [] db = ok db
insert_actions set target (a ∷ actions) db = do
  db' ← insert_action set target a db
  insert_actions set target actions db'

-- final_actions=?,actions_pending=CASE WHEN actions_pending=2 THEN 2 ELSE 1 END
abbrev pub show_actions : Text → OutboxRow → OutboxRow
show_actions encoded o = record o {
  final_actions = encoded;
  actions_pending = if o.actions_pending == 2 then 2 else 1;
}

unfoldable pub is_body_of : ℕ → ℤ → ℤ → OutboxRow → Bool
is_body_of inbox_id chat thread o =
    o.inbox_id == inbox_id
    && Outbox.same_conversation chat thread o
    && is_text o.kind
    && o.assistant_body

unfoldable pub register_final_actions : Json → ℕ → ℤ → ℤ → FinalActionSet → Db → Result Db
unfolding insert_actions is_body_of same_session Outbox.same_conversation
register_final_actions json inbox_id chat thread set db = do
  let b = set.binding
  guard
      (not (
        is_zero b.bot
        || not (int_eq b.chat chat)
        || not (int_eq b.thread thread)
        || not (is_positive set.user)
        || is_empty b.session
        || is_empty set.config))
      stale_binding
  guard (exists? (λ x. key_eq x.key b.key && same_session x b) db.bindings) stale_binding
  elim (last? (is_body_of inbox_id chat thread) db.outbox) [
    | none ↦ ok db
    | some target ↦ do
      db' ← insert_actions set target.id set.actions db
      ok (record db' {
        outbox =
            update (Outbox.has_id target.id) (show_actions (json.marshal set.actions)) db'.outbox;
      })
  ]

abbrev pub is_free : ActionRow → Bool
is_free a = not a.consumed && a.consumed_by == 0

abbrev pub is_reserved_by : ℕ → ActionRow → Bool
is_reserved_by inbox_id a = not a.consumed && a.consumed_by == inbox_id

-- The conversation is still bound to the session that the button was made for, and runs.
unfoldable pub is_bound : ActionRow → List Binding → Bool
is_bound a = exists? λ b.
    key_eq b.key a.key
    && text_eq b.workspace a.workspace
    && text_eq b.session a.session
    && text_eq b.session_id a.session_id
    && int_eq b.generation a.generation
    && b.running

-- The button agrees with the claim that the click carries.
unfoldable pub matches_claim : FinalActionClaim → ActionRow → Bool
matches_claim claim a =
    text_eq a.token claim.token
    && text_eq a.config claim.config
    && key_eq a.key claim.key
    && int_eq a.user claim.user
    && text_eq a.workspace claim.binding.workspace
    && text_eq a.session claim.binding.session
    && text_eq a.session_id claim.binding.session_id
    && int_eq a.generation claim.binding.generation

-- The message that carries the button was delivered under the id that was clicked.
unfoldable pub shows_button : FinalActionClaim → ActionRow → List OutboxRow → Bool
shows_button claim a = exists? λ o.
    o.id == a.outbox_id
    && outbox_in (OutboxState.done ∷ []) o.state
    && int_eq o.message_id claim.message_id
    && is_positive o.message_id

-- The WHERE clause of the reservation's query.
unfoldable pub is_reservable : FinalActionClaim → Db → ActionRow → Bool
unfolding is_bound matches_claim shows_button
is_reservable claim db a =
    is_free a
    && matches_claim claim a
    && shows_button claim a db.outbox
    && is_bound a db.bindings
    && not (exists? (λ i. key_eq i.key a.key) db.startup_intents)
    && exists? (Inbox.is_pending claim.inbox_id) db.inbox
    && not (exists? (λ u. u.consumed_by == claim.inbox_id) db.final_actions)

abbrev pub is_free_token : Text → ActionRow → Bool
is_free_token token a = text_eq a.token token && is_free a

-- `none` is the source's ("", false, nil), which commits nothing.
unfoldable pub reserve_final_action : FinalActionClaim → Db → Result (Option Text × Db)
unfolding is_reservable
reserve_final_action claim db = do
  guard (not (claim.inbox_id == 0)) (invalid "final action requires a persisted callback")
  let p = is_free_token claim.token
  let rows = update p (λ a. record a { consumed_by = claim.inbox_id }) db.final_actions
  elim (first? (is_reservable claim db) db.final_actions) [
    | none ↦ ok (none, db)
    | some a ↦
        if affected p db.final_actions == 1
        then ok (some a.command, record db { final_actions = rows })
        else ok (none, db)
  ]

-- The reservation of a callback whose message is still there.
unfoldable pub find_reservation : ℕ → Db → Option ActionRow
find_reservation inbox_id db =
    first? (λ a. is_reserved_by inbox_id a && exists? (Outbox.has_id a.outbox_id) db.outbox)
      db.final_actions

unfoldable pub check_final_action_reservation : ℕ → Db → Result (Unit {0})
unfolding find_reservation
check_final_action_reservation inbox_id db = do
  a ← or_fail (find_reservation inbox_id db) no_rows
  ok tt

unfoldable pub without_token : Text → List FinalAction → List FinalAction
without_token token = delete (λ a. text_eq a.token token)

-- "" when no button is left
unfoldable pub encode_remaining : Json → List FinalAction → Text
encode_remaining json [] = []
encode_remaining json (a ∷ actions) = json.marshal (a ∷ actions)

unfoldable pub consume_final_action : Json → ℕ → Db → Result (Unit {0} × Db)
unfolding find_reservation without_token encode_remaining
consume_final_action json inbox_id db = do
  a ← or_fail (find_reservation inbox_id db) no_rows
  o ← or_fail (first? (Outbox.has_id a.outbox_id) db.outbox) no_rows
  actions ← or_fail (json.unmarshal o.final_actions) (invalid "json")
  let encoded = encode_remaining json (without_token a.token actions)
  let p = λ (x : ActionRow). text_eq x.token a.token && not x.consumed
  ok (
    tt,
    record db {
      final_actions = update p (λ x. record x { consumed = true }) db.final_actions;
      outbox = update (Outbox.has_id a.outbox_id) (show_actions encoded) db.outbox;
    },
  )

unfoldable pub release_final_action : ℕ → ℕ → Db → Db
release_final_action now inbox_id db = record db {
  inbox =
      update
        (λ r.
          Inbox.has_id inbox_id r
          && inbox_in (InboxState.pending ∷ InboxState.submitted ∷ []) r.state
          && exists? (is_reserved_by r.id) db.final_actions)
        (λ r. record r { state = InboxState.done; updated_at = now }) db.inbox;
  final_actions =
      update (is_reserved_by inbox_id) (λ a. record a { consumed_by = 0 }) db.final_actions;
}

unfoldable pub settle_rejected_final_action : ℕ → ℕ → Db → Db
settle_rejected_final_action now inbox_id db = record db {
  inbox =
      update
        (λ r.
          Inbox.is_pending inbox_id r
          && not (exists? (λ a. a.consumed_by == r.id) db.final_actions))
        (λ r. record r { state = InboxState.done; updated_at = now }) db.inbox;
}

-- SELECT DISTINCT consumed_by ... WHERE consumed=0 AND consumed_by<>0
unfoldable pub reserved_ids : List ActionRow → List ℕ
reserved_ids [] = []
reserved_ids (a ∷ rows) =
    let rest = reserved_ids rows in
    if (not a.consumed && not (a.consumed_by == 0)) && not (contains a.consumed_by rest)
    then a.consumed_by ∷ rest
    else rest

unfoldable pub recover_ids : Json → List ℕ → Db → Result Db
recover_ids json [] db = ok db
recover_ids json (id ∷ ids) db = do
  r ← consume_final_action json id db
  recover_ids json ids (record (r.1) {
    inbox =
        update (Inbox.is_pending id) (λ x. record x { state = InboxState.cancelled }) (r.1).inbox;
  })

unfoldable pub recover_final_action_reservations : Json → Db → Result Db
unfolding reserved_ids recover_ids
recover_final_action_reservations json db = recover_ids json (reserved_ids db.final_actions) db
