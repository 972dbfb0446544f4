-- ===== src/Store/Followups.antt =====
-- internal/store/followup.go: a prompt sent to a user, whose reply may be admitted as an input once.
pub mod Once
use omp_telegram.Common.{
  ℕ, ℤ, pos, int_eq, is_positive, Text, text_eq, Bool, true, false, ◌&&◌, ◌||◌, not, ltb, leb, ◌==◌,
  if◌then◌else◌, Option, none, some, List, [], ◌∷◌, ◌++◌, exists?, first?, select, update, affected,
  delete, take, order_by, constraint, invalid, Result, ok, err, ◌>>◌, guard,
}
use omp_telegram.Store.Schema.{
  InboxState, inbox_in, BindingKey, key_eq, Binding, FollowupState, FollowupRequest, Db,
}
use omp_telegram.Store.Inbox

abbrev pub followup_tag : FollowupState → ℕ
followup_tag FollowupState.pending = 0
followup_tag FollowupState.delivered = 1
followup_tag FollowupState.cancelled = 2
followup_tag FollowupState.consumed = 3
followup_tag FollowupState.uncertain = 4

-- state IN (...)
abbrev pub followup_in : List FollowupState → FollowupState → Bool
followup_in [] s = false
followup_in (t ∷ ts) s = followup_tag t == followup_tag s || followup_in ts s

-- A request that a reply may still answer.
abbrev pub is_open : FollowupRequest → Bool
is_open r = followup_in (FollowupState.pending ∷ FollowupState.delivered ∷ []) r.state

abbrev pub cancel_row : FollowupRequest → FollowupRequest
cancel_row r = record r { state = FollowupState.cancelled }

abbrev pub has_token : Text → FollowupRequest → Bool
has_token token r = text_eq r.token token

-- The user's earlier requests are cancelled; the new row has no prompt and no input yet.
unfoldable pub create_followup_request : FollowupRequest → Db → Result (Unit {0} × Db)
create_followup_request r db = do
  guard (not (exists? (has_token r.token) db.followups)) constraint
  let rows =
      update (λ x. key_eq x.key r.key && int_eq x.user r.user && is_open x) cancel_row db.followups
  let new = record r { prompt_id = pos 0; inbox_id = 0; state = FollowupState.pending }
  ok (tt, record db { followups = rows ++ new ∷ [] })

unfoldable pub followup_request : Text → Db → Option FollowupRequest
followup_request token db = first? (has_token token) db.followups

abbrev pub has_prompt : ℤ → ℤ → ℤ → FollowupRequest → Bool
has_prompt bot chat message_id r =
    int_eq r.key.bot bot
    && int_eq r.key.chat chat
    && int_eq r.prompt_id message_id
    && is_positive r.prompt_id

unfoldable pub followup_prompt : ℤ → ℤ → ℤ → Db → Option FollowupRequest
followup_prompt bot chat message_id db = first? (has_prompt bot chat message_id) db.followups

abbrev pub is_unfinished : Text → Text → FollowupRequest → Bool
is_unfinished token instance_id r =
    has_token token r
    && text_eq r.instance_id instance_id
    && followup_in (FollowupState.pending ∷ FollowupState.cancelled ∷ []) r.state

-- state=CASE WHEN state='pending' THEN ? ELSE state END,prompt_id=CASE WHEN ?>0 THEN ? ELSE prompt_id END
unfoldable pub finish_row : FollowupState → ℤ → FollowupRequest → FollowupRequest
finish_row state message_id r = record r {
  state = if followup_in (FollowupState.pending ∷ []) r.state then state else r.state;
  prompt_id = if is_positive message_id then message_id else r.prompt_id;
}

-- Two requests of one chat may not have one prompt: the unique index idx_followup_prompt.
abbrev pub prompt_clash : Text → ℤ → FollowupRequest → FollowupRequest → Bool
prompt_clash token message_id r x =
    is_positive message_id
    && not (has_token token x)
    && has_prompt r.key.bot r.key.chat message_id x

unfoldable pub finish_followup_prompt : Text → Text → ℤ → Bool → Db → Result (Unit {0} × Db)
unfolding finish_row
finish_followup_prompt token instance_id message_id delivered db =
    let sent = delivered && is_positive message_id in
    let state : FollowupState = if sent then FollowupState.delivered else FollowupState.uncertain in
    let prompt : ℤ = if sent then message_id else pos 0 in
    let rows = update (is_unfinished token instance_id) (finish_row state prompt) db.followups in
    elim (first? (is_unfinished token instance_id) db.followups) [
      | none ↦ ok (tt, db)
      | some r ↦
          if exists? (prompt_clash token prompt r) db.followups
          then err constraint
          else ok (tt, record db { followups = rows })
    ]

unfoldable pub cancel_followup_requests : BindingKey → Db → Db
cancel_followup_requests key db = record db {
  followups = update (λ x. key_eq x.key key && is_open x) cancel_row db.followups;
}

-- The binding that the request was made under is still there and runs.
unfoldable pub is_bound : FollowupRequest → Binding → Bool
is_bound r b =
    key_eq b.key r.key
    && int_eq b.generation r.generation
    && text_eq b.workspace r.workspace
    && text_eq b.session r.session
    && b.running

-- The WHERE clause of the claim.
unfoldable pub is_consumable : ℕ → FollowupRequest → ℕ → Db → FollowupRequest → Bool
unfolding is_bound
is_consumable now r inbox_id db x =
    has_token r.token x
    && text_eq x.instance_id r.instance_id
    && followup_in (FollowupState.delivered ∷ []) x.state
    && int_eq x.prompt_id r.prompt_id
    && int_eq x.user r.user
    && key_eq x.key r.key
    && int_eq x.generation r.generation
    && text_eq x.workspace r.workspace
    && text_eq x.session r.session
    && ltb now x.expires_at
    && exists? (Inbox.is_pending inbox_id) db.inbox
    && exists? (is_bound r) db.bindings

-- One input answers at most one request: the unique index idx_followup_inbox.
abbrev pub inbox_clash : Text → ℕ → FollowupRequest → Bool
inbox_clash token inbox_id x = not (has_token token x) && x.inbox_id == inbox_id

unfoldable pub consume_followup_request : ℕ → FollowupRequest → ℕ → Db → Result (Bool × Db)
unfolding is_consumable
consume_followup_request now r inbox_id db =
    let p = is_consumable now r inbox_id db in
    let n = affected p db.followups in
    let claimed =
      update p (λ x. record x { state = FollowupState.consumed; inbox_id = inbox_id })
        db.followups in
    if inbox_id == 0 || n == 0
    then ok (false, db)
    else if exists? (inbox_clash r.token inbox_id) db.followups
    then err constraint
    else if n == 1
    then ok (true, record db { followups = claimed })
    else err (invalid "invalid follow-up claim count")

-- Byte order of two texts, as ORDER BY compares tokens.
unfoldable pub text_ltb : Text → Text → Bool
text_ltb [] [] = false
text_ltb [] (_ ∷ _) = true
text_ltb (_ ∷ _) [] = false
text_ltb (a ∷ s) (b ∷ t) = ltb a b || (a == b && text_ltb s t)

-- ORDER BY expires_at,token
unfoldable pub before : FollowupRequest → FollowupRequest → Bool
unfolding text_ltb
before a b =
    ltb a.expires_at b.expires_at || (a.expires_at == b.expires_at && text_ltb a.token b.token)

-- Its input, if it has one, is neither pending nor submitted any more.
abbrev pub is_stale : ℕ → ℕ → Db → FollowupRequest → Bool
is_stale now cutoff db r =
    ltb r.expires_at cutoff
    && leb r.expires_at now
    && not (
        exists?
          (λ i.
            Inbox.has_id r.inbox_id i
            && inbox_in (InboxState.pending ∷ InboxState.submitted ∷ []) i.state)
          db.inbox)

abbrev pub message_cleanup_batch_size : ℕ
message_cleanup_batch_size = 1000

unfoldable pub cleanup_followup_requests : ℕ → ℕ → Db → ℕ × Db
unfolding before
cleanup_followup_requests now cutoff db =
    let batch =
      take message_cleanup_batch_size
        (order_by before (select (is_stale now cutoff db) db.followups)) in
    let p = λ (r : FollowupRequest). exists? (has_token r.token) batch in
    (affected p db.followups, record db { followups = delete p db.followups })
