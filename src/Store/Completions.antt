-- ===== src/Store/Completions.antt =====
-- Completing an update (internal/store/store.go): what the transaction does to the inbox, on every path.
use omp_telegram.Common.{
  ℕ, suc, ℤ, pos, Text, ◌≡◌, refl, ◌∙◌, inl, inr, Bool, true, false, Option, none, some, List, [],
  ◌∷◌, last?, first?, exists?-first?, exists?-update_none, update, invalid, if◌then◌else◌, ok, err,
  Result-cases, Option-cases, arith,
}
use omp_telegram.Store.Schema.{InboxState, InboxRow, Db}
use omp_telegram.Store.Inbox
use omp_telegram.Store.FinalActions.{
  FinalAction, FinalActionSet, Json, insert_action, insert_actions, register_final_actions,
  is_body_of,
}
use omp_telegram.Store.Replies.{
  Part, insert_replies, reply_target, Completion, complete_inbox, settle_submitted,
  set_target_header, register_actions, append_replies, body_parts_of, carries_header, part_of,
}

insert_action-inbox :
    (set : FinalActionSet) (target : ℕ) (a : FinalAction) (db db' : Db)
    → insert_action set target a db ≡ ok db'
    → db'.inbox ≡ db.inbox
unfolding insert_action
insert_action-inbox set target a db db' h = ground arith

insert_actions-inbox :
    (set : FinalActionSet) (target : ℕ) (actions : List FinalAction) (db db' : Db)
    → insert_actions set target actions db ≡ ok db'
    → db'.inbox ≡ db.inbox
unfolding insert_actions
insert_actions-inbox set target [] db db' h = ground arith
insert_actions-inbox set target (a ∷ actions) db db' h =
    elim (Result-cases (insert_action set target a db)) [
      | inr (x, e) ↦ ground arith
      | inl (mid, e) ↦
          insert_actions-inbox set target actions mid db' (rw e at h)
          ∙ insert_action-inbox set target a db mid e
    ]

register_final_actions-inbox :
    (json : Json) (inbox_id : ℕ) (chat thread : ℤ) (set : FinalActionSet) (db db' : Db)
    → register_final_actions json inbox_id chat thread set db ≡ ok db'
    → db'.inbox ≡ db.inbox
unfolding register_final_actions
register_final_actions-inbox json inbox_id chat thread set db db' h =
    elim (Option-cases (last? (is_body_of inbox_id chat thread) db.outbox)) [
      | inl e ↦ ground arith
      | inr (target, e) ↦ elim (Result-cases (insert_actions set target.id set.actions db)) [
        | inr (x, q) ↦ ground arith
        | inl (mid, q) ↦ ground (arith, insert_actions-inbox set target.id set.actions db mid q)
      ]
    ]

register_actions-inbox :
    (json : Json) (c : Completion) (actions : Option FinalActionSet) (db db' : Db)
    → register_actions json c actions db ≡ ok db'
    → db'.inbox ≡ db.inbox
unfolding register_actions
register_actions-inbox json c none db db' h = ground arith
register_actions-inbox json c (some set) db db' h =
    ground (arith, register_final_actions-inbox json c.id c.chat c.thread set db db')

set_target_header-inbox :
    (now : ℕ) (c : Completion) (db db' : Db)
    → set_target_header now c db ≡ ok db'
    → db'.inbox ≡ db.inbox
unfolding set_target_header
set_target_header-inbox now c db db' h = ground arith

insert_replies-inbox :
    (c : Part) (i : ℕ) (replies : List Text) (header : Text) (editable : Bool) (reply_to : ℤ)
    (db : Db)
    → (insert_replies c i replies header editable reply_to db).inbox ≡ db.inbox
unfolding insert_replies
insert_replies-inbox c i [] header editable reply_to db = refl
insert_replies-inbox c i (r ∷ replies) header editable reply_to db =
    insert_replies-inbox c (suc i) replies [] false (pos 0) _

unfoldable pub settle_row : ℕ → InboxState → InboxRow → InboxRow
settle_row now state r = record r { state = state; updated_at = now }

settle_submitted-inbox :
    (now id : ℕ) (state : InboxState) (db db' : Db)
    → settle_submitted now id state db ≡ ok db'
    → db'.inbox ≡ update (Inbox.is_submitted id) (settle_row now state) db.inbox
unfolding settle_submitted settle_row
settle_submitted-inbox now id state db db' h = ground arith

queue : ℕ → Completion → ℤ → Db → Db
queue now c reply_to =
    insert_replies (part_of now c.id c.chat c.thread (body_parts_of c.actions)) 0 c.replies
      (if carries_header c then c.header else []) (carries_header c) reply_to

-- The whole transaction settles the rows of its update that are submitted, and does no more to the inbox.
pub complete-inbox :
    (json : Json) (now : ℕ) (c : Completion) (db db' : Db) (n : ℕ)
    → complete_inbox json now c db ≡ ok (n, db')
    → db'.inbox ≡ update (Inbox.is_submitted c.id) (settle_row now c.state) db.inbox
unfolding complete_inbox queue
complete-inbox json now c db db' n h = elim (Option-cases (reply_target c.id db)) [
  | inl e ↦ ground arith
  | inr (reply_to, e) ↦ elim (Result-cases (settle_submitted now c.id c.state db)) [
    | inr (x, e₁) ↦ ground arith
    | inl (s, e₁) ↦ elim (Result-cases (set_target_header now c (queue now c reply_to s))) [
      | inr (x, e₂) ↦ ground arith
      | inl (t, e₂) ↦ elim (Result-cases (register_actions json c c.actions t)) [
        | inr (x, e₃) ↦ ground arith
        | inl (f, e₃) ↦
            let same : db' ≡ f = ground arith in
            (λ i. (same i).inbox)
            ∙ register_actions-inbox json c c.actions t f e₃
            ∙ set_target_header-inbox now c _ t e₂
            ∙ insert_replies-inbox _ 0 c.replies _ _ reply_to s
            ∙ settle_submitted-inbox now c.id c.state db s e₁
      ]
    ]
  ]
]

reply_target-none :
    (id : ℕ) (db : Db) → first? (Inbox.is_submitted id) db.inbox ≡ none → reply_target id db ≡ none
unfolding reply_target
reply_target-none id db e = rw (e, reply_target) refl

-- An update is answered once. After a completion that settles it, every further completion of it, with
-- whatever replies and outcome, and every further reply to it, with or without a header, editable or
-- not, and whichever of its parts are the answer's body, fails.
pub complete_once :
    (json : Json) (now later : ℕ) (c again : Completion) (chat thread : ℤ) (replies : List Text)
    (header : Text) (editable : Bool) (body_parts : ℕ) (db db' : Db) (n : ℕ)
    → complete_inbox json now c db ≡ ok (n, db')
    → Inbox.settles c.state ≡ true
    → again.id ≡ c.id
    → (complete_inbox json later again db' ≡ err (invalid "input is not submitted"))
      × (append_replies later c.id chat thread replies header editable body_parts db'
          ≡ err (invalid "input is not submitted"))
unfolding complete_inbox append_replies settle_row
complete_once json now later c again chat thread replies header editable body_parts db db' n h
      settles same =
    let gone : first? (Inbox.is_submitted c.id) db'.inbox ≡ none =
      simp (complete-inbox json now c db db' n h) (
        exists?-first? _ _ (
          exists?-update_none (Inbox.is_submitted c.id) (Inbox.is_submitted c.id)
            (settle_row now c.state) db.inbox (λ x hit. ground arith) (λ x hit. hit))) in
    (rw (same, reply_target-none c.id db' gone), rw (reply_target-none c.id db' gone))
