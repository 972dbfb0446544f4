-- ===== src/Store/DeliveryOrder/Answers.antt =====
-- Queueing answers, editing delivered messages, buttons, migrations, retention and recovery keep the
-- order of delivery.
use omp_telegram.Common.{
  ℕ, suc, ℤ, pos, Text, ◌≡◌, refl, inl, inr, Bool, false, ◌&&◌, not, is_empty, ◌==◌, Option, none,
  some, List, [], ◌∷◌, exists?, first?, last?, update, affected, is_zero, int_eq, is_positive,
  Bool-cases, Option-cases, Result-cases, Holds-ok, ◌||◌, ok, ◌>>=◌, Holds, if◌then◌else◌, arith,
  text_eq,
}
use omp_telegram.Store.Schema.{InboxState, inbox_in, OutboxRow, is_text, key_eq, Db}
use omp_telegram.Store.Inbox
use omp_telegram.Store.Outbox
use omp_telegram.Store.Edits.{
  set_assistant_header, header_due, next_assistant_header, mark_assistant_header_delivered,
  actions_due, claim_final_action_edit, release_assistant_edit, finish_final_action_edit,
}
use omp_telegram.Store.FinalActions.{
  FinalAction, FinalActionSet, Json, insert_action, insert_actions, register_final_actions,
  is_body_of, same_session, show_actions,
}
use omp_telegram.Store.Replies
use omp_telegram.Store.Replies.{
  Part, insert_replies, append_replies, reply_target, Completion, complete_inbox, settle_submitted,
  set_target_header, register_actions, body_parts_of, carries_header, part_of,
}
use omp_telegram.Store.DeliveryOrder.{InOrder, IsOrdered, quiet-InOrder}
use omp_telegram.Store.DeliveryOrder.Steps.{Orders, push_row-IsOrdered}

pub set_assistant_header-IsOrdered :
    (clock id : ℕ) (header : Text) (db : Db)
    → IsOrdered db
    → Orders (set_assistant_header clock id header db)
unfolding set_assistant_header
set_assistant_header-IsOrdered clock id header db h =
    elim (Bool-cases
      (affected (λ o. Outbox.has_id id o && is_text o.kind && o.header_editable) db.outbox == 1)) [
        | inl one ↦ rw one (
            quiet-InOrder _ _ db.outbox_seq db.outbox (λ x hit. ground arith) (λ x hit sent. sent)
              h)
        | inr none_ ↦ rw none_ tt
      ]

pub next_assistant_header-IsOrdered : (db : Db) → IsOrdered db → Orders (next_assistant_header db)
unfolding next_assistant_header
next_assistant_header-IsOrdered db h = elim (Option-cases (first? header_due db.outbox)) [
  | inl e ↦ rw e tt
  | inr (o, e) ↦
      rw e
        (quiet-InOrder _ _ db.outbox_seq db.outbox (λ x hit. ground arith) (λ x hit sent. sent) h)
]

pub mark_assistant_header_delivered-IsOrdered :
    (id : ℕ) (header actions : Text) (db : Db)
    → IsOrdered db
    → IsOrdered (mark_assistant_header_delivered id header actions db)
unfolding mark_assistant_header_delivered
mark_assistant_header_delivered-IsOrdered id header actions db h =
    quiet-InOrder _ _ db.outbox_seq db.outbox (λ x hit. ground arith) (λ x hit sent. sent) h

pub claim_final_action_edit-IsOrdered :
    (clock : ℕ) (db : Db) → IsOrdered db → Orders (claim_final_action_edit clock db)
unfolding claim_final_action_edit
claim_final_action_edit-IsOrdered clock db h = elim (Option-cases (first? actions_due db.outbox)) [
  | inl e ↦ rw e tt
  | inr (o, e) ↦
      rw e
        (quiet-InOrder _ _ db.outbox_seq db.outbox (λ x hit. ground arith) (λ x hit sent. sent) h)
]

pub release_assistant_edit-IsOrdered :
    (id : ℕ) (db : Db) → IsOrdered db → IsOrdered (release_assistant_edit id db)
unfolding release_assistant_edit
release_assistant_edit-IsOrdered id db h =
    quiet-InOrder _ _ db.outbox_seq db.outbox (λ x hit. ground arith) (λ x hit sent. sent) h

pub finish_final_action_edit-IsOrdered :
    (id : ℕ) (snapshot : Text) (db : Db)
    → IsOrdered db
    → IsOrdered (finish_final_action_edit id snapshot db)
unfolding finish_final_action_edit
finish_final_action_edit-IsOrdered id snapshot db h =
    quiet-InOrder _ _ db.outbox_seq db.outbox (λ x hit. ground arith) (λ x hit sent. sent) h

insert_replies-IsOrdered :
    (c : Part) (i : ℕ) (replies : List Text) (header : Text) (editable : Bool) (reply_to : ℤ)
    (db : Db)
    → IsOrdered db
    → IsOrdered (insert_replies c i replies header editable reply_to db)
unfolding insert_replies
insert_replies-IsOrdered c i [] header editable reply_to db h = h
insert_replies-IsOrdered c i (r ∷ replies) header editable reply_to db h =
    insert_replies-IsOrdered c (suc i) replies [] false (pos 0) _
      (push_row-IsOrdered _ db refl refl h)

pub append_replies-IsOrdered :
    (now id : ℕ) (chat thread : ℤ) (replies : List Text) (header : Text) (editable : Bool)
    (body_parts : ℕ) (db : Db)
    → IsOrdered db
    → Orders (append_replies now id chat thread replies header editable body_parts db)
unfolding append_replies
append_replies-IsOrdered now id chat thread replies header editable body_parts db h =
    elim (Option-cases (reply_target id db)) [
      | inl e ↦ rw e tt
      | inr (reply_to, e) ↦
          rw e (insert_replies-IsOrdered _ 0 replies header editable reply_to db h)
    ]

insert_action-IsOrdered :
    (set : FinalActionSet) (target : ℕ) (a : FinalAction) (db : Db)
    → IsOrdered db
    → Holds IsOrdered (insert_action set target a db)
unfolding insert_action
insert_action-IsOrdered set target a db h =
    elim (Bool-cases (not (is_empty a.token || is_empty a.command || is_empty a.label))) [
      | inr e ↦ rw e tt
      | inl e ↦
          rw e (elim (Bool-cases (not (exists? (λ x. text_eq x.token a.token) db.final_actions))) [
            | inl fits ↦ rw fits h
            | inr clash ↦ rw clash tt
          ])
    ]

insert_actions-IsOrdered :
    (set : FinalActionSet) (target : ℕ) (actions : List FinalAction) (db : Db)
    → IsOrdered db
    → Holds IsOrdered (insert_actions set target actions db)
unfolding insert_actions
insert_actions-IsOrdered set target [] db h = h
insert_actions-IsOrdered set target (a ∷ actions) db h =
    elim (Result-cases (insert_action set target a db)) [
      | inl (db', e) ↦ rw e (
          insert_actions-IsOrdered set target actions db'
            (Holds-ok IsOrdered _ db' e (insert_action-IsOrdered set target a db h)))
      | inr (x, e) ↦ rw e tt
    ]

-- An UPDATE of what a message shows moves no message.
pub show_actions-IsOrdered :
    (id : ℕ) (encoded : Text) (db : Db)
    → IsOrdered db
    → InOrder db.outbox_seq (update (Outbox.has_id id) (show_actions encoded) db.outbox)
show_actions-IsOrdered id encoded db h =
    quiet-InOrder _ _ db.outbox_seq db.outbox (λ x hit. ground arith) (λ x hit sent. sent) h

register_final_actions-IsOrdered :
    (json : Json) (inbox_id : ℕ) (chat thread : ℤ) (set : FinalActionSet) (db : Db)
    → IsOrdered db
    → Holds IsOrdered (register_final_actions json inbox_id chat thread set db)
unfolding register_final_actions
register_final_actions-IsOrdered json inbox_id chat thread set db h =
    elim (Bool-cases (
      not (
        is_zero set.binding.bot
        || not (int_eq set.binding.chat chat)
        || not (int_eq set.binding.thread thread)
        || not (is_positive set.user)
        || is_empty set.binding.session
        || is_empty set.config))) [
          | inr e ↦ rw e tt
          | inl e ↦
              rw e
                (elim (Bool-cases (
                  exists? (λ x. key_eq x.key set.binding.key && same_session x set.binding)
                    db.bindings)) [
                      | inr stale ↦ rw stale tt
                      | inl bound ↦
                          rw bound (found (last? (is_body_of inbox_id chat thread) db.outbox) refl)
                    ])
        ]
  where
    found :
        (o : Option OutboxRow)
        → last? (is_body_of inbox_id chat thread) db.outbox ≡ o
        → Holds IsOrdered (elim (last? (is_body_of inbox_id chat thread) db.outbox) [
          | none ↦ ok db
          | some target ↦ do
            db' ← insert_actions set target.id set.actions db
            ok (record db' {
              outbox =
                  update
                    (Outbox.has_id target.id)
                    (show_actions (json.marshal set.actions))
                    db'.outbox;
            })
        ])
    found none e = rw e h
    found (some target) e =
        rw e (elim (Result-cases (insert_actions set target.id set.actions db)) [
          | inl (db', q) ↦ rw q (
              show_actions-IsOrdered target.id (json.marshal set.actions) db' (
                Holds-ok IsOrdered _ db' q
                  (insert_actions-IsOrdered set target.id set.actions db h)))
          | inr (x, q) ↦ rw q tt
        ])

settle_submitted-IsOrdered :
    (now id : ℕ) (state : InboxState) (db : Db)
    → IsOrdered db
    → Holds IsOrdered (settle_submitted now id state db)
unfolding settle_submitted
settle_submitted-IsOrdered now id state db h =
    elim (Bool-cases (affected (Inbox.is_submitted id) db.inbox == 1)) [
      | inl one ↦ rw one h
      | inr none_ ↦ rw none_ tt
    ]

set_target_header-IsOrdered :
    (now : ℕ) (c : Completion) (db : Db)
    → IsOrdered db
    → Holds IsOrdered (set_target_header now c db)
unfolding set_target_header
set_target_header-IsOrdered now c db h = elim (Bool-cases (c.target_id == 0)) [
  | inl e ↦ rw e h
  | inr e ↦
      rw e
        (elim (Bool-cases (
          affected
            (λ o.
              Outbox.has_id c.target_id o
              && o.inbox_id == c.id
              && is_text o.kind
              && o.header_editable)
            db.outbox
          == 1)) [
            | inl one ↦ rw one (
                quiet-InOrder _ _ db.outbox_seq db.outbox (λ x hit. ground arith)
                  (λ x hit sent. sent) h)
            | inr none_ ↦ rw none_ tt
          ])
]

register_actions-IsOrdered :
    (json : Json) (c : Completion) (actions : Option FinalActionSet) (db : Db)
    → IsOrdered db
    → Holds IsOrdered (register_actions json c actions db)
unfolding register_actions
register_actions-IsOrdered json c none db h = h
register_actions-IsOrdered json c (some set) db h = shown set.actions refl
  where
    shown :
        (xs : List FinalAction)
        → set.actions ≡ xs
        → Holds IsOrdered (register_actions json c (some set) db)
    shown [] e = rw (e, register_actions) h
    shown (a ∷ xs) e =
        rw (e, register_actions)
          (elim (Bool-cases (inbox_in (InboxState.done ∷ []) c.state)) [
            | inl done ↦
                rw done (register_final_actions-IsOrdered json c.id c.chat c.thread set db h)
            | inr other ↦ rw other tt
          ])

pub complete_inbox-IsOrdered :
    (json : Json) (now : ℕ) (c : Completion) (db : Db)
    → IsOrdered db
    → Orders (complete_inbox json now c db)
unfolding complete_inbox
complete_inbox-IsOrdered json now c db h = elim (Option-cases (reply_target c.id db)) [
  | inl e ↦ rw e tt
  | inr (reply_to, e) ↦ rw e (settled reply_to)
]
  where
    queue : ℤ → Db → Db
    queue reply_to =
        insert_replies (part_of now c.id c.chat c.thread (body_parts_of c.actions)) 0 c.replies
          (if carries_header c then c.header else []) (carries_header c) reply_to

    titled :
        (queued : Db)
        → IsOrdered queued
        → Orders (
            set_target_header now c queued >>= λ t. register_actions json c c.actions t >>= λ f.
            ok ((if carries_header c then Replies.first_id c.replies db else c.target_id), f))
    titled queued q = elim (Result-cases (set_target_header now c queued)) [
      | inr (x, e) ↦ rw e tt
      | inl (t, e) ↦ rw e (elim (Result-cases (register_actions json c c.actions t)) [
        | inr (x, e') ↦ rw e' tt
        | inl (f, e') ↦ rw e' (
            Holds-ok IsOrdered _ f e' (
              register_actions-IsOrdered json c c.actions t
                (Holds-ok IsOrdered _ t e (set_target_header-IsOrdered now c queued q))))
      ])
    ]

    settled :
        (reply_to : ℤ)
        → Orders (
            settle_submitted now c.id c.state db >>= λ s.
            set_target_header now c (queue reply_to s) >>= λ t.
            register_actions json c c.actions t >>= λ f.
            ok ((if carries_header c then Replies.first_id c.replies db else c.target_id), f))
    settled reply_to = elim (Result-cases (settle_submitted now c.id c.state db)) [
      | inr (x, e) ↦ rw e tt
      | inl (s, e) ↦ rw e (
          titled (queue reply_to s) (
            insert_replies-IsOrdered _ 0 c.replies _ _ reply_to s
              (Holds-ok IsOrdered _ s e (settle_submitted-IsOrdered now c.id c.state db h))))
    ]
