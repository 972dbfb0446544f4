-- ===== src/Store/InboxLifecycle.antt =====
-- The lifecycle of an incoming update in internal/store: which states may follow which.
mod Updates
mod Transactions
pub mod Calls
pub mod Redelivery
use omp_telegram.Common.{
  ℕ, ℤ, Text, ◌≡◌, refl, ◌∙◌, inl, inr, Bool, true, false, not, ltb, ◌==◌, Option, none, some, List,
  [], ◌∷◌, exists?, first?, first?-update, exists?-first?, update, affected, Bool-cases,
  if◌then◌else◌, after, arith, is_negative,
}
use mathlib.Core.Option
use omp_telegram.Store.Schema.{InboxState, inbox_in, inbox_tag, InboxRow, Db}
use omp_telegram.Store.Inbox.{
  has_id, place, insert_new, accept, accept_ignored, change_one, mark, finish_submitted, settles,
  submit, cancel_pending_followup_inbox,
}
use omp_telegram.Store.FinalActions.{release_final_action, settle_rejected_final_action}
use omp_telegram.Store.Recovery.{settle_inbox, in_state}

abbrev pub row : ℕ → Db → Option InboxRow
row j db = first? (has_id j) db.inbox

-- A pending row may go anywhere, a submitted one to an outcome, and a settled one nowhere.
abbrev pub may_become : InboxState → InboxState → Bool
may_become InboxState.pending t = true
may_become InboxState.submitted t =
    inbox_in
      (InboxState.submitted ∷ InboxState.done ∷ InboxState.cancelled ∷ InboxState.failed
        ∷ InboxState.uncertain ∷ [])
      t
may_become s t = inbox_tag s == inbox_tag t

-- A row stays, with its id and the time it came, and moves only forward.
abbrev pub Advances : Option InboxRow → Option InboxRow → Type 0
Advances none b = Unit
Advances (some r) none = ⊥
Advances (some r) (some s) =
    (may_become r.state s.state ≡ true) × (s.id ≡ r.id) × (s.created_at ≡ r.created_at)

pub may_become_refl : (s : InboxState) → may_become s s ≡ true
may_become_refl s = ground arith

may_become_trans :
    (s t u : InboxState) → may_become s t ≡ true → may_become t u ≡ true → may_become s u ≡ true
may_become_trans InboxState.pending t u h k = refl
may_become_trans InboxState.submitted t u h k = ground arith
may_become_trans s t u h k = ground arith

pub Advances-refl : (a : Option InboxRow) → Advances a a
Advances-refl none = tt
Advances-refl (some r) = (may_become_refl r.state, refl, refl)

pub Advances-trans : (a b c : Option InboxRow) → Advances a b → Advances b c → Advances a c
Advances-trans none b c h k = tt
Advances-trans (some r) none c h k = absurd h
Advances-trans (some r) (some s) none h k = absurd k
Advances-trans (some r) (some s) (some t) h k =
    (may_become_trans r.state s.state t.state h.0 k.0, k.1 ∙ h.1, k.2 ∙ h.2)

-- What an UPDATE may do to a row.
pub record Forward (x y : InboxRow) : Type 0 where
  pub same_id : y.id ≡ x.id
  pub same_time : y.created_at ≡ x.created_at
  pub forward : may_become x.state y.state ≡ true

pub update-Advances :
    (j : ℕ) (p : InboxRow → Bool) (f : InboxRow → InboxRow) (rows : List InboxRow)
    → ((x : InboxRow) → (f x).id ≡ x.id)
    → ((x : InboxRow) → p x ≡ true → Forward x (f x))
    → Advances (first? (has_id j) rows) (first? (has_id j) (update p f rows))
update-Advances j p f rows same step =
    rw (first?-update (has_id j) p f rows (λ x. rw (same x))) (moved (first? (has_id j) rows))
  where
    moved : (a : Option InboxRow) → Advances a (Option.map (λ x. if p x then f x else x) a)
    moved none = tt
    moved (some r) = elim (Bool-cases (p r)) [
      | inl hit ↦ rw hit ((step r hit).forward, (step r hit).same_id, (step r hit).same_time)
      | inr miss ↦ rw miss (may_become_refl r.state, refl, refl)
    ]

pub change_one-Advances :
    (j : ℕ) (p : InboxRow → Bool) (f : InboxRow → InboxRow) (db : Db)
    → ((x : InboxRow) → (f x).id ≡ x.id)
    → ((x : InboxRow) → p x ≡ true → Forward x (f x))
    → Advances (row j db) (row j (after db (change_one p f db)))
unfolding change_one
change_one-Advances j p f db same step = elim (Bool-cases (affected p db.inbox == 1)) [
  | inl one ↦ rw one (update-Advances j p f db.inbox same step)
  | inr none_ ↦ rw none_ (Advances-refl (row j db))
]
