-- ===== src/Store/InboxLifecycle/Updates.antt =====
-- The lifecycle of an incoming update over the single statements of internal/store/store.go.
use omp_telegram.Common.{
  ℕ, ℤ, ◌≡◌, refl, inl, inr, false, not, ltb, ◌==◌, Option, none, some, List, [], ◌∷◌, exists?,
  first?, exists?-first?, Bool-cases, after, arith, is_negative,
}
use omp_telegram.Store.Schema.{InboxState, InboxRow, Db}
use omp_telegram.Store.Inbox.{has_id, place, insert_new, mark, finish_submitted, settles, submit}
use omp_telegram.Store.Recovery.{settle_inbox, in_state}
use omp_telegram.Store.InboxLifecycle.{
  row, may_become_refl, Advances, Advances-refl, Advances-trans, update-Advances,
  change_one-Advances,
}

pub mark-Advances :
    (j now id : ℕ) (state : InboxState) (db : Db)
    → Advances (row j db) (row j (after db (mark now id state db)))
unfolding mark
mark-Advances j now id InboxState.pending db = Advances-refl (row j db)
mark-Advances j now id _ db = change_one-Advances j _ _ db (λ x. refl) (λ x hit. ground arith)

pub finish_submitted-Advances :
    (j now id : ℕ) (state : InboxState) (db : Db)
    → Advances (row j db) (row j (after db (finish_submitted now id state db)))
unfolding finish_submitted
finish_submitted-Advances j now id state db = elim (Bool-cases (settles state)) [
  | inr e ↦ rw e (Advances-refl (row j db))
  | inl e ↦ rw e (change_one-Advances j _ _ db (λ x. refl) (λ x hit. ground arith))
]

pub submit-Advances :
    (j now id : ℕ) (reply_to : ℤ) (db : Db)
    → Advances (row j db) (row j (after db (submit now id reply_to db)))
unfolding submit
submit-Advances j now id reply_to db = elim (Bool-cases (not (is_negative reply_to))) [
  | inr e ↦ rw e (Advances-refl (row j db))
  | inl e ↦ rw e (change_one-Advances j _ _ db (λ x. refl) (λ x hit. ground arith))
]

-- Accepting an update leaves the rows that are there alone.
place-Advances :
    (j : ℕ) (r : InboxRow) (rows : List InboxRow)
    → exists? (has_id r.id) rows ≡ false
    → Advances (first? (has_id j) rows) (first? (has_id j) (place r rows))
unfolding place exists? first?
place-Advances j r [] e = tt
place-Advances j r (x ∷ rows) e = elim (Bool-cases (ltb r.id x.id)) [
  | inl less ↦ rw less (elim (Bool-cases (r.id == j)) [
    | inl here ↦ rw here (elim (Bool-cases (x.id == j)) [
      | inl there ↦ absurd (ground arith)
      | inr there ↦
          let same : r.id ≡ j = ground arith in
          rw there
            (absent (first? (has_id j) rows) (exists?-first? _ rows (rw (← same) (ground arith))))
    ])
    | inr there ↦ rw there (Advances-refl _)
  ])
  | inr more ↦ rw more (elim (Bool-cases (x.id == j)) [
    | inl here ↦ rw here (may_become_refl x.state, refl, refl)
    | inr there ↦ rw there (place-Advances j r rows (ground arith))
  ])
]
  where
    absent : (a : Option InboxRow) → a ≡ none → Advances a (some r)
    absent a e = rw e tt

pub insert_new-Advances :
    (j : ℕ) (r : InboxRow) (rows : List InboxRow)
    → Advances (first? (has_id j) rows) (first? (has_id j) (insert_new r rows))
unfolding insert_new
insert_new-Advances j r rows = elim (Bool-cases (exists? (has_id r.id) rows)) [
  | inl old ↦ rw old (Advances-refl _)
  | inr new ↦ rw new (place-Advances j r rows new)
]

pub settle_inbox-Advances :
    (j now : ℕ) (db : Db) → Advances (row j db) (row j (settle_inbox now db))
unfolding settle_inbox
settle_inbox-Advances j now db =
    Advances-trans (row j db) _ _
      (update-Advances j (in_state InboxState.submitted) _ db.inbox (λ x. refl)
        (λ x hit. ground arith))
      (update-Advances j _ _ _ (λ x. refl) (λ x hit. ground arith))
