-- ===== src/Store/Retention.antt =====
-- Retention (internal/store/store.go) deletes no row that is still in use.
use omp_telegram.Common.{
  ℕ, zero, suc, ◌+◌, ◌≡◌, refl, ◌∙◌, ==_iff, inl, inr, Bool, true, false, ◌&&◌, ◌||◌, not, length,
  ◌==◌, ltb, leb, some, List, [], ◌∷◌, Text, ◌++◌, map, take, select, exists?, first?, affected,
  delete, contains, first?-delete, affected-delete, first?-test, affected_only, exists?-All,
  All-map, Bool-cases, arith,
}
use mathlib.Core.Path.{subst, sym}
use omp_telegram.Store.Schema.{
  InboxState, inbox_in, InboxRow, OutboxRow, ProgressRow, Migration, Db,
}
use omp_telegram.Store.Inbox
use omp_telegram.Store.Outbox
use omp_telegram.Store.Followups.{message_cleanup_batch_size, cleanup_followup_requests}
use omp_telegram.Store.Cleanup.{
  batch_ids, inbox_id_of, inbox_expired, cleanup_inbox_batch, is_finished, has_pending_edit,
  cleanup_outbox_batch, clean_inbox, clean_outbox, clean_followups, cleanup_messages,
}

module _ {A : Type 0} (id_of : A → ℕ) where
  -- The rows of an id.
  abbrev has : ℕ → A → Bool
  has j x = id_of x == j

  contains-take :
      (j n : ℕ) (p : A → Bool) (rows : List A)
      → exists? (λ x. has j x && p x) rows ≡ false
      → contains j (map id_of (take n (select p rows))) ≡ false
  unfolding exists? select
  contains-take j zero p rows h = refl
  contains-take j (suc n) p [] h = refl
  contains-take j (suc n) p (x ∷ rows) h =
      ground (arith, contains-take j n p rows, contains-take j (suc n) p rows)

  -- A row that is not selected is not in the batch, if no other row has its id.
  batch_free :
      (j n : ℕ) (p : A → Bool) (rows : List A) (r : A)
      → affected (has j) rows ≡ 1
      → first? (has j) rows ≡ some r
      → p r ≡ false
      → contains j (batch_ids id_of n p rows) ≡ false
  unfolding batch_ids
  batch_free j n p rows r one found out = contains-take j n p rows (
      exists?-All _ rows (
        All-map (λ x. has j x ≡ true → x ≡ r) (λ x. (has j x && p x) ≡ false) rows
          (λ x only. elim (Bool-cases (has j x)) [
            | inr other ↦ rw other
            | inl here ↦
                let e : p x ≡ false = subst (λ y. p y ≡ false) (sym (only here)) out in ground arith
          ])
          (affected_only (has j) (has j) rows r found (first?-test (has j) rows r found) one)))

  -- Deleting a batch keeps it.
  batch_keeps :
      (j n : ℕ) (p : A → Bool) (rows : List A) (r : A)
      → affected (has j) rows ≡ 1
      → first? (has j) rows ≡ some r
      → p r ≡ false
      → (first? (has j) (delete (λ x. contains (id_of x) (batch_ids id_of n p rows)) rows) ≡ some r)
        × (affected (has j) (delete (λ x. contains (id_of x) (batch_ids id_of n p rows)) rows) ≡ 1)
  batch_keeps j n p rows r one found out =
      let ids = batch_ids id_of n p rows in
      let free : contains j ids ≡ false = batch_free j n p rows r one found out in
      let spared : (x : A) → has j x ≡ true → contains (id_of x) ids ≡ false =
        λ x here. let e : id_of x ≡ j = (==_iff (id_of x) j).0 here in rw e free in
      (
        first?-delete (has j) (λ x. contains (id_of x) ids) rows spared ∙ found,
        affected-delete (has j) (λ x. contains (id_of x) ids) rows spared ∙ one,
      )

clean_inbox-keeps :
    (fuel cutoff total j : ℕ) (r : InboxRow) (db : Db)
    → affected (has inbox_id_of j) db.inbox ≡ 1
    → first? (has inbox_id_of j) db.inbox ≡ some r
    → inbox_expired cutoff db.progress db.migrations r ≡ false
    → first? (has inbox_id_of j) ((clean_inbox fuel cutoff total db).1).inbox ≡ some r
unfolding clean_inbox cleanup_inbox_batch
clean_inbox-keeps zero cutoff total j r db one found live = found
clean_inbox-keeps (suc fuel) cutoff total j r db one found live =
    let b = cleanup_inbox_batch cutoff db in
    let (there, single) =
      batch_keeps inbox_id_of j message_cleanup_batch_size
        (inbox_expired cutoff db.progress db.migrations) db.inbox r one found live in
    elim (Bool-cases (ltb b.0 message_cleanup_batch_size)) [
      | inl last ↦ rw last there
      | inr more ↦ rw more (clean_inbox-keeps fuel cutoff (total + b.0) j r b.1 single there live)
    ]

pub clean_outbox-inbox :
    (fuel cutoff total : ℕ) (paths : List Text) (db : Db)
    → ((clean_outbox fuel cutoff total paths db).1).inbox ≡ db.inbox
unfolding clean_outbox cleanup_outbox_batch
clean_outbox-inbox zero cutoff total paths db = refl
clean_outbox-inbox (suc fuel) cutoff total paths db =
    let b = cleanup_outbox_batch cutoff db in
    elim (Bool-cases (ltb (b.0).0 message_cleanup_batch_size)) [
      | inl last ↦ rw last refl
      | inr more ↦ rw more (clean_outbox-inbox fuel cutoff (total + (b.0).0) (paths ++ (b.0).1) b.1)
    ]

pub clean_followups-keeps :
    (fuel now cutoff total : ℕ) (db : Db)
    → (((clean_followups fuel now cutoff total db).1).inbox ≡ db.inbox)
      × (((clean_followups fuel now cutoff total db).1).outbox ≡ db.outbox)
unfolding clean_followups cleanup_followup_requests
clean_followups-keeps zero now cutoff total db = (refl, refl)
clean_followups-keeps (suc fuel) now cutoff total db =
    let b = cleanup_followup_requests now cutoff db in
    elim (Bool-cases (ltb b.0 message_cleanup_batch_size)) [
      | inl last ↦ rw last (refl, refl)
      | inr more ↦ rw more (clean_followups-keeps fuel now cutoff (total + b.0) b.1)
    ]

-- A message that is not finished, or is still to be edited.
unfoldable pub is_live : OutboxRow → Bool
is_live o = not (is_finished o.state) || has_pending_edit o

-- An input is needed while it waits or is being answered, while it is recent, while a preview of its
-- answer is left, and while a migration answers it.
unfoldable pub is_needed : ℕ → List ProgressRow → List Migration → InboxRow → Bool
is_needed cutoff progress migrations r =
    inbox_in (InboxState.pending ∷ InboxState.submitted ∷ []) r.state
    || leb cutoff r.updated_at
    || exists? (λ p. p.inbox_id == r.id) progress
    || exists? (λ m. m.inbox_id == r.id) migrations

needed_kept :
    (cutoff : ℕ) (progress : List ProgressRow) (migrations : List Migration) (r : InboxRow)
    → is_needed cutoff progress migrations r ≡ true
    → inbox_expired cutoff progress migrations r ≡ false
unfolding is_needed inbox_expired
needed_kept cutoff progress migrations r needed = ground arith

-- All batches of a retention run leave an input that is alone with its id as it is, if it is pending or
-- submitted, or not older than the cutoff, or has a preview or a migration.
pub cleanup-keeps_input :
    (now cutoff j : ℕ) (r : InboxRow) (db : Db)
    → affected (Inbox.has_id j) db.inbox ≡ 1
    → first? (Inbox.has_id j) db.inbox ≡ some r
    → is_needed cutoff db.progress db.migrations r ≡ true
    → first? (Inbox.has_id j) ((cleanup_messages now cutoff db).1).inbox ≡ some r
unfolding cleanup_messages
cleanup-keeps_input now cutoff j r db one found needed =
    let i = (clean_inbox (suc (length db.inbox)) cutoff 0 db).1 in
    let o = (clean_outbox (suc (length i.outbox)) cutoff 0 [] i).1 in
    let kept =
      clean_inbox-keeps (suc (length db.inbox)) cutoff 0 j r db one found
        (needed_kept cutoff db.progress db.migrations r needed) in
    simp (clean_followups-keeps (suc (length o.followups)) now cutoff 0 o).0
      (simp (clean_outbox-inbox (suc (length i.outbox)) cutoff 0 [] i) kept)
