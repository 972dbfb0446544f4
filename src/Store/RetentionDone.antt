-- ===== src/Store/RetentionDone.antt =====
-- Retention (internal/store/store.go) deletes every input that has expired: its fuel is enough.
use omp_telegram.Common.{
  ℕ, zero, suc, ◌+◌, ◌≤◌, ◌<◌, ◌≡◌, refl, inl, inr, Bool, true, false, ltb, List, [], ◌∷◌, map,
  take, length, select, exists?, affected, delete, contains, length-delete, All, All-map,
  Bool-cases, arith,
}
use mathlib.Core.Path.{subst}
use omp_telegram.Store.Schema.{Db}
use omp_telegram.Store.Followups.{message_cleanup_batch_size}
use omp_telegram.Store.Cleanup.{
  batch_ids, inbox_id_of, inbox_expired, cleanup_inbox_batch, clean_inbox, clean_outbox,
  cleanup_messages,
}
use omp_telegram.Store.Retention.{clean_outbox-inbox, clean_followups-keeps}

module _ {A : Type 0} (id_of : A → ℕ) where
  abbrev in_ids : List ℕ → A → Bool
  in_ids ids x = contains (id_of x) ids

  contains-map : (xs : List A) → All (λ x. in_ids (map id_of xs) x ≡ true) xs
  contains-map [] = tt
  contains-map (x ∷ xs) = (
    ground arith,
    All-map (λ y. in_ids (map id_of xs) y ≡ true) (λ y. in_ids (map id_of (x ∷ xs)) y ≡ true) xs
        (λ y h. ground arith) (contains-map xs),
  )

  select-hit :
      (q : A → Bool) (x : A) (rows : List A) → q x ≡ true → select q (x ∷ rows) ≡ x ∷ select q rows
  unfolding select
  select-hit q x rows e = rw e refl

  select-miss :
      (q : A → Bool) (x : A) (rows : List A) → q x ≡ false → select q (x ∷ rows) ≡ select q rows
  unfolding select
  select-miss q x rows e = rw e refl

  -- At least the rows of the batch are affected.
  batch-affected :
      (n : ℕ) (q : A → Bool) (ids : List ℕ) (rows : List A)
      → All (λ x. in_ids ids x ≡ true) (take n (select q rows))
      → length (take n (select q rows)) ≤ affected (in_ids ids) rows
  unfolding affected
  batch-affected zero q ids rows h = omega arith
  batch-affected (suc n) q ids [] h = unfold select in omega arith
  batch-affected (suc n) q ids (x ∷ rows) h = elim (Bool-cases (q x)) [
    | inl hit ↦
        let e = select-hit q x rows hit in
        let h' = subst (λ xs. All (λ y. in_ids ids y ≡ true) (take (suc n) xs)) e h in
        rw e (rw (h'.0) (omega (arith, batch-affected n q ids rows h'.1)))
    | inr miss ↦
        let e = select-miss q x rows miss in
        let h' = subst (λ xs. All (λ y. in_ids ids y ≡ true) (take (suc n) xs)) e h in
        rw e (ground (arith, batch-affected (suc n) q ids rows h'))
  ]

  take_whole : (n : ℕ) (xs : List A) → length (take n xs) < n → take n xs ≡ xs
  take_whole zero xs h = absurd (omega arith)
  take_whole (suc n) [] h = refl
  take_whole (suc n) (x ∷ xs) h = λ i. x ∷ take_whole n xs (omega (arith, h)) i

  exists?-delete_covered :
      (q p : A → Bool) (rows : List A)
      → All (λ x. q x ≡ true → p x ≡ true) rows
      → exists? q (delete p rows) ≡ false
  unfolding exists? delete
  exists?-delete_covered q p [] h = refl
  exists?-delete_covered q p (x ∷ rows) h = ground (arith, h.0, exists?-delete_covered q p rows h.1)

  covered :
      (q : A → Bool) (ids : List ℕ) (rows : List A)
      → All (λ x. in_ids ids x ≡ true) (select q rows)
      → All (λ x. q x ≡ true → in_ids ids x ≡ true) rows
  covered q ids [] h = tt
  covered q ids (x ∷ rows) h = elim (Bool-cases (q x)) [
    | inl hit ↦
        let h' = subst (λ xs. All (λ y. in_ids ids y ≡ true) xs) (select-hit q x rows hit) h in
        ((λ _. h'.0), covered q ids rows h'.1)
    | inr miss ↦
        let h' = subst (λ xs. All (λ y. in_ids ids y ≡ true) xs) (select-miss q x rows miss) h in
        ((λ hit. cc), covered q ids rows h')
  ]

  -- A batch that is not full leaves no row to delete.
  batch_done :
      (n : ℕ) (q : A → Bool) (rows : List A)
      → affected (in_ids (batch_ids id_of n q rows)) rows < n
      → exists? q (delete (in_ids (batch_ids id_of n q rows)) rows) ≡ false
  unfolding batch_ids
  batch_done n q rows few =
      let xs = take n (select q rows) in
      let members = contains-map xs in
      let le = batch-affected n q (map id_of xs) rows members in
      let whole : xs ≡ select q rows = take_whole n (select q rows) (omega (arith, few, le)) in
      exists?-delete_covered q (in_ids (map id_of xs)) rows (
        covered q (map id_of xs) rows
          (subst (λ ys. All (λ x. in_ids (map id_of xs) x ≡ true) ys) whole members))

clean_inbox-done :
    (fuel cutoff total : ℕ) (db : Db)
    → length db.inbox < fuel
    → exists?
        (inbox_expired cutoff db.progress db.migrations)
        ((clean_inbox fuel cutoff total db).1).inbox
      ≡ false
unfolding clean_inbox cleanup_inbox_batch
clean_inbox-done zero cutoff total db enough = absurd (omega arith)
clean_inbox-done (suc fuel) cutoff total db enough =
    let b = cleanup_inbox_batch cutoff db in
    let q = inbox_expired cutoff db.progress db.migrations in
    let p = in_ids inbox_id_of (batch_ids inbox_id_of message_cleanup_batch_size q db.inbox) in
    elim (Bool-cases (ltb b.0 message_cleanup_batch_size)) [
      | inl last ↦
          rw last (batch_done inbox_id_of message_cleanup_batch_size q db.inbox (ground arith))
      | inr more ↦ rw more (
          clean_inbox-done fuel cutoff (total + b.0) b.1 (ground (arith, length-delete p db.inbox)))
    ]

-- A retention run ends with no input left that has expired: none that is settled, older than the cutoff and
-- without a preview or a migration, however many batches it takes.
pub cleanup-expired_input :
    (now cutoff : ℕ) (db : Db)
    → exists?
        (inbox_expired cutoff db.progress db.migrations)
        ((cleanup_messages now cutoff db).1).inbox
      ≡ false
unfolding cleanup_messages
cleanup-expired_input now cutoff db =
    let i = (clean_inbox (suc (length db.inbox)) cutoff 0 db).1 in
    let o = (clean_outbox (suc (length i.outbox)) cutoff 0 [] i).1 in
    let none_left = clean_inbox-done (suc (length db.inbox)) cutoff 0 db (omega arith) in
    simp (clean_followups-keeps (suc (length o.followups)) now cutoff 0 o).0
      (simp (clean_outbox-inbox (suc (length i.outbox)) cutoff 0 [] i) none_left)
