-- ===== src/Store/Inbox/Pages.antt =====
-- Reading the pending updates: by batches of ids, and by pages.
use omp_telegram.Common.{
  ℕ, zero, suc, ◌≤◌, ◌≡◌, refl, sym, ap, inl, inr, Bool, true, false, ◌&&◌, ◌||◌, ◌==◌, List, [],
  ◌∷◌, select, exists?, take, drop, length, length-drop, take-append-drop, contains,
  contains-append, Bool-cases, arith,
}
use omp_telegram.Store.Schema.{InboxState, inbox_in, InboxRow, Db}
use omp_telegram.Store.Inbox.{pending_batch, pending_batches, pending_ids}

abbrev pub is_waiting : InboxRow → Bool
is_waiting r = inbox_in (InboxState.pending ∷ []) r.state

-- There is a pending row with this id.
abbrev pub waits : ℕ → List InboxRow → Bool
waits j = exists? (λ r. r.id == j && is_waiting r)

contains-pending_batch :
    (j : ℕ) (ids : List ℕ) (rows : List InboxRow)
    → contains j (pending_batch ids rows) ≡ (contains j ids && waits j rows)
unfolding pending_batch select exists?
contains-pending_batch j ids [] = ground arith
contains-pending_batch j ids (r ∷ rows) = elim (Bool-cases (is_waiting r && contains r.id ids)) [
  | inl hit ↦ rw hit (elim (Bool-cases (r.id == j)) [
    | inl here ↦
        let same : r.id ≡ j = ground arith in
        let known : contains j ids ≡ true = rw (← same) (ground arith) in ground arith
    | inr there ↦ ground (arith, contains-pending_batch j ids rows)
  ])
  | inr miss ↦ rw miss (elim (Bool-cases (r.id == j)) [
    | inl here ↦
        let same : r.id ≡ j = ground arith in
        let missed : (is_waiting r && contains j ids) ≡ false = rw (← same) miss in
        ground (arith, contains-pending_batch j ids rows)
    | inr there ↦ ground (arith, contains-pending_batch j ids rows)
  ])
]

contains-pending_batches :
    (fuel j : ℕ) (ids : List ℕ) (rows : List InboxRow)
    → length ids ≤ fuel
    → contains j (pending_batches fuel ids rows) ≡ (contains j ids && waits j rows)
unfolding pending_batches
contains-pending_batches zero j [] rows h = refl
contains-pending_batches zero j (i ∷ ids) rows h = absurd (omega arith)
contains-pending_batches (suc fuel) j [] rows h = refl
contains-pending_batches (suc fuel) j (i ∷ ids) rows h =
    let front = take 499 ids in
    let back = drop 499 ids in
    let shorter : length back ≤ fuel = omega (arith, length-drop 499 ids) in
    let split : contains j ids ≡ (contains j front || contains j back) =
      rw contains-append at (ap (contains j) (sym (take-append-drop 499 ids))) in
    rw (contains-append j (pending_batch (i ∷ front) rows) (pending_batches fuel back rows)) (
      rw
        (
          contains-pending_batch j (i ∷ front) rows,
          contains-pending_batches fuel j back rows shorter,
          split,
        )
        (distribute (i == j) (contains j front) (contains j back) (waits j rows)))
  where
    distribute : (a b c w : Bool) → (((a || b) && w) || (c && w)) ≡ ((a || (b || c)) && w)
    distribute a b c w = ground arith

-- However many ids are asked for, the batches together report exactly those that are pending.
pub contains-pending_ids :
    (j : ℕ) (ids : List ℕ) (db : Db)
    → contains j (pending_ids ids db) ≡ (contains j ids && waits j db.inbox)
unfolding pending_ids
contains-pending_ids j ids db = contains-pending_batches (length ids) j ids db.inbox (omega arith)
