-- ===== src/Store/Inbox/Acceptance.antt =====
-- Accepting an update: its row is there afterwards, and the poll offset is past it.
use omp_telegram.Common.{
  ℕ, ◌≤◌, ◌<◌, Text, ◌≡◌, inl, inr, true, List, [], ◌∷◌, exists?, Bool-cases, arith,
}
use omp_telegram.Store.Schema.{InboxRow, Db}
use omp_telegram.Store.Inbox.{has_id, place, insert_new, raise_offset, accept, offset}

exists?-place : (r : InboxRow) (rows : List InboxRow) → exists? (has_id r.id) (place r rows) ≡ true
unfolding exists? place
exists?-place r [] = ground arith
exists?-place r (x ∷ rows) = ground (arith, exists?-place r rows)

pub exists?-insert_new :
    (r : InboxRow) (rows : List InboxRow) → exists? (has_id r.id) (insert_new r rows) ≡ true
unfolding insert_new
exists?-insert_new r rows = elim (Bool-cases (exists? (has_id r.id) rows)) [
  | inl old ↦ rw old old
  | inr new ↦ rw new (exists?-place r rows)
]

-- The next poll starts past the accepted update, and never before the point it had reached.
pub offset-accept :
    (now id : ℕ) (raw : Text) (db : Db)
    → (id < offset (accept now id raw db)) × (offset db ≤ offset (accept now id raw db))
unfolding offset accept raise_offset
offset-accept now id raw db = ground arith
