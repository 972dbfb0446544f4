-- ===== src/Store/InboxLifecycle/Redelivery.antt =====
-- An update that Telegram delivers again, at any point of its lifecycle.
use omp_telegram.Common.{
  ℕ, Text, ◌≡◌, refl, inl, inr, true, List, exists?, first?-exists?, exists?-first?, Bool-cases,
  Option-cases, All,
}
use omp_telegram.Store.Schema.{Db}
use omp_telegram.Store.Inbox.{has_id, insert_new, accept}
use omp_telegram.Store.Inbox.Acceptance.{exists?-insert_new}
use omp_telegram.Store.FinalActions.{Json}
use omp_telegram.Store.InboxLifecycle.{row, Advances}
use omp_telegram.Store.InboxLifecycle.Calls.{Call, IsMade, run, run-Advances}

-- A row that advances is still there.
advanced-there :
    (id : ℕ) (db db' : Db)
    → exists? (has_id id) db.inbox ≡ true
    → Advances (row id db) (row id db')
    → exists? (has_id id) db'.inbox ≡ true
advanced-there id db db' there advances = elim (Bool-cases (exists? (has_id id) db'.inbox)) [
  | inl e ↦ e
  | inr gone ↦ elim (Option-cases (row id db)) [
    | inl e ↦ cc (first?-exists? (has_id id) db.inbox e, there)
    | inr (r, e) ↦ absurd (rw (e, exists?-first? (has_id id) db'.inbox gone) at advances)
  ]
]

-- An accepted update is taken up once: after whatever calls of the lifecycle, retention and published
-- migrations left out and each completion with a final state, accepting it again, with whatever payload
-- and at whatever time, leaves the inbox as it is. So an update that was submitted, settled or given up
-- is not taken up again.
pub accept_again :
    (json : Json) (now later id : ℕ) (raw other : Text) (calls : List Call) (db : Db)
    → All IsMade calls
    → let db' = run json calls (accept now id raw db) in
      (accept later id other db').inbox ≡ db'.inbox
unfolding accept insert_new
accept_again json now later id raw other calls db made =
    let first = accept now id raw db in
    let there =
      advanced-there id first (run json calls first) (exists?-insert_new _ db.inbox)
        (run-Advances json id calls first made) in
    rw there refl
