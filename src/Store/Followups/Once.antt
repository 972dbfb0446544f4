-- ===== src/Store/Followups/Once.antt =====
-- A follow-up prompt admits one reply.
use omp_telegram.Common.{
  ℕ, ◌≤◌, ◌≡◌, inl, inr, true, false, update, affected, All, All-const, All-update_with,
  exists?-All, affected-exists?, affected_same, Bool-cases, ok, arith,
}
use omp_telegram.Store.Schema.{FollowupState, FollowupRequest, Db}
use omp_telegram.Store.Followups.{has_token, is_consumable, consume_followup_request}

abbrev consume_row : ℕ → FollowupRequest → FollowupRequest
consume_row inbox_id x = record x { state = FollowupState.consumed; inbox_id = inbox_id }

pub consumed_rows :
    (now : ℕ) (r : FollowupRequest) (inbox_id : ℕ) (db db' : Db)
    → consume_followup_request now r inbox_id db ≡ ok (true, db')
    → (affected (is_consumable now r inbox_id db) db.followups ≡ 1)
      × (db'.followups
          ≡ update (is_consumable now r inbox_id db) (consume_row inbox_id) db.followups)
unfolding consume_followup_request
consumed_rows now r inbox_id db db' h = ground arith

-- A row that does not match a claim now, and is no other row of its token, matches none later.
still_no :
    (now later : ℕ) (r : FollowupRequest) (inbox_id other : ℕ) (db db' : Db) (x : FollowupRequest)
    → (has_token r.token x ≡ true → is_consumable now r inbox_id db x ≡ true)
    → is_consumable now r inbox_id db x ≡ false
    → is_consumable later r other db' x ≡ false
still_no now later r inbox_id other db db' x own miss = elim (Bool-cases (has_token r.token x)) [
  | inl token ↦ cc (own token)
  | inr foreign ↦ unfold is_consumable in rw foreign
]

-- A token is the primary key of its table. Once a reply was admitted for a request, no reply is admitted for
-- it again, at any time and for any input, and the database stays as it is.
pub consume_once :
    (now later : ℕ) (r : FollowupRequest) (inbox_id other : ℕ) (db db' : Db)
    → affected (has_token r.token) db.followups ≤ 1
    → consume_followup_request now r inbox_id db ≡ ok (true, db')
    → consume_followup_request later r other db' ≡ ok (false, db')
unfolding consume_followup_request
consume_once now later r inbox_id other db db' key h =
    let (one, rows) = consumed_rows now r inbox_id db db' h in
    let all : All (λ x. has_token r.token x ≡ true → is_consumable now r inbox_id db x ≡ true)
        db.followups =
      affected_same (is_consumable now r inbox_id db) (has_token r.token) db.followups
        (λ x hit. unfold is_consumable in ground arith) (omega arith) in
    let gone : affected (is_consumable later r other db') db'.followups ≡ 0 = simp rows (
      affected-exists? _ _ (
        exists?-All _ _ (
          All-update_with
            (λ x. has_token r.token x ≡ true → is_consumable now r inbox_id db x ≡ true)
            (λ x. Unit {0}) (λ x. is_consumable later r other db' x ≡ false) _ _ db.followups
            (λ x hit old _. unfold is_consumable in ground arith)
            (λ x miss old _. still_no now later r inbox_id other db db' x old miss) all
            (All-const _ db.followups (λ x. tt))))) in
    ground arith
