-- ===== src/Store/FinalActions/Exclusive.antt =====
-- A button is reserved by one click at a time.
use omp_telegram.Common.{
  ◌≡◌, ◌≢◌, Text, none, some, first?, update, exists?-first?, exists?-update_none, ok, arith,
}
use omp_telegram.Store.Schema.{ActionRow, Db}
use omp_telegram.Store.FinalActions.{
  FinalActionClaim, is_free_token, is_reservable, reserve_final_action,
}

abbrev reserve_row : FinalActionClaim → ActionRow → ActionRow
reserve_row claim a = record a { consumed_by = claim.inbox_id }

-- What a reservation that succeeds has written.
pub reserved_rows :
    (claim : FinalActionClaim) (db db' : Db) (command : Text)
    → reserve_final_action claim db ≡ ok (some command, db')
    → (claim.inbox_id ≢ 0)
      × (db'.final_actions
          ≡ update (is_free_token claim.token) (reserve_row claim) db.final_actions)
unfolding reserve_final_action
reserved_rows claim db db' command h = ground arith

-- After a click has reserved a button, every further click on it that was stored as an update is turned away
-- and changes nothing, as long as the reservation stands.
pub reserve_once :
    (claim again : FinalActionClaim) (db db' : Db) (command : Text)
    → reserve_final_action claim db ≡ ok (some command, db')
    → again.token ≡ claim.token
    → again.inbox_id ≢ 0
    → reserve_final_action again db' ≡ ok (none, db')
unfolding reserve_final_action
reserve_once claim again db db' command h same there =
    let (fresh, rows) = reserved_rows claim db db' command h in
    let gone : first? (is_reservable again db') db'.final_actions ≡ none = simp rows (
      exists?-first? _ _ (
        exists?-update_none (is_reservable again db') (is_free_token claim.token)
          (reserve_row claim) db.final_actions (λ x hit. unfold is_reservable in ground arith)
          (λ x hit. unfold is_reservable in ground arith))) in
    ground arith
