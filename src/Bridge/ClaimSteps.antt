-- ===== src/Bridge/ClaimSteps.antt =====
-- Every operation on the claims of internal/bridge/session.go and migration_claims.go keeps holders apart.
use omp_telegram.Common.{
  ℕ, Text, Bool, true, false, ◌&&◌, ◌||◌, not, Bool-cases, some, first?, List, [], ◌∷◌, All-delete,
  All-first?, All-exists?, exists?, delete, exists?-delete_mono, ◌≡◌, refl, inl, inr, arith,
}
use omp_telegram.Bridge.Claims.{
  Reservation, Claims, Pending, is_rival, is_rival_export, is_match, session_matches,
  export_matches, delete_matches, session_in_use_by_other, session_delete_busy, is_owned,
  is_reserved_by, is_at, reserve_delete, release_delete, reserve_export, release_export,
  claim_session, release_session,
}
use omp_telegram.Bridge.Exclusion.{
  Exclusive, Apart-cons, Apart-delete, no_rival, session_ids_match-sym, export_rival,
  export_rival-sym, delete_rival, drop_sessions, put_claim-Exclusive,
}

pub exists?-weaker :
    {A : Type 0} (p q : A → Bool) (xs : List A)
    → ((x : A) → q x ≡ true → p x ≡ true)
    → exists? p xs ≡ false
    → exists? q xs ≡ false
unfolding exists?
exists?-weaker p q [] imp h = refl
exists?-weaker p q (x ∷ xs) imp h = ground (arith, imp x, exists?-weaker p q xs imp)

-- Of a row that is there, what holds of every row.
pub not_there :
    {A : Type 0} (p q : A → Bool) (xs : List A) (x : A)
    → exists? q xs ≡ false
    → first? p xs ≡ some x
    → q x ≡ false
not_there p q xs x h e = All-first? (λ y. q y ≡ false) p xs x (All-exists? q xs h) e

pub claim_session-Exclusive :
    (pending : Pending) (w : ℕ) (file id : Text) (c : Claims)
    → Exclusive c
    → Exclusive (claim_session pending w file id c).1
unfolding claim_session session_in_use_by_other session_matches export_matches
claim_session-Exclusive pending w file id c h =
    let refused =
      session_in_use_by_other pending c w id
      || exists? (λ s. is_at file s && not (is_owned w s)) c.sessions
      || exists? (λ s. is_owned w s && s.migration) c.sessions in
    elim (Bool-cases refused) [
      | inl e ↦ rw e h
      | inr e ↦
          let free : exists? (is_rival w id) c.sessions ≡ false = ground (arith, e) in
          let unexported : exists? (is_rival_export w id) c.exports ≡ false = ground (arith, e) in
          rw e (
            put_claim-Exclusive (record { path = file; owner = w; id = id; migration = false })
              (record c { sessions = delete (is_owned w) c.sessions })
              (exists?-delete_mono (is_rival w id) (is_owned w) c.sessions free) unexported
              (drop_sessions (is_owned w) c h))
    ]

pub release_session-Exclusive : (w : ℕ) (c : Claims) → Exclusive c → Exclusive (release_session w c)
unfolding release_session
release_session-Exclusive w c h = drop_sessions (λ s. is_owned w s && not s.migration) c h

pub reserve_export-Exclusive :
    (pending : Pending) (w : ℕ) (id : Text) (c : Claims)
    → Exclusive c
    → Exclusive (reserve_export pending w id c).1
unfolding reserve_export session_in_use_by_other session_matches export_matches delete_matches
    exists?
reserve_export-Exclusive pending w id c h =
    let refused = session_in_use_by_other pending c w id || exists? (is_reserved_by w) c.exports in
    let x : Reservation = record { owner = w; id = id } in
    elim (Bool-cases refused) [
      | inl e ↦ rw e h
      | inr e ↦
          let alone : exists? (is_rival w id) c.sessions ≡ false = ground (arith, e) in
          let apart : exists? (is_rival_export w id) c.exports ≡ false = ground (arith, e) in
          let kept : exists? (is_match id) c.deletes ≡ false = ground (arith, e) in
          rw e (record {
            sessions_apart = h.sessions_apart;
            exports_apart = (
              ground (arith, apart),
              Apart-cons export_rival x c.exports c.exports
                  (no_rival export_rival (export_rival x) x c.exports (λ f. export_rival-sym f x)
                    apart)
                  h.exports_apart,
            );
            exports_alone = (alone, h.exports_alone);
            deletes_alone =
                Apart-cons delete_rival x c.deletes c.exports
                  (no_rival delete_rival (is_match id) x c.deletes
                    (λ d. session_ids_match-sym id d.id) kept)
                  h.deletes_alone;
            deletes_apart = h.deletes_apart;
          })
    ]

pub release_export-Exclusive : (w : ℕ) (c : Claims) → Exclusive c → Exclusive (release_export w c)
unfolding release_export
release_export-Exclusive w c h =
    let p = is_reserved_by w in
    record {
      sessions_apart = h.sessions_apart;
      exports_apart =
          All-delete _ p c.exports
            (Apart-delete export_rival p c.exports c.exports h.exports_apart);
      exports_alone = All-delete _ p c.exports h.exports_alone;
      deletes_alone = Apart-delete delete_rival p c.deletes c.exports h.deletes_alone;
      deletes_apart = h.deletes_apart;
    }

pub reserve_delete-Exclusive :
    (pending : Pending) (is_live : ℕ → Bool) (w : ℕ) (id : Text) (c : Claims)
    → Exclusive c
    → Exclusive (reserve_delete pending is_live w id c).1
unfolding reserve_delete session_delete_busy exists?
reserve_delete-Exclusive pending is_live w id c h =
    let refused =
      session_delete_busy pending is_live c id || exists? (is_reserved_by w) c.deletes in
    let x : Reservation = record { owner = w; id = id } in
    elim (Bool-cases refused) [
      | inl e ↦ rw e h
      | inr e ↦
          let unexported : exists? (is_match id) c.exports ≡ false = ground (arith, e) in
          let undeleted : exists? (is_match id) c.deletes ≡ false = ground (arith, e) in
          let apart =
            exists?-weaker (is_match id) (is_rival_export w id) c.deletes (λ d r. ground (arith, r))
              undeleted in
          rw e (record {
            sessions_apart = h.sessions_apart;
            exports_apart = h.exports_apart;
            exports_alone = h.exports_alone;
            deletes_alone = (unexported, h.deletes_alone);
            deletes_apart = (
              ground (arith, apart),
              Apart-cons export_rival x c.deletes c.deletes
                  (no_rival export_rival (export_rival x) x c.deletes (λ f. export_rival-sym f x)
                    apart)
                  h.deletes_apart,
            );
          })
    ]

pub release_delete-Exclusive : (w : ℕ) (c : Claims) → Exclusive c → Exclusive (release_delete w c)
unfolding release_delete
release_delete-Exclusive w c h =
    let p = is_reserved_by w in
    record {
      sessions_apart = h.sessions_apart;
      exports_apart = h.exports_apart;
      exports_alone = h.exports_alone;
      deletes_alone = All-delete _ p c.deletes h.deletes_alone;
      deletes_apart =
          All-delete _ p c.deletes
            (Apart-delete export_rival p c.deletes c.deletes h.deletes_apart);
    }
