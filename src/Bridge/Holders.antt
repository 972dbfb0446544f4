-- ===== src/Bridge/Holders.antt =====
-- Any sequence of operations on the claims of internal/bridge/session.go and migration_claims.go.
use omp_telegram.Common.{
  ℕ, Text, text_eq_iff, is_empty, Bool, true, false, ◌&&◌, ◌||◌, not, Bool-cases, some,
  Option-cases, first?, List, [], ◌∷◌, All, All-first?, exists?, delete, exists?-delete_mono, ◌≡◌,
  refl, inl, inr, arith,
}
use omp_telegram.Store.Schema.{Migration}
use omp_telegram.Store.Migrations.{lower_text, nocase_eq}
use omp_telegram.Bridge.Claims.{
  SessionClaim, Reservation, Claims, Pending, session_ids_match, is_rival, is_rival_export,
  is_match, is_owned, is_at, reserve_delete, release_delete, reserve_export, release_export,
  put_claim, claim_session, release_session, is_available, valid_identities, check_migration_claims,
  install_migration_claims, reserve_migration_claims, finish_migration_claims,
}
use omp_telegram.Bridge.Exclusion.{
  Exclusive, session_ids_match-sym, drop_sessions, put_claim-Exclusive,
}
use omp_telegram.Bridge.ClaimSteps.{
  exists?-weaker, not_there, claim_session-Exclusive, release_session-Exclusive,
  reserve_export-Exclusive, release_export-Exclusive, reserve_delete-Exclusive,
  release_delete-Exclusive,
}

-- What `is_available` leaves out for a file.
record Free (w : ℕ) (c : Claims) (id : Text) : Type 0 where
  unclaimed : exists? (is_rival w id) c.sessions ≡ false
  unexported : exists? (is_rival_export w id) c.exports ≡ false

is_available-Free :
    (w : ℕ) (c : Claims) (file id : Text)
    → is_empty file ≡ false
    → is_available w c file id ≡ true
    → Free w c id
unfolding is_available
is_available-Free w c file id named h =
    let unexported : exists? (is_match id) c.exports ≡ false = ground (arith, named, h) in
    let q =
      λ (s : SessionClaim). not (is_owned w s) && (is_at file s || session_ids_match s.id id) in
    let unclaimed : exists? q c.sessions ≡ false = ground (arith, named, h) in
    record {
      unclaimed = exists?-weaker q (is_rival w id) c.sessions (λ s r. ground (arith, r)) unclaimed;
      unexported =
          exists?-weaker (is_match id) (is_rival_export w id) c.exports (λ e r. ground (arith, r))
            unexported;
    }

put_claim-unclaimed :
    (x : SessionClaim) (id : Text) (rows : List SessionClaim)
    → exists? (is_rival x.owner id) rows ≡ false
    → exists? (is_rival x.owner id) (put_claim x rows) ≡ false
unfolding put_claim exists?
put_claim-unclaimed x id rows h =
    ground (arith, exists?-delete_mono (is_rival x.owner id) (is_at x.path) rows h)

and_parts :
    (a b c d e : Bool) → (a && b && c && d && e) ≡ true → (a ≡ true) × (c ≡ true) × (d ≡ true)
and_parts a b c d e h = (ground (arith, h), ground (arith, h), ground (arith, h))

and_first : (a b c : Bool) → (not a && b && c) ≡ true → a ≡ false
and_first a b c h = ground (arith, h)

valid_identities-named :
    (m : Migration) → valid_identities m ≡ true → is_empty m.source.session ≡ false
unfolding valid_identities
valid_identities-named m h = and_first _ _ _ h

install_migration_claims-Exclusive :
    (pending : Pending) (w : ℕ) (m : Migration) (c : Claims)
    → check_migration_claims pending w m c ≡ true
    → Exclusive c
    → Exclusive (install_migration_claims w m c)
unfolding install_migration_claims check_migration_claims
install_migration_claims-Exclusive pending w m c checked h =
    let source : SessionClaim = record {
      path = m.source.session;
      owner = w;
      id = m.source.session_id;
      migration = true;
    } in
    let candidate : SessionClaim = record {
      path = m.candidate_file;
      owner = w;
      id = m.candidate_id;
      migration = true;
    } in
    let parts = and_parts _ _ _ _ _ checked in
    let named = valid_identities-named m parts.0 in
    let free = is_available-Free w c m.source.session m.source.session_id named parts.1 in
    let first = put_claim-Exclusive source c free.unclaimed free.unexported h in
    elim (Bool-cases (is_empty m.candidate_file)) [
      | inl e ↦ rw e first
      | inr e ↦
          let too = is_available-Free w c m.candidate_file m.candidate_id e parts.2 in
          rw e (
            put_claim-Exclusive candidate (record c { sessions = put_claim source c.sessions })
              (put_claim-unclaimed source m.candidate_id c.sessions too.unclaimed) too.unexported
              first)
    ]

reserve_migration_claims-Exclusive :
    (pending : Pending) (w : ℕ) (m : Migration) (c : Claims)
    → Exclusive c
    → Exclusive (reserve_migration_claims pending w m c).1
unfolding reserve_migration_claims
reserve_migration_claims-Exclusive pending w m c h =
    elim (Bool-cases (check_migration_claims pending w m c)) [
      | inl e ↦ rw e (install_migration_claims-Exclusive pending w m c e h)
      | inr e ↦ rw e h
    ]

-- Ids that differ in case only match the same ids.
session_ids_match-nocase :
    (a b id : Text) → nocase_eq a b ≡ true → session_ids_match id a ≡ session_ids_match id b
unfolding session_ids_match nocase_eq
session_ids_match-nocase a b id h =
    let same : lower_text a ≡ lower_text b = (text_eq_iff (lower_text a) (lower_text b)).0 h in
    rw same refl

-- A claim that is there is no other worker's export.
unexported_claim :
    (p : SessionClaim → Bool) (s : SessionClaim) (rows : List SessionClaim)
    (exports : List Reservation)
    → All (λ e. exists? (is_rival e.owner e.id) rows ≡ false) exports
    → first? p rows ≡ some s
    → exists? (is_rival_export s.owner s.id) exports ≡ false
unfolding exists?
unexported_claim p s rows [] h found = refl
unexported_claim p s rows (e ∷ exports) h found = ground (
  arith,
  not_there p (is_rival e.owner e.id) rows s h.0 found,
  session_ids_match-sym e.id s.id,
  unexported_claim p s rows exports h.1 found,
)

finish_migration_claims-Exclusive :
    (w : ℕ) (file id : Text) (c : Claims)
    → Exclusive c
    → Exclusive (finish_migration_claims w file id c).1
unfolding finish_migration_claims
finish_migration_claims-Exclusive w file id c h =
    elim (Option-cases (first? (is_at file) c.sessions)) [
      | inl e ↦ rw (e, finish_migration_claims) h
      | inr found ↦
          let s = found.0 in
          elim (Bool-cases (is_owned w s && s.migration && nocase_eq s.id id)) [
            | inr e ↦ rw (found.1, finish_migration_claims) (rw e h)
            | inl e ↦
                let owner : s.owner ≡ w = ground (arith, e) in
                let fold : nocase_eq s.id id ≡ true = ground (arith, e) in
                let apart : exists? (is_rival s.owner s.id) c.sessions ≡ false =
                  All-first? (λ x. exists? (is_rival x.owner x.id) c.sessions ≡ false) (is_at file)
                    c.sessions s h.sessions_apart found.1 in
                let unclaimed =
                  exists?-weaker (is_rival s.owner s.id) (is_rival w id) c.sessions
                    (λ x r. ground (arith, r, owner, session_ids_match-nocase s.id id x.id fold))
                    apart in
                let unexported =
                  exists?-weaker (is_rival_export s.owner s.id) (is_rival_export w id) c.exports
                    (λ x r. ground (arith, r, owner, session_ids_match-nocase s.id id x.id fold))
                    (unexported_claim (is_at file) s c.sessions c.exports h.exports_alone
                      found.1) in
                rw (found.1, finish_migration_claims)
                  (rw e (
                    put_claim-Exclusive
                      (record { path = file; owner = w; id = id; migration = false })
                      (record c { sessions = delete (is_owned w) c.sessions })
                      (exists?-delete_mono (is_rival w id) (is_owned w) c.sessions unclaimed)
                      unexported (drop_sessions (is_owned w) c h)))
          ]
    ]

-- An operation of the workers on the claims.
pub data Step : Type 0 where
  claims : Pending → ℕ → Text → Text → Step
  releases : ℕ → Step
  exports : Pending → ℕ → Text → Step
  ends_export : ℕ → Step
  deletes : Pending → (ℕ → Bool) → ℕ → Text → Step
  ends_delete : ℕ → Step
  migrates : Pending → ℕ → Migration → Step
  ends_migration : ℕ → Text → Text → Step

unfoldable pub take_step : Step → Claims → Claims
unfolding claim_session release_session reserve_export release_export reserve_delete release_delete
    reserve_migration_claims finish_migration_claims
take_step (claims pending w file id) c = (claim_session pending w file id c).1
take_step (releases w) c = release_session w c
take_step (exports pending w id) c = (reserve_export pending w id c).1
take_step (ends_export w) c = release_export w c
take_step (deletes pending is_live w id) c = (reserve_delete pending is_live w id c).1
take_step (ends_delete w) c = release_delete w c
take_step (migrates pending w m) c = (reserve_migration_claims pending w m c).1
take_step (ends_migration w file id) c = (finish_migration_claims w file id c).1

take_step-Exclusive : (s : Step) (c : Claims) → Exclusive c → Exclusive (take_step s c)
unfolding take_step
take_step-Exclusive (claims pending w file id) c h = claim_session-Exclusive pending w file id c h
take_step-Exclusive (releases w) c h = release_session-Exclusive w c h
take_step-Exclusive (exports pending w id) c h = reserve_export-Exclusive pending w id c h
take_step-Exclusive (ends_export w) c h = release_export-Exclusive w c h
take_step-Exclusive (deletes pending is_live w id) c h =
    reserve_delete-Exclusive pending is_live w id c h
take_step-Exclusive (ends_delete w) c h = release_delete-Exclusive w c h
take_step-Exclusive (migrates pending w m) c h = reserve_migration_claims-Exclusive pending w m c h
take_step-Exclusive (ends_migration w file id) c h = finish_migration_claims-Exclusive w file id c h

unfoldable pub take_steps : List Step → Claims → Claims
unfolding take_step
take_steps [] c = c
take_steps (s ∷ steps) c = take_steps steps (take_step s c)

take_steps-Exclusive :
    (steps : List Step) (c : Claims) → Exclusive c → Exclusive (take_steps steps c)
unfolding take_steps
take_steps-Exclusive [] c h = h
take_steps-Exclusive (s ∷ steps) c h =
    take_steps-Exclusive steps (take_step s c) (take_step-Exclusive s c h)

abbrev pub no_claims : Claims
no_claims = record { sessions = []; exports = []; deletes = [] }

-- However workers claim, release, export, delete and migrate sessions, starting with no claims: no two
-- workers claim sessions with matching ids, what one exports no other claims or exports, and what one
-- deletes nobody exports and no other deletes.
pub holders_apart : (steps : List Step) → Exclusive (take_steps steps no_claims)
unfolding exists?
holders_apart steps = take_steps-Exclusive steps no_claims (record {
  sessions_apart = tt;
  exports_apart = tt;
  exports_alone = tt;
  deletes_alone = tt;
  deletes_apart = tt;
})
