-- ===== src/Bridge/Claims.antt =====
-- The claims on OMP sessions in internal/bridge/session.go and migration_claims.go. Every operation holds
-- the bridge's sessionMu, so it is one step. A worker is a number; a map is the
-- list of its entries.
use omp_telegram.Common.{
  ℕ, Text, text_eq, is_empty, has_prefix, Bool, true, false, ◌&&◌, ◌||◌, not, ◌==◌, if◌then◌else◌,
  Option, none, some, List, ◌∷◌, exists?, first?, delete,
}
use omp_telegram.Store.Schema.{Migration}
use omp_telegram.Store.Migrations.{lower_text, nocase_eq}
use omp_telegram.Store.SessionId.{valid_session_id}

-- sessionClaim, with the path it is stored under
pub record SessionClaim : Type 0 where
  pub path : Text
  pub owner : ℕ
  pub id : Text
  pub migration : Bool

-- An entry of exportClaims or deleteClaims.
pub record Reservation : Type 0 where
  pub owner : ℕ
  pub id : Text

pub record Claims : Type 0 where
  pub sessions : List SessionClaim
  pub exports : List Reservation
  pub deletes : List Reservation

-- sessionIDsMatch
unfoldable pub session_ids_match : Text → Text → Bool
unfolding lower_text text_eq has_prefix
session_ids_match left right =
    let l = lower_text left in
    let r = lower_text right in text_eq l r || (has_prefix r l || has_prefix l r)

-- A claim of another worker on a session with this id.
abbrev pub is_rival : ℕ → Text → SessionClaim → Bool
is_rival owner id s = not (s.owner == owner) && session_ids_match s.id id

abbrev pub is_rival_export : ℕ → Text → Reservation → Bool
is_rival_export owner id e = not (e.owner == owner) && session_ids_match e.id id

abbrev pub is_match : Text → Reservation → Bool
is_match id e = session_ids_match e.id id

-- `none` where the query of pending migrations failed.
abbrev pub Pending : Type 0
Pending = Option (List Migration)

-- Whether an unfinished migration holds a session with this id.
unfoldable pub holds_session : Text → Migration → Bool
unfolding session_ids_match is_empty
holds_session id m =
    (not (is_empty m.source.session_id) && session_ids_match m.source.session_id id)
    || (not (is_empty m.candidate_id) && session_ids_match m.candidate_id id)

-- `busy` of migrationSessionStatusLocked
unfoldable pub migration_session_busy : Pending → Claims → Text → Bool
unfolding holds_session session_ids_match is_empty
migration_session_busy pending c id =
    if is_empty id
    then false
    else exists? (λ s. s.migration && session_ids_match s.id id) c.sessions
      || elim pending [ none ↦ true | some ms ↦ exists? (holds_session id) ms ]

-- sessionMatchesLocked, except for a worker's own claims
unfoldable pub session_matches : Pending → Claims → ℕ → Text → Bool
unfolding migration_session_busy session_ids_match
session_matches pending c owner id =
    exists? (is_rival owner id) c.sessions || migration_session_busy pending c id

-- exportMatchesLocked
unfoldable pub export_matches : Claims → ℕ → Text → Bool
unfolding session_ids_match
export_matches c owner id = exists? (is_rival_export owner id) c.exports

-- deleteMatchesLocked
unfoldable pub delete_matches : Claims → Text → Bool
unfolding session_ids_match
delete_matches c id = exists? (is_match id) c.deletes

-- sessionInUseByOther
unfoldable pub session_in_use_by_other : Pending → Claims → ℕ → Text → Bool
unfolding session_matches export_matches delete_matches
session_in_use_by_other pending c owner id =
    session_matches pending c owner id || export_matches c owner id || delete_matches c id

-- `busy` of sessionDeleteStatusLocked; `is_live` is whether a worker's runtime is active or starting
unfoldable pub session_delete_busy : Pending → (ℕ → Bool) → Claims → Text → Bool
unfolding migration_session_busy session_ids_match
session_delete_busy pending is_live c id =
    migration_session_busy pending c id
    || exists? (λ s. session_ids_match s.id id && is_live s.owner) c.sessions
    || exists? (is_match id) c.exports
    || exists? (is_match id) c.deletes

abbrev pub is_owned : ℕ → SessionClaim → Bool
is_owned w s = s.owner == w

abbrev pub is_reserved_by : ℕ → Reservation → Bool
is_reserved_by w e = e.owner == w

abbrev pub is_at : Text → SessionClaim → Bool
is_at path s = text_eq s.path path

-- reserveDelete
unfoldable pub reserve_delete : Pending → (ℕ → Bool) → ℕ → Text → Claims → Bool × Claims
unfolding session_delete_busy
reserve_delete pending is_live w id c =
    if session_delete_busy pending is_live c id || exists? (is_reserved_by w) c.deletes
    then (false, c)
    else (true, record c { deletes = record { owner = w; id = id } ∷ c.deletes })

-- releaseDelete
unfoldable pub release_delete : ℕ → Claims → Claims
release_delete w c = record c { deletes = delete (is_reserved_by w) c.deletes }

-- reserveExport
unfoldable pub reserve_export : Pending → ℕ → Text → Claims → Bool × Claims
unfolding session_in_use_by_other
reserve_export pending w id c =
    if session_in_use_by_other pending c w id || exists? (is_reserved_by w) c.exports
    then (false, c)
    else (true, record c { exports = record { owner = w; id = id } ∷ c.exports })

-- releaseExport
unfoldable pub release_export : ℕ → Claims → Claims
release_export w c = record c { exports = delete (is_reserved_by w) c.exports }

-- m[path] = claim
unfoldable pub put_claim : SessionClaim → List SessionClaim → List SessionClaim
unfolding text_eq
put_claim s rows = s ∷ delete (is_at s.path) rows

-- claimSession
unfoldable pub claim_session : Pending → ℕ → Text → Text → Claims → Bool × Claims
unfolding session_in_use_by_other put_claim text_eq
claim_session pending w file id c =
    if session_in_use_by_other pending c w id
      || exists? (λ s. is_at file s && not (is_owned w s)) c.sessions
      || exists? (λ s. is_owned w s && s.migration) c.sessions
    then (false, c)
    else (
      true,
      record c {
        sessions =
            put_claim (record { path = file; owner = w; id = id; migration = false })
              (delete (is_owned w) c.sessions);
      },
    )

-- releaseSession
unfoldable pub release_session : ℕ → Claims → Claims
release_session w c = record c {
  sessions = delete (λ s. is_owned w s && not s.migration) c.sessions;
}

-- `available` of checkMigrationClaimsLocked
unfoldable pub is_available : ℕ → Claims → Text → Text → Bool
unfolding session_ids_match text_eq is_empty
is_available w c file id =
    is_empty file
    || (not (exists? (is_match id) c.exports)
        && not (exists? (is_match id) c.deletes)
        && not (
            exists? (λ s. not (is_owned w s) && (is_at file s || session_ids_match s.id id))
              c.sessions))

abbrev pub is_valid_id : Text → Bool
is_valid_id id = not (is_empty (valid_session_id id))

-- The identities of a migration are complete and differ.
unfoldable pub valid_identities : Migration → Bool
unfolding valid_session_id is_empty text_eq session_ids_match
valid_identities m =
    not (is_empty m.source.session)
    && is_valid_id m.source.session_id
    && (if is_empty m.candidate_file
        then is_empty m.candidate_id
        else is_valid_id m.candidate_id
          && not (text_eq m.candidate_file m.source.session)
          && not (session_ids_match m.source.session_id m.candidate_id))

-- A claim of the worker's own migration that is none of this one's.
unfoldable pub is_stray : ℕ → Migration → SessionClaim → Bool
unfolding text_eq nocase_eq
is_stray w m s =
    is_owned w s
    && s.migration
    && not (is_at m.source.session s)
    && (not (is_at m.candidate_file s) || not (nocase_eq s.id m.candidate_id))

-- Another migration that shares this file or id with `m`.
unfoldable pub shares_identity : Migration → Text → Text → Bool
unfolding session_ids_match text_eq is_empty
shares_identity m file id =
    (not (is_empty id)
      && (session_ids_match id m.source.session_id
          || (not (is_empty m.candidate_id) && session_ids_match id m.candidate_id)))
    || (not (is_empty file) && (text_eq file m.source.session || text_eq file m.candidate_file))

unfoldable pub is_in_the_way : Migration → Migration → Bool
unfolding shares_identity text_eq
is_in_the_way m p =
    not (text_eq p.id m.id)
    && (shares_identity m p.source.session p.source.session_id
        || shares_identity m p.candidate_file p.candidate_id)

-- checkMigrationClaimsLocked returns no error.
unfoldable pub check_migration_claims : Pending → ℕ → Migration → Claims → Bool
unfolding valid_identities is_stray is_available is_in_the_way
check_migration_claims pending w m c =
    valid_identities m
    && not (exists? (is_stray w m) c.sessions)
    && is_available w c m.source.session m.source.session_id
    && is_available w c m.candidate_file m.candidate_id
    && elim pending [ none ↦ false | some ms ↦ not (exists? (is_in_the_way m) ms) ]

-- installMigrationClaimsLocked
unfoldable pub install_migration_claims : ℕ → Migration → Claims → Claims
unfolding put_claim is_empty
install_migration_claims w m c =
    let source : SessionClaim = record {
      path = m.source.session;
      owner = w;
      id = m.source.session_id;
      migration = true;
    } in
    let candidate : SessionClaim = record {
      path = m.candidate_file;
      owner = w;
      id = m.candidate_id;
      migration = true;
    } in
    let rows = put_claim source c.sessions in
    record c { sessions = if is_empty m.candidate_file then rows else put_claim candidate rows }

-- reserveMigrationClaimsLocked
unfoldable pub reserve_migration_claims : Pending → ℕ → Migration → Claims → Bool × Claims
unfolding check_migration_claims install_migration_claims
reserve_migration_claims pending w m c =
    if check_migration_claims pending w m c
    then (true, install_migration_claims w m c)
    else (false, c)

-- finishMigrationClaims
unfoldable pub finish_migration_claims : ℕ → Text → Text → Claims → Bool × Claims
unfolding text_eq nocase_eq put_claim
finish_migration_claims w file id c = elim (first? (is_at file) c.sessions) [
  | none ↦ (false, c)
  | some s ↦
      if is_owned w s && s.migration && nocase_eq s.id id
      then (
        true,
        record c {
          sessions =
              put_claim (record { path = file; owner = w; id = id; migration = false })
                (delete (is_owned w) c.sessions);
        },
      )
      else (false, c)
]
