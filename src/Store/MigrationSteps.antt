-- ===== src/Store/MigrationSteps.antt =====
-- The steps of a migration (internal/store/migration.go): its phase goes forward and its evidence stays.
use omp_telegram.Common.{
  Bool, ◌||◌, ℕ, suc, ◌≤◌, ◌≡◌, refl, inl, inr, true, Text, text_eq, is_empty, if◌then◌else◌, some,
  first?, update, first?-update, ok, Option-cases, arith,
}
use omp_telegram.Store.Schema.{BindingKey, Phase, Migration, Db}
use omp_telegram.Store.Migrations.{
  migration, migration_phase, update_row, update_migration, same_migration_source, is_update,
  keeps_evidence, discovers, locks, phase_eq,
}

-- A text is the same as before, if the evidence that it belongs to had been recorded.
unfoldable pub is_kept : Text → Text → Text → Bool
is_kept recorded before after = is_empty recorded || text_eq before after

-- How a migration may change in one update.
pub record Steps (current next : Migration) : Type 0 where
  pub same_id : next.id ≡ current.id
  pub same_source : next.source ≡ current.source
  pub same_input : next.inbox_id ≡ current.inbox_id
  pub no_way_back : migration_phase current.phase ≤ migration_phase next.phase
  pub one_phase : migration_phase next.phase ≤ suc (migration_phase current.phase)
  pub keeps_candidate :
      is_kept current.candidate_file current.candidate_file next.candidate_file ≡ true
  pub keeps_candidate_id :
      is_kept current.candidate_file current.candidate_id next.candidate_id ≡ true
  pub keeps_summary :
      is_kept current.summary_entry_id current.summary_entry_id next.summary_entry_id ≡ true
  pub keeps_summary_hash :
      is_kept current.summary_entry_id current.summary_hash next.summary_hash ≡ true

phase_eq_same : (a b : Phase) → phase_eq a b ≡ true → a ≡ b
unfolding phase_eq migration_phase
phase_eq_same a b h = ground arith

update_row-Steps :
    (current m : Migration) (expected : Phase) (kind : Text)
    → is_update m expected ≡ true
    → phase_eq current.phase expected ≡ true
    → keeps_evidence current m ≡ true
    → Steps current (update_row m kind current)
unfolding is_update keeps_evidence update_row is_kept
update_row-Steps current m expected kind fits phase evidence =
    let same : current.phase ≡ expected = phase_eq_same current.phase expected phase in
    let at : migration_phase current.phase ≡ migration_phase expected =
      (λ i. migration_phase (same i)) in
    record {
      same_id = refl;
      same_source = refl;
      same_input = refl;
      no_way_back = ground arith;
      one_phase = ground arith;
      keeps_candidate = ground arith;
      keeps_candidate_id = ground arith;
      keeps_summary = ground arith;
      keeps_summary_hash = ground arith;
    }

moved :
    (now : ℕ) (m : Migration) (expected : Phase) (db db' : Db)
    → update_migration now m expected db ≡ ok (tt, db')
    → (current : Migration) × (kind : Text) × (migration m.source.key db ≡ some current)
      × (db'.migrations ≡ update (λ x. text_eq x.id m.id) (update_row m kind) db.migrations)
      × (is_update m expected ≡ true)
      × (same_migration_source current m ≡ true)
      × (phase_eq current.phase expected ≡ true)
      × (keeps_evidence current m ≡ true)
unfolding update_migration
moved now m expected db db' h = elim (Option-cases (migration m.source.key db)) [
  | inl e ↦ absurd (ground arith)
  | inr (current, e) ↦ (
    current,
    if discovers current m then current.error_kind else m.error_kind,
    e,
    ground arith,
    ground arith,
    ground arith,
    ground arith,
    ground arith,
  )
]

source_id : (a b : Migration) → same_migration_source a b ≡ true → text_eq a.id b.id ≡ true
unfolding same_migration_source
source_id a b h = ground arith

update_row-locks :
    (m : Migration) (kind : Text) (key : BindingKey) (x : Migration)
    → locks key (update_row m kind x) ≡ locks key x
unfolding update_row
update_row-locks m kind key x = refl

-- A migration that is updated stays the same migration of the same conversation, its phase stays or goes on
-- by one, and a candidate session or a summary that was recorded is not replaced.
pub update-Steps :
    (now : ℕ) (m : Migration) (expected : Phase) (db db' : Db)
    → update_migration now m expected db ≡ ok (tt, db')
    → (current next : Migration) × (migration m.source.key db ≡ some current)
      × (migration m.source.key db' ≡ some next)
      × Steps current next
unfolding migration
update-Steps now m expected db db' h =
    let (current, kind, found, rows, fits, source, phase, evidence) =
      moved now m expected db db' h in
    let own = λ (x : Migration). text_eq x.id m.id in
    let read : first? (locks m.source.key) (update own (update_row m kind) db.migrations)
        ≡ some (update_row m kind current) =
      rw
        (
          first?-update (locks m.source.key) own (update_row m kind) db.migrations
              (update_row-locks m kind m.source.key),
          found,
        )
        (rw (source_id current m source) refl) in
    (
      current,
      update_row m kind current,
      found,
      simp rows read,
      update_row-Steps current m expected kind fits phase evidence,
    )
