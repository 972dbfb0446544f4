-- ===== src/Store/Tests/Sessions.antt =====
-- Conversations, their sessions, titles and settings, at concrete inputs.
use omp_telegram.Common.{
  units_of, suc, first?, ◌==◌, arith, ◌≤◌, ◌-◌, pos, int_eq, Text, codes, ◌≡◌, refl, true, false,
  ◌&&◌, [], ◌∷◌, ◌++◌, map, select, exists?, some, ok, err, after, migration_locked, stale_binding,
}
use omp_telegram.Store.Schema.{InboxState, key_eq, Binding, Phase, Migration, Db, empty_db}
use omp_telegram.Store.Bindings.{save, touch_binding, set_running, delete_closed_binding, binding}
use omp_telegram.Store.Starts.{prepare_start, commit_start, intent_of}
use omp_telegram.Store.StartCommit.{Succeeds, commit_binds}
use omp_telegram.Store.Migrations.{
  is_locked, migration, prepare_migration, update_migration, of_key, history_row,
}
use omp_telegram.Store.MigrationLock.{prepared_refuses}
use omp_telegram.Store.MigrationSteps.{Steps, update-Steps}
use omp_telegram.Store.Topics.{
  topic_revision, is_reservation, is_occupied, truncate_topic_name, is_occupied, reserve_topic_name,
  observe_topic_name,
}
use omp_telegram.Store.Titles.{
  cut, Overflows, truncate_longest, is_free, titles, reserve_first_free,
}
use omp_telegram.Store.SessionId.{session_id_from_path, all_id_chars}
use omp_telegram.Store.SessionNames.{IsSessionId, file_name, session_id-path}
use omp_telegram.Store.Settings.{
  load_or_reset_omp_args_selection, set_omp_args_selection, Language, language_code, language,
  set_language,
}
use omp_telegram.Store.Choices.{load_is_stable, load-set, language-set}
use omp_telegram.Store.Tests.Samples.{
  topic, other_topic, bound, busy, migrating, migration_of, intent,
}
use omp_telegram.Common.{is_negative}
use omp_telegram.Common.{suc_ℤ}
use omp_telegram.Common.{is_empty}
use omp_telegram.Common.{is_positive}
use omp_telegram.Store.Migrations.{phase_eq}
use omp_telegram.Common.{is_empty}
use omp_telegram.Common.{first?}
use omp_telegram.Common.{text_eq}
use omp_telegram.Common.{first?}
use omp_telegram.Common.{is_negative}
use omp_telegram.Common.{suc_ℤ}
use omp_telegram.Common.{affected}
use omp_telegram.Common.{is_positive}
use omp_telegram.Common.{update}
use omp_telegram.Common.{is_empty}
use omp_telegram.Common.{text_eq}
use omp_telegram.Common.{delete}
use omp_telegram.Common.{is_empty}
use omp_telegram.Common.{text_eq}
use omp_telegram.Common.{delete}
use omp_telegram.Common.{is_empty}
use omp_telegram.Common.{text_eq}
use omp_telegram.Store.Topics.{candidate}
use omp_telegram.Store.SessionId.{starts_with_dash}
use omp_telegram.Store.SessionId.{ends_with_dash}

-- A migration of the topic is prepared.
abbrev locked : Db
locked =
    after (busy InboxState.submitted)
      (prepare_migration 30 (migration_of bound) (busy InboxState.submitted))

lock_fits : prepare_migration 30 (migration_of bound) (busy InboxState.submitted) ≡ ok (tt, locked)
unfolding prepare_migration is_empty is_positive exists? empty_db first? key_eq int_eq text_eq
lock_fits = refl

prepared_refuses_example :
    (save bound locked ≡ err migration_locked)
    × (touch_binding topic (pos 1) 60 locked ≡ (false, locked))
    × (set_running bound false locked ≡ err stale_binding)
    × (delete_closed_binding topic (pos 1) locked ≡ (false, locked))
    × (prepare_start 60 bound intent locked ≡ err migration_locked)
    × (prepare_migration 60 (migration_of bound) locked ≡ err migration_locked)
    × (is_locked other_topic locked ≡ is_locked other_topic (busy InboxState.submitted))
unfolding key_eq is_negative int_eq suc_ℤ is_empty is_positive phase_eq
prepared_refuses_example =
    prepared_refuses 30 60 (migration_of bound) (migration_of bound) bound (pos 1) false intent
      other_topic (busy InboxState.submitted) locked lock_fits refl refl refl refl refl

abbrev verified : Migration
verified = record (migration_of bound) {
  phase = Phase.handoff;
  candidate_file = codes "/s/c.jsonl";
  candidate_id = codes "1f2e3d4c";
}

abbrev advanced : Db
advanced = after migrating (update_migration 70 verified Phase.prepared migrating)

advance_fits : update_migration 70 verified Phase.prepared migrating ≡ ok (tt, advanced)
unfolding update_migration is_empty first? key_eq int_eq text_eq exists?
advance_fits = refl

update-Steps_example :
    (current next : Migration) × (migration topic migrating ≡ some current)
    × (migration topic advanced ≡ some next)
    × Steps current next
update-Steps_example = update-Steps 70 verified Phase.prepared migrating advanced advance_fits

abbrev successor : Binding
successor = record bound {
  session = codes "/s/b.jsonl";
  session_id = codes "ffff0000";
  generation = pos 2;
  last_used_at = 0;
}

abbrev starting : Db
starting =
    after (busy InboxState.submitted) (prepare_start 60 bound intent (busy InboxState.submitted))

abbrev started : Db
started = after starting (commit_start successor starting)

start_fits : commit_start successor starting ≡ ok (tt, started)
unfolding commit_start prepare_start first? is_negative int_eq suc_ℤ key_eq exists? empty_db
    affected is_positive update
start_fits = refl

foreign : key_eq topic other_topic ≡ false
unfolding key_eq int_eq
foreign = refl

commit_binds_example :
    (written : Binding) × (binding topic started ≡ some written)
    × Succeeds (binding topic starting) successor written
    × (binding other_topic started ≡ binding other_topic starting)
    × (started.history
        ≡ starting.history ++ map history_row (select (of_key topic) starting.bindings))
    × (exists? (λ i. intent_of topic i && int_eq i.generation (pos 2)) started.startup_intents
        ≡ false)
commit_binds_example = commit_binds successor other_topic starting started start_fits foreign

abbrev named : Db
named = observe_topic_name other_topic (codes "fix") empty_db

-- The name of the other topic is taken, so the title gets a suffix.
second_title_is_free :
    first?
      (is_free topic named)
      (titles 2 topic (codes "fix") 1 (truncate_topic_name (codes "fix") 128))
    ≡ some (codes "fix [3]")
unfolding titles first? is_free is_occupied exists? observe_topic_name is_empty empty_db int_eq
    text_eq truncate_topic_name candidate delete
second_title_is_free = refl

no_clash :
    exists?
      (λ x. key_eq x.key topic && x.revision == suc (topic_revision topic named))
      named.reservations
    ≡ false
unfolding exists? observe_topic_name is_empty delete empty_db
no_clash = refl

reserve_first_free_example :
    (db' : Db) × (reserve_topic_name 2 topic (codes "fix") named
      ≡ some (
          ok (record { name = codes "fix [3]"; revision = suc (topic_revision topic named) }, db')))
    × (is_occupied topic (codes "fix [3]") named ≡ false)
    × (exists?
          (is_reservation topic
            (record { name = codes "fix [3]"; revision = suc (topic_revision topic named) }))
          db'.reservations
        ≡ true)
reserve_first_free_example =
    reserve_first_free 2 topic (codes "fix") (codes "fix [3]") named second_title_is_free no_clash

sample_IsSessionId : IsSessionId (codes "0a1b2c3d")
unfolding all_id_chars starts_with_dash ends_with_dash
sample_IsSessionId = record {
  long = omega arith;
  short = omega arith;
  has_id_chars = refl;
  no_dash_before = refl;
  no_dash_after = refl;
}

session_id-path_example :
    session_id_from_path (codes "/s" ++ (b'/' ∷ file_name (codes "2026") (codes "0a1b2c3d")))
    ≡ codes "0a1b2c3d"
session_id-path_example =
    session_id-path (codes "/s") (codes "2026") (codes "0a1b2c3d") sample_IsSessionId refl

abbrev emoji : Text
emoji = 0x1f600 ∷ 97 ∷ 0x1f600 ∷ []

truncate_longest_example :
    (units_of (truncate_topic_name emoji 4) ≤ 4)
    × (truncate_topic_name emoji 4 ++ cut emoji 4 ≡ emoji)
    × Overflows (4 - units_of (truncate_topic_name emoji 4)) (cut emoji 4)
truncate_longest_example = truncate_longest emoji 4

abbrev chosen : Db
chosen = after empty_db (set_omp_args_selection 2 (codes "fp") 3 empty_db)

choice_fits : set_omp_args_selection 2 (codes "fp") 3 empty_db ≡ ok (tt, chosen)
unfolding set_omp_args_selection is_empty
choice_fits = refl

load-set_example : load_or_reset_omp_args_selection (codes "fp") 3 chosen ≡ ok (2, chosen)
load-set_example = load-set 2 (codes "fp") 3 empty_db chosen choice_fits

load_is_stable_example :
    (1 ≤ 2) × (2 ≤ 3) × (load_or_reset_omp_args_selection (codes "fp") 3 chosen ≡ ok (2, chosen))
load_is_stable_example = load_is_stable (codes "fp") 3 2 chosen chosen load-set_example

abbrev translated : Db
translated = after empty_db (set_language (codes "zh") empty_db)

language_fits : set_language (codes "zh") empty_db ≡ ok (tt, translated)
unfolding set_language text_eq
language_fits = refl

language-set_example :
    (l : Language) × (language_code l ≡ codes "zh") × (language translated ≡ ok l)
language-set_example = language-set (codes "zh") empty_db translated language_fits
