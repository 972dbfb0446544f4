-- ===== src/Store/MigrationLock.antt =====
-- While a migration of a conversation is unresolved, nothing else rebinds, starts or deletes it, and no
-- other conversation is held up.
use omp_telegram.Common.{
  ok, ◌++◌, [], ◌∷◌, ◌||◌, if◌then◌else◌, exists?-append, refl, ℕ, ℤ, ◌≡◌, Bool, true, false, ◌&&◌,
  not, ◌==◌, List, exists?, affected, All-const, exists?-All, affected-exists?, affected-zero,
  migration_locked, stale_binding, err, arith,
}
use omp_telegram.Store.Schema.{BindingKey, key_eq, key_eq_iff, Binding, StartIntent, Migration, Db}
use omp_telegram.Store.Migrations.{is_locked, migration_guard, prepare_migration, is_valid}
use omp_telegram.Store.Bindings.{
  at_generation, save, touch_binding, set_running, delete_closed_binding,
}
use omp_telegram.Store.Starts
use omp_telegram.Store.Starts.{prepare_start}

-- An UPDATE that asks for an unlocked conversation affects no row.
locked-affected :
    (p : Binding → Bool) (q : Bool) (rows : List Binding)
    → q ≡ false
    → affected (λ b. p b && q) rows ≡ 0
locked-affected p q rows e =
    affected-exists? _ rows (exists?-All _ rows (All-const _ rows (λ b. none_ (p b))))
  where
    none_ : (a : Bool) → (a && q) ≡ false
    none_ a = ground arith

and3 : (a b c q : Bool) → q ≡ false → (a && b && c && q) ≡ false
and3 a b c q e = ground arith

module _ (key : BindingKey) (db : Db) (locked : is_locked key db ≡ true) where
  open_ : not (is_locked key db) ≡ false
  open_ = rw locked

  save_refused : (b : Binding) → b.key ≡ key → save b db ≡ err migration_locked
  unfolding save migration_guard
  save_refused b e = rw (e, locked)

  touch_refused :
      (generation : ℤ) (used_at : ℕ) → touch_binding key generation used_at db ≡ (false, db)
  unfolding touch_binding
  touch_refused generation used_at =
      let zero_ = locked-affected (at_generation key generation) _ db.bindings open_ in
      λ i. (
        ◌==◌ (zero_ i) 1,
        record db {
          bindings = affected-zero _ (λ b. record b { last_used_at = used_at }) db.bindings zero_ i;
        },
      )

  set_running_refused :
      (b : Binding) (running : Bool) → b.key ≡ key → set_running b running db ≡ err stale_binding
  unfolding set_running
  set_running_refused b running e =
      let shut : not (is_locked b.key db) ≡ false = rw (e, locked) in
      let zero_ =
        locked-affected (at_generation b.key b.generation) (not (is_locked b.key db)) db.bindings
          shut in
      rw zero_

  delete_refused : (generation : ℤ) → delete_closed_binding key generation db ≡ (false, db)
  unfolding delete_closed_binding
  delete_refused generation =
      let p = λ (b : Binding).
        at_generation key generation b
        && not b.running
        && not (exists? (λ i. key_eq i.key key) db.startup_intents)
        && not (is_locked key db) in
      let zero_ : affected p db.bindings ≡ 0 = affected-exists? p db.bindings (
        exists?-All p db.bindings (
          All-const (λ b. p b ≡ false) db.bindings
            (λ b.
              and3 (at_generation key generation b) (not b.running)
                (not (exists? (λ i. key_eq i.key key) db.startup_intents)) (not (is_locked key db))
                open_))) in
      rw zero_

  start_refused :
      (now : ℕ) (previous : Binding) (intent : StartIntent)
      → previous.key ≡ key
      → Starts.is_valid previous intent ≡ true
      → prepare_start now previous intent db ≡ err migration_locked
  unfolding prepare_start migration_guard
  start_refused now previous intent e valid = rw (valid, e, locked)

  migration_refused :
      (now : ℕ) (m : Migration)
      → m.source.key ≡ key
      → is_valid m ≡ true
      → prepare_migration now m db ≡ err migration_locked
  unfolding prepare_migration migration_guard
  migration_refused now m e valid = rw (valid, e, locked)

-- A prepared migration is a new row for its conversation.
prepared :
    (now : ℕ) (m : Migration) (db db' : Db)
    → prepare_migration now m db ≡ ok (tt, db')
    → (created_at : ℕ) × (db'.migrations
        ≡ db.migrations ++ record m { created_at = created_at } ∷ [])
unfolding prepare_migration
prepared now m db db' h = (if m.created_at == 0 then now else m.created_at, ground arith)

prepared-is_locked :
    (now : ℕ) (m : Migration) (key : BindingKey) (db db' : Db)
    → prepare_migration now m db ≡ ok (tt, db')
    → is_locked key db' ≡ (is_locked key db || key_eq m.source.key key)
unfolding is_locked exists?
prepared-is_locked now m key db db' h =
    let (created_at, e) = prepared now m db db' h in simp (e, exists?-append) (ground arith)

-- After a migration of a conversation is prepared, saving a binding of it, marking it as used or as
-- running, deleting it when closed, preparing a valid start and preparing another valid migration
-- all fail, and an operation that returns a database returns it unchanged. Every other
-- conversation is locked exactly if it was locked before.
pub prepared_refuses :
    (now later : ℕ) (m again : Migration) (b : Binding) (generation : ℤ) (running : Bool)
    (intent : StartIntent) (other : BindingKey) (db db' : Db)
    → prepare_migration now m db ≡ ok (tt, db')
    → b.key ≡ m.source.key
    → again.source.key ≡ m.source.key
    → Starts.is_valid b intent ≡ true
    → is_valid again ≡ true
    → key_eq m.source.key other ≡ false
    → (save b db' ≡ err migration_locked)
      × (touch_binding m.source.key generation later db' ≡ (false, db'))
      × (set_running b running db' ≡ err stale_binding)
      × (delete_closed_binding m.source.key generation db' ≡ (false, db'))
      × (prepare_start later b intent db' ≡ err migration_locked)
      × (prepare_migration later again db' ≡ err migration_locked)
      × (is_locked other db' ≡ is_locked other db)
prepared_refuses now later m again b generation running intent other db db' h e s valid fits apart =
    let key = m.source.key in
    let self : key_eq key key ≡ true = (key_eq_iff key key).1 refl in
    let locked : is_locked key db' ≡ true =
      ground (arith, prepared-is_locked now m key db db' h, self) in
    (
      save_refused key db' locked b e,
      touch_refused key db' locked generation later,
      set_running_refused key db' locked b running e,
      delete_refused key db' locked generation,
      start_refused key db' locked later b intent e valid,
      migration_refused key db' locked later again s fits,
      ground (arith, prepared-is_locked now m other db db' h),
    )
