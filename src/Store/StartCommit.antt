-- ===== src/Store/StartCommit.antt =====
-- Committing a start (internal/store/store.go): what the conversation is bound to afterwards.
use omp_telegram.Common.{
  int_eq, ◌≡◌, refl, inl, inr, true, false, ◌&&◌, List, [], ◌∷◌, ◌++◌, Option, none, some, exists?,
  first?, delete, first?-update, first?-update_other, map, select, first?-test, first?-append,
  exists?-first?, first?-exists?, exists?-delete_none, ok, Option-cases, Bool-cases, arith,
}
use omp_telegram.Store.Schema.{BindingKey, key_eq, key_eq_iff, Binding, Db}
use omp_telegram.Store.Migrations.{of_key, history_row, keep_history}
use omp_telegram.Store.Bindings.{upsert_binding, binding}
use omp_telegram.Store.Starts.{intent_of, last_used, commit_start}

key_eq_same : (k : BindingKey) → key_eq k k ≡ true
key_eq_same k = (key_eq_iff k k).1 refl

-- The row found by a key has the key.
found_key :
    (key : BindingKey) (rows : List Binding) (x : Binding)
    → first? (of_key key) rows ≡ some x
    → x.key ≡ key
found_key key rows x h = (key_eq_iff x.key key).0 (first?-test (of_key key) rows x h)

upsert_new :
    (b : Binding) (rows : List Binding)
    → exists? (of_key b.key) rows ≡ false
    → first? (of_key b.key) (upsert_binding b rows) ≡ some b
unfolding upsert_binding first? exists?
upsert_new b rows new =
    rw new (rw (first?-append (of_key b.key) rows (b ∷ []), new) (rw (key_eq_same b.key)))

upsert_old :
    (b : Binding) (rows : List Binding)
    → exists? (of_key b.key) rows ≡ true
    → first? (of_key b.key) (upsert_binding b rows) ≡ some b
unfolding upsert_binding
upsert_old b rows old = elim (Option-cases (first? (of_key b.key) rows)) [
  | inl e ↦ cc (first?-exists? (of_key b.key) rows e)
  | inr (x, e) ↦
      let k = of_key b.key in
      let same : x.key ≡ b.key = found_key b.key rows x e in
      let here : k x ≡ true = first?-test k rows x e in
      rw old (
        rw (first?-update k k (λ y. record b { key = y.key }) rows (λ y. refl), e)
          (rw here (λ i. some (record b { key = same i }))))
]

-- The binding that was written is the one that is read.
pub upsert_found :
    (b : Binding) (rows : List Binding) → first? (of_key b.key) (upsert_binding b rows) ≡ some b
upsert_found b rows = elim (Bool-cases (exists? (of_key b.key) rows)) [
  | inl old ↦ upsert_old b rows old
  | inr new ↦ upsert_new b rows new
]

key_eq_foreign : (a b c : BindingKey) → key_eq b c ≡ false → key_eq a b ≡ true → key_eq a c ≡ false
key_eq_foreign a b c other same = let e : a ≡ b = (key_eq_iff a b).0 same in rw (e, other)

upsert_other :
    (key : BindingKey) (b : Binding) (rows : List Binding)
    → key_eq b.key key ≡ false
    → first? (of_key key) (upsert_binding b rows) ≡ first? (of_key key) rows
unfolding upsert_binding first? exists?
upsert_other key b rows other = elim (Bool-cases (exists? (of_key b.key) rows)) [
  | inl old ↦ rw old (
      first?-update_other (of_key key) (of_key b.key) _ rows (λ y. refl)
        (λ y hit. key_eq_foreign y.key b.key key other hit))
  | inr new ↦
      rw (new, first?-append (of_key key) rows (b ∷ []), other)
        (elim (Bool-cases (exists? (of_key key) rows)) [
          | inl there ↦ rw there refl
          | inr absent ↦ rw (absent, exists?-first? (of_key key) rows absent) refl
        ])
]

committed :
    (b : Binding) (db db' : Db)
    → commit_start b db ≡ ok (tt, db')
    → (db'.bindings ≡ upsert_binding (record b { last_used_at = last_used b db }) db.bindings)
      × (db'.history ≡ db.history ++ map history_row (select (of_key b.key) db.bindings))
      × (db'.startup_intents
          ≡ delete (λ i. intent_of b.key i && int_eq i.generation b.generation) db.startup_intents)
unfolding commit_start keep_history
committed b db db' h = elim (Option-cases (first? (intent_of b.key) db.startup_intents)) [
  | inl e ↦ ground arith
  | inr (i, e) ↦ elim (Bool-cases (int_eq i.generation b.generation)) [
    | inl same ↦ ground arith
    | inr other ↦ ground arith
  ]
]

-- The binding that replaces an old one is the new one, used when the old one was last used. A new binding
-- that replaces none is written as it is.
abbrev pub Succeeds : Option Binding → Binding → Binding → Type 0
Succeeds none b written = written ≡ b
Succeeds (some old) b written = written ≡ record b { last_used_at = old.last_used_at }

used_as_old :
    (b : Binding) (db : Db)
    → Succeeds (first? (of_key b.key) db.bindings) b (record b { last_used_at = last_used b db })
unfolding last_used
used_as_old b db = elim (Option-cases (first? (of_key b.key) db.bindings)) [
  | inl e ↦ rw (e, last_used) refl
  | inr (old, e) ↦ rw (e, last_used) refl
]

-- A committed start binds its conversation to the new session, used when the old binding was last used
-- if there was one, and leaves every other conversation as it was bound; the old binding is in the history, and the
-- intent is gone.
pub commit_binds :
    (b : Binding) (key : BindingKey) (db db' : Db)
    → commit_start b db ≡ ok (tt, db')
    → key_eq b.key key ≡ false
    → (written : Binding) × (binding b.key db' ≡ some written)
      × Succeeds (binding b.key db) b written
      × (binding key db' ≡ binding key db)
      × (db'.history ≡ db.history ++ map history_row (select (of_key b.key) db.bindings))
      × (exists? (λ i. intent_of b.key i && int_eq i.generation b.generation) db'.startup_intents
          ≡ false)
unfolding binding
commit_binds b key db db' h other =
    let (bindings, history, intents) = committed b db db' h in
    let used = record b { last_used_at = last_used b db } in
    (
      used,
      simp bindings (upsert_found used db.bindings),
      used_as_old b db,
      simp bindings (upsert_other key used db.bindings other),
      history,
      simp intents (exists?-delete_none _ _ db.startup_intents (λ i hit. hit)),
    )
