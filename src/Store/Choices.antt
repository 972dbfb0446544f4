-- ===== src/Store/Choices.antt =====
-- The preset and the language that internal/store/store.go and internal/store/language.go remember.
use omp_telegram.Common.{
  ℕ, ◌≤◌, ◌≡◌, refl, inl, inr, true, text_eq, text_eq_iff, Text, List, [], ◌∷◌, some, ok,
  Option-cases, arith,
}
use omp_telegram.Store.Schema.{ArgsRow, Db}
use omp_telegram.Store.Settings.{
  stored_index, store_index, load_or_reset_omp_args_selection, set_omp_args_selection, Language,
  parse_language, language_code, language, set_language,
}

stored_index_in_range :
    (fingerprint : Text) (count index : ℕ) (rows : List ArgsRow)
    → stored_index fingerprint count rows ≡ some index
    → (1 ≤ index) × (index ≤ count)
unfolding stored_index
stored_index_in_range fingerprint count index [] h = cc
stored_index_in_range fingerprint count index (r ∷ []) h = ground arith
stored_index_in_range fingerprint count index (_ ∷ _ ∷ _) h = cc

text_eq_same : (s : Text) → text_eq s s ≡ true
text_eq_same s = (text_eq_iff s s).1 refl

stored_index_again :
    (fingerprint : Text) (count index : ℕ) (db : Db)
    → 1 ≤ index
    → index ≤ count
    → stored_index fingerprint count (store_index index fingerprint db).args_selection ≡ some index
unfolding stored_index store_index
stored_index_again fingerprint count index db low high = ground (arith, text_eq_same fingerprint)

-- A preset that is loaded, stored or reset, is one of the presets there are, and loading again with the
-- same arguments gives the same preset and leaves the database alone.
pub load_is_stable :
    (fingerprint : Text) (count index : ℕ) (db db' : Db)
    → load_or_reset_omp_args_selection fingerprint count db ≡ ok (index, db')
    → (1 ≤ index)
      × (index ≤ count)
      × (load_or_reset_omp_args_selection fingerprint count db' ≡ ok (index, db'))
unfolding load_or_reset_omp_args_selection
load_is_stable fingerprint count index db db' h =
    elim (Option-cases (stored_index fingerprint count db.args_selection)) [
      | inl e ↦ ground (arith, stored_index_again fingerprint count 1 db)
      | inr (i, e) ↦ ground (arith, stored_index_in_range fingerprint count i db.args_selection e)
    ]

-- A preset that was chosen is the one that is loaded, as long as the arguments stay the same.
pub load-set :
    (index : ℕ) (fingerprint : Text) (count : ℕ) (db db' : Db)
    → set_omp_args_selection index fingerprint count db ≡ ok (tt, db')
    → load_or_reset_omp_args_selection fingerprint count db' ≡ ok (index, db')
unfolding load_or_reset_omp_args_selection set_omp_args_selection
load-set index fingerprint count db db' h =
    ground (arith, stored_index_again fingerprint count index db)

parse-language_code : (l : Language) → parse_language (language_code l) ≡ some l
unfolding parse_language text_eq
parse-language_code Language.english = refl
parse-language_code Language.chinese = refl

language_code-parse :
    (code : Text) (l : Language) → parse_language code ≡ some l → language_code l ≡ code
unfolding parse_language
language_code-parse code l h = ground (
  arith,
  text_eq_iff code (language_code Language.english),
  text_eq_iff code (language_code Language.chinese),
)

-- A language that was set is the one that the interface reads, and a code that names no language is
-- refused.
pub language-set :
    (code : Text) (db db' : Db)
    → set_language code db ≡ ok (tt, db')
    → (l : Language) × (language_code l ≡ code) × (language db' ≡ ok l)
unfolding set_language language
language-set code db db' h = elim (Option-cases (parse_language code)) [
  | inl e ↦ ground arith
  | inr (l, e) ↦ (l, language_code-parse code l e, ground arith)
]
