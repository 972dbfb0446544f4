-- ===== src/Store/Settings.antt =====
-- Two choices that outlive a restart: the preset of OMP arguments (internal/store/store.go) and the
-- language of the interface (internal/store/language.go).
use omp_telegram.Common.{
  ℕ, Text, text_eq, is_empty, ◌&&◌, not, leb, if◌then◌else◌, Option, none, some, List, [], ◌∷◌,
  invalid, Result, ok, err, codes, ◌>>◌, guard,
}
use omp_telegram.Store.Schema.{ArgsRow, Db}

-- The stored index, if there is one row, it was saved for these arguments, and it is in range.
unfoldable pub stored_index : Text → ℕ → List ArgsRow → Option ℕ
stored_index fingerprint preset_count [] = none
stored_index fingerprint preset_count (r ∷ []) =
    if text_eq r.args_fingerprint fingerprint
      && leb 1 r.preset_index
      && leb r.preset_index preset_count
    then some r.preset_index
    else none
stored_index fingerprint preset_count (_ ∷ _ ∷ _) = none

-- DELETE, then INSERT of the one row
unfoldable pub store_index : ℕ → Text → Db → Db
store_index index fingerprint db = record db {
  args_selection = record { preset_index = index; args_fingerprint = fingerprint } ∷ [];
}

unfoldable pub load_or_reset_omp_args_selection : Text → ℕ → Db → Result (ℕ × Db)
unfolding stored_index store_index
load_or_reset_omp_args_selection fingerprint preset_count db = do
  guard (not (is_empty fingerprint)) (invalid "OMP arguments fingerprint must not be empty")
  guard (leb 1 preset_count) (invalid "OMP argument preset count must be at least one")
  elim (stored_index fingerprint preset_count db.args_selection) [
    | some index ↦ ok (index, db)
    | none ↦ ok (1, store_index 1 fingerprint db)
  ]

unfoldable pub set_omp_args_selection : ℕ → Text → ℕ → Db → Result (Unit {0} × Db)
unfolding store_index
set_omp_args_selection index fingerprint preset_count db = do
  guard (not (is_empty fingerprint)) (invalid "OMP arguments fingerprint must not be empty")
  guard (leb 1 preset_count) (invalid "OMP argument preset count must be at least one")
  guard (leb 1 index && leb index preset_count)
      (invalid "OMP argument preset index must be in range")
  ok (tt, store_index index fingerprint db)

pub data Language : Type 0 where
  english chinese : Language

-- i18n.Parse; `none` is its (English, false)
unfoldable pub parse_language : Text → Option Language
parse_language value =
    if text_eq value (codes "en")
    then some Language.english
    else if text_eq value (codes "zh")
    then some Language.chinese
    else none

-- string(language)
abbrev pub language_code : Language → Text
language_code Language.english = codes "en"
language_code Language.chinese = codes "zh"

abbrev pub known_language : Text → Result Language
known_language code = elim (parse_language code) [
  | none ↦ err (invalid "invalid stored interface language")
  | some l ↦ ok l
]

-- English until a language was chosen.
unfoldable pub language : Db → Result Language
unfolding parse_language
language db = elim db.language [ none ↦ ok Language.english | some code ↦ known_language code ]

-- The argument is the language's code, which the source checks again.
unfoldable pub set_language : Text → Db → Result (Unit {0} × Db)
unfolding parse_language
set_language code db = elim (parse_language code) [
  | none ↦ err (invalid "unsupported interface language")
  | some l ↦ ok (tt, record db { language = some code })
]
