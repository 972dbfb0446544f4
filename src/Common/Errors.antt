-- ===== src/Common/Errors.antt =====
-- Go's `error` results, with the messages and sentinels that the store returns.
use Prim.Native.String.{String}
use mathlib.Core.Path.{◌≡◌, refl}
use mathlib.Core.Logic.{◌⊎◌, inl, inr}
use mathlib.Core.Bool.{Bool, true, false}
use mathlib.Core.Option.{Option, none, some}

-- The exported sentinels, `sql.ErrNoRows`, a uniqueness constraint of the schema, and all other errors by
-- their message.
pub data Error : Type 0 where
  inbox_state_transition outbox_state_transition stale_binding session_path_conflict : Error
  migration_locked stale_migration no_rows constraint : Error
  invalid : String → Error

pub data Result {ℓ} (A : Type ℓ) : Type ℓ where
  err : Error → Result A
  ok : A → Result A

-- a `QueryRow` that must find a row
abbrev pub or_fail {ℓ} : {A : Type ℓ} → Option A → Error → Result A
or_fail none e = err e
or_fail (some a) e = ok a

-- `if !test { return e }`
abbrev pub guard : Bool → Error → Result (Unit {0})
guard false e = err e
guard true e = ok tt

-- `if err != nil { return err }` between two statements
infixl 5 ◌>>=◌ ◌>>◌
abbrev pub ◌>>=◌ {κ ι} : {A : Type κ} {B : Type ι} → Result A → (A → Result B) → Result B
err e >>= next = err e
ok a >>= next = next a

abbrev pub ◌>>◌ {κ} : {B : Type κ} → Result (Unit {0}) → Result B → Result B
first >> rest = first >>= λ _. rest

-- The state after a transaction: an error rolls it back.
abbrev pub after {ℓ κ} : {S : Type ℓ} {A : Type κ} → S → Result (A × S) → S
after s (ok r) = r.1
after s (err e) = s

-- `P` holds of the result, if there is one.
abbrev pub Holds {ℓ κ} : {A : Type ℓ} → (A → Type κ) → Result A → Type κ
Holds P (ok a) = P a
Holds P (err e) = Unit

pub Holds-after {ℓ κ ι} :
    {S : Type ℓ} {A : Type κ} (P : S → Type ι) (s : S) (r : Result (A × S))
    → P s
    → Holds (λ a. P a.1) r
    → P (after s r)
Holds-after P s (ok r) h k = k
Holds-after P s (err e) h k = h

pub Result-cases {ℓ} :
    {A : Type ℓ} (r : Result A) → ((a : A) × (r ≡ ok a)) ⊎ ((e : Error) × (r ≡ err e))
Result-cases (ok a) = inl (a, refl)
Result-cases (err e) = inr (e, refl)

pub Holds-ok {ℓ κ} :
    {A : Type ℓ} (P : A → Type κ) (r : Result A) (a : A) → r ≡ ok a → Holds P r → P a
Holds-ok P r a e h = rw e at h
