-- ===== src/Store/Tests/Encoding.antt =====
-- An encoding of lists of actions with the laws that the store relies on, to run it: a count, then each
-- text after its length.
use omp_telegram.Common.{
  ℕ, zero, suc, Text, length, take, drop, ◌≡◌, refl, Option, none, some, List, [], ◌∷◌, ◌++◌,
}
use omp_telegram.Store.FinalActions.{FinalAction, Json}

unfoldable pub put : Text → Text → Text
put t rest = length t ∷ (t ++ rest)

unfoldable pub put_actions : List FinalAction → Text
put_actions [] = []
put_actions (a ∷ actions) = put a.token (put a.label (put a.command (put_actions actions)))

unfoldable pub get_text : Text → Option (Text × Text)
get_text [] = none
get_text (n ∷ rest) = some (take n rest, drop n rest)

unfoldable pub get_action : Text → Option (FinalAction × Text)
get_action s = elim (get_text s) [
  | none ↦ none
  | some (token, s₁) ↦ elim (get_text s₁) [
    | none ↦ none
    | some (label, s₂) ↦ elim (get_text s₂) [
      | none ↦ none
      | some (command, s₃) ↦ some (record { token = token; label = label; command = command }, s₃)
    ]
  ]
]

unfoldable pub get_actions : ℕ → Text → Option (List FinalAction)
get_actions zero s = some []
get_actions (suc n) s = elim (get_action s) [
  | none ↦ none
  | some (a, rest) ↦ elim (get_actions n rest) [ none ↦ none | some actions ↦ some (a ∷ actions) ]
]

take-put : (t rest : Text) → take (length t) (t ++ rest) ≡ t
take-put [] rest = refl
take-put (c ∷ t) rest = λ i. c ∷ take-put t rest i

drop-put : (t rest : Text) → drop (length t) (t ++ rest) ≡ rest
drop-put [] rest = refl
drop-put (c ∷ t) rest = drop-put t rest

get_text-put : (t rest : Text) → get_text (put t rest) ≡ some (t, rest)
unfolding get_text put
get_text-put t rest = λ i. some (take-put t rest i, drop-put t rest i)

get_action-put :
    (a : FinalAction) (rest : Text)
    → get_action (put a.token (put a.label (put a.command rest))) ≡ some (a, rest)
unfolding get_action
get_action-put a rest =
    rw (get_action, get_text-put a.token _)
      (rw (get_text-put a.label _) (rw (get_text-put a.command rest) refl))

pub get-put_actions :
    (actions : List FinalAction) → get_actions (length actions) (put_actions actions) ≡ some actions
unfolding get_actions put_actions
get-put_actions [] = refl
get-put_actions (a ∷ actions) =
    rw (get_actions, get_action-put a (put_actions actions)) (rw (get-put_actions actions) refl)

unfoldable pub counted : Json
unfolding get_actions put_actions
counted = record {
  marshal = λ actions. length actions ∷ put_actions actions;
  unmarshal = λ s. elim s [ [] ↦ none | n ∷ rest ↦ get_actions n rest ];
  unmarshal-marshal = get-put_actions;
  marshal_nonempty = λ actions e. cc e;
}
