-- ===== src/Bridge/Rounds.antt =====
-- Rounds of the sender in internal/bridge/bridge.go as sequences of the store's calls.
use omp_telegram.Common.{List, [], ◌∷◌, All, ok, err, Result-cases, inl, inr}
use omp_telegram.Store.Schema.{Db, empty_db}
use omp_telegram.Store.FinalActions.{Json}
use omp_telegram.Store.DeliveryOrder.{IsOrdered}
use omp_telegram.Store.DeliveryOrder.Calls.{
  Call, IsMade, step, run, run-IsOrdered, IsOrdered-empty, Overtakes, never-Overtakes,
}
use omp_telegram.Bridge.Delivery.{World, deliver_round}
use omp_telegram.Bridge.Settling.{SameOutbox}
use omp_telegram.Bridge.Answers.{answer, gives_up, round_calls, round_calls-IsMade}
use omp_telegram.Bridge.Simulation.{deliver_round-calls}

same-IsOrdered : (c d : Db) → SameOutbox c d → IsOrdered d → IsOrdered c
same-IsOrdered c d h ordered = rw (h.same_rows, h.same_seq) ordered

-- What happens to the store: a call, or a round of the sender.
pub data Event : Type 0 where
  call : Call → Event
  round : World → Event

-- The state after a round. A round that fails has at most claimed a message.
unfoldable pub after_round : Json → World → Db → Db
unfolding deliver_round step
after_round json w db = elim (deliver_round w db) [
  | ok r ↦ r.1
  | err e ↦ step json (Call.claims w.now w.clock) db
]

unfoldable pub play : Json → List Event → Db → Db
unfolding step after_round
play json [] db = db
play json (call c ∷ events) db = play json events (step json c db)
play json (round w ∷ events) db = play json events (after_round json w db)

abbrev pub IsMadeEvent : Event → Type 0
IsMadeEvent (call c) = IsMade c
IsMadeEvent (round w) = Unit

one_call-IsOrdered :
    (json : Json) (c : Call) (db : Db) → IsMade c → IsOrdered db → IsOrdered (step json c db)
unfolding run
one_call-IsOrdered json c db made h = run-IsOrdered json (c ∷ []) db (made, tt) h

after_round-IsOrdered :
    (json : Json) (w : World) (db : Db) → IsOrdered db → IsOrdered (after_round json w db)
unfolding after_round
after_round-IsOrdered json w db h = elim (Result-cases (deliver_round w db)) [
  | inl e ↦
      let s = deliver_round-calls json w db e.0.1 e.0.0 e.1 in
      let claimed = step json (Call.claims w.now w.clock) db in
      let last = gives_up w e.0.0 (answer (w.outcome e.0.0)) claimed in
      rw (e.1, after_round)
        (same-IsOrdered e.0.1 (run json (round_calls w e.0.0 last) db) s
          (run-IsOrdered json (round_calls w e.0.0 last) db (round_calls-IsMade w e.0.0 last) h))
  | inr e ↦ rw (e.1, after_round) (one_call-IsOrdered json (Call.claims w.now w.clock) db tt h)
]

play-IsOrdered :
    (json : Json) (events : List Event) (db : Db)
    → All IsMadeEvent events
    → IsOrdered db
    → IsOrdered (play json events db)
unfolding play
play-IsOrdered json [] db made h = h
play-IsOrdered json (call c ∷ events) db made h =
    play-IsOrdered json events (step json c db) made.1 (one_call-IsOrdered json c db made.0 h)
play-IsOrdered json (round w ∷ events) db made h =
    play-IsOrdered json events (after_round json w db) made.1 (after_round-IsOrdered json w db h)

-- However rounds of the sender and the store's calls that a history consists of follow each other on a new
-- database, whatever the Bot API answers, no message is being sent while an older message of its
-- conversation is queued or being sent, if no call marks a message as being sent by hand.
pub play_in_order :
    (json : Json) (events : List Event)
    → All IsMadeEvent events
    → let rows = (play json events empty_db).outbox in
      All (λ b. All (λ a. ¬ Overtakes b a) rows) rows
play_in_order json events made =
    never-Overtakes _ _ (play-IsOrdered json events empty_db made IsOrdered-empty)
