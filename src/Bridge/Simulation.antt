-- ===== src/Bridge/Simulation.antt =====
-- A round of the sender in internal/bridge/bridge.go as a sequence of the store's calls of Bridge/Answers.
use omp_telegram.Common.{
  ◌∙◌, if◌then◌else◌, true, Bool, some, none, ℕ, ℤ, Text, false, ◌&&◌, not, Bool-cases, List, [],
  ◌∷◌, ok, after, ◌≡◌, refl, sym, ap, inl, inr, arith,
}
use mathlib.Core.Path.{subst}
use omp_telegram.Telegram.Failures.{ErrorInfo}
use omp_telegram.Store.Schema.{OutboxState, OutboxRow, is_text, Db}
use omp_telegram.Store.Outbox.{
  claim_next_output, retry_output, retry_server_output, mark_output, mark_output_delivered, enqueue,
  push_row, new_row,
}
use omp_telegram.Store.FinalActions.{Json}
use omp_telegram.Store.DeliveryOrder.Calls.{Call, step, run}
use omp_telegram.Bridge.Delivery.{
  World, Outcome, sent, refused, clean_after, failure_notice, after_settled, has_extras,
  settle_sent, settle_lost, retry_or_fail, retry_later, settle_refused, settle, deliver_round,
  retryable_server_rejection, is_rate_limited,
}
use omp_telegram.Bridge.Settling.{bind-ok, SameOutbox, clean_after-SameOutbox}
use omp_telegram.Bridge.Answers.{
  accepted, answer, again_at, report, notice, tell, exhausted, gives_up, settling_calls,
  round_calls, server_answer, limited_answer, unclear_answer, rejected_answer,
}

first_branch {ℓ} : {A : Type ℓ} (b : Bool) (x y : A) → b ≡ true → (if b then x else y) ≡ x
first_branch b x y e = rw e refl

second_branch {ℓ} : {A : Type ℓ} (b : Bool) (x y : A) → b ≡ false → (if b then x else y) ≡ y
second_branch b x y e = rw e refl

module _ (json : Json) where
  enqueue-SameOutbox :
      (now : ℕ) (chat thread : ℤ) (text : Text) (c d : Db)
      → SameOutbox c d
      → SameOutbox (enqueue now chat thread text c) (enqueue now chat thread text d)
  unfolding enqueue push_row new_row
  enqueue-SameOutbox now chat thread text c d h = record {
    same_rows = rw (h.same_rows, h.same_seq) refl;
    same_seq = rw h.same_seq refl;
  }

  -- The outbox of `result` is what the calls make of `before`.
  abbrev MadeBy : List Call → Db → Db → Type 0
  MadeBy calls before result = SameOutbox result (run json calls before)

  first_call :
      (c : Call) (rest : List Call) (db d result : Db)
      → step json c db ≡ d
      → MadeBy rest d result
      → MadeBy (c ∷ rest) db result
  unfolding run
  first_call c rest db d result e same = rw e same

  settled-quiet :
      (w : World) (o : OutboxRow) (state : OutboxState) (db : Db)
      → failure_notice w o state ≡ none
      → MadeBy [] db (after_settled w o state db)
  unfolding after_settled run
  settled-quiet w o state db e = rw (e, after_settled) (clean_after-SameOutbox w o db)

  settled-loud :
      (w : World) (o : OutboxRow) (state : OutboxState) (text : Text) (db : Db)
      → failure_notice w o state ≡ some text
      → MadeBy (Call.enqueues w.clock o.chat o.thread text ∷ []) db (after_settled w o state db)
  unfolding after_settled run step
  settled-loud w o state text db e =
      rw (e, after_settled)
        (enqueue-SameOutbox w.clock o.chat o.thread text (clean_after w o db) db
          (clean_after-SameOutbox w o db))

  settled-told :
      (w : World) (o : OutboxRow) (state : OutboxState) (text : Text) (db : Db)
      → failure_notice w o state ≡ (if is_text o.kind then none else some text)
      → MadeBy (notice w o text) db (after_settled w o state db)
  settled-told w o state text db fn = elim (Bool-cases (is_text o.kind)) [
    | inl e ↦
        rw e (settled-quiet w o state db (fn ∙ first_branch (is_text o.kind) none (some text) e))
    | inr e ↦
        rw e
          (settled-loud w o state text db (fn ∙ second_branch (is_text o.kind) none (some text) e))
  ]

  same-MadeBy :
      (calls : List Call) (db d db' : Db) → d ≡ db' → MadeBy calls db d → MadeBy calls db db'
  same-MadeBy calls db d db' e h = rw (sym e) h

  settle_lost-MadeBy :
      (w : World) (o : OutboxRow) (state : OutboxState) (text : Text) (db db' : Db)
      → failure_notice w o state ≡ (if is_text o.kind then none else some text)
      → settle_lost w o state db ≡ ok db'
      → MadeBy (Call.marks w.clock o.id state ∷ notice w o text) db db'
  unfolding settle_lost step
  settle_lost-MadeBy w o state text db db' fn h =
      let b = bind-ok (mark_output w.clock o.id state db) _ db' h in
      first_call (Call.marks w.clock o.id state) (notice w o text) db b.0.1 db' (ap (after db) b.1)
        (same-MadeBy (notice w o text) b.0.1 _ db' (ground (arith, b.2))
          (settled-told w o state text b.0.1 fn))

  done_is_quiet : (w : World) (o : OutboxRow) → failure_notice w o OutboxState.done ≡ none
  unfolding failure_notice
  done_is_quiet w o = ground arith

  settle_sent-MadeBy :
      (w : World) (o : OutboxRow) (message_id : ℤ) (db db' : Db)
      → settle_sent w o message_id db ≡ ok db'
      → MadeBy (report w o (accepted message_id) ∷ []) db db'
  unfolding settle_sent step report
  settle_sent-MadeBy w o message_id db db' h = elim (Bool-cases (has_extras o)) [
    | inl e ↦
        let b =
          bind-ok (mark_output_delivered w.clock o.id message_id o.header o.final_actions db) _ db'
            (rw e at h) in
        rw e (
          first_call (Call.delivers w.clock o.id message_id o.header o.final_actions) [] db b.0.1
            db' (ap (after db) b.1)
            (same-MadeBy [] b.0.1 _ db' (ground (arith, b.2))
              (settled-quiet w o OutboxState.done b.0.1 (done_is_quiet w o))))
    | inr e ↦
        let b = bind-ok (mark_output w.clock o.id OutboxState.done db) _ db' (rw e at h) in
        rw e (
          first_call (Call.marks w.clock o.id OutboxState.done) [] db b.0.1 db' (ap (after db) b.1)
            (same-MadeBy [] b.0.1 _ db' (ground (arith, b.2))
              (settled-quiet w o OutboxState.done b.0.1 (done_is_quiet w o))))
  ]

  MadeBy-nothing : (d db' : Db) → d ≡ db' → MadeBy [] d db'
  unfolding run
  MadeBy-nothing d db' e = rw e (record { same_rows = refl; same_seq = refl })

  retry_later-MadeBy :
      (w : World) (o : OutboxRow) (at : ℕ) (db db' : Db)
      → retry_later w o at db ≡ ok db'
      → MadeBy (Call.retries w.clock o.id at ∷ []) db db'
  unfolding retry_later step
  retry_later-MadeBy w o at db db' h =
      let b = bind-ok (retry_output w.clock o.id at db) _ db' h in
      first_call (Call.retries w.clock o.id at) [] db b.0.1 db' (ap (after db) b.1)
        (MadeBy-nothing b.0.1 db' (ground (arith, b.2)))

  failed_is_told :
      (w : World) (o : OutboxRow)
      → failure_notice w o OutboxState.failed
        ≡ (if is_text o.kind then none else some w.failed_notice)
  unfolding failure_notice
  failed_is_told w o = refl

  uncertain_is_told :
      (w : World) (o : OutboxRow)
      → failure_notice w o OutboxState.uncertain
        ≡ (if is_text o.kind then none else some w.uncertain_notice)
  unfolding failure_notice
  uncertain_is_told w o = refl

  retry_or_fail-MadeBy :
      (w : World) (o : OutboxRow) (at : ℕ) (db db' : Db)
      → retry_or_fail w o at db ≡ ok db'
      → let last = exhausted (retry_server_output w.clock o.id at 12 db) in
        MadeBy
          (Call.server_retries w.clock o.id at 12
            ∷ (if last then notice w o w.failed_notice else []))
          db
          db'
  unfolding retry_or_fail step
  retry_or_fail-MadeBy w o at db db' h =
      let b = bind-ok (retry_server_output w.clock o.id at 12 db) _ db' h in
      let call = Call.server_retries w.clock o.id at 12 in
      let last : exhausted (retry_server_output w.clock o.id at 12 db) ≡ b.0.0.1 =
        ap exhausted b.1 in
      elim (Bool-cases b.0.0.1) [
        | inl e ↦ rw (last ∙ e) (
            first_call call (notice w o w.failed_notice) db b.0.1 db' (ap (after db) b.1) (
              same-MadeBy (notice w o w.failed_notice) b.0.1 _ db' (ground (arith, e, b.2))
                (settled-told w o OutboxState.failed w.failed_notice b.0.1 (failed_is_told w o))))
        | inr e ↦ rw (last ∙ e) (
            first_call call [] db b.0.1 db' (ap (after db) b.1)
              (MadeBy-nothing b.0.1 db' (ground (arith, e, b.2))))
      ]

  -- What is left to choose after the tests for a retry.
  settle_refused-branches :
      (w : World) (o : OutboxRow) (info : ErrorInfo) (db : Db)
      → let at = again_at w o info in
        let lost = if info.uncertain then OutboxState.uncertain else OutboxState.failed in
        settle_refused w o info db ≡ (
          if retryable_server_rejection info
          then retry_or_fail w o at db
          else if is_rate_limited info && not info.uncertain
          then retry_later w o at db
          else settle_lost w o lost db)
  unfolding settle_refused
  settle_refused-branches w o info db = refl

  settle_refused-MadeBy :
      (w : World) (o : OutboxRow) (info : ErrorInfo) (db db' : Db)
      → settle_refused w o info db ≡ ok db'
      → MadeBy (settling_calls w o (gives_up w o (answer (refused info)) db) (refused info)) db db'
  unfolding settling_calls report tell gives_up
  settle_refused-MadeBy w o info db db' h =
      let at = again_at w o info in
      let branches = sym (settle_refused-branches w o info db) ∙ h in
      elim (Bool-cases (retryable_server_rejection info)) [
        | inl e ↦
            rw (server_answer info e)
              (retry_or_fail-MadeBy w o at db db' (sym (first_branch _ _ _ e) ∙ branches))
        | inr e ↦
            let rest = sym (second_branch _ _ _ e) ∙ branches in
            elim (Bool-cases (is_rate_limited info && not info.uncertain)) [
              | inl r ↦
                  rw (limited_answer info e r)
                    (retry_later-MadeBy w o at db db' (sym (first_branch _ _ _ r) ∙ rest))
              | inr r ↦
                  let lost = sym (second_branch _ _ _ r) ∙ rest in
                  elim (Bool-cases info.uncertain) [
                    | inl u ↦ rw (unclear_answer info u) (
                        settle_lost-MadeBy w o OutboxState.uncertain w.uncertain_notice db db'
                          (uncertain_is_told w o) (rw u at lost))
                    | inr u ↦ rw (rejected_answer info e r u) (
                        settle_lost-MadeBy w o OutboxState.failed w.failed_notice db db'
                          (failed_is_told w o) (rw u at lost))
                  ]
            ]
      ]

  settle-MadeBy :
      (w : World) (o : OutboxRow) (outcome : Outcome) (db db' : Db)
      → settle w o outcome db ≡ ok db'
      → MadeBy (settling_calls w o (gives_up w o (answer outcome) db) outcome) db db'
  unfolding settle settling_calls answer tell gives_up
  settle-MadeBy w o (sent message_id) db db' h = settle_sent-MadeBy w o message_id db db' h
  settle-MadeBy w o (refused info) db db' h = settle_refused-MadeBy w o info db db' h

  -- A round of the sender that succeeds does to the outbox what this sequence of the store's calls does: the
  -- claim, the call that the Bot API's answer asks for, which is the one that `Answers.report` lists, and, for
  -- a file that was rejected, whose end is unclear or whose retry after a server's error was the last
  -- one by the store's word, the notice in its conversation.
  pub deliver_round-calls :
      (w : World) (db db' : Db) (o : OutboxRow)
      → deliver_round w db ≡ ok (o, db')
      → let claimed = step json (Call.claims w.now w.clock) db in
        SameOutbox db' (run json (round_calls w o (gives_up w o (answer (w.outcome o)) claimed)) db)
  unfolding deliver_round step round_calls
  deliver_round-calls w db db' o h =
      let c = bind-ok (claim_next_output w.now w.clock db) _ (o, db') h in
      let s = bind-ok (settle w c.0.0 (w.outcome c.0.0) c.0.1) _ (o, db') c.2 in
      let end : s.0 ≡ db' = ground (arith, s.2) in
      let same : c.0.0 ≡ o = ground (arith, s.2) in
      let claimed : after db (claim_next_output w.now w.clock db) ≡ c.0.1 = ap (after db) c.1 in
      let calls = λ (x : OutboxRow) (d : Db).
        settling_calls w x (gives_up w x (answer (w.outcome x)) d) (w.outcome x) in
      let m =
        same-MadeBy (calls c.0.0 c.0.1) c.0.1 s.0 db' end
          (settle-MadeBy w c.0.0 (w.outcome c.0.0) c.0.1 s.0 s.1) in
      first_call (Call.claims w.now w.clock)
        (calls o (after db (claim_next_output w.now w.clock db))) db c.0.1 db' claimed
        (subst (λ (d : Db). MadeBy (calls o d) c.0.1 db') (sym claimed)
          (subst (λ (x : OutboxRow). MadeBy (calls x c.0.1) c.0.1 db') same m))
