-- ===== src/Interpreter/Stage/Numbers.antt =====
-- internal/interpreter/workflow_stage.go: each request has a number of its own.
use coderoom.Prelude.Sort.{sort_texts}
use coderoom.Prelude.{
  ℕ, suc, ◌+◌, ◌≡◌, refl, sym, subst, ap, true, List, [], ◌∷◌, ◌++◌, String, arith, nat_eq,
  string_eq, inl, inr, Option-cases, Bool-cases, ◌⊎◌, length, ◌∙◌,
}
use mathlib.Core.List.{append-nil}
use coderoom.Session.Event.{Event}
use coderoom.Interpreter.{ref_eq, SessionCompletion, request_snapshot}
use coderoom.Interpreter.Requests.{request_ids, count_from, request_ids-append, count_from-add}
use coderoom.Interpreter.Barrier.{blocked_aliases, interruptible}
use coderoom.Interpreter.Stage.{
  StageState, StageWorkflow, Outcome, new_stage, is_nil, matching, start, handle_shared_send_plan,
  handle_broadcast_plan,
}
use coderoom.Interpreter.Stage.Planning.{
  handle_participant_state, handle_handoff_source, unavailable_stage_failure,
}
use coderoom.Interpreter.Stage.Waiting.{handle_session_event}
use coderoom.Interpreter.Stage.Completion.{
  take_for_edit, discard, handle_session_completion, cancel_all, interrupt, interrupt_stage,
  interrupt_and_dispatch, pending_interrupt, stage_dispatch_record_sequence, stage_dispatch_outcome,
}
use coderoom.Interpreter.Stage.Trace.{
  StageCall, starts, send_planned, broadcast_planned, state_read, source_read, session_completes,
  sees, edits, discards, interrupts, call, run,
}

-- The requests of an outcome are the next ones.
abbrev Counts : ℕ → Outcome → Type 0
Counts m (v, out) = (n : ℕ) × (v.next_request_id ≡ m + n) × (request_ids out ≡ count_from m n)

abbrev AtMostOne : ℕ → Outcome → Type 0
AtMostOne m (v, out) =
    ((v.next_request_id ≡ m) × (request_ids out ≡ []))
    ⊎ ((v.next_request_id ≡ suc m) × (request_ids out ≡ suc m ∷ []))

Counts-few : (m : ℕ) (p : Outcome) → AtMostOne m p → Counts m p
Counts-few m p (inl (same, nothing)) = (0, omega (arith, same), nothing)
Counts-few m p (inr (next, one)) = (1, omega (arith, next), one)

-- No record and no answer of a dispatch is a request.
completion-ids :
    (s : StageState) (c : SessionCompletion)
    → request_ids (stage_dispatch_record_sequence s c ++ stage_dispatch_outcome s c) ≡ []
unfolding stage_dispatch_record_sequence stage_dispatch_outcome
completion-ids s c = ground arith

cancel_all-Counts :
    (as' : List String) (s : StageState) (w : StageWorkflow)
    → ((cancel_all as' s w).1.0.next_request_id ≡ w.next_request_id + length as')
      × (request_ids (cancel_all as' s w).1.1 ≡ count_from w.next_request_id (length as'))
cancel_all-Counts [] s w = (omega arith, refl)
cancel_all-Counts (a ∷ as') s w =
    let (next, ids) = cancel_all-Counts as' _ _ in
    (omega (arith, next), ap (λ l. suc w.next_request_id ∷ l) ids)

interrupt-Counts :
    (as' : List String) (s : StageState) (w : StageWorkflow)
    → Counts w.next_request_id (interrupt as' s w).0
interrupt-Counts [] s w = (0, omega arith, refl)
interrupt-Counts (a ∷ as') s w =
    let (u, (v, out)) =
      cancel_all (a ∷ as') (record s { interrupt_requested = true; interrupt_pending = [] }) w in
    let (next, ids) =
      cancel_all-Counts (a ∷ as') (record s { interrupt_requested = true; interrupt_pending = [] })
        w in
    (
      length (a ∷ as'),
      next,
      request_ids-append out (request_snapshot ∷ []) ∙ (append-nil (request_ids out) ∙ ids),
    )

interrupt_stage-Counts :
    (s : StageState) (w : StageWorkflow) → Counts w.next_request_id (interrupt_stage s w).0
interrupt_stage-Counts s w = elim (Bool-cases (is_nil s.blocking)) [
  | inl e ↦ Counts-few w.next_request_id (interrupt_stage s w).0 (ground (arith, e))
  | inr e ↦
      rw e (interrupt-Counts (sort_texts (interruptible s.barrier s.blocking s.interrupted)) s w)
]

interrupts-Counts : (w : StageWorkflow) → Counts w.next_request_id (interrupt_and_dispatch w).0
unfolding interrupt_and_dispatch
interrupts-Counts w = elim (Option-cases w.active) [
  | inl e ↦ Counts-few w.next_request_id (interrupt_and_dispatch w).0 (ground (arith, e))
  | inr (s, e) ↦
      let t = record s { blocking = blocked_aliases s.barrier s.unavailable } in
      elim (Bool-cases (is_nil s.interrupt_pending)) [
        | inl quiet ↦
            let eq : interrupt_and_dispatch w ≡ interrupt_stage t w = ground (arith, e, quiet) in
            subst (λ p. Counts w.next_request_id p.0) (sym eq) (interrupt_stage-Counts t w)
        | inr busy ↦
            Counts-few w.next_request_id (interrupt_and_dispatch w).0 (ground (arith, e, busy))
      ]
]

completes-few :
    (c : SessionCompletion) (w : StageWorkflow)
    → AtMostOne w.next_request_id (handle_session_completion c w)
unfolding handle_session_completion
completes-few c w = elim (Option-cases (pending_interrupt c.target w)) [
  | inl e ↦ elim (Option-cases (matching c.target w)) [
    | inl m ↦ ground (arith, e, m)
    | inr (s, m) ↦ ground (arith, e, m, completion-ids s c)
  ]
  | inr ((s, alias), e) ↦ ground (arith, e)
]

sees-few : (e : Event) (w : StageWorkflow) → AtMostOne w.next_request_id (handle_session_event e w)
unfolding handle_session_event
sees-few e w = ground arith

call-Counts : (c : StageCall) (w : StageWorkflow) → Counts w.next_request_id (call c w)
unfolding call
call-Counts (session_completes c) w =
    Counts-few w.next_request_id (handle_session_completion c w) (completes-few c w)
call-Counts interrupts w = interrupts-Counts w
call-Counts (sees e) w = Counts-few w.next_request_id (handle_session_event e w) (sees-few e w)
call-Counts (starts raw statement) w =
    Counts-few w.next_request_id (start raw statement w) (ground arith)
call-Counts (send_planned target plan targets) w =
    Counts-few w.next_request_id (handle_shared_send_plan target plan targets w) (ground arith)
call-Counts (broadcast_planned target targets) w =
    Counts-few w.next_request_id (handle_broadcast_plan target targets w) (ground arith)
call-Counts (state_read target participants) w =
    Counts-few w.next_request_id (handle_participant_state target participants w)
      (unfold unavailable_stage_failure in ground arith)
call-Counts (source_read target source) w =
    Counts-few w.next_request_id (handle_handoff_source target source w) (ground arith)
call-Counts edits w = Counts-few w.next_request_id (take_for_edit w).0 (ground arith)
call-Counts discards w = Counts-few w.next_request_id (discard w).0 (ground arith)

run-Counts : (cs : List StageCall) (w : StageWorkflow) → Counts w.next_request_id (run cs w)
unfolding run
run-Counts [] w = (0, omega arith, refl)
run-Counts (c ∷ cs) w =
    let (v, out) = call c w in
    let more = (run cs v).1 in
    let (n, next, ids) = call-Counts c w in
    let (m, later, ids') = run-Counts cs v in
    (
      n + m,
      omega (arith, next, later),
      rw (request_ids-append out more, ids, ids', next)
          (sym (count_from-add w.next_request_id n m)),
    )

-- Over any history, the requests of the stages are numbered 1, 2, 3 and so on without a gap or a
-- repetition, the interruptions of several participants included.
pub stage_requests_numbered :
    (cs : List StageCall)
    → request_ids (run cs new_stage).1 ≡ count_from 0 (run cs new_stage).0.next_request_id
stage_requests_numbered cs = let (n, last, ids) = run-Counts cs new_stage in ground arith
