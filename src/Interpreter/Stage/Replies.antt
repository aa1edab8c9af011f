-- ===== src/Interpreter/Stage/Replies.antt =====
-- internal/interpreter/workflow_stage.go: no submission is answered twice.
use coderoom.Prelude.Dict
use coderoom.Prelude.Sort.{sort_texts}
use coderoom.Prelude.{
  ℕ, suc, ◌+◌, ◌≤◌, ◌≡◌, refl, sym, subst, Bool, true, Option, none, some, List, [], ◌∷◌, ◌++◌,
  String, arith, nat_eq, string_eq, inl, inr, Option-cases, Bool-cases, if◌then◌else◌, not, ◌||◌,
}
use coderoom.Session.Event.{Event}
use coderoom.Interpreter.{
  WorkflowRef, ParticipantState, ref_eq, SessionCompletion, request_snapshot,
}
use coderoom.Interpreter.Submissions.{answered, answered-append}
use coderoom.Interpreter.Barrier.{blocked_aliases, interruptible}
use coderoom.Interpreter.Stage.{
  StageState, StageWorkflow, Outcome, new_stage, planning, phase_is, is_nil, matching,
}
use coderoom.Interpreter.Stage.Planning.{
  unavailable_stage_failure, planned, complete_participant_planning, handle_participant_state,
}
use coderoom.Interpreter.Stage.Waiting.{handle_session_event, applied, advance_waiting}
use coderoom.Interpreter.Stage.Completion.{
  cancel_all, interrupt, interrupt_stage, interrupt_and_dispatch, handle_session_completion,
  stage_dispatch_record_sequence, stage_dispatch_outcome,
}
use coderoom.Interpreter.Stage.Trace.{
  StageCall, starts, state_read, session_completes, sees, interrupts, call, run,
}

-- Whether an answer is still owed.
abbrev pub owed : Option StageState → ℕ
owed none = 0
owed (some s) = if s.submission_pending then 1 else 0

-- How many submissions a history starts.
abbrev pub started : List StageCall → ℕ
started [] = 0
started (starts raw statement ∷ cs) = suc (started cs)
started (_ ∷ cs) = started cs

abbrev Owes : ℕ → Outcome → Type 0
Owes m (v, out) = answered out + owed v.active ≤ m

-- While the stage plans, the answer is owed.
abbrev PlanOwes : Option StageState → Type 0
PlanOwes none = Unit
PlanOwes (some s) = (not (phase_is s.phase planning) || s.submission_pending) ≡ true

-- No more is answered than was owed, and while the stage plans the answer is owed.
abbrev Keeps : ℕ → Outcome → Type 0
Keeps m p = Owes m p × PlanOwes p.0.active

complete-Owes :
    (s : StageState) (c : SessionCompletion)
    → answered (stage_dispatch_record_sequence s c ++ stage_dispatch_outcome s c) ≤ owed (some s)
unfolding stage_dispatch_record_sequence stage_dispatch_outcome
complete-Owes s c = ground arith

completes-Owes :
    (c : SessionCompletion) (w : StageWorkflow)
    → PlanOwes w.active
    → Keeps (owed w.active) (handle_session_completion c w)
unfolding handle_session_completion
completes-Owes c w h = elim (Option-cases w.active) [
  | inl q ↦ ground (arith, q)
  | inr (s, q) ↦ elim (Option-cases (Dict.get c.target s.interrupt_pending)) [
    | inl e ↦ ground (arith, q, e, complete-Owes s c)
    | inr (alias, e) ↦ ground (arith, q, e)
  ]
]

cancel_all-Owes :
    (as' : List String) (s : StageState) (w : StageWorkflow)
    → (answered (cancel_all as' s w).1.1 ≡ 0)
      × (owed (some (cancel_all as' s w).0) ≡ owed (some s))
      × ((cancel_all as' s w).0.phase ≡ s.phase)
      × ((cancel_all as' s w).0.submission_pending ≡ s.submission_pending)
cancel_all-Owes [] s w = (refl, refl, refl, refl)
cancel_all-Owes (a ∷ as') s w = cancel_all-Owes as' _ _

interrupt-Owes :
    (as' : List String) (s : StageState) (w : StageWorkflow)
    → PlanOwes (some s)
    → Keeps (owed (some s)) (interrupt as' s w).0
interrupt-Owes [] s w h = (omega arith, h)
interrupt-Owes (a ∷ as') s w h =
    let t = record s { interrupt_requested = true; interrupt_pending = [] } in
    let (none_answered, same, phase, pending) = cancel_all-Owes (a ∷ as') t w in
    (
      omega (
        arith,
        none_answered,
        same,
        answered-append (cancel_all (a ∷ as') t w).1.1 (request_snapshot ∷ []),
      ),
      ground (arith, phase, pending, h),
    )

interrupt_stage-Owes :
    (s : StageState) (w : StageWorkflow)
    → PlanOwes (some s)
    → Keeps (owed (some s)) (interrupt_stage s w).0
interrupt_stage-Owes s w h = elim (Bool-cases (is_nil s.blocking)) [
  | inl e ↦ ground (arith, e)
  | inr e ↦
      rw e (interrupt-Owes (sort_texts (interruptible s.barrier s.blocking s.interrupted)) s w h)
]

interrupts-Owes :
    (w : StageWorkflow) → PlanOwes w.active → Keeps (owed w.active) (interrupt_and_dispatch w).0
unfolding interrupt_and_dispatch
interrupts-Owes w h = elim (Option-cases w.active) [
  | inl e ↦ ground (arith, e)
  | inr (s, e) ↦
      let t = record s { blocking = blocked_aliases s.barrier s.unavailable } in
      elim (Bool-cases (is_nil s.interrupt_pending)) [
        | inl quiet ↦
            let eq : interrupt_and_dispatch w ≡ interrupt_stage t w = ground (arith, e, quiet) in
            let paid = interrupt_stage-Owes t w (ground (arith, e, h)) in
            subst (λ p. Keeps (owed w.active) p.0) (sym eq) (ground (arith, e, paid))
        | inr busy ↦ ground (arith, e, busy)
      ]
]

-- The participants are read while the stage plans: each read is answered once.
abbrev pub in_turn : StageCall → StageWorkflow → Bool
in_turn (state_read target participants) w = elim w.active [
  | none ↦ true
  | some s ↦ phase_is s.phase planning
]
in_turn _ w = true

abbrev pub InTurn : List StageCall → StageWorkflow → Type 0
InTurn [] w = Unit
InTurn (c ∷ cs) w = (in_turn c w ≡ true) × InTurn cs (call c w).0

planning-Owes :
    (s : StageState) (w : StageWorkflow)
    → s.submission_pending ≡ true
    → Keeps 1 (complete_participant_planning s w)
unfolding complete_participant_planning unavailable_stage_failure
planning-Owes s w h = ground arith

advance-Owes :
    (s : StageState) (w : StageWorkflow)
    → PlanOwes (some s)
    → Keeps (owed (some s)) (advance_waiting s w)
unfolding advance_waiting
advance-Owes s w h = ground arith

applied_keeps :
    (e : Event) (s t : StageState)
    → applied e s ≡ some t
    → (t.submission_pending ≡ s.submission_pending) × (t.phase ≡ s.phase)
unfolding applied
applied_keeps e s t h = ground arith

sees-Owes :
    (e : Event) (w : StageWorkflow)
    → PlanOwes w.active
    → Keeps (owed w.active) (handle_session_event e w)
unfolding handle_session_event
sees-Owes e w h = elim (Option-cases w.active) [
  | inl q ↦ ground (arith, q)
  | inr (s, q) ↦ elim (Option-cases (applied e s)) [
    | inl n ↦ ground (arith, q, n)
    | inr (t, n) ↦ ground (arith, q, n, applied_keeps e s t n, advance-Owes t w)
  ]
]

state_read-Owes :
    (target : WorkflowRef) (participants : List ParticipantState) (w : StageWorkflow)
    → PlanOwes w.active
    → in_turn (state_read target participants) w ≡ true
    → Keeps (owed w.active) (handle_participant_state target participants w)
unfolding handle_participant_state
state_read-Owes target participants w h turn = elim (Option-cases (matching target w)) [
  | inl e ↦
      let eq : handle_participant_state target participants w ≡ (w, []) =
        rw (e, handle_participant_state) refl in
      subst (Keeps (owed w.active)) (sym eq) (omega arith, h)
  | inr (s, e) ↦
      let same : w.active ≡ some s = ground (arith, e) in
      let due : s.submission_pending ≡ true = ground (arith, same, h, turn) in
      let p = planned participants s in
      let eq : handle_participant_state target participants w ≡ complete_participant_planning p w =
        rw (e, handle_participant_state) refl in
      let one : 1 ≡ owed w.active = ground (arith, same, due) in
      let kept = planning-Owes p w (unfold planned in due) in
      subst (Keeps (owed w.active)) (sym eq)
        (subst (λ m. Keeps m (complete_participant_planning p w)) one kept)
]

call-Owes :
    (c : StageCall) (w : StageWorkflow)
    → PlanOwes w.active
    → in_turn c w ≡ true
    → Keeps (owed w.active + started (c ∷ [])) (call c w)
unfolding call
call-Owes (session_completes c) w h turn = ground (arith, completes-Owes c w h)
call-Owes interrupts w h turn = ground (arith, interrupts-Owes w h)
call-Owes (sees e) w h turn = ground (arith, sees-Owes e w h)
call-Owes (state_read target participants) w h turn =
    ground (arith, state_read-Owes target participants w h turn)
call-Owes (starts raw statement) w h turn = ground arith
call-Owes _ w h turn = ground arith

started_cons :
    (c : StageCall) (cs : List StageCall) → started (c ∷ cs) ≡ started (c ∷ []) + started cs
started_cons (starts raw statement) cs = omega arith
started_cons _ cs = omega arith

run-Owes :
    (cs : List StageCall) (w : StageWorkflow)
    → PlanOwes w.active
    → InTurn cs w
    → Owes (owed w.active + started cs) (run cs w)
unfolding run
run-Owes [] w h turns = omega arith
run-Owes (c ∷ cs) w h turns =
    let (v, out) = call c w in
    let (now, h') = call-Owes c w h turns.0 in
    omega
      (arith, now, run-Owes cs v h' turns.1, answered-append out (run cs v).1, started_cons c cs)

-- Over any history in which the participants are read while a stage plans, there are no more
-- answers, of success or of failure, than submissions, and fewer while one is still owed: no
-- submission is answered twice.
pub answers_bounded :
    (cs : List StageCall)
    → InTurn cs new_stage
    → answered (run cs new_stage).1 + owed (run cs new_stage).0.active ≤ started cs
answers_bounded cs turns = omega (arith, run-Owes cs new_stage tt turns)
