-- ===== src/Interpreter/Stage/Waits.antt =====
-- internal/interpreter/workflow_stage.go: a stage that waits has something to wait for.
use coderoom.Prelude.{
  ◌≡◌, refl, Bool, true, false, not, ◌&&◌, ◌||◌, Option, none, some, List, [], ◌∷◌, String, arith,
  nat_eq, string_eq, subst, inl, inr, Option-cases,
}
use coderoom.Prelude.Sort.{sort_texts}
use coderoom.Interpreter.{ref_eq}
use coderoom.Interpreter.Barrier.{
  Staged, message, handoff, blocked_aliases, stage_readiness, interruptible,
}
use coderoom.Interpreter.Stage.{
  StageState, StageWorkflow, waiting, phase_is, is_nil, new_stage, matching,
}
use coderoom.Interpreter.Stage.Planning.{
  planned, complete_participant_planning, handle_participant_state,
}
use coderoom.Interpreter.Stage.Waiting.{advance_waiting, applied}
use coderoom.Interpreter.Stage.Completion.{cancel_all, interrupt}
use coderoom.Interpreter.Stage.Trace.{
  StageCall, starts, send_planned, broadcast_planned, state_read, source_read, session_completes,
  sees, edits, discards, interrupts, call, run,
}

abbrev pub is_handoff : Staged → Bool
is_handoff (message m) = false
is_handoff (handoff from to) = true

-- Someone blocks, or a handoff's source has yet to complete.
abbrev pub held : StageState → Bool
held s =
    not (is_nil (blocked_aliases s.barrier s.unavailable))
    || (is_handoff s.statement && s.source_needs_completion)

abbrev pub WaitsForSome : Option StageState → Type 0
WaitsForSome none = Unit
WaitsForSome (some s) = (not (phase_is s.phase waiting) || held s) ≡ true

complete-Waits :
    (s : StageState) (w : StageWorkflow)
    → s.blocking ≡ blocked_aliases s.barrier s.unavailable
    → WaitsForSome (complete_participant_planning s w).0.active
unfolding complete_participant_planning
complete-Waits s w h = ground arith

advance-Waits : (s : StageState) (w : StageWorkflow) → WaitsForSome (advance_waiting s w).0.active
unfolding advance_waiting
advance-Waits s w = ground arith

cancel_all-Waits :
    (as' : List String) (s : StageState) (w : StageWorkflow)
    → WaitsForSome (some s)
    → WaitsForSome (some (cancel_all as' s w).0)
cancel_all-Waits [] s w h = h
cancel_all-Waits (a ∷ as') s w h = cancel_all-Waits as' _ _ h

interrupt-Waits :
    (as' : List String) (s : StageState) (w : StageWorkflow)
    → WaitsForSome (some s)
    → WaitsForSome (interrupt as' s w).0.0.active
interrupt-Waits [] s w h = h
interrupt-Waits (a ∷ as') s w h = cancel_all-Waits (a ∷ as') _ w h

call-Waits :
    (c : StageCall) (w : StageWorkflow) → WaitsForSome w.active → WaitsForSome (call c w).0.active
unfolding call
call-Waits (starts raw statement) w h = ground arith
call-Waits (send_planned target plan targets) w h = ground arith
call-Waits (broadcast_planned target targets) w h = ground arith
call-Waits (state_read target participants) w h = elim (Option-cases (matching target w)) [
  | inl e ↦ rw (e, handle_participant_state) h
  | inr (s, e) ↦
      rw (e, handle_participant_state)
        (complete-Waits (planned participants s) w (unfold planned stage_readiness in refl))
]
call-Waits (source_read target source) w h = ground arith
call-Waits (session_completes c) w h = ground arith
call-Waits (sees e) w h = elim (Option-cases w.active) [
  | inl q ↦ ground arith
  | inr (s, q) ↦ elim (Option-cases (applied e s)) [
    | inl n ↦ ground (arith, n)
    | inr (t, n) ↦ ground (arith, n, advance-Waits t w)
  ]
]
call-Waits edits w h = ground arith
call-Waits discards w h = ground arith
call-Waits interrupts w h = elim (Option-cases w.active) [
  | inl e ↦ ground arith
  | inr (s, e) ↦
      let t = record s { blocking = blocked_aliases s.barrier s.unavailable } in
      let waits : WaitsForSome (some t) = ground arith in
      ground (
        arith,
        interrupt-Waits (sort_texts (interruptible t.barrier t.blocking t.interrupted)) t w waits,
      )
]

run-Waits :
    (cs : List StageCall) (w : StageWorkflow)
    → WaitsForSome w.active
    → WaitsForSome (run cs w).0.active
unfolding run
run-Waits [] w h = h
run-Waits (c ∷ cs) w h = run-Waits cs (call c w).0 (call-Waits c w h)

-- After any history, a submission that waits has something to wait for: a recipient that is neither
-- ready nor unavailable, or, for a handoff, the end of its source's turn.
pub waiting_is_held :
    (cs : List StageCall) (s : StageState)
    → (run cs new_stage).0.active ≡ some s
    → s.phase ≡ waiting
    → held s ≡ true
waiting_is_held cs s here phase =
    let h = subst WaitsForSome here (run-Waits cs new_stage tt) in ground arith
