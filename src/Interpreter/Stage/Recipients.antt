-- ===== src/Interpreter/Stage/Recipients.antt =====
-- internal/interpreter/workflow_stage.go: whom a dispatch reaches.
use mathlib.Core.Bool.{false≢true}
use coderoom.Prelude.Sets
use coderoom.Prelude.Sort.{sort_texts, text_leb, contains-sort}
use coderoom.Prelude.{
  ℕ, zero, suc, ◌≡◌, refl, sym, subst, true, false, Option, none, some, List, [], ◌∷◌, ◌++◌, String,
  arith, nat_eq, string_eq, inl, inr, Option-cases, Bool-cases, All, All-append, All-get, get_elem?,
  List-cases, ◌==◌,
}
use coderoom.Participant.{is_ready_for_work}
use coderoom.Interpreter.{
  Instruction, execute_session, SessionRequest, SessionCompletion, request_snapshot, cancel_request,
  broadcast_request, execute_planned_shared_send, ParticipantState, WorkflowRef, ref_eq,
}
use coderoom.Room.Records.{Record}
use coderoom.Interpreter.Barrier.{
  blocked, blocked_aliases, blocks, active_aliases, stage_readiness, view_of, interruptible,
}
use coderoom.Interpreter.Stage.{StageState, StageWorkflow, is_nil, matching}
use coderoom.Interpreter.Stage.Planning.{
  planned, complete_participant_planning, handle_participant_state, unavailable_stage_failure,
}
use coderoom.Interpreter.Stage.Waiting.{advance_waiting, applied}
use coderoom.Interpreter.Stage.Completion.{
  cancel_all, pending_interrupt, interrupt, interrupt_stage, interrupt_and_dispatch,
  stage_dispatch_record_sequence, stage_dispatch_outcome,
}
use coderoom.Interpreter.Stage.Trace.{
  StageCall, starts, send_planned, broadcast_planned, state_read, source_read, session_completes,
  sees, edits, discards, interrupts, call,
}

-- Those that a request reaches by way of its routing: all of a broadcast, the listeners of a send.
abbrev pub reached : SessionRequest → List String
reached (broadcast_request aliases text) = aliases
reached (execute_planned_shared_send plan direct listeners) = plan.listener_aliases
reached _ = []

-- What a request was made from, in the state that is left.
abbrev MadeFrom : SessionRequest → StageState → Type 0
MadeFrom (broadcast_request aliases text) s =
    (is_nil (blocked_aliases s.barrier s.unavailable) ≡ true)
    × (aliases ≡ active_aliases s.routing s.unavailable)
MadeFrom (execute_planned_shared_send plan direct listeners) s =
    (is_nil (blocked_aliases s.barrier s.unavailable) ≡ true)
    × (plan.listener_aliases ≡ active_aliases s.plan.listener_aliases s.unavailable)
MadeFrom _ s = Unit

abbrev MadeIn : SessionRequest → Option StageState → Type 0
MadeIn request none = reached request ≡ []
MadeIn request (some s) = MadeFrom request s

abbrev Made : StageWorkflow → Instruction → Type 0
Made w (execute_session ref request records) = MadeIn request w.active
Made w _ = Unit

contains-active :
    (xs unavailable : List String) (a : String)
    → Sets.contains (active_aliases xs unavailable) a ≡ true
    → Sets.contains unavailable a ≡ false
unfolding Sets.contains
contains-active [] unavailable a h = ground arith
contains-active (x ∷ xs) unavailable a h = elim (Bool-cases (x == a)) [
  | inl e ↦
      let same = (string_eq.eqb_iff x a).0 e in
      ground (arith, same, contains-active xs unavailable a)
  | inr e ↦ ground (arith, contains-active xs unavailable a)
]

complete-Made :
    (s : StageState) (w : StageWorkflow)
    → s.blocking ≡ blocked_aliases s.barrier s.unavailable
    → All (Made (complete_participant_planning s w).0) (complete_participant_planning s w).1
unfolding complete_participant_planning unavailable_stage_failure
complete-Made s w h = ground arith

advance-Made :
    (s : StageState) (w : StageWorkflow)
    → All (Made (advance_waiting s w).0) (advance_waiting s w).1
unfolding advance_waiting
advance-Made s w = ground arith

MadeIn-cancel : (a : String) (o : Option StageState) → MadeIn (cancel_request a) o
MadeIn-cancel a none = refl
MadeIn-cancel a (some s) = tt

cancel_all-Made :
    (v : StageWorkflow) (as' : List String) (s : StageState) (w : StageWorkflow)
    → All (Made v) (cancel_all as' s w).1.1
cancel_all-Made v [] s w = tt
cancel_all-Made v (a ∷ as') s w = (MadeIn-cancel a v.active, cancel_all-Made v as' _ _)

interrupt-Made :
    (as' : List String) (s : StageState) (w : StageWorkflow)
    → All (Made (interrupt as' s w).0.0) (interrupt as' s w).0.1
interrupt-Made [] s w = tt
interrupt-Made (a ∷ as') s w =
    let v = (interrupt (a ∷ as') s w).0.0 in
    All-append (Made v) (cancel_all (a ∷ as') _ w).1.1 (request_snapshot ∷ [])
      (cancel_all-Made v (a ∷ as') _ w) (tt, tt)

interrupt_stage-Made :
    (s : StageState) (w : StageWorkflow)
    → s.blocking ≡ blocked_aliases s.barrier s.unavailable
    → All (Made (interrupt_stage s w).0.0) (interrupt_stage s w).0.1
interrupt_stage-Made s w h = elim (Bool-cases (is_nil s.blocking)) [
  | inl e ↦ ground (arith, h, e)
  | inr e ↦
      rw e (interrupt-Made (sort_texts (interruptible s.barrier s.blocking s.interrupted)) s w)
]

completion-Made :
    (v : StageWorkflow) (s : StageState) (c : SessionCompletion)
    → All (Made v) (stage_dispatch_record_sequence s c ++ stage_dispatch_outcome s c)
unfolding stage_dispatch_record_sequence stage_dispatch_outcome
completion-Made v s c = ground arith

call-Made : (c : StageCall) (w : StageWorkflow) → All (Made (call c w).0) (call c w).1
unfolding call
call-Made (starts raw statement) w = ground arith
call-Made (send_planned target plan targets) w = ground arith
call-Made (broadcast_planned target targets) w = ground arith
call-Made (state_read target participants) w = elim (Option-cases (matching target w)) [
  | inl e ↦ rw (e, handle_participant_state) tt
  | inr (s, e) ↦
      rw (e, handle_participant_state)
        (complete-Made (planned participants s) w (unfold planned stage_readiness in refl))
]
call-Made (source_read target source) w = ground arith
call-Made (session_completes c) w = elim (Option-cases (pending_interrupt c.target w)) [
  | inl e ↦ elim (Option-cases (matching c.target w)) [
    | inl m ↦ ground (arith, e, m)
    | inr (s, m) ↦ ground (arith, e, m, completion-Made (record w { active = none }) s c)
  ]
  | inr ((s, alias), e) ↦ ground (arith, e)
]
call-Made (sees e) w = elim (Option-cases w.active) [
  | inl q ↦ ground arith
  | inr (s, q) ↦ elim (Option-cases (applied e s)) [
    | inl n ↦ ground (arith, n)
    | inr (t, n) ↦ ground (arith, n, advance-Made t w)
  ]
]
call-Made edits w = ground arith
call-Made discards w = ground arith
call-Made interrupts w = elim (Option-cases w.active) [
  | inl e ↦ ground arith
  | inr (s, e) ↦
      let t = record s { blocking = blocked_aliases s.barrier s.unavailable } in
      elim (Bool-cases (is_nil s.interrupt_pending)) [
        | inl quiet ↦
            let eq : interrupt_and_dispatch w ≡ interrupt_stage t w =
              unfold interrupt_and_dispatch in ground (arith, e, quiet) in
            subst (λ p. All (Made p.0.0) p.0.1) (sym eq) (interrupt_stage-Made t w refl)
        | inr busy ↦ ground (arith, e)
      ]
]

blocked_clear :
    (barrier : List ParticipantState) (unavailable : List String) (j : ℕ) (v : ParticipantState)
    → blocked barrier unavailable ≡ []
    → get_elem? barrier j ≡ some v
    → blocks unavailable v ≡ false
blocked_clear [] unavailable j v h e = ground arith
blocked_clear (u ∷ us) unavailable zero v h e = ground arith
blocked_clear (u ∷ us) unavailable (suc j) v h e =
    blocked_clear us unavailable j v (ground arith) (ground arith)

sorted_has :
    (x : String) (xs : List String) {all : List String}
    → all ≡ x ∷ xs
    → sort_texts all ≡ []
    → false ≡ true
unfolding Sets.contains
sorted_has x xs {all} e n = ground (arith, contains-sort text_leb x all, string_eq.eqb_iff x x)

blocked-of-sorted :
    (barrier : List ParticipantState) (unavailable : List String)
    → is_nil (blocked_aliases barrier unavailable) ≡ true
    → blocked barrier unavailable ≡ []
unfolding blocked_aliases
blocked-of-sorted barrier unavailable h = elim (List-cases (blocked barrier unavailable)) [
  | inl e ↦ e
  | inr (x, xs, e) ↦ elim (List-cases (sort_texts (blocked barrier unavailable))) [
    | inl n ↦ absurd (false≢true (sorted_has x xs e n))
    | inr (y, ys, n) ↦ ground arith
  ]
]

ready_of_made :
    (s : StageState) (request : SessionRequest) (v : ParticipantState) (j : ℕ)
    → MadeFrom request s
    → Sets.contains (reached request) v.alias ≡ true
    → get_elem? s.barrier j ≡ some v
    → is_ready_for_work (view_of v) ≡ true
ready_of_made s (broadcast_request aliases text) v j (clear, made) reach entry =
    let free =
      blocked_clear s.barrier s.unavailable j v (blocked-of-sorted s.barrier s.unavailable clear)
        entry in
    ground (arith, contains-active s.routing s.unavailable v.alias)
ready_of_made s (execute_planned_shared_send plan direct listeners) v j (clear, made) reach entry =
    let free =
      blocked_clear s.barrier s.unavailable j v (blocked-of-sorted s.barrier s.unavailable clear)
        entry in
    ground (arith, contains-active s.plan.listener_aliases s.unavailable v.alias)
ready_of_made s _ v j made reach entry = unfold Sets.contains in ground arith

-- Whatever the call, an alias that a dispatched broadcast goes to, or that listens to a dispatched
-- send, is ready for work according to every entry that the barrier has of it.
pub reached_is_ready :
    (c : StageCall) (w : StageWorkflow) (s : StageState) (ref : WorkflowRef)
    (request : SessionRequest) (records : List Record) (i j : ℕ) (v : ParticipantState)
    → get_elem? (call c w).1 i ≡ some (execute_session ref request records)
    → (call c w).0.active ≡ some s
    → Sets.contains (reached request) v.alias ≡ true
    → get_elem? s.barrier j ≡ some v
    → is_ready_for_work (view_of v) ≡ true
reached_is_ready c w s ref request records i j v sent here reach entry =
    let made : MadeFrom request s =
      subst (MadeIn request) here
        (All-get (Made (call c w).0) (call c w).1 i _ (call-Made c w) sent) in
    ready_of_made s request v j made reach entry
