-- ===== src/Interpreter/Loop/Ends.antt =====
-- internal/interpreter/workflow_loop.go: a loop whose condition keeps failing ends at its bound.
use coderoom.Prelude.{
  ℕ, zero, suc, ◌+◌, ◌-◌, ◌≤◌, ◌<◌, ◌≡◌, true, false, Option, none, some, String, arith, nat_eq,
  string_eq, inl, inr, Option-cases, subst,
}
use coderoom.Prelude.Results.{ok}
use coderoom.Participant.{working, idle}
use coderoom.PromptLang.{Loop, Shell}
use coderoom.PromptLang.Registry.{Registry, resolve}
use coderoom.Session.Event.{status_changed}
use coderoom.Interpreter.{WorkflowRef, zero_ref, ShellResult, failure}
use coderoom.Interpreter.Loop.{
  LoopState, LoopWorkflow, LoopPhase, dispatching, waiting, evaluating, start, matching,
  handle_session_event,
}
use coderoom.Interpreter.Loop.Completion.{handle_session_completion, handle_shell_completion}

abbrev pub pending_of : LoopWorkflow → WorkflowRef
pending_of w = elim w.active [ none ↦ zero_ref | some s ↦ s.pending ]

-- The turn that is dispatched begins, without an error.
unfoldable pub begin : LoopWorkflow → LoopWorkflow
unfolding handle_session_completion
begin w =
    (handle_session_completion
      (record { target = pending_of w; err = none; success_records_applied = false }) w).0

-- The participant has finished its turn.
unfoldable pub idle_again : String → LoopWorkflow → LoopWorkflow
unfolding handle_session_event
idle_again alias w =
    (handle_session_event
      (status_changed (record { alias = alias; from = working; to = idle; since = 0 })) w).0

-- The condition fails.
unfoldable pub fail : ShellResult → LoopWorkflow → LoopWorkflow
unfolding handle_shell_completion
fail result w =
    (handle_shell_completion
      (record {
        target = pending_of w;
        request = record { command = ""; program = "" };
        result = record result { status = failure };
        cwd = "";
      })
      w).0

unfoldable pub failing_turn : String → ShellResult → LoopWorkflow → LoopWorkflow
failing_turn alias result w = fail result (idle_again alias (begin w))

unfoldable pub failing_turns : ℕ → String → ShellResult → LoopWorkflow → LoopWorkflow
failing_turns zero alias result w = w
failing_turns (suc n) alias result w = failing_turns n alias result (failing_turn alias result w)

-- A loop whose prompt is dispatched, after `t` turns.
-- A loop in a phase, after `t` turns, whose participant has not gone.
abbrev pub At : LoopPhase → ℕ → Loop → Option LoopState → Type 0
At phase t l none = false ≡ true
At phase t l (some s) =
    (s.phase ≡ phase) × (s.dispatch_terminal_status ≡ "") × (s.turns ≡ t) × (s.statement ≡ l)

-- The request that it waits for is its own.
abbrev pub Own : Option LoopState → Type 0
Own none = Unit
Own (some s) = s.pending.generation ≡ s.generation

begin-At :
    (t : ℕ) (l : Loop) (w : LoopWorkflow)
    → At dispatching t l w.active
    → Own w.active
    → At waiting (suc t) l (begin w).active
unfolding begin
begin-At t l w d own = elim (Option-cases w.active) [
  | inl e ↦ ground arith
  | inr (s, e) ↦
      let id = s.pending.request_id in
      let m : matching (pending_of w) dispatching w ≡ some s =
        ground (arith, nat_eq.eqb_iff s.generation s.generation, nat_eq.eqb_iff id id) in
      rw (m, begin) (ground (arith, string_eq.eqb_iff s.dispatch_terminal_status ""))
]

idle_again-At :
    (t : ℕ) (l : Loop) (w : LoopWorkflow)
    → At waiting t l w.active
    → At evaluating t l (idle_again l.participant w).active
      × Own (idle_again l.participant w).active
unfolding idle_again
idle_again-At t l w d = elim (Option-cases w.active) [
  | inl e ↦ ground arith
  | inr (s, e) ↦ ground (arith, string_eq.eqb_iff l.participant l.participant)
]

fail-At :
    (t : ℕ) (l : Loop) (result : ShellResult) (w : LoopWorkflow)
    → At evaluating t l w.active
    → Own w.active
    → (t < l.max_turns → At dispatching t l (fail result w).active × Own (fail result w).active)
      × (l.max_turns ≤ t → (fail result w).active ≡ none)
unfolding fail
fail-At t l result w d own = elim (Option-cases w.active) [
  | inl e ↦ ground arith
  | inr (s, e) ↦
      let id = s.pending.request_id in
      let gen = nat_eq.eqb_iff s.generation s.generation in
      (
        λ lt. ground (arith, gen, nat_eq.eqb_iff id id),
        λ le. ground (arith, gen, nat_eq.eqb_iff id id),
      )
]

failing_turn_cases :
    (t : ℕ) (l : Loop) (result : ShellResult) (w : LoopWorkflow)
    → At dispatching t l w.active
    → Own w.active
    → (suc t < l.max_turns
        → At dispatching (suc t) l (failing_turn l.participant result w).active
          × Own (failing_turn l.participant result w).active)
      × (l.max_turns ≤ suc t → (failing_turn l.participant result w).active ≡ none)
unfolding failing_turn
failing_turn_cases t l result w d own =
    let (at, own') = idle_again-At (suc t) l (begin w) (begin-At t l w d own) in
    fail-At (suc t) l result (idle_again l.participant (begin w)) at own'

failing_turns_end :
    (n t : ℕ) (l : Loop) (result : ShellResult) (w : LoopWorkflow)
    → At dispatching t l w.active
    → Own w.active
    → t + suc n ≡ l.max_turns
    → (failing_turns (suc n) l.participant result w).active ≡ none
unfolding failing_turns
failing_turns_end zero t l result w d own e =
    (failing_turn_cases t l result w d own).1 (omega arith)
failing_turns_end (suc n) t l result w d own e =
    let (next, own') = (failing_turn_cases t l result w d own).0 (omega arith) in
    failing_turns_end n (suc t) l result (failing_turn l.participant result w) next own'
      (omega arith)

-- A loop that is started while none is active, under a condition that is defined, and whose
-- condition fails after every turn, has ended after as many turns as its bound.
pub failing_loop_ends :
    (raw : String) (l : Loop) (commands : Registry) (body : Shell) (result : ShellResult)
    (w : LoopWorkflow)
    → w.active ≡ none
    → resolve (record { name = l.condition }) commands ≡ ok body
    → 0 < l.max_turns
    → (failing_turns l.max_turns l.participant result (start raw l commands w).0).active ≡ none
failing_loop_ends raw l commands body result w free defined some_turn =
    let n = l.max_turns - 1 in
    let e : suc n ≡ l.max_turns = omega arith in
    let d : At dispatching 0 l (start raw l commands w).0.active = unfold start in ground arith in
    let own : Own (start raw l commands w).0.active = unfold start in ground arith in
    subst (λ m. (failing_turns m l.participant result (start raw l commands w).0).active ≡ none) e
      (failing_turns_end n 0 l result (start raw l commands w).0 d own (omega arith))
