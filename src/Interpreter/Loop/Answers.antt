-- ===== src/Interpreter/Loop/Answers.antt =====
-- internal/interpreter/workflow_loop.go: each accepted submission is answered once.
use coderoom.Prelude.{
  ℕ, suc, ◌+◌, ◌≡◌, refl, false, Option, none, some, List, [], ◌∷◌, ◌++◌, arith, nat_eq, string_eq,
  inl, inr, Option-cases, if◌then◌else◌,
}
use coderoom.Interpreter.{Instruction, publish_event, input_accepted}
use coderoom.Interpreter.Submissions.{answered, answered-append}
use coderoom.Interpreter.Loop.{LoopState, LoopWorkflow, new_loop, waiting, dispatching, evaluating}
use coderoom.Interpreter.Loop.Trace.{
  LoopCall, starts, sees, session_completes, shell_completes, call, run,
}

-- How many inputs were reported as accepted.
abbrev pub accepted : List Instruction → ℕ
accepted [] = 0
accepted (publish_event (input_accepted raw routing) ∷ is) = suc (accepted is)
accepted (_ ∷ is) = accepted is

-- Whether an answer is still owed: the first prompt of the loop is under way.
abbrev pub owed : Option LoopState → ℕ
owed none = 0
owed (some s) = if s.submission_pending then 1 else 0

-- What is owed is owed by a loop whose prompt is dispatched.
abbrev Settled : Option LoopState → Type 0
Settled none = Unit
Settled (some s) = elim s.phase [
  | dispatching ↦ Unit
  | waiting ↦ s.submission_pending ≡ false
  | evaluating ↦ s.submission_pending ≡ false
]

call-Settled :
    (c : LoopCall) (w : LoopWorkflow)
    → Settled w.active
    → Settled (call c w).0.active
      × (accepted (call c w).1 + owed w.active ≡ answered (call c w).1 + owed (call c w).0.active)
unfolding call
call-Settled (starts raw statement commands) w v = elim (Option-cases w.active) [
  | inl e ↦ ground arith
  | inr (s, e) ↦ ground arith
]
call-Settled (sees e) w v = elim (Option-cases w.active) [
  | inl q ↦ ground arith
  | inr (s, q) ↦ ground arith
]
call-Settled (session_completes c) w v = elim (Option-cases w.active) [
  | inl e ↦ ground arith
  | inr (s, e) ↦ ground arith
]
call-Settled (shell_completes c) w v = elim (Option-cases w.active) [
  | inl e ↦ ground arith
  | inr (s, e) ↦ ground arith
]

accepted-append : (is js : List Instruction) → accepted (is ++ js) ≡ accepted is + accepted js
accepted-append [] js = omega arith
accepted-append (publish_event (input_accepted raw routing) ∷ is) js =
    ground (arith, accepted-append is js)
accepted-append (_ ∷ is) js = accepted-append is js

run_settles :
    (cs : List LoopCall) (w : LoopWorkflow)
    → Settled w.active
    → accepted (run cs w).1 + owed w.active ≡ answered (run cs w).1 + owed (run cs w).0.active
unfolding run
run_settles [] w v = refl
run_settles (c ∷ cs) w v =
    let (u, out) = call c w in
    let more = (run cs u).1 in
    let (settled, now) = call-Settled c w v in
    omega (arith, now, run_settles cs u settled, accepted-append out more, answered-append out more)

-- After any history there are as many answers, of success or of failure, as submissions accepted,
-- but for one that is still owed while the first prompt of a loop is under way.
pub submissions_answered :
    (cs : List LoopCall)
    → accepted (run cs new_loop).1 ≡ answered (run cs new_loop).1 + owed (run cs new_loop).0.active
submissions_answered cs = omega (arith, run_settles cs new_loop tt)
