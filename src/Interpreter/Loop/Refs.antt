-- ===== src/Interpreter/Loop/Refs.antt =====
-- internal/interpreter/workflow_loop.go: each request has a reference of its own.
use coderoom.Prelude.{
  ℕ, suc, ◌+◌, ◌≡◌, refl, List, [], ◌∷◌, arith, nat_eq, string_eq, inl, inr, ◌⊎◌,
}
use coderoom.Interpreter.{Instruction}
use coderoom.Interpreter.Requests.{request_ids, count_from, request_ids-append}
use coderoom.Interpreter.Loop.{LoopWorkflow, new_loop}
use coderoom.Interpreter.Loop.Trace.{
  LoopCall, starts, sees, session_completes, shell_completes, call, run,
}

-- A call asks for nothing, or for one request under the next id.
abbrev AtMostOne : LoopWorkflow → LoopWorkflow × List Instruction → Type 0
AtMostOne w (v, out) =
    ((v.next_request_id ≡ w.next_request_id) × (request_ids out ≡ []))
    ⊎ ((v.next_request_id ≡ suc w.next_request_id) × (request_ids out ≡ suc w.next_request_id ∷ []))

call-AtMostOne : (c : LoopCall) (w : LoopWorkflow) → AtMostOne w (call c w)
unfolding call
call-AtMostOne (starts raw statement commands) w = ground arith
call-AtMostOne (sees e) w = ground arith
call-AtMostOne (session_completes c) w = ground arith
call-AtMostOne (shell_completes c) w = ground arith

run_counts :
    (cs : List LoopCall) (w : LoopWorkflow)
    → (n : ℕ) × ((run cs w).0.next_request_id ≡ w.next_request_id + n)
      × (request_ids (run cs w).1 ≡ count_from w.next_request_id n)
unfolding run
run_counts [] w = (0, omega arith, refl)
run_counts (c ∷ cs) w =
    let (v, out) = call c w in
    let more = (run cs v).1 in
    let (n, later, ids) = run_counts cs v in
    elim (call-AtMostOne c w) [
      | inl (same, nothing) ↦
          (n, omega (arith, same, later), ground (arith, request_ids-append out more))
      | inr (next, one) ↦
          (suc n, omega (arith, next, later), ground (arith, request_ids-append out more))
    ]

-- Over any history, the requests to the session and to the shell are numbered 1, 2, 3 and so on
-- without a gap or a repetition, so a completion can only match the one request that it answers.
pub requests_numbered :
    (cs : List LoopCall)
    → request_ids (run cs new_loop).1 ≡ count_from 0 (run cs new_loop).0.next_request_id
requests_numbered cs = let (n, last, ids) = run_counts cs new_loop in ground arith
