-- ===== src/Interpreter/Loop/Bound.antt =====
-- internal/interpreter/workflow_loop.go: the bound on turns holds over any history.
use coderoom.Prelude.{
  ℕ, zero, suc, ◌+◌, ◌≤◌, ◌<◌, ◌≡◌, Option, none, some, List, [], ◌∷◌, ◌++◌, arith, nat_eq,
  string_eq, ◌==◌, Bool, true, false, ◌&&◌, is_none, if◌then◌else◌, All, Bool-cases, inl, inr,
  Option-cases,
}
use coderoom.Prelude.Results.{is_ok, Result-cases}
use coderoom.PromptLang.Registry.{resolve}
use coderoom.Interpreter.{Instruction, execute_session}
use coderoom.Interpreter.Loop.{LoopState, LoopWorkflow, dispatching, new_loop, is_phase}
use coderoom.Interpreter.Loop.Trace.{
  LoopCall, starts, sees, session_completes, shell_completes, call, run,
}

-- How many prompts were dispatched for the loop of a generation.
abbrev pub sent : ℕ → List Instruction → ℕ
sent g [] = 0
sent g (execute_session ref request records ∷ is) =
    let rest = sent g is in if ref.generation == g then suc rest else rest
sent g (_ ∷ is) = sent g is

-- The loops that a history starts have positive bounds, as those that are parsed do.
abbrev pub Positive : LoopCall → Type 0
Positive (starts raw statement commands) = 0 < statement.max_turns
Positive _ = Unit

-- Whether a start is accepted: no loop is active and its condition is defined.
abbrev pub accepts : LoopCall → LoopWorkflow → Bool
accepts (starts raw statement commands) w =
    is_none w.active && is_ok (resolve (record { name = statement.condition }) commands)
accepts _ w = false

abbrev max_turns_of : LoopCall → ℕ
max_turns_of (starts raw statement commands) = statement.max_turns
max_turns_of _ = 0

-- The `/max` of the loop of a generation, which is the number of starts accepted up to its own; zero
-- if there is no such loop.
abbrev pub own_bound : ℕ → List LoopCall → LoopWorkflow → ℕ
own_bound g [] w = 0
own_bound g (c ∷ cs) w =
    let later = own_bound g cs (call c w).0 in
    if accepts c w && suc w.next_generation == g then max_turns_of c else later

-- The prompts that a state stands for, the one under way included.
abbrev used : LoopState → ℕ
used s = if is_phase s.phase dispatching then suc s.turns else s.turns

abbrev StateInv : ℕ → ℕ → ℕ → ℕ → Option LoopState → Type 0
StateInv n g k next none = Unit
StateInv n g k next (some s) =
    (s.generation ≤ next)
    × (used s ≤ s.statement.max_turns)
    × (s.generation ≡ g → (k ≡ used s) × (s.statement.max_turns ≡ n))

-- The loop of generation `g` has been started with the bound `n`, and has sent `k` prompts.
record Started (n g k : ℕ) (w : LoopWorkflow) : Type 0 where
  begun : g ≤ w.next_generation
  within : k ≤ n
  state : StateInv n g k w.next_generation w.active

-- The loop of generation `g` is yet to be started.
record Unstarted (g : ℕ) (w : LoopWorkflow) : Type 0 where
  ahead : w.next_generation < g
  state : StateInv 0 g 0 w.next_generation w.active

call-Started :
    (n g k : ℕ) (c : LoopCall) (w : LoopWorkflow)
    → Positive c
    → Started n g k w
    → Started n g (k + sent g (call c w).1) (call c w).0
unfolding call
call-Started n g k (starts raw statement commands) w b v = elim (Option-cases w.active) [
  | inl e ↦ ground (arith, nat_eq.eqb_iff (suc w.next_generation) g)
  | inr (s, e) ↦ ground arith
]
call-Started n g k (sees e) w b v = elim (Option-cases w.active) [
  | inl e ↦ ground arith
  | inr (s, e) ↦ ground (arith, nat_eq.eqb_iff s.generation g)
]
call-Started n g k (session_completes c) w b v = elim (Option-cases w.active) [
  | inl e ↦ ground arith
  | inr (s, e) ↦ ground arith
]
call-Started n g k (shell_completes c) w b v = elim (Option-cases w.active) [
  | inl e ↦ ground arith
  | inr (s, e) ↦ ground (arith, nat_eq.eqb_iff s.generation g)
]

sent-append : (g : ℕ) (is js : List Instruction) → sent g (is ++ js) ≡ sent g is + sent g js
sent-append g [] js = omega arith
sent-append g (execute_session ref request records ∷ is) js = ground (arith, sent-append g is js)
sent-append g (_ ∷ is) js = sent-append g is js

run-Started :
    (n g k : ℕ) (cs : List LoopCall) (w : LoopWorkflow)
    → All Positive cs
    → Started n g k w
    → k + sent g (run cs w).1 ≤ n
unfolding run
run-Started n g k [] w b v = omega (arith, v.within)
run-Started n g k (c ∷ cs) w b v =
    let (u, out) = call c w in
    let more = (run cs u).1 in
    omega (
      arith,
      sent-append g out more,
      run-Started n g (k + sent g out) cs u b.1 (call-Started n g k c w b.0 v),
    )

-- The start of the loop itself.
call_begins :
    (g : ℕ) (c : LoopCall) (w : LoopWorkflow)
    → Positive c
    → accepts c w ≡ true
    → suc w.next_generation ≡ g
    → Started (max_turns_of c) g (sent g (call c w).1) (call c w).0
unfolding call
call_begins g (starts raw statement commands) w b a e = elim (Option-cases w.active) [
  | inl free ↦ elim (Result-cases (resolve (record { name = statement.condition }) commands)) [
    | inl (body, r) ↦ ground (arith, nat_eq.eqb_iff (suc w.next_generation) g)
    | inr (x, r) ↦ ground arith
  ]
  | inr (s, busy) ↦ ground arith
]
call_begins g (sees x) w b a e = ground arith
call_begins g (session_completes x) w b a e = ground arith
call_begins g (shell_completes x) w b a e = ground arith

-- Any other call before it.
call-Unstarted :
    (g : ℕ) (c : LoopCall) (w : LoopWorkflow)
    → Positive c
    → (accepts c w && suc w.next_generation == g) ≡ false
    → Unstarted g w
    → (sent g (call c w).1 ≡ 0) × Unstarted g (call c w).0
unfolding call
call-Unstarted g (starts raw statement commands) w b a v = elim (Option-cases w.active) [
  | inl free ↦ elim (Result-cases (resolve (record { name = statement.condition }) commands)) [
    | inl (body, r) ↦ ground (arith, nat_eq.eqb_iff (suc w.next_generation) g)
    | inr (x, r) ↦ ground arith
  ]
  | inr (s, busy) ↦ ground arith
]
call-Unstarted g (sees x) w b a v = elim (Option-cases w.active) [
  | inl free ↦ ground arith
  | inr (s, busy) ↦ ground (arith, nat_eq.eqb_iff s.generation g)
]
call-Unstarted g (session_completes x) w b a v = elim (Option-cases w.active) [
  | inl free ↦ ground arith
  | inr (s, busy) ↦ ground arith
]
call-Unstarted g (shell_completes x) w b a v = elim (Option-cases w.active) [
  | inl free ↦ ground arith
  | inr (s, busy) ↦ ground (arith, nat_eq.eqb_iff s.generation g)
]

run-Unstarted :
    (g : ℕ) (cs : List LoopCall) (w : LoopWorkflow)
    → All Positive cs
    → Unstarted g w
    → sent g (run cs w).1 ≤ own_bound g cs w
unfolding run
run-Unstarted g [] w b v = omega arith
run-Unstarted g (c ∷ cs) w b v =
    let (u, out) = call c w in
    let more = (run cs u).1 in
    elim (Bool-cases (accepts c w && suc w.next_generation == g)) [
      | inl own ↦ ground (
        arith,
        own,
        sent-append g out more,
        run-Started (max_turns_of c) g (sent g out) cs u b.1 (
            call_begins g c w b.0 (ground arith)
              (ground (arith, nat_eq.eqb_iff (suc w.next_generation) g))),
      )
      | inr other ↦
          let (quiet, next) = call-Unstarted g c w b.0 other v in
          ground (arith, other, quiet, sent-append g out more, run-Unstarted g cs u b.1 next)
    ]

-- Whatever is started, seen and completed, and in whatever order, stale and repeated completions
-- included: if the loops have positive bounds, then each loop sends its participant at most as many
-- prompts as its own bound, whatever the bounds of the loops before it. The loop of a generation is
-- the one whose accepted start has that number; a number without a loop sends none.
pub prompts_bounded :
    (g : ℕ) (cs : List LoopCall)
    → All Positive cs
    → sent g (run cs new_loop).1 ≤ own_bound g cs new_loop
prompts_bounded zero cs b =
    let fresh : Started 0 0 0 new_loop = record {
      begun = omega arith;
      within = omega arith;
      state = tt;
    } in
    omega (arith, run-Started 0 0 0 cs new_loop b fresh)
prompts_bounded (suc g) cs b =
    run-Unstarted (suc g) cs new_loop b (record { ahead = omega arith; state = tt })
