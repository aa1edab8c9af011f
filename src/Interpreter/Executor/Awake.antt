-- ===== src/Interpreter/Executor/Awake.antt =====
-- internal/interpreter/executor.go and session_event_inbox.go: while the executor is not closed, a
-- drain is on its way exactly if the inbox says so.
use coderoom.Prelude.{
  ℕ, zero, suc, ◌≤◌, ◌≡◌, refl, sym, true, false, List, [], ◌∷◌, arith, Bool-cases, inl, inr, ◌∙◌,
}
use coderoom.Interpreter.Inbox
use coderoom.Interpreter.Inbox.{new_inbox, record_event, complete_drain, has_none}
use coderoom.Interpreter.Executor.{
  Executor, Operation, request, drain_session_events, shutdown, Phase, pulling, before, requesting,
  draining, completing, shutting_down, after, returned, Move, recorded, drain_enqueued, enqueued,
  close_requested, pulled, took, took_in_run, drain_completed, operation_done, new_executor,
  enqueue, enqueue_owed, request_close, record_session_event, pull_from, take_events, takes, runs,
  take_in_loop, complete_in, finish, move, moves,
}
use coderoom.Interpreter.Executor.Counts.{
  has_none-nil, queued_drains-append, queued_stops-append, took_none-phase_drains,
  took_none-phase_stops, drains, stops,
}

module _ {A R : Type 0} where
  pub record IsAwake (e : Executor A R) : Type 0 where
    pub at_most_one : drains e ≤ 1
    pub none_pending : e.inbox.drain_pending ≡ false → (drains e ≡ 0) × (e.inbox.events ≡ [])
    pub one_pending : e.closed ≡ false → e.inbox.drain_pending ≡ true → drains e ≡ 1
    pub not_stopping : e.closed ≡ false → stops e ≡ 0

  -- The state after a move that leaves the inbox, `closed` and both counts as they were.
  same-IsAwake :
      (e f : Executor A R)
      → IsAwake e
      → f.inbox.drain_pending ≡ e.inbox.drain_pending
      → (e.inbox.events ≡ [] → f.inbox.events ≡ [])
      → f.closed ≡ e.closed
      → drains f ≡ drains e
      → stops f ≡ stops e
      → IsAwake f
  same-IsAwake e f h pending events closed d s = record {
    at_most_one = rw d h.at_most_one;
    none_pending = λ off.
        let (no_drain, no_event) = h.none_pending (sym pending ∙ off) in
        (d ∙ no_drain, events no_event);
    one_pending = λ live on. d ∙ h.one_pending (sym closed ∙ live) (sym pending ∙ on);
    not_stopping = λ live. s ∙ h.not_stopping (sym closed ∙ live);
  }

  record_session_event-IsAwake :
      (a : A) (e : Executor A R) → IsAwake e → IsAwake (record_session_event a e)
  unfolding record_session_event record_event
  record_session_event-IsAwake a e h = elim (Bool-cases e.inbox.drain_pending) [
    | inl on ↦ record {
      at_most_one = ground (arith, h.at_most_one);
      none_pending = λ off. ground arith;
      one_pending = λ live on'. ground (arith, h.one_pending live on);
      not_stopping = h.not_stopping;
    }
    | inr off ↦
        let (no_drain, no_event) = h.none_pending off in
        record {
          at_most_one = ground arith;
          none_pending = λ off'. ground arith;
          one_pending = λ live on. ground arith;
          not_stopping = h.not_stopping;
        }
  ]

  take_events-IsAwake : (e : Executor A R) → IsAwake e → IsAwake (take_events e)
  unfolding take_events Inbox.take
  take_events-IsAwake e h = same-IsAwake e (take_events e) h refl (λ p. refl) refl refl refl

  take_in_loop-IsAwake : (e : Executor A R) → IsAwake e → IsAwake (take_in_loop e)
  take_in_loop-IsAwake e h = elim (Bool-cases (takes e.phase)) [
    | inl t ↦ elim (Bool-cases (has_none e.inbox.events)) [
      | inl n ↦
          same-IsAwake e (take_in_loop e) h
            (unfold take_in_loop take_events Inbox.take in ground arith)
            (λ p. unfold take_in_loop take_events Inbox.take in ground arith)
            (unfold take_in_loop take_events Inbox.take in ground arith)
            (unfold take_in_loop take_events Inbox.take in
              ground (arith, took_none-phase_drains e.phase))
            (unfold take_in_loop take_events Inbox.take in
              ground (arith, took_none-phase_stops e.phase))
      | inr n ↦ unfold take_in_loop in rw (t, n) (take_events-IsAwake e h)
    ]
    | inr t ↦ unfold take_in_loop in rw t h
  ]

  enqueue_owed-IsAwake :
      (n : ℕ) (e : Executor A R) → e.owed ≡ n → IsAwake e → IsAwake (enqueue_owed n e)
  unfolding enqueue_owed enqueue
  enqueue_owed-IsAwake zero e eq h = h
  enqueue_owed-IsAwake (suc n) e eq h = elim (Bool-cases e.closed) [
    | inl c ↦ record {
      at_most_one = ground (arith, h.at_most_one);
      none_pending = λ off. ground (arith, h.none_pending);
      one_pending = λ live on. ground arith;
      not_stopping = λ live. ground arith;
    }
    | inr c ↦
        same-IsAwake e (enqueue_owed (suc n) e) h (ground arith) (λ p. ground arith) (ground arith)
          (ground (arith, queued_drains-append e.operations (drain_session_events ∷ [])))
          (ground (arith, queued_stops-append e.operations (drain_session_events ∷ [])))
  ]

  enqueue-IsAwake : (r : R) (e : Executor A R) → IsAwake e → IsAwake (enqueue (request r) e)
  unfolding enqueue
  enqueue-IsAwake r e h = elim (Bool-cases e.closed) [
    | inl c ↦ simp c h
    | inr c ↦
        same-IsAwake e (enqueue (request r) e) h (ground arith) (λ p. ground arith) (ground arith)
          (ground (arith, queued_drains-append e.operations (request r ∷ [])))
          (ground (arith, queued_stops-append e.operations (request r ∷ [])))
  ]

  request_close-IsAwake : (e : Executor A R) → IsAwake e → IsAwake (request_close e)
  unfolding request_close
  request_close-IsAwake e h = elim (Bool-cases e.closed) [
    | inl c ↦ simp c h
    | inr c ↦
        let kept : drains (request_close e) ≡ drains e =
          (unfold request_close in
            ground (arith, queued_drains-append e.operations (shutdown ∷ []))) in
        record {
          at_most_one = rw kept h.at_most_one;
          none_pending = λ off. ground (arith, h.none_pending, kept);
          one_pending = λ live on. ground arith;
          not_stopping = λ live. ground arith;
        }
  ]

  pull_from-IsAwake :
      (p : Phase R) (ops : List (Operation R)) (e : Executor A R)
      → e.phase ≡ p
      → e.operations ≡ ops
      → IsAwake e
      → IsAwake (pull_from p ops e)
  pull_from-IsAwake pulling (op ∷ ops) e p q h =
      same-IsAwake e (pull_from pulling (op ∷ ops) e) h refl (λ k. k) refl (ground arith)
        (ground arith)
  pull_from-IsAwake pulling [] e p q h = h
  pull_from-IsAwake (before op) ops e p q h = h
  pull_from-IsAwake (requesting r) ops e p q h = h
  pull_from-IsAwake draining ops e p q h = h
  pull_from-IsAwake completing ops e p q h = h
  pull_from-IsAwake shutting_down ops e p q h = h
  pull_from-IsAwake after ops e p q h = h
  pull_from-IsAwake returned ops e p q h = h

  completed-IsAwake :
      (e : Executor A R) → e.phase ≡ completing → IsAwake e → IsAwake (complete_in completing e)
  unfolding complete_in complete_drain
  completed-IsAwake e p h = elim (Bool-cases (has_none e.inbox.events)) [
    | inl n ↦
        let none_left : drains (complete_in completing e) ≡ 0 = ground (arith, h.at_most_one) in
        record {
          at_most_one = ground arith;
          none_pending = λ off. (none_left, ground (arith, has_none-nil e.inbox.events n));
          one_pending = λ live on. ground arith;
          not_stopping = λ live. ground (arith, h.not_stopping);
        }
    | inr n ↦
        same-IsAwake e (complete_in completing e) h (ground arith) (λ k. ground arith)
          (ground arith) (ground arith) (ground arith)
  ]

  complete_in-IsAwake :
      (p : Phase R) (e : Executor A R) → e.phase ≡ p → IsAwake e → IsAwake (complete_in p e)
  complete_in-IsAwake completing e p h = completed-IsAwake e p h
  complete_in-IsAwake pulling e p h = unfold complete_in in h
  complete_in-IsAwake (before op) e p h = unfold complete_in in h
  complete_in-IsAwake (requesting r) e p h = unfold complete_in in h
  complete_in-IsAwake draining e p h = unfold complete_in in h
  complete_in-IsAwake shutting_down e p h = unfold complete_in in h
  complete_in-IsAwake after e p h = unfold complete_in in h
  complete_in-IsAwake returned e p h = unfold complete_in in h

  finish-IsAwake : (p : Phase R) (e : Executor A R) → e.phase ≡ p → IsAwake e → IsAwake (finish p e)
  finish-IsAwake (requesting r) e p h =
      same-IsAwake e (finish (requesting r) e) h refl (λ k. k) refl (ground arith) (ground arith)
  finish-IsAwake shutting_down e p h = record {
    at_most_one = ground (arith, h.at_most_one);
    none_pending = λ off. ground (arith, h.none_pending off);
    one_pending = λ live on. ground (arith, h.not_stopping live);
    not_stopping = λ live. ground (arith, h.not_stopping live);
  }
  finish-IsAwake pulling e p h = h
  finish-IsAwake (before op) e p h = h
  finish-IsAwake draining e p h = h
  finish-IsAwake completing e p h = h
  finish-IsAwake after e p h = h
  finish-IsAwake returned e p h = h

  move-IsAwake : (m : Move A R) (e : Executor A R) → IsAwake e → IsAwake (move m e)
  unfolding move
  move-IsAwake (recorded a) e h = record_session_event-IsAwake a e h
  move-IsAwake drain_enqueued e h = enqueue_owed-IsAwake e.owed e refl h
  move-IsAwake (enqueued r) e h = enqueue-IsAwake r e h
  move-IsAwake close_requested e h = request_close-IsAwake e h
  move-IsAwake pulled e h = pull_from-IsAwake e.phase e.operations e refl refl h
  move-IsAwake took e h = take_in_loop-IsAwake e h
  move-IsAwake took_in_run e h = elim (Bool-cases (runs e.phase)) [
    | inl r ↦ simp r (take_events-IsAwake e h)
    | inr r ↦ simp r h
  ]
  move-IsAwake drain_completed e h = complete_in-IsAwake e.phase e refl h
  move-IsAwake operation_done e h = finish-IsAwake e.phase e refl h

  pub moves-IsAwake : (ms : List (Move A R)) (e : Executor A R) → IsAwake e → IsAwake (moves ms e)
  unfolding moves
  moves-IsAwake [] e h = h
  moves-IsAwake (m ∷ ms) e h = moves-IsAwake ms (move m e) (move-IsAwake m e h)

  pub new_executor-IsAwake : IsAwake new_executor
  unfolding new_executor new_inbox
  new_executor-IsAwake = record {
    at_most_one = omega arith;
    none_pending = λ off. (omega arith, refl);
    one_pending = λ live on. ground arith;
    not_stopping = λ live. omega arith;
  }
