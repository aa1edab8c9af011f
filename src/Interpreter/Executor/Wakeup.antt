-- ===== src/Interpreter/Executor/Wakeup.antt =====
-- internal/interpreter/executor.go and session_event_inbox.go: no event of the session is lost, and
-- none waits without an operation that will take it.
use coderoom.Prelude.{
  ℕ, zero, suc, ◌≤◌, ◌≡◌, ◌⊎◌, refl, ap, sym, true, List, [], ◌∷◌, ◌++◌, arith, Bool-cases, inl,
  inr, ◌∙◌,
}
use mathlib.Core.List.{append_assoc, append-nil}
use coderoom.Interpreter.Inbox
use coderoom.Interpreter.Inbox.{new_inbox, record_event, complete_drain, has_none}
use coderoom.Interpreter.Executor.{
  Executor, Operation, request, drain_session_events, Phase, pulling, before, requesting, draining,
  completing, shutting_down, after, returned, Move, recorded, drain_enqueued, enqueued,
  close_requested, pulled, took, took_in_run, drain_completed, operation_done, new_executor,
  enqueue, enqueue_owed, request_close, record_session_event, pull_from, take_events, takes, runs,
  take_in_loop, complete_in, finish, move, moves,
}
use coderoom.Interpreter.Executor.Counts.{drains}
use coderoom.Interpreter.Executor.Awake.{IsAwake, moves-IsAwake, new_executor-IsAwake}

add_nothing : {A : Type 0} (xs ys : List A) → xs ≡ ys → xs ≡ ys ++ []
add_nothing xs ys e = e ∙ sym (append-nil ys)

module _ {A R : Type 0} where
  -- The events that the session reported.
  abbrev pub reported : List (Move A R) → List A
  reported [] = []
  reported (recorded a ∷ ms) = a ∷ reported ms
  reported (_ ∷ ms) = reported ms

  -- The events that were taken, then those that wait.
  abbrev seen : Executor A R → List A
  seen e = e.taken ++ e.inbox.events

  take_events-seen : (e : Executor A R) → seen (take_events e) ≡ seen e
  unfolding take_events Inbox.take
  take_events-seen e = append-nil (e.taken ++ e.inbox.events)

  take_in_loop-seen : (e : Executor A R) → seen (take_in_loop e) ≡ seen e
  take_in_loop-seen e = elim (Bool-cases (takes e.phase)) [
    | inl t ↦ elim (Bool-cases (has_none e.inbox.events)) [
      | inl n ↦ unfold take_in_loop in simp (t, n) (take_events-seen e)
      | inr n ↦ unfold take_in_loop in simp (t, n) (take_events-seen e)
    ]
    | inr t ↦ unfold take_in_loop in simp t refl
  ]

  enqueue-seen : (op : Operation R) (e : Executor A R) → seen (enqueue op e) ≡ seen e
  unfolding enqueue
  enqueue-seen op e = ground arith

  enqueue_owed-seen : (n : ℕ) (e : Executor A R) → seen (enqueue_owed n e) ≡ seen e
  unfolding enqueue_owed
  enqueue_owed-seen zero e = refl
  enqueue_owed-seen (suc n) e = enqueue-seen drain_session_events (record e { owed = n })

  pull_from-seen :
      (p : Phase R) (ops : List (Operation R)) (e : Executor A R)
      → seen (pull_from p ops e) ≡ seen e
  pull_from-seen pulling (op ∷ ops) e = refl
  pull_from-seen pulling [] e = refl
  pull_from-seen (before op) ops e = refl
  pull_from-seen (requesting r) ops e = refl
  pull_from-seen draining ops e = refl
  pull_from-seen completing ops e = refl
  pull_from-seen shutting_down ops e = refl
  pull_from-seen after ops e = refl
  pull_from-seen returned ops e = refl

  complete_in-seen : (p : Phase R) (e : Executor A R) → seen (complete_in p e) ≡ seen e
  unfolding complete_in complete_drain
  complete_in-seen completing e = ground arith
  complete_in-seen pulling e = refl
  complete_in-seen (before op) e = refl
  complete_in-seen (requesting r) e = refl
  complete_in-seen draining e = refl
  complete_in-seen shutting_down e = refl
  complete_in-seen after e = refl
  complete_in-seen returned e = refl

  finish-seen : (p : Phase R) (e : Executor A R) → seen (finish p e) ≡ seen e
  finish-seen (requesting r) e = refl
  finish-seen shutting_down e = refl
  finish-seen pulling e = refl
  finish-seen (before op) e = refl
  finish-seen draining e = refl
  finish-seen completing e = refl
  finish-seen after e = refl
  finish-seen returned e = refl

  recorded-seen : (a : A) (e : Executor A R) → seen (record_session_event a e) ≡ seen e ++ a ∷ []
  unfolding record_session_event record_event
  recorded-seen a e = elim (Bool-cases e.inbox.drain_pending) [
    | inl p ↦ simp p (sym (append_assoc e.taken e.inbox.events (a ∷ [])))
    | inr p ↦ simp p (sym (append_assoc e.taken e.inbox.events (a ∷ [])))
  ]

  move-seen : (m : Move A R) (e : Executor A R) → seen (move m e) ≡ seen e ++ reported (m ∷ [])
  unfolding move
  move-seen (recorded a) e = recorded-seen a e
  move-seen drain_enqueued e = add_nothing _ _ (enqueue_owed-seen e.owed e)
  move-seen (enqueued r) e = add_nothing _ _ (enqueue-seen (request r) e)
  move-seen close_requested e = add_nothing _ _ (unfold request_close in ground arith)
  move-seen pulled e = add_nothing _ _ (pull_from-seen e.phase e.operations e)
  move-seen took e = add_nothing _ _ (take_in_loop-seen e)
  move-seen took_in_run e = add_nothing _ _ (elim (Bool-cases (runs e.phase)) [
    | inl r ↦ simp r (take_events-seen e)
    | inr r ↦ simp r refl
  ])
  move-seen drain_completed e = add_nothing _ _ (complete_in-seen e.phase e)
  move-seen operation_done e = add_nothing _ _ (finish-seen e.phase e)

  reported-cons :
      (m : Move A R) (ms : List (Move A R)) → reported (m ∷ ms) ≡ reported (m ∷ []) ++ reported ms
  reported-cons (recorded a) ms = refl
  reported-cons drain_enqueued ms = refl
  reported-cons (enqueued r) ms = refl
  reported-cons close_requested ms = refl
  reported-cons pulled ms = refl
  reported-cons took ms = refl
  reported-cons took_in_run ms = refl
  reported-cons drain_completed ms = refl
  reported-cons operation_done ms = refl

  moves-seen : (ms : List (Move A R)) (e : Executor A R) → seen (moves ms e) ≡ seen e ++ reported ms
  unfolding moves
  moves-seen [] e = sym (append-nil (seen e))
  moves-seen (m ∷ ms) e =
      moves-seen ms (move m e)
      ∙ ap (λ l. l ++ reported ms) (move-seen m e)
      ∙ append_assoc (seen e) (reported (m ∷ [])) (reported ms)
      ∙ ap (λ l. seen e ++ l) (sym (reported-cons m ms))

  awake-drains :
      (e : Executor A R) → IsAwake e → (e.closed ≡ true) ⊎ (e.inbox.events ≡ []) ⊎ (drains e ≡ 1)
  awake-drains e h = elim (Bool-cases e.closed) [
    | inl c ↦ inl c
    | inr c ↦ elim (Bool-cases e.inbox.drain_pending) [
      | inl p ↦ inr (inr (h.one_pending c p))
      | inr p ↦ inr (inl (h.none_pending p).1)
    ]
  ]

-- However the goroutines interleave: the events taken so far and those that wait are the events
-- reported, in their order, each once; at most one drain is owed, queued or running; and unless the
-- executor is closed or no event waits, exactly one is, so that no event waits for good.
pub drain_wakes_up :
    {A R : Type 0} (ms : List (Move A R))
    → ((moves ms new_executor).taken ++ (moves ms new_executor).inbox.events ≡ reported ms)
      × (drains (moves ms new_executor) ≤ 1)
      × (((moves ms new_executor).closed ≡ true)
          ⊎ ((moves ms new_executor).inbox.events ≡ [])
          ⊎ (drains (moves ms new_executor) ≡ 1))
drain_wakes_up ms =
    let awake = moves-IsAwake ms new_executor new_executor-IsAwake in
    (
      unfold new_executor new_inbox in moves-seen ms new_executor,
      awake.at_most_one,
      awake-drains (moves ms new_executor) awake,
    )
