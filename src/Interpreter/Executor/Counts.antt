-- ===== src/Interpreter/Executor/Counts.antt =====
-- internal/interpreter/executor.go: how many drains and shutdowns are on their way.
use coderoom.Prelude.{ℕ, ◌+◌, ◌≡◌, refl, true, List, [], ◌∷◌, ◌++◌, arith}
use coderoom.Interpreter.Inbox.{has_none}
use coderoom.Interpreter.Executor.{
  Executor, Operation, request, drain_session_events, shutdown, Phase, pulling, before, requesting,
  draining, completing, shutting_down, after, returned, begin, took_none,
}

module _ {A : Type 0} where
  pub has_none-nil : (xs : List A) → has_none xs ≡ true → xs ≡ []
  has_none-nil [] h = refl
  has_none-nil (x ∷ xs) h = ground arith

module _ {R : Type 0} where
  -- The drains and the shutdowns of an operation, of the queue, of the phase.
  abbrev pub drains_of : Operation R → ℕ
  drains_of drain_session_events = 1
  drains_of _ = 0

  abbrev pub stops_of : Operation R → ℕ
  stops_of shutdown = 1
  stops_of _ = 0

  abbrev pub queued_drains : List (Operation R) → ℕ
  queued_drains [] = 0
  queued_drains (op ∷ ops) = drains_of op + queued_drains ops

  abbrev pub queued_stops : List (Operation R) → ℕ
  queued_stops [] = 0
  queued_stops (op ∷ ops) = stops_of op + queued_stops ops

  abbrev pub phase_drains : Phase R → ℕ
  phase_drains (before op) = drains_of op
  phase_drains draining = 1
  phase_drains completing = 1
  phase_drains _ = 0

  abbrev pub phase_stops : Phase R → ℕ
  phase_stops (before op) = stops_of op
  phase_stops shutting_down = 1
  phase_stops returned = 1
  phase_stops _ = 0

  pub queued_drains-append :
      (xs ys : List (Operation R)) → queued_drains (xs ++ ys) ≡ queued_drains xs + queued_drains ys
  queued_drains-append [] ys = omega arith
  queued_drains-append (x ∷ xs) ys = ground (arith, queued_drains-append xs ys)

  pub queued_stops-append :
      (xs ys : List (Operation R)) → queued_stops (xs ++ ys) ≡ queued_stops xs + queued_stops ys
  queued_stops-append [] ys = omega arith
  queued_stops-append (x ∷ xs) ys = ground (arith, queued_stops-append xs ys)

  pub phase_drains-begin : (op : Operation R) → phase_drains (begin op) ≡ drains_of op
  phase_drains-begin (request r) = refl
  phase_drains-begin drain_session_events = refl
  phase_drains-begin shutdown = refl

  pub phase_stops-begin : (op : Operation R) → phase_stops (begin op) ≡ stops_of op
  phase_stops-begin (request r) = refl
  phase_stops-begin drain_session_events = refl
  phase_stops-begin shutdown = refl

  pub took_none-phase_drains : (p : Phase R) → phase_drains (took_none p) ≡ phase_drains p
  took_none-phase_drains (before op) = phase_drains-begin op
  took_none-phase_drains pulling = refl
  took_none-phase_drains (requesting r) = refl
  took_none-phase_drains draining = refl
  took_none-phase_drains completing = refl
  took_none-phase_drains shutting_down = refl
  took_none-phase_drains after = refl
  took_none-phase_drains returned = refl

  pub took_none-phase_stops : (p : Phase R) → phase_stops (took_none p) ≡ phase_stops p
  took_none-phase_stops (before op) = phase_stops-begin op
  took_none-phase_stops pulling = refl
  took_none-phase_stops (requesting r) = refl
  took_none-phase_stops draining = refl
  took_none-phase_stops completing = refl
  took_none-phase_stops shutting_down = refl
  took_none-phase_stops after = refl
  took_none-phase_stops returned = refl

module _ {A R : Type 0} where
  -- The drains that are owed, queued or running.
  abbrev pub drains : Executor A R → ℕ
  drains e = e.owed + queued_drains e.operations + phase_drains e.phase

  abbrev pub stops : Executor A R → ℕ
  stops e = queued_stops e.operations + phase_stops e.phase
