-- ===== src/Interpreter/Executor/Tests.antt =====
-- internal/interpreter/executor.go: an event that comes between the last `Take` of a drain and its
-- `CompleteDrain`.
use coderoom.Prelude.{ℕ, String, ◌≡◌, ◌≤◌, ◌⊎◌, refl, true, List, [], ◌∷◌, ◌++◌}
use coderoom.Interpreter.Inbox
use coderoom.Interpreter.Inbox.{new_inbox, record_event, complete_drain}
use coderoom.Interpreter.Executor.{
  Move, recorded, drain_enqueued, pulled, took, drain_completed, new_executor, enqueue,
  enqueue_owed, request_close, record_session_event, take_events, take_in_loop, complete_in, move,
  moves,
}
use coderoom.Interpreter.Executor.Counts.{drains}
use coderoom.Interpreter.Executor.Wakeup.{reported, drain_wakes_up}

abbrev late_event : List (Move ℕ String)
late_event =
    recorded 1 ∷ drain_enqueued ∷ pulled ∷ took ∷ took ∷ took ∷ recorded 2 ∷ drain_completed ∷ []

still_draining : drains (moves late_event new_executor) ≡ 1
unfolding moves move record_session_event record_event enqueue_owed enqueue request_close
    take_in_loop take_events Inbox.take complete_in complete_drain new_executor new_inbox
still_draining = refl

taken_late :
    (moves (late_event ++ took ∷ took ∷ drain_completed ∷ []) new_executor).taken ≡ 1 ∷ 2 ∷ []
unfolding moves move record_session_event record_event enqueue_owed enqueue request_close
    take_in_loop take_events Inbox.take complete_in complete_drain new_executor new_inbox
taken_late = refl

drain_wakes_up_example :
    ((moves late_event new_executor).taken ++ (moves late_event new_executor).inbox.events
      ≡ reported late_event)
    × (drains (moves late_event new_executor) ≤ 1)
    × (((moves late_event new_executor).closed ≡ true)
        ⊎ ((moves late_event new_executor).inbox.events ≡ [])
        ⊎ (drains (moves late_event new_executor) ≡ 1))
drain_wakes_up_example = drain_wakes_up late_event
