-- ===== src/Interpreter/Executor.antt =====
-- internal/interpreter/executor.go: the operation loop and the goroutines that feed it. A move is one
-- access to what they share: the inbox, the queue of operations, the mark that it is closed. Any
-- order of the moves is allowed, which includes every order that the goroutines can take; a move
-- that its goroutine cannot make changes nothing. `R` are the operations of the front end, whose
-- work is the runner's: it may report events, take events and close, which are moves of their own.
pub mod Counts
pub mod Awake
pub mod Wakeup
mod Tests
use coderoom.Prelude.{
  ℕ, zero, suc, ◌+◌, Bool, true, false, Option, none, some, List, [], ◌∷◌, ◌++◌, if◌then◌else◌,
}
use coderoom.Interpreter.Inbox
use coderoom.Interpreter.Inbox.{Inbox, new_inbox, record_event, complete_drain, has_none}

pub data Operation (R : Type 0) : Type 0 where
  request : R → Operation R
  drain_session_events : Operation R
  shutdown : Operation R

-- Where `run` is: at `Pull`, in `applySessionEvents` before an operation, in the operation, in the
-- two calls of `drainSessionEvents`, in `applySessionEvents` after the operation, past the loop.
pub data Phase (R : Type 0) : Type 0 where
  pulling : Phase R
  before : Operation R → Phase R
  requesting : R → Phase R
  draining completing shutting_down after returned : Phase R

pub record Executor (A R : Type 0) : Type 0 where
  pub inbox : Inbox A
  pub operations : List (Operation R)
  pub closed : Bool
  pub phase : Phase R
  -- how many calls of `recordSessionEvent` are before their `enqueue`
  pub owed : ℕ
  -- the events that were taken so far
  pub taken : List A

pub data Move (A R : Type 0) : Type 0 where
  -- `recordSessionEvent` up to `Record`, then its `enqueue`
  recorded : A → Move A R
  drain_enqueued : Move A R
  enqueued : R → Move A R
  close_requested : Move A R
  pulled : Move A R
  -- `inbox.Take` of the loops
  took : Move A R
  -- `takeSessionEvents` of an instruction
  took_in_run : Move A R
  drain_completed : Move A R
  operation_done : Move A R

module _ {R : Type 0} where
  abbrev pub begin : Operation R → Phase R
  begin (request r) = requesting r
  begin drain_session_events = draining
  begin shutdown = shutting_down

  -- The phase after a `Take` that returned nothing.
  abbrev pub took_none : Phase R → Phase R
  took_none (before op) = begin op
  took_none draining = completing
  took_none after = pulling
  took_none phase = phase

  abbrev pub takes : Phase R → Bool
  takes (before op) = true
  takes draining = true
  takes after = true
  takes _ = false

  abbrev pub runs : Phase R → Bool
  runs pulling = false
  runs completing = false
  runs shutting_down = false
  runs returned = false
  runs _ = true

module _ {A R : Type 0} where
  unfoldable pub new_executor : Executor A R
  unfolding new_inbox
  new_executor = record {
    inbox = new_inbox;
    operations = [];
    closed = false;
    phase = pulling;
    owed = 0;
    taken = [];
  }

  unfoldable pub enqueue : Operation R → Executor A R → Executor A R
  enqueue op e = if e.closed then e else record e { operations = e.operations ++ op ∷ [] }

  -- `closeOnce` is done when `closed` is set.
  unfoldable pub request_close : Executor A R → Executor A R
  request_close e =
      if e.closed then e else record e { closed = true; operations = e.operations ++ shutdown ∷ [] }

  unfoldable pub record_session_event : A → Executor A R → Executor A R
  unfolding record_event
  record_session_event a e =
      let (i, wanted) = record_event a e.inbox in
      record e { inbox = i; owed = if wanted then suc e.owed else e.owed }

  unfoldable pub enqueue_owed : ℕ → Executor A R → Executor A R
  unfolding enqueue
  enqueue_owed zero e = e
  enqueue_owed (suc n) e = enqueue drain_session_events (record e { owed = n })

  abbrev pub pull_from : Phase R → List (Operation R) → Executor A R → Executor A R
  pull_from pulling (op ∷ ops) e = record e { operations = ops; phase = before op }
  pull_from _ _ e = e

  -- `inbox.Take`, whose events the runner applies
  unfoldable pub take_events : Executor A R → Executor A R
  unfolding Inbox.take
  take_events e =
      let (i, events) = Inbox.take e.inbox in record e { inbox = i; taken = e.taken ++ events }

  unfoldable pub take_in_loop : Executor A R → Executor A R
  unfolding take_events
  take_in_loop e =
      if takes e.phase
      then (if has_none e.inbox.events
          then record (take_events e) { phase = took_none e.phase }
          else take_events e)
      else e

  unfoldable pub complete_in : Phase R → Executor A R → Executor A R
  unfolding complete_drain
  complete_in completing e =
      let (i, complete) = complete_drain e.inbox in
      record e { inbox = i; phase = if complete then after else draining }
  complete_in _ e = e

  -- The end of an operation; the shutdown closes the queue, which loses what is in it.
  abbrev pub finish : Phase R → Executor A R → Executor A R
  finish (requesting r) e = record e { phase = after }
  finish shutting_down e = record e { phase = returned; operations = [] }
  finish _ e = e

  unfoldable pub move : Move A R → Executor A R → Executor A R
  unfolding record_session_event enqueue_owed enqueue request_close take_in_loop take_events
      complete_in
  move (recorded a) e = record_session_event a e
  move drain_enqueued e = enqueue_owed e.owed e
  move (enqueued r) e = enqueue (request r) e
  move close_requested e = request_close e
  move pulled e = pull_from e.phase e.operations e
  move took e = take_in_loop e
  move took_in_run e = if runs e.phase then take_events e else e
  move drain_completed e = complete_in e.phase e
  move operation_done e = finish e.phase e

  unfoldable pub moves : List (Move A R) → Executor A R → Executor A R
  unfolding move
  moves [] e = e
  moves (m ∷ ms) e = moves ms (move m e)
