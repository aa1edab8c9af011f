-- ===== src/Queue.antt =====
-- internal/queue/queue.go: an unbounded queue between a producer and a consumer. Each branch of a
-- `select` is an operation of its own, `none` where its communication is not ready; which ready
-- branch is taken, and when `time.After` fires, is the environment's choice. After `Close` the
-- branches on the channels stay possible until the pump has seen `done`, as the language allows.
pub mod Order
mod Tests
use coderoom.Prelude.{
  ◌≡◌, Bool, true, false, not, Option, none, some, List, [], ◌∷◌, ◌++◌, if◌then◌else◌,
}

pub record Queue {ℓ} (A : Type ℓ) : Type ℓ where
  pub buf : List A
  pub done : Bool
  -- whether the pump's goroutine has not returned
  pub pumping : Bool

module _ {ℓ} {A : Type ℓ} where
  unfoldable pub new_queue : Queue A
  new_queue = record { buf = []; done = false; pumping = true }

  unfoldable pub close : Queue A → Queue A
  close q = record q { done = true }

  -- `q.in <- v` meets `v := <-q.in` of the pump.
  unfoldable pub push_sent : A → Queue A → Option (Queue A)
  push_sent v q = if q.pumping then some (record q { buf = q.buf ++ v ∷ [] }) else none

  -- `<-q.done`, of `Push`, `Pull` and `PullTimeout`
  unfoldable pub done_ready : Queue A → Option (Queue A)
  done_ready q = if q.done then some q else none

  abbrev pub uncons : List A → Option (A × List A)
  uncons [] = none
  uncons (x ∷ xs) = some (x, xs)

  -- `v = <-q.out` meets `q.out <- buf[0]` of the pump.
  unfoldable pub pull_received : Queue A → Option (A × Queue A)
  pull_received q =
      if q.pumping
      then elim (uncons q.buf) [ none ↦ none | some (v, rest) ↦ some (v, record q { buf = rest }) ]
      else none

  -- The pump takes its branch on `done`, and what is buffered is lost.
  unfoldable pub pump_return : Queue A → Option (Queue A)
  pump_return q =
      if q.pumping
      then (if q.done then some (record q { pumping = false; buf = [] }) else none)
      else none

pub data Action {ℓ} (A : Type ℓ) : Type ℓ where
  pushes : A → Action A
  push_dropped : A → Action A
  pulls : Action A
  pull_closed : Action A
  -- `default` of `TryPull`, or the timer of `PullTimeout`
  pull_empty : Action A
  closes : Action A
  returns : Action A

module _ {ℓ} {A : Type ℓ} where
  -- The queue after one action, with the value that it delivered.
  unfoldable pub act : Action A → Queue A → Option (Queue A × List A)
  unfolding close push_sent done_ready pull_received pump_return
  act (pushes v) q = elim (push_sent v q) [ none ↦ none | some r ↦ some (r, []) ]
  act (push_dropped v) q = elim (done_ready q) [ none ↦ none | some r ↦ some (r, []) ]
  act pulls q = elim (pull_received q) [ none ↦ none | some (v, r) ↦ some (r, v ∷ []) ]
  act pull_closed q = elim (done_ready q) [ none ↦ none | some r ↦ some (r, []) ]
  act pull_empty q = some (q, [])
  act closes q = some (close q, [])
  act returns q = elim (pump_return q) [ none ↦ none | some r ↦ some (r, []) ]

  unfoldable pub run : List (Action A) → Queue A → Option (Queue A × List A)
  unfolding act
  run [] q = some (q, [])
  run (a ∷ as') q = elim (act a q) [
    | none ↦ none
    | some (r, out) ↦ elim (run as' r) [ none ↦ none | some (s, more) ↦ some (s, out ++ more) ]
  ]
