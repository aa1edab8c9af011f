-- ===== src/Participant/Invariant.antt =====
-- internal/participant/participant.go: what holds of a participant between two calls.
use coderoom.Prelude.{
  ℕ, ◌≡◌, ◌≢◌, String, Bool, true, false, ◌||◌, List, [], ◌∷◌, arith, is_some, nat_eq, string_eq,
}
use coderoom.Participant.{
  Status, unset, starting, working, crashed, Initiative, Participant, new_participant, status_is,
  has_active_turn, is_sendable, sendable, begin_startup,
}
use coderoom.Participant.Calls.{Call, apply, run, begins_startup}

-- A participant that has an agent process behind it.
abbrev pub is_running : Status → Bool
is_running unset = false
is_running starting = false
is_running crashed = false
is_running _ = true

-- What the lifecycle promises: streams and an anchor belong to a turn, a working turn has an
-- identity, and readiness waits for the end of the startup.
pub record Inv (p : Participant) : Type 0 where
  pub streams_of_turn : has_active_turn p.view ≡ false → p.open_streams ≡ []
  pub anchor_of_turn : status_is p.view.status working ≡ false → p.anchor ≡ ""
  pub turn_identified : p.view.status ≡ working → p.view.turn_id ≢ 0

pub Inv-new : (alias role : String) (i : Initiative) → Inv (new_participant alias role i)
unfolding new_participant
Inv-new alias role i = ground arith

-- Every call, accepted or refused, keeps the invariant.
pub apply-Inv : (c : Call) (p : Participant) → Inv p → Inv (apply c p).0
unfolding apply
apply-Inv (begins_startup now) p h = ground arith
apply-Inv _ p h = ground arith

-- The invariant holds after any calls, accepted or refused, if it held before them, as it does of a
-- new participant: streams are open only during a turn, an anchor is set only while working, and a
-- working turn has a non-zero id.
pub run-Inv : (cs : List Call) (p : Participant) → Inv p → Inv (run cs p)
unfolding run
run-Inv [] p h = h
run-Inv (c ∷ cs) p h = run-Inv cs (apply c p).0 (apply-Inv c p h)

-- What holds once startup has begun.
pub record Launched (p : Participant) : Type 0 where
  pub left_unset : p.view.status ≢ unset
  pub bound : is_running p.view.status ≡ true → is_some p.agent ≡ true
  pub readied :
      p.view.startup_ready ≡ true
      → (is_running p.view.status || status_is p.view.status crashed) ≡ true

apply-Launched : (c : Call) (p : Participant) → Launched p → Launched (apply c p).0
unfolding apply
apply-Launched (begins_startup now) p h = ground arith
apply-Launched _ p h = ground arith

run-Launched : (cs : List Call) (p : Participant) → Launched p → Launched (run cs p)
unfolding run
run-Launched [] p h = h
run-Launched (c ∷ cs) p h = run-Launched cs (apply c p).0 (apply-Launched c p h)

-- Once its startup has begun, and after any further calls, a participant whose view says that it can
-- be sent to has a bound agent: the guard that the methods add never refuses.
pub sendable-of-view :
    (cs : List Call) (now : ℕ) (p : Participant)
    → is_sendable (run cs (begin_startup now p)).view ≡ true
    → sendable (run cs (begin_startup now p)) ≡ true
unfolding begin_startup
sendable-of-view cs now p h =
    ground (arith, run-Launched cs (begin_startup now p) (unfold begin_startup in ground arith))
