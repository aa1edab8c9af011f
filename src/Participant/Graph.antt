-- ===== src/Participant/Graph.antt =====
-- internal/participant/participant.go: the diagram of the lifecycle, without the other fields.
use coderoom.Prelude.{◌≡◌, ◌⊎◌, inr, arith}
use coderoom.Participant.{
  Status, unset, idle, starting, attached, preparing, keepalive, working, crashed, Participant,
}
use coderoom.Participant.Calls.{Call, apply, begins_startup}

infix 40 ◌⟶◌
pub data ◌⟶◌ : Status → Status → Type 0 where
  start : {s : Status} → s ⟶ starting
  attach : starting ⟶ attached
  commit : attached ⟶ idle
  prepare : idle ⟶ preparing
  prepare_new : unset ⟶ preparing
  work : preparing ⟶ working
  finish : working ⟶ idle
  abort : preparing ⟶ idle
  warm : idle ⟶ keepalive
  cool : keepalive ⟶ idle
  fail : {s : Status} → s ⟶ crashed

ruleset edges = (start, attach, commit, prepare, prepare_new, work, finish, abort, warm, cool, fail)

-- Every call, accepted or refused, keeps the status or follows one edge of the diagram.
pub apply-⟶ :
    (c : Call) (p : Participant)
    → ((apply c p).0.view.status ≡ p.view.status) ⊎ (p.view.status ⟶ (apply c p).0.view.status)
unfolding apply
apply-⟶ (begins_startup now) p = inr start
apply-⟶ _ p = grind (arith, edges)
