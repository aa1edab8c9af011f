-- ===== src/Session/Approvals/Tests.antt =====
-- internal/session/approvals.go: the hub at concrete inputs.
use coderoom.Prelude.{◌≡◌, List, [], ◌∷◌, ◌++◌, refl}
use coderoom.Agent.Approvals.{ApprovalRequest}
use coderoom.Session.Approvals.{new_approval_hub}
use coderoom.Session.Approvals.Rising.{Rising}
use coderoom.Session.Approvals.Order.{
  HubStep, requests, resolves, cancels, hub_run, hub_step, answered, ids, waiting, answers_in_order,
}

abbrev asked : ApprovalRequest
asked = record { kind = "commandExecution"; ask = "run?"; options = "accept" ∷ "decline" ∷ [] }

-- Three requests; the second is cancelled, the first answered, then the third.
abbrev three : List HubStep
three =
    requests "amy" asked
    ∷ requests "bob" asked
    ∷ requests "cat" asked
    ∷ cancels 2
    ∷ resolves 2 "accept"
    ∷ resolves 1 "accept"
    ∷ resolves 3 "decline"
    ∷ requests "dan" asked
    ∷ []

answered-three : answered (hub_run three new_approval_hub).answers ≡ 1 ∷ 3 ∷ []
unfolding hub_run hub_step new_approval_hub
answered-three = refl

answers_in_order_example :
    let h = hub_run three new_approval_hub in
    Rising 0 (answered h.answers ++ ids (waiting h.queue)) h.queue.approval_id
answers_in_order_example = answers_in_order three
