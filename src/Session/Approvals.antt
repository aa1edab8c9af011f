-- ===== src/Session/Approvals.antt =====
-- internal/session/approvals.go: the hub that shows one approval request at a time. Each method of
-- the hub holds its lock, so it is one step; the events that it publishes stand beside the new hub.
-- A response channel takes one decision, and what was sent on it is kept in `answers`.
pub mod Rising
pub mod Order
mod Tests
use coderoom.Prelude.{
  ℕ, suc, String, Bool, true, false, not, ◌&&◌, Option, none, some, List, [], ◌∷◌, ◌++◌, ◌==◌,
  nat_eq, if◌then◌else◌,
}
use coderoom.Agent.Approvals.{ApprovalRequest}
use coderoom.Session.Event.{Event, approval_requested, approval_cleared}

pub record PendingApproval : Type 0 where
  pub id : ℕ
  pub alias : String
  pub req : ApprovalRequest

pub record ApprovalQueue : Type 0 where
  pub approval_id : ℕ
  pub active : Option PendingApproval
  pub queue : List PendingApproval

pub data CancelOutcome : Type 0 where
  no_visible_change show_next_approval clear_visible_approval : CancelOutcome

unfoldable pub add_pending : PendingApproval → ApprovalQueue → ApprovalQueue × Bool
add_pending pending q = elim q.active [
  | none ↦ (record q { active = some pending }, true)
  | some _ ↦ (record q { queue = q.queue ++ pending ∷ [] }, false)
]

-- `q.active = q.pop()`, with what the queue keeps.
abbrev pub promote : ApprovalQueue → ApprovalQueue
promote q = elim q.queue [
  | [] ↦ record q { active = none }
  | next ∷ rest ↦ record q { active = some next; queue = rest }
]

-- The new queue, and the resolved request with the next one, or `none` for `false`.
unfoldable pub resolve_active :
    ℕ → ApprovalQueue → ApprovalQueue × Option (PendingApproval × Option PendingApproval)
resolve_active id q = elim q.active [
  | none ↦ (q, none)
  | some active ↦
      if not (id == 0) && not (active.id == id)
      then (q, none)
      else (promote q, some (active, (promote q).active))
]

-- The loop over `q.queue` removes the first request of the number.
unfoldable pub drop_pending : ℕ → List PendingApproval → List PendingApproval
drop_pending id [] = []
drop_pending id (p ∷ ps) = let rest = p ∷ drop_pending id ps in if p.id == id then ps else rest

-- What `cancel` does where the number is not that of the active request.
abbrev cancel_queued : ℕ → ApprovalQueue → ApprovalQueue × Option PendingApproval × CancelOutcome
cancel_queued id q = (record q { queue = drop_pending id q.queue }, none, no_visible_change)

abbrev cancel_active :
    PendingApproval → ApprovalQueue → ApprovalQueue × Option PendingApproval × CancelOutcome
cancel_active active q = elim (promote q).active [
  | some next ↦ (promote q, some next, show_next_approval)
  | none ↦ (promote q, some active, clear_visible_approval)
]

-- With the new queue, the request that the outcome is about: the next one or the cleared one.
unfoldable pub cancel_pending :
    ℕ → ApprovalQueue → ApprovalQueue × Option PendingApproval × CancelOutcome
unfolding drop_pending
cancel_pending id q = elim q.active [
  | none ↦ cancel_queued id q
  | some active ↦ if active.id == id then cancel_active active q else cancel_queued id q
]

pub record ApprovalHub : Type 0 where
  pub queue : ApprovalQueue
  pub answers : List (ℕ × String)

unfoldable pub new_approval_hub : ApprovalHub
new_approval_hub = record {
  queue = record { approval_id = 0; active = none; queue = [] };
  answers = [];
}

abbrev pub publish : Option PendingApproval → List Event
publish none = []
publish (some p) = approval_requested p.alias p.id p.req ∷ []

abbrev alias_for_approval : Option PendingApproval → String
alias_for_approval none = ""
alias_for_approval (some p) = p.alias

-- The request that the next call makes.
abbrev pub numbered : String → ApprovalRequest → ApprovalQueue → PendingApproval
numbered alias req q = record { id = suc q.approval_id; alias = alias; req = req }

-- `request` up to its wait; what it waits for is `answers`, or the end of its context, upon which
-- it calls `cancel`.
unfoldable pub request : String → ApprovalRequest → ApprovalHub → ApprovalHub × List Event
unfolding add_pending
request alias req h =
    let pending = numbered alias req h.queue in
    let (q, publish_now) =
      add_pending pending (record h.queue { approval_id = suc h.queue.approval_id }) in
    (record h { queue = q }, if publish_now then publish (some pending) else [])

unfoldable pub resolve : ℕ → String → ApprovalHub → ApprovalHub × List Event × Bool
unfolding resolve_active
resolve id choice h = elim (resolve_active id h.queue).1 [
  | none ↦ (h, [], false)
  | some (resolved, next) ↦ (
    record h {
      queue = (resolve_active id h.queue).0;
      answers = h.answers ++ (resolved.id, choice) ∷ [];
    },
    publish next,
    true,
  )
]

abbrev cancel_events : ℕ → Option PendingApproval → CancelOutcome → List Event
cancel_events id about show_next_approval = publish about
cancel_events id about clear_visible_approval = approval_cleared (alias_for_approval about) id ∷ []
cancel_events id about no_visible_change = []

unfoldable pub cancel : ℕ → ApprovalHub → ApprovalHub × List Event
unfolding cancel_pending
cancel id h =
    let (q, about, outcome) = cancel_pending id h.queue in
    (record h { queue = q }, cancel_events id about outcome)

pub data ResolveError : Type 0 where
  approval_id_required : ResolveError
  approval_not_active : ℕ → ResolveError

-- `ResolveApprovalCommand.execute`, of command_approval.go.
unfoldable pub resolve_command :
    ℕ → String → ApprovalHub → ApprovalHub × List Event × Option ResolveError
unfolding resolve
resolve_command id choice h =
    if id == 0
    then (h, [], some approval_id_required)
    else let (h', events, done) = resolve id choice h in
      if done then (h', events, none) else (h', events, some (approval_not_active id))
