-- ===== src/Interpreter/Approval/Mirror.antt =====
-- internal/interpreter/approval.go and internal/session/approvals.go together: the hub publishes to
-- the interpreter's inbox, which the interpreter reads when it comes to it; meanwhile its front end
-- may answer what it shows. The inbox is kept here as far as approvals go.
use coderoom.Prelude.Results.{ok, err}
use coderoom.Prelude.{
  ℕ, ◌<◌, ◌≡◌, String, false, not, Option, none, some, List, [], ◌∷◌, ◌++◌, arith, nat_eq,
  Option-cases, inl, inr, ◌==◌, is_none, Bool-cases, ◌&&◌, ◌⊎◌,
}
use coderoom.Agent.Approvals.{ApprovalRequest}
use coderoom.Session.Event.{Event, approval_requested, approval_cleared}
use coderoom.Session.Approvals.{
  PendingApproval, ApprovalHub, request, resolve_command, cancel, new_approval_hub, promote,
  numbered, publish,
}
use coderoom.Session.Approvals.Order.{HubInv, promote_newer}
use coderoom.Interpreter.Approval.{
  Approval, apply_approval_event, approval_from_agent, clear_approval, resolve_approval_choice,
}

pub record Desk : Type 0 where
  pub hub : ApprovalHub
  pub inbox : List Event
  pub shown : Option Approval

-- `ApplySessionEvent` for each event of the inbox.
unfoldable pub shown_after : List Event → Option Approval → Option Approval
shown_after [] shown = shown
shown_after (e ∷ es) shown = shown_after es (apply_approval_event e shown).0

pub data DeskStep : Type 0 where
  -- an agent asks, or its context ends
  asks : String → ApprovalRequest → DeskStep
  gives_up : ℕ → DeskStep
  -- the interpreter reads its inbox
  reads_inbox : DeskStep
  -- the front end answers
  answers_shown : ℕ → String → DeskStep

-- `resolveApprovalOperation.apply`
unfoldable pub resolve_approval : ℕ → String → Desk → Desk
resolve_approval id choice d = elim (resolve_approval_choice id choice d.shown) [
  | err e ↦ d
  | ok value ↦
      let (hub, events, error) = resolve_command id value d.hub in
      let received = record d { hub = hub; inbox = d.inbox ++ events } in
      elim error [
        | some e ↦ received
        | none ↦ record received { shown = (clear_approval id d.shown).0 }
      ]
]

unfoldable pub desk_step : DeskStep → Desk → Desk
unfolding resolve_approval shown_after
desk_step (asks alias req) d =
    let (hub, events) = request alias req d.hub in record d { hub = hub; inbox = d.inbox ++ events }
desk_step (gives_up id) d =
    let (hub, events) = cancel id d.hub in record d { hub = hub; inbox = d.inbox ++ events }
desk_step reads_inbox d = record d { inbox = []; shown = shown_after d.inbox d.shown }
desk_step (answers_shown id choice) d = resolve_approval id choice d

unfoldable pub desk_run : List DeskStep → Desk → Desk
unfolding desk_step
desk_run [] d = d
desk_run (s ∷ ss) d = desk_run ss (desk_step s d)

unfoldable pub new_desk : Desk
unfolding new_approval_hub
new_desk = record { hub = new_approval_hub; inbox = []; shown = none }

-- The active request as the front end is to show it.
abbrev pub as_shown : Option PendingApproval → Option Approval
as_shown none = none
as_shown (some p) = some (approval_from_agent p.id p.alias p.req)

-- What a step of the hub does to the request that is shown.
pub data Effect (h h' : ApprovalHub) (events : List Event) : Type 0 where
  silent : h'.queue.active ≡ h.queue.active → events ≡ [] → Effect h h' events
  shows_next :
      (p : PendingApproval)
      → h'.queue.active ≡ some p
      → ((q : PendingApproval) → h.queue.active ≡ some q → q.id < p.id)
      → (h.queue.active ≡ none → h.queue.approval_id < p.id)
      → events ≡ approval_requested p.alias p.id p.req ∷ []
      → Effect h h' events
  clears :
      (p : PendingApproval) (alias : String)
      → h.queue.active ≡ some p
      → h'.queue.active ≡ none
      → events ≡ approval_cleared alias p.id ∷ []
      → Effect h h' events

pub request-Effect :
    (alias : String) (req : ApprovalRequest) (h : ApprovalHub)
    → Effect h (request alias req h).0 (request alias req h).1
unfolding request
request-Effect alias req h = elim (Option-cases h.queue.active) [
  | inl e ↦
      shows_next (numbered alias req h.queue) (ground arith) (λ q a. ground arith)
        (λ _. omega arith) (ground arith)
  | inr (p, e) ↦ silent (ground arith) (ground arith)
]

pub cancel-Effect : (id : ℕ) (h : ApprovalHub) → HubInv h → Effect h (cancel id h).0 (cancel id h).1
unfolding cancel
cancel-Effect id h v = elim (Option-cases h.queue.active) [
  | inl e ↦ silent (ground arith) (ground arith)
  | inr (p, e) ↦ elim (Bool-cases (p.id == id)) [
    | inr t ↦ silent (ground arith) (ground arith)
    | inl t ↦ elim (Option-cases (promote h.queue).active) [
      | inl last ↦ clears p p.alias e (ground arith) (ground arith)
      | inr (next, n) ↦
          shows_next next (ground arith) (λ q a. ground (arith, promote_newer h p next v e n))
            (λ a. ground arith) (ground arith)
    ]
  ]
]

-- `resolve_command` fails, or takes the active request away.
pub resolve_effect :
    (id : ℕ) (choice : String) (h : ApprovalHub)
    → let (h', events, error) = resolve_command id choice h in
      ((is_none error ≡ false) × (h' ≡ h) × (events ≡ []))
      ⊎ ((p : PendingApproval) × (h.queue.active ≡ some p)
          × (p.id ≡ id)
          × (error ≡ none)
          × (h'.queue ≡ promote h.queue)
          × (events ≡ publish (promote h.queue).active))
unfolding resolve_command
resolve_effect id choice h = elim (Option-cases h.queue.active) [
  | inl e ↦ inl (ground arith, ground arith, ground arith)
  | inr (p, e) ↦ elim (Bool-cases (not (id == 0) && p.id == id)) [
    | inr t ↦ inl (ground arith, ground arith, ground arith)
    | inl t ↦ inr (p, e, ground arith, ground arith, ground arith, ground arith)
  ]
]
