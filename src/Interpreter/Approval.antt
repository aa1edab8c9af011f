-- ===== src/Interpreter/Approval.antt =====
-- internal/interpreter/approval.go and the approvals of types.go: the request that the front end
-- shows, and its answer. `cloneApproval` copies a value and has no counterpart.
pub mod Mirror
pub mod Agree
mod Tests
use coderoom.Prelude.Results.{Result, ok, err}
use coderoom.Prelude.{
  ℕ, String, Bool, true, false, not, ◌||◌, Option, none, some, List, [], ◌∷◌, map, ◌==◌, nat_eq,
  string_eq, if◌then◌else◌,
}
use coderoom.Agent.Approvals.{
  ApprovalRequest, option_accept, option_accept_for_session, option_decline, option_cancel,
}
use coderoom.Session.Event.{Event, approval_requested, approval_cleared}

pub record ApprovalOption : Type 0 where
  pub id : String
  pub label : String

pub record Approval : Type 0 where
  pub id : ℕ
  pub alias : String
  pub kind : String
  pub prompt : String
  pub options : List ApprovalOption

pub data ChoiceError : Type 0 where
  invalid_approval_choice approval_not_active approval_choice_not_offered : ChoiceError

unfoldable pub approval_option_label : String → String
approval_option_label option =
    if option == option_accept
    then "Accept"
    else if option == option_accept_for_session
    then "Accept for session"
    else if option == option_decline
    then "Decline"
    else if option == option_cancel
    then "Cancel"
    else option

unfoldable pub approval_from_agent : ℕ → String → ApprovalRequest → Approval
unfolding approval_option_label
approval_from_agent id alias request = record {
  id = id;
  alias = alias;
  kind = request.kind;
  prompt = request.ask;
  options =
      map (λ (option : String). record { id = option; label = approval_option_label option })
        request.options;
}

unfoldable pub agent_approval_choice : String → Option String
agent_approval_choice option =
    if option == option_accept
      || (option == option_accept_for_session
          || (option == option_decline || option == option_cancel))
    then some option
    else none

-- The loop over the options that were offered.
offered_choice : String → List ApprovalOption → Result ChoiceError String
unfolding agent_approval_choice
offered_choice choice [] = err approval_choice_not_offered
offered_choice choice (option ∷ options) =
    let rest = offered_choice choice options in
    if not (option.id == choice) then rest else elim (agent_approval_choice choice) [
      | some value ↦ ok value
      | none ↦ err invalid_approval_choice
    ]

-- The test `m.approval == nil || m.approval.ID != id`, negated.
abbrev pub shows : ℕ → Option Approval → Bool
shows id none = false
shows id (some a) = a.id == id

abbrev offered_options : Option Approval → List ApprovalOption
offered_options none = []
offered_options (some a) = a.options

unfoldable pub resolve_approval_choice : ℕ → String → Option Approval → Result ChoiceError String
unfolding offered_choice
resolve_approval_choice id choice approval =
    if not (shows id approval)
    then err approval_not_active
    else offered_choice choice (offered_options approval)

unfoldable pub clear_approval : ℕ → Option Approval → Option Approval × Bool
clear_approval id approval = if shows id approval then (none, true) else (approval, false)

-- `false` keeps the event from the room and from the workflows.
unfoldable pub apply_approval_event : Event → Option Approval → Option Approval × Bool
unfolding approval_from_agent clear_approval
apply_approval_event (approval_requested alias id req) approval =
    (some (approval_from_agent id alias req), true)
apply_approval_event (approval_cleared alias id) approval = clear_approval id approval
apply_approval_event _ approval = (approval, true)
