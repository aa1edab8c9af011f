-- ===== src/Interpreter/Approval/Tests.antt =====
-- internal/interpreter/approval.go: the interpreter's approvals at concrete inputs.
use coderoom.Prelude.{◌≡◌, none, List, [], ◌∷◌, refl}
use coderoom.Agent.Approvals.{ApprovalRequest}
use coderoom.Interpreter.Approval.{resolve_approval_choice, apply_approval_event}
use coderoom.Session.Approvals.{request, resolve_command}
use coderoom.Interpreter.Approval.Mirror.{
  DeskStep, asks, reads_inbox, answers_shown, desk_run, desk_step, new_desk, as_shown,
}
use coderoom.Interpreter.Approval.Agree.{shown_is_active}

abbrev run_this : ApprovalRequest
run_this = record { kind = "commandExecution"; ask = "run?"; options = "accept" ∷ "decline" ∷ [] }

abbrev write_that : ApprovalRequest
write_that = record { kind = "fileChange"; ask = "write?"; options = "accept" ∷ [] }

-- Two requests; the first is answered while its successor waits.
abbrev two_requests : List DeskStep
two_requests =
    asks "amy" run_this ∷ reads_inbox ∷ asks "bob" write_that ∷ answers_shown 1 "accept" ∷ []

second_shown : (desk_run (two_requests) new_desk).shown ≡ none
unfolding desk_run new_desk resolve_approval_choice request apply_approval_event resolve_command
second_shown = refl

shown_is_active_example :
    let d = desk_run two_requests new_desk in
    (desk_step reads_inbox d).shown ≡ as_shown d.hub.queue.active
shown_is_active_example = shown_is_active two_requests
