-- ===== src/Interpreter/Model/Host.antt =====
-- internal/interpreter: the instruction runner over the model. The half of its ports that the executor
-- fills is a record of functions on a state `H`; the other half is the model's.
use coderoom.Prelude.{
  ℕ, String, ◌≡◌, refl, ap, false, Option, some, List, [], ◌∷◌, arith, Option-cases, Bool-cases,
  inl, inr,
}
use coderoom.Participant.{View}
use coderoom.Session.Event.{Event}
use coderoom.Room.Delta.{Delta}
use coderoom.Interpreter.{
  WorkflowRef, ShellRequest, SessionRequest, SessionError, SessionCommand, SharedSendPlan,
  ParticipantState, Instruction,
}
use coderoom.Interpreter.Runner.{
  Ports, Published, transcript_changed, instruction_items, publish_changes,
  publish_transcript_changes, run_queue, run,
}
use coderoom.Interpreter.Model.{
  Model, ModelSnapshot, model_snapshot, apply_completion, apply_session_event, append_model_record,
  take_transcript_changes, read_handoff_source,
}

-- A `Snapshot` of the interpreter: what the model has and the participants of the session.
pub record Seen : Type 0 where
  pub of_model : ModelSnapshot
  pub participants : List View

-- `instructionExecutorPort`
pub record Host (H : Type 0) : Type 0 where
  pub publish : Published Seen Delta → H → H
  pub start_workflow_shell : WorkflowRef → ShellRequest → H → H
  pub start_session_shell : String → String → String → H → H
  pub execute_session_request : SessionRequest → H → H × Option SessionError
  pub execute_session_command : SessionCommand → H → H × Option SessionError
  pub shared_plan : String → H → SharedSendPlan × List String
  pub broadcast_plan : H → List String
  pub participant_state : H → List ParticipantState
  pub roster : H → List View
  pub take_session_events : H → H × List Event
  pub close_requested : H → H
  pub session_shutdown : H → H

pub record World (H : Type 0) : Type 0 where
  pub model : Model
  pub host : H

module _ {H : Type 0} (host : Host H) where
  abbrev on_host : {A : Type 0} → World H → H × A → World H × A
  on_host w (h, a) = (record w { host = h }, a)

  abbrev on_model : {A : Type 0} → World H → Model × A → World H × A
  on_model w (m, a) = (record w { model = m }, a)

  unfoldable pub model_ports : Ports (World H) Seen Delta
  unfolding model_snapshot apply_completion apply_session_event append_model_record
      take_transcript_changes read_handoff_source
  model_ports = record {
    publish = λ e w. record w { host = host.publish e w.host };
    start_workflow_shell =
        λ ref request w. record w { host = host.start_workflow_shell ref request w.host };
    start_session_shell = λ raw command program w. record w {
      host = host.start_session_shell raw command program w.host;
    };
    execute_session_request = λ request w. on_host w (host.execute_session_request request w.host);
    execute_session_command = λ command w. on_host w (host.execute_session_command command w.host);
    shared_plan = λ alias w. host.shared_plan alias w.host;
    broadcast_plan = λ w. host.broadcast_plan w.host;
    participant_state = λ w. host.participant_state w.host;
    roster = λ w. host.roster w.host;
    take_session_events = λ w. on_host w (host.take_session_events w.host);
    refresh_snapshot =
        λ w. (w, record { of_model = model_snapshot w.model; participants = host.roster w.host });
    close_requested = λ w. record w { host = host.close_requested w.host };
    session_shutdown = λ w. record w { host = host.session_shutdown w.host };
    apply_completion = λ c w. on_model w (apply_completion c w.model);
    apply_session_event = λ e w. on_model w (apply_session_event e w.model);
    add_record = λ r w. record w { model = append_model_record r w.model };
    take_transcript_changes = λ w. on_model w (take_transcript_changes w.model);
    handoff_source = λ alias w. read_handoff_source alias w.model;
  }

  publish_changes-model :
      (changes : List Delta) (w : World H) → (publish_changes model_ports changes w).model ≡ w.model
  unfolding publish_changes model_ports
  publish_changes-model [] w = refl
  publish_changes-model (c ∷ cs) w =
      publish_changes-model cs (model_ports.publish (transcript_changed c) w)

  published_all :
      (w : World H) → (publish_transcript_changes model_ports w).model.transcript_changes ≡ []
  unfolding publish_transcript_changes model_ports take_transcript_changes
  published_all w =
      ap (λ m. m.transcript_changes)
        (publish_changes-model w.model.transcript_changes
          (record w { model = record w.model { transcript_changes = [] } }))

  -- When a run is over, every change of the transcript has been published.
  pub run-published :
      (fuel : ℕ) (sequence : List Instruction) (w v : World H)
      → run model_ports fuel sequence w ≡ some v
      → v.model.transcript_changes ≡ []
  unfolding run model_ports
  run-published fuel sequence w v h =
      elim (Option-cases (run_queue model_ports fuel (instruction_items sequence) w false)) [
        | inl e ↦ ground arith
        | inr ((u, wanted), e) ↦ elim (Bool-cases wanted) [
          | inl b ↦ ground (arith, e, b, published_all u)
          | inr b ↦ ground (arith, e, b, published_all u)
        ]
      ]
