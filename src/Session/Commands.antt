-- ===== src/Session/Commands.antt =====
-- internal/session/command_lifecycle.go, command_policy.go and command.go: the other commands, and
-- all of them as one type. What an agent answers to a call is part of the command.
use coderoom.Prelude.Results.{Result, ok, err}
use coderoom.Prelude.{
  String, Bool, true, not, ◌&&◌, Option, none, some, ◌==◌, string_eq, if◌then◌else◌,
}
use coderoom.Policy.{PolicyError, enabled, enable, echo_invites}
use coderoom.Participant.{Participant, manual, new_participant, begin_startup, cancellable, unset}
use mathlib.Core.Option
use coderoom.Participant.Registry.{Registry, RegistryError, add}
use coderoom.Session.Event.{agent_starting, status_changed}
use coderoom.Session.State.{Session, Outside, notify, lookup_participant}
use coderoom.Session.Runtime.{create_agent_runtime, create_agent_context}

-- What `ForParticipant` answers.
pub record ParticipantConfig : Type 0 where
  pub alias : String
  pub role : String

pub data InviteError : Type 0 where
  no_agent_factory : InviteError
  config_error : String → InviteError
  register_error : RegistryError → InviteError

unfoldable pub build_participant : ParticipantConfig → Session → Participant
unfolding new_participant begin_startup
build_participant cfg s = begin_startup s.clock (new_participant cfg.alias cfg.role manual)

abbrev pub invited : String → Participant → Bool → Session → Session
invited alias p makes_context s =
    let prepared = create_agent_runtime alias (record s { has_invited = true }) in
    let built = if makes_context then create_agent_context alias prepared else prepared in
    notify (agent_starting alias) (
      notify
        (status_changed
          (record { alias = alias; from = unset; to = p.view.status; since = p.view.since }))
        built)

-- What follows `addParticipant`.
abbrev pub invite_added :
    String
    → Participant
    → Bool
    → Session
    → Registry × Option RegistryError
    → Session × Option InviteError
invite_added alias p makes_context s (registry, some e) =
    (record s { registry = registry }, some (register_error e))
invite_added alias p makes_context s (registry, none) =
    (invited alias p makes_context (record s { registry = registry }), none)

abbrev pub invite_resolved :
    Outside
    → String
    → Result String ParticipantConfig
    → Bool
    → Session
    → Option (Session × Option InviteError)
invite_resolved out alias (err text) makes_context s = some (s, some (config_error text))
invite_resolved out alias (ok cfg) makes_context s =
    let p = build_participant cfg s in
    Option.map (invite_added alias p makes_context s)
      (add out.participant_color out.color_attempts (some p) s.registry)

-- `InviteCommand.execute`, up to the startup goroutine. `config` is what the resolver answers, and
-- `makes_context` whether the factory asks for a context. `none` if the search for a colour did not
-- end.
unfoldable pub invite :
    Outside
    → String
    → Result String ParticipantConfig
    → Bool
    → Session
    → Option (Session × Option InviteError)
unfolding build_participant add create_agent_runtime create_agent_context notify
invite out alias config makes_context s =
    if not s.has_factory
    then some (s, some no_agent_factory)
    else invite_resolved out alias config makes_context s

pub data CancelError : Type 0 where
  cancel_not_found cancel_not_ready : String → CancelError
  interrupt_failed : String → String → CancelError

-- `CancelCommand.execute`; `interrupt` is the error of the agent's `Interrupt`.
unfoldable pub cancel_work : String → Option String → Session → Option CancelError
unfolding lookup_participant
cancel_work alias interrupt s = elim (lookup_participant alias s) [
  | none ↦ some (cancel_not_found alias)
  | some p ↦
      if not (cancellable p)
      then some (cancel_not_ready alias)
      else elim interrupt [ none ↦ none | some text ↦ some (interrupt_failed alias text) ]
]

pub data EnableError : Type 0 where
  after_first_invitation : String → EnableError
  policy_error : PolicyError → EnableError

-- `EnablePolicyCommand.execute`
unfoldable pub enable_policy : String → Session → Session × Option EnableError
unfolding enable enabled
enable_policy name s =
    if (name == echo_invites) && (s.has_invited && not (enabled echo_invites s.policies))
    then (s, some (after_first_invitation name))
    else let (policies, error) = enable name s.policies in
      (
        record s { policies = policies },
        elim error [ none ↦ none | some e ↦ some (policy_error e) ],
      )
