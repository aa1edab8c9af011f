-- ===== src/Session/State.antt =====
-- internal/session/session.go: the state of a session, and its reads and writes of one participant.
-- What runs under one hold of the lock is one function; the events that it notifies are added to
-- `events`, in order. Contexts and channels are numbers; a context is done once its number stands in
-- `cancelled`, a channel is closed once its number stands in `closed`.
use coderoom.Prelude.Dict
use coderoom.Prelude.Dict.{Dict}
use coderoom.Prelude.Results.{Result, ok, err}
use coderoom.Prelude.Text.{concat_text, join_text}
use coderoom.Prelude.{
  ℕ, String, Bool, false, Option, none, some, List, [], ◌∷◌, ◌++◌, ◌==◌, string_eq, if◌then◌else◌,
  ◌≡◌, Option-cases, inl, inr, ap, sym, ◌∙◌,
}
use mathlib.Core.Option.{some-injective}
use coderoom.Policy.{PolicySet, new_set}
use coderoom.Participant.{
  Participant, ParticipantError, View, work_already_started, streams_still_open, not_working,
  not_preparing, stream_not_tracked, not_ready_for_work, not_starting, not_attached, not_idle,
  not_active, not_keepalive, invalid_turn_id,
}
use coderoom.Participant.Registry.{Registry, new_registry, get, list}
use coderoom.Agent.{Message}
use coderoom.Session.Event.{Event, agent_log, status_changed}

pub record AgentRuntime : Type 0 where
  pub agent_cancel : Option ℕ
  pub stop : Option ℕ

pub record Session : Type 0 where
  pub registry : Registry
  pub agents : Dict String AgentRuntime
  -- what `s.now()` answers
  pub clock : ℕ
  -- the next context or channel
  pub next_handle : ℕ
  pub cancelled : List ℕ
  pub closed : List ℕ
  pub has_factory : Bool
  pub policies : PolicySet
  pub has_invited : Bool
  pub last_turn_id : ℕ
  pub shut_down : Bool
  pub events : List Event

-- What the session takes from elsewhere: the formula of a participant's colour, `%q` of package fmt,
-- and the short form of a message in a diagnostic.
pub record Outside : Type 0 where
  pub participant_color : ℕ → ℕ → String
  -- the fuel of the search for a colour
  pub color_attempts : ℕ
  pub quote : String → String
  pub summarize : Message → String

unfoldable pub new_session : Bool → Session
new_session has_factory = record {
  registry = new_registry;
  agents = [];
  clock = 0;
  next_handle = 0;
  cancelled = [];
  closed = [];
  has_factory = has_factory;
  policies = new_set;
  has_invited = false;
  last_turn_id = 0;
  shut_down = false;
  events = [];
}

-- An error of a session operation on one participant.
pub data OperationError : Type 0 where
  participant_not_found : String → OperationError
  invariant_broken : String → ParticipantError → OperationError

abbrev error_text : ParticipantError → String
error_text work_already_started = "participant already working"
error_text streams_still_open = "participant has open streams"
error_text not_working = "participant is not working"
error_text not_preparing = "participant is not in preparing state"
error_text (stream_not_tracked id) = concat_text ("participant stream is not tracked: " ∷ id ∷ [])
error_text not_ready_for_work = "participant not ready for work"
error_text not_starting = "participant is not starting"
error_text not_attached = "participant is not attached"
error_text not_idle = "participant is not idle"
error_text not_active = "participant is not active"
error_text not_keepalive = "participant is not in keepalive state"
error_text invalid_turn_id = "participant turn ID must be non-zero"

unfoldable pub notify : Event → Session → Session
notify e s = record s { events = s.events ++ e ∷ [] }

-- The pointer that the registry holds under an alias, written through.
abbrev pub put_participant : String → Participant → Session → Session
put_participant alias p s = record s {
  registry = record s.registry { participants = Dict.put alias p s.registry.participants };
}

-- The text of an error that `update` has wrapped under a short heading, which may be empty.
abbrev pub wrapped_text : String → ParticipantError → String
wrapped_text heading e =
    if heading == "" then error_text e else concat_text (heading ∷ ": " ∷ error_text e ∷ [])

abbrev details_text : List String → String
details_text [] = ""
details_text (d ∷ ds) = concat_text (" (" ∷ join_text "; " (d ∷ ds) ∷ ")" ∷ [])

-- The details are never blank where the code calls this.
unfoldable pub notify_participant_invariant : String → String → List String → Session → Session
unfolding notify
notify_participant_invariant alias text details s =
    notify
      (agent_log alias (concat_text ("participant invariant: " ∷ text ∷ details_text details ∷ [])))
      s

unfoldable pub lookup_participant : String → Session → Option Participant
unfolding get
lookup_participant alias s = get alias s.registry

abbrev pub Update : Type 0
Update = Participant → Participant × Result OperationError (Option Event)

abbrev pub notify_some : Option Event → Session → Session
notify_some none s = s
notify_some (some e) s = notify e s

abbrev pub settle :
    String
    → Session
    → Participant × Result OperationError (Option Event)
    → Session × Option OperationError
settle alias s (q, ok event) = (notify_some event (put_participant alias q s), none)
settle alias s (q, err e) = (put_participant alias q s, some e)

unfoldable pub update_participant : String → Update → Session → Session × Option OperationError
unfolding notify lookup_participant
update_participant alias fn s = elim (lookup_participant alias s) [
  | none ↦ (s, some (participant_not_found alias))
  | some p ↦ settle alias s (fn p)
]

-- What holds of a missing participant, and of what becomes of one that is there, holds of an update.
pub update_cases {κ} :
    (P : Session × Option OperationError → Type κ) (alias : String) (fn : Update) (s : Session)
    → (lookup_participant alias s ≡ none → P (s, some (participant_not_found alias)))
    → ((p : Participant) → lookup_participant alias s ≡ some p → P (settle alias s (fn p)))
    → P (update_participant alias fn s)
unfolding update_participant
update_cases P alias fn s missing found = elim (Option-cases (lookup_participant alias s)) [
  | inl e ↦ rw (e, update_participant) (missing e)
  | inr (p, e) ↦ rw (e, update_participant) (found p e)
]

pub update_found :
    (alias : String) (fn : Update) (s : Session) (p : Participant)
    → lookup_participant alias s ≡ some p
    → update_participant alias fn s ≡ settle alias s (fn p)
update_found alias fn s p found =
    update_cases (λ r. r ≡ settle alias s (fn p)) alias fn s (λ e. cc)
      (λ q e. ap (λ r. settle alias s (fn r)) (some-injective _ _ (sym e ∙ found)))

-- `if err != nil && !errors.Is(err, errParticipantNotFound) { s.notifyParticipantInvariant(…) }`
abbrev pub report : String → Session × Option OperationError → Session
report alias (s, none) = s
report alias (s, some (participant_not_found _)) = s
report alias (s, some (invariant_broken heading e)) =
    notify_participant_invariant alias (wrapped_text heading e) [] s

abbrev pub changed : Participant → Participant → String → Event
changed p q alias =
    status_changed
      (record { alias = alias; from = p.view.status; to = q.view.status; since = q.view.since })

-- A method's outcome as the result of an update: its error under a heading, or the status event.
abbrev pub status_update :
    String
    → String
    → Participant
    → Participant × Option ParticipantError
    → Participant × Result OperationError (Option Event)
status_update alias heading p (q, some e) = (q, err (invariant_broken heading e))
status_update alias heading p (q, none) = (q, ok (some (changed p q alias)))

-- `Participants` and `HasAnyActivityParticipants` read the registry.
views : List Participant → List View
views [] = []
views (p ∷ ps) = p.view ∷ views ps

unfoldable pub participants : Session → List View
unfolding views list
participants s = views (list s.registry)
