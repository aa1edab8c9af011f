-- ===== src/Session/Identity/Reported.antt =====
-- internal/session: the turns' numbers across handoffs and invitations, and over a history.
use coderoom.Prelude.Dict
use coderoom.Prelude.Sets
use coderoom.Prelude.Results.{Result, ok, err}
use coderoom.Prelude.{
  ℕ, ◌≡◌, String, Bool, true, false, not, ◌&&◌, Option, none, some, List, [], ◌∷◌, inl, inr, ◌⊎◌,
  arith, string_eq, nat_eq, sym, subst, refl, if◌then◌else◌, Option-cases, Bool-cases, if_cases,
  ◌==◌, is_some,
}
use coderoom.Policy.{enabled, echo_invites}
use coderoom.Participant.{Participant, unset}
use coderoom.Participant.Registry.{Registry, RegistryError, add, with_color, get, new_registry}
use coderoom.Participant.Registry.Colors.{next}
use coderoom.Session.Event.{agent_log, agent_starting, status_changed}
use coderoom.Session.State.{Session, AgentRuntime, Outside, notify, lookup_participant, new_session}
use coderoom.Session.Background.{steps}
use coderoom.Session.Turns.{abort_work}
use coderoom.Session.Runtime.{
  create_agent_runtime, create_agent_context, runtime_of, cancel_all, cancel_context, or_empty,
  cancel_all_agent_contexts, shutdown,
}
use coderoom.Session.Sends.{Delivery, SendError, acquire_participant_for_notice, accept_notice}
use coderoom.Session.Handoff.{
  HandoffCommand, HandoffError, after_handoff_notice, handoff_acquired, deliver_handoff,
  handoff_checked, handoff, reject_handoff_attempt, notify_handoff_delivered, handoff_event,
  validate_handoff, new_handoff_attempt, send_error_text,
}
use coderoom.Session.Commands.{
  ParticipantConfig, InviteError, build_participant, invited, invite_added, invite_resolved, invite,
  EnableError, enable_policy,
}
use coderoom.Session.History.{
  Move, beside, invites, removes, enables, broadcasts, sends_privately, sends_shared, hands_off,
  shuts_down, invited_or_stuck, move, moves,
}
use coderoom.Session.Handoff.Text.{
  HandoffAttempt, compact_handoff_reason, format_handoff_attempt_log,
}
use coderoom.Session.Identity.{Sound, TurnInv, Distinct, completed_turns, put-TurnInv, is_working}
use coderoom.Session.Identity.Updates.{notify-Sound, abort-Sound}
use coderoom.Session.Identity.Lifecycle.{remove_command-Sound, cancel_context-Sound}
use coderoom.Session.Identity.Commands.{steps-Sound, step-Sound, broadcast-Sound}
use coderoom.Session.Identity.Notices.{
  acquire_notice-Sound, private_send-Sound, accept-Sound, shared_send-Sound,
}

reject-Sound :
    (a : HandoffAttempt) (reason : String) (s : Session)
    → Sound s
    → Sound (reject_handoff_attempt a reason s)
unfolding reject_handoff_attempt completed_turns
reject-Sound a reason s v =
    notify-Sound
      (agent_log ""
        (format_handoff_attempt_log "rejected" a a.busy_ones (compact_handoff_reason reason)))
      s refl v

delivered-Sound :
    (a : HandoffAttempt) (s : Session) → Sound s → Sound (notify_handoff_delivered a s)
unfolding notify_handoff_delivered completed_turns
delivered-Sound a s v =
    notify-Sound (agent_log "" (format_handoff_attempt_log "accepted" a [] ""))
      (notify (handoff_event a) s) refl (notify-Sound (handoff_event a) s refl v)

after_handoff-Sound :
    (out : Outside) (a : HandoffAttempt) (prepared : Bool) (r : Result String String) (s : Session)
    → Sound s
    → Sound (after_handoff_notice out a prepared r s).0
after_handoff-Sound out a prepared (ok anchor) s v =
    delivered-Sound a (accept_notice a.to_alias prepared anchor s)
      (accept-Sound a.to_alias prepared anchor s v)
after_handoff-Sound out a prepared (err text) s v =
    reject-Sound a text (abort_work a.to_alias s) (abort-Sound a.to_alias s v)

handoff_acquired-Sound :
    (out : Outside) (a : HandoffAttempt) (d : Delivery) (x : Session × Result SendError Bool)
    → Sound x.0
    → Sound (handoff_acquired out a d x).0
handoff_acquired-Sound out a d (s, err e) v = reject-Sound a (send_error_text out e) s v
handoff_acquired-Sound out a d (s, ok prepared) v =
    after_handoff-Sound out a prepared d.outcome (steps out d.meanwhile s)
      (steps-Sound out d.meanwhile s v)

handoff_checked-Sound :
    (out : Outside) (a : HandoffAttempt) (d : Delivery) (refused : Option (String × HandoffError))
    (s : Session)
    → Sound s
    → Sound (handoff_checked out a d refused s).0
unfolding deliver_handoff
handoff_checked-Sound out a d (some (reason, e)) s v = reject-Sound a reason s v
handoff_checked-Sound out a d none s v =
    handoff_acquired-Sound out a d (acquire_participant_for_notice a.to_alias s)
      (acquire_notice-Sound a.to_alias s v)

handoff-Sound :
    (out : Outside) (c : HandoffCommand) (d : Delivery) (s : Session)
    → Sound s
    → Sound (handoff out c d s).0
unfolding handoff
handoff-Sound out c d s v =
    let a = new_handoff_attempt c s in handoff_checked-Sound out a d (validate_handoff c a) s v

runtime-Sound : (alias : String) (s : Session) → Sound s → Sound (create_agent_runtime alias s)
unfolding create_agent_runtime
runtime-Sound alias s v = if_cases Sound (is_some (runtime_of alias s)) (λ _. v) (λ _. v)

context-Sound : (alias : String) (s : Session) → Sound s → Sound (create_agent_context alias s)
unfolding create_agent_context
context-Sound alias s v = cancel_context-Sound (or_empty (runtime_of alias s)).agent_cancel s v

invited-Sound :
    (alias : String) (p : Participant) (makes_context : Bool) (s : Session)
    → Sound s
    → Sound (invited alias p makes_context s)
unfolding completed_turns
invited-Sound alias p makes_context s v =
    let prepared = create_agent_runtime alias (record s { has_invited = true }) in
    let built = if makes_context then create_agent_context alias prepared else prepared in
    let vp : Sound prepared = runtime-Sound alias (record s { has_invited = true }) v in
    let vb : Sound built =
      if_cases Sound makes_context (λ _. context-Sound alias prepared vp) (λ _. vp) in
    let e =
      status_changed
        (record { alias = alias; from = unset; to = p.view.status; since = p.view.since }) in
    notify-Sound (agent_starting alias) (notify e built) refl (notify-Sound e built refl vb)

-- What `add` does to the participants.
add_participants :
    (color : ℕ → ℕ → String) (attempts : ℕ) (p : Participant) (r r' : Registry)
    (e : Option RegistryError)
    → add color attempts (some p) r ≡ some (r', e)
    → (r'.participants ≡ r.participants)
      ⊎ ((c : String) × (r'.participants ≡ Dict.put p.view.alias (with_color c p) r.participants))
unfolding add
add_participants color attempts p r r' e done = elim (Bool-cases (p.view.alias == "")) [
  | inl t ↦ inl (ground arith)
  | inr t ↦ elim (Bool-cases (is_some (Dict.get p.view.alias r.participants))) [
    | inl taken ↦ inl (ground arith)
    | inr free ↦ elim (Option-cases (next color attempts r.colors)) [
      | inl none_left ↦ inl (ground arith)
      | inr ((c, cs), chosen) ↦ inr (c, ground arith)
    ]
  ]
]

-- A new participant is not working, so that it may stand under any alias.
add-Sound :
    (color : ℕ → ℕ → String) (attempts : ℕ) (p : Participant) (s : Session) (r : Registry)
    (e : Option RegistryError)
    → is_working p ≡ false
    → p.view.turn_id ≡ 0
    → add color attempts (some p) s.registry ≡ some (r, e)
    → Sound s
    → Sound (record s { registry = r })
add-Sound color attempts p s r e idle zero done v =
    elim (add_participants color attempts p s.registry r e done) [
      | inl same ↦ subst (λ m. TurnInv m s.last_turn_id (completed_turns s.events)) (sym same) v
      | inr (c, put) ↦
          subst (λ m. TurnInv m s.last_turn_id (completed_turns s.events)) (sym put)
            (put-TurnInv s.registry.participants s.last_turn_id (completed_turns s.events) v
              p.view.alias (with_color c p) (omega arith) (λ w. absurd (ground arith)))
    ]

invite_added-Sound :
    (alias : String) (p : Participant) (makes_context : Bool) (s : Session)
    (x : Registry × Option RegistryError)
    → Sound (record s { registry = x.0 })
    → Sound (invite_added alias p makes_context s x).0
invite_added-Sound alias p makes_context s (r, some e) v = v
invite_added-Sound alias p makes_context s (r, none) v =
    invited-Sound alias p makes_context (record s { registry = r }) v

build_participant_idle :
    (cfg : ParticipantConfig) (s : Session)
    → (is_working (build_participant cfg s) ≡ false) × ((build_participant cfg s).view.turn_id ≡ 0)
unfolding build_participant
build_participant_idle cfg s = (refl, refl)

invite_resolved-Sound :
    (out : Outside) (alias : String) (config : Result String ParticipantConfig)
    (makes_context : Bool) (s : Session)
    → Sound s
    → Sound (invited_or_stuck s (invite_resolved out alias config makes_context s))
invite_resolved-Sound out alias (err text) makes_context s v = v
invite_resolved-Sound out alias (ok cfg) makes_context s v =
    let p = build_participant cfg s in
    elim (Option-cases (add out.participant_color out.color_attempts (some p) s.registry)) [
      | inl stuck ↦ rw stuck v
      | inr ((r, e), done) ↦ rw done (
          invite_added-Sound alias p makes_context s (r, e)
            (add-Sound out.participant_color out.color_attempts p s r e
              (build_participant_idle cfg s).0 (build_participant_idle cfg s).1 done v))
    ]

invite-Sound :
    (out : Outside) (alias : String) (config : Result String ParticipantConfig)
    (makes_context : Bool) (s : Session)
    → Sound s
    → Sound (invited_or_stuck s (invite out alias config makes_context s))
unfolding invite
invite-Sound out alias config makes_context s v =
    if_cases (λ (x : Option (Session × Option InviteError)). Sound (invited_or_stuck s x))
      (not s.has_factory) (λ _. v) (λ _. invite_resolved-Sound out alias config makes_context s v)

enable-Sound : (name : String) (s : Session) → Sound s → Sound (enable_policy name s).0
unfolding enable_policy
enable-Sound name s v =
    if_cases (λ (x : Session × Option EnableError). Sound x.0)
      ((name == echo_invites) && (s.has_invited && not (enabled echo_invites s.policies))) (λ _. v)
      (λ _. v)

cancel_all-Sound : (rs : List AgentRuntime) (s : Session) → Sound s → Sound (cancel_all rs s)
cancel_all-Sound [] s v = v
cancel_all-Sound (r ∷ rs) s v =
    cancel_all-Sound rs (cancel_context r.agent_cancel s) (cancel_context-Sound r.agent_cancel s v)

shutdown-Sound : (s : Session) → Sound s → Sound (shutdown s).0
unfolding shutdown cancel_all_agent_contexts
shutdown-Sound s v =
    if_cases (λ (x : Session × List ℕ). Sound x.0) s.shut_down (λ _. v)
      (λ _. cancel_all-Sound (Dict.values s.agents) (record s { shut_down = true; agents = [] }) v)

move-Sound : (out : Outside) (m : Move) (s : Session) → Sound s → Sound (move out m s)
unfolding move
move-Sound out (beside t) s v = step-Sound out t s v
move-Sound out (invites alias config makes_context) s v =
    invite-Sound out alias config makes_context s v
move-Sound out (removes alias stop) s v = remove_command-Sound alias stop s v
move-Sound out (enables name) s v = enable-Sound name s v
move-Sound out (broadcasts ts text) s v = broadcast-Sound out ts text s v
move-Sound out (sends_privately (alias, d)) s v = private_send-Sound out alias d s v
move-Sound out (sends_shared plan d deliver direct listeners) s v =
    shared_send-Sound out plan d deliver direct listeners s v
move-Sound out (hands_off c d) s v = handoff-Sound out c d s v
move-Sound out shuts_down s v = shutdown-Sound s v

moves-Sound : (out : Outside) (ms : List Move) (s : Session) → Sound s → Sound (moves out ms s)
unfolding moves
moves-Sound out [] s v = v
moves-Sound out (m ∷ ms) s v = moves-Sound out ms (move out m s) (move-Sound out m s v)

new_session-Sound : (has_factory : Bool) → Sound (new_session has_factory)
unfolding new_session completed_turns Dict.get Sets.contains new_registry
new_session-Sound has_factory = record {
  bounded = omega arith;
  numbered = λ a p h. cc;
  apart = λ a b p q h k w x e. cc;
  unreported = λ a p h w. cc;
  past = λ n h. cc;
  once = tt;
}

-- After any commands and any steps beside them, a restart of a participant included, no turn has been
-- reported as completed twice, and no turn that a participant works on has been reported.
pub turns_reported_once :
    (out : Outside) (ms : List Move) (has_factory : Bool)
    → let s = moves out ms (new_session has_factory) in
      Distinct (completed_turns s.events)
      × ((alias : String) (p : Participant)
          → lookup_participant alias s ≡ some p
          → is_working p ≡ true
          → Sets.contains (completed_turns s.events) p.view.turn_id ≡ false)
unfolding lookup_participant get
turns_reported_once out ms has_factory =
    let v = moves-Sound out ms (new_session has_factory) (new_session-Sound has_factory) in
    (v.once, v.unreported)

-- After any commands and any steps beside them, no two participants work on one turn.
pub turns_apart :
    (out : Outside) (ms : List Move) (has_factory : Bool)
    → let s = moves out ms (new_session has_factory) in
      (a b : String) (p q : Participant)
      → lookup_participant a s ≡ some p
      → lookup_participant b s ≡ some q
      → is_working p ≡ true
      → is_working q ≡ true
      → p.view.turn_id ≡ q.view.turn_id
      → a ≡ b
unfolding lookup_participant get
turns_apart out ms has_factory =
    (moves-Sound out ms (new_session has_factory) (new_session-Sound has_factory)).apart
