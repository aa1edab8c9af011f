-- ===== src/Session/Identity/Updates.antt =====
-- internal/session/session.go: the turns' numbers across one update of a participant.
use coderoom.Prelude.Results.{Result, ok, err}
use coderoom.Prelude.{
  ℕ, ◌≡◌, String, true, not, Option, none, some, List, [], ◌∷◌, ◌++◌, arith, string_eq, nat_eq, sym,
  subst, refl, ap, if_cases, ◌∙◌, ◌==◌,
}
use mathlib.Core.List.{append-nil}
use coderoom.Participant.{
  Participant, View, ParticipantError, prepare_for_work, abort_work, track_stream, close_stream,
  finish_keepalive, has_active_turn, status_is, keepalive,
}
use coderoom.Participant.Registry.{get}
use coderoom.Session.Event.{Event, agent_message, agent_starting}
use coderoom.Session.State.{
  Session, OperationError, participant_not_found, invariant_broken, Update, notify, put_participant,
  lookup_participant, update_participant, update_cases, settle, report, status_update,
  notify_participant_invariant,
}
use coderoom.Session.Turns.{
  prepare_participant_for_work, begin_participant_working, next_turn_id, track_anchor_stream,
  finish_participant_keepalive, prepare_update, begin_update, abort_update, quiet_update,
  keepalive_update, count_turn,
}
use coderoom.Session.Turns
use coderoom.Session.Identity.{Sound, Plain, TurnInv, completed_turns, is_working, put-TurnInv}

pub completed_turns-append :
    (es : List Event) (e : Event)
    → completed_turns (es ++ e ∷ []) ≡ completed_turns es ++ completed_turns (e ∷ [])
unfolding completed_turns
completed_turns-append [] e = refl
completed_turns-append (agent_message m ∷ es) e = ground (arith, completed_turns-append es e)
completed_turns-append (agent_starting a ∷ es) e = completed_turns-append es e
completed_turns-append (_ ∷ es) e = completed_turns-append es e

pub completed_turns-Plain :
    (es : List Event) (e : Event) → Plain e → completed_turns (es ++ e ∷ []) ≡ completed_turns es
completed_turns-Plain es e plain =
    completed_turns-append es e
    ∙ ap (λ l. completed_turns es ++ l) plain
    ∙ append-nil (completed_turns es)

pub notify-Sound : (e : Event) (s : Session) → Plain e → Sound s → Sound (notify e s)
unfolding notify
notify-Sound e s plain v =
    subst (λ l. TurnInv s.registry.participants s.last_turn_id l)
      (sym (completed_turns-Plain s.events e plain)) v

pub complain-Sound :
    (alias text : String) (details : List String) (s : Session)
    → Sound s
    → Sound (notify_participant_invariant alias text details s)
unfolding notify_participant_invariant completed_turns
complain-Sound alias text details s v = notify-Sound _ s refl v

abbrev pub PlainResult : Result OperationError (Option Event) → Type 0
PlainResult (ok (some e)) = Plain e
PlainResult (ok none) = Unit {0}
PlainResult (err e) = Unit {0}

-- An update that begins no turn, and reports none.
abbrev pub Keeps : Participant → Participant × Result OperationError (Option Event) → Type 0
Keeps p (q, r) =
    (q.view.turn_id ≡ p.view.turn_id) × (is_working q ≡ true → is_working p ≡ true) × PlainResult r

pub put-Sound :
    (alias : String) (p q : Participant) (s : Session)
    → lookup_participant alias s ≡ some p
    → q.view.turn_id ≡ p.view.turn_id
    → (is_working q ≡ true → is_working p ≡ true)
    → Sound s
    → Sound (put_participant alias q s)
unfolding lookup_participant get
put-Sound alias p q s found same kept v =
    put-TurnInv s.registry.participants s.last_turn_id (completed_turns s.events) v alias q
      (omega (arith, v.numbered alias p found)) (λ w. (p, found, kept w, sym same))

settle-Sound :
    (alias : String) (s : Session) (p : Participant)
    (x : Participant × Result OperationError (Option Event))
    → lookup_participant alias s ≡ some p
    → Keeps p x
    → Sound s
    → Sound (settle alias s x).0
settle-Sound alias s p (q, ok none) found k v = put-Sound alias p q s found k.0 k.1 v
settle-Sound alias s p (q, ok (some e)) found k v =
    notify-Sound e (put_participant alias q s) k.2 (put-Sound alias p q s found k.0 k.1 v)
settle-Sound alias s p (q, err e) found k v = put-Sound alias p q s found k.0 k.1 v

pub update-Sound :
    (alias : String) (fn : Update) (s : Session)
    → ((p : Participant) → Keeps p (fn p))
    → Sound s
    → Sound (update_participant alias fn s).0
update-Sound alias fn s keeps v =
    update_cases (λ r. Sound r.0) alias fn s (λ _. v)
      (λ p found. settle-Sound alias s p (fn p) found (keeps p) v)

pub report-Sound :
    (alias : String) (r : Session × Option OperationError) → Sound r.0 → Sound (report alias r)
report-Sound alias (s, none) v = v
report-Sound alias (s, some (participant_not_found _)) v = v
report-Sound alias (s, some (invariant_broken heading e)) v = complain-Sound alias _ [] s v

pub status_update-Keeps :
    (alias heading : String) (p : Participant) (x : Participant × Option ParticipantError)
    → x.0.view.turn_id ≡ p.view.turn_id
    → (is_working x.0 ≡ true → is_working p ≡ true)
    → Keeps p (status_update alias heading p x)
unfolding completed_turns
status_update-Keeps alias heading p (q, none) same kept = (same, kept, refl)
status_update-Keeps alias heading p (q, some e) same kept = (same, kept, tt)

prepare_update-Keeps :
    (alias : String) (now : ℕ) (p : Participant) → Keeps p (prepare_update alias now p)
unfolding prepare_for_work
prepare_update-Keeps alias now p =
    if_cases (Keeps p) (not p.view.startup_ready) (λ _. (refl, λ w. w, tt))
      (λ _. status_update-Keeps alias _ p _ (ground arith) (λ w. ground arith))

pub prepare-Sound :
    (alias : String) (s : Session) → Sound s → Sound (prepare_participant_for_work alias s).0
unfolding prepare_participant_for_work
prepare-Sound alias s v = update-Sound alias _ s (prepare_update-Keeps alias s.clock) v

abort_update-Keeps :
    (alias : String) (now : ℕ) (p : Participant) → Keeps p (abort_update alias now p)
unfolding abort_work
abort_update-Keeps alias now p =
    if_cases (Keeps p) (not (has_active_turn p.view)) (λ _. (refl, λ w. w, tt))
      (λ _. status_update-Keeps alias _ p _ (ground arith) (λ w. ground arith))

pub abort-Sound : (alias : String) (s : Session) → Sound s → Sound (Turns.abort_work alias s)
unfolding Turns.abort_work
abort-Sound alias s v =
    report-Sound alias _ (update-Sound alias _ s (abort_update-Keeps alias s.clock) v)

keepalive_update-Keeps :
    (alias : String) (now : ℕ) (p : Participant) → Keeps p (keepalive_update alias now p)
unfolding finish_keepalive
keepalive_update-Keeps alias now p =
    if_cases (Keeps p) (not (status_is p.view.status keepalive)) (λ _. (refl, λ w. w, tt))
      (λ _. status_update-Keeps alias _ p _ (ground arith) (λ w. ground arith))

pub finish_keepalive-Sound :
    (alias : String) (s : Session) → Sound s → Sound (finish_participant_keepalive alias s)
unfolding finish_participant_keepalive
finish_keepalive-Sound alias s v =
    report-Sound alias _ (update-Sound alias _ s (keepalive_update-Keeps alias s.clock) v)

pub quiet_update-Keeps :
    (p : Participant) (x : Participant × Option ParticipantError)
    → x.0.view.turn_id ≡ p.view.turn_id
    → (is_working x.0 ≡ true → is_working p ≡ true)
    → Keeps p (quiet_update x)
quiet_update-Keeps p (q, some e) same kept = (same, kept, tt)
quiet_update-Keeps p (q, none) same kept = (same, kept, tt)

pub track_stream_view : (id : String) (p : Participant) → (track_stream id p).0.view ≡ p.view
unfolding track_stream
track_stream_view id p = ground arith

pub close_stream_view : (id : String) (p : Participant) → (close_stream id p).0.view ≡ p.view
unfolding close_stream
close_stream_view id p = ground arith

pub track_anchor-Sound :
    (alias id : String) (s : Session) → Sound s → Sound (track_anchor_stream alias id s)
unfolding track_anchor_stream
track_anchor-Sound alias id s v =
    if_cases Sound (id == "") (λ _. v)
      (λ _. report-Sound alias _ (
        update-Sound alias _ s
          (λ p.
            quiet_update-Keeps p (track_stream id p)
              (ap (λ (w : View). w.turn_id) (track_stream_view id p))
              (λ k. ground (arith, track_stream_view id p)))
          v))
