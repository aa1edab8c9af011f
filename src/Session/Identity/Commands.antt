-- ===== src/Session/Identity/Commands.antt =====
-- internal/session: the turns' numbers across the steps beside the commands, and across the sends.
use coderoom.Prelude.Results.{Result, ok, err}
use coderoom.Prelude.{
  String, Option, none, some, List, [], ◌∷◌, inl, inr, string_eq, nat_eq, refl, Option-cases,
  if_cases, is_none,
}
use coderoom.Participant.{sendable}
use coderoom.Session.Event.{broadcast_event}
use coderoom.Session.State.{
  Session, Outside, OperationError, participant_not_found, invariant_broken, notify,
  lookup_participant,
}
use coderoom.Session.Background.{
  Step, message, read_error, attached_agent, committed, readied, start_failed, swept,
  keepalive_error, time_passed, step, steps,
}
use coderoom.Session.Turns.{prepare_participant_for_work}
use coderoom.Session.Sends.{
  Delivery, Target, SendError, report_prepare, after_send, send_prepared_direct, broadcast_prepared,
  broadcast_one, Gathered, gather, broadcast_loop, broadcast, check_acquired, acquire_prepared,
  acquire_participant_for_direct_send,
}
use coderoom.Session.Identity.{Sound, completed_turns}
use coderoom.Session.Identity.Updates.{notify-Sound, complain-Sound, prepare-Sound, abort-Sound}
use coderoom.Session.Identity.Messages.{begin-Sound, handle_agent_message-Sound}
use coderoom.Session.Identity.Lifecycle.{
  startup_attach-Sound, startup_commit-Sound, startup_ready-Sound, start_error-Sound,
  read_error-Sound, sweep-Sound, keepalive_failed-Sound,
}

pub step-Sound : (out : Outside) (t : Step) (s : Session) → Sound s → Sound (step out t s)
unfolding step
step-Sound out (message alias msg) s v = handle_agent_message-Sound out alias msg s v
step-Sound out (read_error stop alias) s v = read_error-Sound stop alias s v
step-Sound out (attached_agent alias agent) s v = startup_attach-Sound alias agent s v
step-Sound out (committed alias from) s v = startup_commit-Sound alias from s v
step-Sound out (readied alias) s v = startup_ready-Sound out alias s v
step-Sound out (start_failed alias text) s v = start_error-Sound alias text s v
step-Sound out (swept schedule) s v = sweep-Sound schedule s v
step-Sound out (keepalive_error alias text) s v = keepalive_failed-Sound alias text s v
step-Sound out (time_passed now) s v = v

pub steps-Sound : (out : Outside) (ts : List Step) (s : Session) → Sound s → Sound (steps out ts s)
unfolding steps
steps-Sound out [] s v = v
steps-Sound out (t ∷ ts) s v = steps-Sound out ts (step out t s) (step-Sound out t s v)

after_send-Sound :
    (alias : String) (r : Result String String) (s : Session)
    → Sound s
    → Sound (after_send alias r s).0
after_send-Sound alias (ok anchor) s v = begin-Sound alias anchor s v
after_send-Sound alias (err text) s v = abort-Sound alias s v

pub send_prepared-Sound :
    (out : Outside) (alias : String) (d : Delivery) (s : Session)
    → Sound s
    → Sound (send_prepared_direct out alias d s).0
unfolding send_prepared_direct
send_prepared-Sound out alias d s v =
    after_send-Sound alias d.outcome (steps out d.meanwhile s) (steps-Sound out d.meanwhile s v)

report_prepare-Sound :
    (alias : String) (e : OperationError) (s : Session) → Sound s → Sound (report_prepare alias e s)
report_prepare-Sound alias (participant_not_found _) s v = v
report_prepare-Sound alias (invariant_broken heading e) s v = complain-Sound alias _ [] s v

broadcast_prepared-Sound :
    (out : Outside) (alias : String) (d : Delivery) (x : Session × Option OperationError)
    → Sound x.0
    → Sound (broadcast_prepared out alias d x).0
broadcast_prepared-Sound out alias d (s, some e) v = report_prepare-Sound alias e s v
broadcast_prepared-Sound out alias d (s, none) v = send_prepared-Sound out alias d s v

broadcast_one-Sound :
    (out : Outside) (alias : String) (d : Delivery) (s : Session)
    → Sound s
    → Sound (broadcast_one out (alias, d) s).0
unfolding broadcast_one
broadcast_one-Sound out alias d s v =
    if_cases (λ (x : Session × Option SendError). Sound x.0) (is_none (lookup_participant alias s))
      (λ _. v)
      (λ _.
        broadcast_prepared-Sound out alias d (prepare_participant_for_work alias s)
          (prepare-Sound alias s v))

pub gather-Sound :
    (alias : String) (e : Option SendError) (g : Gathered) → Sound g.0 → Sound (gather alias e g).0
gather-Sound alias none (s, delivered, errs) v = v
gather-Sound alias (some e) (s, delivered, errs) v = v

broadcast_loop-Sound :
    (out : Outside) (ts : List Target) (s : Session) → Sound s → Sound (broadcast_loop out ts s).0
unfolding broadcast_loop
broadcast_loop-Sound out [] s v = v
broadcast_loop-Sound out ((alias, d) ∷ ts) s v =
    let (s', e) = broadcast_one out (alias, d) s in
    gather-Sound alias e (broadcast_loop out ts s')
      (broadcast_loop-Sound out ts s' (broadcast_one-Sound out alias d s v))

pub broadcast-Sound :
    (out : Outside) (ts : List Target) (text : String) (s : Session)
    → Sound s
    → Sound (broadcast out ts text s).0
unfolding broadcast completed_turns
broadcast-Sound out ts text s v =
    broadcast_loop-Sound out ts (notify (broadcast_event text) s)
      (notify-Sound (broadcast_event text) s refl v)

acquire_prepared-Sound :
    (alias : String) (x : Session × Option OperationError)
    → Sound x.0
    → Sound (acquire_prepared alias x).0
acquire_prepared-Sound alias (s, none) v = elim (Option-cases (lookup_participant alias s)) [
  | inl e ↦ rw (e, acquire_prepared, check_acquired) v
  | inr (p, e) ↦
      rw (e, acquire_prepared, check_acquired)
        (if_cases (λ (x : Session × Option SendError). Sound x.0) (sendable p) (λ _. v) (λ _. v))
]
acquire_prepared-Sound alias (s, some (participant_not_found _)) v = v
acquire_prepared-Sound alias (s, some (invariant_broken heading e)) v =
    complain-Sound alias _ [] s v

pub acquire-Sound :
    (alias : String) (s : Session) → Sound s → Sound (acquire_participant_for_direct_send alias s).0
unfolding acquire_participant_for_direct_send
acquire-Sound alias s v =
    acquire_prepared-Sound alias (prepare_participant_for_work alias s) (prepare-Sound alias s v)
