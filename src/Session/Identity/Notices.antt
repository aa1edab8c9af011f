-- ===== src/Session/Identity/Notices.antt =====
-- internal/session: the turns' numbers across notices and the sends that they follow.
use coderoom.Prelude.Results.{Result, ok, err}
use coderoom.Prelude.{
  String, Bool, true, false, not, ◌||◌, Option, none, some, List, [], ◌∷◌, string_eq, nat_eq, refl,
  if_cases, ◌==◌,
}
use coderoom.Participant.{Participant, has_active_turn}
use coderoom.Session.Event.{shared_send_event, shared_notice_event}
use coderoom.Session.State.{Session, Outside, notify}
use coderoom.Session.Background.{steps}
use coderoom.Session.Sends.{
  Delivery, Target, SendError, CommandError, SharedSendPlan, acquire_found,
  acquire_participant_for_direct_send, acquire_participant_for_notice, notice_acquired,
  private_send, send_acquired, accept_notice, after_notice, notice_sent, notice_one,
  send_shared_notices, notices_follow, shared_send, with_deliveries, lookup_sendable_participant,
}
use coderoom.Session.Identity.{Sound, completed_turns}
use coderoom.Session.Identity.Updates.{notify-Sound, abort-Sound, track_anchor-Sound}
use coderoom.Session.Identity.Messages.{begin-Sound}
use coderoom.Session.Identity.Commands.{
  steps-Sound, send_prepared-Sound, acquire-Sound, gather-Sound,
}

notice_acquired-Sound : (x : Session × Option SendError) → Sound x.0 → Sound (notice_acquired x).0
notice_acquired-Sound (s, none) v = v
notice_acquired-Sound (s, some e) v = v

acquire_found-Sound :
    (alias : String) (r : Result SendError Participant) (s : Session)
    → Sound s
    → Sound (acquire_found alias r s).0
acquire_found-Sound alias (err e) s v = v
acquire_found-Sound alias (ok p) s v =
    if_cases (λ (x : Session × Result SendError Bool). Sound x.0) (has_active_turn p.view) (λ _. v)
      (λ _.
        notice_acquired-Sound (acquire_participant_for_direct_send alias s)
          (acquire-Sound alias s v))

pub acquire_notice-Sound :
    (alias : String) (s : Session) → Sound s → Sound (acquire_participant_for_notice alias s).0
unfolding acquire_participant_for_notice
acquire_notice-Sound alias s v = acquire_found-Sound alias (lookup_sendable_participant alias s) s v

send_acquired-Sound :
    (out : Outside) (alias : String) (d : Delivery) (x : Session × Option SendError)
    → Sound x.0
    → Sound (send_acquired out alias d x).0
send_acquired-Sound out alias d (s, some e) v = v
send_acquired-Sound out alias d (s, none) v = send_prepared-Sound out alias d s v

pub private_send-Sound :
    (out : Outside) (alias : String) (d : Delivery) (s : Session)
    → Sound s
    → Sound (private_send out (alias, d) s).0
unfolding private_send
private_send-Sound out alias d s v =
    send_acquired-Sound out alias d (acquire_participant_for_direct_send alias s)
      (acquire-Sound alias s v)

pub accept-Sound :
    (alias : String) (prepared : Bool) (anchor : String) (s : Session)
    → Sound s
    → Sound (accept_notice alias prepared anchor s)
accept-Sound alias true anchor s v = begin-Sound alias anchor s v
accept-Sound alias false anchor s v = track_anchor-Sound alias anchor s v

after_notice-Sound :
    (alias text : String) (prepared : Bool) (r : Result String String) (s : Session)
    → Sound s
    → Sound (after_notice alias text prepared r s).0
unfolding completed_turns
after_notice-Sound alias text prepared (ok anchor) s v =
    notify-Sound (shared_notice_event alias text) (accept_notice alias prepared anchor s) refl
      (accept-Sound alias prepared anchor s v)
after_notice-Sound alias text prepared (err e) s v = abort-Sound alias s v

notice_sent-Sound :
    (out : Outside) (text alias : String) (d : Delivery) (x : Session × Result SendError Bool)
    → Sound x.0
    → Sound (notice_sent out text alias d x).0
notice_sent-Sound out text alias d (s, err e) v = v
notice_sent-Sound out text alias d (s, ok prepared) v =
    after_notice-Sound alias text prepared d.outcome (steps out d.meanwhile s)
      (steps-Sound out d.meanwhile s v)

notice_one-Sound :
    (out : Outside) (text alias : String) (d : Delivery) (s : Session)
    → Sound s
    → Sound (notice_one out text (alias, d) s).0
unfolding notice_one
notice_one-Sound out text alias d s v =
    notice_sent-Sound out text alias d (acquire_participant_for_notice alias s)
      (acquire_notice-Sound alias s v)

notices-Sound :
    (out : Outside) (text : String) (ts : List Target) (s : Session)
    → Sound s
    → Sound (send_shared_notices out text ts s).0
unfolding send_shared_notices
notices-Sound out text [] s v = v
notices-Sound out text ((alias, d) ∷ ts) s v =
    let (s', e) = notice_one out text (alias, d) s in
    gather-Sound alias e (send_shared_notices out text ts s')
      (notices-Sound out text ts s' (notice_one-Sound out text alias d s v))

notices_follow-Sound :
    (out : Outside) (alias : String) (ts : List Target) (direct listeners : String)
    (x : Session × Option SendError)
    → Sound x.0
    → Sound (notices_follow out alias ts direct listeners x).0
unfolding completed_turns
notices_follow-Sound out alias ts direct listeners (s, some e) v = v
notices_follow-Sound out alias ts direct listeners (s, none) v =
    notices-Sound out listeners ts (notify (shared_send_event alias direct) s)
      (notify-Sound (shared_send_event alias direct) s refl v)

pub shared_send-Sound :
    (out : Outside) (plan : SharedSendPlan) (d : Delivery) (deliver : String → Delivery)
    (direct listeners : String) (s : Session)
    → Sound s
    → Sound (shared_send out plan d deliver direct listeners s).0
unfolding shared_send
shared_send-Sound out plan d deliver direct listeners s v =
    if_cases (λ (x : Session × Option CommandError). Sound x.0)
      (not plan.bound || plan.addressed_alias == "") (λ _. v)
      (λ _.
        notices_follow-Sound out plan.addressed_alias
          (with_deliveries deliver plan.listener_aliases) direct listeners
          (private_send out (plan.addressed_alias, d) s)
          (private_send-Sound out plan.addressed_alias d s v))
