-- ===== src/Session/Tests.antt =====
-- internal/session: the session at concrete inputs.
use coderoom.Prelude.Dict
use coderoom.Prelude.Sets
use coderoom.Prelude.Results.{ok}
use coderoom.Prelude.{
  ◌≡◌, String, true, false, some, List, [], ◌∷◌, ◌++◌, refl, if◌then◌else◌, string_eq, nat_eq,
}
use coderoom.Participant.{Participant, idle, starting, working, manual}
use coderoom.Participant.{
  attach_agent, commit_idle, session_ready, prepare_for_work, begin_working, close_stream,
  become_idle, new_participant, begin_startup,
}
use coderoom.Participant.Registry.{get, new_registry}
use coderoom.Participant.Registry.Colors.{next}
use coderoom.Agent.{Message, flush, output_content}
use coderoom.Session.State.{Session, Outside, new_session, lookup_participant}
use coderoom.Session.Background.{message, attached_agent, committed, readied, step}
use coderoom.Session.History.{Move, beside, invites, sends_privately, moves}
use coderoom.Session.Turns.{handle_agent_message, next_turn_id}
use coderoom.Session.Sends.{private_send}
use coderoom.Session.Runtime.{startup_attach, startup_commit, startup_ready}
use coderoom.Session.Commands.{invite}
use coderoom.Session.Identity.{Distinct, completed_turns, is_working}
use coderoom.Session.Identity.Reported.{turns_reported_once}
use coderoom.Session.Completion.{closes_anchor}
use coderoom.Session.Completion.Exact.{message_reports_turn}

abbrev outside : Outside
outside = record {
  participant_color = λ index attempt. "#4ade80";
  color_attempts = 1;
  quote = λ text. text;
  summarize = λ msg. "message";
}

abbrev last_words : Message
last_words = record { stream_id = "t1"; mode = flush; content = output_content "done" }

-- One participant is started, takes a turn with the anchor "t1", and ends it.
abbrev one_turn : List Move
one_turn =
    invites "amy" (ok (record { alias = "amy"; role = "" })) true
    ∷ beside (attached_agent "amy" 7)
    ∷ beside (committed "amy" starting)
    ∷ beside (readied "amy")
    ∷ sends_privately ("amy", record { meanwhile = []; outcome = ok "t1" })
    ∷ []

one_turn_reported :
    completed_turns
      (moves outside (one_turn ++ beside (message "amy" last_words) ∷ []) (new_session true)).events
    ≡ 1 ∷ []
unfolding completed_turns moves step handle_agent_message Dict.get private_send startup_ready
    startup_commit startup_attach invite new_session new_registry next Sets.contains Dict.put
    attach_agent commit_idle session_ready prepare_for_work begin_working close_stream become_idle
    new_participant begin_startup Sets.insert Sets.remove next_turn_id
one_turn_reported = refl

turns_reported_once_example :
    let s = moves outside (one_turn ++ beside (message "amy" last_words) ∷ []) (new_session true) in
    Distinct (completed_turns s.events)
    × ((alias : String) (p : Participant)
        → lookup_participant alias s ≡ some p
        → is_working p ≡ true
        → Sets.contains (completed_turns s.events) p.view.turn_id ≡ false)
turns_reported_once_example =
    turns_reported_once outside (one_turn ++ beside (message "amy" last_words) ∷ []) true

-- "amy" works on turn 5.
abbrev amy : Participant
amy = record {
  view = record {
    alias = "amy";
    role = "";
    initiative = manual;
    status = working;
    color = "";
    since = 0;
    startup_ready = true;
    turn_id = 5;
  };
  agent = some 7;
  open_streams = "t1" ∷ [];
  anchor = "t1";
}

abbrev at_work : Session
at_work = record s { registry = record s.registry { participants = ("amy", amy) ∷ [] } }
  where
    s : Session
    s = new_session true

at_work-amy : lookup_participant "amy" at_work ≡ some amy
unfolding lookup_participant get Dict.get
at_work-amy = refl

message_reports_turn_example :
    let s' = handle_agent_message outside "amy" last_words at_work in
    (completed_turns s'.events
      ≡ completed_turns at_work.events ++ (if closes_anchor last_words amy then 5 ∷ [] else []))
    × (closes_anchor last_words amy ≡ true
        → (q : Participant) × (lookup_participant "amy" s' ≡ some q)
          × (q.view.status ≡ idle)
          × (q.open_streams ≡ []))
message_reports_turn_example =
    message_reports_turn outside "amy" last_words amy at_work at_work-amy (λ e. cc)
