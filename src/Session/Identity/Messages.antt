-- ===== src/Session/Identity/Messages.antt =====
-- internal/session/session.go: the turns' numbers when a turn begins, and when a message ends it.
use coderoom.Prelude.Dict
use coderoom.Prelude.Sets
use coderoom.Prelude.{
  ℕ, ◌+◌, ◌≤◌, ◌≡◌, ◌≢◌, ◌<◌, String, Bool, true, false, not, ◌&&◌, Option, none, some, [], inl,
  inr, arith, string_eq, nat_eq, subst, refl, Option-cases, if_cases, ◌==◌, is_none,
}
use coderoom.Participant.{
  Participant, ParticipantError, status_is, preparing, turn_open, working, stream_not_tracked,
  begin_working, become_idle,
}
use coderoom.Participant.Registry.{get}
use coderoom.Agent.{
  Message, MessageContent, Mode, stream, flush, single, log_content, keep_alive_content,
}
use coderoom.Session.Event.{agent_log}
use coderoom.Session.State.{
  Session, Outside, notify, put_participant, lookup_participant, update_cases, settle, report,
  status_update, changed,
}
use coderoom.Session.Turns.{
  begin_participant_working, next_turn_id, count_turn, mark_idle, turn_of,
  note_working_stream_message, note_tracked, note_closed, note_mode, complain_of_close,
  apply_turn_lifecycle, settle_turn, lifecycle_of_mode, deliver_message, handle_content,
  handle_agent_message, is_turn_content, should_drop_idle_stream_fragment,
}
use coderoom.Session.Identity.{
  Sound, completed_turns, is_working, begin-TurnInv, report-TurnInv, got, got_self,
}
use coderoom.Session.Identity.Updates.{
  completed_turns-append, completed_turns-Plain, notify-Sound, complain-Sound, put-Sound,
  report-Sound, finish_keepalive-Sound, track_stream_view, close_stream_view,
}

next_turn_id_counts :
    (s : Session)
    → s.last_turn_id < 18446744073709551616
    → next_turn_id s ≢ 0
    → (next_turn_id s ≡ s.last_turn_id + 1) × (next_turn_id s < 18446744073709551616)
unfolding next_turn_id
next_turn_id_counts s low pos = (omega arith, omega arith)

-- The participant takes the turn that it was given, which is not 0, or stays as it was.
abbrev Begins : ℕ → Participant → Participant × Option ParticipantError → Type 0
Begins turn p (q, none) = (q.view.turn_id ≡ turn) × (turn ≢ 0)
Begins turn p (q, some e) = q ≡ p

begin_working-Begins :
    (now : ℕ) (anchor : String) (turn : ℕ) (p : Participant)
    → Begins turn p (begin_working now anchor turn p)
unfolding begin_working
begin_working-Begins now anchor turn p =
    if_cases (Begins turn p) (not (status_is p.view.status preparing)) (λ _. refl)
      (λ _. if_cases (Begins turn p) (turn == 0) (λ _. refl) (λ t. (refl, λ e. ground arith)))

settle_begin-Sound :
    (alias : String) (s : Session) (p : Participant) (x : Participant × Option ParticipantError)
    → lookup_participant alias s ≡ some p
    → Begins (next_turn_id s) p x
    → Sound s
    → Sound
        (count_turn (next_turn_id s) (settle alias s (status_update alias "begin working" p x))).0
unfolding completed_turns notify
settle_begin-Sound alias s p (q, some e) found same v =
    put-Sound alias p q s found (ground arith) (λ w. ground arith) v
settle_begin-Sound alias s p (q, none) found (e, pos) v =
    let (next, small) = next_turn_id_counts s v.bounded pos in
    notify-Sound _ (record (put_participant alias q s) { last_turn_id = next_turn_id s }) refl
      (begin-TurnInv s.registry.participants s.last_turn_id (completed_turns s.events) v alias q
        (next_turn_id s) e next small)

pub begin-Sound :
    (alias anchor : String) (s : Session)
    → Sound s
    → Sound (begin_participant_working alias anchor s)
unfolding begin_participant_working
begin-Sound alias anchor s v = report-Sound alias _ (
    update_cases (λ r. Sound (count_turn (next_turn_id s) r).0) alias _ s (λ _. v)
      (λ p found. settle_begin-Sound alias s p _ found (begin_working-Begins _ anchor _ p) v))

-- The session after a turn, with the turn that was completed, if one was: nobody works on it any more.
abbrev pub Ended : Session × ℕ × Bool → Type 0
Ended (s, turn, completed) =
    Sound s
    × (completed ≡ true
        → (turn ≤ s.last_turn_id)
          × (Sets.contains (completed_turns s.events) turn ≡ false)
          × ((b : String) (q : Participant)
              → Dict.get b s.registry.participants ≡ some q
              → is_working q ≡ true
              → q.view.turn_id ≢ turn))

-- The participant leaves its turn, or stays as it was.
abbrev Idles : Participant → Participant × Option ParticipantError → Type 0
Idles p (q, none) =
    (is_working p ≡ true) × (is_working q ≡ false) × (q.view.turn_id ≡ p.view.turn_id)
Idles p (q, some e) = q ≡ p

become_idle-Idles : (now : ℕ) (p : Participant) → Idles p (become_idle now p)
unfolding become_idle
become_idle-Idles now p =
    if_cases (Idles p) (not (status_is p.view.status working)) (λ _. refl)
      (λ w. if_cases (Idles p) (turn_open p) (λ _. refl) (λ _. (ground arith, ground arith, refl)))

-- Nobody else works on the turn of a participant that was working.
free_of_turn :
    (alias : String) (p q : Participant) (s : Session)
    → lookup_participant alias s ≡ some p
    → is_working p ≡ true
    → is_working q ≡ false
    → Sound s
    → (b : String) (r : Participant)
    → Dict.get b (put_participant alias q s).registry.participants ≡ some r
    → is_working r ≡ true
    → r.view.turn_id ≢ p.view.turn_id
unfolding lookup_participant get
free_of_turn alias p q s found w idles v b r h k e =
    elim (got alias b q r s.registry.participants h) [
      | inl (_, f) ↦ absurd (ground arith)
      | inr old ↦
          let same = v.apart b alias r p old found k w e in
          let f = got_self alias q r s.registry.participants (
            subst (λ c. Dict.get c (put_participant alias q s).registry.participants ≡ some r) same
              h) in
          absurd (ground arith)
    ]

settle_idle-Ended :
    (alias : String) (s : Session) (p : Participant) (x : Participant × Option ParticipantError)
    → lookup_participant alias s ≡ some p
    → Idles p x
    → Sound s
    → let r = settle alias s (status_update alias "become idle" p x) in
      Ended (report alias r, p.view.turn_id, is_none r.1)
unfolding completed_turns notify
settle_idle-Ended alias s p (q, some e) found same v = (
  complain-Sound alias _ [] _ (put-Sound alias p q s found (ground arith) (λ w. ground arith) v),
  λ c. cc,
)
settle_idle-Ended alias s p (q, none) found (w, idles, same) v = (
  notify-Sound _ (put_participant alias q s) refl
      (put-Sound alias p q s found same (λ k. ground arith) v),
  λ _. (
    unfold lookup_participant get in v.numbered alias p found,
    rw (completed_turns-Plain s.events (changed p q alias) refl)
        (unfold lookup_participant get in v.unreported alias p found w),
    free_of_turn alias p q s found w idles v,
  ),
)

mark_idle-Ended : (alias : String) (s : Session) → Sound s → Ended (mark_idle alias s)
unfolding mark_idle
mark_idle-Ended alias s v =
    update_cases (λ r. Ended (report alias r, turn_of (lookup_participant alias s), is_none r.1))
      alias _ s (λ _. (v, λ c. cc))
      (λ p found. rw found (settle_idle-Ended alias s p _ found (become_idle-Idles _ p) v))

-- What a message adds to the streams ends nothing.
complain_of_close-Sound :
    (out : Outside) (alias : String) (msg : Message) (e : ParticipantError) (s : Session)
    → Sound s
    → Sound (complain_of_close out alias msg e s)
complain_of_close-Sound out alias msg (stream_not_tracked _) s v = v
complain_of_close-Sound out alias msg _ s v = complain-Sound alias _ _ s v

note_tracked-Sound :
    (out : Outside) (alias : String) (msg : Message) (p : Participant) (s : Session)
    (x : Participant × Option ParticipantError)
    → lookup_participant alias s ≡ some p
    → x.0.view ≡ p.view
    → Sound s
    → Sound (note_tracked out alias msg x s).0
note_tracked-Sound out alias msg p s (q, some e) found same v =
    complain-Sound alias _ _ _ (put-Sound alias p q s found (ground arith) (λ w. ground arith) v)
note_tracked-Sound out alias msg p s (q, none) found same v =
    put-Sound alias p q s found (ground arith) (λ w. ground arith) v

note_closed-Sound :
    (out : Outside) (alias : String) (msg : Message) (p : Participant) (s : Session)
    (x : Participant × Bool × Option ParticipantError)
    → lookup_participant alias s ≡ some p
    → x.0.view ≡ p.view
    → Sound s
    → Sound (note_closed out alias msg x s).0
note_closed-Sound out alias msg p s (q, should_idle, some e) found same v =
    complain_of_close-Sound out alias msg e _
      (put-Sound alias p q s found (ground arith) (λ w. ground arith) v)
note_closed-Sound out alias msg p s (q, should_idle, none) found same v =
    put-Sound alias p q s found (ground arith) (λ w. ground arith) v

note_mode-Sound :
    (out : Outside) (mode : Mode) (alias : String) (msg : Message) (p : Participant) (s : Session)
    → lookup_participant alias s ≡ some p
    → Sound s
    → Sound (note_mode out mode alias msg p s).0
note_mode-Sound out stream alias msg p s found v =
    note_tracked-Sound out alias msg p s _ found (track_stream_view _ p) v
note_mode-Sound out flush alias msg p s found v =
    note_closed-Sound out alias msg p s _ found (close_stream_view _ p) v
note_mode-Sound out single alias msg p s found v = v

note-Sound :
    (out : Outside) (alias : String) (msg : Message) (s : Session)
    → Sound s
    → Sound (note_working_stream_message out alias msg s).0
unfolding note_working_stream_message
note-Sound out alias msg s v = elim (Option-cases (lookup_participant alias s)) [
  | inl e ↦ rw (e, note_working_stream_message) v
  | inr (p, e) ↦
      rw (e, note_working_stream_message) (note_mode-Sound out msg.mode alias msg p s e v)
]

settle_turn-Ended :
    (alias : String) (r : Session × Bool × Bool) → Sound r.0 → Ended (settle_turn alias r)
settle_turn-Ended alias (s, should_idle, tracked) v =
    if_cases Ended (tracked && should_idle) (λ _. mark_idle-Ended alias s v) (λ _. (v, λ c. cc))

lifecycle-Ended :
    (out : Outside) (mode : Mode) (alias : String) (msg : Message) (s : Session)
    → Sound s
    → Ended (lifecycle_of_mode out mode alias msg s)
lifecycle-Ended out stream alias msg s v = (note-Sound out alias msg s v, λ c. cc)
lifecycle-Ended out flush alias msg s v =
    settle_turn-Ended alias (note_working_stream_message out alias msg s)
      (note-Sound out alias msg s v)
lifecycle-Ended out single alias msg s v = (v, λ c. cc)

apply_turn_lifecycle-Ended :
    (out : Outside) (alias : String) (msg : Message) (s : Session)
    → Sound s
    → Ended (apply_turn_lifecycle out alias msg s)
unfolding apply_turn_lifecycle
apply_turn_lifecycle-Ended out alias msg s v =
    if_cases Ended (is_turn_content msg.content) (λ _. lifecycle-Ended out msg.mode alias msg s v)
      (λ _. (v, λ c. cc))

deliver-Sound :
    (alias : String) (msg : Message) (r : Session × ℕ × Bool)
    → Ended r
    → Sound (deliver_message alias msg r)
unfolding completed_turns
deliver-Sound alias msg (s, turn, false) v = notify-Sound _ s refl v.0
deliver-Sound alias msg (s, turn, true) v =
    let (low, fresh, free) = v.1 refl in
    unfold notify in
    rw (completed_turns-append s.events _) (
      report-TurnInv s.registry.participants s.last_turn_id (completed_turns s.events) v.0 turn low
        fresh free)

handle_content-Sound :
    (out : Outside) (content : MessageContent) (alias : String) (msg : Message) (s : Session)
    → Sound s
    → Sound (handle_content out content alias msg s)
unfolding completed_turns
handle_content-Sound out keep_alive_content alias msg s v = finish_keepalive-Sound alias s v
handle_content-Sound out (log_content text) alias msg s v =
    if_cases Sound (text == "") (λ _. v) (λ _. notify-Sound (agent_log alias text) s refl v)
handle_content-Sound out _ alias msg s v =
    deliver-Sound alias msg (apply_turn_lifecycle out alias msg s)
      (apply_turn_lifecycle-Ended out alias msg s v)

pub handle_agent_message-Sound :
    (out : Outside) (alias : String) (msg : Message) (s : Session)
    → Sound s
    → Sound (handle_agent_message out alias msg s)
unfolding handle_agent_message completed_turns
handle_agent_message-Sound out alias msg s v =
    if_cases Sound (should_drop_idle_stream_fragment alias msg s) (λ _. notify-Sound _ s refl v)
      (λ _. handle_content-Sound out msg.content alias msg s v)
