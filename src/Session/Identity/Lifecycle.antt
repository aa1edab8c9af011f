-- ===== src/Session/Identity/Lifecycle.antt =====
-- internal/session/session.go and command_lifecycle.go: the turns' numbers while agents come and go.
use coderoom.Prelude.Dict
use coderoom.Prelude.Sets
use coderoom.Prelude.Text.{concat_text}
use coderoom.Prelude.{
  ℕ, ◌≡◌, String, Bool, true, false, not, ◌||◌, Option, none, some, List, [], ◌∷◌, inl, inr, arith,
  string_eq, nat_eq, refl, Option-cases, if_cases, is_none, is_some,
}
use coderoom.Participant.{
  Participant, ParticipantError, Status, attach_agent, commit_idle, session_ready, crash,
  begin_keepalive, status_is, crashed, is_removable,
}
use coderoom.Participant.Registry.{remove, list}
use coderoom.Session.Event.{agent_log, agent_started, agent_stopped, agent_crashed}
use coderoom.Session.State.{
  Session, AgentRuntime, Outside, OperationError, notify, lookup_participant, update_participant,
  report, status_update,
}
use coderoom.Session.Runtime.{
  cancel_context, cancel_agent_context, runtime_of, unregister, drop_runtime, detached,
  detach_stopped, detach_participant, evict_crashed_before_start, remove_command, finish_attach,
  attach_outcome, attach_participant, commit_update, commit_outcome, commit_started, RemoveError,
  stopped, remove_detached, finish_startup, give_up_startup, startup_attach, startup_commit,
  ready_update, startup_ready, crash_participant, handle_invite_start_error,
  handle_agent_read_error, sweep_one, sweep_all, sweep_keepalive, keepalive_failed, must_stay,
  keepalive_due,
}
use coderoom.Session.Identity.{Sound, completed_turns, is_working, delete-TurnInv}
use coderoom.Session.Identity.Updates.{
  notify-Sound, complain-Sound, put-Sound, update-Sound, report-Sound, status_update-Keeps, Keeps,
  quiet_update-Keeps, finish_keepalive-Sound,
}

pub cancel_context-Sound : (ctx : Option ℕ) (s : Session) → Sound s → Sound (cancel_context ctx s)
cancel_context-Sound none s v = v
cancel_context-Sound (some ctx) s v = v

cancel_agent-Sound : (alias : String) (s : Session) → Sound s → Sound (cancel_agent_context alias s)
unfolding cancel_agent_context
cancel_agent-Sound alias s v = elim (Option-cases (runtime_of alias s)) [
  | inl e ↦ rw (e, cancel_agent_context) v
  | inr (r, e) ↦
      rw (e, cancel_agent_context) (cancel_context-Sound r.agent_cancel (drop_runtime alias s) v)
]

unregister-Sound : (alias : String) (s : Session) → Sound s → Sound (unregister alias s)
unfolding remove
unregister-Sound alias s v = elim (Option-cases (Dict.get alias s.registry.participants)) [
  | inl e ↦ rw (e, remove) v
  | inr (p, e) ↦
      rw (e, remove)
        (delete-TurnInv s.registry.participants s.last_turn_id (completed_turns s.events) v alias)
]

give_up-Sound : (alias : String) (s : Session) → Sound s → Sound (give_up_startup alias s)
give_up-Sound alias s v =
    cancel_agent-Sound alias (unregister alias (drop_runtime alias s))
      (unregister-Sound alias (drop_runtime alias s) v)

detached-Sound :
    (alias : String) (r : AgentRuntime) (stop : ℕ) (s : Session)
    → Sound s
    → Sound (detached alias r stop s)
detached-Sound alias r stop s v =
    unregister-Sound alias (cancel_context r.agent_cancel (drop_runtime alias s))
      (cancel_context-Sound r.agent_cancel (drop_runtime alias s) v)

detach_stopped-Sound :
    (alias : String) (r : AgentRuntime) (stop : Option ℕ) (s : Session)
    → Sound s
    → Sound (detach_stopped alias r stop s).0
detach_stopped-Sound alias r none s v = v
detach_stopped-Sound alias r (some stop) s v =
    if_cases (λ (x : Session × Option Participant × Bool). Sound x.0)
      (must_stay (lookup_participant alias s)) (λ _. v) (λ _. detached-Sound alias r stop s v)

detach-Sound : (alias : String) (s : Session) → Sound s → Sound (detach_participant alias s).0
unfolding detach_participant
detach-Sound alias s v = elim (Option-cases (runtime_of alias s)) [
  | inl e ↦ rw (e, detach_participant) v
  | inr (r, e) ↦ rw (e, detach_participant) (detach_stopped-Sound alias r r.stop s v)
]

evict-Sound :
    (alias : String) (s : Session) → Sound s → Sound (evict_crashed_before_start alias s).0
unfolding evict_crashed_before_start completed_turns
evict-Sound alias s v = elim (Option-cases (lookup_participant alias s)) [
  | inl e ↦ rw (e, evict_crashed_before_start) v
  | inr (p, e) ↦
      rw (e, evict_crashed_before_start)
        (if_cases (λ (x : Session × Option RemoveError). Sound x.0)
          (not (status_is p.view.status crashed) || not (is_removable p.view)) (λ _. v)
          (λ _.
            notify-Sound (agent_stopped alias) (unregister alias (cancel_agent_context alias s))
              refl
              (unregister-Sound alias (cancel_agent_context alias s)
                (cancel_agent-Sound alias s v))))
]

stopped-Sound :
    (alias : String) (stop : Option String) (s : Session) → Sound s → Sound (stopped alias stop s).0
stopped-Sound alias none s v = v
stopped-Sound alias (some text) s v = v

remove_detached-Sound :
    (alias : String) (stop : Option String) (x : Session × Option Participant × Bool)
    → Sound x.0
    → Sound (remove_detached alias stop x).0
unfolding completed_turns
remove_detached-Sound alias stop (s, some p, true) v = stopped-Sound alias stop s v
remove_detached-Sound alias stop (s, none, true) v = notify-Sound (agent_stopped alias) s refl v
remove_detached-Sound alias stop (s, some p, false) v = v
remove_detached-Sound alias stop (s, none, false) v = evict-Sound alias s v

pub remove_command-Sound :
    (alias : String) (stop : Option String) (s : Session)
    → Sound s
    → Sound (remove_command alias stop s).0
unfolding remove_command
remove_command-Sound alias stop s v =
    remove_detached-Sound alias stop (detach_participant alias s) (detach-Sound alias s v)

finish_attach-Sound :
    (alias : String) (from : Status) (s : Session) → Sound s → Sound (finish_attach alias from s).0
finish_attach-Sound alias from s v = elim (Option-cases (runtime_of alias s)) [
  | inl e ↦ rw (e, finish_attach) (complain-Sound alias _ [] s v)
  | inr (r, e) ↦ rw (e, finish_attach) v
]

attach_outcome-Sound :
    (alias : String) (p : Participant) (x : Participant × Option ParticipantError) (s : Session)
    → lookup_participant alias s ≡ some p
    → x.0.view.turn_id ≡ p.view.turn_id
    → (is_working x.0 ≡ true → is_working p ≡ true)
    → Sound s
    → Sound (attach_outcome alias p x s).0
attach_outcome-Sound alias p (q, some e) s found same kept v =
    complain-Sound alias _ [] _ (put-Sound alias p q s found same kept v)
attach_outcome-Sound alias p (q, none) s found same kept v =
    finish_attach-Sound alias _ _ (put-Sound alias p q s found same kept v)

attach-Sound :
    (alias : String) (agent : ℕ) (s : Session)
    → Sound s
    → Sound (attach_participant alias agent s).0
unfolding attach_participant attach_agent
attach-Sound alias agent s v = elim (Option-cases (lookup_participant alias s)) [
  | inl e ↦ rw (e, attach_participant) v
  | inr (p, e) ↦
      rw (e, attach_participant)
        (attach_outcome-Sound alias p (attach_agent (some agent) s.clock p) s e (ground arith)
          (λ w. ground arith) v)
]

pub startup_attach-Sound :
    (alias : String) (agent : ℕ) (s : Session) → Sound s → Sound (startup_attach alias agent s)
unfolding startup_attach
startup_attach-Sound alias agent s v =
    if_cases Sound (is_some (attach_participant alias agent s).1)
      (λ _. attach-Sound alias agent s v)
      (λ _. cancel_agent-Sound alias _ (attach-Sound alias agent s v))

commit_outcome-Keeps :
    (alias : String) (from : Status) (p : Participant) (x : Participant × Option ParticipantError)
    → x.0.view.turn_id ≡ p.view.turn_id
    → (is_working x.0 ≡ true → is_working p ≡ true)
    → Keeps p (commit_outcome alias from x)
unfolding completed_turns
commit_outcome-Keeps alias from p (q, some e) same kept = (same, kept, tt)
commit_outcome-Keeps alias from p (q, none) same kept = (same, kept, refl)

commit_update-Keeps :
    (alias : String) (from : Status) (now : ℕ) (p : Participant)
    → Keeps p (commit_update alias from now p)
unfolding commit_idle
commit_update-Keeps alias from now p =
    commit_outcome-Keeps alias from p (commit_idle now p) (ground arith) (λ w. ground arith)

pub startup_commit-Sound :
    (alias : String) (from : Status) (s : Session) → Sound s → Sound (startup_commit alias from s)
unfolding startup_commit commit_started
startup_commit-Sound alias from s v =
    let committed : Sound
        (report alias (update_participant alias (commit_update alias from s.clock) s)) =
      report-Sound alias _ (update-Sound alias _ s (commit_update-Keeps alias from s.clock) v) in
    if_cases Sound (is_none (update_participant alias (commit_update alias from s.clock) s).1)
      (λ _. committed) (λ _. give_up-Sound alias _ committed)

ready_update-Keeps : (p : Participant) → Keeps p (ready_update p)
unfolding session_ready
ready_update-Keeps p = quiet_update-Keeps p (session_ready p) (ground arith) (λ w. ground arith)

finish_startup-Sound :
    (out : Outside) (alias : String) (x : Session × Option OperationError)
    → Sound x.0
    → Sound (finish_startup out alias x)
unfolding completed_turns
finish_startup-Sound out alias (s, none) v = notify-Sound (agent_started alias) s refl v
finish_startup-Sound out alias (s, some e) v = give_up-Sound alias _ (complain-Sound alias _ [] s v)

pub startup_ready-Sound :
    (out : Outside) (alias : String) (s : Session) → Sound s → Sound (startup_ready out alias s)
unfolding startup_ready
startup_ready-Sound out alias s v =
    finish_startup-Sound out alias (update_participant alias ready_update s)
      (update-Sound alias ready_update s ready_update-Keeps v)

crash-Sound : (alias : String) (s : Session) → Sound s → Sound (crash_participant alias s)
unfolding crash completed_turns
crash-Sound alias s v =
    report-Sound alias _ (update-Sound alias _ s (λ p. (refl, λ w. ground arith, refl)) v)

pub start_error-Sound :
    (alias text : String) (s : Session) → Sound s → Sound (handle_invite_start_error alias text s)
unfolding handle_invite_start_error completed_turns
start_error-Sound alias text s v =
    let cancelled = cancel_agent_context alias s in
    let e = agent_log alias (concat_text ("start failed: " ∷ text ∷ [])) in
    notify-Sound (agent_crashed alias) (crash_participant alias (notify e cancelled)) refl (
      crash-Sound alias (notify e cancelled)
        (notify-Sound e cancelled refl (cancel_agent-Sound alias s v)))

pub read_error-Sound :
    (stop : ℕ) (alias : String) (s : Session)
    → Sound s
    → Sound (handle_agent_read_error stop alias s)
unfolding handle_agent_read_error completed_turns
read_error-Sound stop alias s v =
    if_cases Sound (Sets.contains s.closed stop) (λ _. notify-Sound (agent_stopped alias) s refl v)
      (λ _.
        notify-Sound (agent_crashed alias) (crash_participant alias s) refl (crash-Sound alias s v))

sweep_update-Keeps :
    (alias : String) (now : ℕ) (q : Participant)
    → Keeps q (status_update alias "" q (begin_keepalive now q))
unfolding begin_keepalive
sweep_update-Keeps alias now q =
    status_update-Keeps alias "" q (begin_keepalive now q) (ground arith) (λ w. ground arith)

sweep_one-Sound :
    (schedule : String → Option ℕ) (p : Participant) (s : Session)
    → Sound s
    → Sound (sweep_one schedule p s)
sweep_one-Sound schedule p s v =
    if_cases Sound (keepalive_due schedule p s)
      (λ _.
        report-Sound p.view.alias _
          (update-Sound p.view.alias _ s (sweep_update-Keeps p.view.alias s.clock) v))
      (λ _. v)

sweep_all-Sound :
    (schedule : String → Option ℕ) (ps : List Participant) (s : Session)
    → Sound s
    → Sound (sweep_all schedule ps s)
sweep_all-Sound schedule [] s v = v
sweep_all-Sound schedule (p ∷ ps) s v =
    sweep_all-Sound schedule ps (sweep_one schedule p s) (sweep_one-Sound schedule p s v)

pub sweep-Sound :
    (schedule : String → Option ℕ) (s : Session) → Sound s → Sound (sweep_keepalive schedule s)
unfolding sweep_keepalive
sweep-Sound schedule s v = sweep_all-Sound schedule (list s.registry) s v

pub keepalive_failed-Sound :
    (alias text : String) (s : Session) → Sound s → Sound (keepalive_failed alias text s)
unfolding keepalive_failed completed_turns
keepalive_failed-Sound alias text s v =
    let e = agent_log alias (concat_text ("keepalive failed: " ∷ text ∷ [])) in
    finish_keepalive-Sound alias (notify e s) (notify-Sound e s refl v)
