-- ===== src/Session/Runtime.antt =====
-- internal/session/session.go: the runtimes of the agents, how they are attached, detached and
-- stopped, the keepalive sweep, and the end of a reader.
use coderoom.Prelude.Dict
use coderoom.Prelude.Dict.{Dict}
use coderoom.Prelude.Sets
use coderoom.Prelude.Results.{Result, ok, err}
use coderoom.Prelude.Text.{concat_text}
use coderoom.Prelude.{
  ℕ, suc, ◌-◌, String, Bool, true, false, not, ◌&&◌, ◌||◌, Option, none, some, List, [], ◌∷◌, ◌==◌,
  string_eq, nat_eq, if◌then◌else◌, is_none, is_some, ltb,
}
use coderoom.Participant.{
  Participant, ParticipantError, Status, idle, crashed, status_is, is_removable, attach_agent,
  commit_idle, session_ready, begin_keepalive,
}
use coderoom.Participant
use coderoom.Participant.Registry.{remove, list}
use coderoom.Session.Event.{
  Event, agent_log, agent_started, agent_stopped, agent_crashed, status_changed,
}
use coderoom.Session.State.{
  Session, AgentRuntime, Outside, OperationError, invariant_broken, participant_not_found, Update,
  notify, put_participant, lookup_participant, update_participant, report, status_update, changed,
  wrapped_text, notify_participant_invariant,
}
use coderoom.Session.Turns.{finish_participant_keepalive, quiet_update}

-- Calls the cancel function of a context, if there is one.
abbrev pub cancel_context : Option ℕ → Session → Session
cancel_context none s = s
cancel_context (some ctx) s = record s { cancelled = ctx ∷ s.cancelled }

unfoldable pub runtime_of : String → Session → Option AgentRuntime
runtime_of alias s = Dict.get alias s.agents

abbrev empty_runtime : AgentRuntime
empty_runtime = record { agent_cancel = none; stop = none }

-- A map's value, or its zero value.
abbrev pub or_empty : Option AgentRuntime → AgentRuntime
or_empty none = empty_runtime
or_empty (some r) = r

unfoldable pub create_agent_runtime : String → Session → Session
unfolding runtime_of
create_agent_runtime alias s =
    if is_some (runtime_of alias s)
    then s
    else record s { agents = Dict.put alias empty_runtime s.agents }

-- The handle of the new context is the session's next one.
unfoldable pub create_agent_context : String → Session → Session
unfolding runtime_of
create_agent_context alias s =
    let runtime = or_empty (runtime_of alias s) in
    let s' = cancel_context runtime.agent_cancel s in
    record s' {
      next_handle = suc s.next_handle;
      agents = Dict.put alias (record runtime { agent_cancel = some s.next_handle }) s.agents;
    }

abbrev pub drop_runtime : String → Session → Session
drop_runtime alias s = record s { agents = Dict.delete alias s.agents }

unfoldable pub cancel_agent_context : String → Session → Session
unfolding runtime_of
cancel_agent_context alias s = elim (runtime_of alias s) [
  | none ↦ s
  | some runtime ↦ cancel_context runtime.agent_cancel (drop_runtime alias s)
]

abbrev pub cancel_all : List AgentRuntime → Session → Session
cancel_all [] s = s
cancel_all (r ∷ rs) s = cancel_all rs (cancel_context r.agent_cancel s)

unfoldable pub cancel_all_agent_contexts : Session → Session
cancel_all_agent_contexts s = cancel_all (Dict.values s.agents) (record s { agents = [] })

-- The agents that `Shutdown` stops.
agents_of : List Participant → List ℕ
agents_of [] = []
agents_of (p ∷ ps) = elim p.agent [ none ↦ agents_of ps | some a ↦ a ∷ agents_of ps ]

unfoldable pub snapshot_agents_to_stop : Session → List ℕ
unfolding agents_of list
snapshot_agents_to_stop s = agents_of (list s.registry)

-- `Shutdown`, with the agents that it stops.
unfoldable pub shutdown : Session → Session × List ℕ
unfolding cancel_all_agent_contexts snapshot_agents_to_stop
shutdown s =
    if s.shut_down
    then (s, [])
    else (cancel_all_agent_contexts (record s { shut_down = true }), snapshot_agents_to_stop s)

-- `_ = s.registry.Remove(alias)`
abbrev pub unregister : String → Session → Session
unregister alias s = record s { registry = (remove alias s.registry).0 }

-- `close(runtime.stop)`
abbrev pub close_stop : ℕ → Session → Session
close_stop stop s = record s { closed = stop ∷ s.closed }

abbrev pub detached : String → AgentRuntime → ℕ → Session → Session
detached alias runtime stop s =
    close_stop stop (unregister alias (cancel_context runtime.agent_cancel (drop_runtime alias s)))

-- The test that keeps a participant of the startup window.
abbrev pub must_stay : Option Participant → Bool
must_stay none = false
must_stay (some p) = not p.view.startup_ready || not (is_removable p.view)

abbrev pub detach_stopped :
    String → AgentRuntime → Option ℕ → Session → Session × Option Participant × Bool
detach_stopped alias runtime none s = (s, none, false)
detach_stopped alias runtime (some stop) s =
    if must_stay (lookup_participant alias s)
    then (s, lookup_participant alias s, false)
    else (detached alias runtime stop s, lookup_participant alias s, true)

unfoldable pub detach_participant : String → Session → Session × Option Participant × Bool
unfolding lookup_participant runtime_of remove
detach_participant alias s = elim (runtime_of alias s) [
  | none ↦ (s, none, false)
  | some runtime ↦ detach_stopped alias runtime runtime.stop s
]

pub data RemoveError : Type 0 where
  remove_not_found remove_not_ready : String → RemoveError
  stop_failed : String → String → RemoveError

unfoldable pub evict_crashed_before_start : String → Session → Session × Option RemoveError
unfolding lookup_participant cancel_agent_context remove notify
evict_crashed_before_start alias s = elim (lookup_participant alias s) [
  | none ↦ (s, some (remove_not_found alias))
  | some p ↦
      if not (status_is p.view.status crashed) || not (is_removable p.view)
      then (s, some (remove_not_ready alias))
      else (notify (agent_stopped alias) (unregister alias (cancel_agent_context alias s)), none)
]

abbrev pub stopped : String → Option String → Session → Session × Option RemoveError
stopped alias none s = (s, none)
stopped alias (some text) s = (s, some (stop_failed alias text))

-- The four cases of `RemoveCommand.execute` after `detachParticipant`.
abbrev pub remove_detached :
    String → Option String → Session × Option Participant × Bool → Session × Option RemoveError
remove_detached alias stop (s, some p, true) = stopped alias stop s
remove_detached alias stop (s, none, true) = (notify (agent_stopped alias) s, none)
remove_detached alias stop (s, some p, false) = (s, some (remove_not_ready alias))
remove_detached alias stop (s, none, false) = evict_crashed_before_start alias s

-- `RemoveCommand.execute`; `stop` is the error of the agent's `Stop`, which is called only if the
-- participant was detached.
unfoldable pub remove_command : String → Option String → Session → Session × Option RemoveError
unfolding detach_participant evict_crashed_before_start notify
remove_command alias stop s = remove_detached alias stop (detach_participant alias s)

-- What `attachParticipant` does once the participant has taken the agent.
abbrev pub finish_attach : String → Status → Session → Session × Option (ℕ × Status)
finish_attach alias from s = elim (runtime_of alias s) [
  | none ↦ (notify_participant_invariant alias "attach agent: missing runtime" [] s, none)
  | some runtime ↦ (
    record s {
      next_handle = suc s.next_handle;
      agents = Dict.put alias (record runtime { stop = some s.next_handle }) s.agents;
    },
    some (s.next_handle, from),
  )
]

abbrev pub attach_outcome :
    String
    → Participant
    → Participant × Option ParticipantError
    → Session
    → Session × Option (ℕ × Status)
attach_outcome alias p (q, some e) s = (
  notify_participant_invariant alias (wrapped_text "attach agent" e) [] (put_participant alias q s),
  none,
)
attach_outcome alias p (q, none) s = finish_attach alias p.view.status (put_participant alias q s)

-- With the new session, the stop channel and the status before.
unfoldable pub attach_participant : String → ℕ → Session → Session × Option (ℕ × Status)
unfolding lookup_participant runtime_of notify_participant_invariant
attach_participant alias agent s = elim (lookup_participant alias s) [
  | none ↦ (s, none)
  | some p ↦ attach_outcome alias p (attach_agent (some agent) s.clock p) s
]

-- `commitStarted`; the event reports the status before the attachment.
abbrev pub commit_outcome :
    String
    → Status
    → Participant × Option ParticipantError
    → Participant × Result OperationError (Option Event)
commit_outcome alias from (q, some e) = (q, err (invariant_broken "commit idle" e))
commit_outcome alias from (q, none) = (
  q,
  ok (
      some (
        status_changed
          (record { alias = alias; from = from; to = q.view.status; since = q.view.since }))),
)

abbrev pub commit_update : String → Status → ℕ → Update
commit_update alias from now p = commit_outcome alias from (commit_idle now p)

-- The code notifies the event right after the call.
unfoldable pub commit_started : String → Status → Session → Session × Bool
unfolding update_participant notify_participant_invariant
commit_started alias from s =
    let result = update_participant alias (commit_update alias from s.clock) s in
    (report alias result, is_none result.1)

-- The cleanup after a startup that could not be finished.
abbrev pub give_up_startup : String → Session → Session
give_up_startup alias s = cancel_agent_context alias (unregister alias (drop_runtime alias s))

-- The goroutine of `startInvitedAgent`, one function for each of its holds of the lock. The first
-- follows a `Start` without an error.
unfoldable pub startup_attach : String → ℕ → Session → Session
unfolding attach_participant cancel_agent_context
startup_attach alias agent s =
    let (s', attached) = attach_participant alias agent s in
    if is_some attached then s' else cancel_agent_context alias s'

unfoldable pub startup_commit : String → Status → Session → Session
unfolding commit_started cancel_agent_context remove
startup_commit alias from s =
    let (s', done) = commit_started alias from s in if done then s' else give_up_startup alias s'

abbrev pub ready_update : Update
ready_update p = quiet_update (session_ready p)

abbrev pub operation_text : Outside → OperationError → String
operation_text out (participant_not_found alias) =
    concat_text ("participant not found: " ∷ out.quote alias ∷ [])
operation_text out (invariant_broken heading e) = wrapped_text heading e

abbrev pub finish_startup : Outside → String → Session × Option OperationError → Session
finish_startup out alias (s, none) = notify (agent_started alias) s
finish_startup out alias (s, some e) = give_up_startup alias (
    notify_participant_invariant alias (concat_text ("session ready: " ∷ operation_text out e ∷ []))
      [] s)

unfoldable pub startup_ready : Outside → String → Session → Session
unfolding update_participant cancel_agent_context remove notify notify_participant_invariant
startup_ready out alias s = finish_startup out alias (update_participant alias ready_update s)

abbrev pub crash_update : String → ℕ → Update
crash_update alias now p = let q = Participant.crash now p in (q, ok (some (changed p q alias)))

-- The part that `handleInviteStartError` and `handleAgentReadError` share.
abbrev pub crash_participant : String → Session → Session
crash_participant alias s = report alias (update_participant alias (crash_update alias s.clock) s)

unfoldable pub handle_invite_start_error : String → String → Session → Session
unfolding cancel_agent_context notify update_participant notify_participant_invariant
handle_invite_start_error alias text s =
    let cancelled = cancel_agent_context alias s in
    let logged = notify (agent_log alias (concat_text ("start failed: " ∷ text ∷ []))) cancelled in
    notify (agent_crashed alias) (crash_participant alias logged)

-- The reader's channel tells a stop from a crash. The handler runs as one step, so that its two looks
-- at the channel agree.
unfoldable pub handle_agent_read_error : ℕ → String → Session → Session
unfolding notify update_participant notify_participant_invariant
handle_agent_read_error stop alias s =
    if Sets.contains s.closed stop
    then notify (agent_stopped alias) s
    else notify (agent_crashed alias) (crash_participant alias s)

-- `collectKeepaliveCandidates` on one participant. `schedule` is the wait of an agent that can be
-- kept alive.
abbrev pub keepalive_due : (String → Option ℕ) → Participant → Session → Bool
keepalive_due schedule p s = elim (schedule p.view.alias) [
  | none ↦ false
  | some wait ↦
      status_is p.view.status idle
      && (is_some p.agent
          && (is_some (runtime_of p.view.alias s)
              && not (wait == 0 || ltb (s.clock - p.view.since) wait)))
]

abbrev pub sweep_one : (String → Option ℕ) → Participant → Session → Session
sweep_one schedule p s =
    if keepalive_due schedule p s
    then report p.view.alias (
        update_participant p.view.alias
          (λ q. status_update p.view.alias "" q (begin_keepalive s.clock q)) s)
    else s

abbrev pub sweep_all : (String → Option ℕ) → List Participant → Session → Session
sweep_all schedule [] s = s
sweep_all schedule (p ∷ ps) s = sweep_all schedule ps (sweep_one schedule p s)

-- `sweepKeepalive`: an idle participant does begin its keepalive, so nothing is reported.
unfoldable pub sweep_keepalive : (String → Option ℕ) → Session → Session
unfolding list runtime_of update_participant notify_participant_invariant
sweep_keepalive schedule s = sweep_all schedule (list s.registry) s

-- `runKeepalive` after an error of `KeepAlive`.
unfoldable pub keepalive_failed : String → String → Session → Session
unfolding notify finish_participant_keepalive
keepalive_failed alias text s =
    finish_participant_keepalive alias
      (notify (agent_log alias (concat_text ("keepalive failed: " ∷ text ∷ []))) s)
