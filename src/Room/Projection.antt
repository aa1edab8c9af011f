-- ===== src/Room/Projection.antt =====
-- internal/room/events.go, observer.go and the appends of room.go: how events and local records
-- change the room.
use coderoom.Prelude.Dict
use coderoom.Prelude.Dict.{Dict}
use coderoom.Prelude.Sets
use coderoom.Prelude.Results.{ok, err}
use coderoom.Prelude.Sort.{sort_indices, compact}
use coderoom.Prelude.Text.{concat_text}
use coderoom.Prelude.{
  ℕ, suc, ◌-◌, String, Bool, true, false, not, ◌&&◌, Option, none, some, List, [], ◌∷◌, ◌++◌, ◌==◌,
  string_eq, nat_eq, if◌then◌else◌, get_elem?, set, length, leb,
}
use coderoom.Agent.{
  Message, Mode, stream, flush, MessageContent, output_content, reasoning_content, command_content,
  file_change_content,
}
use coderoom.Session.Event.{
  Event, ContextHandoff, AgentMessage, agent_starting, agent_started, agent_stopped, agent_crashed,
  agent_log, agent_message, context_handoff,
}
use coderoom.Room.Records.{
  Record, Room, OpenStream, OpenStreamKind, open_output, open_reasoning, open_command,
  open_file_change, accumulate_record, new_agent_record, system_record, log_record,
}
use coderoom.Room.Handoff.{refresh_latest_handoff_source}

-- `uniqueRecordIndices`
abbrev pub unique_record_indices : List ℕ → List ℕ
unique_record_indices idxs = compact (sort_indices idxs)

abbrev pub delta_history_limit : ℕ
delta_history_limit = 1024

-- The loop of `pruneDirtyLocked`.
unfoldable pub prune_to : ℕ → Dict ℕ (List ℕ) → Dict ℕ (List ℕ)
prune_to cutoff [] = []
prune_to cutoff ((v, idxs) ∷ m) =
    let rest = prune_to cutoff m in if leb v cutoff then rest else (v, idxs) ∷ rest

-- `cutoff` is a difference of `uint64`; there are at most `version` entries, so it does not wrap.
unfoldable pub prune_dirty : ℕ → Dict ℕ (List ℕ) → Dict ℕ (List ℕ)
prune_dirty version dirty =
    if leb (length dirty) delta_history_limit
    then dirty
    else prune_to (version - delta_history_limit) dirty

unfoldable pub bump_version : List ℕ → Room → Room
bump_version idxs r = record r {
  version = suc r.version;
  dirty =
      prune_dirty (suc r.version) (Dict.put (suc r.version) (unique_record_indices idxs) r.dirty);
}

unfoldable pub append_record_locked : Record → Room → Room × List ℕ
append_record_locked rec' r = (record r { records = r.records ++ rec' ∷ [] }, length r.records ∷ [])

-- The loop of `clearStreamsLocked`.
unfoldable pub drop_streams : String → Dict String OpenStream → Dict String OpenStream
drop_streams alias [] = []
drop_streams alias ((id, slot) ∷ m) =
    let rest = drop_streams alias m in if slot.alias == alias then rest else (id, slot) ∷ rest

abbrev pub clear_streams : String → Room → Room
clear_streams alias r = record r { streaming = drop_streams alias r.streaming }

abbrev pub seal_stream : String → Room → Room
seal_stream id r = record r { streaming = Dict.delete id r.streaming }

abbrev pub is_turn_content : MessageContent → Bool
is_turn_content (output_content t) = true
is_turn_content (reasoning_content t) = true
is_turn_content (command_content c) = true
is_turn_content (file_change_content c) = true
is_turn_content _ = false

abbrev pub is_output : MessageContent → Bool
is_output (output_content t) = true
is_output _ = false

abbrev pub is_flush : Mode → Bool
is_flush flush = true
is_flush _ = false

abbrev pub is_stream : Mode → Bool
is_stream stream = true
is_stream _ = false

unfoldable pub refresh_after_message : String → Message → Room → Room × List ℕ
refresh_after_message alias msg r =
    if not (is_output msg.content)
    then (r, [])
    else if is_stream msg.mode
    then (r, [])
    else refresh_latest_handoff_source alias r

abbrev pub open_stream_kind : Message → OpenStreamKind
open_stream_kind msg = elim msg.content [
  | reasoning_content t ↦ open_reasoning
  | command_content c ↦ open_command
  | file_change_content c ↦ open_file_change
  | _ ↦ open_output
]

-- `dirty := []int{idx}`, then the refresh, sorted and compacted.
unfoldable pub touch : ℕ → String → Message → Room → Room × List ℕ
touch idx alias msg r =
    let (s, more) = refresh_after_message alias msg r in (s, compact (sort_indices (idx ∷ more)))

-- A message that opens a record of its own.
unfoldable pub open_record : String → Message → Room → Room × List ℕ
open_record alias msg r = touch (length r.records) alias msg (record r {
  records = r.records ++ new_agent_record alias msg ∷ [];
  streaming =
      Dict.put msg.stream_id
        (record {
          alias = alias;
          record_idx = length r.records;
          stream_id = msg.stream_id;
          kind = open_stream_kind msg;
        })
        r.streaming;
})

-- The record that an open stream accumulates into, if the message fits it. The Go code indexes the
-- slice unchecked: `Streams` shows that the index is in range.
unfoldable pub merged_record : Message → Room → Option (ℕ × Record)
merged_record msg r = elim (Dict.get msg.stream_id r.streaming) [
  | none ↦ none
  | some slot ↦ elim (get_elem? r.records slot.record_idx) [
    | none ↦ none
    | some rec' ↦ elim (accumulate_record rec' msg) [
      | ok updated ↦ some (slot.record_idx, updated)
      | err e ↦ none
    ]
  ]
]

unfoldable pub handle_agent_message : String → Message → Room → Room × List ℕ
handle_agent_message alias msg r =
    if is_turn_content msg.content && is_flush msg.mode
    then refresh_after_message alias msg (seal_stream msg.stream_id r)
    else elim (merged_record msg r) [
      | some (idx, updated) ↦ touch idx alias msg (record r { records = set r.records idx updated })
      | none ↦ open_record alias msg r
    ]

abbrev pub handoff_preview : ContextHandoff → String
handoff_preview e =
    if not (e.preview == "")
    then e.preview
    else concat_text ("[handoff " ∷ e.from_alias ∷ " -> " ∷ e.to_alias ∷ "]\n\n" ∷ e.text ∷ [])

unfoldable pub handle_departure : String → Room → Room × List ℕ
handle_departure alias r =
    let s = clear_streams alias (record r { members = Sets.remove alias r.members }) in
    refresh_latest_handoff_source alias (record s { departed = Dict.put alias true s.departed })

abbrev pub notice : String → String → String
notice alias what = concat_text ("[" ∷ alias ∷ what ∷ "]" ∷ [])

-- What a departure and its notice touch.
unfoldable pub depart : String → String → Room → Room × List ℕ
depart alias what r =
    let (s, dirty) = handle_departure alias r in
    let (t, more) = append_record_locked (system_record (notice alias what)) s in
    (t, compact (dirty ++ more))

unfoldable pub arrive : String → Room → Room × List ℕ
arrive alias r =
    let joined = record r {
      members = Sets.insert alias r.members;
      departed = Dict.delete alias r.departed;
    } in
    let (s, dirty) = refresh_latest_handoff_source alias joined in
    let (t, more) = append_record_locked (system_record (notice alias " joined")) s in
    (t, compact (sort_indices (dirty ++ more)))

-- `none` for an event that does not concern the room.
unfoldable pub handle_lifecycle_event : Event → Room → Option (Room × List ℕ)
handle_lifecycle_event (agent_starting alias) r =
    some (append_record_locked (system_record (notice alias " starting")) r)
handle_lifecycle_event (agent_started alias) r = some (arrive alias r)
handle_lifecycle_event (agent_stopped alias) r = some (depart alias " left" r)
handle_lifecycle_event (agent_crashed alias) r = some (depart alias " crashed" r)
handle_lifecycle_event (agent_log alias text) r =
    some (append_record_locked (log_record alias text) r)
handle_lifecycle_event (context_handoff e) r =
    some (append_record_locked (system_record (handoff_preview e)) r)
handle_lifecycle_event _ r = none

-- The causal metadata of an update.
pub record Trigger : Type 0 where
  pub alias : String
  pub stream_id : String
  pub turn_id : ℕ

pub record Update : Type 0 where
  pub room_id : String
  pub version : ℕ
  pub trigger : Option Trigger

abbrev update_of : Option Trigger → Room → Update
update_of t r = record { room_id = r.id; version = r.version; trigger = t }

abbrev trigger_of : AgentMessage → Option Trigger
trigger_of m =
    if m.turn_completed
    then some (record { alias = m.alias; stream_id = m.msg.stream_id; turn_id = m.turn_id })
    else none

-- What is touched by an event, before the version is bumped.
unfoldable pub touched_by : Event → Room → Option (Room × List ℕ)
touched_by (agent_message m) r = some (handle_agent_message m.alias m.msg r)
touched_by e r = handle_lifecycle_event e r

abbrev event_trigger : Event → Option Trigger
event_trigger (agent_message m) = trigger_of m
event_trigger _ = none

unfoldable pub apply_event : Event → Room → Room × Option Update
apply_event e r = elim (touched_by e r) [
  | none ↦ (r, none)
  | some (s, dirty) ↦ let t = bump_version dirty s in (t, some (update_of (event_trigger e) t))
]

unfoldable pub append_record : Record → Room → Room × Option Update
append_record rec' r =
    let (s, dirty) = append_record_locked rec' r in
    let t = bump_version dirty s in (t, some (update_of none t))
