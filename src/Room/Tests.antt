-- ===== src/Room/Tests.antt =====
-- internal/room at a concrete conversation.
use coderoom.Prelude.Dict
use coderoom.Prelude.Sets
use coderoom.Prelude.Results.{ok}
use coderoom.Prelude.{
  true, ℕ, ◌<◌, String, ◌≡◌, false, refl, List, [], ◌∷◌, arith, length, get_elem?,
}
use coderoom.Room.Sources.{one_source}
use coderoom.Agent.{Message, single, stream, output_content}
use coderoom.Session.Event.{Event, agent_started, agent_message}
use coderoom.Prelude.Sort.{compact, sort}
use coderoom.Agent.{accumulate, merge_content}
use coderoom.Room.Handoff.{
  handoff_eligible_output, scan_handoff, refresh_latest_handoff_source, swap_latest_handoff_source,
  has_marked, latest_handoff_source,
}
use coderoom.Room.Records.{
  Record, accumulate_record, body_from_agent_message, kind_for_agent_message, mark, Room, new_room,
  system_record, new_agent_record, OpenStream, open_output,
}
use coderoom.Room.Projection.{
  apply_event, append_record, bump_version, handle_agent_message, merged_record,
  handle_lifecycle_event, arrive, append_record_locked, open_record, prune_dirty, prune_to,
  refresh_after_message, touch, touched_by,
}
use coderoom.Room.Delta.{
  can_build, collect_dirty, delta_record_indices, indexed_records, Delta, delta,
}
use coderoom.Room.Frame.{touched_by-untouched}
use coderoom.Room.History.{RoomOp, applies, appends, run_ops}
use coderoom.Room.Sync.{present, delta_sync}
use coderoom.Room.Available.{delta_available}
use coderoom.Room.Streams.{stream_in_range}

abbrev fragment : String → Message
fragment text = record { stream_id = "s"; mode = stream; content = output_content text }

abbrev says : String → Event
says text =
    agent_message
      (record { alias = "ann"; msg = fragment text; turn_completed = false; turn_id = 1 })

abbrev first : List RoomOp
first = applies (agent_started "ann") ∷ applies (says "hel") ∷ []

abbrev more : List RoomOp
more = applies (says "lo") ∷ appends (system_record "done") ∷ []

abbrev said : Room
said = run_ops first new_room

abbrev slot : OpenStream
slot = record { alias = "ann"; record_idx = 1; stream_id = "s"; kind = open_output }

abbrev change : Delta
change = record {
  room_id = "shared";
  version = 4;
  meta = record { members = "ann" ∷ []; departed = []; open_streams = slot ∷ [] };
  record_updates =
      record { index = 1; rec' = new_agent_record "ann" (fragment "hello") }
      ∷ record { index = 2; rec' = system_record "done" }
      ∷ [];
}

delta_sync_example :
    (change.version ≡ (run_ops more said).version)
    × ((i : ℕ)
        → present change.record_updates (get_elem? said.records) i
          ≡ get_elem? (run_ops more said).records i)
unfolding delta apply_event touched_by bump_version handle_agent_message merged_record Dict.get
    handle_lifecycle_event arrive append_record_locked refresh_latest_handoff_source Sets.contains
    Sets.insert new_room swap_latest_handoff_source has_marked latest_handoff_source accumulate
    merge_content Dict.delete Dict.keys Dict.put Sets.remove compact sort can_build collect_dirty
    delta_record_indices indexed_records scan_handoff open_record prune_dirty prune_to
    refresh_after_message touch append_record accumulate_record body_from_agent_message
    kind_for_agent_message mark new_agent_record
delta_sync_example = delta_sync more said change refl

delta_available_example : (d : Delta) × (delta 1 (run_ops first new_room) ≡ ok d)
unfolding delta apply_event touched_by bump_version handle_agent_message merged_record Dict.get
    handle_lifecycle_event arrive append_record_locked refresh_latest_handoff_source Sets.contains
    Sets.insert new_room swap_latest_handoff_source has_marked latest_handoff_source accumulate
    merge_content Dict.delete Dict.keys Dict.put Sets.remove compact sort can_build collect_dirty
    delta_record_indices indexed_records scan_handoff open_record prune_dirty prune_to
    refresh_after_message touch append_record accumulate_record body_from_agent_message
    kind_for_agent_message mark new_agent_record
delta_available_example = delta_available first 1 (omega arith) (omega arith) (omega arith)

stream_in_range_example : 1 < length said.records
unfolding delta apply_event touched_by bump_version handle_agent_message merged_record Dict.get
    handle_lifecycle_event arrive append_record_locked refresh_latest_handoff_source Sets.contains
    Sets.insert new_room swap_latest_handoff_source has_marked latest_handoff_source accumulate
    merge_content Dict.delete Dict.keys Dict.put Sets.remove compact sort can_build collect_dirty
    delta_record_indices indexed_records scan_handoff open_record prune_dirty prune_to
    refresh_after_message touch append_record accumulate_record body_from_agent_message
    kind_for_agent_message mark new_agent_record
stream_in_range_example = stream_in_range first "s" slot refl

abbrev next : Room × List ℕ
next = handle_agent_message "ann" (fragment "lo") said

touched_by-untouched_example : get_elem? next.0.records 0 ≡ get_elem? said.records 0
unfolding delta apply_event touched_by bump_version handle_agent_message merged_record Dict.get
    handle_lifecycle_event arrive append_record_locked refresh_latest_handoff_source Sets.contains
    Sets.insert new_room swap_latest_handoff_source has_marked latest_handoff_source accumulate
    merge_content Dict.delete Dict.keys Dict.put Sets.remove compact sort can_build collect_dirty
    delta_record_indices indexed_records scan_handoff open_record prune_dirty prune_to
    refresh_after_message touch append_record accumulate_record body_from_agent_message
    kind_for_agent_message mark new_agent_record
touched_by-untouched_example = touched_by-untouched (says "lo") said next.0 next.1 0 refl refl

abbrev answer : Record
answer =
    record (new_agent_record "ann"
      (record { stream_id = "s"; mode = single; content = output_content "hi" })) {
        handoff_source = true;
      }

abbrev answered : List RoomOp
answered =
    applies (agent_started "ann")
    ∷ applies (
        agent_message (record {
          alias = "ann";
          msg = record { stream_id = "s"; mode = single; content = output_content "hi" };
          turn_completed = true;
          turn_id = 1;
        }))
    ∷ []

one_source_example : ◌≡◌ {A = ℕ} 1 1
unfolding apply_event touched_by bump_version handle_agent_message merged_record Dict.get
    handle_lifecycle_event arrive append_record_locked refresh_latest_handoff_source Sets.contains
    Sets.insert new_room swap_latest_handoff_source has_marked latest_handoff_source accumulate
    merge_content Dict.delete Dict.put Sets.remove compact sort scan_handoff open_record prune_dirty
    prune_to refresh_after_message touch accumulate_record body_from_agent_message
    kind_for_agent_message mark new_agent_record handoff_eligible_output
one_source_example = one_source answered 1 1 answer answer (tt, (tt, tt)) refl refl refl refl refl
