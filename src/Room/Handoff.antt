-- ===== src/Room/Handoff.antt =====
-- internal/room/handoff.go: the latest completed output of each member. An index that may be absent,
-- in Go a pair of an `int` and a `bool`, is an `Option`.
use coderoom.Prelude.Dict
use coderoom.Prelude.Sets
use coderoom.Prelude.{
  ℕ, zero, suc, String, Bool, true, false, not, ◌&&◌, Option, none, some, List, [], ◌∷◌, ◌++◌, ◌==◌,
  string_eq, nat_eq, if◌then◌else◌, get_elem?, length, is_some,
}
use coderoom.Agent.{Message, Mode, single, output_content}
use coderoom.Session.Event.{HandoffSource}
use coderoom.Room.Records.{Record, Room, mark}

abbrev mode_is_single : Mode → Bool
mode_is_single single = true
mode_is_single _ = false

-- The text of a message, if it is an output that is complete and not empty.
abbrev pub completed_output : Room → Message → Option String
completed_output r m = elim m.content [
  | output_content text ↦
      if not (mode_is_single m.mode) && is_some (Dict.get m.stream_id r.streaming)
      then none
      else if text == ""
      then none
      else some text
  | _ ↦ none
]

abbrev pub eligible_record : Room → String → Record → Option String
eligible_record r alias rec' =
    if not (rec'.alias == alias)
    then none
    else elim rec'.msg [ none ↦ none | some m ↦ completed_output r m ]

-- `handoffEligibleOutputLocked`
unfoldable pub handoff_eligible_output : Room → ℕ → String → Option String
handoff_eligible_output r index alias = elim (get_elem? r.records index) [
  | none ↦ none
  | some rec' ↦ eligible_record r alias rec'
]

-- The loop of `latestHandoffSourceLocked` below an index.
unfoldable pub scan_handoff : Room → String → ℕ → Option HandoffSource
scan_handoff r alias zero = none
scan_handoff r alias (suc i) =
    let earlier = scan_handoff r alias i in
    elim (handoff_eligible_output r i alias) [
      | none ↦ earlier
      | some text ↦ some (record { text = text; record_index = i })
    ]

unfoldable pub latest_handoff_source : String → Room → Option HandoffSource
latest_handoff_source alias r =
    if not (Sets.contains r.members alias) then none else scan_handoff r alias (length r.records)

unfoldable pub latest_completed_output : String → Room → Option String
latest_completed_output alias r = elim (latest_handoff_source alias r) [
  | none ↦ none
  | some source ↦ some source.text
]

-- `hasMarkedHandoffSourceLocked`
unfoldable pub has_marked : Option ℕ → Room → Bool
has_marked none r = false
has_marked (some i) r = elim (get_elem? r.records i) [
  | none ↦ false
  | some rec' ↦ rec'.handoff_source
]

abbrev the_index : Option ℕ → List ℕ
the_index none = []
the_index (some i) = i ∷ []

abbrev unmark_at : Option ℕ → List Record → List Record
unmark_at none rs = rs
unmark_at (some i) rs = mark false i rs

unfoldable pub clear_latest_handoff_source : String → Option ℕ → Room → Room × List ℕ
clear_latest_handoff_source alias prev r =
    let s = record r { latest_handoff = Dict.delete alias r.latest_handoff } in
    if not (has_marked prev s)
    then (s, [])
    else (record s { records = unmark_at prev s.records }, the_index prev)

abbrev same_index : Option ℕ → Option ℕ → Bool
same_index (some i) (some j) = i == j
same_index none none = true
same_index _ _ = false

-- The second half of `swapLatestHandoffSourceLocked`, after the earlier mark is gone.
set_latest : String → Option ℕ → List ℕ → Room → Room × List ℕ
set_latest alias none dirty r =
    (record r { latest_handoff = Dict.delete alias r.latest_handoff }, dirty)
set_latest alias (some next) dirty r =
    let s = record r { latest_handoff = Dict.put alias next r.latest_handoff } in
    if has_marked (some next) s
    then (s, dirty)
    else (record s { records = mark true next s.records }, dirty ++ next ∷ [])

unfoldable pub swap_latest_handoff_source : String → Option ℕ → Option ℕ → Room → Room × List ℕ
unfolding set_latest
swap_latest_handoff_source alias prev next r =
    if has_marked prev r && not (same_index prev next)
    then set_latest alias next (the_index prev) (record r { records = unmark_at prev r.records })
    else set_latest alias next [] r

abbrev pub index_of : Option HandoffSource → Option ℕ
index_of none = none
index_of (some source) = some source.record_index

unfoldable pub refresh_latest_handoff_source : String → Room → Room × List ℕ
refresh_latest_handoff_source alias r =
    let prev = Dict.get alias r.latest_handoff in
    if not (Sets.contains r.members alias)
    then clear_latest_handoff_source alias prev r
    else swap_latest_handoff_source alias prev (index_of (latest_handoff_source alias r)) r
