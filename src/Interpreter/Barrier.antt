-- ===== src/Interpreter/Barrier.antt =====
-- internal/interpreter/workflow_stage.go: who a staged submission waits for. A stage's statement is
-- one of the three that `start` is given.
use coderoom.Prelude.Sets
use coderoom.Prelude.Sort.{sort_texts}
use coderoom.Prelude.{
  ℕ, String, Bool, true, false, not, ◌&&◌, ◌||◌, Option, none, some, List, [], ◌∷◌, ◌==◌, string_eq,
  if◌then◌else◌,
}
use coderoom.Participant.{
  Status, View, manual, status_is, idle, starting, attached, crashed, is_routable,
  is_ready_for_work, has_active_turn, is_cancellable,
}
use coderoom.Interpreter.{ParticipantState}

pub data Addressed : Type 0 where
  to_one : String → String → Addressed
  to_all : String → Addressed

pub data Staged : Type 0 where
  message : Addressed → Staged
  handoff : String → String → Staged

-- `participantState.view`
abbrev pub view_of : ParticipantState → View
view_of v = record {
  alias = v.alias;
  role = "";
  initiative = manual;
  status = v.status;
  color = "";
  since = 0;
  startup_ready = not v.startup_pending;
  turn_id = v.turn_id;
}

-- The entry of an alias in `byAlias`, where a later one replaces an earlier one.
abbrev pub entry_of : String → List ParticipantState → Option ParticipantState
entry_of alias [] = none
entry_of alias (v ∷ vs) = elim (entry_of alias vs) [
  | some w ↦ some w
  | none ↦ if v.alias == alias then some v else none
]

abbrev pub blocks : List String → ParticipantState → Bool
blocks unavailable v =
    not (is_ready_for_work (view_of v)) && not (Sets.contains unavailable v.alias)

-- The loop of `blockedAliases`.
abbrev pub blocked : List ParticipantState → List String → List String
blocked [] unavailable = []
blocked (v ∷ vs) unavailable =
    let rest = blocked vs unavailable in if blocks unavailable v then v.alias ∷ rest else rest

unfoldable pub blocked_aliases : List ParticipantState → List String → List String
blocked_aliases barrier unavailable = sort_texts (blocked barrier unavailable)

abbrev pub active_aliases : List String → List String → List String
active_aliases [] unavailable = []
active_aliases (a ∷ as') unavailable =
    let rest = active_aliases as' unavailable in
    if Sets.contains unavailable a then rest else a ∷ rest

abbrev pub aliases_of : List ParticipantState → List String
aliases_of [] = []
aliases_of (v ∷ vs) = v.alias ∷ aliases_of vs

unfoldable pub active_barrier_aliases : List ParticipantState → List String → List String
active_barrier_aliases barrier unavailable =
    sort_texts (active_aliases (aliases_of barrier) unavailable)

abbrev pub contains_participant : List ParticipantState → String → Bool
contains_participant [] alias = false
contains_participant (v ∷ vs) alias = v.alias == alias || contains_participant vs alias

abbrev pub is_missing : List ParticipantState → String → Bool
is_missing barrier alias = elim (entry_of alias barrier) [
  | none ↦ true
  | some v ↦ status_is v.status crashed
]

-- The loop of `stageReadiness` over the routing.
abbrev pub missing : List ParticipantState → List String → List String
missing barrier [] = []
missing barrier (a ∷ as') =
    let rest = missing barrier as' in if is_missing barrier a then a ∷ rest else rest

-- `stageReadiness`: who blocks, and who is unavailable.
unfoldable pub stage_readiness : List ParticipantState → List String → List String × List String
stage_readiness barrier routing =
    let unavailable = sort_texts (missing barrier routing) in
    (blocked_aliases barrier unavailable, unavailable)

abbrev pub handoff_routing : String → String → List String
handoff_routing from to = if from == to then from ∷ [] else from ∷ to ∷ []

abbrev pub keep_for_handoff : List String → List ParticipantState → List ParticipantState
keep_for_handoff explicit [] = []
keep_for_handoff explicit (v ∷ vs) =
    let rest = keep_for_handoff explicit vs in
    if Sets.contains explicit v.alias || (is_routable (view_of v) && not v.startup_pending)
    then v ∷ rest
    else rest

abbrev pub routed : List String → List ParticipantState → List ParticipantState
routed [] participants = []
routed (a ∷ as') participants =
    let rest = routed as' participants in
    elim (entry_of a participants) [ none ↦ rest | some v ↦ v ∷ rest ]

-- `freezeStageBarrier`
unfoldable pub freeze_barrier : Staged → List String → List ParticipantState → List ParticipantState
freeze_barrier (message m) routing participants = routed routing participants
freeze_barrier (handoff from to) routing participants =
    keep_for_handoff (handoff_routing from to) participants

abbrev pub barrier_turn_id : List ParticipantState → String → ℕ
barrier_turn_id [] alias = 0
barrier_turn_id (v ∷ vs) alias =
    let rest = barrier_turn_id vs alias in if v.alias == alias then v.turn_id else rest

-- The first entry of an alias is replaced; the loops of the four updates return after it.
abbrev pub update_first :
    (ParticipantState → ParticipantState) → String → List ParticipantState → List ParticipantState
update_first f alias [] = []
update_first f alias (v ∷ vs) =
    let rest = update_first f alias vs in if v.alias == alias then f v ∷ vs else v ∷ rest

-- An idle status alone does not end a startup.
abbrev pub with_status : Status → ParticipantState → ParticipantState
with_status status v = record v {
  status = status;
  startup_pending =
      if status_is status idle && (status_is v.status starting || status_is v.status attached)
      then true
      else v.startup_pending;
}

abbrev pub with_turn : ℕ → ParticipantState → ParticipantState
with_turn turn v = record v { turn_id = turn }

abbrev pub with_startup : ParticipantState → ParticipantState
with_startup v = record v { status = idle; startup_pending = false }

-- The first entry of the source decides.
abbrev pub source_is_working : String → List ParticipantState → Bool
source_is_working from [] = false
source_is_working from (v ∷ vs) =
    let rest = source_is_working from vs in
    if v.alias == from then has_active_turn (view_of v) else rest

abbrev pub interruptible : List ParticipantState → List String → List String → List String
interruptible [] blocking interrupted = []
interruptible (v ∷ vs) blocking interrupted =
    let rest = interruptible vs blocking interrupted in
    if (has_active_turn (view_of v) && is_cancellable (view_of v))
      && (Sets.contains blocking v.alias && not (Sets.contains interrupted v.alias))
    then v.alias ∷ rest
    else rest
