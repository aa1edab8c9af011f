-- ===== src/Participant.antt =====
-- internal/participant/participant.go: one participant, its status machine and its open streams.
-- A method on `*Participant` returns the new record beside its error. `time.Time` is a number, and
-- an agent handle, of which this package only tests `!= nil`, is the number of a live object.
pub mod Calls
pub mod Graph
pub mod Invariant
pub mod Turns
pub mod Registry
mod Tests
use coderoom.Prelude.Sets
use coderoom.Prelude.{
  ℕ, String, Bool, true, false, not, ◌&&◌, ◌||◌, Option, none, some, List, [], ◌∷◌, ◌==◌, string_eq,
  nat_eq, is_some, if◌then◌else◌,
}

pub data Initiative : Type 0 where
  manual active autonomous : Initiative

-- `unset` is the zero value "" of a participant that `New` has just built.
pub data Status : Type 0 where
  unset idle starting attached preparing keepalive working crashed : Status

pub Status-discrete : Discrete Status
Status-discrete = hlevel

abbrev pub status_is : Status → Status → Bool
status_is idle idle = true
status_is starting starting = true
status_is attached attached = true
status_is preparing preparing = true
status_is keepalive keepalive = true
status_is working working = true
status_is crashed crashed = true
status_is unset unset = true
status_is _ _ = false

pub record View : Type 0 where
  pub alias : String
  pub role : String
  pub initiative : Initiative
  pub status : Status
  pub color : String
  pub since : ℕ
  pub startup_ready : Bool
  pub turn_id : ℕ

pub record Participant : Type 0 where
  pub view : View
  pub agent : Option ℕ
  pub open_streams : List String
  pub anchor : String

pub data ParticipantError : Type 0 where
  work_already_started streams_still_open not_working not_preparing : ParticipantError
  stream_not_tracked : String → ParticipantError
  not_ready_for_work not_starting not_attached not_idle : ParticipantError
  not_active not_keepalive invalid_turn_id : ParticipantError

abbrev pub Outcome : Type 0
Outcome = Participant × Option ParticipantError

unfoldable pub new_participant : String → String → Initiative → Participant
new_participant alias role initiative = record {
  view = record {
    alias = alias;
    role = role;
    initiative = initiative;
    status = unset;
    color = "";
    since = 0;
    startup_ready = false;
    turn_id = 0;
  };
  agent = none;
  open_streams = [];
  anchor = "";
}

-- The predicates on a view.
abbrev pub has_active_turn : View → Bool
has_active_turn v = status_is v.status preparing || status_is v.status working

abbrev pub is_sendable : View → Bool
is_sendable v = v.startup_ready && (status_is v.status idle || has_active_turn v)

abbrev pub is_routable : View → Bool
is_routable v = status_is v.status idle || status_is v.status working

abbrev pub is_ready_for_work : View → Bool
is_ready_for_work v = v.startup_ready && status_is v.status idle

abbrev pub is_cancellable : View → Bool
is_cancellable v = is_sendable v

abbrev pub is_removable : View → Bool
is_removable v =
    if status_is v.status crashed
    then true
    else v.startup_ready
      && (status_is v.status idle || (has_active_turn v || status_is v.status keepalive))

-- The methods of the same names on `*Participant` add the test of the handle.
abbrev pub sendable : Participant → Bool
sendable p = is_some p.agent && is_sendable p.view

abbrev pub cancellable : Participant → Bool
cancellable p = is_some p.agent && is_cancellable p.view

-- `resetOpenStreams` and `p.anchor = ""`, which stand together at each use.
abbrev pub reset_open_streams : Participant → Participant
reset_open_streams p = record p { open_streams = [] }

-- The pair of assignments to `Status` and `Since`.
abbrev enter : Status → ℕ → Participant → Participant
enter st now p = record p { view = record p.view { status = st; since = now } }

unfoldable pub begin_startup : ℕ → Participant → Participant
begin_startup now p =
    let q = record (reset_open_streams p) { anchor = "" } in
    record q { view = record q.view { startup_ready = false; status = starting; since = now } }

unfoldable pub session_ready : Participant → Outcome
session_ready p =
    if not (status_is p.view.status idle)
    then (p, some not_idle)
    else (record p { view = record p.view { startup_ready = true } }, none)

unfoldable pub attach_agent : Option ℕ → ℕ → Participant → Outcome
attach_agent a now p =
    if not (status_is p.view.status starting)
    then (p, some not_starting)
    else (enter attached now (record p { agent = a }), none)

unfoldable pub commit_idle : ℕ → Participant → Outcome
commit_idle now p =
    if not (status_is p.view.status attached)
    then (p, some not_attached)
    else (enter idle now p, none)

-- The test of `BecomeIdle` on what is still open.
abbrev pub turn_open : Participant → Bool
turn_open p =
    if not (p.anchor == "")
    then Sets.contains p.open_streams p.anchor
    else elim p.open_streams [ [] ↦ false | _ ∷ _ ↦ true ]

unfoldable pub become_idle : ℕ → Participant → Outcome
become_idle now p =
    if not (status_is p.view.status working)
    then (p, some not_working)
    else if turn_open p
    then (p, some streams_still_open)
    else (enter idle now (record (reset_open_streams p) { anchor = "" }), none)

unfoldable pub crash : ℕ → Participant → Participant
crash now p = enter crashed now (record (reset_open_streams p) { anchor = "" })

-- The `switch` has no case for the zero value, which falls through as idle does.
abbrev prepare_guard : Status → Option ParticipantError
prepare_guard starting = some not_ready_for_work
prepare_guard attached = some not_ready_for_work
prepare_guard crashed = some not_ready_for_work
prepare_guard working = some work_already_started
prepare_guard preparing = some work_already_started
prepare_guard keepalive = some work_already_started
prepare_guard idle = none
prepare_guard unset = none

unfoldable pub prepare_for_work : ℕ → Participant → Outcome
prepare_for_work now p = elim (prepare_guard p.view.status) [
  | some e ↦ (p, some e)
  | none ↦ (enter preparing now (record (reset_open_streams p) { anchor = "" }), none)
]

unfoldable pub begin_keepalive : ℕ → Participant → Outcome
begin_keepalive now p =
    if not (status_is p.view.status idle) then (p, some not_idle) else (enter keepalive now p, none)

unfoldable pub finish_keepalive : ℕ → Participant → Outcome
finish_keepalive now p =
    if not (status_is p.view.status keepalive)
    then (p, some not_keepalive)
    else (enter idle now p, none)

abbrev anchored : String → List String → List String
anchored anchor streams = if not (anchor == "") then Sets.insert anchor streams else streams

unfoldable pub begin_working : ℕ → String → ℕ → Participant → Outcome
begin_working now anchor turn_id p =
    if not (status_is p.view.status preparing)
    then (p, some not_preparing)
    else if turn_id == 0
    then (p, some invalid_turn_id)
    else (
      record p {
        anchor = anchor;
        open_streams = anchored anchor p.open_streams;
        view = record p.view { turn_id = turn_id; status = working; since = now };
      },
      none,
    )

unfoldable pub abort_work : ℕ → Participant → Outcome
abort_work now p =
    if not (has_active_turn p.view)
    then (p, some not_working)
    else (enter idle now (record (reset_open_streams p) { anchor = "" }), none)

unfoldable pub track_stream : String → Participant → Outcome
track_stream stream_id p =
    if not (has_active_turn p.view)
    then (p, some not_active)
    else (record p { open_streams = Sets.insert stream_id p.open_streams }, none)

-- The new participant, `shouldIdle` and the error.
unfoldable pub close_stream : String → Participant → Participant × Bool × Option ParticipantError
close_stream stream_id p =
    if not (has_active_turn p.view)
    then (p, false, some not_working)
    else if not (Sets.contains p.open_streams stream_id)
    then (p, false, some (stream_not_tracked stream_id))
    else (
      record p { open_streams = Sets.remove stream_id p.open_streams },
      if not (status_is p.view.status working) then false else stream_id == p.anchor,
      none,
    )
