-- ===== src/Interpreter/Model/Tests.antt =====
-- internal/interpreter/model.go and transcript.go: a room with one participant, and the changes that
-- its reader is told.
use coderoom.Prelude.{ℕ, ◌≡◌, refl, List, [], ◌∷◌, get_elem?}
use coderoom.Session.Event.{agent_started, agent_stopped}
use coderoom.Room.Records.{log_record}
use coderoom.Room.Delta.{Delta}
use coderoom.Room.History.{applies, appends}
use coderoom.Interpreter.Model.{Model, new_model}
use coderoom.Interpreter.Model.Transcript.{
  TranscriptOp, on_room, taken, transcribe_all, mirrored, transcript_mirrors_room,
}

abbrev visit : List TranscriptOp
visit =
    on_room (applies (agent_started "ann"))
    ∷ taken
    ∷ on_room (appends (log_record "ann" "hello"))
    ∷ on_room (applies (agent_stopped "ann"))
    ∷ []

abbrev visited : Model × List Delta
visited = transcribe_all visit (new_model, [])

transcript_mirrors_room_example :
    ((i : ℕ) → mirrored visited i ≡ get_elem? visited.0.room.records i)
    × (visited.0.transcript_version ≡ visited.0.room.version)
transcript_mirrors_room_example = transcript_mirrors_room visit visited.0 visited.1 refl
