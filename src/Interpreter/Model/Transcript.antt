-- ===== src/Interpreter/Model/Transcript.antt =====
-- internal/interpreter/transcript.go: who applies the changes of the transcript, in the order in
-- which they were made, has the records of the room.
use coderoom.Prelude.Results.{ok, err, Result-cases}
use coderoom.Prelude.{
  ℕ, zero, suc, ◌+◌, ◌≤◌, ◌<◌, ◌≡◌, refl, sym, ap, subst, ◌∙◌, inl, inr, Option, none, some, List,
  [], ◌∷◌, ◌++◌, arith, ◌==◌, nat_eq, if◌then◌else◌, get_elem?, get_elem?-none, length,
  Option-cases,
}
use mathlib.Core.List.{append_assoc, append-nil}
use coderoom.Room.Records.{Record, Room, new_room}
use coderoom.Room.Projection
use coderoom.Room.Projection.{Update, apply_event, touched_by}
use coderoom.Room.Delta.{Delta, DeltaError, IndexedRecord, delta, snapshot}
use coderoom.Room.History.{RoomOp, applies, appends, apply_op, run-Since}
use coderoom.Room.Sync.{present, delta_sync}
use coderoom.Interpreter.Model.{
  Model, new_model, indexed_from, whole_room, or_whole, change_since, on_room_update, with_room,
  take_transcript_changes,
}

-- What the model is given to do with its room and its changes.
pub data TranscriptOp : Type 0 where
  on_room : RoomOp → TranscriptOp
  taken : TranscriptOp

-- `ApplyEvent` and `AppendRecord` of the room
abbrev pub room_op : RoomOp → Room → Room × Option Update
room_op (applies e) r = apply_event e r
room_op (appends x) r = Projection.append_record x r

-- The model and the changes that were taken from it so far.
abbrev pub transcribe : TranscriptOp → Model × List Delta → Model × List Delta
transcribe (on_room o) (m, out) = (with_room (room_op o m.room) m, out)
transcribe taken (m, out) = let (n, changes) = take_transcript_changes m in (n, out ++ changes)

unfoldable pub transcribe_all : List TranscriptOp → Model × List Delta → Model × List Delta
unfolding with_room take_transcript_changes
transcribe_all [] s = s
transcribe_all (o ∷ os) s = transcribe_all os (transcribe o s)

-- The reader of the changes.
abbrev pub present_all : List Delta → (ℕ → Option Record) → ℕ → Option Record
present_all [] shown i = shown i
present_all (d ∷ ds) shown i = present_all ds (present d.record_updates shown) i

present-same :
    (us : List IndexedRecord) (f g : ℕ → Option Record)
    → ((i : ℕ) → f i ≡ g i)
    → (i : ℕ) → present us f i ≡ present us g i
present-same [] f g same i = same i
present-same (u ∷ us) f g same i =
    present-same us (λ j. if u.index == j then some u.rec' else f j)
      (λ j. if u.index == j then some u.rec' else g j)
      (λ j. ap (λ x. if u.index == j then some u.rec' else x) (same j)) i

present_all-append :
    (ds : List Delta) (d : Delta) (shown : ℕ → Option Record) (i : ℕ)
    → present_all (ds ++ d ∷ []) shown i ≡ present d.record_updates (present_all ds shown) i
present_all-append [] d shown i = refl
present_all-append (e ∷ ds) d shown i = present_all-append ds d (present e.record_updates shown) i

abbrev nothing : ℕ → Option Record
nothing i = none

-- What the reader has once it takes all the changes.
abbrev pub mirrored : Model × List Delta → ℕ → Option Record
mirrored (m, out) i = present_all (out ++ m.transcript_changes) nothing i

present-indexed_before :
    (xs : List Record) (k : ℕ) (shown : ℕ → Option Record) (i : ℕ)
    → i < k
    → present (indexed_from k xs) shown i ≡ shown i
unfolding indexed_from
present-indexed_before [] k shown i lt = refl
present-indexed_before (x ∷ xs) k shown i lt =
    present-indexed_before xs (suc k) (λ j. if k == j then some x else shown j) i (omega arith)
    ∙ ground (arith, nat_eq.eqb_iff k i)

-- The records from `k` on, over what is shown already but of no later index.
present-indexed_from :
    (xs : List Record) (k : ℕ) (shown : ℕ → Option Record) (i : ℕ)
    → (length xs ≤ i → shown (k + i) ≡ none)
    → present (indexed_from k xs) shown (k + i) ≡ get_elem? xs i
unfolding indexed_from
present-indexed_from [] k shown i gone = gone (omega arith)
present-indexed_from (x ∷ xs) k shown zero gone =
    present-indexed_before xs (suc k) (λ j. if k == j then some x else shown j) (k + zero)
      (omega arith)
    ∙ ground (arith, nat_eq.eqb_iff k (k + zero))
present-indexed_from (x ∷ xs) k shown (suc i) gone =
    let shift : suc k + i ≡ k + suc i = omega arith in
    subst
      (λ j.
        present (indexed_from (suc k) xs) (λ j. if k == j then some x else shown j) j
        ≡ get_elem? xs i)
      shift
      (present-indexed_from xs (suc k) (λ j. if k == j then some x else shown j) i
        (λ le. ground (arith, nat_eq.eqb_iff k (suc k + i), ap shown shift, gone (omega arith))))

present-whole_room :
    (r : Room) (shown : ℕ → Option Record) (i : ℕ)
    → (length r.records ≤ i → shown i ≡ none)
    → present (whole_room r).record_updates shown i ≡ get_elem? r.records i
unfolding whole_room snapshot
present-whole_room r shown i gone =
    let at : zero + i ≡ i = omega arith in
    subst (λ j. present (indexed_from 0 r.records) shown j ≡ get_elem? r.records i) at
      (present-indexed_from r.records 0 shown i (λ le. ap shown at ∙ gone le))

change_since-err :
    (v : ℕ) (r : Room) (e : DeltaError) → delta v r ≡ err e → change_since v r ≡ whole_room r
unfolding change_since
change_since-err v r e h = ap (λ d. or_whole d r) h

change_since-ok : (v : ℕ) (r : Room) (d : Delta) → delta v r ≡ ok d → change_since v r ≡ d
unfolding change_since
change_since-ok v r d h = ap (λ x. or_whole x r) h

abbrev CatchesUp : (ℕ → Option Record) → Room → Delta → Type 0
CatchesUp shown r d =
    (d.version ≡ r.version) × ((i : ℕ) → present d.record_updates shown i ≡ get_elem? r.records i)

-- What one change does to a reader that has the room as it was.
present-change_since :
    (o : RoomOp) (r : Room) (shown : ℕ → Option Record)
    → ((i : ℕ) → shown i ≡ get_elem? r.records i)
    → CatchesUp shown (apply_op o r) (change_since r.version (apply_op o r))
present-change_since o r shown same = elim (Result-cases (delta r.version (apply_op o r))) [
  | inr (e, h) ↦
      subst (CatchesUp shown (apply_op o r)) (sym (change_since-err r.version (apply_op o r) e h)) (
        unfold whole_room snapshot in refl,
        λ i. present-whole_room (apply_op o r) shown i (λ le.
            same i ∙ get_elem?-none r.records i (omega (arith, (run-Since (o ∷ []) r).grows))),
      )
  | inl (d, h) ↦
      let (version, records) = delta_sync (o ∷ []) r d h in
      subst (CatchesUp shown (apply_op o r)) (sym (change_since-ok r.version (apply_op o r) d h))
        (version, λ i. present-same d.record_updates shown (get_elem? r.records) same i ∙ records i)
]

room_op-apply_op : (o : RoomOp) (r : Room) → (room_op o r).0 ≡ apply_op o r
room_op-apply_op (applies e) r = refl
room_op-apply_op (appends x) r = refl

room_op-none : (o : RoomOp) (r : Room) → (room_op o r).1 ≡ none → (room_op o r).0 ≡ r
unfolding apply_event Projection.append_record
room_op-none (applies e) r h = elim (Option-cases (touched_by e r)) [
  | inl t ↦ ground arith
  | inr (s, t) ↦ ground arith
]
room_op-none (appends x) r h = ground arith

-- The reader that takes all the changes has the room, whose version was the last to be told.
record Mirrors (m : Model) (out : List Delta) : Type 0 where
  version : m.transcript_version ≡ m.room.version
  records : (i : ℕ) → mirrored (m, out) i ≡ get_elem? m.room.records i

-- A change is made, and told to the reader.
told-Mirrors :
    (o : RoomOp) (m : Model) (out : List Delta)
    → Mirrors m out
    → Mirrors (on_room_update (record m { room = apply_op o m.room })) out
unfolding on_room_update
told-Mirrors o m out h =
    let from : m.transcript_version ≡ m.room.version = h.version in
    let (version, records) = present-change_since o m.room (mirrored (m, out)) h.records in
    record {
      version = rw from version;
      records = λ i. rw from (
          ap (λ ds. present_all ds nothing i)
            (sym (
              append_assoc out m.transcript_changes
                (change_since m.room.version (apply_op o m.room) ∷ [])))
          ∙ present_all-append (out ++ m.transcript_changes)
              (change_since m.room.version (apply_op o m.room)) nothing i
          ∙ records i);
    }

with_room-Mirrors :
    (o : RoomOp) (m : Model) (out : List Delta) (s : Room) (u : Option Update)
    → s ≡ apply_op o m.room
    → (u ≡ none → s ≡ m.room)
    → Mirrors m out
    → Mirrors (with_room (s, u) m) out
unfolding with_room
with_room-Mirrors o m out s none e still h =
    subst (λ r. Mirrors (record m { room = r }) out) (sym (still refl)) h
with_room-Mirrors o m out s (some u) e still h =
    subst (λ r. Mirrors (on_room_update (record m { room = r })) out) (sym e)
      (told-Mirrors o m out h)

taken-Mirrors :
    (m : Model) (out : List Delta)
    → Mirrors m out
    → Mirrors (record m { transcript_changes = [] }) (out ++ m.transcript_changes)
taken-Mirrors m out h = record {
  version = h.version;
  records = λ i.
      ap (λ ds. present_all ds nothing i) (append-nil (out ++ m.transcript_changes)) ∙ h.records i;
}

transcribe-Mirrors :
    (o : TranscriptOp) (m : Model) (out : List Delta)
    → Mirrors m out
    → Mirrors (transcribe o (m, out)).0 (transcribe o (m, out)).1
transcribe-Mirrors (on_room o) m out h =
    with_room-Mirrors o m out (room_op o m.room).0 (room_op o m.room).1 (room_op-apply_op o m.room)
      (room_op-none o m.room) h
transcribe-Mirrors taken m out h = unfold take_transcript_changes in taken-Mirrors m out h

transcribe_all-Mirrors :
    (os : List TranscriptOp) (m : Model) (out : List Delta)
    → Mirrors m out
    → Mirrors (transcribe_all os (m, out)).0 (transcribe_all os (m, out)).1
unfolding transcribe_all
transcribe_all-Mirrors [] m out h = h
transcribe_all-Mirrors (o ∷ os) m out h =
    transcribe_all-Mirrors os (transcribe o (m, out)).0 (transcribe o (m, out)).1
      (transcribe-Mirrors o m out h)

new_model-Mirrors : Mirrors new_model []
unfolding new_model new_room
new_model-Mirrors = record { version = refl; records = λ i. refl }

-- Whatever happens to the room, and whenever the changes of the transcript are taken: a reader that
-- started with nothing and applies the changes taken so far and those still kept, in their order,
-- has exactly the room's records, and the version last told to it is the room's.
pub transcript_mirrors_room :
    (os : List TranscriptOp) (m : Model) (out : List Delta)
    → transcribe_all os (new_model, []) ≡ (m, out)
    → ((i : ℕ) → mirrored (m, out) i ≡ get_elem? m.room.records i)
      × (m.transcript_version ≡ m.room.version)
transcript_mirrors_room os m out h =
    let done =
      subst (λ s. Mirrors s.0 s.1) h (transcribe_all-Mirrors os new_model [] new_model-Mirrors) in
    (done.records, done.version)
