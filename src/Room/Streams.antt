-- ===== src/Room/Streams.antt =====
-- internal/room: the open streams point into the records, so that the unchecked index of
-- `handleAgentMessageLocked` is always in range.
use coderoom.Prelude.Dict
use coderoom.Prelude.Dict.{Dict}
use coderoom.Prelude.Sets
use coderoom.Prelude.{
  ℕ, ◌≤◌, ◌<◌, String, ◌≡◌, refl, ◌&&◌, Option, none, some, List, [], ◌∷◌, arith, string_eq, length,
  length-append, length-set, set, All, inl, inr, Option-cases, Bool-cases, sym, ◌∙◌, subst,
}
use mathlib.Core.Option.{some-injective}
use coderoom.Agent.{Message}
use coderoom.Session.Event.{
  Event, agent_starting, agent_started, agent_stopped, agent_crashed, agent_log, agent_message,
  context_handoff,
}
use coderoom.Room.Records.{Record, Room, OpenStream, new_room, new_agent_record}
use coderoom.Room.Handoff.{
  clear_latest_handoff_source, swap_latest_handoff_source, refresh_latest_handoff_source,
}
use coderoom.Room.Projection.{
  append_record_locked, refresh_after_message, merged_record, handle_agent_message, drop_streams,
  handle_departure, handle_lifecycle_event, touched_by, seal_stream, touch, open_record, arrive,
  depart, is_turn_content, is_flush, apply_event, append_record, bump_version,
}
use coderoom.Room.Frame.{refresh_after_cases}
use coderoom.Room.Steps.{refresh-Keeps}
use coderoom.Room.History.{RoomOp, applies, appends, apply_op, run_ops}

-- An entry of the table of open streams that stands under its own id and in range.
abbrev InRange : ℕ → String × OpenStream → Type 0
InRange n (id, slot) = (slot.stream_id ≡ id) × (slot.record_idx < n)

abbrev pub AllInRange : ℕ → Dict String OpenStream → Type 0
AllInRange n = All (InRange n)

AllInRange-mono : (n m : ℕ) (t : Dict String OpenStream) → n ≤ m → AllInRange n t → AllInRange m t
AllInRange-mono n m [] le h = tt
AllInRange-mono n m ((id, s) ∷ t) le h =
    ((h.0.0, omega (arith, h.0.1)), AllInRange-mono n m t le h.1)

AllInRange-delete :
    (n : ℕ) (id : String) (t : Dict String OpenStream)
    → AllInRange n t
    → AllInRange n (Dict.delete id t)
unfolding Dict.delete
AllInRange-delete n id [] h = tt
AllInRange-delete n id ((j, s) ∷ t) h = elim (Bool-cases (string_eq.eqb j id)) [
  | inl e ↦ rw e (AllInRange-delete n id t h.1)
  | inr e ↦ rw e (h.0, AllInRange-delete n id t h.1)
]

AllInRange-drop :
    (n : ℕ) (a : String) (t : Dict String OpenStream)
    → AllInRange n t
    → AllInRange n (drop_streams a t)
unfolding drop_streams
AllInRange-drop n a [] h = tt
AllInRange-drop n a ((j, s) ∷ t) h = elim (Bool-cases (string_eq.eqb s.alias a)) [
  | inl e ↦ rw e (AllInRange-drop n a t h.1)
  | inr e ↦ rw e (h.0, AllInRange-drop n a t h.1)
]

AllInRange-put :
    (n : ℕ) (id : String) (slot : OpenStream) (t : Dict String OpenStream)
    → slot.stream_id ≡ id
    → slot.record_idx < n
    → AllInRange n t
    → AllInRange n (Dict.put id slot t)
unfolding Dict.put
AllInRange-put n id slot [] e lt h = ((e, lt), tt)
AllInRange-put n id slot ((j, s) ∷ t) e lt h = elim (Bool-cases (string_eq.eqb j id)) [
  | inl q ↦ rw q ((e ∙ sym ((string_eq.eqb_iff j id).0 q), lt), h.1)
  | inr q ↦ rw q (h.0, AllInRange-put n id slot t e lt h.1)
]

pub AllInRange-get :
    (n : ℕ) (id : String) (slot : OpenStream) (t : Dict String OpenStream)
    → AllInRange n t
    → Dict.get id t ≡ some slot
    → slot.record_idx < n
unfolding Dict.get
AllInRange-get n id slot [] h e = cc
AllInRange-get n id slot ((j, s) ∷ t) h e = ground (arith, AllInRange-get n id slot t h.1)

abbrev pub StreamsInRange : Room → Type 0
StreamsInRange r = AllInRange (length r.records) r.streaming

streaming-clear :
    (a : String) (p : Option ℕ) (r : Room)
    → (clear_latest_handoff_source a p r).0.streaming ≡ r.streaming
unfolding clear_latest_handoff_source
streaming-clear a p r = ground arith

streaming-swap :
    (a : String) (p n : Option ℕ) (r : Room)
    → (swap_latest_handoff_source a p n r).0.streaming ≡ r.streaming
unfolding swap_latest_handoff_source
streaming-swap a p none r = ground arith
streaming-swap a p (some n) r = ground arith

streaming-refresh :
    (a : String) (r : Room) → (refresh_latest_handoff_source a r).0.streaming ≡ r.streaming
unfolding refresh_latest_handoff_source
streaming-refresh a r = elim (Bool-cases (Sets.contains r.members a)) [
  | inl e ↦ rw e (streaming-swap a _ _ r)
  | inr e ↦ rw e (streaming-clear a _ r)
]

refresh-StreamsInRange :
    (a : String) (r : Room)
    → StreamsInRange r
    → StreamsInRange (refresh_latest_handoff_source a r).0
refresh-StreamsInRange a r h =
    rw (streaming-refresh a r) (AllInRange-mono _ _ r.streaming (refresh-Keeps a r).grows h)

refresh_after-StreamsInRange :
    (a : String) (msg : Message) (r : Room)
    → StreamsInRange r
    → StreamsInRange (refresh_after_message a msg r).0
refresh_after-StreamsInRange a msg r h =
    refresh_after_cases (λ p. StreamsInRange p.0) a msg r h (refresh-StreamsInRange a r h)

append-StreamsInRange :
    (x : Record) (r : Room) → StreamsInRange r → StreamsInRange (append_record_locked x r).0
unfolding append_record_locked
append-StreamsInRange x r h =
    AllInRange-mono _ _ r.streaming (omega (arith, length-append r.records (x ∷ []))) h

open-StreamsInRange :
    (a : String) (msg : Message) (r : Room)
    → StreamsInRange r
    → StreamsInRange (open_record a msg r).0
unfolding open_record touch
open-StreamsInRange a msg r h =
    let n = length-append r.records (new_agent_record a msg ∷ []) in
    refresh_after-StreamsInRange a msg _ (
      AllInRange-put _ msg.stream_id _ r.streaming refl (omega (arith, n))
        (AllInRange-mono _ _ r.streaming (omega (arith, n)) h))

agent_message-StreamsInRange :
    (a : String) (msg : Message) (r : Room)
    → StreamsInRange r
    → StreamsInRange (handle_agent_message a msg r).0
unfolding handle_agent_message touch
agent_message-StreamsInRange a msg r h =
    elim (Bool-cases (is_turn_content msg.content && is_flush msg.mode)) [
      | inl e ↦ rw e (
          refresh_after-StreamsInRange a msg (seal_stream msg.stream_id r)
            (AllInRange-delete _ msg.stream_id r.streaming h))
      | inr e ↦ elim (Option-cases (merged_record msg r)) [
        | inl m ↦ rw (e, m) (open-StreamsInRange a msg r h)
        | inr ((idx, x), m) ↦
            rw (e, m)
              (refresh_after-StreamsInRange a msg (record r { records = set r.records idx x })
                (AllInRange-mono _ _ r.streaming (omega (arith, length-set r.records idx x)) h))
      ]
    ]

touched_by-StreamsInRange :
    (e : Event) (r : Room) (p : Room × List ℕ)
    → StreamsInRange r
    → touched_by e r ≡ some p
    → StreamsInRange p.0
unfolding touched_by handle_lifecycle_event arrive depart handle_departure
touched_by-StreamsInRange (agent_message m) r p v h =
    subst (λ q. StreamsInRange q.0) (some-injective _ _ h)
      (agent_message-StreamsInRange m.alias m.msg r v)
touched_by-StreamsInRange (agent_starting alias) r p v h =
    subst (λ q. StreamsInRange q.0) (some-injective _ _ h) (append-StreamsInRange _ r v)
touched_by-StreamsInRange (agent_started alias) r p v h =
    subst (λ q. StreamsInRange q.0) (some-injective _ _ h)
      (append-StreamsInRange _ _ (refresh-StreamsInRange alias _ v))
touched_by-StreamsInRange (agent_stopped alias) r p v h =
    subst (λ q. StreamsInRange q.0) (some-injective _ _ h)
      (append-StreamsInRange _ _
        (refresh-StreamsInRange alias _ (AllInRange-drop _ alias r.streaming v)))
touched_by-StreamsInRange (agent_crashed alias) r p v h =
    subst (λ q. StreamsInRange q.0) (some-injective _ _ h)
      (append-StreamsInRange _ _
        (refresh-StreamsInRange alias _ (AllInRange-drop _ alias r.streaming v)))
touched_by-StreamsInRange (agent_log alias text) r p v h =
    subst (λ q. StreamsInRange q.0) (some-injective _ _ h) (append-StreamsInRange _ r v)
touched_by-StreamsInRange (context_handoff e) r p v h =
    subst (λ q. StreamsInRange q.0) (some-injective _ _ h) (append-StreamsInRange _ r v)
touched_by-StreamsInRange _ r p v h = cc

op-StreamsInRange : (o : RoomOp) (r : Room) → StreamsInRange r → StreamsInRange (apply_op o r)
unfolding apply_event append_record bump_version
op-StreamsInRange (applies e) r v = elim (Option-cases (touched_by e r)) [
  | inl n ↦ rw (n, apply_op) v
  | inr (p, t) ↦ rw (t, apply_op) (touched_by-StreamsInRange e r p v t)
]
op-StreamsInRange (appends x) r v = append-StreamsInRange x r v

run-StreamsInRange :
    (os : List RoomOp) (r : Room) → StreamsInRange r → StreamsInRange (run_ops os r)
run-StreamsInRange [] r v = v
run-StreamsInRange (o ∷ os) r v = run-StreamsInRange os (apply_op o r) (op-StreamsInRange o r v)

-- After any events and appends, the slot that the table of open streams holds for a stream is the
-- index of an existing record, so accumulating a message into it never indexes out of range.
pub stream_in_range :
    (os : List RoomOp) (id : String) (slot : OpenStream)
    → Dict.get id (run_ops os new_room).streaming ≡ some slot
    → slot.record_idx < length (run_ops os new_room).records
stream_in_range os id slot h =
    let r = run_ops os new_room in
    AllInRange-get (length r.records) id slot r.streaming
      (run-StreamsInRange os new_room (unfold new_room in tt)) h
