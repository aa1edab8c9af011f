-- ===== src/Room/Sources.antt =====
-- internal/room/handoff.go and events.go: at most one record of an alias is marked as the source of a
-- handoff.
use mathlib.Core.Option.{some-injective}
use coderoom.Prelude.Dict
use coderoom.Prelude.{
  ℕ, String, ◌≡◌, refl, ◌≢◌, true, false, ◌&&◌, Option, some, List, [], ◌∷◌, ◌++◌, arith, string_eq,
  nat_eq, length, set, All, inl, inr, Option-cases, Bool-cases, sym, ◌∙◌, subst, ap, get_elem?,
  ◌==◌, get_elem?-append_ne, get_elem?-append_last, get_elem?-set_self, get_elem?-set_ne,
  lt_of_get_elem?,
}
use coderoom.Prelude.Results.{ok, Result-cases}
use coderoom.Agent.{Message}
use coderoom.Session.Event.{
  Event, agent_starting, agent_started, agent_stopped, agent_crashed, agent_log, agent_message,
  context_handoff,
}
use coderoom.Room.Records.{Record, Room, new_room, new_agent_record, accumulate_record}
use coderoom.Room.Projection.{
  append_record_locked, refresh_after_message, merged_record, handle_agent_message,
  handle_departure, handle_lifecycle_event, touched_by, seal_stream, touch, open_record, arrive,
  depart, is_turn_content, is_flush, apply_event, append_record, bump_version,
}
use coderoom.Room.Frame.{refresh_after_cases}
use coderoom.Room.History.{RoomOp, applies, appends, apply_op, run_ops}
use coderoom.Room.Marks.{Marks, Marked, refresh-Marked}

append-Marks :
    (rs : List Record) (g : String → Option ℕ) (x : Record)
    → x.handoff_source ≡ false
    → Marks rs g
    → Marks (rs ++ x ∷ []) g
append-Marks rs g x off v = record {
  pointed = λ a i h.
      let at = v.pointed a i h in
      let lt = lt_of_get_elem? rs i at.found at.here in
      let ne : i ≢ length rs = λ e. absurd (omega (arith, e, lt)) in
      record {
        found = at.found;
        here = get_elem?-append_ne rs x i ne ∙ at.here;
        owner = at.owner;
        marked = at.marked;
      };
  named = λ i y h on. elim (Bool-cases (i == length rs)) [
    | inl e ↦
        let same : i ≡ length rs = (nat_eq.eqb_iff i (length rs)).0 e in
        ground (arith, get_elem?-append_last rs x, same)
    | inr e ↦
        v.named i y
          (sym (get_elem?-append_ne rs x i (λ q. ground (arith, nat_eq.eqb_iff i (length rs)))) ∙ h)
          on
  ];
}

set-Marks :
    (rs : List Record) (g : String → Option ℕ) (idx : ℕ) (old x : Record)
    → get_elem? rs idx ≡ some old
    → x.alias ≡ old.alias
    → x.handoff_source ≡ old.handoff_source
    → Marks rs g
    → Marks (set rs idx x) g
set-Marks rs g idx old x here alias mark v = record {
  pointed = λ a i h.
      let at = v.pointed a i h in
      elim (Bool-cases (idx == i)) [
        | inl e ↦
            let same : idx ≡ i = (nat_eq.eqb_iff idx i).0 e in
            let lt = lt_of_get_elem? rs idx old here in
            let is_old : old ≡ at.found =
              some-injective _ _ (sym here ∙ (ap (get_elem? rs) same ∙ at.here)) in
            record {
              found = x;
              here = ap (get_elem? (set rs idx x)) (sym same) ∙ get_elem?-set_self rs idx x lt;
              owner = alias ∙ (ap (λ (y : Record). y.alias) is_old ∙ at.owner);
              marked = mark ∙ (ap (λ (y : Record). y.handoff_source) is_old ∙ at.marked);
            }
        | inr e ↦
            let ne : idx ≢ i = λ q. ground (arith, nat_eq.eqb_iff idx i) in
            record {
              found = at.found;
              here = get_elem?-set_ne rs idx i x ne ∙ at.here;
              owner = at.owner;
              marked = at.marked;
            }
      ];
  named = λ i y h on. elim (Bool-cases (idx == i)) [
    | inl e ↦
        let same : idx ≡ i = (nat_eq.eqb_iff idx i).0 e in
        let lt = lt_of_get_elem? rs idx old here in
        let is_x : x ≡ y =
          some-injective _ _
            (sym (get_elem?-set_self rs idx x lt) ∙ (ap (get_elem? (set rs idx x)) same ∙ h)) in
        let was =
          v.named idx old here (sym mark ∙ (ap (λ (z : Record). z.handoff_source) is_x ∙ on)) in
        ap g (sym (ap (λ (z : Record). z.alias) is_x) ∙ alias) ∙ (was ∙ ap (λ n. some n) same)
    | inr e ↦
        v.named i y
          (sym (get_elem?-set_ne rs idx i x (λ q. ground (arith, nat_eq.eqb_iff idx i))) ∙ h) on
  ];
}

accumulate_keeps :
    (r x : Record) (m : Message)
    → accumulate_record r m ≡ ok x
    → (x.alias ≡ r.alias) × (x.handoff_source ≡ r.handoff_source)
unfolding accumulate_record
accumulate_keeps r x m h = ground arith

merged_keeps :
    (msg : Message) (r : Room) (idx : ℕ) (x : Record)
    → merged_record msg r ≡ some (idx, x)
    → (old : Record) × (get_elem? r.records idx ≡ some old)
      × (x.alias ≡ old.alias)
      × (x.handoff_source ≡ old.handoff_source)
unfolding merged_record
merged_keeps msg r idx x h = elim (Option-cases (Dict.get msg.stream_id r.streaming)) [
  | inl e ↦ ground arith
  | inr (slot, e) ↦ elim (Option-cases (get_elem? r.records slot.record_idx)) [
    | inl q ↦ ground arith
    | inr (old, q) ↦ elim (Result-cases (accumulate_record old msg)) [
      | inl (y, k) ↦ (
        old,
        ground (arith, q),
        ground (arith, accumulate_keeps old y msg k),
        ground (arith, accumulate_keeps old y msg k),
      )
      | inr (er, k) ↦ ground arith
    ]
  ]
]

append-Marked :
    (x : Record) (r : Room)
    → x.handoff_source ≡ false
    → Marked r
    → Marked (append_record_locked x r).0
unfolding append_record_locked
append-Marked x r off v = append-Marks r.records _ x off v

refresh_after-Marked :
    (a : String) (msg : Message) (r : Room) → Marked r → Marked (refresh_after_message a msg r).0
refresh_after-Marked a msg r v =
    refresh_after_cases (λ p. Marked p.0) a msg r v (refresh-Marked a r v)

open-Marked : (a : String) (msg : Message) (r : Room) → Marked r → Marked (open_record a msg r).0
unfolding open_record touch
open-Marked a msg r v =
    refresh_after-Marked a msg _
      (append-Marks r.records _ (new_agent_record a msg) (unfold new_agent_record in refl) v)

agent_message-Marked :
    (a : String) (msg : Message) (r : Room) → Marked r → Marked (handle_agent_message a msg r).0
unfolding handle_agent_message touch
agent_message-Marked a msg r v =
    elim (Bool-cases (is_turn_content msg.content && is_flush msg.mode)) [
      | inl e ↦ rw e (refresh_after-Marked a msg (seal_stream msg.stream_id r) v)
      | inr e ↦ elim (Option-cases (merged_record msg r)) [
        | inl m ↦ rw (e, m) (open-Marked a msg r v)
        | inr ((idx, x), m) ↦
            let (old, here, alias, mark) = merged_keeps msg r idx x m in
            rw (e, m)
              (refresh_after-Marked a msg (record r { records = set r.records idx x })
                (set-Marks r.records _ idx old x here alias mark v))
      ]
    ]

touched_by-Marked :
    (e : Event) (r : Room) (p : Room × List ℕ) → Marked r → touched_by e r ≡ some p → Marked p.0
unfolding touched_by handle_lifecycle_event arrive depart handle_departure
touched_by-Marked (agent_message m) r p v h =
    subst (λ q. Marked q.0) (some-injective _ _ h) (agent_message-Marked m.alias m.msg r v)
touched_by-Marked (agent_starting alias) r p v h =
    subst (λ q. Marked q.0) (some-injective _ _ h) (append-Marked _ r refl v)
touched_by-Marked (agent_started alias) r p v h =
    subst (λ q. Marked q.0) (some-injective _ _ h)
      (append-Marked _ _ refl (refresh-Marked alias _ v))
touched_by-Marked (agent_stopped alias) r p v h =
    subst (λ q. Marked q.0) (some-injective _ _ h)
      (append-Marked _ _ refl (refresh-Marked alias _ v))
touched_by-Marked (agent_crashed alias) r p v h =
    subst (λ q. Marked q.0) (some-injective _ _ h)
      (append-Marked _ _ refl (refresh-Marked alias _ v))
touched_by-Marked (agent_log alias text) r p v h =
    subst (λ q. Marked q.0) (some-injective _ _ h) (append-Marked _ r refl v)
touched_by-Marked (context_handoff e) r p v h =
    subst (λ q. Marked q.0) (some-injective _ _ h) (append-Marked _ r refl v)
touched_by-Marked _ r p v h = cc

-- A record that is appended from outside carries no mark.
abbrev pub Unmarked : RoomOp → Type 0
Unmarked (applies e) = Unit
Unmarked (appends x) = x.handoff_source ≡ false

op-Marked : (o : RoomOp) (r : Room) → Unmarked o → Marked r → Marked (apply_op o r)
unfolding apply_event append_record bump_version
op-Marked (applies e) r u v = elim (Option-cases (touched_by e r)) [
  | inl n ↦ rw (n, apply_op) v
  | inr (p, t) ↦ rw (t, apply_op) (touched_by-Marked e r p v t)
]
op-Marked (appends x) r u v = append-Marked x r u v

run-Marked : (os : List RoomOp) (r : Room) → All Unmarked os → Marked r → Marked (run_ops os r)
run-Marked [] r u v = v
run-Marked (o ∷ os) r u v = run-Marked os (apply_op o r) u.1 (op-Marked o r u.0 v)

-- After any events, and appends of records that carry no mark, two records of one alias that are
-- both marked as the source of a handoff are the same record.
pub one_source :
    (os : List RoomOp) (i j : ℕ) (x y : Record)
    → All Unmarked os
    → get_elem? (run_ops os new_room).records i ≡ some x
    → get_elem? (run_ops os new_room).records j ≡ some y
    → x.handoff_source ≡ true
    → y.handoff_source ≡ true
    → x.alias ≡ y.alias
    → i ≡ j
one_source os i j x y u hx hy mx my same =
    let fresh : Marked new_room =
      unfold new_room Dict.get in record { pointed = λ a k h. cc; named = λ k z h m. cc } in
    let v = run-Marked os new_room u fresh in
    some-injective _ _ (
      sym (v.named i x hx mx)
      ∙ (ap (λ a. Dict.get a (run_ops os new_room).latest_handoff) same ∙ v.named j y hy my))
