-- ===== src/Room/Frame.antt =====
-- internal/room: no operation changes a record that it does not report as dirty.
use coderoom.Prelude.Dict
use coderoom.Prelude.Sets
use coderoom.Prelude.Sort.{sort_indices, contains-sort, contains-compact}
use coderoom.Prelude.{
  ℕ, String, ◌≡◌, true, false, ◌||◌, Option, none, some, List, [], ◌∷◌, ◌++◌, arith, nat_eq,
  string_eq, get_elem?, length, get_elem?-append_ne, get_elem?-set_ne, leb, ◌&&◌, inl, inr,
  Option-cases, Bool-cases, ◌∙◌, sym, subst,
}
use mathlib.Core.Option.{some-injective}
use coderoom.Agent.{Message}
use coderoom.Session.Event.{
  Event, agent_starting, agent_started, agent_stopped, agent_crashed, agent_log, agent_message,
  context_handoff,
}
use coderoom.Room.Records.{Record, Room, system_record, mark, get_elem?-mark_ne}
use coderoom.Room.Handoff.{
  clear_latest_handoff_source, swap_latest_handoff_source, refresh_latest_handoff_source,
}
use coderoom.Room.Projection.{
  append_record_locked, refresh_after_message, merged_record, handle_agent_message,
  handle_departure, handle_lifecycle_event, is_turn_content, is_flush, is_output, is_stream,
  touched_by, seal_stream, touch, open_record, arrive, depart, notice,
}

-- Outside the dirty indices the records of `s` are those of `r`.
abbrev pub Changes : Room → Room × List ℕ → Type 0
Changes r (s, dirty) =
    (i : ℕ) → Sets.contains dirty i ≡ false → get_elem? s.records i ≡ get_elem? r.records i

clear-Changes :
    (alias : String) (prev : Option ℕ) (r : Room)
    → Changes r (clear_latest_handoff_source alias prev r)
unfolding clear_latest_handoff_source Sets.contains
clear-Changes alias none r i h = ground arith
clear-Changes alias (some p) r i h =
    ground (arith, get_elem?-mark_ne false p i r.records, nat_eq.eqb_iff p i)

swap-Changes :
    (alias : String) (prev next : Option ℕ) (r : Room)
    → Changes r (swap_latest_handoff_source alias prev next r)
unfolding swap_latest_handoff_source Sets.contains
swap-Changes alias none none r i h = ground arith
swap-Changes alias none (some n) r i h =
    ground (arith, get_elem?-mark_ne true n i r.records, nat_eq.eqb_iff n i)
swap-Changes alias (some p) none r i h =
    ground (arith, get_elem?-mark_ne false p i r.records, nat_eq.eqb_iff p i)
swap-Changes alias (some p) (some n) r i h = ground (
  arith,
  get_elem?-mark_ne false p i r.records,
  get_elem?-mark_ne true n i r.records,
  get_elem?-mark_ne true n i (mark false p r.records),
  nat_eq.eqb_iff p i,
  nat_eq.eqb_iff n i,
)

refresh-Changes : (alias : String) (r : Room) → Changes r (refresh_latest_handoff_source alias r)
unfolding refresh_latest_handoff_source
refresh-Changes alias r = elim (Bool-cases (Sets.contains r.members alias)) [
  | inl e ↦ rw e (swap-Changes alias _ _ r)
  | inr e ↦ rw e (clear-Changes alias _ r)
]

-- After a message the marks are refreshed, or nothing is done.
pub refresh_after_cases {ℓ} :
    (P : Room × List ℕ → Type ℓ) (alias : String) (msg : Message) (r : Room)
    → P (r, [])
    → P (refresh_latest_handoff_source alias r)
    → P (refresh_after_message alias msg r)
unfolding refresh_after_message
refresh_after_cases P alias msg r stay go = elim (Bool-cases (is_output msg.content)) [
  | inr e ↦ rw e stay
  | inl e ↦ elim (Bool-cases (is_stream msg.mode)) [ inl f ↦ rw (e, f) stay | inr f ↦ rw (e, f) go ]
]

refresh_after-Changes :
    (alias : String) (msg : Message) (r : Room) → Changes r (refresh_after_message alias msg r)
unfolding refresh_after_message
refresh_after-Changes alias msg r i h = ground (arith, refresh-Changes alias r i)

pub append-Changes : (x : Record) (r : Room) → Changes r (append_record_locked x r)
unfolding append_record_locked Sets.contains
append-Changes x r i h =
    ground (arith, get_elem?-append_ne r.records x i, nat_eq.eqb_iff (length r.records) i)

-- Two steps, and any list that holds the indices of both.
Changes-trans :
    (r s t : Room) (d d' both : List ℕ)
    → Changes r (s, d)
    → Changes s (t, d')
    → ((i : ℕ) → Sets.contains both i ≡ (Sets.contains d i || Sets.contains d' i))
    → Changes r (t, both)
Changes-trans r s t d d' both first second joined i h = ground (arith, first i, second i, joined i)

touch-Changes :
    (idx : ℕ) (alias : String) (msg : Message) (q r : Room)
    → Changes q (r, idx ∷ [])
    → Changes q (touch idx alias msg r)
unfolding touch Sets.contains
touch-Changes idx alias msg q r first =
    let (s, more) = refresh_after_message alias msg r in
    Changes-trans q r s (idx ∷ []) more _ first (refresh_after-Changes alias msg r) λ i.
      ground
        (arith, contains-compact i (sort_indices (idx ∷ more)), contains-sort leb i (idx ∷ more))

open-Changes : (alias : String) (msg : Message) (r : Room) → Changes r (open_record alias msg r)
unfolding open_record
open-Changes alias msg r =
    touch-Changes (length r.records) alias msg r _
      (unfold append_record_locked in append-Changes _ r)

agent_message-Changes :
    (alias : String) (msg : Message) (r : Room) → Changes r (handle_agent_message alias msg r)
unfolding handle_agent_message
agent_message-Changes alias msg r =
    elim (Bool-cases (is_turn_content msg.content && is_flush msg.mode)) [
      | inl e ↦ rw e (refresh_after-Changes alias msg (seal_stream msg.stream_id r))
      | inr e ↦ elim (Option-cases (merged_record msg r)) [
        | inl m ↦ rw (e, m) (open-Changes alias msg r)
        | inr ((idx, x), m) ↦
            rw (e, m)
              (touch-Changes idx alias msg r _ (λ i h.
                unfold Sets.contains in
                ground (arith, get_elem?-set_ne r.records idx i x, nat_eq.eqb_iff idx i)))
      ]
    ]

-- A record appended behind a step that touched `d`.
then_append-Changes :
    (x : Record) (q s : Room) (d : List ℕ)
    → Changes q (s, d)
    → Changes q ((append_record_locked x s).0, d ++ (append_record_locked x s).1)
then_append-Changes x q s d first =
    let (t, more) = append_record_locked x s in
    Changes-trans q s t d more (d ++ more) first (append-Changes x s)
      (λ i. Sets.contains-append i d more)

depart-Changes : (alias what : String) (r : Room) → Changes r (depart alias what r)
unfolding depart handle_departure
depart-Changes alias what r i h =
    let (s, d) = handle_departure alias r in
    let x = system_record (notice alias what) in
    then_append-Changes x r s d (λ j k. refresh-Changes alias _ j k) i
      (sym (contains-compact i (d ++ (append_record_locked x s).1)) ∙ h)

arrive-Changes : (alias : String) (r : Room) → Changes r (arrive alias r)
unfolding arrive
arrive-Changes alias r i h =
    let joined = record r {
      members = Sets.insert alias r.members;
      departed = Dict.delete alias r.departed;
    } in
    let (s, d) = refresh_latest_handoff_source alias joined in
    let x = system_record (notice alias " joined") in
    let both = d ++ (append_record_locked x s).1 in
    then_append-Changes x r s d (refresh-Changes alias joined) i
      (sym (contains-sort leb i both) ∙ (sym (contains-compact i (sort_indices both)) ∙ h))

lifecycle-Changes :
    (e : Event) (r : Room) (p : Room × List ℕ) → handle_lifecycle_event e r ≡ some p → Changes r p
unfolding handle_lifecycle_event
lifecycle-Changes (agent_starting alias) r p h =
    subst (Changes r) (some-injective _ _ h) (append-Changes _ r)
lifecycle-Changes (agent_started alias) r p h =
    subst (Changes r) (some-injective _ _ h) (arrive-Changes alias r)
lifecycle-Changes (agent_stopped alias) r p h =
    subst (Changes r) (some-injective _ _ h) (depart-Changes alias " left" r)
lifecycle-Changes (agent_crashed alias) r p h =
    subst (Changes r) (some-injective _ _ h) (depart-Changes alias " crashed" r)
lifecycle-Changes (agent_log alias text) r p h =
    subst (Changes r) (some-injective _ _ h) (append-Changes _ r)
lifecycle-Changes (context_handoff e) r p h =
    subst (Changes r) (some-injective _ _ h) (append-Changes _ r)
lifecycle-Changes _ r p h = cc

pub touched_by-Changes :
    (e : Event) (r : Room) (p : Room × List ℕ) → touched_by e r ≡ some p → Changes r p
unfolding touched_by
touched_by-Changes (agent_message m) r p h =
    subst (Changes r) (some-injective _ _ h) (agent_message-Changes m.alias m.msg r)
touched_by-Changes (agent_starting alias) r p h = lifecycle-Changes (agent_starting alias) r p h
touched_by-Changes e r p h = lifecycle-Changes e r p h

-- Whatever the event, a record that the projection does not report as dirty is as it was before.
pub touched_by-untouched :
    (e : Event) (r s : Room) (dirty : List ℕ) (i : ℕ)
    → touched_by e r ≡ some (s, dirty)
    → Sets.contains dirty i ≡ false
    → get_elem? s.records i ≡ get_elem? r.records i
touched_by-untouched e r s dirty i h clean = touched_by-Changes e r (s, dirty) h i clean
