-- ===== src/Room/Steps.antt =====
-- internal/room: what one operation of the room does to its version and to its dirty history.
use coderoom.Prelude.Dict
use coderoom.Prelude.Dict.{Dict}
use coderoom.Prelude.Sets
use coderoom.Prelude.Sort.{contains-sort, contains-compact, sort_indices}
use coderoom.Prelude.{
  ℕ, suc, ◌+◌, ◌-◌, ◌≤◌, String, ◌≡◌, refl, ◌≢◌, true, false, ◌&&◌, ◌⊎◌, Option, none, some, List,
  [], ◌∷◌, arith, nat_eq, string_eq, get_elem?, set, length, length-append, length-set, leb, inl,
  inr, Option-cases, Bool-cases, subst, if◌then◌else◌, is_some,
}
use mathlib.Core.Option.{some-injective}
use coderoom.Agent.{Message}
use coderoom.Session.Event.{
  Event, agent_starting, agent_started, agent_stopped, agent_crashed, agent_log, agent_message,
  context_handoff,
}
use coderoom.Room.Records.{Record, Room, new_agent_record, mark, length-mark}
use coderoom.Room.Handoff.{
  clear_latest_handoff_source, swap_latest_handoff_source, refresh_latest_handoff_source,
}
use coderoom.Room.Projection.{
  append_record_locked, refresh_after_message, merged_record, handle_agent_message,
  handle_departure, handle_lifecycle_event, touched_by, seal_stream, touch, open_record, arrive,
  depart, is_turn_content, is_flush, prune_to, prune_dirty, bump_version, unique_record_indices,
}
use coderoom.Room.Frame.{Changes}

-- The projection of an event leaves the version and the history to `bumpVersionLocked`, and removes
-- no record.
pub record Keeps (r s : Room) : Type 0 where
  pub version : s.version ≡ r.version
  pub dirty : s.dirty ≡ r.dirty
  pub grows : length r.records ≤ length s.records

clear-Keeps :
    (alias : String) (prev : Option ℕ) (r : Room)
    → Keeps r (clear_latest_handoff_source alias prev r).0
unfolding clear_latest_handoff_source
clear-Keeps alias none r = ground arith
clear-Keeps alias (some p) r = ground (arith, length-mark false p r.records)

swap-Keeps :
    (alias : String) (prev next : Option ℕ) (r : Room)
    → Keeps r (swap_latest_handoff_source alias prev next r).0
unfolding swap_latest_handoff_source
swap-Keeps alias none none r = ground arith
swap-Keeps alias none (some n) r = ground (arith, length-mark true n r.records)
swap-Keeps alias (some p) none r = ground (arith, length-mark false p r.records)
swap-Keeps alias (some p) (some n) r = ground (
  arith,
  length-mark false p r.records,
  length-mark true n r.records,
  length-mark true n (mark false p r.records),
)

pub refresh-Keeps : (alias : String) (r : Room) → Keeps r (refresh_latest_handoff_source alias r).0
unfolding refresh_latest_handoff_source
refresh-Keeps alias r = elim (Bool-cases (Sets.contains r.members alias)) [
  | inl e ↦ rw e (swap-Keeps alias _ _ r)
  | inr e ↦ rw e (clear-Keeps alias _ r)
]

refresh_after-Keeps :
    (alias : String) (msg : Message) (r : Room) → Keeps r (refresh_after_message alias msg r).0
unfolding refresh_after_message
refresh_after-Keeps alias msg r = ground (arith, refresh-Keeps alias r)

pub Keeps-refl : (r : Room) → Keeps r r
Keeps-refl r = record { version = refl; dirty = refl; grows = omega arith }

-- A change of the other fields.
like : (r s : Room) → s.version ≡ r.version → s.dirty ≡ r.dirty → s.records ≡ r.records → Keeps r s
like r s v d e = ground arith

Keeps-trans : {q r s : Room} → Keeps q r → Keeps r s → Keeps q s
Keeps-trans h k = ground arith

-- The refresh behind a step.
then_refresh :
    (alias : String) (msg : Message) (q r : Room)
    → Keeps q r
    → Keeps q (refresh_after_message alias msg r).0
then_refresh alias msg q r k = Keeps-trans k (refresh_after-Keeps alias msg r)

open-Keeps : (alias : String) (msg : Message) (r : Room) → Keeps r (open_record alias msg r).0
unfolding touch open_record
open-Keeps alias msg r = then_refresh alias msg r _ (record {
  version = refl;
  dirty = refl;
  grows = omega (arith, length-append r.records (new_agent_record alias msg ∷ []));
})

agent_message-Keeps :
    (alias : String) (msg : Message) (r : Room) → Keeps r (handle_agent_message alias msg r).0
unfolding handle_agent_message touch
agent_message-Keeps alias msg r =
    elim (Bool-cases (is_turn_content msg.content && is_flush msg.mode)) [
      | inl e ↦ rw e (
          then_refresh alias msg r (seal_stream msg.stream_id r)
            (record { version = refl; dirty = refl; grows = omega arith }))
      | inr e ↦ elim (Option-cases (merged_record msg r)) [
        | inl m ↦ rw (e, m) (open-Keeps alias msg r)
        | inr ((idx, x), m) ↦
            rw (e, m)
              (then_refresh alias msg r (record r { records = set r.records idx x })
                (record {
                  version = refl;
                  dirty = refl;
                  grows = omega (arith, length-set r.records idx x);
                }))
      ]
    ]

pub append-Keeps : (x : Record) (q r : Room) → Keeps q r → Keeps q (append_record_locked x r).0
unfolding append_record_locked
append-Keeps x q r k = ground (arith, length-append r.records (x ∷ []))

pub touched_by-Keeps :
    (e : Event) (r s : Room) (d : List ℕ) → touched_by e r ≡ some (s, d) → Keeps r s
unfolding touched_by handle_lifecycle_event arrive depart handle_departure
touched_by-Keeps (agent_message m) r s d h = ground (arith, agent_message-Keeps m.alias m.msg r)
touched_by-Keeps (agent_starting alias) r s d h =
    subst (λ p. Keeps r p.0) (some-injective _ _ h) (append-Keeps _ r r (Keeps-refl r))
touched_by-Keeps (agent_started alias) r s d h =
    subst (λ p. Keeps r p.0) (some-injective _ _ h)
      (append-Keeps _ r _ (Keeps-trans (like r _ refl refl refl) (refresh-Keeps alias _)))
touched_by-Keeps (agent_stopped alias) r s d h =
    subst (λ p. Keeps r p.0) (some-injective _ _ h)
      (append-Keeps _ r _ (Keeps-trans (like r _ refl refl refl) (refresh-Keeps alias _)))
touched_by-Keeps (agent_crashed alias) r s d h =
    subst (λ p. Keeps r p.0) (some-injective _ _ h)
      (append-Keeps _ r _ (Keeps-trans (like r _ refl refl refl) (refresh-Keeps alias _)))
touched_by-Keeps (agent_log alias text) r s d h =
    subst (λ p. Keeps r p.0) (some-injective _ _ h) (append-Keeps _ r r (Keeps-refl r))
touched_by-Keeps (context_handoff e) r s d h =
    subst (λ p. Keeps r p.0) (some-injective _ _ h) (append-Keeps _ r r (Keeps-refl r))
touched_by-Keeps _ r s d h = cc

get-prune_to :
    (cutoff v : ℕ) (m : Dict ℕ (List ℕ))
    → Dict.get v (prune_to cutoff m) ≡ (if leb v cutoff then none else Dict.get v m)
unfolding prune_to Dict.get
get-prune_to cutoff v [] = ground arith
get-prune_to cutoff v ((w, d) ∷ m) = ground (arith, get-prune_to cutoff v m)

-- Pruning keeps the last 1024 versions, and changes none that it keeps.
pub get-prune_dirty :
    (version v : ℕ) (m : Dict ℕ (List ℕ))
    → (Dict.get v (prune_dirty version m) ≡ Dict.get v m)
      ⊎ ((Dict.get v (prune_dirty version m) ≡ none) × (v + 1024 ≤ version ⊎ v ≡ 0))
unfolding prune_dirty
get-prune_dirty version v m = ground (arith, get-prune_to (version - 1024) v m)

-- One operation that changed the room.
pub record Step (r s : Room) : Type 0 where
  pub bumped : s.version ≡ suc r.version
  pub grows : length r.records ≤ length s.records
  -- an entry of the history is never changed, only dropped when it is old
  pub history :
      (v : ℕ)
      → v ≢ s.version
      → (Dict.get v s.dirty ≡ Dict.get v r.dirty)
        ⊎ ((Dict.get v s.dirty ≡ none) × (v + 1024 ≤ s.version ⊎ v ≡ 0))
  pub present : is_some (Dict.get s.version s.dirty) ≡ true
  pub fresh :
      (d : List ℕ) (i : ℕ)
      → Dict.get s.version s.dirty ≡ some d
      → Sets.contains d i ≡ false
      → get_elem? s.records i ≡ get_elem? r.records i

pub bump-Step : (r s : Room) (d : List ℕ) → Keeps r s → Changes r (s, d) → Step r (bump_version d s)
unfolding bump_version
bump-Step r s d k c = record {
  bumped = ground arith;
  grows = k.grows;
  history = λ v ne. ground (
    arith,
    get-prune_dirty (suc s.version) v (Dict.put (suc s.version) (unique_record_indices d) s.dirty),
    Dict.get-put (suc s.version) v (unique_record_indices d) s.dirty,
    nat_eq.eqb_iff (suc s.version) v,
  );
  present = ground (
    arith,
    get-prune_dirty (suc s.version) (suc s.version)
        (Dict.put (suc s.version) (unique_record_indices d) s.dirty),
    Dict.get-put (suc s.version) (suc s.version) (unique_record_indices d) s.dirty,
    nat_eq.eqb_iff (suc s.version) (suc s.version),
  );
  fresh = λ e i h out. ground (
    arith,
    get-prune_dirty (suc s.version) (suc s.version)
        (Dict.put (suc s.version) (unique_record_indices d) s.dirty),
    Dict.get-put (suc s.version) (suc s.version) (unique_record_indices d) s.dirty,
    nat_eq.eqb_iff (suc s.version) (suc s.version),
    contains-compact i (sort_indices d),
    contains-sort leb i d,
    c i,
  );
}
