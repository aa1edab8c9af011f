-- ===== src/Room/Sync.antt =====
-- internal/room/delta.go: a reader that applies deltas has the room's records.
use coderoom.Prelude.Dict
use coderoom.Prelude.Dict.{Dict}
use coderoom.Prelude.Sets
use coderoom.Prelude.Results.{ok}
use coderoom.Prelude.Sort.{contains-sort, contains-compact, sort_indices}
use coderoom.Prelude.{
  ℕ, zero, suc, ◌+◌, ◌-◌, ◌≤◌, ◌<◌, ◌≡◌, refl, true, false, Option, none, some, List, [], ◌∷◌,
  arith, nat_eq, string_eq, get_elem?, get_elem?-none, le_of_get_elem?-none, length, leb, inl, inr,
  Option-cases, Bool-cases, sym, subst, if◌then◌else◌, ◌==◌,
}
use coderoom.Room.Records.{Record, Room}
use coderoom.Room.Delta.{
  Delta, IndexedRecord, delta, can_build, collect_dirty, indexed_records, delta_record_indices,
}
use coderoom.Room.History.{RoomOp, run_ops, Since, run-Since}

-- The reader: each update replaces or adds the record of its index.
abbrev pub present : List IndexedRecord → (ℕ → Option Record) → ℕ → Option Record
present [] shown i = shown i
present (u ∷ us) shown i = present us (λ j. if u.index == j then some u.rec' else shown j) i

present-indexed :
    (is : List ℕ) (s : Room) (shown : ℕ → Option Record) (i : ℕ)
    → (Sets.contains is i ≡ false → get_elem? s.records i ≡ shown i)
    → (get_elem? s.records i ≡ none → shown i ≡ none)
    → present (indexed_records is s) shown i ≡ get_elem? s.records i
unfolding indexed_records Sets.contains
present-indexed [] s shown i out gone = sym (out refl)
present-indexed (k ∷ ks) s shown i out gone = elim (Option-cases (get_elem? s.records k)) [
  | inl e ↦
      rw (e, indexed_records)
        (present-indexed ks s shown i (λ n. ground (arith, e, gone, out, nat_eq.eqb_iff k i)) gone)
  | inr (x, e) ↦
      rw (e, indexed_records)
        (present-indexed ks s (λ j. if k == j then some x else shown j) i
          (λ n. ground (arith, e, out, nat_eq.eqb_iff k i))
          (λ n. ground (arith, e, gone, nat_eq.eqb_iff k i)))
]

collected :
    (dirty : Dict ℕ (List ℕ)) (n v w i : ℕ)
    → can_build dirty v n ≡ true
    → Sets.contains (collect_dirty dirty v n) i ≡ false
    → v < w
    → w ≤ v + n
    → (d : List ℕ) × (Dict.get w dirty ≡ some d) × (Sets.contains d i ≡ false)
unfolding can_build collect_dirty
collected dirty zero v w i h out lt le = absurd (omega arith)
collected dirty (suc n) v w i h out lt le = elim (Option-cases (Dict.get (suc v) dirty)) [
  | inl e ↦ ground (arith, e)
  | inr (d, e) ↦ elim (Bool-cases (suc v == w)) [
    | inl now ↦
        let eq = (nat_eq.eqb_iff (suc v) w).0 now in
        (
          d,
          subst (λ u. Dict.get u dirty ≡ some d) eq e,
          ground (arith, e, Sets.contains-append i d (collect_dirty dirty (suc v) n)),
        )
    | inr later ↦
        collected dirty n (suc v) w i (ground (arith, e))
          (ground (arith, e, Sets.contains-append i d (collect_dirty dirty (suc v) n)))
          (ground (arith, nat_eq.eqb_iff (suc v) w)) (omega arith)
  ]
]

abbrev updates_since : ℕ → Room → List IndexedRecord
updates_since from s =
    if from == s.version then [] else indexed_records (delta_record_indices from s) s

-- What a delta that is returned holds.
record Built (from : ℕ) (s : Room) (d : Delta) : Type 0 where
  complete : can_build s.dirty from (s.version - from) ≡ true
  not_ahead : from ≤ s.version
  version : d.version ≡ s.version
  updates : d.record_updates ≡ updates_since from s

delta-Built : (from : ℕ) (s : Room) (d : Delta) → delta from s ≡ ok d → Built from s d
unfolding delta
delta-Built from s d h = ground arith

-- What no collected entry names has not changed.
unchanged :
    (r s : Room) (i : ℕ)
    → Since r s
    → can_build s.dirty r.version (s.version - r.version) ≡ true
    → Sets.contains (collect_dirty s.dirty r.version (s.version - r.version)) i ≡ false
    → get_elem? s.records i ≡ get_elem? r.records i
unchanged r s i since complete out = since.same i λ v lt le.
    collected s.dirty (s.version - r.version) r.version v i complete out lt
      (omega (arith, since.later))

grown : (r s : Room) (i : ℕ) → Since r s → get_elem? s.records i ≡ none → length r.records ≤ i
grown r s i since n = omega (arith, since.grows, le_of_get_elem?-none s.records i n)

updates-present :
    (r s : Room) (i : ℕ)
    → Since r s
    → can_build s.dirty r.version (s.version - r.version) ≡ true
    → present (updates_since r.version s) (get_elem? r.records) i ≡ get_elem? s.records i
unfolding delta_record_indices
updates-present r s i since complete = elim (Bool-cases (r.version == s.version)) [
  | inl e ↦
      let eq = (nat_eq.eqb_iff r.version s.version).0 e in
      rw e (sym (since.same i (λ v lt le. absurd (omega arith))))
  | inr e ↦ rw e (
      present-indexed _ s (get_elem? r.records) i
        (λ out. unchanged r s i since complete (
          ground (
            arith,
            contains-compact i
                (sort_indices (collect_dirty s.dirty r.version (s.version - r.version))),
            contains-sort leb i (collect_dirty s.dirty r.version (s.version - r.version)),
          )))
        (λ n. get_elem?-none r.records i (grown r s i since n)))
]

-- A reader that shows the records of the room at one version, and then applies the delta that the
-- room returns for that version after any number of further events and appends, shows exactly the
-- room's records at the version of the delta.
pub delta_sync :
    (os : List RoomOp) (r : Room) (d : Delta)
    → delta r.version (run_ops os r) ≡ ok d
    → (d.version ≡ (run_ops os r).version)
      × ((i : ℕ)
          → present d.record_updates (get_elem? r.records) i ≡ get_elem? (run_ops os r).records i)
delta_sync os r d h =
    let s = run_ops os r in
    let b = delta-Built r.version s d h in
    (
      b.version,
      λ i.
          subst (λ us. present us (get_elem? r.records) i ≡ get_elem? s.records i) (sym b.updates)
            (updates-present r s i (run-Since os r) b.complete),
    )
