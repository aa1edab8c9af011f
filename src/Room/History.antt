-- ===== src/Room/History.antt =====
-- internal/room: a room over any number of events and appends, and what is left of its history.
use coderoom.Prelude.Dict
use coderoom.Prelude.Dict.{Dict}
use coderoom.Prelude.Sets
use coderoom.Prelude.{
  ℕ, ◌≤◌, ◌<◌, ◌≡◌, refl, false, ◌⊎◌, some, List, [], ◌∷◌, arith, nat_eq, string_eq, get_elem?,
  length, inl, inr, Option-cases, ◌∙◌, subst,
}
use coderoom.Session.Event.{Event}
use coderoom.Room.Records.{Record, Room}
use coderoom.Room.Projection.{apply_event, append_record, append_record_locked, touched_by}
use coderoom.Room.Frame.{touched_by-Changes, append-Changes}
use coderoom.Room.Steps.{Keeps-refl, append-Keeps, touched_by-Keeps, Step, bump-Step}

-- What a room is given to do.
pub data RoomOp : Type 0 where
  applies : Event → RoomOp
  appends : Record → RoomOp

abbrev pub apply_op : RoomOp → Room → Room
apply_op (applies e) r = (apply_event e r).0
apply_op (appends x) r = (append_record x r).0

abbrev pub run_ops : List RoomOp → Room → Room
run_ops [] r = r
run_ops (o ∷ os) r = run_ops os (apply_op o r)

-- An operation leaves the room alone, or bumps its version once.
pub apply_op_cases : (o : RoomOp) (r : Room) → (apply_op o r ≡ r) ⊎ Step r (apply_op o r)
unfolding apply_event append_record
apply_op_cases (applies e) r = elim (Option-cases (touched_by e r)) [
  | inl n ↦ rw (n, apply_op) (inl refl)
  | inr ((s, d), t) ↦
      rw (t, apply_op)
        (inr (bump-Step r s d (touched_by-Keeps e r s d t) (touched_by-Changes e r (s, d) t)))
]
apply_op_cases (appends x) r =
    let (s, d) = append_record_locked x r in
    inr (bump-Step r s d (append-Keeps x r r (Keeps-refl r)) (append-Changes x r))

-- What any number of operations leaves of the history.
pub record Since (r s : Room) : Type 0 where
  pub later : r.version ≤ s.version
  pub grows : length r.records ≤ length s.records
  pub history :
      (v : ℕ) (d : List ℕ)
      → v ≤ r.version
      → Dict.get v s.dirty ≡ some d
      → Dict.get v r.dirty ≡ some d
  pub same :
      (i : ℕ)
      → ((v : ℕ)
          → r.version < v
          → v ≤ s.version
          → (d : List ℕ) × (Dict.get v s.dirty ≡ some d) × (Sets.contains d i ≡ false))
      → get_elem? s.records i ≡ get_elem? r.records i

Since-refl : (r : Room) → Since r r
Since-refl r = record {
  later = omega arith;
  grows = omega arith;
  history = λ v d le h. h;
  same = λ i all. refl;
}

Since-Step : (r m s : Room) → Step r m → Since m s → Since r s
Since-Step r m s step since = record {
  later = omega (arith, step.bumped, since.later);
  grows = omega (arith, step.grows, since.grows);
  history = λ v d le h. ground (
    arith,
    step.bumped,
    since.history v d (omega (arith, step.bumped)) h,
    step.history v (λ e. absurd (omega (arith, step.bumped))),
  );
  same = λ i all.
      let (d, e, out) = all m.version (omega (arith, step.bumped)) since.later in
      since.same i (λ v lt le. all v (omega (arith, step.bumped)) le)
      ∙ step.fresh d i (since.history m.version d (omega arith) e) out;
}

pub run-Since : (os : List RoomOp) (r : Room) → Since r (run_ops os r)
run-Since [] r = Since-refl r
run-Since (o ∷ os) r = elim (apply_op_cases o r) [
  | inl e ↦ subst (λ m. Since m (run_ops os (apply_op o r))) e (run-Since os (apply_op o r))
  | inr step ↦
      Since-Step r (apply_op o r) (run_ops os (apply_op o r)) step (run-Since os (apply_op o r))
]
