-- ===== src/Room/Available.antt =====
-- internal/room/delta.go: a reader is asked to resynchronise only when it is far behind.
use coderoom.Prelude.Dict
use coderoom.Prelude.Dict.{Dict}
use coderoom.Prelude.Results.{Result-cases, ok, err}
use coderoom.Prelude.{
  ℕ, zero, suc, ◌+◌, ◌-◌, ◌≤◌, ◌<◌, ◌≡◌, refl, true, List, [], ◌∷◌, arith, nat_eq, string_eq, inl,
  inr, Bool-cases, sym, subst, is_some, ◌==◌,
}
use coderoom.Room.Records.{Room, new_room}
use coderoom.Room.Delta.{Delta, delta, can_build, DeltaError}
use coderoom.Room.Steps.{Step}
use coderoom.Room.History.{RoomOp, apply_op, run_ops, apply_op_cases}

-- The history holds the last 1024 versions.
abbrev HasHistory : Room → Type 0
HasHistory r =
    (v : ℕ) → 0 < v → v ≤ r.version → r.version < v + 1024 → is_some (Dict.get v r.dirty) ≡ true

Step-HasHistory : (r s : Room) → Step r s → HasHistory r → HasHistory s
Step-HasHistory r s step h v pos le near = elim (Bool-cases (v == s.version)) [
  | inl e ↦
      subst (λ u. is_some (Dict.get u s.dirty) ≡ true) (sym ((nat_eq.eqb_iff v s.version).0 e))
        step.present
  | inr e ↦ elim (step.history v (λ q. ground (arith, nat_eq.eqb_iff v s.version))) [
    | inl same ↦ rw same (
        h v pos (ground (arith, nat_eq.eqb_iff v s.version, step.bumped))
          (omega (arith, step.bumped)))
    | inr (n, old) ↦ absurd (elim old [ inl o ↦ omega arith | inr z ↦ omega arith ])
  ]
]

run-HasHistory : (os : List RoomOp) (r : Room) → HasHistory r → HasHistory (run_ops os r)
run-HasHistory [] r h = h
run-HasHistory (o ∷ os) r h = run-HasHistory os (apply_op o r) (elim (apply_op_cases o r) [
  | inl e ↦ subst HasHistory (sym e) h
  | inr step ↦ Step-HasHistory r (apply_op o r) step h
])

can_build-HasHistory :
    (r : Room) (n v : ℕ)
    → HasHistory r
    → v + n ≡ r.version
    → r.version ≤ v + 1024
    → can_build r.dirty v n ≡ true
unfolding can_build
can_build-HasHistory r zero v h e near = refl
can_build-HasHistory r (suc n) v h e near = ground (
  arith,
  h (suc v) (omega arith) (omega arith) (omega arith),
  can_build-HasHistory r n (suc v) h (omega arith) (omega arith),
)

HasHistory-new : HasHistory new_room
unfolding new_room
HasHistory-new v pos le near = absurd (omega arith)

delta-err :
    (from : ℕ) (s : Room) (x : DeltaError)
    → 0 < from
    → from ≤ s.version
    → can_build s.dirty from (s.version - from) ≡ true
    → delta from s ≡ err x
    → ⊥
unfolding delta
delta-err from s x pos le complete h = ground arith

-- From a new room, after any events and appends, every reader at a version that is not zero, not
-- ahead of the room's, and at most 1024 behind it is given a delta: it is not sent back to a
-- snapshot. A reader at version zero is outside of this.
pub delta_available :
    (os : List RoomOp) (from : ℕ)
    → 0 < from
    → from ≤ (run_ops os new_room).version
    → (run_ops os new_room).version ≤ from + 1024
    → (d : Delta) × (delta from (run_ops os new_room) ≡ ok d)
delta_available os from pos le near =
    let s = run_ops os new_room in
    elim (Result-cases (delta from s)) [
      | inl (d, e) ↦ (d, e)
      | inr (x, e) ↦ absurd (
          delta-err from s x pos le
            (can_build-HasHistory s (s.version - from) from
              (run-HasHistory os new_room HasHistory-new) (omega arith) near)
            e)
    ]
