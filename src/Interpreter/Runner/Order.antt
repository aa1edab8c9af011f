-- ===== src/Interpreter/Runner/Order.antt =====
-- internal/interpreter/instruction_runner.go: the queue of `Run` goes through everything that
-- follows from one instruction before it turns to the next.
use coderoom.Prelude.{
  ℕ, zero, suc, ◌+◌, ◌≡◌, ◌↔◌, inl, inr, sym, subst, Bool, ◌||◌, Option, none, some, List, [], ◌∷◌,
  ◌++◌, arith, Option-cases,
}
use mathlib.Core.List.{append_assoc}
use coderoom.Interpreter.Runner.{Ports, Item, Applied, run_item, run_queue}

add_suc : (n m : ℕ) → suc n + m ≡ suc (n + m)
add_suc n m = omega arith

module _ {W S C : Type 0} (ports : Ports W S C) where
  -- The reference: an item, then all that follows from it, at most `depth` deep, then the rest.
  unfoldable pub depth_first : ℕ → List Item → W → Bool → Option (W × Bool)
  unfolding run_item
  depth_first depth [] w requested = some (w, requested)
  depth_first zero (item ∷ items) w requested = none
  depth_first (suc depth) (item ∷ items) w requested = elim (run_item ports item w) [
    | none ↦ none
    | some r ↦ elim (depth_first depth r.follow r.world (requested || r.wants_snapshot)) [
      | none ↦ none
      | some (v, wanted) ↦ depth_first (suc depth) items v wanted
    ]
  ]

  run_queue_cons :
      (n : ℕ) (item : Item) (queue : List Item) (w : W) (b : Bool) (out : W × Bool)
      → run_queue ports (suc n) (item ∷ queue) w b ≡ some out
      → (r : Applied W) × (run_item ports item w ≡ some r)
        × (run_queue ports n (r.follow ++ queue) r.world (b || r.wants_snapshot) ≡ some out)
  unfolding run_queue
  run_queue_cons n item queue w b out h = elim (Option-cases (run_item ports item w)) [
    | inl e ↦ ground arith
    | inr (r, e) ↦ (r, e, ground arith)
  ]

  run_queue_step :
      (n : ℕ) (item : Item) (queue : List Item) (w : W) (b : Bool) (out : W × Bool) (r : Applied W)
      → run_item ports item w ≡ some r
      → run_queue ports n (r.follow ++ queue) r.world (b || r.wants_snapshot) ≡ some out
      → run_queue ports (suc n) (item ∷ queue) w b ≡ some out
  unfolding run_queue
  run_queue_step n item queue w b out r e h = ground arith

  depth_first_cons :
      (n : ℕ) (item : Item) (items : List Item) (w : W) (b : Bool) (out : W × Bool)
      → depth_first (suc n) (item ∷ items) w b ≡ some out
      → (r : Applied W) × (v : W) × (c : Bool) × (run_item ports item w ≡ some r)
        × (depth_first n r.follow r.world (b || r.wants_snapshot) ≡ some (v, c))
        × (depth_first (suc n) items v c ≡ some out)
  unfolding depth_first
  depth_first_cons n item items w b out h = elim (Option-cases (run_item ports item w)) [
    | inl e ↦ ground arith
    | inr (r, e) ↦ elim (Option-cases (depth_first n r.follow r.world (b || r.wants_snapshot))) [
      | inl e' ↦ ground arith
      | inr ((v, c), e') ↦ (r, v, c, e, e', ground arith)
    ]
  ]

  depth_first_step :
      (n : ℕ) (item : Item) (items : List Item) (w v : W) (b c : Bool) (out : W × Bool)
      (r : Applied W)
      → run_item ports item w ≡ some r
      → depth_first n r.follow r.world (b || r.wants_snapshot) ≡ some (v, c)
      → depth_first (suc n) items v c ≡ some out
      → depth_first (suc n) (item ∷ items) w b ≡ some out
  unfolding depth_first
  depth_first_step n item items w v b c out r e h k = ground arith

  depth_first_more :
      (n : ℕ) (items : List Item) (w : W) (b : Bool) (out : W × Bool)
      → depth_first n items w b ≡ some out
      → depth_first (suc n) items w b ≡ some out
  depth_first_more n [] w b out h = unfold depth_first in ground arith
  depth_first_more zero (item ∷ items) w b out h = unfold depth_first in ground arith
  depth_first_more (suc n) (item ∷ items) w b out h =
      let (r, v, c, e, first, later) = depth_first_cons n item items w b out h in
      depth_first_step (suc n) item items w v b c out r e
        (depth_first_more n r.follow r.world (b || r.wants_snapshot) (v, c) first)
        (depth_first_more (suc n) items v c out later)

  run_queue_more :
      (n : ℕ) (queue : List Item) (w : W) (b : Bool) (out : W × Bool)
      → run_queue ports n queue w b ≡ some out
      → run_queue ports (suc n) queue w b ≡ some out
  run_queue_more n [] w b out h = unfold run_queue in ground arith
  run_queue_more zero (item ∷ queue) w b out h = unfold run_queue in ground arith
  run_queue_more (suc n) (item ∷ queue) w b out h =
      let (r, e, later) = run_queue_cons n item queue w b out h in
      run_queue_step (suc n) item queue w b out r e
        (run_queue_more n (r.follow ++ queue) r.world (b || r.wants_snapshot) out later)

  -- Two queues, one after the other.
  run_queue_join :
      (n m : ℕ) (xs ys : List Item) (w v : W) (b c : Bool) (out : W × Bool)
      → run_queue ports n xs w b ≡ some (v, c)
      → run_queue ports m ys v c ≡ some out
      → run_queue ports (n + m) (xs ++ ys) w b ≡ some out
  run_queue_join zero m [] ys w v b c out h k = unfold run_queue in ground arith
  run_queue_join zero m (x ∷ xs) ys w v b c out h k = unfold run_queue in ground arith
  run_queue_join (suc n) m [] ys w v b c out h k = rw (add_suc n m) (
      run_queue_more (n + m) ys w b out
        (run_queue_join n m [] ys w v b c out (unfold run_queue in ground arith) k))
  run_queue_join (suc n) m (x ∷ xs) ys w v b c out h k =
      let (r, e, later) = run_queue_cons n x xs w b (v, c) h in
      rw (add_suc n m) (
        run_queue_step (n + m) x (xs ++ ys) w b out r e (
          subst (λ queue. run_queue ports (n + m) queue r.world (b || r.wants_snapshot) ≡ some out)
            (append_assoc r.follow xs ys)
            (run_queue_join n m (r.follow ++ xs) ys r.world v (b || r.wants_snapshot) c out later
              k)))

  run_queue_split :
      (n : ℕ) (xs ys : List Item) (w : W) (b : Bool) (out : W × Bool)
      → run_queue ports n (xs ++ ys) w b ≡ some out
      → (v : W) × (c : Bool) × (run_queue ports n xs w b ≡ some (v, c))
        × (run_queue ports n ys v c ≡ some out)
  run_queue_split n [] ys w b out h = (w, b, unfold run_queue in ground arith, h)
  run_queue_split zero (x ∷ xs) ys w b out h = unfold run_queue in ground arith
  run_queue_split (suc n) (x ∷ xs) ys w b out h =
      let (r, e, later) = run_queue_cons n x (xs ++ ys) w b out h in
      let whole =
        subst (λ queue. run_queue ports n queue r.world (b || r.wants_snapshot) ≡ some out)
          (sym (append_assoc r.follow xs ys)) later in
      let (v, c, first, last) =
        run_queue_split n (r.follow ++ xs) ys r.world (b || r.wants_snapshot) out whole in
      (v, c, run_queue_step n x xs w b (v, c) r e first, run_queue_more n ys v c out last)

  depth_first-run_queue :
      (n : ℕ) (items : List Item) (w : W) (b : Bool) (out : W × Bool)
      → depth_first n items w b ≡ some out
      → (fuel : ℕ) × (run_queue ports fuel items w b ≡ some out)
  depth_first-run_queue n [] w b out h = (zero, unfold depth_first run_queue in ground arith)
  depth_first-run_queue zero (item ∷ items) w b out h = unfold depth_first in ground arith
  depth_first-run_queue (suc n) (item ∷ items) w b out h =
      let (r, v, c, e, first, later) = depth_first_cons n item items w b out h in
      let (f, q) = depth_first-run_queue n r.follow r.world (b || r.wants_snapshot) (v, c) first in
      let (g, p) = depth_first-run_queue (suc n) items v c out later in
      (
        suc (f + g),
        run_queue_step (f + g) item items w b out r e
            (run_queue_join f g r.follow items r.world v (b || r.wants_snapshot) c out q p),
      )

  run_queue-depth_first :
      (n : ℕ) (items : List Item) (w : W) (b : Bool) (out : W × Bool)
      → run_queue ports n items w b ≡ some out
      → depth_first n items w b ≡ some out
  run_queue-depth_first n [] w b out h = unfold depth_first run_queue in ground arith
  run_queue-depth_first zero (item ∷ items) w b out h = unfold run_queue in ground arith
  run_queue-depth_first (suc n) (item ∷ items) w b out h =
      let (r, e, later) = run_queue_cons n item items w b out h in
      let (v, c, first, last) =
        run_queue_split n r.follow items r.world (b || r.wants_snapshot) out later in
      depth_first_step n item items w v b c out r e
        (run_queue-depth_first n r.follow r.world (b || r.wants_snapshot) (v, c) first)
        (depth_first_more n items v c out (run_queue-depth_first n items v c out last))

-- Whatever the session and the model do, the queue of `Run` is the same as the reference that goes
-- depth first: the one comes to an end exactly if the other does, and with the same state and the
-- same request for a snapshot.
pub queue_is_nested :
    {W S C : Type 0} (ports : Ports W S C) (items : List Item) (w : W) (requested : Bool)
    (out : W × Bool)
    → ((fuel : ℕ) × (run_queue ports fuel items w requested ≡ some out))
      ↔ ((depth : ℕ) × (depth_first ports depth items w requested ≡ some out))
queue_is_nested ports items w requested out = (
  λ (fuel, h). (fuel, run_queue-depth_first ports fuel items w requested out h),
  λ (depth, h). depth_first-run_queue ports depth items w requested out h,
)
