-- ===== src/Queue/Tests.antt =====
-- internal/queue/queue.go at concrete histories.
use coderoom.Prelude.{ℕ, ◌⊎◌, ◌≡◌, true, false, refl, List, [], ◌∷◌, ◌++◌, ◌||◌, is_some}
use coderoom.Queue.{
  Queue, Action, pushes, pulls, closes, push_dropped, run, new_queue, push_sent, done_ready,
  pull_received, uncons,
}
use coderoom.Queue.Order.{run-prefix, never_blocks, pushed}

abbrev history : List (Action ℕ)
history = pushes 1 ∷ pushes 2 ∷ pulls ∷ pushes 3 ∷ closes ∷ pulls ∷ push_dropped 4 ∷ []

abbrev left : Queue ℕ
left = record { buf = 3 ∷ []; done = true; pumping = true }

run-prefix_example :
    (rest : List ℕ) × (pushed history ≡ (1 ∷ 2 ∷ []) ++ rest)
    × ((left.pumping ≡ false) ⊎ (rest ≡ left.buf))
run-prefix_example = run-prefix history left (1 ∷ 2 ∷ []) (unfold run new_queue in refl)

never_blocks_example :
    ((is_some (push_sent 7 left) || is_some (done_ready left)) ≡ true)
    × ((is_some (pull_received left) || is_some (done_ready left))
        ≡ (left.done || is_some (uncons left.buf)))
never_blocks_example = never_blocks history left (1 ∷ 2 ∷ []) 7 (unfold run new_queue in refl)
