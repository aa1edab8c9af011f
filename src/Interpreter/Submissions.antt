-- ===== src/Interpreter/Submissions.antt =====
-- internal/interpreter: the answers to submissions among the instructions.
use coderoom.Prelude.{ℕ, suc, ◌+◌, ◌≡◌, List, [], ◌∷◌, ◌++◌, arith}
use coderoom.Interpreter.{Instruction, publish_event, submission_succeeded, submission_failed}

-- How many submissions were reported as succeeded or failed.
abbrev pub answered : List Instruction → ℕ
answered [] = 0
answered (publish_event (submission_succeeded raw) ∷ is) = suc (answered is)
answered (publish_event (submission_failed f) ∷ is) = suc (answered is)
answered (_ ∷ is) = answered is

pub answered-append : (is js : List Instruction) → answered (is ++ js) ≡ answered is + answered js
answered-append [] js = omega arith
answered-append (publish_event (submission_succeeded raw) ∷ is) js =
    ground (arith, answered-append is js)
answered-append (publish_event (submission_failed f) ∷ is) js =
    ground (arith, answered-append is js)
answered-append (_ ∷ is) js = answered-append is js
