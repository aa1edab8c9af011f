-- ===== src/Interpreter/Requests.antt =====
-- internal/interpreter: the numbers of the requests that the workflows make.
use coderoom.Prelude.{ℕ, zero, suc, ◌+◌, ◌≡◌, refl, ap, List, [], ◌∷◌, ◌++◌, arith}
use coderoom.Interpreter.{
  Instruction, execute_session, start_shell, plan_shared_send, plan_broadcast,
  read_participant_state, read_handoff_source,
}

-- The ids of the requests that are asked for, in order.
abbrev pub request_ids : List Instruction → List ℕ
request_ids [] = []
request_ids (execute_session ref request records ∷ is) = ref.request_id ∷ request_ids is
request_ids (start_shell ref request ∷ is) = ref.request_id ∷ request_ids is
request_ids (plan_shared_send ref alias ∷ is) = ref.request_id ∷ request_ids is
request_ids (plan_broadcast ref ∷ is) = ref.request_id ∷ request_ids is
request_ids (read_participant_state ref ∷ is) = ref.request_id ∷ request_ids is
request_ids (read_handoff_source ref alias ∷ is) = ref.request_id ∷ request_ids is
request_ids (_ ∷ is) = request_ids is

-- The `n` numbers after `m`.
abbrev pub count_from : ℕ → ℕ → List ℕ
count_from m zero = []
count_from m (suc n) = suc m ∷ count_from (suc m) n

pub request_ids-append :
    (is js : List Instruction) → request_ids (is ++ js) ≡ request_ids is ++ request_ids js
request_ids-append [] js = refl
request_ids-append (execute_session ref request records ∷ is) js =
    ap (λ l. ref.request_id ∷ l) (request_ids-append is js)
request_ids-append (start_shell ref request ∷ is) js =
    ap (λ l. ref.request_id ∷ l) (request_ids-append is js)
request_ids-append (plan_shared_send ref alias ∷ is) js =
    ap (λ l. ref.request_id ∷ l) (request_ids-append is js)
request_ids-append (plan_broadcast ref ∷ is) js =
    ap (λ l. ref.request_id ∷ l) (request_ids-append is js)
request_ids-append (read_participant_state ref ∷ is) js =
    ap (λ l. ref.request_id ∷ l) (request_ids-append is js)
request_ids-append (read_handoff_source ref alias ∷ is) js =
    ap (λ l. ref.request_id ∷ l) (request_ids-append is js)
request_ids-append (_ ∷ is) js = request_ids-append is js

pub count_from-add : (m a b : ℕ) → count_from m (a + b) ≡ count_from m a ++ count_from (m + a) b
count_from-add m zero b = ground arith
count_from-add m (suc a) b =
    let first : suc a + b ≡ suc (a + b) = omega arith in
    let second : m + suc a ≡ suc m + a = omega arith in
    rw (first, second) (ap (λ l. suc m ∷ l) (count_from-add (suc m) a b))
