-- ===== src/Queue/Order.antt =====
-- internal/queue/queue.go: values leave the queue in the order in which they were pushed.
use coderoom.Prelude.{
  ◌⊎◌, ◌≡◌, refl, true, false, some, List, [], ◌∷◌, ◌++◌, arith, inl, inr, Option-cases, Bool-cases,
  sym, ◌∙◌, ◌||◌, is_some,
}
use mathlib.Core.List.{append_assoc, append-nil}
use coderoom.Queue.{
  Queue, Action, pushes, push_dropped, new_queue, act, run, push_sent, done_ready, pull_received,
  uncons,
}

module _ {ℓ} {A : Type ℓ} where
  -- The values whose `Push` met the pump.
  abbrev pub pushed : List (Action A) → List A
  pushed [] = []
  pushed (pushes v ∷ as') = v ∷ pushed as'
  pushed (_ ∷ as') = pushed as'

  -- What one action does to the buffer and the output while the pump stays in its loop.
  act_order :
      (a : Action A) (q r : Queue A) (out : List A)
      → act a q ≡ some (r, out)
      → r.pumping ≡ true
      → q.buf ++ pushed (a ∷ []) ≡ out ++ r.buf
  unfolding act
  act_order (pushes v) q r out h p = ground arith
  act_order (push_dropped v) q r out h p = ground (arith, append-nil q.buf)
  act_order _ q r out h p = ground (arith, append-nil q.buf)

  pushed-cons :
      (a : Action A) (as' : List (Action A)) → pushed (a ∷ as') ≡ pushed (a ∷ []) ++ pushed as'
  pushed-cons (pushes v) as' = refl
  pushed-cons (push_dropped v) as' = refl
  pushed-cons _ as' = refl

  -- An action after which the pump does not run moves no value.
  act_stopped :
      (a : Action A) (q r : Queue A) (out : List A)
      → act a q ≡ some (r, out)
      → r.pumping ≡ false
      → (pushed (a ∷ []) ≡ []) × (out ≡ [])
  unfolding act
  act_stopped (pushes v) q r out h p = ground arith
  act_stopped (push_dropped v) q r out h p = ground arith
  act_stopped _ q r out h p = ground arith

  act_stays_stopped :
      (a : Action A) (q r : Queue A) (out : List A)
      → act a q ≡ some (r, out)
      → q.pumping ≡ false
      → r.pumping ≡ false
  unfolding act
  act_stays_stopped (pushes v) q r out h p = ground arith
  act_stays_stopped _ q r out h p = ground arith

  run_cons :
      (a : Action A) (as' : List (Action A)) (q s : Queue A) (out : List A)
      → run (a ∷ as') q ≡ some (s, out)
      → (r : Queue A) × (o : List A) × (more : List A) × (act a q ≡ some (r, o))
        × (run as' r ≡ some (s, more))
        × (out ≡ o ++ more)
  unfolding run
  run_cons a as' q s out h = elim (Option-cases (act a q)) [
    | inl e ↦ ground arith
    | inr ((r, o), e) ↦ elim (Option-cases (run as' r)) [
      | inl e' ↦ ground arith
      | inr ((t, more), e') ↦ (r, o, more, e, ground arith, ground arith)
    ]
  ]

  run_stopped :
      (as' : List (Action A)) (q s : Queue A) (out : List A)
      → run as' q ≡ some (s, out)
      → q.pumping ≡ false
      → (pushed as' ≡ []) × (out ≡ []) × (s.pumping ≡ false)
  run_stopped [] q s out h p = unfold run in ground arith
  run_stopped (a ∷ as') q s out h p =
      let (r, o, more, e, e', eq) = run_cons a as' q s out h in
      let still = act_stays_stopped a q r o e p in
      let (none_pushed, nothing_out) = act_stopped a q r o e still in
      let (later_pushed, later_out, stopped) = run_stopped as' r s more e' still in
      (
        pushed-cons a as' ∙ cc (none_pushed, later_pushed, append-nil {A = A} []),
        cc (eq, nothing_out, later_out, append-nil {A = A} []),
        stopped,
      )

  run_order :
      (as' : List (Action A)) (q s : Queue A) (out : List A)
      → run as' q ≡ some (s, out)
      → (rest : List A) × (q.buf ++ pushed as' ≡ out ++ rest) × (s.pumping ≡ true → rest ≡ s.buf)
  run_order [] q s out h =
      (q.buf, unfold run in ground (arith, append-nil q.buf), unfold run in ground arith)
  run_order (a ∷ as') q s out h =
      let (r, o, more, e, e', eq) = run_cons a as' q s out h in
      elim (Bool-cases r.pumping) [
        | inl on ↦
            let (rest, ih, last) = run_order as' r s more e' in
            (
              rest,
              rw (pushed-cons a as', eq, ← append_assoc, act_order a q r o e on, append_assoc, ih)
                  (sym (append_assoc o more rest)),
              last,
            )
        | inr off ↦
            let (none_pushed, nothing_out) = act_stopped a q r o e off in
            let (later_pushed, later_out, stopped) = run_stopped as' r s more e' off in
            (
              q.buf,
              rw (pushed-cons a as', none_pushed, later_pushed, eq, nothing_out, later_out)
                  (append-nil q.buf),
              λ on. cc,
            )
      ]

-- Whatever the interleaving of pushes, pulls, timeouts, `Close` and the pump, the values delivered
-- are the first of the values pushed, in their order, each once; and the rest of them is exactly
-- what is buffered, unless the pump has returned.
pub run-prefix {ℓ} :
    {A : Type ℓ} (actions : List (Action A)) (q : Queue A) (out : List A)
    → run actions new_queue ≡ some (q, out)
    → (rest : List A) × (pushed actions ≡ out ++ rest) × ((q.pumping ≡ false) ⊎ (rest ≡ q.buf))
unfolding new_queue
run-prefix actions q out h =
    let (rest, e, last) = run_order actions new_queue q out h in
    (rest, e, elim (Bool-cases q.pumping) [ inl on ↦ inr (last on) | inr off ↦ inl off ])

-- Whatever was called before, the pump runs as long as the queue is not closed.
act-pumping {ℓ} :
    {A : Type ℓ} (a : Action A) (q r : Queue A) (out : List A)
    → act a q ≡ some (r, out)
    → (q.pumping || q.done) ≡ true
    → (r.pumping || r.done) ≡ true
unfolding act
act-pumping (pushes v) q r out h p = ground arith
act-pumping _ q r out h p = ground arith

run-pumping {ℓ} :
    {A : Type ℓ} (as' : List (Action A)) (q s : Queue A) (out : List A)
    → run as' q ≡ some (s, out)
    → (q.pumping || q.done) ≡ true
    → (s.pumping || s.done) ≡ true
run-pumping [] q s out h p = unfold run in ground arith
run-pumping (a ∷ as') q s out h p =
    let (r, o, more, e, e', eq) = run_cons a as' q s out h in
    run-pumping as' r s more e' (act-pumping a q r o e p)

-- After any history `Push` has a branch that is ready, so it never blocks on `Pull`; and `Pull` has
-- one unless the queue is open and empty.
pub never_blocks {ℓ} :
    {A : Type ℓ} (actions : List (Action A)) (q : Queue A) (out : List A) (v : A)
    → run actions new_queue ≡ some (q, out)
    → ((is_some (push_sent v q) || is_some (done_ready q)) ≡ true)
      × ((is_some (pull_received q) || is_some (done_ready q)) ≡ (q.done || is_some (uncons q.buf)))
unfolding new_queue push_sent done_ready pull_received
never_blocks actions q out v h = ground (arith, run-pumping actions new_queue q out h)
