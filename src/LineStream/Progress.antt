-- ===== src/LineStream/Progress.antt =====
-- internal/linestream/linestream.go: the quiet-period timer, and the end of the loop.
use coderoom.Prelude.{
  ◌≡◌, suc, true, false, not, List, [], ◌∷◌, arith, length, some, ℕ, zero, subst, ap, inl, inr,
  ◌++◌, String, Option-cases, List-cases, replicate,
}
use coderoom.Prelude.Int.{length_reaches}
use coderoom.LineStream.{
  Batcher, Event, line_read, chunk_taken, step, run, finished, is_empty, timer_set, new_batcher,
  normalize_config, Config, batch,
}

-- What holds at the head of the loop: the timer runs exactly while lines are waiting, they are fewer
-- than a full batch, and none waits once the input has closed.
pub record Inv (b : Batcher) : Type 0 where
  pub timed : timer_set b.timer ≡ not (is_empty b.incoming)
  pub room : length_reaches (length b.incoming) b.max_lines ≡ false
  pub drained : b.in_open ≡ false → b.incoming ≡ []

pub Inv-new : (cfg : Config) → Inv (new_batcher (normalize_config cfg))
unfolding new_batcher normalize_config
Inv-new cfg = ground arith

pub step-Inv :
    (e : Event) (b c : Batcher) (out : List String) → Inv b → step e b ≡ some (c, out) → Inv c
unfolding step
step-Inv (line_read l) b c out v h = ground arith
step-Inv _ b c out v h = ground arith

pub run_cons :
    (e : Event) (es : List Event) (b c : Batcher) (out : List String)
    → run (e ∷ es) b ≡ some (c, out)
    → (d : Batcher) × (o : List String) × (more : List String) × (step e b ≡ some (d, o))
      × (run es d ≡ some (c, more))
      × (out ≡ o ++ more)
unfolding run
run_cons e es b c out h = elim (Option-cases (step e b)) [
  | inl p ↦ ground arith
  | inr ((d, o), p) ↦ elim (Option-cases (run es d)) [
    | inl q ↦ ground arith
    | inr ((t, more), q) ↦ (d, o, more, p, ground arith, ground arith)
  ]
]

run-Inv :
    (es : List Event) (b c : Batcher) (out : List String) → Inv b → run es b ≡ some (c, out) → Inv c
run-Inv [] b c out v h = unfold run in let e : b ≡ c = ground arith in subst Inv e v
run-Inv (e ∷ es) b c out v h =
    let (d, o, more, s, r, eq) = run_cons e es b c out h in
    run-Inv es d c more (step-Inv e b d o v s) r

-- After any history of `Batch`, whatever the configuration: the timer runs exactly while lines are
-- waiting, no full batch waits, and once the input has closed nothing waits outside `ready`.
pub batch-Inv :
    (cfg : Config) (es : List Event) (c : Batcher) (out : List String)
    → batch cfg es ≡ some (c, out)
    → Inv c
unfolding batch
batch-Inv cfg es c out h = run-Inv es (new_batcher (normalize_config cfg)) c out (Inv-new cfg) h

-- Once the input has closed, the loop only delivers: taking the ready chunks one by one is always
-- possible, and after the last of them the loop ends.
pub drains :
    (n : ℕ) (b : Batcher)
    → b.in_open ≡ false
    → length b.ready ≡ n
    → (c : Batcher) × (run (replicate n chunk_taken) b ≡ some (c, b.ready)) × (finished c ≡ true)
unfolding run step
drains zero b closed len = (b, ground arith, ground arith)
drains (suc n) b closed len = elim (List-cases b.ready) [
  | inl e ↦ absurd (omega (arith, ap length e))
  | inr (x, xs, e) ↦
      let (c, r, fin) = drains n (record b { ready = xs }) closed (omega (arith, ap length e)) in
      (c, rw e (ground arith), fin)
]
