-- ===== src/LineStream/Batches.antt =====
-- internal/linestream/linestream.go: what the batches hold.
use mathlib.Core.List.{flatten, append_assoc, append-nil, map-append}
use coderoom.Prelude.{
  ◌≡◌, ◌≤◌, Bool, true, false, not, List, [], ◌∷◌, ◌++◌, arith, length, length-append, some, String,
  map, All, All-append, refl, subst, sym,
}
use coderoom.Prelude.Int.{ℤ, pos, negsuc, length_reaches}
use coderoom.LineStream.{
  Batcher, Event, line_read, in_closed, timer_fires, chunk_taken, step, run, finished, is_empty,
  new_batcher, normalize_config, Config, batch, join_lines,
}
use coderoom.LineStream.Progress.{Inv, Inv-new, step-Inv, run_cons, batch-Inv}

-- The lines that were read.
abbrev pub lines_of : List Event → List String
lines_of [] = []
lines_of (line_read l ∷ es) = l ∷ lines_of es
lines_of (_ ∷ es) = lines_of es

-- A batch has a line, and no more than the limit.
abbrev pub IsBatch : ℤ → List String → Type 0
IsBatch (pos m) ls = (1 ≤ length ls) × (length ls ≤ m)
IsBatch (negsuc m) ls = ⊥

flushed_if : Bool → List String → List (List String)
flushed_if true ls = ls ∷ []
flushed_if false ls = []

-- The batches that one event completes.
completed : Event → Batcher → List (List String)
unfolding flushed_if
completed (line_read l) b =
    let ls = b.incoming ++ l ∷ [] in flushed_if (length_reaches (length ls) b.max_lines) ls
completed in_closed b = flushed_if (not (is_empty b.incoming)) b.incoming
completed timer_fires b = flushed_if (not (is_empty b.incoming)) b.incoming
completed chunk_taken b = []

snoc-nonempty : (ls : List String) (l : String) → is_empty (ls ++ l ∷ []) ≡ false
snoc-nonempty [] l = refl
snoc-nonempty (m ∷ ls) l = refl

step_batches :
    (e : Event) (b c : Batcher) (out : List String)
    → step e b ≡ some (c, out)
    → (b.ready ++ map join_lines (completed e b) ≡ out ++ c.ready)
      × (b.incoming ++ lines_of (e ∷ []) ≡ flatten (completed e b) ++ c.incoming)
      × (c.max_lines ≡ b.max_lines)
unfolding step completed flatten
step_batches (line_read l) b c out h =
    ground
      (arith, append-nil b.ready, append-nil (b.incoming ++ l ∷ []), snoc-nonempty b.incoming l)
step_batches in_closed b c out h = ground (arith, append-nil b.ready, append-nil b.incoming)
step_batches timer_fires b c out h = ground (arith, append-nil b.ready, append-nil b.incoming)
step_batches chunk_taken b c out h = ground (arith, append-nil b.ready, append-nil b.incoming)

flushed_if-IsBatch :
    (t : Bool) (m : ℤ) (ls : List String)
    → (t ≡ true → IsBatch m ls)
    → All (IsBatch m) (flushed_if t ls)
unfolding flushed_if
flushed_if-IsBatch true m ls h = (h refl, tt)
flushed_if-IsBatch false m ls h = tt

room-IsBatch :
    (m : ℤ) (ls : List String)
    → length_reaches (length ls) m ≡ false
    → is_empty ls ≡ false
    → IsBatch m ls
room-IsBatch (pos m) [] h e = ground arith
room-IsBatch (pos m) (l ∷ ls) h e = ground arith
room-IsBatch (negsuc m) ls h e = ground arith

snoc-IsBatch :
    (m : ℤ) (ls : List String) (l : String)
    → length_reaches (length ls) m ≡ false
    → IsBatch m (ls ++ l ∷ [])
snoc-IsBatch (pos m) ls l h = ground (arith, length-append ls (l ∷ []))
snoc-IsBatch (negsuc m) ls l h = ground arith

step_sizes : (e : Event) (b : Batcher) → Inv b → All (IsBatch b.max_lines) (completed e b)
unfolding completed
step_sizes (line_read l) b v =
    flushed_if-IsBatch _ b.max_lines (b.incoming ++ l ∷ [])
      (λ _. snoc-IsBatch b.max_lines b.incoming l v.room)
step_sizes in_closed b v =
    flushed_if-IsBatch _ b.max_lines b.incoming
      (λ t. room-IsBatch b.max_lines b.incoming v.room (ground arith))
step_sizes timer_fires b v =
    flushed_if-IsBatch _ b.max_lines b.incoming
      (λ t. room-IsBatch b.max_lines b.incoming v.room (ground arith))
step_sizes chunk_taken b v = tt

lines_of-cons : (e : Event) (es : List Event) → lines_of (e ∷ es) ≡ lines_of (e ∷ []) ++ lines_of es
lines_of-cons (line_read l) es = refl
lines_of-cons _ es = refl

flatten-append : (xs ys : List (List String)) → flatten (xs ++ ys) ≡ flatten xs ++ flatten ys
unfolding flatten
flatten-append [] ys = refl
flatten-append (x ∷ xs) ys =
    rw (flatten-append xs ys) (sym (append_assoc x (flatten xs) (flatten ys)))

-- The batches behind a run: what they hold, and what was sent of them.
record Gathered (es : List Event) (b c : Batcher) (out : List String) (bs : List (List String))
    : Type 0 where
  sent : b.ready ++ map join_lines bs ≡ out ++ c.ready
  held : b.incoming ++ lines_of es ≡ flatten bs ++ c.incoming
  sizes : All (IsBatch b.max_lines) bs

run_gathers :
    (es : List Event) (b c : Batcher) (out : List String)
    → Inv b
    → run es b ≡ some (c, out)
    → (bs : List (List String)) × Gathered es b c out bs
run_gathers [] b c out v h =
    unfold run flatten in
    (
      [],
      record {
        sent = ground (arith, append-nil b.ready);
        held = ground (arith, append-nil b.incoming);
        sizes = tt;
      },
    )
run_gathers (e ∷ es) b c out v h =
    let (d, o, more, s, r, eq) = run_cons e es b c out h in
    let (sent, held, same) = step_batches e b d o s in
    let (bs, g) = run_gathers es d c more (step-Inv e b d o v s) r in
    (
      completed e b ++ bs,
      record {
        sent =
            rw (map-append, ← append_assoc, sent, append_assoc, g.sent, eq)
              (sym (append_assoc o more c.ready));
        held =
            rw (lines_of-cons e es, ← append_assoc, held, append_assoc, g.held, flatten-append)
              (sym (append_assoc (flatten (completed e b)) (flatten bs) c.incoming));
        sizes =
            All-append (IsBatch b.max_lines) (completed e b) bs (step_sizes e b v)
              (subst (λ m. All (IsBatch m) bs) same g.sizes);
      },
    )

-- Whatever the configuration and the order of lines, timeouts, deliveries and the end of the input,
-- there are batches, each of at least one and at most `maxLines` lines, such that what was sent or
-- is ready is these batches joined, in order, and they hold, with the lines that still wait, exactly
-- the lines read, in order.
pub batch_content :
    (cfg : Config) (es : List Event) (c : Batcher) (out : List String)
    → batch cfg es ≡ some (c, out)
    → (bs : List (List String)) × (out ++ c.ready ≡ map join_lines bs)
      × (flatten bs ++ c.incoming ≡ lines_of es)
      × All (IsBatch (normalize_config cfg).max_lines) bs
unfolding batch new_batcher
batch_content cfg es c out h =
    let (bs, g) = run_gathers es (new_batcher (normalize_config cfg)) c out (Inv-new cfg) h in
    (bs, sym g.sent, sym g.held, g.sizes)

-- When the loop has ended every line has been delivered.
pub batch_complete :
    (cfg : Config) (es : List Event) (c : Batcher) (out : List String)
    → batch cfg es ≡ some (c, out)
    → finished c ≡ true
    → (bs : List (List String)) × (out ≡ map join_lines bs) × (flatten bs ≡ lines_of es)
batch_complete cfg es c out h fin =
    let (bs, sent, held, sizes) = batch_content cfg es c out h in
    let v = batch-Inv cfg es c out h in
    (
      bs,
      ground (arith, append-nil out, sent),
      ground (arith, append-nil (flatten bs), held, v.drained),
    )
