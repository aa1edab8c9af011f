-- ===== src/LineStream/Tests.antt =====
-- internal/linestream/linestream.go at concrete histories.
use mathlib.Core.List.{flatten}
use coderoom.Prelude.Int.{pos}
use coderoom.Prelude.{
  String, ◌≡◌, true, refl, List, [], ◌∷◌, ◌++◌, map, All, some, replicate, false,
}
use coderoom.LineStream.{
  Config, Batcher, Event, line_read, in_closed, chunk_taken, batch, normalize_config, join_lines,
  finished, run, step, no_timer,
}
use coderoom.LineStream.Batches.{batch_content, batch_complete, lines_of, IsBatch}
use coderoom.LineStream.Progress.{batch-Inv, drains, Inv}

abbrev pairs : Config
pairs = record { flush_after = pos 75; max_lines = pos 2 }

abbrev history : List Event
history = line_read "a" ∷ line_read "b" ∷ line_read "c" ∷ chunk_taken ∷ in_closed ∷ chunk_taken ∷ []

abbrev at_end : Batcher
at_end = record {
  in_open = false;
  flush_after = pos 75;
  max_lines = pos 2;
  ready = [];
  incoming = [];
  timer = no_timer;
}

batch_content_example :
    (bs : List (List String)) × (("a\nb" ∷ "c" ∷ []) ++ at_end.ready ≡ map join_lines bs)
    × (flatten bs ++ at_end.incoming ≡ lines_of history)
    × All (IsBatch (normalize_config pairs).max_lines) bs
batch_content_example =
    batch_content pairs history at_end ("a\nb" ∷ "c" ∷ []) (unfold batch run step in refl)

batch_complete_example :
    (bs : List (List String)) × ("a\nb" ∷ "c" ∷ [] ≡ map join_lines bs)
    × (flatten bs ≡ lines_of history)
batch_complete_example =
    batch_complete pairs history at_end ("a\nb" ∷ "c" ∷ []) (unfold batch run step in refl) refl

batch-Inv_example : Inv at_end
batch-Inv_example =
    batch-Inv pairs history at_end ("a\nb" ∷ "c" ∷ []) (unfold batch run step in refl)

abbrev two_ready : Batcher
two_ready = record at_end { ready = "x" ∷ "y" ∷ [] }

drains_example :
    (c : Batcher) × (run (replicate 2 chunk_taken) two_ready ≡ some (c, "x" ∷ "y" ∷ []))
    × (finished c ≡ true)
drains_example = drains 2 two_ready refl refl
