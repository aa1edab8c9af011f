-- ===== src/LineStream.antt =====
-- internal/linestream/linestream.go: lines gathered into batches. Reading lines from an `io.Reader`
-- is `bufio`'s. Each branch of the `select` in `run` is an event, `none` where its channel is nil.
pub mod Batches
pub mod Progress
mod Tests
use Prim.Native.String.{◌++◌ as str_append}
use coderoom.Prelude.Int.{ℤ, pos, negsuc, is_nonpos, length_reaches}
use coderoom.Prelude.{
  ℕ, zero, suc, String, Bool, true, false, not, ◌&&◌, Option, none, some, List, [], ◌∷◌, ◌++◌,
  length, if◌then◌else◌,
}

pub record Config : Type 0 where
  -- in milliseconds
  pub flush_after : ℤ
  pub max_lines : ℤ

unfoldable pub default_config : Config
default_config = record { flush_after = pos 75; max_lines = pos 80 }

unfoldable pub normalize_config : Config → Config
unfolding default_config
normalize_config cfg = record {
  flush_after = if is_nonpos cfg.flush_after then default_config.flush_after else cfg.flush_after;
  max_lines = if is_nonpos cfg.max_lines then default_config.max_lines else cfg.max_lines;
}

-- A timer that is not nil is still running, or has put its time on its channel.
pub data Timer : Type 0 where
  no_timer running : Timer

pub record Batcher : Type 0 where
  -- whether `in` is not yet nil
  pub in_open : Bool
  pub flush_after : ℤ
  pub max_lines : ℤ
  pub ready : List String
  pub incoming : List String
  pub timer : Timer

unfoldable pub new_batcher : Config → Batcher
new_batcher cfg = record {
  in_open = true;
  flush_after = cfg.flush_after;
  max_lines = cfg.max_lines;
  ready = [];
  incoming = [];
  timer = no_timer;
}

-- `strings.Join(lines, "\n")`
abbrev pub join_lines : List String → String
join_lines [] = ""
join_lines (l ∷ []) = l
join_lines (l ∷ m ∷ ls) = str_append l (str_append "\n" (join_lines (m ∷ ls)))

abbrev pub is_empty {ℓ} : {A : Type ℓ} → List A → Bool
is_empty [] = true
is_empty (x ∷ xs) = false

-- `stopTimer`, which `startTimer` calls first
stop_timer : Batcher → Batcher
stop_timer b = record b { timer = no_timer }

start_timer : Batcher → Batcher
unfolding stop_timer
start_timer b = record (stop_timer b) { timer = running }

flush_incoming : Batcher → Batcher
unfolding stop_timer
flush_incoming b =
    if is_empty b.incoming
    then b
    else stop_timer (record b { ready = b.ready ++ join_lines b.incoming ∷ []; incoming = [] })

add_incoming_line : String → Batcher → Batcher
unfolding flush_incoming start_timer
add_incoming_line line b =
    let c = record b { incoming = b.incoming ++ line ∷ [] } in
    if length_reaches (length c.incoming) c.max_lines then flush_incoming c else start_timer c

-- `nextReadyChunk`
abbrev pub next_ready_chunk : List String → Option (String × List String)
next_ready_chunk [] = none
next_ready_chunk (c ∷ rest) = some (c, rest)

abbrev pub timer_set : Timer → Bool
timer_set no_timer = false
timer_set running = true

pub data Event : Type 0 where
  line_read : String → Event
  in_closed : Event
  timer_fires : Event
  chunk_taken : Event

-- The test at the head of the loop.
abbrev pub finished : Batcher → Bool
finished b = not b.in_open && is_empty b.ready

-- One round of the loop: the new state, and what went to `out`.
unfoldable pub step : Event → Batcher → Option (Batcher × List String)
unfolding add_incoming_line flush_incoming
step (line_read line) b = if b.in_open then some (add_incoming_line line b, []) else none
step in_closed b =
    if b.in_open then some (record (flush_incoming b) { in_open = false }, []) else none
step timer_fires b =
    if finished b then none else (if timer_set b.timer then some (flush_incoming b, []) else none)
step chunk_taken b = elim (next_ready_chunk b.ready) [
  | none ↦ none
  | some (c, rest) ↦ some (record b { ready = rest }, c ∷ [])
]

unfoldable pub run : List Event → Batcher → Option (Batcher × List String)
run [] b = some (b, [])
run (e ∷ es) b = elim (step e b) [
  | none ↦ none
  | some (c, out) ↦ elim (run es c) [ none ↦ none | some (d, more) ↦ some (d, out ++ more) ]
]

-- `Batch`, up to the channels
unfoldable pub batch : Config → List Event → Option (Batcher × List String)
unfolding normalize_config new_batcher run
batch cfg es = run es (new_batcher (normalize_config cfg))
