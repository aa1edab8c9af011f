-- ===== src/Agent/Wait.antt =====
-- internal/agent/agent.go: `SendAndWait`. The messages that `Read` yields are a list; where it ends,
-- `Read` fails.
use Prim.Native.String.{◌++◌ as str_append}
use text.Mathlib.TextLemmas.{append_assoc, append-nil, nil-append}
use coderoom.Prelude.Sets
use coderoom.Prelude.{
  String, ◌≡◌, ◌≢◌, Bool, true, false, not, ◌&&◌, Option, none, some, List, [], ◌∷◌, ◌++◌, ◌==◌,
  string_eq, arith, if◌then◌else◌, map, All,
}
use coderoom.Prelude.Text.{concat_text}
use coderoom.Agent.{Message, stream, flush, single, output_content}

pub record WaitState : Type 0 where
  pub text : String
  pub open_streams : List String
  pub seen_output : Bool

abbrev pub handle_output_stream : Message → String → WaitState → WaitState
handle_output_stream msg c w = record {
  text = str_append w.text c;
  open_streams = Sets.insert msg.stream_id w.open_streams;
  seen_output = true;
}

abbrev pub is_nil : List String → Bool
is_nil [] = true
is_nil (s ∷ ss) = false

-- Whether the turn is complete, and the streams still open.
abbrev pub handle_output_flush : Message → String → WaitState → Bool × WaitState
handle_output_flush msg anchor w =
    if not (anchor == "") && msg.stream_id == anchor
    then (true, w)
    else (let left = Sets.remove msg.stream_id w.open_streams in
        ((anchor == "") && (w.seen_output && is_nil left), record w { open_streams = left }))

abbrev pub handle_output_single : String → WaitState → WaitState
handle_output_single c w = record w { text = str_append w.text c; seen_output = true }

-- One round of the loop: `true` if it returns.
unfoldable pub wait_step : String → Message → WaitState → Bool × WaitState
wait_step anchor msg w = elim msg.content [
  | output_content c ↦ elim msg.mode [
    | stream ↦ (false, handle_output_stream msg c w)
    | flush ↦ handle_output_flush msg anchor w
    | single ↦ (false, handle_output_single c w)
  ]
  | _ ↦ (false, w)
]

-- `none` is the error of a failed `Read`.
unfoldable pub wait_loop : String → List Message → WaitState → Option String
unfolding wait_step
wait_loop anchor [] w = none
wait_loop anchor (msg ∷ rest) w =
    let (returns, w') = wait_step anchor msg w in
    let later = wait_loop anchor rest w' in if returns then some w'.text else later

unfoldable pub send_and_wait : String → List Message → Option String
unfolding wait_loop
send_and_wait anchor reads =
    wait_loop anchor reads (record { text = ""; open_streams = []; seen_output = false })

-- The flush of an output stream that is the anchor of the turn.
abbrev pub ends_turn : String → Message → Bool
ends_turn anchor msg = elim msg.content [
  | output_content c ↦ elim msg.mode [ flush ↦ msg.stream_id == anchor | _ ↦ false ]
  | _ ↦ false
]

-- The text that one message adds to the answer.
abbrev pub spoken : Message → String
spoken msg = elim msg.content [
  | output_content c ↦ elim msg.mode [ stream ↦ c | flush ↦ "" | single ↦ c ]
  | _ ↦ ""
]

wait_step-anchored :
    (anchor : String) (msg : Message) (w : WaitState)
    → anchor ≢ ""
    → ((wait_step anchor msg w).0 ≡ ends_turn anchor msg)
      × ((wait_step anchor msg w).1.text
          ≡ (if ends_turn anchor msg then w.text else str_append w.text (spoken msg)))
unfolding wait_step
wait_step-anchored anchor msg w named =
    ground (arith, string_eq.eqb_iff anchor "", append-nil w.text)

wait_loop-anchored :
    (anchor : String) (before after : List Message) (last : Message) (w : WaitState)
    → anchor ≢ ""
    → All (λ m. ends_turn anchor m ≡ false) before
    → ends_turn anchor last ≡ true
    → wait_loop anchor (before ++ last ∷ after) w
      ≡ some (str_append w.text (concat_text (map spoken before)))
unfolding wait_loop
wait_loop-anchored anchor [] after last w named quiet ends =
    ground (arith, wait_step-anchored anchor last w named, append-nil w.text)
wait_loop-anchored anchor (m ∷ ms) after last w named quiet ends = ground (
  arith,
  wait_step-anchored anchor m w named,
  wait_loop-anchored anchor ms after last (wait_step anchor m w).1 named,
  append_assoc w.text (spoken m) (concat_text (map spoken ms)),
)

-- With an anchor, `SendAndWait` returns at the first output flush of the anchor's stream, not before
-- at any other, and its answer is all the output text received until then, whatever follows.
pub send_and_wait-anchored :
    (anchor : String) (before after : List Message) (last : Message)
    → anchor ≢ ""
    → All (λ m. ends_turn anchor m ≡ false) before
    → ends_turn anchor last ≡ true
    → send_and_wait anchor (before ++ last ∷ after) ≡ some (concat_text (map spoken before))
unfolding send_and_wait
send_and_wait-anchored anchor before after last named quiet ends = ground (
  arith,
  wait_loop-anchored anchor before after last
      (record { text = ""; open_streams = []; seen_output = false }) named quiet ends,
  nil-append (concat_text (map spoken before)),
)
