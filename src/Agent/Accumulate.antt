-- ===== src/Agent/Accumulate.antt =====
-- internal/agent/agent.go: what accumulating a whole stream amounts to.
use Prim.Native.String.{◌++◌ as str_append}
use text.Mathlib.TextLemmas.{append_assoc, append-nil}
use coderoom.Prelude.Results.{Result, ok, err}
use coderoom.Prelude.Int.{ℤ}
use coderoom.Prelude.Text.{concat_text}
use coderoom.Prelude.{
  String, ◌≡◌, Bool, true, false, Option, none, List, [], ◌∷◌, string_eq, arith, map,
}
use coderoom.Agent.{
  Message, Mode, stream, output_content, command_content, MessageContent, accumulate,
  AccumulateError,
}

-- The consumer's loop: every later message of a stream is merged into the first.
unfoldable pub accumulate_all : Message → List Message → Result AccumulateError Message
unfolding accumulate
accumulate_all m [] = ok m
accumulate_all m (next ∷ rest) = elim (accumulate m next) [
  | ok m' ↦ accumulate_all m' rest
  | err e ↦ err e
]

-- A fragment of a command's stream, which carries output and perhaps the exit code.
abbrev pub command_fragment : String → String → Option ℤ → Message
command_fragment id text code = record {
  stream_id = id;
  mode = stream;
  content =
      command_content (record {
        command = "";
        cwd = "";
        output = text;
        exit_code = code;
        override_output = none;
      });
}

abbrev pub output_fragment : String → Mode → String → Message
output_fragment id mode text = record { stream_id = id; mode = mode; content = output_content text }

abbrev pub last_mode : Mode → List (Mode × String) → Mode
last_mode m [] = m
last_mode m ((n, t) ∷ rest) = last_mode n rest

-- The fragments of an output stream accumulate to the concatenation of their texts, under the mode of
-- the last one; no fragment of the stream is refused.
pub accumulate_all-output :
    (id : String) (m : Mode) (text : String) (rest : List (Mode × String))
    → accumulate_all (output_fragment id m text) (map (λ f. output_fragment id f.0 f.1) rest)
      ≡ ok (
          output_fragment id
            (last_mode m rest)
            (str_append text (concat_text (map (λ f. f.1) rest))))
unfolding accumulate_all
accumulate_all-output id m text [] = ground (arith, append-nil text)
accumulate_all-output id m text ((n, t) ∷ rest) = ground (
  arith,
  string_eq.eqb_iff id id,
  accumulate_all-output id n (str_append text t) rest,
  append_assoc text t (concat_text (map (λ (f : Mode × String). f.1) rest)),
)

abbrev pub same_kind : MessageContent → MessageContent → Bool
same_kind (MessageContent.output_content s) (MessageContent.output_content t) = true
same_kind (MessageContent.reasoning_content s) (MessageContent.reasoning_content t) = true
same_kind (MessageContent.command_content s) (MessageContent.command_content t) = true
same_kind (MessageContent.file_change_content s) (MessageContent.file_change_content t) = true
same_kind _ _ = false
