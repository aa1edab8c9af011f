-- ===== src/Agent/Tests.antt =====
-- internal/agent/agent.go at concrete messages.
use coderoom.Prelude.Results.{ok}
use mathlib.Core.Bool.{false≢true}
use coderoom.Prelude.{String, ◌≡◌, refl, some, [], ◌∷◌, string_eq, ◌≢◌}
use coderoom.Agent.{Message, stream, flush, reasoning_content}
use coderoom.Agent.Accumulate.{accumulate_all, accumulate_all-output, output_fragment}
use coderoom.Agent.Wait.{send_and_wait, send_and_wait-anchored}

abbrev hello : Message
hello = output_fragment "s" stream "hello "

abbrev there : Message
there = output_fragment "s" stream "there"

abbrev ending : Message
ending = output_fragment "s" flush ""

abbrev aside : Message
aside = record { stream_id = "t"; mode = stream; content = reasoning_content "hm" }

accumulate_all-output_example :
    accumulate_all hello (there ∷ ending ∷ []) ≡ ok (output_fragment "s" flush "hello there")
accumulate_all-output_example =
    accumulate_all-output "s" stream "hello " ((stream, "there") ∷ (flush, "") ∷ [])

named : ◌≢◌ {A = String} "s" ""
named = λ e. absurd (false≢true ((string_eq.eqb_iff "s" "").1 e))

send_and_wait-anchored_example :
    send_and_wait "s" (hello ∷ aside ∷ there ∷ ending ∷ aside ∷ []) ≡ some "hello there"
send_and_wait-anchored_example =
    send_and_wait-anchored "s" (hello ∷ aside ∷ there ∷ []) (aside ∷ []) ending named
      (refl, (refl, (refl, tt))) refl
