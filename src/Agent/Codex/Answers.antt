-- ===== src/Agent/Codex/Answers.antt =====
-- internal/agent/codex/notice.go: what of the answer to a notice is passed on.
use Prim.Native.String.{String, ◌++◌ as str_append}
use coderoom.Prelude.{Bool, List, [], ◌∷◌, ◌++◌, if◌then◌else◌}
use coderoom.Agent.{Message}
use coderoom.Agent.Codex.{begins_json, relay_message, relay_flush, turn_flush}
use coderoom.Agent.Codex.Envelopes.{TurnEnd, completes, fails, joined, relayed}

module _ (acknowledges : String → Bool) where
  -- The reference: nothing but the end of the turn where there is no answer, an acknowledgement, or
  -- the beginning of one that fails; and otherwise all of the answer as reasoning, whole if it looked
  -- like an acknowledgement.
  abbrev pub passed_on : TurnEnd → List String → List Message
  passed_on end [] = turn_flush ∷ []
  passed_on completes (piece ∷ ps) =
      if begins_json piece
      then (if acknowledges (joined "" (piece ∷ ps))
          then turn_flush ∷ []
          else relay_message (joined "" (piece ∷ ps)) ∷ relay_flush ∷ turn_flush ∷ [])
      else relayed (piece ∷ ps) ++ relay_flush ∷ turn_flush ∷ []
  passed_on fails (piece ∷ ps) =
      if begins_json piece
      then turn_flush ∷ []
      else relayed (piece ∷ ps) ++ relay_flush ∷ turn_flush ∷ []
