-- ===== src/Session/History.antt =====
-- internal/session: a session's life as a list of commands and of steps beside them. Commands are
-- executed one after another; what happens while an agent is called is in the command's `Delivery`.
use coderoom.Prelude.Results.{Result}
use coderoom.Prelude.{String, Bool, Option, none, some, List, [], ◌∷◌}
use coderoom.Session.State.{Session, Outside}
use coderoom.Session.Background.{Step, step}
use coderoom.Session.Runtime.{remove_command, shutdown}
use coderoom.Session.Sends.{Delivery, Target, SharedSendPlan, broadcast, private_send, shared_send}
use coderoom.Session.Handoff.{HandoffCommand, handoff}
use coderoom.Session.Commands.{ParticipantConfig, InviteError, invite, enable_policy}

-- `CancelCommand` and the resolution of an approval leave this state alone.
pub data Move : Type 0 where
  beside : Step → Move
  invites : String → Result String ParticipantConfig → Bool → Move
  removes : String → Option String → Move
  enables : String → Move
  broadcasts : List Target → String → Move
  sends_privately : Target → Move
  sends_shared : SharedSendPlan → Delivery → (String → Delivery) → String → String → Move
  hands_off : HandoffCommand → Delivery → Move
  shuts_down : Move

-- A search for a colour that does not end leaves the session where it was.
abbrev pub invited_or_stuck : Session → Option (Session × Option InviteError) → Session
invited_or_stuck s none = s
invited_or_stuck s (some (s', _)) = s'

module _ (out : Outside) where
  unfoldable pub move : Move → Session → Session
  move (beside t) s = step out t s
  move (invites alias config makes_context) s =
      invited_or_stuck s (invite out alias config makes_context s)
  move (removes alias stop) s = (remove_command alias stop s).0
  move (enables name) s = (enable_policy name s).0
  move (broadcasts ts text) s = (broadcast out ts text s).0
  move (sends_privately t) s = (private_send out t s).0
  move (sends_shared plan direct deliver text_direct text_listeners) s =
      (shared_send out plan direct deliver text_direct text_listeners s).0
  move (hands_off c d) s = (handoff out c d s).0
  move shuts_down s = (shutdown s).0

  unfoldable pub moves : List Move → Session → Session
  unfolding move
  moves [] s = s
  moves (m ∷ ms) s = moves ms (move m s)
