-- ===== src/Interpreter/Inbox.antt =====
-- internal/interpreter/session_event_inbox.go: the events that wait for the operation loop. The
-- mutex is left out, as each method holds it from end to end.
use coderoom.Prelude.{Bool, true, false, List, [], ◌∷◌, ◌++◌, if◌then◌else◌}

pub record Inbox (A : Type 0) : Type 0 where
  pub events : List A
  pub drain_pending : Bool

module _ {A : Type 0} where
  unfoldable pub new_inbox : Inbox A
  new_inbox = record { events = []; drain_pending = false }

  -- `Record`, with whether a drain operation is wanted
  unfoldable pub record_event : A → Inbox A → Inbox A × Bool
  record_event e i =
      let j : Inbox A = record i { events = i.events ++ e ∷ [] } in
      if i.drain_pending then (j, false) else (record j { drain_pending = true }, true)

  unfoldable pub take : Inbox A → Inbox A × List A
  take i = (record i { events = [] }, i.events)

  abbrev pub has_none : List A → Bool
  has_none [] = true
  has_none (_ ∷ _) = false

  unfoldable pub complete_drain : Inbox A → Inbox A × Bool
  complete_drain i =
      if has_none i.events then (record i { drain_pending = false }, true) else (i, false)
