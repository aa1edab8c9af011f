-- ===== src/Agent/Codex/Envelopes.antt =====
-- internal/agent/codex/notice.go: the envelopes of a notice turn, how they are read, and those that
-- leave the turn as it is.
use Prim.Native.String.{String, ◌++◌ as str_append}
use coderoom.Prelude.{
  ◌≡◌, ◌≢◌, refl, ap, Bool, true, false, Option, none, some, List, [], ◌∷◌, ◌++◌, map, arith, ◌==◌,
  string_eq, if◌then◌else◌, Option-cases, ◌⊎◌, Bool-cases, inl, inr, ◌||◌,
}
use coderoom.Agent.{Message}
use coderoom.Agent.Codex.{
  NoticeState, notice_idle, notice_pending, notice_active, notice_buffering, notice_relaying,
  no_turn, delivery_turn, notice_unhandled, notice_continue, notice_exit, Envelope, Client,
  relay_message, handle_notice_delta, is_notice_reasoning_delta, mark_active,
  suppress_notice_agent_message_item_completed, intercept_delivery, intercept_active_notice,
  intercept_notice,
}

abbrev pub envelope : String → Option String → Option String → Envelope
envelope method delta item_type = record { method = method; delta = delta; item_type = item_type }

abbrev pub turn_started : Envelope
turn_started = envelope "turn/started" none none

-- How a turn ends, and the envelope that says so.
pub data TurnEnd : Type 0 where
  completes fails : TurnEnd

abbrev pub end_envelope : TurnEnd → Envelope
end_envelope completes = envelope "turn/completed" none none
end_envelope fails = envelope "turn/failed" none none

abbrev ends_turn : String → Bool
ends_turn method = method == "turn/completed" || method == "turn/failed"

-- Any envelope but those that end a turn.
abbrev pub Between : Envelope → Type 0
Between msg = ends_turn msg.method ≡ false

-- The text of a delta of the agent's message, unless it is empty.
abbrev pub piece_of_delta : Option String → List String
piece_of_delta none = []
piece_of_delta (some text) = if text == "" then [] else text ∷ []

abbrev pub piece_of : Envelope → List String
piece_of msg = if msg.method == "item/agentMessage/delta" then piece_of_delta msg.delta else []

-- The pieces of the answer.
abbrev pub pieces : List Envelope → List String
pieces [] = []
pieces (msg ∷ msgs) = piece_of msg ++ pieces msgs

abbrev pub joined : String → List String → String
joined text [] = text
joined text (piece ∷ ps) = joined (str_append text piece) ps

abbrev pub relayed : List String → List Message
relayed ps = map relay_message ps

-- The client after the turn.
abbrev pub at_rest : List Message → Client
at_rest sent = record {
  state = notice_idle;
  kind = no_turn;
  tool_violation_reported = false;
  buf = "";
  sent = sent;
  sends = [];
}

-- A client in a notice turn whose sends are all taken.
abbrev pub turn_at : NoticeState → String → List Message → Client
turn_at state buf sent = record {
  state = state;
  kind = delivery_turn;
  tool_violation_reported = false;
  buf = buf;
  sent = sent;
  sends = [];
}

pub joined-append :
    (text : String) (ps qs : List String) → joined text (ps ++ qs) ≡ joined (joined text ps) qs
joined-append text [] qs = refl
joined-append text (p ∷ ps) qs = joined-append (str_append text p) ps qs

pub relayed-append : (ps qs : List String) → relayed (ps ++ qs) ≡ relayed ps ++ relayed qs
relayed-append [] qs = refl
relayed-append (p ∷ ps) qs = ap (λ ms. relay_message p ∷ ms) (relayed-append ps qs)

or_false : {a b : Bool} → (a || b) ≡ false → (a ≡ false) × (b ≡ false)
or_false h = ground arith

pub piece_of_other :
    (msg : Envelope) → (msg.method == "item/agentMessage/delta") ≡ false → piece_of msg ≡ []
piece_of_other msg o = ground (arith, o)

module _ (acknowledges : String → Bool) where
  -- The envelopes are read until one ends the worker. What becomes of an envelope that the notice
  -- leaves alone is not part of this: it is taken not to end the worker.
  unfoldable pub read_all : List Envelope → Client → Client
  unfolding intercept_notice
  read_all [] c = c
  read_all (msg ∷ msgs) c =
      let (d, outcome) = intercept_notice acknowledges none msg c in
      elim outcome [
        | notice_exit ↦ d
        | notice_continue ↦ read_all msgs d
        | notice_unhandled ↦ read_all msgs d
      ]

  reasoning_silent :
      (msg : Envelope) (c : Client)
      → is_notice_reasoning_delta msg.method ≡ true
      → handle_notice_delta msg c ≡ (c, notice_continue)
  unfolding handle_notice_delta
  reasoning_silent msg c h = elim (Option-cases msg.delta) [
    | inl e ↦ ground (arith, e)
    | inr (text, e) ↦ ground (arith, e, h)
  ]

  suppress_cases :
      (msg : Envelope)
      → (suppress_notice_agent_message_item_completed msg ≡ notice_continue)
        ⊎ (suppress_notice_agent_message_item_completed msg ≡ notice_unhandled)
  unfolding suppress_notice_agent_message_item_completed
  suppress_cases msg = elim (Option-cases msg.item_type) [
    | inl e ↦ inr (ground (arith, e))
    | inr (kind, e) ↦ elim (Bool-cases (kind == "agentMessage")) [
      | inl k ↦ inl (ground (arith, e, k))
      | inr k ↦ inr (ground (arith, e, k))
    ]
  ]

  -- Any other envelope that does not end the turn leaves the turn as it is.
  delivery_silent :
      (msg : Envelope) (c : Client)
      → mark_active c ≡ c
      → (msg.method == "item/agentMessage/delta") ≡ false
      → Between msg
      → (intercept_delivery acknowledges msg c ≡ (c, notice_continue))
        ⊎ (intercept_delivery acknowledges msg c ≡ (c, notice_unhandled))
  unfolding intercept_delivery
  delivery_silent msg c m o h = elim (Bool-cases (msg.method == "turn/started")) [
    | inl e ↦ inl (simp (e, m) refl)
    | inr e ↦ elim (Bool-cases (is_notice_reasoning_delta msg.method)) [
      | inl r ↦ inl (simp (e, o, r) (reasoning_silent msg c r))
      | inr r ↦ elim (Bool-cases (msg.method == "item/reasoning/summaryPartAdded")) [
        | inl a ↦ inl (simp (e, o, r, a) refl)
        | inr a ↦ elim (Bool-cases (msg.method == "item/completed")) [
          | inl d ↦ elim (suppress_cases msg) [
            | inl k ↦ inl (simp (e, o, r, a, d, k) refl)
            | inr k ↦ inr (simp (e, o, r, a, d, k) refl)
          ]
          | inr d ↦
              let no_end : (msg.method == "turn/completed") ≡ false = (or_false h).0 in
              let no_failure : (msg.method == "turn/failed") ≡ false = (or_false h).1 in
              inr (simp (e, o, r, a, d, no_end, no_failure) refl)
        ]
      ]
    ]
  ]

  read_silent :
      (msg : Envelope) (msgs : List Envelope) (c : Client)
      → (intercept_notice acknowledges none msg c ≡ (c, notice_continue))
        ⊎ (intercept_notice acknowledges none msg c ≡ (c, notice_unhandled))
      → read_all (msg ∷ msgs) c ≡ read_all msgs c
  unfolding read_all
  read_silent msg msgs c (inl h) = ground arith
  read_silent msg msgs c (inr h) = ground arith

  pub others_silent :
      (state : NoticeState) (msg : Envelope) (buf : String) (sent : List Message)
      (msgs : List Envelope)
      → state ≢ notice_idle
      → state ≢ notice_pending
      → (msg.method == "item/agentMessage/delta") ≡ false
      → Between msg
      → read_all (msg ∷ msgs) (turn_at state buf sent) ≡ read_all msgs (turn_at state buf sent)
  unfolding intercept_notice intercept_active_notice
  others_silent notice_idle msg buf sent msgs p q o h = absurd (p refl)
  others_silent notice_pending msg buf sent msgs p q o h = absurd (q refl)
  others_silent notice_active msg buf sent msgs p q o h =
      read_silent msg msgs (turn_at notice_active buf sent)
        (delivery_silent msg (turn_at notice_active buf sent) refl o h)
  others_silent notice_buffering msg buf sent msgs p q o h =
      read_silent msg msgs (turn_at notice_buffering buf sent)
        (delivery_silent msg (turn_at notice_buffering buf sent) refl o h)
  others_silent notice_relaying msg buf sent msgs p q o h =
      read_silent msg msgs (turn_at notice_relaying buf sent)
        (delivery_silent msg (turn_at notice_relaying buf sent) refl o h)
