-- ===== src/Agent/Codex/Relay.antt =====
-- internal/agent/codex/notice.go: the part of an answer after its first piece, while it is relayed or
-- buffered, and the end of the turn there.
use Prim.Native.String.{String}
use mathlib.Core.List.{append_assoc, append-nil}
use coderoom.Prelude.{
  ◌≡◌, refl, sym, ap, subst, ◌∙◌, All, Bool, Option, none, some, List, [], ◌∷◌, ◌++◌, arith, ◌==◌,
  string_eq, if◌then◌else◌, Bool-cases, inl, inr,
}
use coderoom.Agent.{Message}
use coderoom.Agent.Codex.{
  notice_buffering, notice_relaying, Envelope, send_message, relay_message, relay_flush, turn_flush,
  relay_and_turn_flush, handle_text, handle_notice_delta, handle_notice_failed,
  handle_notice_completed, intercept_delivery, intercept_active_notice, intercept_notice,
}
use coderoom.Agent.Codex.Envelopes.{
  envelope, TurnEnd, completes, fails, end_envelope, Between, piece_of_delta, piece_of, pieces,
  joined, relayed, at_rest, turn_at, joined-append, relayed-append, piece_of_other, read_all,
  others_silent,
}

module _ (acknowledges : String → Bool) where
  -- One envelope in each of the three states of a turn under way.
  relaying_text :
      (delta item : Option String) (sent : List Message) (buf : String) (msgs : List Envelope)
      → read_all acknowledges
          (envelope "item/agentMessage/delta" delta item ∷ msgs)
          (turn_at notice_relaying buf sent)
        ≡ read_all acknowledges msgs
            (turn_at notice_relaying buf (sent ++ relayed (piece_of_delta delta)))
  unfolding read_all intercept_notice intercept_active_notice intercept_delivery handle_notice_delta
      handle_text send_message
  relaying_text none item sent buf msgs = ground (arith, append-nil sent)
  relaying_text (some text) item sent buf msgs = ground (arith, append-nil sent)

  buffering_text :
      (delta item : Option String) (sent : List Message) (buf : String) (msgs : List Envelope)
      → read_all acknowledges
          (envelope "item/agentMessage/delta" delta item ∷ msgs)
          (turn_at notice_buffering buf sent)
        ≡ read_all acknowledges msgs
            (turn_at notice_buffering (joined buf (piece_of_delta delta)) sent)
  unfolding read_all intercept_notice intercept_active_notice intercept_delivery handle_notice_delta
      handle_text
  buffering_text none item sent buf msgs = ground arith
  buffering_text (some text) item sent buf msgs = ground arith

  relaying_step :
      (msg : Envelope) (buf : String) (sent : List Message) (msgs : List Envelope)
      → Between msg
      → read_all acknowledges (msg ∷ msgs) (turn_at notice_relaying buf sent)
        ≡ read_all acknowledges msgs (turn_at notice_relaying buf (sent ++ relayed (piece_of msg)))
  relaying_step msg buf sent msgs h = elim (Bool-cases (msg.method == "item/agentMessage/delta")) [
    | inl e ↦
        subst
          (λ m.
            read_all acknowledges (envelope m msg.delta msg.item_type ∷ msgs)
              (turn_at notice_relaying buf sent)
            ≡ read_all acknowledges msgs (
                turn_at notice_relaying buf
                  (sent ++ relayed (piece_of (envelope m msg.delta msg.item_type)))))
          (sym ((string_eq.eqb_iff msg.method "item/agentMessage/delta").0 e))
          (relaying_text msg.delta msg.item_type sent buf msgs)
    | inr o ↦
        others_silent acknowledges notice_relaying msg buf sent msgs (λ e. cc) (λ e. cc) o h
        ∙ ap (λ ms. read_all acknowledges msgs (turn_at notice_relaying buf ms))
            (sym (append-nil sent) ∙ ap (λ ps. sent ++ relayed ps) (sym (piece_of_other msg o)))
  ]

  buffering_step :
      (msg : Envelope) (buf : String) (sent : List Message) (msgs : List Envelope)
      → Between msg
      → read_all acknowledges (msg ∷ msgs) (turn_at notice_buffering buf sent)
        ≡ read_all acknowledges msgs (turn_at notice_buffering (joined buf (piece_of msg)) sent)
  buffering_step msg buf sent msgs h = elim (Bool-cases (msg.method == "item/agentMessage/delta")) [
    | inl e ↦
        subst
          (λ m.
            read_all acknowledges (envelope m msg.delta msg.item_type ∷ msgs)
              (turn_at notice_buffering buf sent)
            ≡ read_all acknowledges msgs (
                turn_at notice_buffering
                  (joined buf (piece_of (envelope m msg.delta msg.item_type))) sent))
          (sym ((string_eq.eqb_iff msg.method "item/agentMessage/delta").0 e))
          (buffering_text msg.delta msg.item_type sent buf msgs)
    | inr o ↦
        others_silent acknowledges notice_buffering msg buf sent msgs (λ e. cc) (λ e. cc) o h
        ∙ ap (λ ps. read_all acknowledges msgs (turn_at notice_buffering (joined buf ps) sent))
            (sym (piece_of_other msg o))
  ]

  pub read_relaying :
      (msgs : List Envelope) (buf : String) (sent : List Message) (rest : List Envelope)
      → All Between msgs
      → read_all acknowledges (msgs ++ rest) (turn_at notice_relaying buf sent)
        ≡ read_all acknowledges rest (turn_at notice_relaying buf (sent ++ relayed (pieces msgs)))
  read_relaying [] buf sent rest v =
      ap (λ ms. read_all acknowledges rest (turn_at notice_relaying buf ms)) (sym (append-nil sent))
  read_relaying (msg ∷ msgs) buf sent rest v =
      relaying_step msg buf sent (msgs ++ rest) v.0
      ∙ read_relaying msgs buf (sent ++ relayed (piece_of msg)) rest v.1
      ∙ ap (λ ms. read_all acknowledges rest (turn_at notice_relaying buf ms))
          (append_assoc sent (relayed (piece_of msg)) (relayed (pieces msgs))
            ∙ ap (λ ms. sent ++ ms) (sym (relayed-append (piece_of msg) (pieces msgs))))

  pub read_buffering :
      (msgs : List Envelope) (buf : String) (sent : List Message) (rest : List Envelope)
      → All Between msgs
      → read_all acknowledges (msgs ++ rest) (turn_at notice_buffering buf sent)
        ≡ read_all acknowledges rest (turn_at notice_buffering (joined buf (pieces msgs)) sent)
  read_buffering [] buf sent rest v = refl
  read_buffering (msg ∷ msgs) buf sent rest v =
      buffering_step msg buf sent (msgs ++ rest) v.0
      ∙ read_buffering msgs (joined buf (piece_of msg)) sent rest v.1
      ∙ ap (λ text. read_all acknowledges rest (turn_at notice_buffering text sent))
          (sym (joined-append buf (piece_of msg) (pieces msgs)))

  pub relaying_ended :
      (end : TurnEnd) (buf : String) (sent : List Message)
      → read_all acknowledges (end_envelope end ∷ []) (turn_at notice_relaying buf sent)
        ≡ at_rest (sent ++ relay_flush ∷ turn_flush ∷ [])
  unfolding read_all intercept_notice intercept_active_notice intercept_delivery
      handle_notice_completed handle_notice_failed send_message relay_and_turn_flush
  relaying_ended completes buf sent =
      ap at_rest (append_assoc sent (relay_flush ∷ []) (turn_flush ∷ []))
  relaying_ended fails buf sent =
      ap at_rest (append_assoc sent (relay_flush ∷ []) (turn_flush ∷ []))

  -- What a buffered answer comes to.
  abbrev pub of_buffer : TurnEnd → String → List Message
  of_buffer fails buf = turn_flush ∷ []
  of_buffer completes buf =
      if acknowledges buf
      then turn_flush ∷ []
      else relay_message buf ∷ relay_flush ∷ turn_flush ∷ []

  pub buffering_ended :
      (end : TurnEnd) (buf : String) (sent : List Message)
      → read_all acknowledges (end_envelope end ∷ []) (turn_at notice_buffering buf sent)
        ≡ at_rest (sent ++ of_buffer end buf)
  unfolding read_all intercept_notice intercept_active_notice intercept_delivery
      handle_notice_completed handle_notice_failed send_message relay_and_turn_flush
  buffering_ended fails buf sent = refl
  buffering_ended completes buf sent = elim (Bool-cases (acknowledges buf)) [
    | inl e ↦ ground (arith, e)
    | inr e ↦ ground (
      arith,
      e,
      append_assoc (sent ++ relay_message buf ∷ []) (relay_flush ∷ []) (turn_flush ∷ []),
      append_assoc sent (relay_message buf ∷ []) (relay_flush ∷ turn_flush ∷ []),
    )
  ]
