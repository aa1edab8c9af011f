-- ===== src/Participant/Tests.antt =====
-- internal/participant at a concrete lifetime.
use coderoom.Prelude.Sets
use mathlib.Core.Bool.{false≢true}
use coderoom.Prelude.{String, ◌≡◌, ◌≢◌, ◌⊎◌, true, none, refl, List, [], ◌∷◌, string_eq}
use coderoom.Participant.{
  Participant, manual, new_participant, idle, sendable, begin_startup, close_stream, become_idle,
}
use coderoom.Participant.Calls.{
  Call, apply, run, apply_error_unchanged, begins_startup, readies_session, attaches, commits_idle,
  prepares, begins_working, tracks, begins_keepalive,
}
use coderoom.Participant.Invariant.{Inv, Inv-new, run-Inv, sendable-of-view}
use coderoom.Participant.Turns.{become_idle-close_stream}
use coderoom.Participant.Graph.{◌⟶◌, apply-⟶}

abbrev fresh : Participant
fresh = new_participant "ann" "coder" manual

abbrev startup : List Call
startup = attaches 5 1 ∷ commits_idle 2 ∷ readies_session ∷ []

abbrev ready : Participant
ready = run startup (begin_startup 0 fresh)

abbrev prepared : Participant
prepared = run (prepares 3 ∷ []) ready

abbrev busy : Participant
busy = run (begins_working 4 "s" 9 ∷ tracks "t" ∷ []) prepared

run-Inv_example : Inv busy
unfolding run apply
run-Inv_example =
    run-Inv
      (begins_startup 0
        ∷ attaches 5 1
        ∷ commits_idle 2
        ∷ readies_session
        ∷ prepares 3
        ∷ begins_working 4 "s" 9
        ∷ tracks "t"
        ∷ [])
      fresh (Inv-new "ann" "coder" manual)

sendable-of-view_example : sendable ready ≡ true
unfolding run apply begin_startup new_participant
sendable-of-view_example = sendable-of-view startup 0 fresh refl

named : ◌≢◌ {A = String} "s" ""
named = λ e. absurd (false≢true ((string_eq.eqb_iff "s" "").1 e))

become_idle-close_stream_example :
    let (q, err) = become_idle 7 (close_stream "s" busy).0 in
    (err ≡ none)
    × (q.view.status ≡ idle)
    × (q.open_streams ≡ [])
    × (q.anchor ≡ "")
    × (q.view.turn_id ≡ busy.view.turn_id)
unfolding run apply begin_startup new_participant close_stream Sets.contains Sets.insert
become_idle-close_stream_example = become_idle-close_stream "s" 7 busy named refl

apply_error_unchanged_example : (apply (begins_keepalive 5) busy).0 ≡ busy
unfolding run apply begin_startup new_participant
apply_error_unchanged_example = apply_error_unchanged (begins_keepalive 5) busy refl

apply-⟶_example :
    ((apply (prepares 3) ready).0.view.status ≡ ready.view.status)
    ⊎ (ready.view.status ⟶ (apply (prepares 3) ready).0.view.status)
apply-⟶_example = apply-⟶ (prepares 3) ready
