-- ===== src/Participant/Turns.antt =====
-- internal/participant/participant.go: the streams of a turn, and how a turn ends.
use coderoom.Prelude.Sets
use coderoom.Prelude.{ℕ, String, ◌≡◌, ◌≢◌, true, ◌&&◌, none, [], arith, string_eq, nat_eq, ◌==◌}
use coderoom.Participant.{
  Participant, idle, working, status_is, become_idle, begin_working, close_stream,
}

-- `CloseStream` calls for idleness exactly when the closed stream was tracked, is the anchor, and
-- the participant is working: never while the turn is still being prepared.
pub close_stream-should_idle :
    (s : String) (p : Participant)
    → (close_stream s p).1
      ≡ (status_is p.view.status working && (Sets.contains p.open_streams s && s == p.anchor))
unfolding close_stream
close_stream-should_idle s p = ground arith

-- After `CloseStream` has called for idleness on a named anchor, `BecomeIdle` is not refused, and
-- it leaves no stream open, whatever other streams of the turn still were.
pub become_idle-close_stream :
    (s : String) (now : ℕ) (p : Participant)
    → p.anchor ≢ ""
    → (close_stream s p).1 ≡ true
    → let (q, err) = become_idle now (close_stream s p).0 in
      (err ≡ none)
      × (q.view.status ≡ idle)
      × (q.open_streams ≡ [])
      × (q.anchor ≡ "")
      × (q.view.turn_id ≡ p.view.turn_id)
unfolding close_stream become_idle
become_idle-close_stream s now p named closed = ground (
  arith,
  string_eq.eqb_iff s p.anchor,
  string_eq.eqb_iff p.anchor "",
  Sets.contains-remove s p.anchor p.open_streams,
)

-- The anchor of a turn is tracked from the moment the participant works, so the turn cannot end
-- before the anchor's stream is closed.
pub begin_working_tracks :
    (now later : ℕ) (anchor : String) (turn : ℕ) (p : Participant)
    → anchor ≢ ""
    → (begin_working now anchor turn p).1 ≡ none
    → let q = (begin_working now anchor turn p).0 in
      (Sets.contains q.open_streams anchor ≡ true) × ((become_idle later q).0 ≡ q)
unfolding begin_working become_idle
begin_working_tracks now later anchor turn p named started = ground (
  arith,
  string_eq.eqb_iff anchor "",
  string_eq.eqb_iff anchor anchor,
  Sets.contains-insert anchor anchor p.open_streams,
)
