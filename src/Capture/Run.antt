-- ===== src/Capture/Run.antt =====
-- `capture_snapshot`: three attempts at two equal readings of the topology.
pub mod Stable
pub mod Failed
use tmux_rescue.Common.{
  List, Option, Result, [], err, if◌then◌else◌, list_eq, none, num_eq, ok, some, suc, zero, ℕ, ◌++◌,
  ◌+◌, ◌∷◌,
}
use tmux_rescue.Std.Text.{Text}
use tmux_rescue.Capture.Build.{build_result}
use tmux_rescue.Capture.Pane.{capture_candidate}
use tmux_rescue.Capture.Source.{
  CaptureCandidate, CaptureError, CaptureEvent, CaptureResult, CaptureSource, CaptureSourceFailure,
  after_capture, before_capture, no_complete_candidate, topology_mismatch, topology_read_failed,
  unstable_candidate_saved,
}
use tmux_rescue.Capture.Topology.{TopologyObservation, fingerprint, same_fingerprint}
use tmux_rescue.Model.Codec.{Codecs}
use tmux_rescue.Model.Error.{max_topology_validation_attempts}
use tmux_rescue.Model.Snapshot.{CaptureTime, raw_stable, raw_unstable}
use tmux_rescue.Model.Snapshot.Json.{Serde}
use tmux_rescue.Recovery.Outcome.{RecordParsers}

-- How one attempt ends: without a candidate, with one between two equal readings, or with one that
-- the second reading does not confirm.
pub data Attempt : Type 0 where
  no_candidate : List CaptureEvent → Attempt
  confirmed : CaptureCandidate → List CaptureEvent → Attempt
  unconfirmed : CaptureCandidate → List CaptureEvent → Attempt

module _ {S : Type 0} (display_width : Text → ℕ) (codecs : Codecs) (parsers : RecordParsers)
    (source : CaptureSource S) where
  -- The second reading, with the candidate and the events of its capture.
  unfoldable pub confirm :
      ℕ
      → TopologyObservation
      → CaptureCandidate
      → List CaptureEvent
      → Result CaptureSourceFailure TopologyObservation
      → Attempt
  confirm attempt before made events (ok after) =
      if same_fingerprint (fingerprint after) (fingerprint before)
      then confirmed made events
      else unconfirmed made (events ++ topology_mismatch attempt ∷ [])
  confirm attempt before made events (err failure) =
      unconfirmed made (events ++ topology_read_failed attempt after_capture failure ∷ [])

  -- The body of the loop behind the first reading, up to the `return`.
  unfoldable pub attempt_from :
      ℕ → Result CaptureSourceFailure TopologyObservation → S → Attempt × S
  attempt_from attempt (err failure) state =
      (no_candidate (topology_read_failed attempt before_capture failure ∷ []), state)
  attempt_from attempt (ok reading) state =
      let (made, events, captured_state) =
        capture_candidate display_width codecs parsers source attempt reading state in
      let (after, last_state) = source.read_topology captured_state in
      (confirm attempt reading made events after, last_state)

  unfoldable pub run_attempt : ℕ → S → Attempt × S
  run_attempt attempt state =
      let (before, after) = source.read_topology state in attempt_from attempt before after

  module _ {Instant : Type 0} (parse_rfc3339 : Text → Option Instant) (serde : Serde)
      (captured_at : CaptureTime Instant) where
    -- Behind the loop.
    unfoldable pub save_unstable :
        Option CaptureCandidate → List CaptureEvent → Result CaptureError (CaptureResult Instant)
    save_unstable none events = err (no_complete_candidate max_topology_validation_attempts events)
    save_unstable (some made) events =
        build_result parse_rfc3339 codecs serde captured_at source.source
          (raw_unstable max_topology_validation_attempts) made max_topology_validation_attempts
          (events ++ unstable_candidate_saved max_topology_validation_attempts ∷ [])

    -- The loop, with so many attempts left, from the number of the next one.
    unfoldable pub attempts_loop :
        ℕ
        → ℕ
        → Option CaptureCandidate
        → List CaptureEvent
        → S
        → Result CaptureError (CaptureResult Instant) × S
    attempts_loop zero attempt most_recent events state = (save_unstable most_recent events, state)
    attempts_loop (suc left) attempt most_recent events state =
        let (result, after) = run_attempt attempt state in
        elim result [
          | no_candidate pushed ↦
              attempts_loop left (attempt + 1) most_recent (events ++ pushed) after
          | unconfirmed made pushed ↦
              attempts_loop left (attempt + 1) (some made) (events ++ pushed) after
          | confirmed made pushed ↦ (
            build_result parse_rfc3339 codecs serde captured_at source.source raw_stable made
                attempt (events ++ pushed),
            after,
          )
        ]

    unfoldable pub capture_snapshot : S → Result CaptureError (CaptureResult Instant) × S
    capture_snapshot state = attempts_loop max_topology_validation_attempts 1 none [] state
