-- ===== src/Capture/Run/Failed.antt =====
-- A capture without any candidate: every first reading failed.
use tmux_rescue.Common.{
  Bool-cases, List, Option, Result, Result-cases, [], all, ap, append-nil, append_assoc, err,
  if_both, inl, inr, is_empty, length, list_eq, ltb, none, num_eq, ok, refl, some, subst, suc, sym,
  zero, ℕ, ◌++◌, ◌+◌, ◌>>=◌, ◌∙◌, ◌∷◌, ◌≡◌,
}
use tmux_rescue.Std.Text.{Bytes, Text}
use tmux_rescue.Capture.Build.{
  build_result, build_result_with_serialization_limit, finish_result, finish_stripped,
  finish_within, or_invalid_candidate, strip_prompt_enrichment,
}
use tmux_rescue.Capture.Build.Stripped.{raw_of}
use tmux_rescue.Capture.Pane.{capture_candidate}
use tmux_rescue.Capture.Run.{
  attempt_from, attempts_loop, capture_snapshot, confirm, no_candidate, run_attempt, save_unstable,
}
use tmux_rescue.Capture.Run.Stable.{
  Attempt-cases, step_confirmed, step_no_candidate, step_unconfirmed,
}
use tmux_rescue.Capture.Source.{
  CaptureCandidate, CaptureError, CaptureEvent, CaptureResult, CaptureSource, CaptureSourceFailure,
  before_capture, no_complete_candidate, topology_read_failed,
}
use tmux_rescue.Capture.Topology.{TopologyObservation, fingerprint, same_fingerprint}
use tmux_rescue.Model.Codec.{Codecs}
use tmux_rescue.Model.Error.{Validation, max_snapshot_bytes, max_topology_validation_attempts}
use tmux_rescue.Model.Snapshot.{
  CaptureTime, RawCaptureConsistency, RawSnapshot, SnapshotSource, raw_stable, raw_unstable,
}
use tmux_rescue.Model.Snapshot.Json.{Serde, from_capture_raw, or_invalid_json}
use tmux_rescue.Recovery.Outcome.{RecordParsers}

module _ {S : Type 0} (source : CaptureSource S) where
  -- So many readings of the topology that failed, one behind the other from one state and one
  -- attempt on, each with its event, and nothing between them.
  pub data FirstReadsFailed : (state : S) (attempt left : ℕ) → List CaptureEvent → Type 0 where
    no_more : {state : S} {attempt : ℕ} → FirstReadsFailed state attempt 0 []
    read_failed :
        {state : S} {attempt left : ℕ} {events : List CaptureEvent} (failure : CaptureSourceFailure)
        → (source.read_topology state).0 ≡ err failure
        → FirstReadsFailed (source.read_topology state).1 (attempt + 1) left events
        → FirstReadsFailed state attempt
            (suc left)
            (topology_read_failed attempt before_capture failure ∷ events)

module _ {Instant : Type 0} (parse_rfc3339 : Text → Option Instant) (codecs : Codecs)
    (serde : Serde) where
  abbrev IsComplete : Result CaptureError (CaptureResult Instant) → Type 0
  IsComplete result =
      (attempts : ℕ) (events : List CaptureEvent)
      → ¬ (result ≡ err (no_complete_candidate attempts events))

  -- An error of a candidate is passed on as such.
  invalid-IsComplete :
      {A : Type 0} (checked : Validation A) (next : A → Result CaptureError (CaptureResult Instant))
      → ((a : A) → IsComplete (next a))
      → IsComplete (or_invalid_candidate checked >>= next)
  invalid-IsComplete (ok a) next h = h a
  invalid-IsComplete (err error) next h = λ attempts events never. cc

  finish_result-IsComplete :
      (raw : RawSnapshot) (attempts : ℕ) (events : List CaptureEvent)
      → IsComplete (finish_result parse_rfc3339 codecs serde raw attempts events)
  unfolding finish_result
  finish_result-IsComplete raw attempts events =
      invalid-IsComplete (from_capture_raw parse_rfc3339 codecs serde raw) _ (λ snapshot a e h. cc)

  finish_within-IsComplete :
      (raw : RawSnapshot) (attempts : ℕ) (events : List CaptureEvent) (limit : ℕ) (bytes : Bytes)
      → IsComplete (finish_within parse_rfc3339 codecs serde raw attempts events limit bytes)
  unfolding finish_within
  finish_within-IsComplete raw attempts events limit bytes =
      if_both IsComplete (ltb limit (length bytes)) (λ a e h. cc)
        (finish_result-IsComplete raw attempts events)

  finish_stripped-IsComplete :
      (raw : RawSnapshot) (attempt attempts : ℕ) (events : List CaptureEvent) (limit : ℕ)
      (bytes : Bytes)
      → IsComplete
          (finish_stripped parse_rfc3339 codecs serde raw attempt attempts events limit bytes)
  unfolding finish_stripped
  finish_stripped-IsComplete raw attempt attempts events limit bytes =
      if_both IsComplete (is_empty (strip_prompt_enrichment raw.sessions).1)
        (finish_within-IsComplete _ attempts events limit bytes)
        (invalid-IsComplete _ _ (finish_within-IsComplete _ attempts _ limit))

  build_result-IsComplete :
      (captured_at : CaptureTime Instant) (source : SnapshotSource)
      (consistency : RawCaptureConsistency) (made : CaptureCandidate) (attempts : ℕ)
      (events : List CaptureEvent)
      → IsComplete (
          build_result parse_rfc3339 codecs serde captured_at source consistency made attempts
            events)
  unfolding build_result build_result_with_serialization_limit
  build_result-IsComplete captured_at source consistency made attempts events =
      let raw = raw_of parse_rfc3339 codecs serde captured_at source consistency made in
      invalid-IsComplete (or_invalid_json (serde.to_vec_pretty raw)) _ (λ bytes.
        if_both IsComplete (ltb max_snapshot_bytes (length bytes))
          (finish_stripped-IsComplete raw made.attempt attempts events max_snapshot_bytes bytes)
          (finish_result-IsComplete raw attempts events))

  module _ {S : Type 0} (display_width : Text → ℕ) (parsers : RecordParsers)
      (source : CaptureSource S) (captured_at : CaptureTime Instant) where
    abbrev loop :
        ℕ
        → ℕ
        → Option CaptureCandidate
        → List CaptureEvent
        → S
        → Result CaptureError (CaptureResult Instant) × S
    loop = attempts_loop display_width codecs parsers source parse_rfc3339 serde captured_at

    -- Once there is a candidate, the capture is complete.
    some-IsComplete :
        (left attempt : ℕ) (made : CaptureCandidate) (events : List CaptureEvent) (state : S)
        → IsComplete (loop left attempt (some made) events state).0
    unfolding attempts_loop save_unstable
    some-IsComplete zero attempt made events state attempts shown h =
        build_result-IsComplete captured_at source.source
          (raw_unstable max_topology_validation_attempts) made max_topology_validation_attempts _
          attempts shown h
    some-IsComplete (suc left) attempt made events state attempts shown h =
        let ran = run_attempt display_width codecs parsers source attempt state in
        elim (Attempt-cases ran.0) [
          | inl (pushed, failed) ↦
              some-IsComplete left (attempt + 1) made (events ++ pushed) ran.1 attempts shown (
                sym (
                  ap (λ (p : Result CaptureError (CaptureResult Instant) × S). p.0)
                    (step_no_candidate display_width codecs parsers source parse_rfc3339 serde
                      captured_at left attempt (some made) events pushed state failed))
                ∙ h)
          | inr (inr (next, pushed, other)) ↦
              some-IsComplete left (attempt + 1) next (events ++ pushed) ran.1 attempts shown (
                sym (
                  ap (λ (p : Result CaptureError (CaptureResult Instant) × S). p.0)
                    (step_unconfirmed display_width codecs parsers source parse_rfc3339 serde
                      captured_at left attempt (some made) events pushed state next other))
                ∙ h)
          | inr (inl (kept, pushed, same)) ↦
              build_result-IsComplete captured_at source.source raw_stable kept attempt
                (events ++ pushed) attempts shown
                (sym (
                    ap (λ (p : Result CaptureError (CaptureResult Instant) × S). p.0)
                      (step_confirmed display_width codecs parsers source parse_rfc3339 serde
                        captured_at left attempt (some made) events pushed state kept same))
                  ∙ h)
        ]

    attempt_from-no_candidate :
        (attempt : ℕ) (reading : Result CaptureSourceFailure TopologyObservation) (state : S)
        (pushed : List CaptureEvent)
        → (attempt_from display_width codecs parsers source attempt reading state).0
          ≡ no_candidate pushed
        → (failure : CaptureSourceFailure) × (reading ≡ err failure)
          × (pushed ≡ topology_read_failed attempt before_capture failure ∷ [])
          × ((attempt_from display_width codecs parsers source attempt reading state).1 ≡ state)
    unfolding attempt_from confirm
    attempt_from-no_candidate attempt (err failure) state pushed h = (failure, refl, cc, refl)
    attempt_from-no_candidate attempt (ok before) state pushed h =
        let made = capture_candidate display_width codecs parsers source attempt before state in
        elim (Result-cases (source.read_topology made.2).0) [
          | inr (failure, unread) ↦ let never = rw (unread, attempt_from, confirm) at h in cc
          | inl (last, read) ↦
              elim (Bool-cases (same_fingerprint (fingerprint last) (fingerprint before))) [
                | inl same ↦ let never = rw (read, same, attempt_from, confirm) at h in cc
                | inr other ↦ let never = rw (read, other, attempt_from, confirm) at h in cc
              ]
        ]

    -- The events that a loop without a candidate shows.
    Shown : S → ℕ → ℕ → List CaptureEvent → List CaptureEvent → Type 0
    Shown state attempt left events shown =
        (failures : List CaptureEvent) × (shown ≡ events ++ failures)
        × FirstReadsFailed source state attempt left failures

    none-Shown :
        (left attempt : ℕ) (events : List CaptureEvent) (state : S) (attempts : ℕ)
        (shown : List CaptureEvent)
        → (loop left attempt none events state).0 ≡ err (no_complete_candidate attempts shown)
        → (attempts ≡ max_topology_validation_attempts) × Shown state attempt left events shown
    unfolding attempts_loop save_unstable Shown run_attempt
    none-Shown zero attempt events state attempts shown h =
        (cc, ([], rw (append-nil events) cc, no_more))
    none-Shown (suc left) attempt events state attempts shown h =
        let ran = run_attempt display_width codecs parsers source attempt state in
        elim (Attempt-cases ran.0) [
          | inr (inl (made, pushed, same)) ↦ absurd (
              build_result-IsComplete captured_at source.source raw_stable made attempt
                (events ++ pushed) attempts shown
                (sym (
                    ap (λ (p : Result CaptureError (CaptureResult Instant) × S). p.0)
                      (step_confirmed display_width codecs parsers source parse_rfc3339 serde
                        captured_at left attempt none events pushed state made same))
                  ∙ h))
          | inr (inr (made, pushed, other)) ↦ absurd (
              some-IsComplete left (attempt + 1) made (events ++ pushed) ran.1 attempts shown (
                sym (
                  ap (λ (p : Result CaptureError (CaptureResult Instant) × S). p.0)
                    (step_unconfirmed display_width codecs parsers source parse_rfc3339 serde
                      captured_at left attempt none events pushed state made other))
                ∙ h))
          | inl (pushed, failed) ↦
              let (failure, unread, only, stays) =
                attempt_from-no_candidate attempt (source.read_topology state).0
                  (source.read_topology state).1 pushed failed in
              let (three, (failures, all, later)) =
                none-Shown left (attempt + 1) (events ++ pushed) ran.1 attempts shown (
                  sym (
                    ap (λ (p : Result CaptureError (CaptureResult Instant) × S). p.0)
                      (step_no_candidate display_width codecs parsers source parse_rfc3339 serde
                        captured_at left attempt none events pushed state failed))
                  ∙ h) in
              (
                three,
                (
                  topology_read_failed attempt before_capture failure ∷ failures,
                  all
                      ∙ append_assoc events pushed failures
                      ∙ ap (λ (l : List CaptureEvent). events ++ (l ++ failures)) only,
                  read_failed failure unread (
                      subst (λ s. FirstReadsFailed source s (attempt + 1) left failures) stays
                        later),
                ),
              )
        ]

    -- A capture says that it found no candidate only if three readings of the topology, one behind the
    -- other from the first state on, failed; its events are these failures, in order, and no others.
    pub capture_snapshot-FirstReadsFailed :
        (state : S) (attempts : ℕ) (events : List CaptureEvent)
        → (capture_snapshot display_width codecs parsers source parse_rfc3339 serde captured_at
            state).0
          ≡ err (no_complete_candidate attempts events)
        → (attempts ≡ max_topology_validation_attempts)
          × FirstReadsFailed source state 1 max_topology_validation_attempts events
    unfolding capture_snapshot Shown
    capture_snapshot-FirstReadsFailed state attempts events h =
        let (three, (failures, all, failed)) =
          none-Shown max_topology_validation_attempts 1 [] state attempts events h in
        (
          three,
          subst (FirstReadsFailed source state 1 max_topology_validation_attempts) (sym all) failed,
        )
