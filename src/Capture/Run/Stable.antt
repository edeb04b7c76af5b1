-- ===== src/Capture/Run/Stable.antt =====
-- A stable snapshot lies between two equal readings of the topology.
use tmux_rescue.Common.{
  Bool-cases, List, Option, Result, [], ap, arith, err, inl, inr, list_eq, none, num_eq, ok, refl,
  some, subst, suc, sym, true, zero, ℕ, ◌++◌, ◌+◌, ◌∙◌, ◌≡◌, ◌≤◌, ◌⊎◌,
}
use tmux_rescue.Std.Text.{Text}
use tmux_rescue.Capture.Build.{build_result}
use tmux_rescue.Capture.Build.Stripped.{
  IsBuilt, build_result_with_serialization_limit-IsBuilt, raw_of,
}
use tmux_rescue.Capture.Pane.{capture_candidate}
use tmux_rescue.Capture.Run.{
  Attempt, attempt_from, attempts_loop, capture_snapshot, confirm, confirmed, no_candidate,
  run_attempt, save_unstable, unconfirmed,
}
use tmux_rescue.Capture.Source.{
  CaptureCandidate, CaptureError, CaptureEvent, CaptureResult, CaptureSource, CaptureSourceFailure,
}
use tmux_rescue.Capture.Topology.{TopologyObservation, fingerprint, same_fingerprint}
use tmux_rescue.Model.Codec.{Codecs}
use tmux_rescue.Model.Error.{max_snapshot_bytes, max_topology_validation_attempts}
use tmux_rescue.Model.Snapshot.{CaptureTime, RawSnapshot, raw_stable, raw_unstable, stable}
use tmux_rescue.Model.Snapshot.Json.{Serde, from_capture_raw-unstable}
use tmux_rescue.Recovery.Claude.{behind_first}
use tmux_rescue.Recovery.Outcome.{RecordParsers}

pub Attempt-cases :
    (result : Attempt)
    → ((events : List CaptureEvent) × (result ≡ no_candidate events))
      ⊎ ((made : CaptureCandidate) × (events : List CaptureEvent) × (result
            ≡ confirmed made events))
      ⊎ ((made : CaptureCandidate) × (events : List CaptureEvent) × (result
            ≡ unconfirmed made events))
Attempt-cases (no_candidate events) = inl (events, refl)
Attempt-cases (confirmed made events) = inr (inl (made, events, refl))
Attempt-cases (unconfirmed made events) = inr (inr (made, events, refl))

module _ {S : Type 0} (display_width : Text → ℕ) (codecs : Codecs) (parsers : RecordParsers)
    (source : CaptureSource S) where
  -- The candidate was captured between two readings with one fingerprint.
  pub record IsConfirmed (attempt : ℕ) (state final : S) (made : CaptureCandidate) : Type 0 where
    pub first_reading : TopologyObservation
    pub last_reading : TopologyObservation
    pub behind_first : S
    pub behind_candidate : S
    pub events : List CaptureEvent
    pub is_first : source.read_topology state ≡ (ok first_reading, behind_first)
    pub is_made :
        capture_candidate display_width codecs parsers source attempt first_reading behind_first
        ≡ (made, events, behind_candidate)
    pub is_last : source.read_topology behind_candidate ≡ (ok last_reading, final)
    pub same : same_fingerprint (fingerprint last_reading) (fingerprint first_reading) ≡ true

  confirm-confirmed :
      (attempt : ℕ) (before : TopologyObservation) (made kept : CaptureCandidate)
      (events pushed : List CaptureEvent)
      (reading : Result CaptureSourceFailure TopologyObservation)
      → confirm display_width codecs parsers source attempt before made events reading
        ≡ confirmed kept pushed
      → (made ≡ kept)
        × (last : TopologyObservation) × (reading ≡ ok last)
        × (same_fingerprint (fingerprint last) (fingerprint before) ≡ true)
  unfolding confirm
  confirm-confirmed attempt before made kept events pushed (err failure) h = cc
  confirm-confirmed attempt before made kept events pushed (ok last) h =
      elim (Bool-cases (same_fingerprint (fingerprint last) (fingerprint before))) [
        | inl same ↦ let made_it = rw (same, confirm) at h in (cc, last, refl, same)
        | inr other ↦ let never = rw (other, confirm) at h in cc
      ]

  attempt_from-confirmed :
      (attempt : ℕ) (state behind_first : S)
      (reading : Result CaptureSourceFailure TopologyObservation) (made : CaptureCandidate)
      (events : List CaptureEvent)
      → source.read_topology state ≡ (reading, behind_first)
      → (attempt_from display_width codecs parsers source attempt reading behind_first).0
        ≡ confirmed made events
      → IsConfirmed attempt state
          (attempt_from display_width codecs parsers source attempt reading behind_first).1
          made
  unfolding attempt_from
  attempt_from-confirmed attempt state behind_first (err failure) made events first h = cc
  attempt_from-confirmed attempt state behind_first (ok before) made events first h =
      let captured_now =
        capture_candidate display_width codecs parsers source attempt before behind_first in
      let (kept, last, read, same) =
        confirm-confirmed attempt before captured_now.0 made captured_now.1 events
          (source.read_topology captured_now.2).0 h in
      record {
        first_reading = before;
        last_reading = last;
        behind_first = behind_first;
        behind_candidate = captured_now.2;
        events = captured_now.1;
        is_first = first;
        is_made = ap (λ c. (c, captured_now.1, captured_now.2)) kept;
        is_last = ap (λ r. (r, (source.read_topology captured_now.2).1)) read;
        same = same;
      }

  run_attempt-confirmed :
      (attempt : ℕ) (state : S) (made : CaptureCandidate) (events : List CaptureEvent)
      → (run_attempt display_width codecs parsers source attempt state).0 ≡ confirmed made events
      → IsConfirmed attempt state
          (run_attempt display_width codecs parsers source attempt state).1
          made
  unfolding run_attempt
  run_attempt-confirmed attempt state made events h =
      attempt_from-confirmed attempt state (source.read_topology state).1
        (source.read_topology state).0 made events refl h

  module _ {Instant : Type 0} (parse_rfc3339 : Text → Option Instant) (serde : Serde)
      (captured_at : CaptureTime Instant) where
    -- The attempt that confirmed the result, and the snapshot of its candidate.
    pub record IsStableResult (attempts : ℕ) (final : S) (result : CaptureResult Instant)
        : Type 0 where
      pub attempt : ℕ
      pub in_time : attempt ≤ attempts
      pub started : S
      pub made : CaptureCandidate
      pub is_confirmed : IsConfirmed attempt started final made
      pub is_built :
          IsBuilt parse_rfc3339 codecs serde
            (raw_of parse_rfc3339 codecs serde captured_at source.source raw_stable made)
            max_snapshot_bytes
            attempt
            result

    abbrev loop :
        ℕ
        → ℕ
        → Option CaptureCandidate
        → List CaptureEvent
        → S
        → Result CaptureError (CaptureResult Instant) × S
    loop = attempts_loop display_width codecs parsers source parse_rfc3339 serde captured_at

    save_unstable-not_stable :
        (most_recent : Option CaptureCandidate) (events : List CaptureEvent)
        (result : CaptureResult Instant)
        → save_unstable display_width codecs parsers source parse_rfc3339 serde captured_at
            most_recent events
          ≡ ok result
        → ¬ (result.snapshot.consistency ≡ stable)
    unfolding save_unstable build_result
    save_unstable-not_stable none events result h is_stable = cc
    save_unstable-not_stable (some made) events result h is_stable =
        let built =
          build_result_with_serialization_limit-IsBuilt parse_rfc3339 codecs serde captured_at
            source.source (raw_unstable max_topology_validation_attempts) made
            max_topology_validation_attempts _ max_snapshot_bytes result h in
        from_capture_raw-unstable parse_rfc3339 codecs serde built.kept result.snapshot
          max_topology_validation_attempts built.refined
          (elim built.whole_or_stripped [
            | inl whole ↦ ap RawSnapshot.consistency whole
            | inr (_, _, _, stripped) ↦ ap RawSnapshot.consistency stripped
          ])
          is_stable

    module _ (left attempt : ℕ) (most_recent : Option CaptureCandidate)
        (events pushed : List CaptureEvent) (state : S) where
      pub step_no_candidate :
          (run_attempt display_width codecs parsers source attempt state).0 ≡ no_candidate pushed
          → loop (suc left) attempt most_recent events state
            ≡ loop left
                (attempt + 1)
                most_recent
                (events ++ pushed)
                (run_attempt display_width codecs parsers source attempt state).1
      unfolding attempts_loop
      step_no_candidate h = rw (h, attempts_loop) refl

      pub step_unconfirmed :
          (made : CaptureCandidate)
          → (run_attempt display_width codecs parsers source attempt state).0
            ≡ unconfirmed made pushed
          → loop (suc left) attempt most_recent events state
            ≡ loop left
                (attempt + 1)
                (some made)
                (events ++ pushed)
                (run_attempt display_width codecs parsers source attempt state).1
      unfolding attempts_loop
      step_unconfirmed made h = rw (h, attempts_loop) refl

      pub step_confirmed :
          (made : CaptureCandidate)
          → (run_attempt display_width codecs parsers source attempt state).0
            ≡ confirmed made pushed
          → loop (suc left) attempt most_recent events state ≡ (
            build_result parse_rfc3339 codecs serde captured_at source.source raw_stable made
                attempt
                (events ++ pushed),
            (run_attempt display_width codecs parsers source attempt state).1,
          )
      unfolding attempts_loop
      step_confirmed made h = rw (h, attempts_loop) refl

    attempts_loop-stable :
        (left attempt last : ℕ) (most_recent : Option CaptureCandidate) (events : List CaptureEvent)
        (state final : S) (result : CaptureResult Instant)
        → attempt + left ≡ suc last
        → loop left attempt most_recent events state ≡ (ok result, final)
        → result.snapshot.consistency ≡ stable
        → IsStableResult last final result
    unfolding attempts_loop build_result
    attempts_loop-stable zero attempt last most_recent events state final result count h is_stable =
        absurd (
          save_unstable-not_stable most_recent events result
            (ap (λ (p : Result CaptureError (CaptureResult Instant) × S). p.0) h) is_stable)
    attempts_loop-stable (suc left) attempt last most_recent events state final result count h
          is_stable =
        let ran = run_attempt display_width codecs parsers source attempt state in
        elim (Attempt-cases ran.0) [
          | inl (pushed, failed) ↦
              attempts_loop-stable left (attempt + 1) last most_recent (events ++ pushed) ran.1
                final result (omega arith)
                (sym (step_no_candidate left attempt most_recent events pushed state failed) ∙ h)
                is_stable
          | inr (inr (made, pushed, other)) ↦
              attempts_loop-stable left (attempt + 1) last (some made) (events ++ pushed) ran.1
                final result (omega arith)
                (sym (step_unconfirmed left attempt most_recent events pushed state made other) ∙ h)
                is_stable
          | inr (inl (made, pushed, same)) ↦
              let returned =
                sym (step_confirmed left attempt most_recent events pushed state made same) ∙ h in
              let ended : ran.1 ≡ final =
                ap (λ (p : Result CaptureError (CaptureResult Instant) × S). p.1) returned in
              record {
                attempt = attempt;
                in_time = omega arith;
                started = state;
                made = made;
                is_confirmed =
                    subst (λ f. IsConfirmed attempt state f made) ended
                      (run_attempt-confirmed attempt state made pushed same);
                is_built =
                    build_result_with_serialization_limit-IsBuilt parse_rfc3339 codecs serde
                      captured_at source.source raw_stable made attempt (events ++ pushed)
                      max_snapshot_bytes result
                      (ap (λ (p : Result CaptureError (CaptureResult Instant) × S). p.0) returned);
              }
        ]

    -- A snapshot that says it is stable is that of a candidate captured, in one of the three attempts
    -- and as the last thing done, between two readings of the topology with the same fingerprint.
    pub capture_snapshot-IsStableResult :
        (state final : S) (result : CaptureResult Instant)
        → capture_snapshot display_width codecs parsers source parse_rfc3339 serde captured_at state
          ≡ (ok result, final)
        → result.snapshot.consistency ≡ stable
        → IsStableResult max_topology_validation_attempts final result
    unfolding capture_snapshot
    capture_snapshot-IsStableResult state final result h is_stable =
        attempts_loop-stable max_topology_validation_attempts 1 max_topology_validation_attempts
          none [] state final result refl h is_stable
