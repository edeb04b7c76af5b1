-- ===== src/Capture/Pane.antt =====
-- `capture_candidate` and `capture_foreground_recovery`: what is captured of each pane.
pub mod Bound
use tmux_rescue.Model.OsString
use tmux_rescue.Common.{
  List, Option, Result, [], err, if◌then◌else◌, list_eq, none, num_eq, ok, some, ℕ, ◌++◌, ◌==◌, ◌∷◌,
}
use tmux_rescue.Std.Text.{Text}
use tmux_rescue.Capture.{TopologyPane, TopologySession, TopologyWindow}
use tmux_rescue.Capture.Source.{
  CaptureCandidate, CaptureEvent, CaptureSource, PaneProcessObservation,
  codex_prompt_capture_skipped, foreground, idle_process, pane_recovery_unavailable,
  resolver_downgraded, unavailable_process,
}
use tmux_rescue.Capture.Topology.{TopologyObservation}
use tmux_rescue.Model.Codec.{Codecs}
use tmux_rescue.Model.Name.{CapturedCodexPromptArea}
use tmux_rescue.Model.Recovery.{
  CodexSessionId, PaneRecovery, automatic, codex, idle, recovery_to_raw, unavailable,
}
use tmux_rescue.Model.Snapshot.{RawPaneSnapshot, RawSessionSnapshot, RawWindowSnapshot}
use tmux_rescue.Prompt.Area.{
  CodexPromptAreaObservation, CodexPromptCaptureFailure, absent, capture_visible_codex_prompt,
  captured, session_changed, skipped,
}
use tmux_rescue.Recovery.Classify.{classify_pane}
use tmux_rescue.Recovery.Evidence.{PaneTiedForegroundEvidence}
use tmux_rescue.Recovery.Outcome.{
  RecordParsers, ResolverOutcome, conflicting_evidence, insufficient_evidence,
}
use tmux_rescue.Restore.Shell.{SourcePaneCoordinate}

-- What a part of a capture returns: its value, the events it pushed, and the state it left.
abbrev pub Captured : Type 0 → Type 0 → Type 0
Captured S A = A × List CaptureEvent × S

abbrev pub codex_recovery : CodexSessionId → Option CapturedCodexPromptArea → PaneRecovery
codex_recovery session_id prompt_area = automatic (codex session_id prompt_area)

-- The session that a classification resolves a Codex pane to, before any prompt is read.
unfoldable pub codex_session_of : PaneRecovery → Option CodexSessionId
codex_session_of (automatic (codex session_id none)) = some session_id
codex_session_of _ = none

-- The event of a recovery that was downgraded.
unfoldable pub downgraded : ℕ → SourcePaneCoordinate → ResolverOutcome → List CaptureEvent
downgraded attempt pane (insufficient_evidence failure) =
    resolver_downgraded attempt pane (insufficient_evidence failure) ∷ []
downgraded attempt pane (conflicting_evidence failure) =
    resolver_downgraded attempt pane (conflicting_evidence failure) ∷ []
downgraded attempt pane _ = []

module _ {S : Type 0} (display_width : Text → ℕ) (codecs : Codecs) (parsers : RecordParsers)
    (source : CaptureSource S) where
  -- `SessionBoundCodexPromptCapture::try_bind` and `into_recovery`.
  unfoldable pub try_bind :
      CodexSessionId
      → PaneProcessObservation
      → CapturedCodexPromptArea
      → Result CodexPromptCaptureFailure PaneRecovery
  try_bind expected (foreground evidence) prompt_area =
      elim (codex_session_of (classify_pane codecs parsers evidence).recovery) [
        | none ↦ err session_changed
        | some closing ↦
            if closing.uuid == expected.uuid
            then ok (codex_recovery expected (some prompt_area))
            else err session_changed
      ]
  try_bind expected idle_process prompt_area = err session_changed
  try_bind expected (unavailable_process _) prompt_area = err session_changed

  module _ (pane : TopologyPane) (coordinate : SourcePaneCoordinate) (attempt : ℕ) where
    -- The Codex recovery without a prompt, with the event that says why.
    abbrev pub without_prompt :
        CodexSessionId → CodexPromptCaptureFailure → S → Captured S PaneRecovery
    without_prompt session_id failure state = (
      codex_recovery session_id none,
      codex_prompt_capture_skipped attempt coordinate failure ∷ [],
      state,
    )

    -- A captured prompt is kept if the pane is still in the same session.
    unfoldable pub bind_prompt :
        CodexSessionId
        → CapturedCodexPromptArea
        → PaneProcessObservation
        → S
        → Captured S PaneRecovery
    bind_prompt session_id prompt_area closing state =
        elim (try_bind session_id closing prompt_area) [
          | ok recovery ↦ (recovery, [], state)
          | err failure ↦ without_prompt session_id failure state
        ]

    unfoldable pub capture_prompt :
        CodexSessionId → CodexPromptAreaObservation → S → Captured S PaneRecovery
    capture_prompt session_id absent state = (codex_recovery session_id none, [], state)
    capture_prompt session_id (skipped failure) state = without_prompt session_id failure state
    capture_prompt session_id (captured prompt_area) state =
        let (closing, after) = source.inspect_pane pane state in
        bind_prompt session_id prompt_area closing after

    unfoldable pub capture_codex : CodexSessionId → S → Captured S PaneRecovery
    unfolding capture_prompt bind_prompt
    capture_codex session_id state =
        let (grid, after) = source.read_visible_pane pane state in
        elim grid [
          | ok visible ↦
              capture_prompt session_id (capture_visible_codex_prompt display_width visible) after
          | err failure ↦ without_prompt session_id failure after
        ]

    unfoldable pub capture_classified : PaneRecovery → S → Captured S PaneRecovery
    capture_classified recovery state = elim (codex_session_of recovery) [
      | some session_id ↦ capture_codex session_id state
      | none ↦ (recovery, [], state)
    ]

    unfoldable pub capture_foreground_recovery :
        PaneTiedForegroundEvidence → S → Captured S PaneRecovery
    capture_foreground_recovery evidence state =
        let classification = classify_pane codecs parsers evidence in
        let (recovery, events, after) = capture_classified classification.recovery state in
        (recovery, downgraded attempt coordinate classification.resolver_outcome ++ events, after)

    unfoldable pub capture_observation : PaneProcessObservation → S → Captured S PaneRecovery
    capture_observation idle_process state = (idle, [], state)
    capture_observation (unavailable_process failure) state =
        (unavailable failure, pane_recovery_unavailable attempt coordinate failure ∷ [], state)
    capture_observation (foreground evidence) state = capture_foreground_recovery evidence state

    -- `source.inspect_pane(pane)` and the `match` on its answer.
    unfoldable pub capture_recovery : S → Captured S PaneRecovery
    capture_recovery state =
        let (observation, after) = source.inspect_pane pane state in
        capture_observation observation after

  module _ (attempt : ℕ) where
    unfoldable pub capture_pane : Text → ℕ → TopologyPane → S → Captured S RawPaneSnapshot
    capture_pane session_name window_index pane state =
        let coordinate : SourcePaneCoordinate = record {
          session_name = session_name;
          window_index = window_index;
          pane_index = pane.source_index;
        } in
        let (recovery, events, after) = capture_recovery pane coordinate attempt state in
        (
          record {
            source_index = pane.source_index;
            working_directory = OsString.path_to_raw codecs pane.working_directory;
            recovery = recovery_to_raw codecs recovery;
          },
          events,
          after,
        )

    unfoldable pub capture_panes :
        Text → ℕ → List TopologyPane → S → Captured S (List RawPaneSnapshot)
    capture_panes session_name window_index [] state = ([], [], state)
    capture_panes session_name window_index (pane ∷ panes) state =
        let (raw, events, between_panes) = capture_pane session_name window_index pane state in
        let (raws, later, after) = capture_panes session_name window_index panes between_panes in
        (raw ∷ raws, events ++ later, after)

    unfoldable pub capture_windows :
        Text → List TopologyWindow → S → Captured S (List RawWindowSnapshot)
    capture_windows session_name [] state = ([], [], state)
    capture_windows session_name (window ∷ windows) state =
        let (panes, events, between_windows) =
          capture_panes session_name window.source_index window.panes state in
        let (raws, later, after) = capture_windows session_name windows between_windows in
        (
          record { source_index = window.source_index; name = window.name; panes = panes } ∷ raws,
          events ++ later,
          after,
        )

    unfoldable pub capture_sessions :
        List TopologySession → S → Captured S (List RawSessionSnapshot)
    capture_sessions [] state = ([], [], state)
    capture_sessions (session ∷ sessions) state =
        let (windows, events, between_sessions) =
          capture_windows session.name session.windows state in
        let (raws, later, after) = capture_sessions sessions between_sessions in
        (
          record {
            name = session.name;
            working_directory = OsString.path_to_raw codecs session.working_directory;
            windows = windows;
          }
              ∷ raws,
          events ++ later,
          after,
        )

    unfoldable pub capture_candidate : TopologyObservation → S → Captured S CaptureCandidate
    capture_candidate reading state =
        let (sessions, events, after) = capture_sessions reading.sessions state in
        (record { attempt = attempt; sessions = sessions }, events, after)
