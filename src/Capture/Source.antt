-- ===== src/Capture/Source.antt =====
-- The trait `CaptureSource`, as functions on a state, and the events of a capture.
use tmux_rescue.Common.{List, Result, [], list_eq, num_eq, ℕ}
use tmux_rescue.Capture.{TopologyPane}
use tmux_rescue.Capture.Topology.{TopologyObservation}
use tmux_rescue.Model.Error.{SnapshotValidationError}
use tmux_rescue.Model.Name.{CaptureFailure}
use tmux_rescue.Model.Snapshot.{RawSessionSnapshot, SnapshotSource, ValidatedSnapshot}
use tmux_rescue.Prompt.Area.{CodexPromptCaptureFailure}
use tmux_rescue.Recovery.Evidence.{PaneTiedForegroundEvidence}
use tmux_rescue.Recovery.Outcome.{ResolverOutcome}
use tmux_rescue.Restore.Shell.{SourcePaneCoordinate}
use tmux_rescue.VisiblePane.Grid.{VisiblePaneGrid}

pub data PaneProcessObservation : Type 0 where
  idle_process : PaneProcessObservation
  foreground : PaneTiedForegroundEvidence → PaneProcessObservation
  unavailable_process : CaptureFailure → PaneProcessObservation

pub record CaptureSourceFailure : Type 0 where
  pub failure : CaptureFailure

-- Any state, with no assumption on the answers; the source's own path does not change.
pub record CaptureSource (S : Type 0) : Type 0 where
  pub source : SnapshotSource
  pub read_topology : S → Result CaptureSourceFailure TopologyObservation × S
  pub inspect_pane : TopologyPane → S → PaneProcessObservation × S
  pub read_visible_pane : TopologyPane → S → Result CodexPromptCaptureFailure VisiblePaneGrid × S

pub data TopologyReadPhase : Type 0 where
  before_capture after_capture : TopologyReadPhase

pub data CaptureEvent : Type 0 where
  topology_read_failed :
      (attempt : ℕ) (phase : TopologyReadPhase) (failure : CaptureSourceFailure) → CaptureEvent
  topology_mismatch : (attempt : ℕ) → CaptureEvent
  pane_recovery_unavailable :
      (attempt : ℕ) (pane : SourcePaneCoordinate) (failure : CaptureFailure) → CaptureEvent
  resolver_downgraded :
      (attempt : ℕ) (pane : SourcePaneCoordinate) (outcome : ResolverOutcome) → CaptureEvent
  codex_prompt_capture_skipped :
      (attempt : ℕ) (pane : SourcePaneCoordinate) (failure : CodexPromptCaptureFailure)
      → CaptureEvent
  unstable_candidate_saved : (attempts : ℕ) → CaptureEvent

pub record CaptureCandidate : Type 0 where
  pub attempt : ℕ
  pub sessions : List RawSessionSnapshot

pub record CaptureResult (Instant : Type 0) : Type 0 where
  pub snapshot : ValidatedSnapshot Instant
  pub attempts : ℕ
  pub events : List CaptureEvent

pub data CaptureError : Type 0 where
  no_complete_candidate : (attempts : ℕ) (events : List CaptureEvent) → CaptureError
  invalid_candidate : SnapshotValidationError → CaptureError

-- `CaptureError::attempts`
unfoldable pub error_attempts : CaptureError → ℕ
error_attempts (no_complete_candidate attempts _) = attempts
error_attempts (invalid_candidate _) = 0

-- `CaptureError::events`
unfoldable pub error_events : CaptureError → List CaptureEvent
error_events (no_complete_candidate _ events) = events
error_events (invalid_candidate _) = []
