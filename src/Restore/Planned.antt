-- ===== src/Restore/Planned.antt =====
-- The parts of a restore plan, and the environment that a plan is made in.
use tmux_rescue.Common.{Bool, List, Option, Result, [], list_eq, num_eq, ℕ, ◌∷◌}
use tmux_rescue.Std.Text.{Text}
use tmux_rescue.Model.Name.{CaptureFailure, CapturedCodexPromptArea}
use tmux_rescue.Model.OsString.{LosslessOsString, RecordedAbsolutePath}
use tmux_rescue.Recovery.Command.{AutomaticRecoveryExpectation}
use tmux_rescue.Restore.Render.{RenderedShellInput}
use tmux_rescue.Restore.Shell.{PlanningExecutable, SourcePaneCoordinate, TargetShell}
use tmux_rescue.Selector.{TmuxSelector}

pub record RestoreDestination : Type 0 where
  pub selector : TmuxSelector

pub data ResolvedDirectoryOrigin : Type 0 where
  recorded home_fallback session_fallback : ResolvedDirectoryOrigin

pub record ResolvedDirectory : Type 0 where
  pub path : RecordedAbsolutePath
  pub origin : ResolvedDirectoryOrigin

pub record ExistingRecordedDirectory : Type 0 where
  pub path : RecordedAbsolutePath

pub record LaunchableShellInput : Type 0 where
  pub rendered : RenderedShellInput
  pub executable : PlanningExecutable

pub data AutomaticFallbackReason : Type 0 where
  recorded_directory_unavailable executable_unavailable : AutomaticFallbackReason

pub record PlannedCodexPromptPaste : Type 0 where
  pub input : CapturedCodexPromptArea

pub record PlannedAutomaticLaunch : Type 0 where
  pub directory : ExistingRecordedDirectory
  pub input : LaunchableShellInput
  pub expected : AutomaticRecoveryExpectation
  pub codex_prompt : Option PlannedCodexPromptPaste

pub data PlannedPaneAction : Type 0 where
  leave_idle : ResolvedDirectory → PlannedPaneAction
  launch_automatic : PlannedAutomaticLaunch → PlannedPaneAction
  paste_manual_hint : ResolvedDirectory → RenderedShellInput → PlannedPaneAction
  paste_automatic_fallback :
      ResolvedDirectory → RenderedShellInput → AutomaticFallbackReason → PlannedPaneAction
  no_input : ResolvedDirectory → CaptureFailure → PlannedPaneAction

pub record PlannedPane : Type 0 where
  pub coordinate : SourcePaneCoordinate
  pub action : PlannedPaneAction

pub record PlannedWindow : Type 0 where
  pub source_index : ℕ
  pub name : Text
  pub pane_coordinates : List SourcePaneCoordinate

pub record PlannedSession : Type 0 where
  pub name : Text
  pub directory : ResolvedDirectory
  pub windows : List PlannedWindow

pub data PlanDegradation : Type 0 where
  session_directory_fallback : (session_name : Text) → PlanDegradation
  pane_directory_fallback : (pane : SourcePaneCoordinate) → PlanDegradation
  automatic_recovery_fallback :
      (pane : SourcePaneCoordinate) → AutomaticFallbackReason → PlanDegradation

pub record RestorePlan : Type 0 where
  pub destination : RestoreDestination
  pub target_shell : TargetShell
  pub sessions : List PlannedSession
  pub panes : List PlannedPane
  pub degradations : List PlanDegradation

-- The trait `RestoreEnvironment`. Its answers do not change while a plan is made.
pub record RestoreEnvironment : Type 0 where
  pub target_shell : Result Text TargetShell
  pub home_directory : Result Text RecordedAbsolutePath
  pub directory_exists : RecordedAbsolutePath → Bool
  pub resolve_executable : RecordedAbsolutePath → LosslessOsString → Option PlanningExecutable

abbrev pub coordinates : List PlannedPane → List SourcePaneCoordinate
coordinates [] = []
coordinates (pane ∷ panes) = pane.coordinate ∷ coordinates panes
