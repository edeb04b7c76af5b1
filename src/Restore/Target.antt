-- ===== src/Restore/Target.antt =====
-- What a plan is executed on, as seen by the executor: the three traits of a restore target, their
-- answers, and the outcome of a run.
use tmux_rescue.Common.{List, Option, Result, list_eq, num_eq}
use tmux_rescue.Std.Text.{Text}
use tmux_rescue.Model.Name.{CaptureFailure, CapturedCodexPromptArea}
use tmux_rescue.Model.Recovery.{CodexSessionId}
use tmux_rescue.Recovery.Command.{AutomaticRecoveryExpectation}
use tmux_rescue.Restore.Planned.{
  AutomaticFallbackReason, LaunchableShellInput, RestoreDestination, RestorePlan,
}
use tmux_rescue.Restore.Render.{RenderedShellInput}
use tmux_rescue.Restore.Shell.{SourcePaneCoordinate, TargetShell}

pub data TargetDisposition : Type 0 where
  removed retained missing unknown : TargetDisposition

pub data RollbackFailureDisposition : Type 0 where
  rollback_retained rollback_unknown : RollbackFailureDisposition

unfoldable pub target_disposition : RollbackFailureDisposition → TargetDisposition
target_disposition rollback_retained = retained
target_disposition rollback_unknown = unknown

pub data RestoreTargetState : Type 0 where
  not_established : RestoreTargetState
  observed : TargetDisposition → RestoreTargetState

pub record TargetClaimFailure : Type 0 where
  pub message : Text
  pub target_state : RestoreTargetState

pub record TopologyFailure : Type 0 where
  pub message : Text

pub record RollbackFailure : Type 0 where
  pub disposition : RollbackFailureDisposition
  pub message : Text

pub data RollbackOutcome : Type 0 where
  rollback_removed : RollbackOutcome
  rollback_failed : RollbackFailure → RollbackOutcome

pub data GuardedPaneFailure : Type 0 where
  guard_shell_not_foreground guard_pane_missing : GuardedPaneFailure
  guard_failed : Text → GuardedPaneFailure

pub data GuardedPaneOperation : Type 0 where
  verify_shell : GuardedPaneOperation
  paste_literal : (input : RenderedShellInput) → GuardedPaneOperation
  launch_input : (input : LaunchableShellInput) → GuardedPaneOperation

abbrev pub GuardedPaneResult : Type 0
GuardedPaneResult = Result GuardedPaneFailure (Unit {0})

pub data AutomaticPaneObservation : Type 0 where
  seen_recovered seen_shell seen_unexpected seen_no_pane : AutomaticPaneObservation
  seen_nothing : (reason : Text) → AutomaticPaneObservation

pub data CodexPromptPasteFailure : Type 0 where
  session_mismatch paste_pane_missing input_disabled paste_failed cleanup_failed :
      CodexPromptPasteFailure

abbrev pub CodexPromptPasteResult : Type 0
CodexPromptPasteResult = Result CodexPromptPasteFailure (Unit {0})

-- `RestoreTargetCapability`, `OwnedRestoreTarget` and `RecoveryRestoreTarget`. The boxes that
-- `claim` and `begin_recovery` return are handles on the one target, whose state is in `World`.
pub record RestoreTarget (World : Type 0) : Type 0 where
  pub claim :
      RestoreDestination → TargetShell → World → Result TargetClaimFailure (Unit {0}) × World
  pub create_topology : RestorePlan → World → Result TopologyFailure (Unit {0}) × World
  pub rollback : World → RollbackOutcome × World
  pub begin_recovery : World → World
  pub guarded_pane_operation :
      SourcePaneCoordinate → TargetShell → GuardedPaneOperation → World → GuardedPaneResult × World
  pub observe_automatic :
      SourcePaneCoordinate → AutomaticRecoveryExpectation → World → AutomaticPaneObservation × World
  pub paste_codex_prompt_area :
      SourcePaneCoordinate
      → CodexSessionId
      → CapturedCodexPromptArea
      → World
      → CodexPromptPasteResult × World
  pub observe_disposition : World → TargetDisposition × World

pub data AttentionReason : Type 0 where
  shell_not_foreground missing_pane unexpected_foreground : AttentionReason
  captured_recovery_unavailable : CaptureFailure → AttentionReason
  guarded_operation_failed automatic_observation_failed : Text → AttentionReason

pub data PaneRestoreOutcome : Type 0 where
  restored_idle_shell recovered_automatically recovered_automatically_with_prompt_prepared :
      PaneRestoreOutcome
  recovered_automatically_with_prompt_needs_attention : CodexPromptPasteFailure → PaneRestoreOutcome
  prepared_manual_hint : PaneRestoreOutcome
  prepared_automatic_fallback_hint : AutomaticFallbackReason → PaneRestoreOutcome
  automatic_launch_failed_hint_prepared : PaneRestoreOutcome
  needs_attention : AttentionReason → PaneRestoreOutcome

pub record PaneRestoreResult : Type 0 where
  pub coordinate : SourcePaneCoordinate
  pub outcome : PaneRestoreOutcome

pub data RestoreRunStatus : Type 0 where
  complete partial fatal : RestoreRunStatus

pub data RestoreExecutionFailure : Type 0 where
  target_claim_failed : TargetClaimFailure → RestoreExecutionFailure
  topology_failed : TopologyFailure → RestoreExecutionFailure
  topology_and_cleanup_failed :
      (topology_failure : TopologyFailure) (cleanup_failure : RollbackFailure)
      → RestoreExecutionFailure

pub record RestoreRunResult : Type 0 where
  pub status : RestoreRunStatus
  pub target_state : RestoreTargetState
  pub failure : Option RestoreExecutionFailure
  pub panes : List PaneRestoreResult
