-- ===== src/Restore/Pane.antt =====
-- `plan_pane_action`, and one round of the loop over panes: what a pane will be given, and where.
pub mod Sound
pub mod Degradations
use tmux_rescue.Common.{
  Bool, List, Option, Result, [], false, if◌then◌else◌, list_eq, none, num_eq, ok, some, true, ℕ,
  ◌++◌, ◌>>=◌, ◌>>◌, ◌∷◌,
}
use tmux_rescue.Std.Text.{Text}
use tmux_rescue.Model.Codec.{Codecs}
use tmux_rescue.Model.OsString.{LosslessOsString, RecordedAbsolutePath}
use tmux_rescue.Model.Recovery.{
  AutomaticRecovery, PaneRecovery, automatic, codex, idle, manual, unavailable,
}
use tmux_rescue.Model.Snapshot.{PaneSnapshot}
use tmux_rescue.Recovery.Command.{
  RecoveryCommand, arguments_of, derive_automatic_command, expectation_of,
}
use tmux_rescue.Restore.Planned.{
  AutomaticFallbackReason, ExistingRecordedDirectory, LaunchableShellInput, PlanDegradation,
  PlannedAutomaticLaunch, PlannedCodexPromptPaste, PlannedPane, PlannedPaneAction,
  ResolvedDirectory, ResolvedDirectoryOrigin, RestoreEnvironment, automatic_recovery_fallback,
  executable_unavailable, launch_automatic, leave_idle, no_input, pane_directory_fallback,
  paste_automatic_fallback, paste_manual_hint, recorded, recorded_directory_unavailable,
  session_fallback,
}
use tmux_rescue.Restore.Render.{RenderedShellInput, render_argv}
use tmux_rescue.Restore.Shell.{
  PlanningExecutable, RestorePlanningError, SourcePaneCoordinate, TargetShell,
}

-- `PlannedAutomaticLaunch::new`
unfoldable pub codex_prompt_of : AutomaticRecovery → Option PlannedCodexPromptPaste
codex_prompt_of (codex _ (some area)) = some (record { input = area })
codex_prompt_of _ = none

unfoldable pub new_launch :
    ExistingRecordedDirectory → LaunchableShellInput → AutomaticRecovery → PlannedAutomaticLaunch
unfolding codex_prompt_of
new_launch directory input recovery = record {
  directory = directory;
  input = input;
  expected = expectation_of recovery;
  codex_prompt = codex_prompt_of recovery;
}

abbrev pub is_recorded : ResolvedDirectoryOrigin → Bool
is_recorded recorded = true
is_recorded _ = false

-- `command.argv()[0]`: a derived command is never empty.
abbrev pub command_word : List LosslessOsString → LosslessOsString
command_word [] = record { bytes = [] }
command_word (word ∷ _) = word

unfoldable pub render_launch_command :
    TargetShell
    → RecoveryCommand
    → PlanningExecutable
    → SourcePaneCoordinate
    → Result RestorePlanningError RenderedShellInput
render_launch_command shell command executable pane =
    render_argv shell (executable.path.path ∷ arguments_of command.argv) pane

-- What a step pushes on `degradations`, beside its result.
abbrev pub Planned : Type 0 → Type 0
Planned A = Result RestorePlanningError (A × List PlanDegradation)

module _ (codecs : Codecs) (env : RestoreEnvironment) (shell : TargetShell) where
  abbrev pub paste_fallback :
      RecoveryCommand
      → ResolvedDirectory
      → SourcePaneCoordinate
      → AutomaticFallbackReason
      → Planned PlannedPaneAction
  paste_fallback command directory pane reason = do
    input ← render_argv shell command.argv pane
    ok (
      paste_automatic_fallback directory input reason,
      automatic_recovery_fallback pane reason ∷ [],
    )

  abbrev pub launch :
      RecoveryCommand
      → ResolvedDirectory
      → SourcePaneCoordinate
      → AutomaticRecovery
      → PlanningExecutable
      → Planned PlannedPaneAction
  launch command directory pane recovery executable = do
    input ← render_launch_command shell command executable pane
    ok (
      launch_automatic (
          new_launch (record { path = directory.path })
            (record { rendered = input; executable = executable }) recovery),
      [],
    )

  unfoldable pub plan_pane_action :
      PaneRecovery → ResolvedDirectory → SourcePaneCoordinate → Planned PlannedPaneAction
  plan_pane_action idle directory pane = ok (leave_idle directory, [])
  plan_pane_action (unavailable failure) directory pane = ok (no_input directory failure, [])
  plan_pane_action (manual command) directory pane = do
    input ← render_argv shell command.argv pane
    ok (paste_manual_hint directory input, [])
  plan_pane_action (automatic recovery) directory pane =
      let command = derive_automatic_command codecs recovery in
      if is_recorded directory.origin
      then (elim (env.resolve_executable directory.path (command_word command.argv)) [
        | none ↦ paste_fallback command directory pane executable_unavailable
        | some executable ↦ launch command directory pane recovery executable
      ])
      else paste_fallback command directory pane recorded_directory_unavailable

  -- The recorded directory of a session or a pane if it exists, else the fallback.
  unfoldable pub resolve_directory :
      RecordedAbsolutePath
      → RecordedAbsolutePath
      → ResolvedDirectoryOrigin
      → PlanDegradation
      → ResolvedDirectory × List PlanDegradation
  resolve_directory path fallback origin degradation =
      if env.directory_exists path
      then (record { path = path; origin = recorded }, [])
      else (record { path = fallback; origin = origin }, degradation ∷ [])

  -- One round of the loop over panes.
  unfoldable pub plan_pane : RecordedAbsolutePath → Text → ℕ → PaneSnapshot → Planned PlannedPane
  unfolding resolve_directory
  plan_pane session_directory session_name window_index pane = do
    let coordinate : SourcePaneCoordinate = record {
      session_name = session_name;
      window_index = window_index;
      pane_index = pane.source_index;
    }
    let resolved =
        resolve_directory pane.working_directory session_directory session_fallback
          (pane_directory_fallback coordinate)
    planned ← plan_pane_action pane.recovery resolved.0 coordinate
    ok (record { coordinate = coordinate; action = planned.0 }, resolved.1 ++ planned.1)

  unfoldable pub plan_panes :
      RecordedAbsolutePath → Text → ℕ → List PaneSnapshot → Planned (List PlannedPane)
  plan_panes session_directory session_name window_index [] = ok ([], [])
  plan_panes session_directory session_name window_index (pane ∷ panes) = do
    first ← plan_pane session_directory session_name window_index pane
    rest ← plan_panes session_directory session_name window_index panes
    ok (first.0 ∷ rest.0, first.1 ++ rest.1)
