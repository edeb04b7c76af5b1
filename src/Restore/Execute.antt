-- ===== src/Restore/Execute.antt =====
-- `RestoreExecutor::execute` and `execute_pane`, with the target's state passed on.
pub mod Trace
pub mod PaneRuns
pub mod Status
pub mod Protocol
mod Tests
use tmux_rescue.Common.{
  Bool, List, Option, Result, [], err, false, if◌then◌else◌, is_empty, list_eq, none, not, num_eq,
  ok, some, true, ◌||◌, ◌∷◌,
}
use tmux_rescue.Model.Name.{CapturedCodexPromptArea}
use tmux_rescue.Model.Recovery.{CodexSessionId}
use tmux_rescue.Recovery.Command.{AutomaticRecoveryExpectation, expect_codex}
use tmux_rescue.Restore.Pane.{launch}
use tmux_rescue.Restore.Planned.{
  PlanDegradation, PlannedAutomaticLaunch, PlannedCodexPromptPaste, PlannedPane, PlannedPaneAction,
  RestorePlan, launch_automatic, leave_idle, no_input, paste_automatic_fallback, paste_manual_hint,
}
use tmux_rescue.Restore.Shell.{SourcePaneCoordinate, TargetShell}
use tmux_rescue.Restore.Target.{
  AutomaticPaneObservation, CodexPromptPasteResult, GuardedPaneFailure, GuardedPaneOperation,
  GuardedPaneResult, PaneRestoreOutcome, PaneRestoreResult, RestoreExecutionFailure,
  RestoreRunResult, RestoreRunStatus, RestoreTarget, RestoreTargetState, RollbackOutcome,
  TargetClaimFailure, TargetDisposition, TopologyFailure, automatic_launch_failed_hint_prepared,
  automatic_observation_failed, captured_recovery_unavailable, complete, fatal, guard_failed,
  guard_pane_missing, guard_shell_not_foreground, guarded_operation_failed, launch_input,
  missing_pane, needs_attention, observed, partial, paste_literal, prepared_automatic_fallback_hint,
  prepared_manual_hint, recovered_automatically,
  recovered_automatically_with_prompt_needs_attention, recovered_automatically_with_prompt_prepared,
  removed, restored_idle_shell, retained, rollback_failed, rollback_removed, seen_no_pane,
  seen_nothing, seen_recovered, seen_shell, seen_unexpected, shell_not_foreground,
  target_claim_failed, target_disposition, topology_and_cleanup_failed, topology_failed,
  unexpected_foreground, verify_shell,
}

pub guard_failure : GuardedPaneFailure → PaneRestoreOutcome
guard_failure guard_shell_not_foreground = needs_attention shell_not_foreground
guard_failure guard_pane_missing = needs_attention missing_pane
guard_failure (guard_failed reason) = needs_attention (guarded_operation_failed reason)

pub map_guarded_result : GuardedPaneResult → PaneRestoreOutcome → PaneRestoreOutcome
map_guarded_result (ok _) success = success
map_guarded_result (err failure) success = guard_failure failure

pub pane_outcome_is_partial : PaneRestoreOutcome → Bool
pane_outcome_is_partial (prepared_automatic_fallback_hint _) = true
pane_outcome_is_partial automatic_launch_failed_hint_prepared = true
pane_outcome_is_partial (recovered_automatically_with_prompt_needs_attention _) = true
pane_outcome_is_partial (needs_attention _) = true
pane_outcome_is_partial _ = false

pub prompt_for :
    AutomaticRecoveryExpectation
    → Option PlannedCodexPromptPaste
    → Option (CodexSessionId × CapturedCodexPromptArea)
prompt_for (expect_codex session_id) (some prompt) = some (session_id, prompt.input)
prompt_for _ _ = none

-- `PlannedAutomaticLaunch::codex_prompt`
pub prompt_request : PlannedAutomaticLaunch → Option (CodexSessionId × CapturedCodexPromptArea)
unfolding prompt_for
prompt_request launch = prompt_for launch.expected launch.codex_prompt

pub prompt_outcome : CodexPromptPasteResult → PaneRestoreOutcome
prompt_outcome (ok _) = recovered_automatically_with_prompt_prepared
prompt_outcome (err failure) = recovered_automatically_with_prompt_needs_attention failure

-- `RestoreRunResult::fatal`
pub fatal_result : RestoreExecutionFailure → RestoreTargetState → RestoreRunResult
fatal_result failure target_state = record {
  status = fatal;
  target_state = target_state;
  failure = some failure;
  panes = [];
}

abbrev pub is_retained : TargetDisposition → Bool
is_retained retained = true
is_retained _ = false

module _ {World : Type 0} (target : RestoreTarget World) (shell : TargetShell) where
  -- A guarded operation whose success is the outcome.
  pub guarded :
      SourcePaneCoordinate
      → GuardedPaneOperation
      → PaneRestoreOutcome
      → World
      → PaneRestoreOutcome × World
  guarded pane operation success world =
      let (result, after) = target.guarded_pane_operation pane shell operation world in
      (map_guarded_result result success, after)

  -- After the pane was seen to run the expected tool.
  pub paste_prompt :
      SourcePaneCoordinate
      → Option (CodexSessionId × CapturedCodexPromptArea)
      → World
      → PaneRestoreOutcome × World
  paste_prompt pane none world = (recovered_automatically, world)
  paste_prompt pane (some (expected, input)) world =
      let (result, after) = target.paste_codex_prompt_area pane expected input world in
      (prompt_outcome result, after)

  -- What follows the launch, by what the pane shows.
  pub after_observation :
      SourcePaneCoordinate
      → PlannedAutomaticLaunch
      → AutomaticPaneObservation
      → World
      → PaneRestoreOutcome × World
  after_observation pane launch seen_recovered world =
      paste_prompt pane (prompt_request launch) world
  after_observation pane launch seen_shell world =
      guarded pane (paste_literal launch.input.rendered) automatic_launch_failed_hint_prepared world
  after_observation pane launch seen_unexpected world =
      (needs_attention unexpected_foreground, world)
  after_observation pane launch seen_no_pane world = (needs_attention missing_pane, world)
  after_observation pane launch (seen_nothing reason) world =
      (needs_attention (automatic_observation_failed reason), world)

  pub after_launch :
      SourcePaneCoordinate
      → PlannedAutomaticLaunch
      → GuardedPaneResult
      → World
      → PaneRestoreOutcome × World
  after_launch pane launch (err failure) world = (guard_failure failure, world)
  after_launch pane launch (ok _) world =
      let (observation, after) = target.observe_automatic pane launch.expected world in
      after_observation pane launch observation after

  pub execute_automatic :
      SourcePaneCoordinate → PlannedAutomaticLaunch → World → PaneRestoreOutcome × World
  execute_automatic pane launch world =
      let (result, after) =
        target.guarded_pane_operation pane shell (launch_input launch.input) world in
      after_launch pane launch result after

  pub execute_action : SourcePaneCoordinate → PlannedPaneAction → World → PaneRestoreOutcome × World
  execute_action pane (leave_idle _) world = guarded pane verify_shell restored_idle_shell world
  execute_action pane (paste_manual_hint _ input) world =
      guarded pane (paste_literal input) prepared_manual_hint world
  execute_action pane (paste_automatic_fallback _ input reason) world =
      guarded pane (paste_literal input) (prepared_automatic_fallback_hint reason) world
  execute_action pane (no_input _ reason) world =
      (needs_attention (captured_recovery_unavailable reason), world)
  execute_action pane (launch_automatic launch) world = execute_automatic pane launch world

  pub execute_pane : PlannedPane → World → PaneRestoreOutcome × World
  execute_pane pane world = execute_action pane.coordinate pane.action world

  -- The `map` over the panes, in order, with whether one outcome is partial.
  pub execute_panes : List PlannedPane → World → (List PaneRestoreResult × Bool) × World
  execute_panes [] world = (([], false), world)
  execute_panes (pane ∷ panes) world =
      let (outcome, after) = execute_pane pane world in
      let ((results, some_partial), last) = execute_panes panes after in
      (
        (
          record { coordinate = pane.coordinate; outcome = outcome } ∷ results,
          pane_outcome_is_partial outcome || some_partial,
        ),
        last,
      )

pub rollback_result : TopologyFailure → RollbackOutcome → RestoreRunResult
rollback_result failure rollback_removed = fatal_result (topology_failed failure) (observed removed)
rollback_result failure (rollback_failed cleanup_failure) =
    fatal_result (topology_and_cleanup_failed failure cleanup_failure)
      (observed (target_disposition cleanup_failure.disposition))

-- `partial`, put together from its three places.
pub run_status : List PlanDegradation → Bool → TargetDisposition → RestoreRunStatus
run_status degradations some_partial disposition =
    if not (is_empty degradations) || some_partial || not (is_retained disposition)
    then partial
    else complete

module _ {World : Type 0} (target : RestoreTarget World) (plan : RestorePlan) where
  -- `owned.rollback()` after the topology failed.
  pub roll_back : TopologyFailure → World → RestoreRunResult × World
  roll_back failure world =
      let (outcome, after) = target.rollback world in (rollback_result failure outcome, after)

  -- From `owned.begin_recovery()` on.
  pub recover : World → RestoreRunResult × World
  recover world =
      let ((results, some_partial), ran) =
        execute_panes target plan.target_shell plan.panes (target.begin_recovery world) in
      let (disposition, after) = target.observe_disposition ran in
      (
        record {
          status = run_status plan.degradations some_partial disposition;
          target_state = observed disposition;
          failure = none;
          panes = results;
        },
        after,
      )

  pub after_topology : Result TopologyFailure (Unit {0}) → World → RestoreRunResult × World
  after_topology (err failure) world = roll_back failure world
  after_topology (ok _) world = recover world

  pub after_claim : Result TargetClaimFailure (Unit {0}) → World → RestoreRunResult × World
  after_claim (err failure) world =
      (fatal_result (target_claim_failed failure) failure.target_state, world)
  after_claim (ok _) world =
      let (created, after) = target.create_topology plan world in after_topology created after

  pub execute : World → RestoreRunResult × World
  execute world =
      let (claimed, after) = target.claim plan.destination plan.target_shell world in
      after_claim claimed after
