-- ===== src/Restore/Execute/Trace.antt =====
-- The calls that a run makes on its target, with their answers, and the runs that are allowed.
use tmux_rescue.Common.{
  All, List, Result, [], err, false, list_eq, none, num_eq, ok, some, ◌++◌, ◌↔◌, ◌∷◌, ◌≡◌, ◌⊎◌,
}
use tmux_rescue.Std.Text.{Text}
use tmux_rescue.Model.Name.{CaptureFailure, CapturedCodexPromptArea}
use tmux_rescue.Model.Recovery.{CodexSessionId}
use tmux_rescue.Recovery.Command.{AutomaticRecoveryExpectation, expect_codex}
use tmux_rescue.Restore.Execute.{
  fatal_result, guard_failure, map_guarded_result, pane_outcome_is_partial, prompt_request,
}
use tmux_rescue.Restore.Planned.{
  AutomaticFallbackReason, PlannedAutomaticLaunch, PlannedPane, PlannedPaneAction,
  ResolvedDirectory, RestorePlan, launch_automatic, leave_idle, no_input, paste_automatic_fallback,
  paste_manual_hint,
}
use tmux_rescue.Restore.Render.{RenderedShellInput}
use tmux_rescue.Restore.Shell.{SourcePaneCoordinate, TargetShell}
use tmux_rescue.Restore.Target.{
  AutomaticPaneObservation, CodexPromptPasteFailure, CodexPromptPasteResult, GuardedPaneFailure,
  GuardedPaneOperation, GuardedPaneResult, PaneRestoreOutcome, PaneRestoreResult, RestoreRunResult,
  RestoreRunStatus, RestoreTarget, RollbackFailure, RollbackOutcome, TargetClaimFailure,
  TargetDisposition, TopologyFailure, automatic_launch_failed_hint_prepared,
  automatic_observation_failed, captured_recovery_unavailable, complete, launch_input, missing_pane,
  needs_attention, observed, partial, paste_literal, prepared_automatic_fallback_hint,
  prepared_manual_hint, recovered_automatically,
  recovered_automatically_with_prompt_needs_attention, recovered_automatically_with_prompt_prepared,
  removed, restored_idle_shell, retained, rollback_failed, rollback_removed, seen_no_pane,
  seen_nothing, seen_recovered, seen_shell, seen_unexpected, target_claim_failed,
  target_disposition, topology_and_cleanup_failed, topology_failed, unexpected_foreground,
  verify_shell,
}

pub data Event : Type 0 where
  claimed : Result TargetClaimFailure (Unit {0}) → Event
  topology : Result TopologyFailure (Unit {0}) → Event
  rolled_back : RollbackOutcome → Event
  recovery_began : Event
  operated : SourcePaneCoordinate → TargetShell → GuardedPaneOperation → GuardedPaneResult → Event
  looked : SourcePaneCoordinate → AutomaticRecoveryExpectation → AutomaticPaneObservation → Event
  prompted :
      SourcePaneCoordinate
      → CodexSessionId
      → CapturedCodexPromptArea
      → CodexPromptPasteResult
      → Event
  disposed : TargetDisposition → Event

abbrev pub Recorded : Type 0 → Type 0
Recorded World = World × List Event

abbrev pub note : {World A : Type 0} → (A → Event) → List Event → A × World → A × Recorded World
note event events (a, world) = (a, (world, events ++ event a ∷ []))

-- The same target, which also writes down each call.
abbrev pub recording : {World : Type 0} → RestoreTarget World → RestoreTarget (Recorded World)
recording target = record {
  claim = λ destination shell recorded.
      note claimed recorded.1 (target.claim destination shell recorded.0);
  create_topology =
      λ plan recorded. note topology recorded.1 (target.create_topology plan recorded.0);
  rollback = λ recorded. note rolled_back recorded.1 (target.rollback recorded.0);
  begin_recovery =
      λ recorded. (target.begin_recovery recorded.0, recorded.1 ++ recovery_began ∷ []);
  guarded_pane_operation = λ pane shell operation recorded.
      note (operated pane shell operation) recorded.1
        (target.guarded_pane_operation pane shell operation recorded.0);
  observe_automatic = λ pane expected recorded.
      note (looked pane expected) recorded.1 (target.observe_automatic pane expected recorded.0);
  paste_codex_prompt_area = λ pane expected input recorded.
      note (prompted pane expected input) recorded.1
        (target.paste_codex_prompt_area pane expected input recorded.0);
  observe_disposition =
      λ recorded. note disposed recorded.1 (target.observe_disposition recorded.0);
}

-- The calls for one pane, after its action, with the outcome that they justify.
pub data IsPaneTrace (shell : TargetShell) (pane : SourcePaneCoordinate)
    : PlannedPaneAction → PaneRestoreOutcome → List Event → Type 0 where
  idle_checked :
      {directory : ResolvedDirectory} (result : GuardedPaneResult)
      → IsPaneTrace shell pane
          (leave_idle directory)
          (map_guarded_result result restored_idle_shell)
          (operated pane shell verify_shell result ∷ [])
  hint_pasted :
      {directory : ResolvedDirectory} {input : RenderedShellInput} (result : GuardedPaneResult)
      → IsPaneTrace shell pane
          (paste_manual_hint directory input)
          (map_guarded_result result prepared_manual_hint)
          (operated pane shell (paste_literal input) result ∷ [])
  fallback_pasted :
      {directory : ResolvedDirectory} {input : RenderedShellInput}
      {reason : AutomaticFallbackReason} (result : GuardedPaneResult)
      → IsPaneTrace shell pane
          (paste_automatic_fallback directory input reason)
          (map_guarded_result result (prepared_automatic_fallback_hint reason))
          (operated pane shell (paste_literal input) result ∷ [])
  left_alone :
      {directory : ResolvedDirectory} {reason : CaptureFailure}
      → IsPaneTrace shell pane
          (no_input directory reason)
          (needs_attention (captured_recovery_unavailable reason))
          []
  launch_refused :
      {launch : PlannedAutomaticLaunch} (failure : GuardedPaneFailure)
      → IsPaneTrace shell pane
          (launch_automatic launch)
          (guard_failure failure)
          (operated pane shell (launch_input launch.input) (err failure) ∷ [])
  launched_and_recovered :
      {launch : PlannedAutomaticLaunch}
      → prompt_request launch ≡ none
      → IsPaneTrace shell pane (launch_automatic launch) recovered_automatically (
          operated pane shell (launch_input launch.input) (ok tt)
          ∷ looked pane launch.expected seen_recovered
          ∷ [])
  prompt_pasted :
      {launch : PlannedAutomaticLaunch} {session_id : CodexSessionId}
      {input : CapturedCodexPromptArea}
      → launch.expected ≡ expect_codex session_id
      → launch.codex_prompt ≡ some (record { input = input })
      → IsPaneTrace shell pane
          (launch_automatic launch)
          recovered_automatically_with_prompt_prepared
          (operated pane shell (launch_input launch.input) (ok tt)
            ∷ looked pane launch.expected seen_recovered
            ∷ prompted pane session_id input (ok tt)
            ∷ [])
  prompt_refused :
      {launch : PlannedAutomaticLaunch} {session_id : CodexSessionId}
      {input : CapturedCodexPromptArea} (failure : CodexPromptPasteFailure)
      → launch.expected ≡ expect_codex session_id
      → launch.codex_prompt ≡ some (record { input = input })
      → IsPaneTrace shell pane
          (launch_automatic launch)
          (recovered_automatically_with_prompt_needs_attention failure)
          (operated pane shell (launch_input launch.input) (ok tt)
            ∷ looked pane launch.expected seen_recovered
            ∷ prompted pane session_id input (err failure)
            ∷ [])
  launch_failed :
      {launch : PlannedAutomaticLaunch} (result : GuardedPaneResult)
      → IsPaneTrace shell pane
          (launch_automatic launch)
          (map_guarded_result result automatic_launch_failed_hint_prepared)
          (operated pane shell (launch_input launch.input) (ok tt)
            ∷ looked pane launch.expected seen_shell
            ∷ operated pane shell (paste_literal launch.input.rendered) result
            ∷ [])
  other_seen :
      {launch : PlannedAutomaticLaunch}
      → IsPaneTrace shell pane (launch_automatic launch) (needs_attention unexpected_foreground) (
          operated pane shell (launch_input launch.input) (ok tt)
          ∷ looked pane launch.expected seen_unexpected
          ∷ [])
  pane_lost :
      {launch : PlannedAutomaticLaunch}
      → IsPaneTrace shell pane (launch_automatic launch) (needs_attention missing_pane) (
          operated pane shell (launch_input launch.input) (ok tt)
          ∷ looked pane launch.expected seen_no_pane
          ∷ [])
  nothing_seen :
      {launch : PlannedAutomaticLaunch} (reason : Text)
      → IsPaneTrace shell pane
          (launch_automatic launch)
          (needs_attention (automatic_observation_failed reason))
          (operated pane shell (launch_input launch.input) (ok tt)
            ∷ looked pane launch.expected (seen_nothing reason)
            ∷ [])

-- The calls for the panes, pane after pane, in the plan's order, each with its result.
pub data IsPanesTrace (shell : TargetShell)
    : List PlannedPane → List PaneRestoreResult → List Event → Type 0 where
  no_panes : IsPanesTrace shell [] [] []
  next_pane :
      {pane : PlannedPane} {panes : List PlannedPane} {outcome : PaneRestoreOutcome}
      {results : List PaneRestoreResult} {events rest : List Event}
      → IsPaneTrace shell pane.coordinate pane.action outcome events
      → IsPanesTrace shell panes results rest
      → IsPanesTrace shell
          (pane ∷ panes)
          (record { coordinate = pane.coordinate; outcome = outcome } ∷ results)
          (events ++ rest)

-- A run is complete if nothing was degraded, no pane needs more work and the target was kept.
pub record IsComplete (plan : RestorePlan) (results : List PaneRestoreResult)
    (disposition : TargetDisposition) : Type 0 where
  pub undegraded : plan.degradations ≡ []
  pub all_done :
      All (λ result. pane_outcome_is_partial (PaneRestoreResult.outcome result) ≡ false) results
  pub kept : disposition ≡ retained

-- The calls of a whole run, with its result: a claim; if it succeeds the topology; if that fails
-- a rollback and nothing else; else the panes, and what became of the target.
pub data IsRunTrace (plan : RestorePlan) : RestoreRunResult → List Event → Type 0 where
  claim_refused :
      (failure : TargetClaimFailure)
      → IsRunTrace plan
          (fatal_result (target_claim_failed failure) failure.target_state)
          (claimed (err failure) ∷ [])
  cleaned_up :
      (failure : TopologyFailure)
      → IsRunTrace plan
          (fatal_result (topology_failed failure) (observed removed))
          (claimed (ok tt) ∷ topology (err failure) ∷ rolled_back rollback_removed ∷ [])
  not_cleaned_up :
      (failure : TopologyFailure) (cleanup : RollbackFailure)
      → IsRunTrace plan
          (fatal_result
            (topology_and_cleanup_failed failure cleanup)
            (observed (target_disposition cleanup.disposition)))
          (claimed (ok tt) ∷ topology (err failure) ∷ rolled_back (rollback_failed cleanup) ∷ [])
  ran :
      {status : RestoreRunStatus} {results : List PaneRestoreResult} {events : List Event}
      (disposition : TargetDisposition)
      → IsPanesTrace plan.target_shell plan.panes results events
      → (status ≡ complete) ⊎ (status ≡ partial)
      → (status ≡ complete) ↔ IsComplete plan results disposition
      → IsRunTrace plan
          (record {
            status = status;
            target_state = observed disposition;
            failure = none;
            panes = results;
          })
          (claimed (ok tt) ∷ topology (ok tt) ∷ recovery_began ∷ events
            ++ disposed disposition ∷ [])
