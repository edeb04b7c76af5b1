-- ===== src/Restore/Execute/PaneRuns.antt =====
-- The calls that are made for the panes are those that `IsPaneTrace` allows.
use tmux_rescue.Common.{
  Bool, List, Option, [], ap, append-nil, append_assoc, err, false, inl, inr, list_eq, none, num_eq,
  ok, refl, some, ◌++◌, ◌||◌, ◌∙◌, ◌∷◌, ◌≡◌, ◌⊎◌,
}
use tmux_rescue.Model.Name.{CapturedCodexPromptArea}
use tmux_rescue.Model.Recovery.{CodexSessionId}
use tmux_rescue.Recovery.Command.{
  AutomaticRecoveryExpectation, expect_bookshelf_serve, expect_claude_code, expect_codex,
  expect_md_book_serve,
}
use tmux_rescue.Restore.Execute.{
  after_launch, after_observation, execute_action, execute_automatic, execute_pane, execute_panes,
  guarded, pane_outcome_is_partial, paste_prompt, prompt_for, prompt_outcome, prompt_request,
}
use tmux_rescue.Restore.Execute.Trace.{
  Event, IsPaneTrace, IsPanesTrace, Recorded, fallback_pasted, hint_pasted, idle_checked,
  launch_failed, launch_refused, launched_and_recovered, left_alone, looked, next_pane, no_panes,
  nothing_seen, operated, other_seen, pane_lost, prompt_pasted, prompt_refused, prompted, recording,
}
use tmux_rescue.Restore.Pane.{launch}
use tmux_rescue.Restore.Planned.{
  PlannedAutomaticLaunch, PlannedCodexPromptPaste, PlannedPane, PlannedPaneAction, launch_automatic,
  leave_idle, no_input, paste_automatic_fallback, paste_manual_hint,
}
use tmux_rescue.Restore.Shell.{SourcePaneCoordinate, TargetShell}
use tmux_rescue.Restore.Target.{
  AutomaticPaneObservation, CodexPromptPasteResult, GuardedPaneResult, PaneRestoreResult,
  RestoreTarget, launch_input, seen_no_pane, seen_nothing, seen_recovered, seen_shell,
  seen_unexpected,
}
use tmux_rescue.Selector.{flag}

-- The run adds these calls to those noted before.
abbrev pub Adds :
    {World A : Type 0} → List Event → (A → List Event → Type 0) → A × Recorded World → Type 0
Adds before IsAllowed (answer, (world, after)) =
    (added : List Event) × (after ≡ before ++ added) × IsAllowed answer added

prompt_request-cases :
    (launch : PlannedAutomaticLaunch)
    → (prompt_request launch ≡ none)
      ⊎ ((session_id : CodexSessionId) × (input : CapturedCodexPromptArea) × (prompt_request launch
            ≡ some (session_id, input))
          × (launch.expected ≡ expect_codex session_id)
          × (launch.codex_prompt ≡ some (record { input = input })))
unfolding prompt_request prompt_for
prompt_request-cases launch = go launch.expected launch.codex_prompt refl refl
  where
    go :
        (expected : AutomaticRecoveryExpectation) (prompt : Option PlannedCodexPromptPaste)
        → launch.expected ≡ expected
        → launch.codex_prompt ≡ prompt
        → (prompt_request launch ≡ none)
          ⊎ ((session_id : CodexSessionId) × (input : CapturedCodexPromptArea) × (prompt_request
                  launch
                ≡ some (session_id, input))
              × (launch.expected ≡ expect_codex session_id)
              × (launch.codex_prompt ≡ some (record { input = input })))
    go (expect_codex session_id) (some prompt) p q =
        inr (session_id, prompt.input, rw (p, q) refl, p, q)
    go (expect_codex session_id) none p q = inl (rw (p, q) refl)
    go (expect_claude_code session_id) prompt p q = inl (rw p refl)
    go (expect_md_book_serve command) prompt p q = inl (rw p refl)
    go (expect_bookshelf_serve command) prompt p q = inl (rw p refl)

module _ {World : Type 0} (target : RestoreTarget World) (shell : TargetShell)
    (pane : SourcePaneCoordinate) where
  prompted-IsPaneTrace :
      (launch : PlannedAutomaticLaunch) (session_id : CodexSessionId)
      (input : CapturedCodexPromptArea)
      → launch.expected ≡ expect_codex session_id
      → launch.codex_prompt ≡ some (record { input = input })
      → (result : CodexPromptPasteResult)
      → IsPaneTrace shell pane (launch_automatic launch) (prompt_outcome result) (
          operated pane shell (launch_input launch.input) (ok tt)
          ∷ looked pane launch.expected seen_recovered
          ∷ prompted pane session_id input result
          ∷ [])
  unfolding prompt_outcome
  prompted-IsPaneTrace launch session_id input expects prompt (ok _) = prompt_pasted expects prompt
  prompted-IsPaneTrace launch session_id input expects prompt (err failure) =
      prompt_refused failure expects prompt

  paste_prompt-Adds :
      (launch : PlannedAutomaticLaunch) (world : World) (before : List Event)
      → Adds before
          (λ outcome added. IsPaneTrace shell pane (launch_automatic launch) outcome (
            operated pane shell (launch_input launch.input) (ok tt)
            ∷ looked pane launch.expected seen_recovered
            ∷ added))
          (paste_prompt (recording target) shell pane (prompt_request launch) (world, before))
  unfolding paste_prompt
  paste_prompt-Adds launch world before = elim (prompt_request-cases launch) [
    | inl nothing ↦ rw nothing ([], rw append-nil refl, launched_and_recovered nothing)
    | inr (session_id, input, asked, expects, prompt) ↦
        rw asked (_ ∷ [], refl, prompted-IsPaneTrace launch session_id input expects prompt _)
  ]

  after_observation-Adds :
      (launch : PlannedAutomaticLaunch) (observation : AutomaticPaneObservation) (world : World)
      (before : List Event)
      → Adds before
          (λ outcome added. IsPaneTrace shell pane (launch_automatic launch) outcome (
            operated pane shell (launch_input launch.input) (ok tt)
            ∷ looked pane launch.expected observation
            ∷ added))
          (after_observation (recording target) shell pane launch observation (world, before))
  unfolding after_observation guarded
  after_observation-Adds launch seen_recovered world before = paste_prompt-Adds launch world before
  after_observation-Adds launch seen_shell world before = (_ ∷ [], refl, launch_failed _)
  after_observation-Adds launch seen_unexpected world before = ([], rw append-nil refl, other_seen)
  after_observation-Adds launch seen_no_pane world before = ([], rw append-nil refl, pane_lost)
  after_observation-Adds launch (seen_nothing reason) world before =
      ([], rw append-nil refl, nothing_seen reason)

  after_launch-Adds :
      (launch : PlannedAutomaticLaunch) (result : GuardedPaneResult) (world : World)
      (before : List Event)
      → Adds before
          (λ outcome added.
            IsPaneTrace shell pane
              (launch_automatic launch)
              outcome
              (operated pane shell (launch_input launch.input) result ∷ added))
          (after_launch (recording target) shell pane launch result (world, before))
  unfolding after_launch
  after_launch-Adds launch (err failure) world before =
      ([], rw append-nil refl, launch_refused failure)
  after_launch-Adds launch (ok _) world before =
      let seen = target.observe_automatic pane launch.expected world in
      let (added, more, allowed) =
        after_observation-Adds launch seen.0 seen.1
          (before ++ looked pane launch.expected seen.0 ∷ []) in
      (looked pane launch.expected seen.0 ∷ added, more ∙ append_assoc before _ added, allowed)

  execute_action-Adds :
      (action : PlannedPaneAction) (world : World) (before : List Event)
      → Adds before
          (IsPaneTrace shell pane action)
          (execute_action (recording target) shell pane action (world, before))
  unfolding execute_action execute_automatic guarded
  execute_action-Adds (leave_idle directory) world before = (_ ∷ [], refl, idle_checked _)
  execute_action-Adds (paste_manual_hint directory input) world before =
      (_ ∷ [], refl, hint_pasted _)
  execute_action-Adds (paste_automatic_fallback directory input reason) world before =
      (_ ∷ [], refl, fallback_pasted _)
  execute_action-Adds (no_input directory reason) world before =
      ([], rw append-nil refl, left_alone)
  execute_action-Adds (launch_automatic launch) world before =
      let answer = target.guarded_pane_operation pane shell (launch_input launch.input) world in
      let event = operated pane shell (launch_input launch.input) answer.0 in
      let (added, more, allowed) =
        after_launch-Adds launch answer.0 answer.1 (before ++ event ∷ []) in
      (event ∷ added, more ∙ append_assoc before _ added, allowed)

-- Some outcome needs more work.
abbrev pub some_partial_in : List PaneRestoreResult → Bool
some_partial_in [] = false
some_partial_in (result ∷ results) =
    pane_outcome_is_partial result.outcome || some_partial_in results

abbrev pub IsPanesRun :
    TargetShell → List PlannedPane → List PaneRestoreResult × Bool → List Event → Type 0
IsPanesRun shell panes (results, some_partial) added =
    IsPanesTrace shell panes results added × (some_partial ≡ some_partial_in results)

module _ {World : Type 0} (target : RestoreTarget World) where
  pub execute_panes-Adds :
      (shell : TargetShell) (panes : List PlannedPane) (world : World) (before : List Event)
      → Adds before
          (IsPanesRun shell panes)
          (execute_panes (recording target) shell panes (world, before))
  unfolding execute_panes execute_pane
  execute_panes-Adds shell [] world before = ([], rw append-nil refl, (no_panes, refl))
  execute_panes-Adds shell (pane ∷ panes) world before =
      let start =
        execute_action (recording target) shell pane.coordinate pane.action (world, before) in
      let (first, more, allowed) =
        execute_action-Adds target shell pane.coordinate pane.action world before in
      let (rest, more_then, (allowed_then, flag)) =
        execute_panes-Adds shell panes start.1.0 start.1.1 in
      (
        first ++ rest,
        more_then ∙ ap (λ events. events ++ rest) more ∙ append_assoc before first rest,
        (next_pane allowed allowed_then, rw flag refl),
      )
