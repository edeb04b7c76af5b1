-- ===== src/Restore/Pane/Sound.antt =====
-- What the plan of one pane promises, and that `plan_pane` keeps it.
use tmux_rescue.Common.{
  >>=-eq-ok, All, Bool-cases, List, Option-cases, false, inl, inr, length, list_eq, none, num_eq,
  ok, ok-injective, refl, some, subst, true, ℕ, ◌∷◌, ◌≡◌, ◌≤◌,
}
use tmux_rescue.Std.Ascii.{IsPrintable}
use tmux_rescue.Std.Text.{Bytes, Text}
use tmux_rescue.Model.Codec.{Codecs}
use tmux_rescue.Model.Command.{CapturedCommand}
use tmux_rescue.Model.Name.{CaptureFailure}
use tmux_rescue.Model.OsString.{LosslessOsString, RecordedAbsolutePath}
use tmux_rescue.Model.Recovery.{
  AutomaticRecovery, PaneRecovery, automatic, idle, manual, unavailable,
}
use tmux_rescue.Model.Snapshot.{PaneSnapshot}
use tmux_rescue.Recovery.Command.{
  RecoveryCommand, arguments_of, derive_automatic_command, expectation_of,
}
use tmux_rescue.Restore.Pane.{
  Planned, codex_prompt_of, command_word, launch, new_launch, paste_fallback, plan_pane,
  plan_pane_action, render_launch_command, resolve_directory,
}
use tmux_rescue.Restore.Planned.{
  AutomaticFallbackReason, PlanDegradation, PlannedAutomaticLaunch, PlannedPane, PlannedPaneAction,
  ResolvedDirectory, RestoreEnvironment, executable_unavailable, launch_automatic, leave_idle,
  no_input, pane_directory_fallback, paste_automatic_fallback, paste_manual_hint, recorded,
  recorded_directory_unavailable, session_fallback,
}
use tmux_rescue.Restore.Render.{RenderedShellInput, max_rendered_shell_input_bytes, render_argv}
use tmux_rescue.Restore.Render.Line.{render_argv-IsPrintable, split_words-render_argv}
use tmux_rescue.Restore.Render.Quoting.{argv_bytes}
use tmux_rescue.Restore.Shell.{PlanningExecutable, SourcePaneCoordinate, TargetShell}
use tmux_rescue.Restore.ShellWords.{split_words}

-- The line has no ASCII control byte, is within the limit, and a shell reads these words in it.
pub record IsInput (words : List Bytes) (input : RenderedShellInput) : Type 0 where
  pub printable : All IsPrintable input.bytes
  pub fits : length input.bytes ≤ max_rendered_shell_input_bytes
  pub read_as : split_words input.bytes ≡ some words

module _ (codecs : Codecs) (env : RestoreEnvironment) where
  -- The pane's own directory if it exists, else the one of its session.
  pub data IsDirectory (session_directory : RecordedAbsolutePath) (pane : PaneSnapshot)
      (directory : ResolvedDirectory) : Type 0 where
    own :
        env.directory_exists pane.working_directory ≡ true
        → directory ≡ record { path = pane.working_directory; origin = recorded }
        → IsDirectory session_directory pane directory
    of_session :
        env.directory_exists pane.working_directory ≡ false
        → directory ≡ record { path = session_directory; origin = session_fallback }
        → IsDirectory session_directory pane directory

  abbrev derived : AutomaticRecovery → List LosslessOsString
  derived recovery = (derive_automatic_command codecs recovery).argv

  -- Started by itself: only in the pane's own directory, which exists, with the executable that
  -- the environment resolves there in place of the command word.
  pub record IsLaunch (pane : PaneSnapshot) (recovery : AutomaticRecovery)
      (launch : PlannedAutomaticLaunch) : Type 0 where
    pub directory_exists : env.directory_exists pane.working_directory ≡ true
    pub in_directory : launch.directory.path ≡ pane.working_directory
    pub resolved :
        env.resolve_executable pane.working_directory (command_word (derived recovery))
        ≡ some launch.input.executable
    pub proper_input :
        IsInput
          (launch.input.executable.path.path.bytes ∷ argv_bytes (arguments_of (derived recovery)))
          launch.input.rendered
    pub expects : launch.expected ≡ expectation_of recovery
    pub prompt : launch.codex_prompt ≡ codex_prompt_of recovery

  -- Why an automatic recovery is only pasted.
  abbrev pub IsReason : PaneSnapshot → AutomaticRecovery → AutomaticFallbackReason → Type 0
  IsReason pane recovery recorded_directory_unavailable =
      env.directory_exists pane.working_directory ≡ false
  IsReason pane recovery executable_unavailable =
      (env.directory_exists pane.working_directory ≡ true)
      × (env.resolve_executable pane.working_directory (command_word (derived recovery)) ≡ none)

  -- The action that belongs to a pane's recovery.
  pub data IsPlanned (session_directory : RecordedAbsolutePath) (pane : PaneSnapshot)
      : PaneRecovery → PlannedPaneAction → Type 0 where
    left_idle :
        {directory : ResolvedDirectory}
        → IsDirectory session_directory pane directory
        → IsPlanned session_directory pane idle (leave_idle directory)
    not_captured :
        {directory : ResolvedDirectory} {failure : CaptureFailure}
        → IsDirectory session_directory pane directory
        → IsPlanned session_directory pane (unavailable failure) (no_input directory failure)
    hinted :
        {directory : ResolvedDirectory} {input : RenderedShellInput} {command : CapturedCommand}
        → IsDirectory session_directory pane directory
        → IsInput (argv_bytes command.argv) input
        → IsPlanned session_directory pane (manual command) (paste_manual_hint directory input)
    launched :
        {recovery : AutomaticRecovery} {start : PlannedAutomaticLaunch}
        → IsLaunch pane recovery start
        → IsPlanned session_directory pane (automatic recovery) (launch_automatic start)
    fallen_back :
        {directory : ResolvedDirectory} {input : RenderedShellInput} {recovery : AutomaticRecovery}
        {reason : AutomaticFallbackReason}
        → IsDirectory session_directory pane directory
        → IsReason pane recovery reason
        → IsInput (argv_bytes (derived recovery)) input
        → IsPlanned session_directory pane
            (automatic recovery)
            (paste_automatic_fallback directory input reason)

module _ (codecs : Codecs) (env : RestoreEnvironment) (shell : TargetShell) where
  render_argv-IsInput :
      (argv : List LosslessOsString) (pane : SourcePaneCoordinate) (input : RenderedShellInput)
      → render_argv shell argv pane ≡ ok input
      → IsInput (argv_bytes argv) input
  render_argv-IsInput argv pane input h =
      let (printable, fits) = render_argv-IsPrintable shell argv pane input h in
      record {
        printable = printable;
        fits = fits;
        read_as = split_words-render_argv shell argv pane input h;
      }

  render_launch_command-IsInput :
      (command : RecoveryCommand) (executable : PlanningExecutable) (pane : SourcePaneCoordinate)
      (input : RenderedShellInput)
      → render_launch_command shell command executable pane ≡ ok input
      → IsInput (executable.path.path.bytes ∷ argv_bytes (arguments_of command.argv)) input
  unfolding render_launch_command
  render_launch_command-IsInput command executable pane input h =
      render_argv-IsInput (executable.path.path ∷ arguments_of command.argv) pane input h

  module _ (session_directory : RecordedAbsolutePath) (pane : PaneSnapshot)
      (coordinate : SourcePaneCoordinate) where
    abbrev IsPlannedBy : PaneRecovery → PlannedPaneAction × List PlanDegradation → Type 0
    IsPlannedBy recovery result = IsPlanned codecs env session_directory pane recovery result.0

    -- The last step of each branch: what it returns is what was asked for.
    planned_by :
        (recovery : PaneRecovery) {made result : PlannedPaneAction × List PlanDegradation}
        → ◌≡◌ {A = Planned PlannedPaneAction} (ok made) (ok result)
        → IsPlannedBy recovery made
        → IsPlannedBy recovery result
    planned_by recovery same = subst (IsPlannedBy recovery) (ok-injective same)

    fallback-IsPlanned :
        (recovery : AutomaticRecovery) (directory : ResolvedDirectory)
        (reason : AutomaticFallbackReason) (result : PlannedPaneAction × List PlanDegradation)
        → IsDirectory codecs env session_directory pane directory
        → IsReason codecs env pane recovery reason
        → paste_fallback codecs env shell
            (derive_automatic_command codecs recovery)
            directory
            coordinate
            reason
          ≡ ok result
        → IsPlannedBy (automatic recovery) result
    fallback-IsPlanned recovery directory reason result at why h =
        let command = derive_automatic_command codecs recovery in
        let (input, rendered, same) = >>=-eq-ok (render_argv shell command.argv coordinate) _ h in
        planned_by (automatic recovery) same
          (fallen_back at why (render_argv-IsInput command.argv coordinate input rendered))

    launch-IsPlanned :
        (recovery : AutomaticRecovery) (executable : PlanningExecutable)
        (result : PlannedPaneAction × List PlanDegradation)
        → env.directory_exists pane.working_directory ≡ true
        → env.resolve_executable pane.working_directory
            (command_word (derive_automatic_command codecs recovery).argv)
          ≡ some executable
        → launch codecs env shell
            (derive_automatic_command codecs recovery)
            (record { path = pane.working_directory; origin = recorded })
            coordinate
            recovery
            executable
          ≡ ok result
        → IsPlannedBy (automatic recovery) result
    unfolding new_launch
    launch-IsPlanned recovery executable result exists resolves h =
        let command = derive_automatic_command codecs recovery in
        let (input, rendered, same) =
          >>=-eq-ok (render_launch_command shell command executable coordinate) _ h in
        planned_by (automatic recovery) same (
          launched (record {
            directory_exists = exists;
            in_directory = refl;
            resolved = resolves;
            proper_input =
                render_launch_command-IsInput command executable coordinate input rendered;
            expects = refl;
            prompt = refl;
          }))

    abbrev own_directory : ResolvedDirectory
    own_directory = record { path = pane.working_directory; origin = recorded }

    at_directory :
        (recovery : AutomaticRecovery) (result : PlannedPaneAction × List PlanDegradation)
        {before after : ResolvedDirectory}
        → before ≡ after
        → plan_pane_action codecs env shell (automatic recovery) before coordinate ≡ ok result
        → plan_pane_action codecs env shell (automatic recovery) after coordinate ≡ ok result
    at_directory recovery result same h = rw same at h

    automatic-IsPlanned :
        (recovery : AutomaticRecovery) (directory : ResolvedDirectory)
        (result : PlannedPaneAction × List PlanDegradation)
        → IsDirectory codecs env session_directory pane directory
        → plan_pane_action codecs env shell (automatic recovery) directory coordinate ≡ ok result
        → IsPlannedBy (automatic recovery) result
    unfolding plan_pane_action
    automatic-IsPlanned recovery directory result (own exists same) h =
        let command = derive_automatic_command codecs recovery in
        let planned = at_directory recovery result same h in
        elim (Option-cases
          (env.resolve_executable pane.working_directory (command_word command.argv))) [
            | inl missing ↦
                fallback-IsPlanned recovery own_directory executable_unavailable result
                  (own exists refl) (exists, missing) (rw missing at planned)
            | inr (executable, found) ↦
                launch-IsPlanned recovery executable result exists found (rw found at planned)
          ]
    automatic-IsPlanned recovery directory result (of_session missing same) h =
        fallback-IsPlanned recovery (record { path = session_directory; origin = session_fallback })
          recorded_directory_unavailable result (of_session missing refl) missing
          (at_directory recovery result same h)

    plan_pane_action-IsPlanned :
        (recovery : PaneRecovery) (directory : ResolvedDirectory)
        (result : PlannedPaneAction × List PlanDegradation)
        → IsDirectory codecs env session_directory pane directory
        → plan_pane_action codecs env shell recovery directory coordinate ≡ ok result
        → IsPlannedBy recovery result
    unfolding plan_pane_action
    plan_pane_action-IsPlanned idle directory result at h = planned_by idle h (left_idle at)
    plan_pane_action-IsPlanned (unavailable failure) directory result at h =
        planned_by (unavailable failure) h (not_captured at)
    plan_pane_action-IsPlanned (manual command) directory result at h =
        let (input, rendered, same) = >>=-eq-ok (render_argv shell command.argv coordinate) _ h in
        planned_by (manual command) same
          (hinted at (render_argv-IsInput command.argv coordinate input rendered))
    plan_pane_action-IsPlanned (automatic recovery) directory result at h =
        automatic-IsPlanned recovery directory result at h

  resolve_directory-IsDirectory :
      (session_directory : RecordedAbsolutePath) (pane : PaneSnapshot)
      (degradation : PlanDegradation)
      → IsDirectory codecs env session_directory pane
          (resolve_directory codecs env shell pane.working_directory session_directory
            session_fallback degradation).0
  unfolding resolve_directory
  resolve_directory-IsDirectory session_directory pane degradation =
      elim (Bool-cases (env.directory_exists pane.working_directory)) [
        | inl exists ↦ own exists (rw exists)
        | inr missing ↦ of_session missing (rw missing)
      ]

  -- A planned pane stands where the snapshot's pane stood, and its action belongs to the recovery.
  abbrev pub IsPlannedPane : RecordedAbsolutePath → Text → ℕ → PaneSnapshot → PlannedPane → Type 0
  IsPlannedPane session_directory session_name window_index pane planned =
      IsPlanned codecs env session_directory pane pane.recovery planned.action
      × (planned.coordinate ≡ record {
        session_name = session_name;
        window_index = window_index;
        pane_index = pane.source_index;
      })

  pub plan_pane-IsPlanned :
      (session_directory : RecordedAbsolutePath) (session_name : Text) (window_index : ℕ)
      (pane : PaneSnapshot) (result : PlannedPane × List PlanDegradation)
      → plan_pane codecs env shell session_directory session_name window_index pane ≡ ok result
      → IsPlannedPane session_directory session_name window_index pane result.0
  unfolding plan_pane
  plan_pane-IsPlanned session_directory session_name window_index pane result h =
      let coordinate : SourcePaneCoordinate = record {
        session_name = session_name;
        window_index = window_index;
        pane_index = pane.source_index;
      } in
      let resolved =
        resolve_directory codecs env shell pane.working_directory session_directory session_fallback
          (pane_directory_fallback coordinate) in
      let at = resolve_directory-IsDirectory session_directory pane _ in
      let (planned, ran, same) =
        >>=-eq-ok (plan_pane_action codecs env shell pane.recovery resolved.0 coordinate) _ h in
      let sound =
        plan_pane_action-IsPlanned session_directory pane coordinate pane.recovery resolved.0
          planned at ran in
      subst (λ made. IsPlannedPane session_directory session_name window_index pane made.0)
        (ok-injective same) (sound, refl)
