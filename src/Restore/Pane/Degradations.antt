-- ===== src/Restore/Pane/Degradations.antt =====
-- Which degradations the plan of a pane reports, told from the environment alone.
use tmux_rescue.Common.{
  >>=-eq-ok, Bool-cases, List, Option-cases, [], false, if◌then◌else◌, inl, inr, list_eq, none,
  num_eq, ok, ok-injective, refl, some, true, ℕ, ◌++◌, ◌∷◌, ◌≡◌,
}
use tmux_rescue.Std.Text.{Text}
use tmux_rescue.Model.Codec.{Codecs}
use tmux_rescue.Model.OsString.{RecordedAbsolutePath}
use tmux_rescue.Model.Recovery.{
  AutomaticRecovery, PaneRecovery, automatic, idle, manual, unavailable,
}
use tmux_rescue.Model.Snapshot.{PaneSnapshot}
use tmux_rescue.Recovery.Command.{RecoveryCommand, derive_automatic_command}
use tmux_rescue.Restore.Pane.{
  command_word, launch, paste_fallback, plan_pane, plan_pane_action, render_launch_command,
  resolve_directory,
}
use tmux_rescue.Restore.Planned.{
  AutomaticFallbackReason, PlanDegradation, PlannedPane, PlannedPaneAction, ResolvedDirectory,
  RestoreEnvironment, automatic_recovery_fallback, executable_unavailable, pane_directory_fallback,
  recorded, recorded_directory_unavailable, session_fallback,
}
use tmux_rescue.Restore.Render.{render_argv}
use tmux_rescue.Restore.Shell.{PlanningExecutable, SourcePaneCoordinate, TargetShell}

module _ (codecs : Codecs) (env : RestoreEnvironment) where
  -- The executable of an automatic recovery is missing, or its directory is.
  abbrev pub recovery_degradations :
      SourcePaneCoordinate → RecordedAbsolutePath → PaneRecovery → List PlanDegradation
  recovery_degradations coordinate directory (automatic recovery) =
      if env.directory_exists directory
      then (elim (env.resolve_executable directory
          (command_word (derive_automatic_command codecs recovery).argv)) [
            | none ↦ automatic_recovery_fallback coordinate executable_unavailable ∷ []
            | some _ ↦ []
          ])
      else automatic_recovery_fallback coordinate recorded_directory_unavailable ∷ []
  recovery_degradations coordinate directory _ = []

  abbrev pub directory_degradations :
      SourcePaneCoordinate → RecordedAbsolutePath → List PlanDegradation
  directory_degradations coordinate directory =
      if env.directory_exists directory then [] else pane_directory_fallback coordinate ∷ []

  abbrev pub pane_degradations : SourcePaneCoordinate → PaneSnapshot → List PlanDegradation
  pane_degradations coordinate pane =
      directory_degradations coordinate pane.working_directory
      ++ recovery_degradations coordinate pane.working_directory pane.recovery

module _ (codecs : Codecs) (env : RestoreEnvironment) (shell : TargetShell)
    (coordinate : SourcePaneCoordinate) where
  paste_fallback-degradations :
      (command : RecoveryCommand) (directory : ResolvedDirectory) (reason : AutomaticFallbackReason)
      (result : PlannedPaneAction × List PlanDegradation)
      → paste_fallback codecs env shell command directory coordinate reason ≡ ok result
      → result.1 ≡ automatic_recovery_fallback coordinate reason ∷ []
  paste_fallback-degradations command directory reason result h =
      let (_, _, same) = >>=-eq-ok (render_argv shell command.argv coordinate) _ h in
      rw (← ok-injective same) refl

  launch-degradations :
      (command : RecoveryCommand) (directory : ResolvedDirectory) (recovery : AutomaticRecovery)
      (executable : PlanningExecutable) (result : PlannedPaneAction × List PlanDegradation)
      → launch codecs env shell command directory coordinate recovery executable ≡ ok result
      → result.1 ≡ []
  launch-degradations command directory recovery executable result h =
      let (_, _, same) =
        >>=-eq-ok (render_launch_command shell command executable coordinate) _ h in
      rw (← ok-injective same) refl

  own-degradations :
      (path : RecordedAbsolutePath) (recovery : PaneRecovery)
      (result : PlannedPaneAction × List PlanDegradation)
      → env.directory_exists path ≡ true
      → plan_pane_action codecs env shell recovery
          (record { path = path; origin = recorded })
          coordinate
        ≡ ok result
      → result.1 ≡ recovery_degradations codecs env coordinate path recovery
  unfolding plan_pane_action
  own-degradations path idle result exists h = rw (← ok-injective h) refl
  own-degradations path (unavailable failure) result exists h = rw (← ok-injective h) refl
  own-degradations path (manual command) result exists h =
      let (_, _, same) = >>=-eq-ok (render_argv shell command.argv coordinate) _ h in
      rw (← ok-injective same) refl
  own-degradations path (automatic recovery) result exists h =
      let command = derive_automatic_command codecs recovery in
      let directory : ResolvedDirectory = record { path = path; origin = recorded } in
      elim (Option-cases (env.resolve_executable path (command_word command.argv))) [
        | inl missing ↦
            rw (exists, missing)
              (paste_fallback-degradations command directory executable_unavailable result
                (rw missing at h))
        | inr (executable, found) ↦
            rw (exists, found)
              (launch-degradations command directory recovery executable result (rw found at h))
      ]

  fallback-degradations :
      (path other : RecordedAbsolutePath) (recovery : PaneRecovery)
      (result : PlannedPaneAction × List PlanDegradation)
      → env.directory_exists path ≡ false
      → plan_pane_action codecs env shell recovery
          (record { path = other; origin = session_fallback })
          coordinate
        ≡ ok result
      → result.1 ≡ recovery_degradations codecs env coordinate path recovery
  unfolding plan_pane_action
  fallback-degradations path other idle result missing h = rw (← ok-injective h) refl
  fallback-degradations path other (unavailable failure) result missing h =
      rw (← ok-injective h) refl
  fallback-degradations path other (manual command) result missing h =
      let (_, _, same) = >>=-eq-ok (render_argv shell command.argv coordinate) _ h in
      rw (← ok-injective same) refl
  fallback-degradations path other (automatic recovery) result missing h = rw missing (
      paste_fallback-degradations (derive_automatic_command codecs recovery) _
        recorded_directory_unavailable result h)

  pub resolved-degradations :
      (session_directory : RecordedAbsolutePath) (pane : PaneSnapshot)
      (result : PlannedPaneAction × List PlanDegradation)
      → plan_pane_action codecs env shell pane.recovery
          (resolve_directory codecs env shell pane.working_directory session_directory
            session_fallback
            (pane_directory_fallback coordinate)).0
          coordinate
        ≡ ok result
      → (resolve_directory codecs env shell pane.working_directory session_directory
            session_fallback
            (pane_directory_fallback coordinate)).1
          ++ result.1
        ≡ pane_degradations codecs env coordinate pane
  unfolding resolve_directory
  resolved-degradations session_directory pane result h =
      elim (Bool-cases (env.directory_exists pane.working_directory)) [
        | inl exists ↦
            rw
              (
                own-degradations pane.working_directory pane.recovery result exists
                    (rw exists at h),
                exists,
              )
              refl
        | inr missing ↦
            rw
              (
                fallback-degradations pane.working_directory session_directory pane.recovery result
                    missing (rw missing at h),
                missing,
              )
              refl
      ]

pub plan_pane-degradations :
    (codecs : Codecs) (env : RestoreEnvironment) (shell : TargetShell)
    (session_directory : RecordedAbsolutePath) (session_name : Text) (window_index : ℕ)
    (pane : PaneSnapshot) (result : PlannedPane × List PlanDegradation)
    → plan_pane codecs env shell session_directory session_name window_index pane ≡ ok result
    → result.1
      ≡ pane_degradations codecs env
          (record {
            session_name = session_name;
            window_index = window_index;
            pane_index = pane.source_index;
          })
          pane
unfolding plan_pane
plan_pane-degradations codecs env shell session_directory session_name window_index pane result h =
    let coordinate : SourcePaneCoordinate = record {
      session_name = session_name;
      window_index = window_index;
      pane_index = pane.source_index;
    } in
    let resolved =
      resolve_directory codecs env shell pane.working_directory session_directory session_fallback
        (pane_directory_fallback coordinate) in
    let (planned, ran, same) =
      >>=-eq-ok (plan_pane_action codecs env shell pane.recovery resolved.0 coordinate) _ h in
    rw (← ok-injective same)
      (resolved-degradations codecs env shell coordinate session_directory pane planned ran)
