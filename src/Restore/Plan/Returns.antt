-- ===== src/Restore/Plan/Returns.antt =====
-- When `plan_restore` returns a plan: each command that it may have to render can be rendered.
use tmux_rescue.Common.{
  All, Bool, Bool-cases, List, Option, Option-cases, Result, [], ap, err, false, if◌then◌else◌, inl,
  inr, length, list_eq, num_eq, ok, refl, some, true, ℕ, ◌>>=◌, ◌∷◌, ◌≡◌, ◌≤◌,
}
use tmux_rescue.Std.Text.{Text}
use tmux_rescue.Model.Codec.{Codecs}
use tmux_rescue.Model.OsString.{LosslessOsString, RecordedAbsolutePath}
use tmux_rescue.Model.Recovery.{PaneRecovery, automatic, idle, manual, unavailable}
use tmux_rescue.Model.Snapshot.{PaneSnapshot, SessionSnapshot, ValidatedSnapshot, WindowSnapshot}
use tmux_rescue.Recovery.Command.{arguments_of, derive_automatic_command}
use tmux_rescue.Restore.Pane.{
  command_word, plan_pane, plan_pane_action, plan_panes, render_launch_command, resolve_directory,
}
use tmux_rescue.Restore.Plan.{
  or_environment, plan_restore, plan_session, plan_sessions, plan_window, plan_windows,
}
use tmux_rescue.Restore.Planned.{RestoreEnvironment, RestorePlan, recorded, session_fallback}
use tmux_rescue.Restore.Render.{max_rendered_shell_input_bytes, render_argv}
use tmux_rescue.Restore.Render.Line.{IsClean, render_argv-eq-ok_iff}
use tmux_rescue.Restore.Render.Quoting.{joined}
use tmux_rescue.Restore.Shell.{
  PlanningExecutable, RestorePlanningError, SourcePaneCoordinate, TargetShell,
}
use tmux_rescue.Selector.{TmuxSelector}

abbrev Returns : {A : Type 0} → Result RestorePlanningError A → Type 0
Returns {A = A} m = (a : A) × (m ≡ ok a)

bind-Returns :
    {A B : Type 0} (m : Result RestorePlanningError A) (f : A → Result RestorePlanningError B)
    → Returns m
    → ((a : A) → Returns (f a))
    → Returns (m >>= f)
bind-Returns m f (a, gave) rest = rw gave (rest a)

bind_at :
    {A B : Type 0} (m : Result RestorePlanningError A) (f : A → Result RestorePlanningError B)
    (a : A)
    → m ≡ ok a
    → Returns (f a)
    → Returns (m >>= f)
bind_at m f a gave rest = rw gave rest

if-Returns :
    {A : Type 0} (test : Bool) (m : Result RestorePlanningError A) (error : RestorePlanningError)
    → test ≡ true
    → Returns m
    → Returns (if test then m else err error)
if-Returns true m error h rest = rest
if-Returns false m error h rest = cc

-- Without terminal controls, and within the size limit as a line.
abbrev pub IsRenderable : List LosslessOsString → Type 0
IsRenderable argv = IsClean argv × (length (joined 0 argv) ≤ max_rendered_shell_input_bytes)

module _ (codecs : Codecs) (env : RestoreEnvironment) where
  -- What may be rendered for a pane: a captured command, or a derived one, also under the path of
  -- the executable that is found for it.
  abbrev pub HasRenderable : RecordedAbsolutePath → PaneRecovery → Type 0
  HasRenderable directory (manual command) = IsRenderable command.argv
  HasRenderable directory (automatic recovery) =
      let derived = (derive_automatic_command codecs recovery).argv in
      IsRenderable derived
      × ((executable : PlanningExecutable)
          → env.resolve_executable directory (command_word derived) ≡ some executable
          → IsRenderable (executable.path.path ∷ arguments_of derived))
  HasRenderable directory _ = Unit

  abbrev pub HasRenderablePanes : List PaneSnapshot → Type 0
  HasRenderablePanes =
      All (λ pane. HasRenderable (PaneSnapshot.working_directory pane) (PaneSnapshot.recovery pane))

  module _ (shell : TargetShell) where
    action-Returns :
        (coordinate : SourcePaneCoordinate) (path : RecordedAbsolutePath) (recovery : PaneRecovery)
        → HasRenderable path recovery
        → Returns (
            plan_pane_action codecs env shell recovery
              (record { path = path; origin = recorded })
              coordinate)
    unfolding plan_pane_action render_launch_command
    action-Returns coordinate path idle h = (_, refl)
    action-Returns coordinate path (unavailable failure) h = (_, refl)
    action-Returns coordinate path (manual command) h =
        bind-Returns (render_argv shell command.argv coordinate) _
          ((render_argv-eq-ok_iff shell command.argv coordinate).1 h) (λ input. (_, refl))
    action-Returns coordinate path (automatic recovery) (h, found_too) =
        let derived = (derive_automatic_command codecs recovery).argv in
        elim (Option-cases (env.resolve_executable path (command_word derived))) [
          | inl absent ↦ rw absent (
              bind-Returns (render_argv shell derived coordinate) _
                ((render_argv-eq-ok_iff shell derived coordinate).1 h) (λ input. (_, refl)))
          | inr (executable, found) ↦
              let words = executable.path.path ∷ arguments_of derived in
              rw found (
                bind-Returns (render_argv shell words coordinate) _
                  ((render_argv-eq-ok_iff shell words coordinate).1 (found_too executable found))
                  (λ input. (_, refl)))
        ]

    fallback-Returns :
        (coordinate : SourcePaneCoordinate) (path other : RecordedAbsolutePath)
        (recovery : PaneRecovery)
        → HasRenderable path recovery
        → Returns (
            plan_pane_action codecs env shell recovery
              (record { path = other; origin = session_fallback })
              coordinate)
    unfolding plan_pane_action
    fallback-Returns coordinate path other idle h = (_, refl)
    fallback-Returns coordinate path other (unavailable failure) h = (_, refl)
    fallback-Returns coordinate path other (manual command) h =
        bind-Returns (render_argv shell command.argv coordinate) _
          ((render_argv-eq-ok_iff shell command.argv coordinate).1 h) (λ input. (_, refl))
    fallback-Returns coordinate path other (automatic recovery) (h, _) =
        let derived = (derive_automatic_command codecs recovery).argv in
        bind-Returns (render_argv shell derived coordinate) _
          ((render_argv-eq-ok_iff shell derived coordinate).1 h) (λ input. (_, refl))

    module _ (session_directory : RecordedAbsolutePath) (session_name : Text) where
      pane-Returns :
          (index : ℕ) (pane : PaneSnapshot)
          → HasRenderable pane.working_directory pane.recovery
          → Returns (plan_pane codecs env shell session_directory session_name index pane)
      unfolding plan_pane resolve_directory
      pane-Returns index pane h = elim (Bool-cases (env.directory_exists pane.working_directory)) [
        | inl exists ↦ rw exists (
            bind-Returns _ _ (action-Returns _ pane.working_directory pane.recovery h)
              (λ planned. (_, refl)))
        | inr gone ↦ rw gone (
            bind-Returns _ _
              (fallback-Returns _ pane.working_directory session_directory pane.recovery h)
              (λ planned. (_, refl)))
      ]

      panes-Returns :
          (index : ℕ) (panes : List PaneSnapshot)
          → HasRenderablePanes panes
          → Returns (plan_panes codecs env shell session_directory session_name index panes)
      unfolding plan_panes
      panes-Returns index [] h = (_, refl)
      panes-Returns index (pane ∷ panes) (here, later) =
          bind-Returns _ _ (pane-Returns index pane here)
            (λ first. bind-Returns _ _ (panes-Returns index panes later) (λ rest. (_, refl)))

      windows-Returns :
          (windows : List WindowSnapshot)
          → All (λ window. HasRenderablePanes (WindowSnapshot.panes window)) windows
          → Returns (plan_windows codecs env shell session_directory session_name windows)
      unfolding plan_windows plan_window
      windows-Returns [] h = (_, refl)
      windows-Returns (window ∷ windows) (here, later) =
          bind-Returns _ _
            (bind-Returns _ _ (panes-Returns window.source_index window.panes here)
              (λ panes. (_, refl)))
            (λ first. bind-Returns _ _ (windows-Returns windows later) (λ rest. (_, refl)))

    sessions-Returns :
        (home : RecordedAbsolutePath) (sessions : List SessionSnapshot)
        → All
            (λ session.
              All
                (λ window. HasRenderablePanes (WindowSnapshot.panes window))
                (SessionSnapshot.windows session))
            sessions
        → Returns (plan_sessions codecs env shell home sessions)
    unfolding plan_sessions plan_session
    sessions-Returns home [] h = (_, refl)
    sessions-Returns home (session ∷ sessions) (here, later) =
        bind-Returns _ _
          (bind-Returns _ _ (windows-Returns _ session.name session.windows here)
            (λ windows. (_, refl)))
          (λ first. bind-Returns _ _ (sessions-Returns home sessions later) (λ rest. (_, refl)))

-- `plan_restore` returns a plan if the environment names a target shell and an existing home
-- directory, and if each captured or derived command can be rendered, a derived one also under the
-- path of the executable that is found for it.
pub plan_restore-Returns :
    {Instant : Type 0} (codecs : Codecs) (env : RestoreEnvironment)
    (snapshot : ValidatedSnapshot Instant) (selector : Option TmuxSelector) (shell : TargetShell)
    (home : RecordedAbsolutePath)
    → env.target_shell ≡ ok shell
    → env.home_directory ≡ ok home
    → env.directory_exists home ≡ true
    → All
        (λ session.
          All
            (λ window. HasRenderablePanes codecs env (WindowSnapshot.panes window))
            (SessionSnapshot.windows session))
        snapshot.sessions
    → (plan : RestorePlan) × (plan_restore codecs env snapshot selector ≡ ok plan)
unfolding plan_restore
plan_restore-Returns codecs env snapshot selector shell home found_shell found_home exists h =
    bind_at (or_environment env.target_shell) _ shell (ap or_environment found_shell) (
      bind_at (or_environment env.home_directory) _ home (ap or_environment found_home) (
        bind-Returns _ _
          (if-Returns (env.directory_exists home) _ _ exists
            (sessions-Returns codecs env shell home snapshot.sessions h))
          (λ planned. (_, refl))))
