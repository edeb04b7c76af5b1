-- ===== src/Restore/Plan.antt =====
-- `plan_restore`: the loops over sessions, windows and panes.
pub mod Sound
pub mod Whole
pub mod Returns
pub mod Tests
use tmux_rescue.Common.{
  List, Option, Result, [], err, if◌then◌else◌, list_eq, none, num_eq, ok, some, ◌++◌, ◌>>=◌, ◌>>◌,
  ◌∷◌,
}
use tmux_rescue.Std.Text.{Text, lit}
use tmux_rescue.Model.Codec.{Codecs}
use tmux_rescue.Model.OsString.{RecordedAbsolutePath}
use tmux_rescue.Model.Snapshot.{SessionSnapshot, ValidatedSnapshot, WindowSnapshot}
use tmux_rescue.Restore.Pane.{Planned, plan_panes, resolve_directory}
use tmux_rescue.Restore.Planned.{
  PlannedPane, PlannedSession, PlannedWindow, RestoreDestination, RestoreEnvironment, RestorePlan,
  coordinates, home_fallback, session_directory_fallback,
}
use tmux_rescue.Restore.Shell.{RestorePlanningError, TargetShell, environment}
use tmux_rescue.Selector.{TmuxSelector, socket_path}

-- The windows and panes planned for a part of the snapshot.
abbrev pub PlannedPart : Type 0 → Type 0
PlannedPart A = Planned (A × List PlannedPane)

module _ (codecs : Codecs) (env : RestoreEnvironment) (shell : TargetShell) where
  pub plan_window : RecordedAbsolutePath → Text → WindowSnapshot → PlannedPart PlannedWindow
  plan_window session_directory session_name window = do
    panes ←
        plan_panes codecs env shell session_directory session_name window.source_index window.panes
    ok (
      (
        record {
          source_index = window.source_index;
          name = window.name;
          pane_coordinates = coordinates panes.0;
        },
        panes.0,
      ),
      panes.1,
    )

  pub plan_windows :
      RecordedAbsolutePath → Text → List WindowSnapshot → PlannedPart (List PlannedWindow)
  plan_windows session_directory session_name [] = ok (([], []), [])
  plan_windows session_directory session_name (window ∷ windows) = do
    first ← plan_window session_directory session_name window
    rest ← plan_windows session_directory session_name windows
    ok ((first.0.0 ∷ rest.0.0, first.0.1 ++ rest.0.1), first.1 ++ rest.1)

  module _ (home : RecordedAbsolutePath) where
    pub plan_session : SessionSnapshot → PlannedPart PlannedSession
    plan_session session = do
      let resolved =
          resolve_directory codecs env shell session.working_directory home home_fallback
            (session_directory_fallback session.name)
      windows ← plan_windows resolved.0.path session.name session.windows
      ok (
        (
          record { name = session.name; directory = resolved.0; windows = windows.0.0 },
          windows.0.1,
        ),
        resolved.1 ++ windows.1,
      )

    pub plan_sessions : List SessionSnapshot → PlannedPart (List PlannedSession)
    plan_sessions [] = ok (([], []), [])
    plan_sessions (session ∷ sessions) = do
      first ← plan_session session
      rest ← plan_sessions sessions
      ok ((first.0.0 ∷ rest.0.0, first.0.1 ++ rest.0.1), first.1 ++ rest.1)

-- `explicit_selector.unwrap_or_else(…)`
pub destination_of :
    {Instant : Type 0} → ValidatedSnapshot Instant → Option TmuxSelector → RestoreDestination
destination_of snapshot (some selector) = record { selector = selector }
destination_of snapshot none = record { selector = socket_path snapshot.source.path.path.bytes }

-- `map_err(|error| RestorePlanningError::Environment(error.to_string()))`
abbrev pub or_environment : {A : Type 0} → Result Text A → Result RestorePlanningError A
or_environment (ok a) = ok a
or_environment (err message) = err (environment message)

module _ {Instant : Type 0} (codecs : Codecs) (env : RestoreEnvironment) where
  pub plan_restore :
      ValidatedSnapshot Instant → Option TmuxSelector → Result RestorePlanningError RestorePlan
  plan_restore snapshot explicit_selector = do
    target_shell ← or_environment env.target_shell
    home ← or_environment env.home_directory
    planned ←
        if env.directory_exists home
        then plan_sessions codecs env target_shell home snapshot.sessions
        else err (environment (lit "effective user home directory does not exist"))
    ok (record {
      destination = destination_of snapshot explicit_selector;
      target_shell = target_shell;
      sessions = planned.0.0;
      panes = planned.0.1;
      degradations = planned.1;
    })
