-- ===== src/Restore/Plan/Sound.antt =====
-- What a whole plan promises: each pane, window and session of the snapshot, in order.
use tmux_rescue.Common.{
  >>=-eq-ok, List, Pairwise, Pairwise-append, [], and_then, append_assoc, if◌then◌else◌, list_eq,
  map, none_left, num_eq, ok, ok-injective, refl, subst, ℕ, ◌++◌, ◌∷◌, ◌≡◌,
}
use tmux_rescue.Std.Text.{Text}
use tmux_rescue.Model.Codec.{Codecs}
use tmux_rescue.Model.OsString.{RecordedAbsolutePath}
use tmux_rescue.Model.Snapshot.{PaneSnapshot, SessionSnapshot, WindowSnapshot}
use tmux_rescue.Restore.Pane.{plan_pane, plan_panes}
use tmux_rescue.Restore.Pane.Degradations.{pane_degradations, plan_pane-degradations}
use tmux_rescue.Restore.Pane.Sound.{IsPlannedPane, plan_pane-IsPlanned}
use tmux_rescue.Restore.Plan.{plan_window, plan_windows}
use tmux_rescue.Restore.Planned.{
  PlanDegradation, PlannedPane, PlannedSession, PlannedWindow, ResolvedDirectory,
  RestoreEnvironment, coordinates, home_fallback, recorded, session_directory_fallback,
}
use tmux_rescue.Restore.Shell.{SourcePaneCoordinate, TargetShell}

-- A pane of the snapshot, with what the loops around it know.
pub record SourcePane : Type 0 where
  pub directory : RecordedAbsolutePath
  pub session_name : Text
  pub window_index : ℕ
  pub pane : PaneSnapshot

abbrev pub coordinate_of : SourcePane → SourcePaneCoordinate
coordinate_of source = record {
  session_name = source.session_name;
  window_index = source.window_index;
  pane_index = source.pane.source_index;
}

abbrev pub flatten {ℓ} : {A B : Type ℓ} → (A → List B) → List A → List B
flatten f [] = []
flatten f (x ∷ xs) = f x ++ flatten f xs

module _ (directory : RecordedAbsolutePath) (name : Text) where
  abbrev pub sources_of : ℕ → List PaneSnapshot → List SourcePane
  sources_of index [] = []
  sources_of index (pane ∷ panes) =
      record { directory = directory; session_name = name; window_index = index; pane = pane }
      ∷ sources_of index panes

  abbrev pub window_panes : WindowSnapshot → List SourcePane
  window_panes window = sources_of window.source_index window.panes

  abbrev pub window_of : WindowSnapshot → PlannedWindow
  window_of window = record {
    source_index = window.source_index;
    name = window.name;
    pane_coordinates = map coordinate_of (window_panes window);
  }

module _ (env : RestoreEnvironment) where
  abbrev pub missing_session_directory : SessionSnapshot → List PlanDegradation
  missing_session_directory session =
      if env.directory_exists session.working_directory
      then []
      else session_directory_fallback session.name ∷ []

module _ (env : RestoreEnvironment) (home : RecordedAbsolutePath) where
  -- The session's own directory if it exists, else the home directory.
  abbrev pub session_directory : SessionSnapshot → ResolvedDirectory
  session_directory session =
      if env.directory_exists session.working_directory
      then record { path = session.working_directory; origin = recorded }
      else record { path = home; origin = home_fallback }

  abbrev pub session_panes : SessionSnapshot → List SourcePane
  session_panes session =
      flatten (window_panes (session_directory session).path session.name) session.windows

  abbrev pub session_of : SessionSnapshot → PlannedSession
  session_of session = record {
    name = session.name;
    directory = session_directory session;
    windows = map (window_of (session_directory session).path session.name) session.windows;
  }

module _ (codecs : Codecs) (env : RestoreEnvironment) where
  abbrev pub source_degradations : SourcePane → List PlanDegradation
  source_degradations source = pane_degradations codecs env (coordinate_of source) source.pane

  abbrev pub session_degradations : RecordedAbsolutePath → SessionSnapshot → List PlanDegradation
  session_degradations home session =
      missing_session_directory env session
      ++ flatten source_degradations (session_panes env home session)

  module _ (shell : TargetShell) where
    abbrev pub IsSourcePlanned : SourcePane → PlannedPane → Type 0
    IsSourcePlanned source =
        IsPlannedPane codecs env shell source.directory source.session_name source.window_index
          source.pane

    -- A part of a plan: what it makes, the panes it plans, and what it reports.
    pub record IsPart {A : Type 0} (made : A) (sources : List SourcePane)
        (reports : List PlanDegradation) (result : (A × List PlannedPane) × List PlanDegradation)
        : Type 0 where
      pub makes : result.0.0 ≡ made
      pub plans : Pairwise IsSourcePlanned sources result.0.1
      pub degrades : result.1 ≡ reports

pub flatten-append {ℓ} :
    {A B : Type ℓ} (f : A → List B) (xs ys : List A)
    → flatten f (xs ++ ys) ≡ flatten f xs ++ flatten f ys
flatten-append f [] ys = refl
flatten-append f (x ∷ xs) ys = rw (flatten-append f xs ys, append_assoc) refl

module _ (codecs : Codecs) (env : RestoreEnvironment) (shell : TargetShell) where
  coordinates-IsSourcePlanned :
      {sources : List SourcePane} {panes : List PlannedPane}
      → Pairwise (IsSourcePlanned codecs env shell) sources panes
      → coordinates panes ≡ map coordinate_of sources
  coordinates-IsSourcePlanned none_left = refl
  coordinates-IsSourcePlanned (and_then first rest) =
      rw (first.1, coordinates-IsSourcePlanned rest) refl

  abbrev ArePlanned : List SourcePane → List PlannedPane × List PlanDegradation → Type 0
  ArePlanned sources result =
      Pairwise (IsSourcePlanned codecs env shell) sources result.0
      × (result.1 ≡ flatten (source_degradations codecs env) sources)

  plan_panes-ArePlanned :
      (directory : RecordedAbsolutePath) (name : Text) (index : ℕ) (panes : List PaneSnapshot)
      (result : List PlannedPane × List PlanDegradation)
      → plan_panes codecs env shell directory name index panes ≡ ok result
      → ArePlanned (sources_of directory name index panes) result
  unfolding plan_panes
  plan_panes-ArePlanned directory name index [] result h =
      subst (ArePlanned []) (ok-injective h) (none_left, refl)
  plan_panes-ArePlanned directory name index (pane ∷ panes) result h =
      let (first, ran, k) = >>=-eq-ok (plan_pane codecs env shell directory name index pane) _ h in
      let (rest, ran_rest, same) =
        >>=-eq-ok (plan_panes codecs env shell directory name index panes) _ k in
      let (plans, degrades) = plan_panes-ArePlanned directory name index panes rest ran_rest in
      let planned = plan_pane-IsPlanned codecs env shell directory name index pane first ran in
      let reported = plan_pane-degradations codecs env shell directory name index pane first ran in
      subst (ArePlanned (sources_of directory name index (pane ∷ panes))) (ok-injective same)
        (and_then planned plans, rw (reported, degrades) refl)

  module _ (directory : RecordedAbsolutePath) (name : Text) where
    plan_window-IsPart :
        (window : WindowSnapshot)
        (result : (PlannedWindow × List PlannedPane) × List PlanDegradation)
        → plan_window codecs env shell directory name window ≡ ok result
        → IsPart codecs env shell
            (window_of directory name window)
            (window_panes directory name window)
            (flatten (source_degradations codecs env) (window_panes directory name window))
            result
    unfolding plan_window
    plan_window-IsPart window result h =
        let (panes, ran, same) =
          >>=-eq-ok (plan_panes codecs env shell directory name window.source_index window.panes) _
            h in
        let (plans, degrades) =
          plan_panes-ArePlanned directory name window.source_index window.panes panes ran in
        subst
          (IsPart codecs env shell (window_of directory name window)
            (window_panes directory name window)
            (flatten (source_degradations codecs env) (window_panes directory name window)))
          (ok-injective same)
          (record {
            makes = rw (coordinates-IsSourcePlanned plans) refl;
            plans = plans;
            degrades = degrades;
          })

    pub plan_windows-IsPart :
        (windows : List WindowSnapshot)
        (result : (List PlannedWindow × List PlannedPane) × List PlanDegradation)
        → plan_windows codecs env shell directory name windows ≡ ok result
        → IsPart codecs env shell
            (map (window_of directory name) windows)
            (flatten (window_panes directory name) windows)
            (flatten
              (source_degradations codecs env)
              (flatten (window_panes directory name) windows))
            result
    unfolding plan_windows
    plan_windows-IsPart [] result h =
        subst (IsPart codecs env shell [] [] []) (ok-injective h)
          (record { makes = refl; plans = none_left; degrades = refl })
    plan_windows-IsPart (window ∷ windows) result h =
        let (first, ran, k) = >>=-eq-ok (plan_window codecs env shell directory name window) _ h in
        let (rest, ran_rest, same) =
          >>=-eq-ok (plan_windows codecs env shell directory name windows) _ k in
        let part = plan_window-IsPart window first ran in
        let parts = plan_windows-IsPart windows rest ran_rest in
        subst
          (IsPart codecs env shell (map (window_of directory name) (window ∷ windows))
            (flatten (window_panes directory name) (window ∷ windows))
            (flatten (source_degradations codecs env)
              (flatten (window_panes directory name) (window ∷ windows))))
          (ok-injective same)
          (record {
            makes = rw (part.makes, parts.makes) refl;
            plans = Pairwise-append part.plans parts.plans;
            degrades =
                rw
                  (
                    part.degrades,
                    parts.degrades,
                    flatten-append (source_degradations codecs env)
                        (window_panes directory name window)
                        (flatten (window_panes directory name) windows),
                  )
                  refl;
          })
