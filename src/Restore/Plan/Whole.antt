-- ===== src/Restore/Plan/Whole.antt =====
-- What a plan made by `plan_restore` promises of every session, window and pane of its snapshot.
use tmux_rescue.Common.{
  >>=-eq-ok, Bool-cases, List, Option, Pairwise, Pairwise-append, Result, [], ap, err, if-eq-ok,
  if◌then◌else◌, inl, inr, list_eq, map, none_left, num_eq, ok, ok-injective, refl, subst, true,
  ◌∷◌, ◌≡◌,
}
use tmux_rescue.Std.Text.{Text, lit}
use tmux_rescue.Model.Codec.{Codecs}
use tmux_rescue.Model.OsString.{RecordedAbsolutePath}
use tmux_rescue.Model.Snapshot.{SessionSnapshot, ValidatedSnapshot}
use tmux_rescue.Restore.Pane.{resolve_directory}
use tmux_rescue.Restore.Plan.{
  destination_of, or_environment, plan_restore, plan_session, plan_sessions, plan_windows,
}
use tmux_rescue.Restore.Plan.Sound.{
  IsPart, IsSourcePlanned, flatten, missing_session_directory, plan_windows-IsPart,
  session_degradations, session_directory, session_of, session_panes,
}
use tmux_rescue.Restore.Planned.{
  PlanDegradation, PlannedPane, PlannedSession, RestoreEnvironment, RestorePlan, home_fallback,
  session_directory_fallback,
}
use tmux_rescue.Restore.Shell.{TargetShell, environment}
use tmux_rescue.Selector.{TmuxSelector}

module _ (codecs : Codecs) (env : RestoreEnvironment) (shell : TargetShell)
    (home : RecordedAbsolutePath) where
  resolve_session_directory :
      (session : SessionSnapshot)
      → ((resolve_directory codecs env shell session.working_directory home home_fallback
            (session_directory_fallback session.name)).0
          ≡ session_directory env home session)
        × ((resolve_directory codecs env shell session.working_directory home home_fallback
              (session_directory_fallback session.name)).1
            ≡ missing_session_directory env session)
  unfolding resolve_directory
  resolve_session_directory session =
      elim (Bool-cases (env.directory_exists session.working_directory)) [
        | inl exists ↦ (rw exists refl, rw exists refl)
        | inr missing ↦ (rw missing refl, rw missing refl)
      ]

  abbrev IsSessionPart :
      SessionSnapshot → (PlannedSession × List PlannedPane) × List PlanDegradation → Type 0
  IsSessionPart session =
      IsPart codecs env shell (session_of env home session) (session_panes env home session)
        (session_degradations codecs env home session)

  plan_session-IsPart :
      (session : SessionSnapshot)
      (result : (PlannedSession × List PlannedPane) × List PlanDegradation)
      → plan_session codecs env shell home session ≡ ok result
      → IsSessionPart session result
  unfolding plan_session
  plan_session-IsPart session result h =
      let resolved =
        resolve_directory codecs env shell session.working_directory home home_fallback
          (session_directory_fallback session.name) in
      let (directory, reports) = resolve_session_directory session in
      let (windows, ran, same) =
        >>=-eq-ok (plan_windows codecs env shell resolved.0.path session.name session.windows) _
          h in
      let ran_there = rw (ap (λ there. there.path) directory) at ran in
      let part =
        plan_windows-IsPart codecs env shell (session_directory env home session).path session.name
          session.windows windows ran_there in
      subst (IsSessionPart session) (ok-injective same) (record {
        makes = rw (directory, part.makes) refl;
        plans = part.plans;
        degrades = rw (reports, part.degrades) refl;
      })

  plan_sessions-IsPart :
      (sessions : List SessionSnapshot)
      (result : (List PlannedSession × List PlannedPane) × List PlanDegradation)
      → plan_sessions codecs env shell home sessions ≡ ok result
      → IsPart codecs env shell
          (map (session_of env home) sessions)
          (flatten (session_panes env home) sessions)
          (flatten (session_degradations codecs env home) sessions)
          result
  unfolding plan_sessions
  plan_sessions-IsPart [] result h =
      subst (IsPart codecs env shell [] [] []) (ok-injective h)
        (record { makes = refl; plans = none_left; degrades = refl })
  plan_sessions-IsPart (session ∷ sessions) result h =
      let (first, ran, k) = >>=-eq-ok (plan_session codecs env shell home session) _ h in
      let (rest, ran_rest, same) = >>=-eq-ok (plan_sessions codecs env shell home sessions) _ k in
      let part = plan_session-IsPart session first ran in
      let parts = plan_sessions-IsPart sessions rest ran_rest in
      subst
        (IsPart codecs env shell (map (session_of env home) (session ∷ sessions))
          (flatten (session_panes env home) (session ∷ sessions))
          (flatten (session_degradations codecs env home) (session ∷ sessions)))
        (ok-injective same)
        (record {
          makes = rw (part.makes, parts.makes) refl;
          plans = Pairwise-append part.plans parts.plans;
          degrades = rw (part.degrades, parts.degrades) refl;
        })

or_environment-eq-ok :
    {A : Type 0} (result : Result Text A) (a : A) → or_environment result ≡ ok a → result ≡ ok a
or_environment-eq-ok (ok b) a h = rw (ok-injective h) refl
or_environment-eq-ok (err message) a h = cc

module _ {Instant : Type 0} (codecs : Codecs) (env : RestoreEnvironment) where
  -- What a plan for a snapshot is, told without its loops.
  pub record IsPlanFor (snapshot : ValidatedSnapshot Instant) (selector : Option TmuxSelector)
      (plan : RestorePlan) : Type 0 where
    pub home : RecordedAbsolutePath
    pub is_home : env.home_directory ≡ ok home
    pub home_exists : env.directory_exists home ≡ true
    pub for_shell : env.target_shell ≡ ok plan.target_shell
    pub sent_to : plan.destination ≡ destination_of snapshot selector
    pub makes_sessions : plan.sessions ≡ map (session_of env home) snapshot.sessions
    pub plans_panes :
        Pairwise
          (IsSourcePlanned codecs env plan.target_shell)
          (flatten (session_panes env home) snapshot.sessions)
          plan.panes
    pub reports :
        plan.degradations ≡ flatten (session_degradations codecs env home) snapshot.sessions

  -- A plan that `plan_restore` returns has every session, window and pane of the snapshot, in the
  -- snapshot's order and under its names and indexes; each pane's action belongs to its captured
  -- recovery, each directory is the recorded one if it exists, else the session's or home, and the
  -- reported degradations are those that the environment makes necessary, and no other.
  pub plan_restore-IsPlanFor :
      (snapshot : ValidatedSnapshot Instant) (selector : Option TmuxSelector) (plan : RestorePlan)
      → plan_restore codecs env snapshot selector ≡ ok plan
      → IsPlanFor snapshot selector plan
  unfolding plan_restore
  plan_restore-IsPlanFor snapshot selector plan h =
      let (shell, found_shell, h₁) = >>=-eq-ok (or_environment env.target_shell) _ h in
      let (home, found_home, h₂) = >>=-eq-ok (or_environment env.home_directory) _ h₁ in
      let (planned, ran, same) =
        >>=-eq-ok
          (if env.directory_exists home
            then plan_sessions codecs env shell home snapshot.sessions
            else err (environment (lit "effective user home directory does not exist")))
          _ h₂ in
      let (exists, ran_there) = if-eq-ok (env.directory_exists home) _ _ ran in
      let part = plan_sessions-IsPart codecs env shell home snapshot.sessions planned ran_there in
      subst (IsPlanFor snapshot selector) (ok-injective same) (record {
        home = home;
        is_home = or_environment-eq-ok env.home_directory home found_home;
        home_exists = exists;
        for_shell = or_environment-eq-ok env.target_shell shell found_shell;
        sent_to = refl;
        makes_sessions = part.makes;
        plans_panes = part.plans;
        reports = part.degrades;
      })
