-- ===== src/Restore/Execute/Status.antt =====
-- When a run is complete.
use tmux_rescue.Common.{
  All, Bool, List, [], false, inl, inr, list_eq, num_eq, or-eq-false, refl, sym, true, ◌↔◌, ◌∙◌,
  ◌∷◌, ◌≡◌, ◌⊎◌,
}
use tmux_rescue.Restore.Execute.{pane_outcome_is_partial, run_status}
use tmux_rescue.Restore.Execute.PaneRuns.{some_partial_in}
use tmux_rescue.Restore.Execute.Trace.{IsComplete}
use tmux_rescue.Restore.Planned.{PlanDegradation, RestorePlan}
use tmux_rescue.Restore.Target.{
  PaneRestoreResult, TargetDisposition, complete, missing, partial, removed, retained, unknown,
}
use tmux_rescue.Selector.{flag}

finished_iff :
    (results : List PaneRestoreResult)
    → (some_partial_in results ≡ false)
      ↔ All (λ result. pane_outcome_is_partial (PaneRestoreResult.outcome result) ≡ false) results
finished_iff [] = (λ h. tt, λ h. refl)
finished_iff (result ∷ results) =
    let (done, none_partial) = finished_iff results in
    (
      λ h. let (here, later) = or-eq-false _ _ h in (here, done later),
      λ h. rw (h.0) (none_partial h.1),
    )

pub status_cases :
    (degradations : List PlanDegradation) (flag : Bool) (disposition : TargetDisposition)
    → (run_status degradations flag disposition ≡ complete)
      ⊎ (run_status degradations flag disposition ≡ partial)
unfolding run_status
status_cases [] true disposition = inr refl
status_cases [] false removed = inr refl
status_cases [] false retained = inl refl
status_cases [] false missing = inr refl
status_cases [] false unknown = inr refl
status_cases (degradation ∷ degradations) flag disposition = inr refl

status_complete :
    (degradations : List PlanDegradation) (flag : Bool) (disposition : TargetDisposition)
    → (run_status degradations flag disposition ≡ complete)
      ↔ ((degradations ≡ []) × (flag ≡ false) × (disposition ≡ retained))
unfolding run_status
status_complete [] true disposition = (λ h. cc, λ h. cc)
status_complete [] false removed = (λ h. cc, λ h. cc)
status_complete [] false retained = (λ h. (refl, refl, refl), λ h. refl)
status_complete [] false missing = (λ h. cc, λ h. cc)
status_complete [] false unknown = (λ h. cc, λ h. cc)
status_complete (degradation ∷ degradations) flag disposition = (λ h. cc, λ h. cc)

pub complete_iff :
    (plan : RestorePlan) (results : List PaneRestoreResult) (flag : Bool)
    (disposition : TargetDisposition)
    → flag ≡ some_partial_in results
    → (run_status plan.degradations flag disposition ≡ complete)
      ↔ IsComplete plan results disposition
complete_iff plan results flag disposition same =
    let (from_status, to_status) = status_complete plan.degradations flag disposition in
    let (done, none_partial) = finished_iff results in
    (
      λ h.
          let (undegraded, none_flag, kept) = from_status h in
          record { undegraded = undegraded; all_done = done (sym same ∙ none_flag); kept = kept },
      λ h. to_status (h.undegraded, same ∙ none_partial h.all_done, h.kept),
    )
