-- ===== src/Restore/Execute/Protocol.antt =====
-- Every run keeps the protocol of `IsRunTrace`, whatever the target answers.
use tmux_rescue.Common.{Result, [], err, list_eq, none, num_eq, ok, subst, sym, ◌++◌, ◌∷◌}
use tmux_rescue.Restore.Execute.{
  after_claim, after_topology, execute, execute_panes, recover, roll_back, rollback_result,
  run_status,
}
use tmux_rescue.Restore.Execute.PaneRuns.{execute_panes-Adds}
use tmux_rescue.Restore.Execute.Status.{complete_iff, status_cases}
use tmux_rescue.Restore.Execute.Trace.{
  IsRunTrace, Recorded, claim_refused, claimed, cleaned_up, disposed, not_cleaned_up, ran,
  recording, recovery_began, rolled_back, topology,
}
use tmux_rescue.Restore.Planned.{RestorePlan}
use tmux_rescue.Restore.Target.{
  RestoreRunResult, RestoreTarget, RollbackOutcome, TargetClaimFailure, TopologyFailure, observed,
  rollback_failed, rollback_removed,
}
use tmux_rescue.Selector.{flag}

-- A run, and the calls noted at its end.
abbrev IsRun : {World : Type 0} → RestorePlan → RestoreRunResult × Recorded World → Type 0
IsRun plan (result, (world, events)) = IsRunTrace plan result events

module _ {World : Type 0} (target : RestoreTarget World) (plan : RestorePlan) where
  recover-IsRunTrace :
      (world : World)
      → IsRun plan
          (recover (recording target) plan (world, claimed (ok tt) ∷ topology (ok tt) ∷ []))
  unfolding recover
  recover-IsRunTrace world =
      let begun : Recorded World =
        (target.begin_recovery world, claimed (ok tt) ∷ topology (ok tt) ∷ recovery_began ∷ []) in
      let ((results, flag), (after, noted)) =
        execute_panes (recording target) plan.target_shell plan.panes begun in
      let disposition = (target.observe_disposition after).0 in
      let (added, more, (trace, same)) =
        execute_panes-Adds target plan.target_shell plan.panes begun.0 begun.1 in
      subst
        (λ events.
          IsRunTrace plan
            (record {
              status = run_status plan.degradations flag disposition;
              target_state = observed disposition;
              failure = none;
              panes = results;
            })
            (events ++ disposed disposition ∷ []))
        (sym more)
        (ran disposition trace (status_cases plan.degradations flag disposition)
          (complete_iff plan results flag disposition same))

  rollback_result-IsRunTrace :
      (failure : TopologyFailure) (outcome : RollbackOutcome)
      → IsRunTrace plan
          (rollback_result failure outcome)
          (claimed (ok tt) ∷ topology (err failure) ∷ rolled_back outcome ∷ [])
  unfolding rollback_result
  rollback_result-IsRunTrace failure rollback_removed = cleaned_up failure
  rollback_result-IsRunTrace failure (rollback_failed cleanup) = not_cleaned_up failure cleanup

  after_topology-IsRunTrace :
      (created : Result TopologyFailure (Unit {0})) (world : World)
      → IsRun plan (
          after_topology
            (recording target)
            plan
            created
            (world, claimed (ok tt) ∷ topology created ∷ []))
  unfolding after_topology roll_back
  after_topology-IsRunTrace (ok _) world = recover-IsRunTrace world
  after_topology-IsRunTrace (err failure) world =
      rollback_result-IsRunTrace failure (target.rollback world).0

  after_claim-IsRunTrace :
      (answer : Result TargetClaimFailure (Unit {0})) (world : World)
      → IsRun plan (after_claim (recording target) plan answer (world, claimed answer ∷ []))
  unfolding after_claim
  after_claim-IsRunTrace (ok _) world =
      let created = target.create_topology plan world in
      after_topology-IsRunTrace created.0 created.1
  after_claim-IsRunTrace (err failure) world = claim_refused failure

module _ {World : Type 0} (target : RestoreTarget World) (plan : RestorePlan) (world : World) where
  -- The calls of a run, with their answers, are a claim; if that succeeds the topology; if that
  -- fails a rollback and nothing more; else the calls for the panes, pane after pane in the plan's
  -- order, and an observation of the target. The calls for a pane are those that its action
  -- allows: no input but its own, a prompt only into a recovered session, the line again only
  -- after the shell was seen. The result agrees with them: it is complete exactly if the plan was
  -- not degraded, no pane needs more work and the target was retained.
  pub execute-IsRunTrace :
      let run = execute (recording target) plan (world, []) in IsRunTrace plan run.0 run.1.1
  unfolding execute
  execute-IsRunTrace =
      let answer = target.claim plan.destination plan.target_shell world in
      after_claim-IsRunTrace target plan answer.0 answer.1
