-- ===== src/Restore/Execute/Tests.antt =====
-- A plan is run on a target that does all it is asked, and on one where the topology fails.
use tmux_rescue.Common.{[], err, list_eq, none, num_eq, ok, refl, ℕ, ◌+◌, ◌∷◌, ◌≡◌}
use tmux_rescue.Std.Text.{lit}
use tmux_rescue.Restore.Execute.{
  after_claim, after_launch, after_observation, after_topology, execute, execute_action,
  execute_automatic, execute_pane, execute_panes, fatal_result, guarded, map_guarded_result,
  pane_outcome_is_partial, paste_prompt, prompt_for, prompt_request, recover, roll_back,
  rollback_result, run_status,
}
use tmux_rescue.Restore.Execute.Protocol.{execute-IsRunTrace}
use tmux_rescue.Restore.Execute.Trace.{IsRunTrace, recording}
use tmux_rescue.Restore.Plan.Tests.{other_coordinate, plan}
use tmux_rescue.Restore.Planned.{recorded_directory_unavailable}
use tmux_rescue.Restore.Render.Tests.{first_coordinate}
use tmux_rescue.Restore.Target.{
  RestoreTarget, observed, partial, prepared_automatic_fallback_hint, recovered_automatically,
  retained, rollback_failed, rollback_removed, rollback_retained, seen_recovered, seen_shell,
  session_mismatch, target_disposition, unknown,
}

-- The state counts the calls on panes. The launched tool is seen on the second.
abbrev willing : RestoreTarget ℕ
willing = record {
  claim = λ destination shell calls. (ok tt, calls);
  create_topology = λ planned calls. (ok tt, calls);
  rollback = λ calls. (rollback_removed, calls);
  begin_recovery = λ calls. calls;
  guarded_pane_operation = λ pane shell operation calls. (ok tt, calls + 1);
  observe_automatic = λ pane expected calls. (seen_recovered, calls + 1);
  paste_codex_prompt_area = λ pane expected input calls. (ok tt, calls + 1);
  observe_disposition = λ calls. (retained, calls);
}

abbrev failing : RestoreTarget ℕ
failing = record {
  claim = λ destination shell calls. (ok tt, calls);
  create_topology = λ planned calls. (err (record { message = lit "no server" }), calls);
  rollback = λ calls.
      (rollback_failed (record { disposition = rollback_retained; message = lit "busy" }), calls);
  begin_recovery = λ calls. calls;
  guarded_pane_operation = λ pane shell operation calls. (ok tt, calls + 1);
  observe_automatic = λ pane expected calls. (seen_shell, calls + 1);
  paste_codex_prompt_area = λ pane expected input calls. (err session_mismatch, calls + 1);
  observe_disposition = λ calls. (unknown, calls);
}

-- One pane runs again, the other only shows its line: three calls, and a partial run.
run_willing : execute willing plan 0 ≡ (
  record {
    status = partial;
    target_state = observed retained;
    failure = none;
    panes =
        record { coordinate = first_coordinate; outcome = recovered_automatically }
        ∷ record {
          coordinate = other_coordinate;
          outcome = prepared_automatic_fallback_hint recorded_directory_unavailable;
        }
        ∷ [];
  },
  3,
)
unfolding execute after_claim after_topology recover execute_panes execute_pane execute_action
    execute_automatic after_launch after_observation paste_prompt prompt_request prompt_for guarded
    map_guarded_result pane_outcome_is_partial run_status
run_willing = refl

run_failing : (execute failing plan 0).0.target_state ≡ observed retained
unfolding execute after_claim after_topology roll_back rollback_result fatal_result
    target_disposition
run_failing = refl

execute-IsRunTrace_example :
    IsRunTrace plan
      (execute (recording willing) plan (0, [])).0
      (execute (recording willing) plan (0, [])).1.1
execute-IsRunTrace_example = execute-IsRunTrace willing plan 0
