-- ===== src/Capture/Tests.antt =====
-- A server with one idle pane, one that cannot be read, and a Codex pane with a prompt.
use tmux_rescue.Model.Command
use tmux_rescue.Model.OsString
use tmux_rescue.Common.{
  List, Result, [], ap, err, false, if◌then◌else◌, list_eq, ltb, none, num_eq, ok, refl, some, true,
  ℕ, ◌+◌, ◌>>=◌, ◌∷◌, ◌≡◌,
}
use tmux_rescue.Std.Path.{components, file_name, is_absolute}
use tmux_rescue.Std.Sort.{insert_sorted, sort_by}
use tmux_rescue.Std.Text.{lit}
use tmux_rescue.Std.Utf8.{is_utf8}
use tmux_rescue.Capture.{
  PaneProcessAnchor, TopologyPane, anchor_try_new, default_shell, empty_default_shell,
  explicit_command, pane_tty_not_absolute, zero_pane_process_id,
}
use tmux_rescue.Capture.Build.{
  build_result, build_result_with_serialization_limit, finish_result, or_invalid_candidate,
  strip_panes, take_prompt,
}
use tmux_rescue.Capture.Build.Stripped.{
  IsBuilt, build_result_with_serialization_limit-IsBuilt, raw_of,
}
use tmux_rescue.Capture.Pane.{
  bind_prompt, capture_candidate, capture_codex, capture_observation, capture_pane, capture_panes,
  capture_prompt, capture_recovery, capture_sessions, capture_windows, codex_recovery,
  codex_session_of, try_bind,
}
use tmux_rescue.Capture.Pane.Bound.{IsBound, capture_codex-IsBound}
use tmux_rescue.Capture.Run.{
  attempt_from, attempts_loop, capture_snapshot, confirm, run_attempt, save_unstable,
}
use tmux_rescue.Capture.Run.Failed.{FirstReadsFailed, capture_snapshot-FirstReadsFailed}
use tmux_rescue.Capture.Run.Stable.{IsStableResult, capture_snapshot-IsStableResult}
use tmux_rescue.Capture.Source.{
  CaptureCandidate, CaptureEvent, CaptureResult, CaptureSource, CaptureSourceFailure,
  PaneProcessObservation, before_capture, foreground, idle_process, no_complete_candidate,
  topology_read_failed,
}
use tmux_rescue.Capture.Topology.{
  TopologyObservation, fingerprint, pane_key, same_fingerprint, text_less,
}
use tmux_rescue.Model.Error.{Validation, max_topology_validation_attempts, refuse_if}
use tmux_rescue.Model.Recovery.{
  CodexSessionId, raw_automatic, raw_codex, raw_idle, recognize_bookshelf, recognize_md_book,
  recovery_to_raw,
}
use tmux_rescue.Model.Snapshot.{CaptureTime, ValidatedSnapshot, raw_stable}
use tmux_rescue.Model.Snapshot.Json.{Serde, from_capture_raw}
use tmux_rescue.Model.Snapshot.Tests.{
  clock, codecs, idle_raw, idle_sample, os, refine-idle_sample, utf8_of,
}
use tmux_rescue.Prompt.Area.Tests.{cells, prompt_captured, prompt_grid, typed_prompt}
use tmux_rescue.Recovery.Classify.{
  apply_tail_conflict, classify_pane, flatten_outcomes, only_outcome, recovery_of, resolve_serve,
}
use tmux_rescue.Recovery.Classify.Tests.{codex_evidence, records}
use tmux_rescue.Recovery.Claude.{is_claude_executable, is_claude_tui}
use tmux_rescue.Recovery.Claude.Resolve.{claude_commands_of, resolve_claude}
use tmux_rescue.Recovery.Codex.{
  add_candidate, codex_outcome, codex_processes_of, examine_codex_record, is_codex_tui,
  is_root_session, no_candidates, resolve_codex, resolve_codex_files, scan_codex_files,
}
use tmux_rescue.Recovery.Outcome.{
  executable_identity_basename, observed_process_commands, process_commands,
}

abbrev anchor : PaneProcessAnchor
anchor = record {
  pane_pid = 7;
  pane_tty = os (lit "/dev/pts/1");
  initial_process = explicit_command;
}

abbrev idle_pane : TopologyPane
idle_pane = record {
  source_index = 0;
  pane_id = record { text = lit "%0" };
  working_directory = record { path = os (lit "/srv") };
  process_anchor = anchor;
}

abbrev one_session : TopologyObservation
one_session = record {
  sessions =
      record {
        name = lit "work";
        working_directory = record { path = os (lit "/srv") };
        windows = record { source_index = 1; name = lit "docs"; panes = idle_pane ∷ [] } ∷ [];
      }
      ∷ [];
}

abbrev lost : CaptureSourceFailure
lost = record { failure = record { message = lit "server exited" } }

-- The answers to the readings of the topology, and how many readings there were.
abbrev server :
    (ℕ → Result CaptureSourceFailure TopologyObservation) → PaneProcessObservation → CaptureSource ℕ
server answers process = record {
  source = record { path = record { path = os (lit "/tmp/source.sock") } };
  read_topology = λ n. (answers n, n + 1);
  inspect_pane = λ pane n. (process, n);
  read_visible_pane = λ pane n. (ok prompt_grid, n);
}

abbrev idle_server : CaptureSource ℕ
idle_server = server (λ n. if ltb n 2 then err lost else ok one_session) idle_process

abbrev lost_server : CaptureSource ℕ
lost_server = server (λ n. err lost) idle_process

abbrev short_json : Serde
short_json = record { to_vec_pretty = λ raw. ok (lit "{}"); from_slice = λ bytes. ok idle_raw }

abbrev noon : CaptureTime ℕ
noon = record { value = 20; encoded = lit "2026-07-23T00:00:00Z" }

-- The first two attempts fail at their first reading.
abbrev third_result : CaptureResult ℕ
third_result = record {
  snapshot = idle_sample;
  attempts = 3;
  events =
      topology_read_failed 1 before_capture lost ∷ topology_read_failed 2 before_capture lost ∷ [];
}

third_attempt :
    capture_snapshot cells codecs records idle_server clock short_json noon 0 ≡ (ok third_result, 4)
unfolding capture_snapshot attempts_loop run_attempt attempt_from capture_candidate capture_sessions
    capture_windows capture_panes capture_pane capture_recovery capture_observation confirm
    same_fingerprint fingerprint build_result build_result_with_serialization_limit finish_result
    from_capture_raw refuse_if OsString.path_to_raw OsString.to_raw is_utf8 recovery_to_raw
third_attempt =
    ap
      (λ (v : Validation (ValidatedSnapshot ℕ)). (
        or_invalid_candidate v >>= λ snapshot. ok (record third_result { snapshot = snapshot }),
        4,
      ))
      refine-idle_sample

capture_snapshot-IsStableResult_example :
    IsStableResult cells codecs records idle_server clock short_json noon 3 4 third_result
capture_snapshot-IsStableResult_example =
    capture_snapshot-IsStableResult cells codecs records idle_server clock short_json noon 0 4
      third_result third_attempt refl

abbrev three_failures : List CaptureEvent
three_failures =
    topology_read_failed 1 before_capture lost
    ∷ topology_read_failed 2 before_capture lost
    ∷ topology_read_failed 3 before_capture lost
    ∷ []

nothing_captured :
    (capture_snapshot cells codecs records lost_server clock short_json noon 0).0
    ≡ err (no_complete_candidate 3 three_failures)
unfolding capture_snapshot attempts_loop run_attempt attempt_from save_unstable
nothing_captured = refl

capture_snapshot-FirstReadsFailed_example :
    (3 ≡ max_topology_validation_attempts)
    × FirstReadsFailed lost_server 0 1 max_topology_validation_attempts three_failures
capture_snapshot-FirstReadsFailed_example =
    capture_snapshot-FirstReadsFailed clock codecs short_json cells records lost_server noon 0 3
      three_failures nothing_captured

abbrev idle_candidate : CaptureCandidate
idle_candidate = record { attempt = 2; sessions = idle_raw.sessions }

abbrev second_result : CaptureResult ℕ
second_result = record { snapshot = idle_sample; attempts = 2; events = [] }

second_built :
    build_result_with_serialization_limit clock codecs short_json noon
      (record { path = record { path = os (lit "/tmp/source.sock") } })
      raw_stable
      idle_candidate
      2
      []
      10
    ≡ ok second_result
unfolding build_result_with_serialization_limit finish_result from_capture_raw refuse_if
    OsString.path_to_raw OsString.to_raw is_utf8
second_built =
    ap
      (λ (v : Validation (ValidatedSnapshot ℕ)).
        or_invalid_candidate v >>= λ snapshot. ok (record second_result { snapshot = snapshot }))
      refine-idle_sample

build_result_with_serialization_limit-IsBuilt_example :
    IsBuilt clock codecs short_json
      (raw_of clock codecs short_json noon
        (record { path = record { path = os (lit "/tmp/source.sock") } })
        raw_stable
        idle_candidate)
      10
      2
      second_result
build_result_with_serialization_limit-IsBuilt_example =
    build_result_with_serialization_limit-IsBuilt clock codecs short_json noon
      (record { path = record { path = os (lit "/tmp/source.sock") } }) raw_stable idle_candidate 2
      [] 10 second_result second_built

-- Two prompts, of which one pane loses its own.
one_prompt_stripped :
    strip_panes (lit "work") 1 (
      record {
        source_index = 0;
        working_directory = utf8_of "/srv";
        recovery = raw_automatic (raw_codex (lit "x") (some (record { text = lit "fix" })));
      }
      ∷ record { source_index = 1; working_directory = utf8_of "/srv"; recovery = raw_idle }
      ∷ [])
    ≡ (
      record {
        source_index = 0;
        working_directory = utf8_of "/srv";
        recovery = raw_automatic (raw_codex (lit "x") none);
      }
          ∷ record { source_index = 1; working_directory = utf8_of "/srv"; recovery = raw_idle }
          ∷ [],
      record { session_name = lit "work"; window_index = 1; pane_index = 0 } ∷ [],
    )
unfolding strip_panes take_prompt
one_prompt_stripped = refl

-- The pane shows a prompt, and is in the session x at both looks.
abbrev codex_server : CaptureSource ℕ
codex_server = server (λ n. ok one_session) (foreground codex_evidence)

abbrev codex_here : CodexSessionId
codex_here = record { uuid = b'x' }

prompt_kept :
    (capture_codex cells codecs records codex_server idle_pane
      (record { session_name = lit "work"; window_index = 1; pane_index = 0 })
      1
      codex_here
      0).0
    ≡ codex_recovery codex_here (some typed_prompt)
unfolding capture_codex capture_prompt bind_prompt try_bind codex_session_of classify_pane
    resolve_codex resolve_claude resolve_serve is_codex_tui is_claude_tui file_name
    is_claude_executable components claude_commands_of process_commands observed_process_commands
    codex_processes_of executable_identity_basename resolve_codex_files scan_codex_files
    examine_codex_record is_root_session add_candidate no_candidates codex_outcome is_utf8
    recognize_md_book recognize_bookshelf Command.validate_serve_command flatten_outcomes
    only_outcome apply_tail_conflict recovery_of
prompt_kept = rw prompt_captured refl

capture_codex-IsBound_example :
    IsBound cells codecs records codex_server idle_pane codex_here typed_prompt 0
capture_codex-IsBound_example =
    capture_codex-IsBound cells codecs records codex_server idle_pane
      (record { session_name = lit "work"; window_index = 1; pane_index = 0 }) 1 codex_here
      typed_prompt 0 prompt_kept

anchor_tests :
    (anchor_try_new 7 (os (lit "/dev/pts/1")) explicit_command ≡ ok anchor)
    × (anchor_try_new 0 (os (lit "/dev/pts/1")) explicit_command ≡ err zero_pane_process_id)
    × (anchor_try_new 7 (os (lit "pts/1")) explicit_command ≡ err pane_tty_not_absolute)
    × (anchor_try_new 7 (os (lit "/dev/pts/1")) (default_shell (os [])) ≡ err empty_default_shell)
unfolding anchor_try_new is_absolute
anchor_tests = (refl, refl, refl, refl)

-- Panes come in the order of their indexes, and names in that of their bytes.
sorted_in_order :
    (sort_by pane_key ltb
        (record idle_pane { source_index = 3 } ∷ record idle_pane { source_index = 1 } ∷ [])
      ≡ record idle_pane { source_index = 1 } ∷ record idle_pane { source_index = 3 } ∷ [])
    × (text_less (lit "ab") (lit "b") ≡ true)
    × (text_less (lit "ab") (lit "a") ≡ false)
unfolding sort_by insert_sorted
sorted_in_order = (refl, refl, refl)
