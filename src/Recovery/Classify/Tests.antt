-- ===== src/Recovery/Classify/Tests.antt =====
-- A pane with an mdBook server, one with a Claude session, one with a Codex session, and command
-- lines of Claude.
use tmux_rescue.Model.Command
use tmux_rescue.Common.{
  List, [], arith, err, false, is_empty, list_eq, none, num_eq, ok, refl, some, true, ℕ, ◌++◌, ◌↔◌,
  ◌∷◌, ◌≡◌, ◌⊎◌,
}
use tmux_rescue.Std.Number.{parse_u64}
use tmux_rescue.Std.Path.{components, file_name}
use tmux_rescue.Std.Text.{Text, lit}
use tmux_rescue.Std.Utf8.{is_utf8}
use tmux_rescue.Model.Codec.{Uuid}
use tmux_rescue.Model.Command.{CapturedCommand}
use tmux_rescue.Model.Command.Laws.{IsCommand}
use tmux_rescue.Model.Recovery.{
  AutomaticRecovery, ClaudeSessionId, automatic, claude_code, manual, recognize_bookshelf,
  recognize_md_book, recovery_to_raw, validate_recovery,
}
use tmux_rescue.Model.Snapshot.Tests.{codecs, laws, os, serve}
use tmux_rescue.Recovery.Classify.{
  apply_tail_conflict, classify_pane, flatten_outcomes, only_outcome, recovery_of, resolve_serve,
  same_tool_session,
}
use tmux_rescue.Recovery.Classify.Accepted.{classify_pane-recovery_to_raw}
use tmux_rescue.Recovery.Classify.Family.{OnlyFamily, classify_pane-automatic_iff}
use tmux_rescue.Recovery.Claude.{
  after_argument, after_cut, after_option, arguments_loop, behind_first, cut_at_equals,
  is_claude_executable, is_claude_tui, supported_claude_option, supported_claude_tui_arguments,
}
use tmux_rescue.Recovery.Claude.Agreed.{
  AgreedEvidence, claude_session_of, resolve_claude-automatic_iff,
}
use tmux_rescue.Recovery.Claude.Evidence.{ClaudeCommands}
use tmux_rescue.Recovery.Claude.Options.{IsClaudeOptions, supported_claude_tui_arguments_iff}
use tmux_rescue.Recovery.Claude.Resolve.{
  agreed_session, claude_commands_of, claude_outcome, claude_record_session, equals_value,
  is_stale_record, parse_identity, resolve_claude, same_start, saw_identity, scan_arguments,
  scan_claude_evidence, scan_claude_files, scan_commands, scan_known_files, scan_single,
}
use tmux_rescue.Recovery.Codex.{
  add_candidate, codex_outcome, codex_processes, codex_processes_of, examine_codex_record,
  is_codex_tui, is_root_session, no_candidates, resolve_codex, resolve_codex_files,
  scan_codex_files,
}
use tmux_rescue.Recovery.Codex.Resolved.{codex_session, resolve_codex-automatic_iff}
use tmux_rescue.Recovery.Codex.Unique.{HasOneCandidate, distinct_held}
use tmux_rescue.Recovery.Evidence.{
  OpenedClaudeSessionFile, OpenedCodexSessionFile, PaneTiedForegroundEvidence, claude_code_tool,
  process_start_time_for, unpinned_raw,
}
use tmux_rescue.Recovery.Group.Tests.{leader_evidence}
use tmux_rescue.Recovery.Outcome.{
  ClaudeSessionRecord, CodexSessionMeta, RecordParsers, automatic_outcome,
  executable_identity_basename, insufficient, observed_process_commands, process_commands,
}

abbrev no_records : RecordParsers
no_records = record {
  codex_meta = λ bytes. err (lit "no record");
  claude_record = λ bytes. err (lit "no record");
}

abbrev claude_command : CapturedCommand
claude_command = record {
  executable = os (lit "/home/u/.local/share/claude/versions/2.1");
  argv =
      os (lit "claude")
      ∷ os (lit "--model")
      ∷ os (lit "opus")
      ∷ os (lit "--add-dir")
      ∷ os (lit "/a")
      ∷ os (lit "/b")
      ∷ os (lit "--resume=x")
      ∷ [];
}

abbrev claude_evidence : PaneTiedForegroundEvidence
claude_evidence = record leader_evidence {
  command = record { command = claude_command; executable = unpinned_raw };
}

-- The letter x, as the test codecs read it.
abbrev resumed : ClaudeSessionId
resumed = record { uuid = b'x' }

claude_session_found : classify_pane codecs no_records claude_evidence ≡ record {
  recovery = automatic (claude_code resumed);
  resolver_outcome = automatic_outcome (claude_code resumed);
}
unfolding classify_pane resolve_codex resolve_claude resolve_serve is_codex_tui is_claude_tui
    file_name is_claude_executable components claude_commands_of process_commands
    observed_process_commands supported_claude_tui_arguments supported_claude_option cut_at_equals
    after_option after_cut after_argument arguments_loop codex_processes_of
    executable_identity_basename scan_commands scan_arguments scan_single equals_value saw_identity
    parse_identity is_utf8 scan_claude_evidence scan_known_files claude_outcome agreed_session
    recognize_md_book recognize_bookshelf Command.validate_serve_command flatten_outcomes
    only_outcome apply_tail_conflict recovery_of
claude_session_found = refl

-- The same pane with a session of Claude named at its end.
abbrev claude_tail : Uuid → PaneTiedForegroundEvidence
claude_tail session_id = record claude_evidence {
  tail_session = some (record { tool = claude_code_tool; session_id = session_id });
}

tail_conflict :
    (classify_pane codecs no_records (claude_tail b'y')).recovery ≡ manual claude_command
unfolding classify_pane resolve_codex resolve_claude resolve_serve is_codex_tui is_claude_tui
    file_name is_claude_executable components claude_commands_of process_commands
    observed_process_commands supported_claude_tui_arguments supported_claude_option cut_at_equals
    after_option after_cut after_argument arguments_loop codex_processes_of
    executable_identity_basename scan_commands scan_arguments scan_single equals_value saw_identity
    parse_identity is_utf8 scan_claude_evidence scan_known_files claude_outcome agreed_session
    recognize_md_book recognize_bookshelf Command.validate_serve_command flatten_outcomes
    only_outcome apply_tail_conflict recovery_of same_tool_session
tail_conflict = refl

classify_pane-automatic_iff_example :
    ((classify_pane codecs no_records (claude_tail b'x')).recovery
      ≡ automatic (claude_code resumed))
    ↔ (OnlyFamily
          (claude_code resumed)
          (resolve_codex codecs no_records (claude_tail b'x'))
          (resolve_claude codecs no_records (claude_tail b'x'))
          (resolve_serve (claude_tail b'x'))
        × (resumed.uuid ≡ b'x'))
classify_pane-automatic_iff_example =
    classify_pane-automatic_iff codecs no_records (claude_tail b'x') (claude_code resumed)

-- The same command line with a second identity flag, whose value the test codecs do not read.
abbrev two_flags : PaneTiedForegroundEvidence
two_flags = record claude_evidence {
  command = record {
    command = record claude_command { argv = claude_command.argv ++ os (lit "--resume=yes") ∷ [] };
    executable = unpinned_raw;
  };
}

malformed_flag :
    resolve_claude codecs no_records two_flags
    ≡ some (insufficient (lit "Claude evidence is incomplete, stale, or malformed"))
unfolding resolve_claude is_claude_tui file_name is_claude_executable components claude_commands_of
    process_commands observed_process_commands supported_claude_tui_arguments
    supported_claude_option cut_at_equals after_option after_cut after_argument arguments_loop
    executable_identity_basename scan_commands scan_arguments scan_single equals_value saw_identity
    parse_identity is_utf8 scan_claude_evidence scan_known_files claude_outcome agreed_session
malformed_flag = refl

resolve_claude-automatic_iff_example :
    (resolve_claude codecs no_records claude_evidence
      ≡ some (automatic_outcome (claude_code resumed)))
    ↔ ((session_id : Uuid) × (commands : List (ℕ × CapturedCommand)) × (claude_code resumed
          ≡ claude_session_of session_id)
        × ClaudeCommands (process_commands claude_evidence) commands
        × (is_empty commands ≡ false)
        × AgreedEvidence codecs no_records claude_evidence commands session_id)
resolve_claude-automatic_iff_example =
    resolve_claude-automatic_iff codecs no_records claude_evidence (claude_code resumed)

supported_claude_tui_arguments_iff_example :
    (supported_claude_tui_arguments claude_command.argv ≡ true)
    ↔ IsClaudeOptions (behind_first claude_command.argv)
supported_claude_tui_arguments_iff_example = supported_claude_tui_arguments_iff claude_command.argv

-- A Codex process that holds one session file, with a record of the session x in its directory.
abbrev pub codex_command : CapturedCommand
codex_command = record { executable = os (lit "/usr/bin/codex"); argv = os (lit "codex") ∷ [] }

abbrev pub codex_file : OpenedCodexSessionFile
codex_file = record {
  holder_process_id = 10;
  device = 1;
  inode = 2;
  path = record { path = os (lit "/s/a.jsonl") };
  first_record = lit "{}";
}

abbrev pub codex_evidence : PaneTiedForegroundEvidence
codex_evidence = record leader_evidence {
  command = record { command = codex_command; executable = unpinned_raw };
  codex_session_evidence = some (codex_file ∷ codex_file ∷ []);
}

abbrev pub root_meta : CodexSessionMeta
root_meta = record {
  kind = lit "session_meta";
  payload = record {
    id = lit "x";
    originator = lit "codex-tui";
    thread_source = lit "user";
    cwd = lit "/srv";
    parent_thread_id = none;
  };
}

-- The files of Claude, one current record and one of an earlier process of the same number.
abbrev pub claude_record_at : Text → ClaudeSessionRecord
claude_record_at start = record {
  pid = 10;
  session_id = lit "x";
  cwd = lit "/srv";
  proc_start = start;
  kind = lit "interactive";
  transport = record { identity = lit "/dev/pts/3" };
}

abbrev pub records : RecordParsers
records = record {
  codex_meta = λ bytes. ok root_meta;
  claude_record = λ bytes. ok (claude_record_at bytes);
}

-- The second file is the same one, and counts once.
codex_session_found :
    resolve_codex codecs records codex_evidence ≡ some (automatic_outcome (codex_session b'x'))
unfolding resolve_codex is_codex_tui file_name codex_processes_of observed_process_commands
    executable_identity_basename resolve_codex_files scan_codex_files examine_codex_record
    is_root_session add_candidate no_candidates codex_outcome is_utf8
codex_session_found = refl

resolve_codex-automatic_iff_example :
    (resolve_codex codecs records codex_evidence ≡ some (automatic_outcome (codex_session b'x')))
    ↔ ((session_id : Uuid) × (files : List OpenedCodexSessionFile) × (codex_session b'x'
          ≡ codex_session session_id)
        × (is_empty (codex_processes codex_evidence) ≡ false)
        × (some (codex_file ∷ codex_file ∷ []) ≡ some files)
        × (is_utf8 (lit "/srv") ≡ true)
        × HasOneCandidate codecs records
            (lit "/srv")
            session_id
            (distinct_held (codex_processes codex_evidence) [] files))
resolve_codex-automatic_iff_example =
    resolve_codex-automatic_iff codecs records codex_evidence (codex_session b'x')

abbrev claude_file : Text → OpenedClaudeSessionFile
claude_file start = record {
  holder_process_id = 10;
  path = record { path = os (lit "/s/10.json") };
  tool_record = start;
}

abbrev claude_held : PaneTiedForegroundEvidence
claude_held = record claude_evidence {
  claude_session_evidence = some (claude_file (lit "99") ∷ claude_file (lit "98") ∷ []);
}

-- The stale record makes the evidence invalid.
one_current_record :
    scan_claude_evidence codecs records claude_held
    ≡ record { invalid_record = true; record_candidates = b'x' ∷ [] }
unfolding scan_claude_evidence scan_known_files scan_claude_files claude_record_session
    is_stale_record same_start process_start_time_for parse_u64 is_claude_tui is_claude_executable
    components file_name claude_commands_of process_commands observed_process_commands
    supported_claude_tui_arguments supported_claude_option cut_at_equals after_option after_cut
    after_argument arguments_loop
one_current_record = refl

serve-IsCommand : IsCommand serve
serve-IsCommand = (
  (omega arith, refl),
  refl,
  ((omega arith, refl), ((omega arith, refl), tt)),
  refl,
  omega arith,
  refl,
)

classify_pane-recovery_to_raw_example :
    (((recovery : AutomaticRecovery) × ((classify_pane codecs records leader_evidence).recovery
          ≡ automatic recovery))
      ⊎ ((classify_pane codecs records leader_evidence).recovery ≡ manual serve))
    × (validate_recovery codecs
          (recovery_to_raw codecs (classify_pane codecs records leader_evidence).recovery)
          (lit "pane")
        ≡ ok (classify_pane codecs records leader_evidence).recovery)
classify_pane-recovery_to_raw_example =
    classify_pane-recovery_to_raw codecs laws records leader_evidence (lit "pane") serve-IsCommand
