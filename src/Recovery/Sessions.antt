-- ===== src/Recovery/Sessions.antt =====
-- `PaneTiedForegroundEvidence::with_codex_session_evidence` and `with_claude_session_evidence`:
-- the session files that the processes of a pane hold open.
use tmux_rescue.Common.{
  Bool, List, [], contains, list_eq, map, not, num_eq, ok, some, ℕ, ◌++◌, ◌>>◌, ◌||◌, ◌∷◌,
}
use tmux_rescue.Std.Path.{extension, file_name, same_path, starts_with}
use tmux_rescue.Std.Text.{Text, decimal, lit}
use tmux_rescue.Model.Command.{is_named}
use tmux_rescue.Model.OsString.{RecordedAbsolutePath}
use tmux_rescue.Recovery.Evidence.{
  Checked, ForegroundProcessMember, OpenedClaudeSessionFile, OpenedCodexSessionFile,
  PaneTiedForegroundEvidence, deny_if, tool_record_not_held_by_foreground_group,
  tool_record_outside_store,
}

-- `group_processes`
unfoldable pub group_processes : PaneTiedForegroundEvidence → List ℕ
group_processes evidence =
    evidence.process_id ∷ map (ForegroundProcessMember.process_id) evidence.members

-- The condition on the path of a Codex file in the store.
unfoldable pub outside_codex_store : RecordedAbsolutePath → RecordedAbsolutePath → Bool
outside_codex_store store path =
    same_path path.path.bytes store.path.bytes
    || not (starts_with path.path.bytes store.path.bytes)
    || not (is_named (lit "jsonl") (extension path.path.bytes))

check_codex_files : List ℕ → RecordedAbsolutePath → List OpenedCodexSessionFile → Checked (Unit {0})
check_codex_files processes store [] = ok tt
check_codex_files processes store (file ∷ files) = do
  deny_if (not (contains processes file.holder_process_id)) tool_record_not_held_by_foreground_group
  deny_if (outside_codex_store store file.path) tool_record_outside_store
  check_codex_files processes store files

pub with_codex_session_evidence :
    PaneTiedForegroundEvidence
    → RecordedAbsolutePath
    → List OpenedCodexSessionFile
    → Checked PaneTiedForegroundEvidence
with_codex_session_evidence evidence store files = do
  check_codex_files (group_processes evidence) store files
  ok (record evidence { codex_session_evidence = some files })

-- `format!("{}.json", file.holder_process_id)`
abbrev pub claude_file_name : ℕ → Text
claude_file_name holder = decimal holder ++ lit ".json"

unfoldable pub outside_claude_store : RecordedAbsolutePath → OpenedClaudeSessionFile → Bool
outside_claude_store store file =
    same_path file.path.path.bytes store.path.bytes
    || not (starts_with file.path.path.bytes store.path.bytes)
    || not (is_named (claude_file_name file.holder_process_id) (file_name file.path.path.bytes))

check_claude_files :
    List ℕ → RecordedAbsolutePath → List OpenedClaudeSessionFile → Checked (Unit {0})
check_claude_files processes store [] = ok tt
check_claude_files processes store (file ∷ files) = do
  deny_if (not (contains processes file.holder_process_id)) tool_record_not_held_by_foreground_group
  deny_if (outside_claude_store store file) tool_record_outside_store
  check_claude_files processes store files

pub with_claude_session_evidence :
    PaneTiedForegroundEvidence
    → RecordedAbsolutePath
    → List OpenedClaudeSessionFile
    → Checked PaneTiedForegroundEvidence
with_claude_session_evidence evidence store files = do
  check_claude_files (group_processes evidence) store files
  ok (record evidence { claude_session_evidence = some files })
