-- ===== src/Lib.antt =====
-- tmux-rescue: capture of tmux sessions as snapshots, and their restore.
--
-- The program stores what runs in a tmux server as a JSON snapshot and later makes a plan from it
-- that recreates sessions, windows and panes and starts, or only pastes, the recorded commands.
--
-- Files and the code that they model:
--
--   * Common: helpers on tests, lists, equality and results; not from the program.
--   * Std: Rust's strings, UTF-8 decoding (`from_utf8`, `chars`, `is_control`), decimal numbers,
--     searches in texts and the parts of `std::path::Path` that the program uses, on lists of
--     bytes.
--   * Model (src/model.rs): raw and validated snapshots. Model/OsString is `LosslessOsString` and
--     `RecordedAbsolutePath`, Model/Command `CapturedCommand`, Model/Name the names, prompts and
--     failure texts, Model/Recovery `AutomaticRecovery` and `PaneRecovery`, Model/Snapshot
--     `ValidatedSnapshot::refine` and the conversion back, Model/Snapshot/Json `from_json`,
--     `from_capture_raw` and `to_json_pretty`.
--   * Selector (src/selector.rs): the arguments that select a tmux server.
--   * Recovery (src/recovery.rs): Recovery/Command is `derive_automatic_command` and
--     `AutomaticRecoveryExpectation`, Recovery/Evidence the evidence on a pane's foreground
--     processes and the checks of its constructors, Recovery/Group `with_foreground_members`,
--     Recovery/Sessions the attachment of session files. Recovery/Codex is `resolve_codex`,
--     Recovery/Claude `is_claude_tui` with the table of Claude's options, Recovery/Claude/Resolve
--     `resolve_claude`, and Recovery/Claude/Evidence tells, apart from its scans, what flags and
--     records name. Recovery/Outcome has the outcomes, and Recovery/Classify is `resolve_serve`,
--     `apply_tail_conflict` and `classify_pane`.
--   * VisiblePane (src/visible_pane.rs): pane identifiers and metadata; VisiblePane/Styled decodes
--     the SGR sequences of a styled capture, VisiblePane/Grid is `VisiblePaneGrid`.
--   * Prompt (src/codex_prompt.rs): Prompt/Status reads the segments of a Codex status line,
--     Prompt/Footer `parse_supported_codex_footer`, Prompt/Area `capture_visible_codex_prompt`.
--   * Process (src/process.rs): `parse_proc_cmdline` and the failures; Process/Stat is
--     `parse_proc_stat`, Process/Pinned `from_pinned`, Process/Select
--     `select_foreground_processes`, whose inner loop is the climb of Recovery/Group, and
--     Process/Select/Tree tells what a job is apart from its loops. The text of a validation error
--     is the function `error_text`.
--   * Capture (src/capture.rs): process anchors; Capture/Topology is `TopologyObservation` and its
--     fingerprint, Capture/Source the `CaptureSource` trait, the events and the results,
--     Capture/Pane the capture of a candidate and of prompts, Capture/Build
--     `build_result_with_serialization_limit`, Capture/Run `capture_snapshot`.
--   * Restore (src/restore.rs): planning and execution. Restore/Shell has the shell and
--     executables as values, Restore/Render `render_argv` and `contains_terminal_control`,
--     Restore/Planned the parts of a plan, Restore/Pane `plan_pane_action`, Restore/Plan
--     `plan_restore` with a function for each of its loops. Restore/Target has the target's traits
--     and the outcomes, Restore/Execute `RestoreExecutor::execute`; Restore/Execute/Trace is the
--     protocol that a run keeps to, told by the calls that the target receives. Restore/ElfSegment
--     and Restore/Elf are `is_native_linux_executable`. Restore/ShellWords is the word splitting
--     of a POSIX shell, written without the renderer in view.
--
-- The parts meet in values. A capture reads the topology, classifies the evidence of each pane
-- (Recovery), reads a Codex prompt from the pane's grid (VisiblePane, Prompt) and refines the raw
-- snapshot (Model). A refined snapshot is what `plan_restore` reads, the plan is what the executor
-- runs, and `derive_automatic_command` (Recovery) gives the words that Restore/Render writes as a
-- line for the shell.
--
-- Bytes and scalar values are native numbers; a `String` is the list of its UTF-8 bytes. Integers
-- are only compared and stored, except in the checks of ELF files, whose additions that can pass
-- 64 bits are written out; ranges stand in the invariants where a theorem needs them. Hash sets
-- that detect duplicates are lists of what was seen; sorting is a stable insertion sort. `Result`
-- with `?` is a do block, and a list of reports that the code pushes on is returned beside the
-- result.
--
-- Four loops have no structural argument. The scan of `contains_terminal_control` runs with one
-- unit of fuel more than there are bytes, and each round takes a byte at least. The climb from a
-- process to the group's leader (in recovery.rs and process.rs) runs with one unit more than the
-- map of parents has entries, and each round visits a further one. The loop over the arguments of
-- `claude` and the loop over the parameters of an SGR sequence run with one unit more than there
-- are arguments or parameters, and each round takes one at least. The three attempts of
-- `capture_snapshot` are a recursion on their number, and `decimal` writes a number with one unit
-- more than the number itself.
--
-- Parameters, for code that is not in the repository: base64, UUID text and `{:?}` (Codecs, with
-- CodecLaws), RFC 3339 parsing, serde_json (Serde, with SerdeLaw: what was written is read back),
-- the `RestoreEnvironment` trait, whose answers do not change while a plan is made, and the target
-- traits, as functions on a state of any type with no assumption on their answers. The
-- `CaptureSource` trait is such a record of operations too. The reading of the tools' session
-- records by serde_json is the record RecordParsers, and `UnicodeWidthStr::width` the function
-- `display_width`.
--
-- The word size, byte order and machine number of the build are the record Platform.
--
-- Not modelled: files (src/storage.rs), the reads of `/proc` (rest of src/process.rs), tmux as a
-- subprocess (src/tmux.rs), the command line (src/cli.rs), texts for people (src/inspect.rs,
-- `render_human`).
pub mod Common
pub mod Std
pub mod Model
pub mod Selector
pub mod Recovery
pub mod VisiblePane
pub mod Prompt
pub mod Restore
pub mod Process
pub mod Capture
