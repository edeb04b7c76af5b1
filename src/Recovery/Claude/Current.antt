-- ===== src/Recovery/Claude/Current.antt =====
-- The records that name a Claude session are those of the very processes in the pane.
use tmux_rescue.Common.{
  All, All-append, Bool-cases, List, Option, Option-cases, Result-cases, [], ap, contains, inl, inr,
  list_eq, none, not-eq-false, num_eq, ok, or-eq-false, refl, some, true, ℕ, ◌∷◌, ◌≡◌,
}
use tmux_rescue.Std.Number.{parse_u64}
use tmux_rescue.Std.Text.{lit}
use tmux_rescue.Model.Codec.{Codecs, Uuid}
use tmux_rescue.Recovery.Claude.Resolve.{
  RecordIdentity, add_record, claude_processes, claude_record_session, is_stale_record,
  no_record_identity, same_start, scan_claude_evidence, scan_claude_files, scan_known_files,
}
use tmux_rescue.Recovery.Evidence.{
  OpenedClaudeSessionFile, PaneTiedForegroundEvidence, process_start_time_for,
}
use tmux_rescue.Recovery.Outcome.{ClaudeSessionRecord, RecordParsers}

same_start-eq : (a b : Option ℕ) → same_start a b ≡ true → a ≡ b
unfolding same_start
same_start-eq none none h = refl
same_start-eq (some a) (some b) h = ap some ((num_eq.decides a b).0 h)
same_start-eq none (some b) h = cc
same_start-eq (some a) none h = cc

module _ (codecs : Codecs) (parsers : RecordParsers) (evidence : PaneTiedForegroundEvidence) where
  -- The record is about the process that holds the file, as it runs in this pane.
  pub record IsCurrent (file : OpenedClaudeSessionFile) (session_id : Uuid) : Type 0 where
    pub parsed : ClaudeSessionRecord
    pub is_parsed : parsers.claude_record file.tool_record ≡ ok parsed
    pub same_process : parsed.pid ≡ file.holder_process_id
    pub interactive : parsed.kind ≡ lit "interactive"
    pub same_directory : parsed.cwd ≡ evidence.pane_working_directory.path.bytes
    pub started_together :
        parse_u64 parsed.proc_start ≡ process_start_time_for evidence file.holder_process_id
    pub same_terminal : parsed.transport.identity ≡ evidence.pane_tty.bytes
    pub session : codecs.uuid_parse parsed.session_id ≡ some session_id

  pub claude_record_session-IsCurrent :
      (file : OpenedClaudeSessionFile) (session_id : Uuid)
      → claude_record_session codecs parsers evidence file ≡ some session_id
      → IsCurrent file session_id
  unfolding claude_record_session is_stale_record
  claude_record_session-IsCurrent file session_id h =
      elim (Result-cases (parsers.claude_record file.tool_record)) [
        | inr (error, unparsed) ↦ let never = rw (unparsed, claude_record_session) at h in cc
        | inl (parsed, read) ↦
            elim (Bool-cases (is_stale_record codecs parsers evidence file parsed)) [
              | inl stale ↦ let never = rw (read, stale, claude_record_session) at h in cc
              | inr current ↦
                  let (rest₁, tty) = or-eq-false _ _ current in
                  let (rest₂, start) = or-eq-false _ _ rest₁ in
                  let (rest₃, cwd) = or-eq-false _ _ rest₂ in
                  let (pid, kind) = or-eq-false _ _ rest₃ in
                  record {
                    parsed = parsed;
                    is_parsed = read;
                    same_process = (num_eq.decides _ _).0 (not-eq-false _ pid);
                    interactive = (list_eq.decides _ _).0 (not-eq-false _ kind);
                    same_directory = (list_eq.decides _ _).0 (not-eq-false _ cwd);
                    started_together = same_start-eq _ _ (not-eq-false _ start);
                    same_terminal = (list_eq.decides _ _).0 (not-eq-false _ tty);
                    session = rw (read, current, claude_record_session) at h;
                  }
            ]
      ]

  -- A held file whose record is current.
  abbrev pub HasCurrentRecord : Uuid → Type 0
  HasCurrentRecord session_id =
      (file : OpenedClaudeSessionFile) × (contains (claude_processes evidence)
          file.holder_process_id
        ≡ true)
      × IsCurrent file session_id

  add_record-HasCurrentRecord :
      (found : RecordIdentity) (file : OpenedClaudeSessionFile)
      → contains (claude_processes evidence) file.holder_process_id ≡ true
      → All HasCurrentRecord found.record_candidates
      → All HasCurrentRecord
          (add_record codecs parsers evidence found
            (claude_record_session codecs parsers evidence file)).record_candidates
  add_record-HasCurrentRecord found file held h =
      elim (Option-cases (claude_record_session codecs parsers evidence file)) [
        | inl invalid ↦ rw invalid h
        | inr (session_id, named) ↦ rw named (
            All-append HasCurrentRecord found.record_candidates (session_id ∷ []) h
              ((file, held, claude_record_session-IsCurrent file session_id named), tt))
      ]

  scan_claude_files-HasCurrentRecord :
      (files : List OpenedClaudeSessionFile) (found : RecordIdentity)
      → All HasCurrentRecord found.record_candidates
      → All HasCurrentRecord
          (scan_claude_files codecs parsers evidence found files).record_candidates
  unfolding scan_claude_files
  scan_claude_files-HasCurrentRecord [] found h = h
  scan_claude_files-HasCurrentRecord (file ∷ files) found h =
      elim (Bool-cases (contains (claude_processes evidence) file.holder_process_id)) [
        | inr other ↦
            rw (scan_claude_files, other) (scan_claude_files-HasCurrentRecord files found h)
        | inl held ↦
            rw (scan_claude_files, held)
              (scan_claude_files-HasCurrentRecord files _
                (add_record-HasCurrentRecord found file held h))
      ]

  scan_known_files-HasCurrentRecord :
      (known : Option (List OpenedClaudeSessionFile))
      → All HasCurrentRecord (scan_known_files codecs parsers evidence known).record_candidates
  unfolding scan_known_files
  scan_known_files-HasCurrentRecord none = tt
  scan_known_files-HasCurrentRecord (some files) =
      scan_claude_files-HasCurrentRecord files no_record_identity tt

  pub scan_claude_evidence-HasCurrentRecord :
      All HasCurrentRecord (scan_claude_evidence codecs parsers evidence).record_candidates
  unfolding scan_claude_evidence
  scan_claude_evidence-HasCurrentRecord =
      scan_known_files-HasCurrentRecord evidence.claude_session_evidence
