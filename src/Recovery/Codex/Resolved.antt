-- ===== src/Recovery/Codex/Resolved.antt =====
-- What it means that `resolve_codex` returns an automatic recovery.
use tmux_rescue.Common.{
  Bool-cases, List, Option, Option-cases, Result-cases, [], ap, err, false, inl, inr, is_empty,
  list_eq, none, num_eq, refl, some, some-injective, suc, sym, true, zero, ℕ, ◌↔◌, ◌∙◌, ◌∷◌, ◌≡◌,
}
use tmux_rescue.Std.Text.{Bytes, Text}
use tmux_rescue.Std.Utf8.{is_utf8}
use tmux_rescue.Model.Codec.{Codecs, Uuid}
use tmux_rescue.Model.Recovery.{AutomaticRecovery, codex}
use tmux_rescue.Recovery.Codex.{
  Candidates, add_candidate, codex_outcome, codex_processes, examine_codex_record, gives_up,
  is_root_session, no_candidates, resolve_codex, resolve_codex_files, scanned_outcome,
}
use tmux_rescue.Recovery.Codex.Unique.{
  HasOneCandidate, Verdict-cases, candidate_step, distinct_held, gives_up_step, one-scan_records,
  passed-scan_records, passed_step, scan_codex_files-distinct_held, scan_records, scan_records-one,
}
use tmux_rescue.Recovery.Evidence.{OpenedCodexSessionFile, PaneTiedForegroundEvidence}
use tmux_rescue.Recovery.Outcome.{RecordParsers, automatic_outcome}

abbrev pub codex_session : Uuid → AutomaticRecovery
codex_session session_id = codex (record { uuid = session_id }) none

codex_outcome-automatic :
    (count : ℕ) (ids : List Uuid) (recovery : AutomaticRecovery)
    → codex_outcome count ids ≡ automatic_outcome recovery
    → (count ≡ 1)
      × (session_id : Uuid) × (others : List Uuid) × (ids ≡ session_id ∷ others)
      × (recovery ≡ codex_session session_id)
unfolding codex_outcome
codex_outcome-automatic zero ids recovery h = cc
codex_outcome-automatic (suc zero) [] recovery h = cc
codex_outcome-automatic (suc zero) (session_id ∷ others) recovery h =
    (refl, session_id, others, refl, cc)
codex_outcome-automatic (suc (suc _)) ids recovery h = cc

module _ (codecs : Codecs) (parsers : RecordParsers) where
  gives_up-not_automatic :
      (pane_cwd : Text) (file : OpenedCodexSessionFile) (recovery : AutomaticRecovery)
      → ¬ (
          examine_codex_record codecs parsers pane_cwd file ≡ gives_up (automatic_outcome recovery))
  unfolding examine_codex_record
  gives_up-not_automatic pane_cwd file recovery h =
      elim (Result-cases (parsers.codex_meta file.first_record)) [
        | inr (error, broken_record) ↦
            let never = rw (broken_record, examine_codex_record) at h in cc
        | inl (meta, parsed) ↦ elim (Bool-cases (is_root_session pane_cwd meta)) [
          | inr other ↦ let never = rw (parsed, other, examine_codex_record) at h in cc
          | inl root ↦ elim (Option-cases (codecs.uuid_parse meta.payload.id)) [
            | inl no_uuid ↦ let never = rw (parsed, root, no_uuid, examine_codex_record) at h in cc
            | inr (session_id, well) ↦
                let never = rw (parsed, root, well, examine_codex_record) at h in cc
          ]
        ]
      ]

  -- An early return is never a session.
  scan_records-err :
      (pane_cwd : Text) (found : Candidates) (files : List OpenedCodexSessionFile)
      (recovery : AutomaticRecovery)
      → ¬ (scan_records codecs parsers pane_cwd found files ≡ err (automatic_outcome recovery))
  scan_records-err pane_cwd found [] recovery h =
      let same = passed-scan_records codecs parsers pane_cwd found [] tt in cc
  scan_records-err pane_cwd found (file ∷ files) recovery h =
      elim (Verdict-cases (examine_codex_record codecs parsers pane_cwd file)) [
        | inl passed ↦
            scan_records-err pane_cwd found files recovery
              (sym (passed_step codecs parsers pane_cwd found file files passed) ∙ h)
        | inr (inl (session_id, match)) ↦
            scan_records-err pane_cwd (add_candidate found session_id) files recovery
              (sym (candidate_step codecs parsers pane_cwd found file files session_id match) ∙ h)
        | inr (inr (outcome, stopped)) ↦
            let early = gives_up_step codecs parsers pane_cwd found file files outcome stopped in
            let same : outcome ≡ automatic_outcome recovery = cc in
            gives_up-not_automatic pane_cwd file recovery (rw same at stopped)
      ]

  scanned_outcome-automatic_iff :
      (pane_cwd : Text) (files : List OpenedCodexSessionFile) (recovery : AutomaticRecovery)
      → (scanned_outcome (scan_records codecs parsers pane_cwd no_candidates files)
          ≡ automatic_outcome recovery)
        ↔ ((session_id : Uuid) × (recovery ≡ codex_session session_id)
            × HasOneCandidate codecs parsers pane_cwd session_id files)
  unfolding codex_outcome add_candidate no_candidates
  scanned_outcome-automatic_iff pane_cwd files recovery = (
    λ h. elim (Result-cases (scan_records codecs parsers pane_cwd no_candidates files)) [
      | inr (outcome, early) ↦
          let same : outcome ≡ automatic_outcome recovery = rw early at h in
          absurd (scan_records-err pane_cwd no_candidates files recovery (rw same at early))
      | inl (final, scanned) ↦
          let (count, named, others, ids, result) =
            codex_outcome-automatic final.matching_candidates final.session_ids recovery
              (rw scanned at h) in
          let (session_id, one, kept) =
            scan_records-one codecs parsers pane_cwd no_candidates final files scanned count in
          let recorded_ids = ap Candidates.session_ids kept in
          let same : named ≡ session_id = cc in (session_id, result ∙ ap codex_session same, one)
    ],
    λ (session_id, result, one).
        ap scanned_outcome
          (one-scan_records codecs parsers pane_cwd no_candidates session_id files one)
        ∙ ap automatic_outcome (sym result),
  )

  resolve_codex_files-automatic_iff :
      (processes : List ℕ) (directory : Bytes) (held : Option (List OpenedCodexSessionFile))
      (recovery : AutomaticRecovery)
      → (resolve_codex_files codecs parsers processes directory held ≡ automatic_outcome recovery)
        ↔ ((session_id : Uuid) × (files : List OpenedCodexSessionFile) × (recovery
              ≡ codex_session session_id)
            × (held ≡ some files)
            × (is_utf8 directory ≡ true)
            × HasOneCandidate codecs parsers directory session_id
                (distinct_held processes [] files))
  unfolding resolve_codex_files
  resolve_codex_files-automatic_iff processes directory none recovery =
      (λ h. cc, λ (session_id, files, result, known, _, _). cc)
  resolve_codex_files-automatic_iff processes directory (some files) recovery =
      let same =
        scan_codex_files-distinct_held codecs parsers directory processes [] no_candidates files in
      let iff =
        scanned_outcome-automatic_iff directory (distinct_held processes [] files) recovery in
      elim (Bool-cases (is_utf8 directory)) [
        | inr other ↦ (
          λ h. let never = rw (other, resolve_codex_files) at h in cc,
          λ (_, _, _, _, utf8_directory, _). cc,
        )
        | inl utf8_directory ↦ (
          λ h.
              let reached = rw (utf8_directory, resolve_codex_files) at h in
              let (session_id, result, one) = iff.0 (ap scanned_outcome (sym same) ∙ reached) in
              (session_id, files, result, refl, utf8_directory, one),
          λ (session_id, held_files, result, known, _, one).
              let files_are : held_files ≡ files = cc in
              rw (utf8_directory, resolve_codex_files)
                (ap scanned_outcome same ∙ iff.1 (session_id, result, rw files_are at one)),
        )
      ]

  -- A Codex session is recovered exactly if a process of the group is a Codex TUI, its files are
  -- known, the directory is UTF-8 and, among the files that a Codex process holds, the first of
  -- each device and inode, one names the session and all others are passed over.
  pub resolve_codex-automatic_iff :
      (evidence : PaneTiedForegroundEvidence) (recovery : AutomaticRecovery)
      → (resolve_codex codecs parsers evidence ≡ some (automatic_outcome recovery)) ↔ (
          (session_id : Uuid) × (files : List OpenedCodexSessionFile) × (recovery
            ≡ codex_session session_id)
          × (is_empty (codex_processes evidence) ≡ false)
          × (evidence.codex_session_evidence ≡ some files)
          × (is_utf8 evidence.pane_working_directory.path.bytes ≡ true)
          × HasOneCandidate codecs parsers evidence.pane_working_directory.path.bytes session_id
              (distinct_held (codex_processes evidence) [] files))
  unfolding resolve_codex
  resolve_codex-automatic_iff evidence recovery = (
    λ h. elim (Bool-cases (is_empty (codex_processes evidence))) [
      | inl idle_group ↦ let never = rw (idle_group, resolve_codex) at h in cc
      | inr running ↦
          let (session_id, files, result, known, utf8_directory, one) =
            (resolve_codex_files-automatic_iff (codex_processes evidence)
                evidence.pane_working_directory.path.bytes evidence.codex_session_evidence
                recovery).0
              (some-injective (rw (running, resolve_codex) at h)) in
          (session_id, files, result, running, known, utf8_directory, one)
    ],
    λ (session_id, files, result, running, known, utf8_directory, one).
        rw (running, resolve_codex)
          (ap some (
            (resolve_codex_files-automatic_iff (codex_processes evidence)
                evidence.pane_working_directory.path.bytes evidence.codex_session_evidence
                recovery).1
              (session_id, files, result, known, utf8_directory, one))),
  )
