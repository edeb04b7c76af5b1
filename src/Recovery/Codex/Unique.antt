-- ===== src/Recovery/Codex/Unique.antt =====
-- A Codex session is resolved exactly if one of the distinct held files names it.
use tmux_rescue.Common.{
  All, Bool-cases, List, Result, [], ap, arith, contains, err, if◌then◌else◌, inl, inr, list_eq,
  not, num_eq, ok, ok-injective, refl, sym, ℕ, ◌+◌, ◌∙◌, ◌∷◌, ◌≡◌, ◌≤◌, ◌⊎◌,
}
use tmux_rescue.Std.Text.{Text}
use tmux_rescue.Model.Codec.{Codecs, Uuid}
use tmux_rescue.Recovery.Codex.{
  Candidates, RecordVerdict, add_candidate, candidate, examine_codex_record, gives_up, has_identity,
  passed_over, scan_codex_files,
}
use tmux_rescue.Recovery.Evidence.{OpenedCodexSessionFile}
use tmux_rescue.Recovery.Outcome.{RecordParsers, ResolverOutcome}

pub Verdict-cases :
    (verdict : RecordVerdict)
    → (verdict ≡ passed_over)
      ⊎ ((session_id : Uuid) × (verdict ≡ candidate session_id))
      ⊎ ((outcome : ResolverOutcome) × (verdict ≡ gives_up outcome))
Verdict-cases passed_over = inl refl
Verdict-cases (candidate session_id) = inr (inl (session_id, refl))
Verdict-cases (gives_up outcome) = inr (inr (outcome, refl))

-- The files that a Codex process holds, the first of each identity.
pub distinct_held :
    List ℕ → List (ℕ × ℕ) → List OpenedCodexSessionFile → List OpenedCodexSessionFile
distinct_held processes seen [] = []
distinct_held processes seen (file ∷ files) =
    let same = distinct_held processes seen files in
    let further = distinct_held processes ((file.device, file.inode) ∷ seen) files in
    if not (contains processes file.holder_process_id)
    then same
    else if has_identity seen file.device file.inode
    then same
    else file ∷ further

module _ (codecs : Codecs) (parsers : RecordParsers) (pane_cwd : Text) where
  abbrev pub verdict_of : OpenedCodexSessionFile → RecordVerdict
  verdict_of = examine_codex_record codecs parsers pane_cwd

  abbrev IsPassedOver : OpenedCodexSessionFile → Type 0
  IsPassedOver file = verdict_of file ≡ passed_over

  -- One file is a candidate with this identifier, and all others are passed over.
  pub data HasOneCandidate (session_id : Uuid) : List OpenedCodexSessionFile → Type 0 where
    first_file :
        {file : OpenedCodexSessionFile} {files : List OpenedCodexSessionFile}
        → verdict_of file ≡ candidate session_id
        → All IsPassedOver files
        → HasOneCandidate session_id (file ∷ files)
    later_file :
        {file : OpenedCodexSessionFile} {files : List OpenedCodexSessionFile}
        → IsPassedOver file
        → HasOneCandidate session_id files
        → HasOneCandidate session_id (file ∷ files)

  -- The loop on files that are held and distinct.
  pub scan_records : Candidates → List OpenedCodexSessionFile → Result ResolverOutcome Candidates
  scan_records found [] = ok found
  scan_records found (file ∷ files) = elim (verdict_of file) [
    | passed_over ↦ scan_records found files
    | candidate session_id ↦ scan_records (add_candidate found session_id) files
    | gives_up outcome ↦ err outcome
  ]

  pub passed_step :
      (found : Candidates) (file : OpenedCodexSessionFile) (files : List OpenedCodexSessionFile)
      → IsPassedOver file
      → scan_records found (file ∷ files) ≡ scan_records found files
  unfolding scan_records
  passed_step found file files h = rw (h, scan_records) refl

  pub candidate_step :
      (found : Candidates) (file : OpenedCodexSessionFile) (files : List OpenedCodexSessionFile)
      (session_id : Uuid)
      → verdict_of file ≡ candidate session_id
      → scan_records found (file ∷ files) ≡ scan_records (add_candidate found session_id) files
  unfolding scan_records
  candidate_step found file files session_id h = rw (h, scan_records) refl

  pub gives_up_step :
      (found : Candidates) (file : OpenedCodexSessionFile) (files : List OpenedCodexSessionFile)
      (outcome : ResolverOutcome)
      → verdict_of file ≡ gives_up outcome
      → scan_records found (file ∷ files) ≡ err outcome
  unfolding scan_records
  gives_up_step found file files outcome h = rw (h, scan_records) refl

  pub passed-scan_records :
      (found : Candidates) (files : List OpenedCodexSessionFile)
      → All IsPassedOver files
      → scan_records found files ≡ ok found
  unfolding scan_records
  passed-scan_records found [] h = refl
  passed-scan_records found (file ∷ files) (passed, h) =
      passed_step found file files passed ∙ passed-scan_records found files h

  pub one-scan_records :
      (found : Candidates) (session_id : Uuid) (files : List OpenedCodexSessionFile)
      → HasOneCandidate session_id files
      → scan_records found files ≡ ok (add_candidate found session_id)
  one-scan_records found session_id [] one = elim one [ ]
  one-scan_records found session_id (file ∷ files) (first_file h passed) =
      candidate_step found file files session_id h ∙ passed-scan_records _ files passed
  one-scan_records found session_id (file ∷ files) (later_file h one) =
      passed_step found file files h ∙ one-scan_records found session_id files one

  scan_records_grows :
      (found final : Candidates) (files : List OpenedCodexSessionFile)
      → scan_records found files ≡ ok final
      → found.matching_candidates ≤ final.matching_candidates
  unfolding scan_records add_candidate
  scan_records_grows found final [] h = let same = ok-injective h in rw (← same) (omega arith)
  scan_records_grows found final (file ∷ files) h = elim (Verdict-cases (verdict_of file)) [
    | inl passed ↦
        scan_records_grows found final files (sym (passed_step found file files passed) ∙ h)
    | inr (inl (session_id, new)) ↦
        let more =
          scan_records_grows (add_candidate found session_id) final files
            (sym (candidate_step found file files session_id new) ∙ h) in
        omega arith
    | inr (inr (outcome, stopped)) ↦ let step = gives_up_step found file files outcome stopped in cc
  ]

  scan_records-none :
      (found final : Candidates) (files : List OpenedCodexSessionFile)
      → scan_records found files ≡ ok final
      → final.matching_candidates ≡ found.matching_candidates
      → All IsPassedOver files × (final ≡ found)
  unfolding scan_records add_candidate
  scan_records-none found final [] h same = (tt, sym (ok-injective h))
  scan_records-none found final (file ∷ files) h same = elim (Verdict-cases (verdict_of file)) [
    | inl passed ↦
        let (others, kept) =
          scan_records-none found final files (sym (passed_step found file files passed) ∙ h)
            same in
        ((passed, others), kept)
    | inr (inl (session_id, new)) ↦
        let more =
          scan_records_grows (add_candidate found session_id) final files
            (sym (candidate_step found file files session_id new) ∙ h) in
        absurd (omega arith)
    | inr (inr (outcome, stopped)) ↦ let step = gives_up_step found file files outcome stopped in cc
  ]

  pub scan_records-one :
      (found final : Candidates) (files : List OpenedCodexSessionFile)
      → scan_records found files ≡ ok final
      → final.matching_candidates ≡ found.matching_candidates + 1
      → (session_id : Uuid) × HasOneCandidate session_id files
        × (final ≡ add_candidate found session_id)
  unfolding scan_records add_candidate
  scan_records-one found final [] h one =
      let same = ap Candidates.matching_candidates (ok-injective h) in absurd (omega arith)
  scan_records-one found final (file ∷ files) h one = elim (Verdict-cases (verdict_of file)) [
    | inl passed ↦
        let (session_id, others, kept) =
          scan_records-one found final files (sym (passed_step found file files passed) ∙ h) one in
        (session_id, later_file passed others, kept)
    | inr (inl (session_id, new)) ↦
        let (others, kept) =
          scan_records-none (add_candidate found session_id) final files
            (sym (candidate_step found file files session_id new) ∙ h) one in
        (session_id, first_file new others, kept)
    | inr (inr (outcome, stopped)) ↦ let step = gives_up_step found file files outcome stopped in cc
  ]

  -- The loop of the code passes over a file that is not held, or of an identity seen before.
  pub scan_codex_files-distinct_held :
      (processes : List ℕ) (seen : List (ℕ × ℕ)) (found : Candidates)
      (files : List OpenedCodexSessionFile)
      → scan_codex_files codecs parsers processes pane_cwd seen found files
        ≡ scan_records found (distinct_held processes seen files)
  unfolding scan_codex_files scan_records distinct_held
  scan_codex_files-distinct_held processes seen found [] = refl
  scan_codex_files-distinct_held processes seen found (file ∷ files) =
      elim (Bool-cases (contains processes file.holder_process_id)) [
        | inr other ↦
            rw (scan_codex_files, distinct_held, other)
              (scan_codex_files-distinct_held processes seen found files)
        | inl held ↦
            let inserted = (file.device, file.inode) ∷ seen in
            elim (Bool-cases (has_identity seen file.device file.inode)) [
              | inl old ↦
                  rw (scan_codex_files, distinct_held, held, old)
                    (scan_codex_files-distinct_held processes seen found files)
              | inr new ↦ elim (Verdict-cases (verdict_of file)) [
                | inl passed ↦
                    rw (scan_codex_files, distinct_held, scan_records, held, new, passed)
                      (scan_codex_files-distinct_held processes inserted found files)
                | inr (inl (session_id, match)) ↦
                    rw (scan_codex_files, distinct_held, scan_records, held, new, match)
                      (scan_codex_files-distinct_held processes inserted
                        (add_candidate found session_id) files)
                | inr (inr (outcome, stopped)) ↦
                    rw (scan_codex_files, distinct_held, scan_records, held, new, stopped) refl
              ]
            ]
      ]
