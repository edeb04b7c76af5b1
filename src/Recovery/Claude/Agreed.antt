-- ===== src/Recovery/Claude/Agreed.antt =====
-- What it means that `resolve_claude` returns an automatic recovery.
use tmux_rescue.Common.{
  ==_refl, Bool, Bool-cases, List, Option, [], ap, arith, false, inl, inr, is_empty, length,
  list_eq, ltb, none, not_ltb→le, num_eq, or-eq-false, refl, some, some-injective, subst, suc, sym,
  true, ℕ, ◌==◌, ◌||◌, ◌↔◌, ◌∙◌, ◌∷◌, ◌≡◌, ◌⊎◌,
}
use tmux_rescue.Model.Codec.{Codecs, Uuid}
use tmux_rescue.Model.Command.{CapturedCommand}
use tmux_rescue.Model.Recovery.{AutomaticRecovery, claude_code}
use tmux_rescue.Recovery.Claude.Evidence.{
  ClaudeCommands, ClaudeCommands-claude_commands_of, CommandsName, KnownRecordsName,
  claude_commands_of-ClaudeCommands,
}
use tmux_rescue.Recovery.Claude.Named.{
  scan_commands-CommandsName_iff, scan_known_files-KnownRecordsName,
}
use tmux_rescue.Recovery.Claude.Resolve.{
  ArgvIdentity, RecordIdentity, agreed_session, claude_commands, claude_outcome, first_of,
  no_argv_identity, resolve_claude, scan_claude_evidence, scan_commands,
}
use tmux_rescue.Recovery.Evidence.{PaneTiedForegroundEvidence}
use tmux_rescue.Recovery.Outcome.{RecordParsers, automatic_outcome, process_commands}

abbrev pub claude_session_of : Uuid → AutomaticRecovery
claude_session_of session_id = claude_code (record { uuid = session_id })

-- The arguments, the records, or both name the session once, and none names another.
pub data NamesOnly (session_id : Uuid) : (argv records : List Uuid) → Type 0 where
  by_argv : NamesOnly session_id (session_id ∷ []) []
  by_record : NamesOnly session_id [] (session_id ∷ [])
  by_both : NamesOnly session_id (session_id ∷ []) (session_id ∷ [])

-- All evidence was well-formed and current, and names this one session.
abbrev pub AgreesOn : Uuid → ArgvIdentity → RecordIdentity → Type 0
AgreesOn session_id argv records =
    (argv.invalid_identity ≡ false)
    × (records.invalid_record ≡ false)
    × NamesOnly session_id argv.argv_candidates records.record_candidates

agreed_session-automatic :
    (saw_flag : Bool) (argv records : Option Uuid) (recovery : AutomaticRecovery)
    → agreed_session saw_flag argv records ≡ automatic_outcome recovery
    → (session_id : Uuid) × (recovery ≡ claude_session_of session_id)
      × (((argv ≡ some session_id) × (records ≡ some session_id))
          ⊎ ((argv ≡ some session_id) × (records ≡ none))
          ⊎ ((argv ≡ none) × (records ≡ some session_id)))
unfolding agreed_session
agreed_session-automatic saw_flag (some a) (some b) recovery h = elim (Bool-cases (a == b)) [
  | inl same ↦
      let equal : a ≡ b = (num_eq.decides a b).0 same in
      let named = rw (same, agreed_session) at h in (a, cc, inl (refl, ap some (sym equal)))
  | inr differ ↦ let never = rw (differ, agreed_session) at h in cc
]
agreed_session-automatic saw_flag (some a) none recovery h = (a, cc, inr (inl (refl, refl)))
agreed_session-automatic saw_flag none (some b) recovery h = (b, cc, inr (inr (refl, refl)))
agreed_session-automatic true none none recovery h = cc
agreed_session-automatic false none none recovery h = cc

-- At most one candidate, by the first.
first_of-none : (ids : List Uuid) → first_of ids ≡ none → ids ≡ []
first_of-none [] h = refl
first_of-none (a ∷ ids) h = cc

first_of-some :
    (ids : List Uuid) (session_id : Uuid)
    → ltb 1 (length ids) ≡ false
    → first_of ids ≡ some session_id
    → ids ≡ session_id ∷ []
first_of-some [] session_id few h = cc
first_of-some (a ∷ []) session_id few h = ap (λ x. x ∷ []) (some-injective h)
first_of-some (a ∷ b ∷ ids) session_id few h =
    let never = not_ltb→le (suc (suc (length ids))) 1 few in absurd (omega arith)

named_only :
    (argv records : List Uuid) (session_id : Uuid)
    → ltb 1 (length argv) ≡ false
    → ltb 1 (length records) ≡ false
    → ((first_of argv ≡ some session_id) × (first_of records ≡ some session_id))
      ⊎ ((first_of argv ≡ some session_id) × (first_of records ≡ none))
      ⊎ ((first_of argv ≡ none) × (first_of records ≡ some session_id))
    → NamesOnly session_id argv records
named_only argv records session_id few_argv few_records = elim [
  | inl (a, r) ↦
      rw (first_of-some argv session_id few_argv a, first_of-some records session_id few_records r)
        by_both
  | inr (inl (a, r)) ↦
      rw (first_of-some argv session_id few_argv a, first_of-none records r) by_argv
  | inr (inr (a, r)) ↦
      rw (first_of-none argv a, first_of-some records session_id few_records r) by_record
]

claude_outcome-automatic :
    (argv : ArgvIdentity) (records : RecordIdentity) (recovery : AutomaticRecovery)
    → claude_outcome argv records ≡ automatic_outcome recovery
    → (session_id : Uuid) × (recovery ≡ claude_session_of session_id)
      × AgreesOn session_id argv records
unfolding claude_outcome
claude_outcome-automatic argv records recovery h =
    elim (Bool-cases
      (ltb 1 (length argv.argv_candidates) || ltb 1 (length records.record_candidates))) [
        | inl many ↦ let never = rw (many, claude_outcome) at h in cc
        | inr few ↦ elim (Bool-cases (argv.invalid_identity || records.invalid_record)) [
          | inl invalid ↦ let never = rw (few, invalid, claude_outcome) at h in cc
          | inr valid ↦
              let (session_id, result, first) =
                agreed_session-automatic argv.saw_identity_flag (first_of argv.argv_candidates)
                  (first_of records.record_candidates) recovery
                  (rw (few, valid, claude_outcome) at h) in
              let (few_argv, few_records) = or-eq-false _ _ few in
              let (valid_argv, valid_records) = or-eq-false _ _ valid in
              (
                session_id,
                result,
                (
                  valid_argv,
                  valid_records,
                  named_only argv.argv_candidates records.record_candidates session_id few_argv
                      few_records first,
                ),
              )
        ]
      ]

NamesOnly-claude_outcome :
    (saw_flag invalid_argv invalid_files : Bool) (session_id : Uuid) (argv records : List Uuid)
    → invalid_argv ≡ false
    → invalid_files ≡ false
    → NamesOnly session_id argv records
    → claude_outcome
        (record {
          saw_identity_flag = saw_flag;
          invalid_identity = invalid_argv;
          argv_candidates = argv;
        })
        (record { invalid_record = invalid_files; record_candidates = records })
      ≡ automatic_outcome (claude_session_of session_id)
unfolding claude_outcome agreed_session
NamesOnly-claude_outcome saw_flag true j session_id argv records valid current names = cc
NamesOnly-claude_outcome saw_flag false true session_id argv records valid current names = cc
NamesOnly-claude_outcome saw_flag false false session_id argv records valid current by_argv = refl
NamesOnly-claude_outcome saw_flag false false session_id argv records valid current by_record = refl
NamesOnly-claude_outcome saw_flag false false session_id argv records valid current by_both =
    rw (==_refl session_id) refl

AgreesOn-claude_outcome :
    (argv : ArgvIdentity) (records : RecordIdentity) (session_id : Uuid)
    → AgreesOn session_id argv records
    → claude_outcome argv records ≡ automatic_outcome (claude_session_of session_id)
AgreesOn-claude_outcome argv records session_id (valid, current, names) =
    NamesOnly-claude_outcome argv.saw_identity_flag argv.invalid_identity records.invalid_record
      session_id argv.argv_candidates records.record_candidates valid current names

-- What the flags of these commands and the records that their processes hold name is one session.
abbrev pub AgreedEvidence :
    Codecs → RecordParsers → PaneTiedForegroundEvidence → List (ℕ × CapturedCommand) → Uuid → Type 0
AgreedEvidence codecs parsers evidence commands session_id =
    (argv_ids : List Uuid) × (record_ids : List Uuid) × CommandsName codecs commands argv_ids
    × KnownRecordsName codecs parsers evidence commands evidence.claude_session_evidence record_ids
    × NamesOnly session_id argv_ids record_ids

pub AgreesOn-AgreedEvidence :
    (codecs : Codecs) (parsers : RecordParsers) (evidence : PaneTiedForegroundEvidence)
    (session_id : Uuid)
    → AgreesOn session_id
        (scan_commands codecs no_argv_identity (claude_commands evidence))
        (scan_claude_evidence codecs parsers evidence)
      ↔ AgreedEvidence codecs parsers evidence (claude_commands evidence) session_id
unfolding scan_claude_evidence
AgreesOn-AgreedEvidence codecs parsers evidence session_id = (
  λ (valid, current, names). (
    _,
    _,
    (scan_commands-CommandsName_iff codecs (claude_commands evidence) _).0 (valid, refl),
    (scan_known_files-KnownRecordsName codecs parsers evidence evidence.claude_session_evidence _).0
        (current, refl),
    names,
  ),
  λ (argv_ids, record_ids, flags, records, names).
      let (valid, same) =
        (scan_commands-CommandsName_iff codecs (claude_commands evidence) argv_ids).1 flags in
      let (current, same') =
        (scan_known_files-KnownRecordsName codecs parsers evidence evidence.claude_session_evidence
            record_ids).1
          records in
      (
        valid,
        current,
        subst (λ r. NamesOnly session_id _ r) (sym same')
            (subst (λ a. NamesOnly session_id a record_ids) (sym same) names),
      ),
)

-- A Claude session is recovered exactly if a process of the group is a Claude TUI, every identity
-- flag of these processes has a well-formed value, every record that they hold is current, and the
-- flags, the records or both name the session once and no other.
pub resolve_claude-automatic_iff :
    (codecs : Codecs) (parsers : RecordParsers) (evidence : PaneTiedForegroundEvidence)
    (recovery : AutomaticRecovery)
    → (resolve_claude codecs parsers evidence ≡ some (automatic_outcome recovery)) ↔ (
        (session_id : Uuid) × (commands : List (ℕ × CapturedCommand)) × (recovery
          ≡ claude_session_of session_id)
        × ClaudeCommands (process_commands evidence) commands
        × (is_empty commands ≡ false)
        × AgreedEvidence codecs parsers evidence commands session_id)
unfolding resolve_claude
resolve_claude-automatic_iff codecs parsers evidence recovery =
    let argv = scan_commands codecs no_argv_identity (claude_commands evidence) in
    let records = scan_claude_evidence codecs parsers evidence in
    (
      λ h. elim (Bool-cases (is_empty (claude_commands evidence))) [
        | inl idle_group ↦ let never = rw (idle_group, resolve_claude) at h in cc
        | inr running ↦
            let (session_id, result, agrees) =
              claude_outcome-automatic argv records recovery
                (some-injective (rw (running, resolve_claude) at h)) in
            (
              session_id,
              claude_commands evidence,
              result,
              claude_commands_of-ClaudeCommands (process_commands evidence),
              running,
              (AgreesOn-AgreedEvidence codecs parsers evidence session_id).0 agrees,
            )
      ],
      λ (session_id, commands, result, listed, running, agreed).
          let same =
            ClaudeCommands-claude_commands_of (process_commands evidence) commands listed in
          let running' = subst (λ l. is_empty l ≡ false) same running in
          let agreed' =
            subst (λ l. AgreedEvidence codecs parsers evidence l session_id) same agreed in
          rw (running', resolve_claude)
            (ap some (
              AgreesOn-claude_outcome argv records session_id
                ((AgreesOn-AgreedEvidence codecs parsers evidence session_id).1 agreed')
              ∙ ap automatic_outcome (sym result))),
    )
