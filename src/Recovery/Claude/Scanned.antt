-- ===== src/Recovery/Claude/Scanned.antt =====
-- The scan of arguments finds exactly what the identity flags name.
use tmux_rescue.Common.{
  ==_ne, Bool-cases, List, Option-cases, [], ap, append-nil, append_assoc, false, inl, inr, list_eq,
  ne_==, none, num_eq, refl, some, subst, sym, true, ◌++◌, ◌==◌, ◌∙◌, ◌∷◌, ◌≡◌,
}
use tmux_rescue.Std.Text.{Bytes, lit}
use tmux_rescue.Model.Codec.{Codecs, Uuid}
use tmux_rescue.Model.OsString.{LosslessOsString}
use tmux_rescue.Recovery.Claude.Evidence.{
  FlagsName, IsIdentity, dashes, inline_flag, no_arguments, other_argument, separate_flag,
}
use tmux_rescue.Recovery.Claude.Flags.{
  IsInlineFlag-equals_value, equals_value-IsInlineFlag, inline-eq-false, is_separate_flag_iff,
  no_value, not_separate, parse_identity-IsIdentity, separate-eq-false, single_inline, single_other,
  step_dashes, step_separate, step_single, step_valueless,
}
use tmux_rescue.Recovery.Claude.Resolve.{
  ArgvIdentity, equals_value, is_separate_flag, parse_identity, saw_identity, scan_arguments,
  scan_single,
}
use tmux_rescue.Selector.{flag, value}

module _ (codecs : Codecs) where
  -- All flags so far were well-formed, and these sessions were added.
  abbrev pub IsExtended : ArgvIdentity → ArgvIdentity → List Uuid → Type 0
  IsExtended found result session_ids =
      (result.invalid_identity ≡ found.invalid_identity)
      × (result.argv_candidates ≡ found.argv_candidates ++ session_ids)

  saw_identity-IsExtended :
      (found result : ArgvIdentity) (session_id : Uuid) (session_ids : List Uuid)
      → IsExtended (saw_identity found (some session_id)) result session_ids
      → IsExtended found result (session_id ∷ session_ids)
  unfolding saw_identity
  saw_identity-IsExtended found result session_id session_ids (valid, added) =
      (valid, added ∙ append_assoc found.argv_candidates (session_id ∷ []) session_ids)

  pub FlagsName-IsExtended :
      (arguments : List LosslessOsString) (session_ids : List Uuid)
      → FlagsName codecs arguments session_ids
      → (found : ArgvIdentity)
      → IsExtended found (scan_arguments codecs found arguments) session_ids
  unfolding scan_arguments
  FlagsName-IsExtended _ _ no_arguments found = (refl, sym (append-nil found.argv_candidates))
  FlagsName-IsExtended _ _ (dashes {argument = argument} {rest = rest} same) found =
      subst (λ r. IsExtended found r [])
        (sym (
          step_dashes codecs found argument rest
            ((list_eq.decides argument.bytes (lit "--")).1 same)))
        (refl, sym (append-nil found.argv_candidates))
  FlagsName-IsExtended _ _
        (separate_flag {argument = argument} {value = value} {rest = rest} {session_id = session_id}
          {session_ids = session_ids} flag identity names)
        found =
      let read = (parse_identity-IsIdentity codecs value.bytes session_id).1 identity in
      let step =
        step_separate codecs found argument value rest (separate-eq-false argument.bytes flag)
          ((is_separate_flag_iff argument.bytes).1 flag)
        ∙ ap (λ o. scan_arguments codecs (saw_identity found o) rest) read in
      subst (λ r. IsExtended found r (session_id ∷ session_ids)) (sym step)
        (saw_identity-IsExtended found
          (scan_arguments codecs (saw_identity found (some session_id)) rest) session_id session_ids
          (FlagsName-IsExtended rest session_ids names (saw_identity found (some session_id))))
  FlagsName-IsExtended _ _
        (inline_flag {argument = argument} {value = value} {rest = rest} {session_id = session_id}
          {session_ids = session_ids} flag identity names)
        found =
      let read = (parse_identity-IsIdentity codecs value session_id).1 identity in
      let (not_dashes, not_flag) = inline-eq-false argument.bytes value flag in
      let step =
        step_single codecs found argument rest not_dashes not_flag
        ∙ ap (λ f. scan_arguments codecs f rest)
            (single_inline codecs found argument.bytes value
                (IsInlineFlag-equals_value argument.bytes value flag)
              ∙ ap (saw_identity found) read) in
      subst (λ r. IsExtended found r (session_id ∷ session_ids)) (sym step)
        (saw_identity-IsExtended found
          (scan_arguments codecs (saw_identity found (some session_id)) rest) session_id session_ids
          (FlagsName-IsExtended rest session_ids names (saw_identity found (some session_id))))
  FlagsName-IsExtended _ _
        (other_argument {argument = argument} {rest = rest} {session_ids = session_ids} not_dashes
          not_flag not_inline names)
        found =
      let step =
        step_single codecs found argument rest (ne_== argument.bytes (lit "--") not_dashes)
          (not_separate argument.bytes not_flag)
        ∙ ap (λ f. scan_arguments codecs f rest)
            (single_other codecs found argument.bytes (no_value argument.bytes not_inline)) in
      subst (λ r. IsExtended found r session_ids) (sym step)
        (FlagsName-IsExtended rest session_ids names found)

  -- What a valid scan from one state on found.
  abbrev IsScanned : ArgvIdentity → ArgvIdentity → List LosslessOsString → Type 0
  IsScanned found result arguments =
      (found.invalid_identity ≡ false)
      × (session_ids : List Uuid) × FlagsName codecs arguments session_ids
      × (result.argv_candidates ≡ found.argv_candidates ++ session_ids)

  -- A flag with its value, where the rest of the scan is known.
  saw_identity-IsScanned :
      (found result : ArgvIdentity) (value : Bytes) (rest arguments : List LosslessOsString)
      → ((session_id : Uuid) (session_ids : List Uuid)
          → IsIdentity codecs value session_id
          → FlagsName codecs rest session_ids
          → FlagsName codecs arguments (session_id ∷ session_ids))
      → IsScanned (saw_identity found (parse_identity codecs value)) result rest
      → IsScanned found result arguments
  unfolding saw_identity
  saw_identity-IsScanned found result value rest arguments names scanned =
      elim (Option-cases (parse_identity codecs value)) [
        | inl unread ↦ let (valid, _, _, _) = rw (unread, saw_identity) at scanned in cc
        | inr (session_id, read) ↦
            let (valid, session_ids, named, added) = rw (read, saw_identity) at scanned in
            (
              valid,
              session_id ∷ session_ids,
              names session_id session_ids
                  ((parse_identity-IsIdentity codecs value session_id).0 read) named,
              added ∙ append_assoc found.argv_candidates (session_id ∷ []) session_ids,
            )
      ]

  -- An argument of its own.
  scan_single-IsScanned :
      (found : ArgvIdentity) (argument : LosslessOsString) (rest : List LosslessOsString)
      → argument.bytes == lit "--" ≡ false
      → is_separate_flag argument.bytes ≡ false
      → ((from : ArgvIdentity)
          → (scan_arguments codecs from rest).invalid_identity ≡ false
          → IsScanned from (scan_arguments codecs from rest) rest)
      → (scan_arguments codecs found (argument ∷ rest)).invalid_identity ≡ false
      → IsScanned found (scan_arguments codecs found (argument ∷ rest)) (argument ∷ rest)
  scan_single-IsScanned found argument rest not_dashes not_flag later valid =
      let step = step_single codecs found argument rest not_dashes not_flag in
      let ended = sym (ap ArgvIdentity.invalid_identity step) ∙ valid in
      subst (λ r. IsScanned found r (argument ∷ rest)) (sym step)
        (elim (Option-cases (equals_value argument.bytes)) [
          | inl plain ↦
              let same = single_other codecs found argument.bytes plain in
              let (before, session_ids, named, added) =
                subst (λ f. IsScanned f (scan_arguments codecs f rest) rest) same
                  (later (scan_single codecs found argument.bytes) ended) in
              (
                before,
                session_ids,
                other_argument (==_ne argument.bytes (lit "--") not_dashes)
                    (λ flag. let is_flag = (is_separate_flag_iff argument.bytes).1 flag in cc)
                    (λ value flag.
                      let inline = IsInlineFlag-equals_value argument.bytes value flag in cc)
                    named,
                ap ArgvIdentity.argv_candidates (ap (λ f. scan_arguments codecs f rest) same)
                    ∙ added,
              )
          | inr (value, inline) ↦
              let same = single_inline codecs found argument.bytes value inline in
              subst (λ f. IsScanned found (scan_arguments codecs f rest) (argument ∷ rest))
                (sym same)
                (saw_identity-IsScanned found
                  (scan_arguments codecs (saw_identity found (parse_identity codecs value)) rest)
                  value rest (argument ∷ rest)
                  (λ session_id session_ids identity named.
                    inline_flag (equals_value-IsInlineFlag argument.bytes value inline) identity
                      named)
                  (later (saw_identity found (parse_identity codecs value))
                    (sym (ap (λ f. (scan_arguments codecs f rest).invalid_identity) same) ∙ ended)))
        ])

  valueless_invalid :
      (found : ArgvIdentity) → ¬ ((saw_identity found none).invalid_identity ≡ false)
  unfolding saw_identity
  valueless_invalid found h = cc

  dashes-IsScanned :
      (found : ArgvIdentity) (argument : LosslessOsString) (rest : List LosslessOsString)
      → argument.bytes == lit "--" ≡ true
      → (scan_arguments codecs found (argument ∷ rest)).invalid_identity ≡ false
      → IsScanned found (scan_arguments codecs found (argument ∷ rest)) (argument ∷ rest)
  dashes-IsScanned found argument rest ends valid =
      let step = step_dashes codecs found argument rest ends in
      subst (λ r. IsScanned found r (argument ∷ rest)) (sym step)
        (
          sym (ap ArgvIdentity.invalid_identity step) ∙ valid,
          [],
          dashes ((list_eq.decides argument.bytes (lit "--")).0 ends),
          sym (append-nil found.argv_candidates),
        )

  pub scan_arguments-FlagsName :
      (arguments : List LosslessOsString) (found : ArgvIdentity)
      → (scan_arguments codecs found arguments).invalid_identity ≡ false
      → IsScanned found (scan_arguments codecs found arguments) arguments
  unfolding scan_arguments
  scan_arguments-FlagsName [] found valid =
      (valid, [], no_arguments, sym (append-nil found.argv_candidates))
  scan_arguments-FlagsName (argument ∷ []) found valid =
      elim (Bool-cases (argument.bytes == lit "--")) [
        | inl ends ↦ dashes-IsScanned found argument [] ends valid
        | inr not_dashes ↦ elim (Bool-cases (is_separate_flag argument.bytes)) [
          | inl flag ↦
              let step = step_valueless codecs found argument not_dashes flag in
              let never = sym (ap ArgvIdentity.invalid_identity step) ∙ valid in
              absurd (valueless_invalid found never)
          | inr not_flag ↦
              scan_single-IsScanned found argument [] not_dashes not_flag
                (λ from. scan_arguments-FlagsName [] from) valid
        ]
      ]
  scan_arguments-FlagsName (argument ∷ value ∷ rest) found valid =
      elim (Bool-cases (argument.bytes == lit "--")) [
        | inl ends ↦ dashes-IsScanned found argument (value ∷ rest) ends valid
        | inr not_dashes ↦ elim (Bool-cases (is_separate_flag argument.bytes)) [
          | inl flag ↦
              let step = step_separate codecs found argument value rest not_dashes flag in
              subst (λ r. IsScanned found r (argument ∷ value ∷ rest)) (sym step)
                (saw_identity-IsScanned found
                  (scan_arguments codecs (saw_identity found (parse_identity codecs value.bytes))
                    rest)
                  value.bytes rest (argument ∷ value ∷ rest)
                  (λ session_id session_ids identity named.
                    separate_flag ((is_separate_flag_iff argument.bytes).0 flag) identity named)
                  (scan_arguments-FlagsName rest
                    (saw_identity found (parse_identity codecs value.bytes))
                    (sym (ap ArgvIdentity.invalid_identity step) ∙ valid)))
          | inr not_flag ↦
              scan_single-IsScanned found argument (value ∷ rest) not_dashes not_flag
                (λ from. scan_arguments-FlagsName (value ∷ rest) from) valid
        ]
      ]
