-- ===== src/Recovery/Claude/Flags.antt =====
-- The identity flags of an argument, and the steps of the scan of arguments.
use mathlib.Core.Path.{ap₂}
use tmux_rescue.Common.{
  ==_ne, Bool-cases, List, Option-cases, [], ap, false, inl, inr, list_eq, none, num_eq, refl, some,
  some-injective, true, ◌++◌, ◌==◌, ◌↔◌, ◌∙◌, ◌∷◌, ◌≡◌,
}
use tmux_rescue.Std.Text.{Bytes, lit, strip_prefix}
use tmux_rescue.Std.Utf8.{is_utf8}
use tmux_rescue.Model.Codec.{Codecs, Uuid}
use tmux_rescue.Model.OsString.{LosslessOsString}
use tmux_rescue.Recovery.Claude.Evidence.{IsIdentity, IsInlineFlag, IsSeparateFlag}
use tmux_rescue.Recovery.Claude.Resolve.{
  ArgvIdentity, equals_value, is_separate_flag, parse_identity, saw_identity, scan_arguments,
  scan_single,
}
use tmux_rescue.Selector.{flag, value}

strip_prefix-eq-some :
    (text prefix rest : Bytes) → strip_prefix text prefix ≡ some rest → text ≡ prefix ++ rest
strip_prefix-eq-some text [] rest h = some-injective h
strip_prefix-eq-some [] (d ∷ prefix) rest h = cc
strip_prefix-eq-some (c ∷ text) (d ∷ prefix) rest h = elim (Bool-cases (c == d)) [
  | inl same ↦
      ap₂ ◌∷◌ ((num_eq.decides c d).0 same) (strip_prefix-eq-some text prefix rest (rw same at h))
  | inr differ ↦ let never = rw differ at h in cc
]

pub equals_value-IsInlineFlag :
    (argument value : Bytes) → equals_value argument ≡ some value → IsInlineFlag argument value
unfolding equals_value
equals_value-IsInlineFlag argument value h =
    elim (Option-cases (strip_prefix argument (lit "--session-id="))) [
      | inl other ↦
          inr
            (strip_prefix-eq-some argument (lit "--resume=") value (rw (other, equals_value) at h))
      | inr (found, named) ↦
          let same = some-injective (rw (named, equals_value) at h) in
          inl (
            strip_prefix-eq-some argument (lit "--session-id=") found named
            ∙ ap (λ v. lit "--session-id=" ++ v) same)
    ]

equals_value-append :
    (value : Bytes)
    → (equals_value (lit "--session-id=" ++ value) ≡ some value)
      × (equals_value (lit "--resume=" ++ value) ≡ some value)
unfolding equals_value
equals_value-append value = (refl, refl)

pub IsInlineFlag-equals_value :
    (argument value : Bytes) → IsInlineFlag argument value → equals_value argument ≡ some value
IsInlineFlag-equals_value argument value (inl named) =
    ap equals_value named ∙ (equals_value-append value).0
IsInlineFlag-equals_value argument value (inr named) =
    ap equals_value named ∙ (equals_value-append value).1

pub is_separate_flag_iff :
    (argument : Bytes) → (is_separate_flag argument ≡ true) ↔ IsSeparateFlag argument
is_separate_flag_iff argument = elim (Bool-cases (argument == lit "--session-id")) [
  | inl same ↦
      rw same (λ h. inl ((list_eq.decides argument (lit "--session-id")).0 same), λ h. refl)
  | inr differ ↦ elim (Bool-cases (argument == lit "--resume")) [
    | inl same ↦
        rw (differ, same)
          (λ h. inr (inl ((list_eq.decides argument (lit "--resume")).0 same)), λ h. refl)
    | inr differ' ↦
        rw (differ, differ')
          (
            λ h. inr (inr ((list_eq.decides argument (lit "-r")).0 h)),
            λ h. elim h [
              | inl same ↦ absurd (==_ne argument (lit "--session-id") differ same)
              | inr (inl same) ↦ absurd (==_ne argument (lit "--resume") differ' same)
              | inr (inr same) ↦ (list_eq.decides argument (lit "-r")).1 same
            ],
          )
  ]
]

pub not_separate :
    (argument : Bytes) → ¬ IsSeparateFlag argument → is_separate_flag argument ≡ false
not_separate argument other = elim (Bool-cases (is_separate_flag argument)) [
  | inl flag ↦ absurd (other ((is_separate_flag_iff argument).0 flag))
  | inr h ↦ h
]

pub separate-eq-false : (argument : Bytes) → IsSeparateFlag argument → argument == lit "--" ≡ false
separate-eq-false argument (inl same) = rw same refl
separate-eq-false argument (inr (inl same)) = rw same refl
separate-eq-false argument (inr (inr same)) = rw same refl

pub no_value :
    (argument : Bytes)
    → ((value : Bytes) → ¬ IsInlineFlag argument value)
    → equals_value argument ≡ none
no_value argument plain = elim (Option-cases (equals_value argument)) [
  | inl h ↦ h
  | inr (value, inline) ↦ absurd (plain value (equals_value-IsInlineFlag argument value inline))
]

-- An inline flag is neither `--` nor a flag of its own.
pub inline-eq-false :
    (argument value : Bytes)
    → IsInlineFlag argument value
    → (argument == lit "--" ≡ false) × (is_separate_flag argument ≡ false)
inline-eq-false argument value (inl same) = rw same (refl, refl)
inline-eq-false argument value (inr same) = rw same (refl, refl)

module _ (codecs : Codecs) where
  pub parse_identity-IsIdentity :
      (value : Bytes) (session_id : Uuid)
      → (parse_identity codecs value ≡ some session_id) ↔ IsIdentity codecs value session_id
  unfolding parse_identity
  parse_identity-IsIdentity value session_id = elim (Bool-cases (is_utf8 value)) [
    | inl text ↦ rw (text, parse_identity) (λ h. (refl, h), λ (_, h). h)
    | inr bytes ↦ rw (bytes, parse_identity) (λ h. cc, λ (h, _). cc)
  ]

  pub step_dashes :
      (found : ArgvIdentity) (argument : LosslessOsString) (rest : List LosslessOsString)
      → argument.bytes == lit "--" ≡ true
      → scan_arguments codecs found (argument ∷ rest) ≡ found
  unfolding scan_arguments
  step_dashes found argument [] h = rw (h, scan_arguments) refl
  step_dashes found argument (value ∷ rest) h = rw (h, scan_arguments) refl

  pub step_separate :
      (found : ArgvIdentity) (argument value : LosslessOsString) (rest : List LosslessOsString)
      → argument.bytes == lit "--" ≡ false
      → is_separate_flag argument.bytes ≡ true
      → scan_arguments codecs found (argument ∷ value ∷ rest)
        ≡ scan_arguments codecs (saw_identity found (parse_identity codecs value.bytes)) rest
  unfolding scan_arguments
  step_separate found argument value rest h k = rw (h, k, scan_arguments) refl

  pub step_valueless :
      (found : ArgvIdentity) (argument : LosslessOsString)
      → argument.bytes == lit "--" ≡ false
      → is_separate_flag argument.bytes ≡ true
      → scan_arguments codecs found (argument ∷ []) ≡ saw_identity found none
  unfolding scan_arguments
  step_valueless found argument h k = rw (h, k, scan_arguments) refl

  pub step_single :
      (found : ArgvIdentity) (argument : LosslessOsString) (rest : List LosslessOsString)
      → argument.bytes == lit "--" ≡ false
      → is_separate_flag argument.bytes ≡ false
      → scan_arguments codecs found (argument ∷ rest)
        ≡ scan_arguments codecs (scan_single codecs found argument.bytes) rest
  unfolding scan_arguments
  step_single found argument [] h k = rw (h, k, scan_arguments) refl
  step_single found argument (value ∷ rest) h k = rw (h, k, scan_arguments) refl

  pub single_inline :
      (found : ArgvIdentity) (argument value : Bytes)
      → equals_value argument ≡ some value
      → scan_single codecs found argument ≡ saw_identity found (parse_identity codecs value)
  unfolding scan_single
  single_inline found argument value h = rw (h, scan_single) refl

  pub single_other :
      (found : ArgvIdentity) (argument : Bytes)
      → equals_value argument ≡ none
      → scan_single codecs found argument ≡ found
  unfolding scan_single
  single_other found argument h = rw (h, scan_single) refl
