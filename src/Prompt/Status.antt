-- ===== src/Prompt/Status.antt =====
-- The parts of a Codex status line (codex_prompt.rs): models, counts, versions, and what they show.
use tmux_rescue.Common.{
  Bool, List, Option, [], all, any, contains, false, if◌then◌else◌, in_range, is_empty, leb, length,
  list_eq, ltb, none, not, num_eq, refl, some, true, ℕ, ◌&&◌, ◌==◌, ◌||◌, ◌∷◌, ◌≡◌,
}
use tmux_rescue.Std.Number.{parse_u16}
use tmux_rescue.Std.Path.{split}
use tmux_rescue.Std.Search.{
  is_ascii_alphanumeric, is_ascii_hexdigit, is_digits, split_once, strip_suffix, text_starts_with,
}
use tmux_rescue.Std.Text.{Text, is_ascii_digit, lit, strip_prefix}

pub data HighTrustSignal : Type 0 where
  context_signal leading_model : HighTrustSignal

pub data WeakSignalFamily : Type 0 where
  model_family workspace accounting runtime git identity_family : WeakSignalFamily

-- The derived `PartialEq`, by the position of the constructor.
abbrev family_number : WeakSignalFamily → ℕ
family_number model_family = 0
family_number workspace = 1
family_number accounting = 2
family_number runtime = 3
family_number git = 4
family_number identity_family = 5

pub record CorroboratedWeakSignals : Type 0 where
  pub first : WeakSignalFamily
  pub second : WeakSignalFamily

pub data WeakEvidence : Type 0 where
  no_evidence : WeakEvidence
  one_family : WeakSignalFamily → WeakEvidence
  corroborated : CorroboratedWeakSignals → WeakEvidence

pub data ConfiguredFooterBasis : Type 0 where
  high_basis : HighTrustSignal → ConfiguredFooterBasis
  corroborated_basis : CorroboratedWeakSignals → ConfiguredFooterBasis

-- `WeakEvidence::insert`
unfoldable pub insert_family : WeakEvidence → WeakSignalFamily → WeakEvidence
unfolding family_number
insert_family no_evidence next = one_family next
insert_family (one_family first) next =
    if family_number first == family_number next
    then one_family first
    else corroborated (record { first = first; second = next })
insert_family (corroborated proof) next = corroborated proof

-- `WeakEvidence::finish`, with the step of `ConfiguredFooterEvidence::finish` behind it.
unfoldable pub finish_weak : WeakEvidence → Option ConfiguredFooterBasis
finish_weak (corroborated proof) = some (corroborated_basis proof)
finish_weak no_evidence = none
finish_weak (one_family _) = none

abbrev is_percentage : Option ℕ → Bool
is_percentage none = false
is_percentage (some value) = leb value 100

-- `parse_context_percentage`, which returns a proof without content.
unfoldable pub parse_context_percentage : Text → Text → Bool
parse_context_percentage value suffix = elim (strip_suffix value suffix) [
  | none ↦ false
  | some percentage ↦ is_digits percentage && is_percentage (parse_u16 percentage)
]

unfoldable pub parse_context_segment : Text → Bool
parse_context_segment segment = elim (strip_prefix segment (lit "Context ")) [
  | none ↦ false
  | some value ↦
      parse_context_percentage value (lit "% used") || parse_context_percentage value (lit "% left")
]

abbrev is_effort : Text → Bool
is_effort word =
    word == lit "default"
    || word == lit "minimal"
    || word == lit "low"
    || word == lit "medium"
    || word == lit "high"
    || word == lit "xhigh"
    || word == lit "max"
    || word == lit "ultra"

abbrev is_model_byte : ℕ → Bool
is_model_byte b = is_ascii_alphanumeric b || b == b'.' || b == b'_' || b == b'-'

abbrev is_model_name : Text → Bool
is_model_name name = not (is_empty name) && all is_model_byte name && any is_ascii_digit name

-- The words behind the model.
abbrev are_model_words : List Text → Bool
are_model_words [] = true
are_model_words (effort ∷ []) = is_effort effort
are_model_words (effort ∷ fast ∷ []) = is_effort effort && fast == lit "fast"
are_model_words (_ ∷ _ ∷ _ ∷ _) = false

model_words : List Text → Bool
model_words [] = false
model_words (token ∷ words) = elim (strip_prefix token (lit "gpt-")) [
  | none ↦ false
  | some model ↦ is_model_name model && are_model_words words
]

unfoldable pub parse_model_selection : Text → Bool
unfolding model_words
parse_model_selection segment = model_words (split b' ' segment)

-- The suffix, if it is one of `K`, `M`, `B` and `T`.
abbrev is_unit : ℕ → Bool
is_unit c = c == b'K' || c == b'M' || c == b'B' || c == b'T'

-- The text without its last byte, with that byte.
last_byte : Text → Option (Text × ℕ)
last_byte [] = none
last_byte (c ∷ text) = elim (last_byte text) [
  | none ↦ some ([], c)
  | some (before, last) ↦ some (c ∷ before, last)
]

abbrev is_number : Text → Bool
is_number number = elim (split_once (lit ".") number) [
  | none ↦ is_digits number
  | some (integer, fractional) ↦
      is_digits integer && in_range 1 2 (length fractional) && all is_ascii_digit fractional
]

unfoldable pub parse_compact_count : Text → Bool
unfolding last_byte
parse_compact_count value = if is_digits value then true else (elim (last_byte value) [
  | none ↦ false
  | some (number, suffix) ↦ is_unit suffix && is_number number
])

unfoldable pub parse_strict_dotted_version : Text → Bool
parse_strict_dotted_version value =
    let components = split b'.' value in length components == 3 && all is_digits components

are_uuid_groups : List ℕ → List Text → Bool
are_uuid_groups [] [] = true
are_uuid_groups (expected ∷ sizes) (group ∷ groups) =
    length group == expected && all is_ascii_hexdigit group && are_uuid_groups sizes groups
are_uuid_groups _ _ = false

unfoldable pub parse_canonical_uuid : Text → Bool
unfolding are_uuid_groups
parse_canonical_uuid value = are_uuid_groups (8 ∷ 4 ∷ 4 ∷ 4 ∷ 12 ∷ []) (split b'-' value)

abbrev is_workspace : Text → Bool
is_workspace segment =
    segment == lit "~"
    || segment == lit "/"
    || (text_starts_with segment (lit "~/") && ltb 2 (length segment))
    || (text_starts_with segment (lit "/") && ltb 1 (length segment))

counts_with : Text → Text → Bool
counts_with segment suffix = elim (strip_suffix segment suffix) [
  | none ↦ false
  | some count ↦ parse_compact_count count
]

abbrev is_accounting : Text → Bool
is_accounting segment =
    any (counts_with segment) (lit " used" ∷ lit " window" ∷ lit " in" ∷ lit " out" ∷ [])

abbrev is_runtime : Text → Bool
is_runtime segment =
    contains
      (lit "Starting"
        ∷ lit "Ready"
        ∷ lit "Working"
        ∷ lit "Waiting"
        ∷ lit "Thinking"
        ∷ lit "Fast on"
        ∷ lit "Fast off"
        ∷ lit "raw output"
        ∷ [])
      segment

is_pull_request : Text → Bool
is_pull_request segment = elim (strip_prefix segment (lit "PR #")) [
  | none ↦ false
  | some number ↦ is_digits number
]

is_diff_count : Text → Bool
is_diff_count segment = elim (strip_prefix segment (lit "+")) [
  | none ↦ false
  | some counts ↦ (elim (split_once (lit " -") counts) [
    | none ↦ false
    | some (added, removed) ↦ is_digits added && is_digits removed
  ])
]

unfoldable pub parse_weak_signal_family : Text → ℕ → Option WeakSignalFamily
unfolding counts_with is_pull_request is_diff_count
parse_weak_signal_family segment position =
    if ltb 0 position && parse_model_selection segment
    then some model_family
    else if is_workspace segment
    then some workspace
    else if is_accounting segment
    then some accounting
    else if is_runtime segment
    then some runtime
    else if segment == lit "No changes" || is_pull_request segment || is_diff_count segment
    then some git
    else if parse_strict_dotted_version segment || parse_canonical_uuid segment
    then some identity_family
    else none

status_tests :
    (parse_model_selection (lit "gpt-5.1-codex high fast") ≡ true)
    × (parse_model_selection (lit "gpt-codex high") ≡ false)
    × (parse_context_segment (lit "Context 100% left") ≡ true)
    × (parse_context_segment (lit "Context 101% left") ≡ false)
    × (parse_weak_signal_family (lit "1.25M used") 0 ≡ some accounting)
    × (parse_weak_signal_family (lit "+3 -14") 1 ≡ some git)
    × (parse_weak_signal_family (lit "0.98.1") 2 ≡ some identity_family)
unfolding parse_model_selection parse_context_segment parse_weak_signal_family split strip_suffix
    parse_u16 parse_context_percentage split_once parse_compact_count parse_strict_dotted_version
    parse_canonical_uuid
status_tests = (refl, refl, refl, refl, refl, refl, refl)
