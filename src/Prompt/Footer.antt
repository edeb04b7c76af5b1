-- ===== src/Prompt/Footer.antt =====
-- `parse_supported_codex_footer`: the line below the prompt that tells a Codex screen.
use tmux_rescue.Common.{
  Bool, List, Option, [], any, contains, drop, false, if◌then◌else◌, is_empty, leb, length, list_eq,
  ltb, none, not, num_eq, some, true, ℕ, ◌&&◌, ◌++◌, ◌+◌, ◌-◌, ◌==◌, ◌||◌, ◌∷◌,
}
use tmux_rescue.Std.Number.{parse_u16}
use tmux_rescue.Std.Search.{
  is_ascii_whitespace, split_text, strip_suffix, text_contains, text_starts_with, trim_end_matches,
}
use tmux_rescue.Std.Text.{Text, is_ascii_digit, lit, strip_prefix}
use tmux_rescue.Prompt.Status.{
  ConfiguredFooterBasis, WeakEvidence, WeakSignalFamily, context_signal, finish_weak, high_basis,
  insert_family, leading_model, no_evidence, parse_context_segment, parse_model_selection,
  parse_weak_signal_family,
}
use tmux_rescue.VisiblePane.Grid.{VisibleRow}

pub record PositionedFooterCandidate : Type 0 where
  pub content : Text
  pub row_width : ℕ
  pub pane_width : ℕ

pub data SupportedCodexFooter : Type 0 where
  instructional : SupportedCodexFooter
  configured : ConfiguredFooterBasis → SupportedCodexFooter

-- `TEXTAREA_MARGIN`
abbrev pub textarea_margin : Text
textarea_margin = lit "  "

-- `" · "`, in UTF-8.
abbrev pub middle_dot : Text
middle_dot = 0x20 ∷ 0xC2 ∷ 0xB7 ∷ 0x20 ∷ []

-- `'…'`, in UTF-8.
abbrev pub ellipsis : Text
ellipsis = 0xE2 ∷ 0x80 ∷ 0xA6 ∷ []

abbrev pub hint_bases : List Text
hint_bases = lit "? for shortcuts" ∷ lit "tab to queue" ∷ lit "tab to queue message" ∷ []

abbrev pub hint_plans : List Text
hint_plans = lit "Plan mode" ∷ lit "Plan mode (shift+tab to cycle)" ∷ []

-- A base, then `" · "` and a plan.
has_base_and_plan : Text → Text → Bool
has_base_and_plan hint base = elim (strip_prefix hint base) [
  | none ↦ false
  | some suffix ↦ (elim (strip_prefix suffix middle_dot) [
    | none ↦ false
    | some plan ↦ contains hint_plans plan
  ])
]

-- `BASES` is the empty text and `hint_bases`.
unfoldable pub parse_exact_instructional_hint : Text → Bool
unfolding has_base_and_plan
parse_exact_instructional_hint hint =
    contains ([] ∷ hint_bases) hint
    || contains hint_plans hint
    || any (has_base_and_plan hint) hint_bases

-- The digits at the end, `without_suffix[percentage_start..]`, and the text in front of them.
trailing_digits : Text → Text × Text
trailing_digits [] = ([], [])
trailing_digits (c ∷ text) =
    let (before, digits) = trailing_digits text in
    if is_empty before && is_ascii_digit c then ([], c ∷ digits) else (c ∷ before, digits)

-- The byte in front of the percentage, if there is one, is white space.
ends_in_whitespace : Text → Bool
ends_in_whitespace [] = true
ends_in_whitespace (c ∷ []) = is_ascii_whitespace c
ends_in_whitespace (_ ∷ c ∷ text) = ends_in_whitespace (c ∷ text)

abbrev is_at_most_100 : Option ℕ → Bool
is_at_most_100 none = false
is_at_most_100 (some value) = leb value 100

with_context_left : Text × Text → Bool
with_context_left (before, percentage) =
    if is_empty percentage
      || not (is_at_most_100 (parse_u16 percentage))
      || not (ends_in_whitespace before)
    then false
    else parse_exact_instructional_hint (trim_end_matches is_ascii_whitespace before)

unfoldable pub parse_exact_instructional_footer : Text → Bool
unfolding trailing_digits ends_in_whitespace with_context_left
parse_exact_instructional_footer content =
    if parse_exact_instructional_hint content
    then true
    else (elim (strip_suffix content (lit "% context left")) [
      | none ↦ false
      | some without_suffix ↦ with_context_left (trailing_digits without_suffix)
    ])

abbrev indicators : List Text
indicators =
    (lit "Plan mode (shift+tab to cycle)" ++ middle_dot ++ lit "IDE context")
    ∷ lit "Plan mode (shift+tab to cycle)"
    ∷ (lit "Plan mode" ++ middle_dot ++ lit "IDE context")
    ∷ lit "IDE context"
    ∷ lit "Plan mode"
    ∷ []

abbrev is_space : ℕ → Bool
is_space c = c == 0x20

-- The loop over the indicators, for a row that reaches the right edge.
without_indicator : Text → List Text → Text
without_indicator content [] = content
without_indicator content (indicator ∷ others) =
    let next = without_indicator content others in
    elim (strip_suffix content indicator) [
      | none ↦ next
      | some before_indicator ↦
          let left = trim_end_matches is_space before_indicator in
          if ltb (length left) (length before_indicator) && not (is_empty left) then left else next
    ]

unfoldable pub configured_status_left_zone : PositionedFooterCandidate → Text
unfolding without_indicator
configured_status_left_zone positioned =
    if leb 2 positioned.pane_width && positioned.row_width == positioned.pane_width - 2
    then without_indicator positioned.content indicators
    else positioned.content

abbrev has_ellipsis : Text → Bool
has_ellipsis segment = text_contains segment ellipsis

-- The segments in front of the last, and the last.
split_last : List Text → Option (List Text × Text)
split_last [] = none
split_last (segment ∷ segments) = elim (split_last segments) [
  | none ↦ some ([], segment)
  | some (before, last) ↦ some (segment ∷ before, last)
]

-- The segments that count as evidence: without the last, if it was cut off by an ellipsis.
complete_segments : Option (List Text × Text) → Option (List Text)
complete_segments none = none
complete_segments (some (before, last)) =
    if any has_ellipsis before then none else (elim (strip_suffix last ellipsis) [
      | some cut ↦ if has_ellipsis cut then none else some before
      | none ↦ if has_ellipsis last then none else some (before ++ last ∷ [])
    ])

unfoldable pub evidence_segments : List Text → Option (List Text)
unfolding split_last complete_segments
evidence_segments segments =
    if any is_empty segments then none else complete_segments (split_last segments)

with_family : WeakEvidence → Option WeakSignalFamily → WeakEvidence
with_family weak none = weak
with_family weak (some family) = insert_family weak family

-- The loop over the segments from `position` on.
unfoldable pub footer_evidence : ℕ → WeakEvidence → List Text → Option ConfiguredFooterBasis
unfolding with_family
footer_evidence position weak [] = finish_weak weak
footer_evidence position weak (segment ∷ segments) =
    let next =
      footer_evidence (position + 1) (with_family weak (parse_weak_signal_family segment position))
        segments in
    if parse_context_segment segment
    then some (high_basis context_signal)
    else if position == 0 && parse_model_selection segment
    then some (high_basis leading_model)
    else next

unfoldable pub parse_configured_footer : PositionedFooterCandidate → Option ConfiguredFooterBasis
parse_configured_footer positioned =
    elim (evidence_segments (split_text middle_dot (configured_status_left_zone positioned))) [
      | none ↦ none
      | some segments ↦ footer_evidence 0 no_evidence segments
    ]

-- `position(|row| !row.as_str().is_empty())`, with the row found and those behind it.
first_filled : ℕ → List VisibleRow → Option (ℕ × VisibleRow × List VisibleRow)
first_filled offset [] = none
first_filled offset (row ∷ rows) =
    let next = first_filled (offset + 1) rows in
    if is_empty row.text then next else some (offset, row, rows)

abbrev is_filled : VisibleRow → Bool
is_filled row = not (is_empty row.text)

module _ (display_width : Text → ℕ) where
  unfoldable pub strip_textarea_margin : Text → Option Text
  strip_textarea_margin row =
      if display_width textarea_margin == 2 then strip_prefix row textarea_margin else none

  candidate_of : ℕ → Option (ℕ × VisibleRow × List VisibleRow) → Option PositionedFooterCandidate
  candidate_of pane_width none = none
  candidate_of pane_width (some (offset, row, below)) =
      if offset == 0 || any is_filled below then none else (elim (strip_textarea_margin row.text) [
        | none ↦ none
        | some content ↦
            if is_empty content || text_starts_with content (lit " ")
            then none
            else some (record {
              content = content;
              row_width = display_width row.text;
              pane_width = pane_width;
            })
      ])

  -- `rows.get(cursor_y + 1..)`, which is none past the end.
  unfoldable pub parse_positioned_footer_candidate :
      List VisibleRow → ℕ → ℕ → Option PositionedFooterCandidate
  unfolding candidate_of first_filled
  parse_positioned_footer_candidate rows cursor_y pane_width =
      if ltb (length rows) (cursor_y + 1)
      then none
      else candidate_of pane_width (first_filled 0 (drop (cursor_y + 1) rows))

  unfoldable pub parse_supported_codex_footer :
      List VisibleRow → ℕ → ℕ → Option SupportedCodexFooter
  parse_supported_codex_footer rows cursor_y pane_width =
      elim (parse_positioned_footer_candidate rows cursor_y pane_width) [
        | none ↦ none
        | some positioned ↦
            if parse_exact_instructional_footer positioned.content
            then some instructional
            else (elim (parse_configured_footer positioned) [
              | none ↦ none
              | some basis ↦ some (configured basis)
            ])
      ]
