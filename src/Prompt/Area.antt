-- ===== src/Prompt/Area.antt =====
-- `capture_visible_codex_prompt`, and the failures of a prompt capture (capture.rs).
pub mod Safe
pub mod Tests
use tmux_rescue.Common.{
  Bool, List, Option, [], all, any, err, false, if◌then◌else◌, is_empty, length, list_eq, ltb, none,
  not, num_eq, ok, reverse, some, suc, take, true, ℕ, ◌&&◌, ◌+◌, ◌-◌, ◌==◌, ◌||◌, ◌∷◌,
}
use tmux_rescue.Std.Search.{join_text, text_starts_with}
use tmux_rescue.Std.Text.{Text, strip_prefix}
use tmux_rescue.Std.Utf8.{chars, is_whitespace}
use tmux_rescue.Model.Error.{max_codex_prompt_bytes}
use tmux_rescue.Model.Name.{CapturedCodexPromptArea, is_prompt_control, prompt_area_try_new}
use tmux_rescue.Prompt.Footer.{parse_supported_codex_footer, strip_textarea_margin, textarea_margin}
use tmux_rescue.VisiblePane.Grid.{VisiblePaneGrid, VisibleRow, faint_suffix_after_non_faint_prefix}

-- `CodexPromptCaptureFailureKind` (capture.rs)
pub data CodexPromptCaptureFailure : Type 0 where
  visible_pane_read_failed pane_metadata_changed invalid_visible_pane : CodexPromptCaptureFailure
  unsupported_layout unsafe_text size_overflow : CodexPromptCaptureFailure
  snapshot_size_budget_exceeded session_changed : CodexPromptCaptureFailure

pub data CodexPromptAreaObservation : Type 0 where
  absent : CodexPromptAreaObservation
  captured : CapturedCodexPromptArea → CodexPromptAreaObservation
  skipped : CodexPromptCaptureFailure → CodexPromptAreaObservation

-- `"› "` and `"» "`, in UTF-8.
abbrev pub prompt_prefixes : List Text
prompt_prefixes = (0xE2 ∷ 0x80 ∷ 0xBA ∷ 0x20 ∷ []) ∷ (0xC2 ∷ 0xBB ∷ 0x20 ∷ []) ∷ []

-- The first prefix that the row starts with.
abbrev pub find_prefix : List Text → Text → Option Text
find_prefix [] row = none
find_prefix (prefix ∷ prefixes) row =
    let next = find_prefix prefixes row in if text_starts_with row prefix then some prefix else next

module _ (display_width : Text → ℕ) where
  strip_one_of : List Text → Text → Option Text
  strip_one_of [] row = none
  strip_one_of (prefix ∷ prefixes) row =
      let next = strip_one_of prefixes row in
      if display_width prefix == 2
      then (elim (strip_prefix row prefix) [ some visible ↦ some visible | none ↦ next ])
      else next

  unfoldable pub strip_prompt_prefix : Text → Option Text
  unfolding strip_one_of
  strip_prompt_prefix = strip_one_of prompt_prefixes

  -- Whether the loop upwards stops at a row that is no part of a prompt.
  unfoldable pub is_foreign : Text → Bool
  is_foreign row =
      if is_empty row
      then false
      else (elim (strip_textarea_margin display_width row) [ none ↦ true | some _ ↦ false ])

  -- The loop upwards from the cursor, over the rows in that order: how many rows the prompt has
  -- above the cursor's.
  unfoldable pub rows_above_cursor : List VisibleRow → Option ℕ
  rows_above_cursor [] = none
  rows_above_cursor (row ∷ above) =
      let next = rows_above_cursor above in
      elim (strip_prompt_prefix row.text) [
        | some _ ↦ some 0
        | none ↦
            if is_foreign row.text
            then none
            else (elim next [ none ↦ none | some further ↦ some (suc further) ])
      ]

  -- The loop over the rows behind the first.
  unfoldable pub continuation_lines : List VisibleRow → Option (List Text)
  continuation_lines [] = some []
  continuation_lines (row ∷ rows) =
      let rest = continuation_lines rows in
      let line =
        if is_empty row.text then some [] else strip_textarea_margin display_width row.text in
      elim line [
        | none ↦ none
        | some visible ↦ (elim rest [ none ↦ none | some lines ↦ some (visible ∷ lines) ])
      ]

  -- The loop over `rows[start_y..=cursor_y]`.
  unfoldable pub prompt_lines : List VisibleRow → Option (List Text)
  prompt_lines [] = some []
  prompt_lines (row ∷ rows) = elim (strip_prompt_prefix row.text) [
    | none ↦ none
    | some visible ↦ (elim (continuation_lines rows) [
      | none ↦ none
      | some lines ↦ some (visible ∷ lines)
    ])
  ]

  -- The cursor stands at the end of its row, or at the start of an empty one.
  unfoldable pub is_cursor_at_end : VisibleRow → ℕ → Bool
  is_cursor_at_end row cursor_x =
      if is_empty row.text
      then cursor_x == display_width textarea_margin
      else not
          (cursor_x == display_width textarea_margin || not (display_width row.text == cursor_x))

  -- The checks of the text, from its size on.
  unfoldable pub observe_text : Text → CodexPromptAreaObservation
  observe_text text =
      if ltb max_codex_prompt_bytes (length text)
      then skipped size_overflow
      else if all is_whitespace (chars text) || any is_prompt_control (chars text)
      then skipped unsafe_text
      else (elim (prompt_area_try_new text) [
        | ok area ↦ captured area
        | err _ ↦ skipped unsafe_text
      ])

  -- A prompt without text shows a placeholder, faint behind the prefix.
  unfoldable pub observe_placeholder : VisibleRow → CodexPromptAreaObservation
  observe_placeholder row = elim (find_prefix prompt_prefixes row.text) [
    | none ↦ skipped unsupported_layout
    | some prefix ↦ (elim (faint_suffix_after_non_faint_prefix row prefix) [
      | none ↦ skipped unsupported_layout
      | some _ ↦ absent
    ])
  ]

  -- The part behind the search for the start, with the rows of the prompt, the cursor's row and
  -- the number of rows above it.
  unfoldable pub observe_prompt : List VisibleRow → VisibleRow → ℕ → ℕ → CodexPromptAreaObservation
  unfolding observe_placeholder
  observe_prompt rows cursor_row above cursor_x =
      if above == 0 && cursor_x == display_width textarea_margin
      then observe_placeholder cursor_row
      else if not (is_cursor_at_end cursor_row cursor_x)
      then skipped unsupported_layout
      else (elim (prompt_lines rows) [
        | none ↦ skipped unsupported_layout
        | some lines ↦ observe_text (join_text (0x0A ∷ []) lines)
      ])

  -- `rows[0..=cursor_y]`, from the cursor upwards; the grid has more rows than that.
  unfoldable pub observe_from_cursor : List VisibleRow → ℕ → CodexPromptAreaObservation
  observe_from_cursor [] cursor_x = skipped unsupported_layout
  observe_from_cursor (cursor_row ∷ above) cursor_x =
      elim (rows_above_cursor (cursor_row ∷ above)) [
        | none ↦ skipped unsupported_layout
        | some count ↦
            observe_prompt (reverse (take (count + 1) (cursor_row ∷ above))) cursor_row count
              cursor_x
      ]

  unfoldable pub capture_visible_codex_prompt : VisiblePaneGrid → CodexPromptAreaObservation
  capture_visible_codex_prompt grid =
      let height = grid.metadata.height.rows in
      let cursor = grid.metadata.cursor in
      if grid.metadata.in_mode || ltb height 3 || ltb (height - 3) cursor.y
      then skipped unsupported_layout
      else (elim (parse_supported_codex_footer display_width grid.rows cursor.y
          grid.metadata.width.cells) [
            | none ↦ skipped unsupported_layout
            | some _ ↦ observe_from_cursor (reverse (take (cursor.y + 1) grid.rows)) cursor.x
          ])
