-- ===== src/Prompt/Area/Safe.antt =====
-- What a captured prompt is.
use tmux_rescue.Common.{
  Bool-cases, List, Option-cases, Result-cases, [], all, any, ap, false, inl, inr, length, list_eq,
  ltb, num_eq, ok, or-eq-false, reverse, some, take, ℕ, ◌&&◌, ◌+◌, ◌-◌, ◌==◌, ◌||◌, ◌∙◌, ◌∷◌, ◌≡◌,
}
use tmux_rescue.Std.Search.{join_text}
use tmux_rescue.Std.Text.{Text}
use tmux_rescue.Std.Utf8.{chars, is_whitespace}
use tmux_rescue.Model.Error.{max_codex_prompt_bytes}
use tmux_rescue.Model.Name.{CapturedCodexPromptArea, is_prompt_control, prompt_area_try_new}
use tmux_rescue.Model.Name.Laws.{IsPromptText, prompt_area_try_new-IsPromptText}
use tmux_rescue.Prompt.Area.{
  capture_visible_codex_prompt, captured, find_prefix, is_cursor_at_end, observe_from_cursor,
  observe_placeholder, observe_prompt, observe_text, prompt_lines, prompt_prefixes,
  rows_above_cursor,
}
use tmux_rescue.Prompt.Footer.{SupportedCodexFooter, parse_supported_codex_footer, textarea_margin}
use tmux_rescue.VisiblePane.Grid.{VisiblePaneGrid, VisibleRow, faint_suffix_after_non_faint_prefix}

-- A prompt that may be stored: of a Codex screen that is no copy mode, with the text of the rows of
-- the prompt, and within the limits of a snapshot.
pub record IsCaptured (display_width : Text → ℕ) (grid : VisiblePaneGrid)
    (area : CapturedCodexPromptArea) : Type 0 where
  pub proper : IsPromptText area.text
  pub not_in_mode : grid.metadata.in_mode ≡ false
  pub footer : SupportedCodexFooter
  pub has_footer :
      parse_supported_codex_footer display_width grid.rows grid.metadata.cursor.y
        grid.metadata.width.cells
      ≡ some footer
  -- The prompt's rows end at the cursor's, with so many above it.
  pub above : ℕ
  pub lines : List Text
  pub has_lines :
      prompt_lines display_width
        (reverse (take (above + 1) (reverse (take (grid.metadata.cursor.y + 1) grid.rows))))
      ≡ some lines
  pub typed : area.text.text ≡ join_text (0x0A ∷ []) lines

module _ (display_width : Text → ℕ) where
  observe_text-captured :
      (text : Text) (area : CapturedCodexPromptArea)
      → observe_text display_width text ≡ captured area
      → IsPromptText area.text × (area.text.text ≡ text)
  unfolding observe_text
  observe_text-captured text area h = elim (Bool-cases (ltb max_codex_prompt_bytes (length text))) [
    | inl large ↦ let never = rw (large, observe_text) at h in cc
    | inr small ↦
        elim (Bool-cases (all is_whitespace (chars text) || any is_prompt_control (chars text))) [
          | inl unsafe ↦ let never = rw (small, unsafe, observe_text) at h in cc
          | inr safe ↦ elim (Result-cases (prompt_area_try_new text)) [
            | inr (error, refused) ↦ let never = rw (small, safe, refused, observe_text) at h in cc
            | inl (made, valid) ↦
                let same = rw (small, safe, valid, observe_text) at h in
                let equal : made ≡ area = cc in
                prompt_area_try_new-IsPromptText text area (valid ∙ ap ok equal)
          ]
        ]
  ]

  observe_placeholder-captured :
      (row : VisibleRow) (area : CapturedCodexPromptArea)
      → ¬ (observe_placeholder display_width row ≡ captured area)
  unfolding observe_placeholder
  observe_placeholder-captured row area h =
      elim (Option-cases (find_prefix prompt_prefixes row.text)) [
        | inl nothing ↦ let never = rw (nothing, observe_placeholder) at h in cc
        | inr (prefix, found) ↦
            elim (Option-cases (faint_suffix_after_non_faint_prefix row prefix)) [
              | inl plain ↦ let never = rw (found, plain, observe_placeholder) at h in cc
              | inr (suffix, faint) ↦ let never = rw (found, faint, observe_placeholder) at h in cc
            ]
      ]

  observe_prompt-captured :
      (rows : List VisibleRow) (cursor_row : VisibleRow) (above cursor_x : ℕ)
      (area : CapturedCodexPromptArea)
      → observe_prompt display_width rows cursor_row above cursor_x ≡ captured area
      → (lines : List Text) × (prompt_lines display_width rows ≡ some lines)
        × IsPromptText area.text
        × (area.text.text ≡ join_text (0x0A ∷ []) lines)
  unfolding observe_prompt
  observe_prompt-captured rows cursor_row above cursor_x area h =
      elim (Bool-cases (above == 0 && cursor_x == display_width textarea_margin)) [
        | inl placeholder ↦
            absurd
              (observe_placeholder-captured cursor_row area (rw (placeholder, observe_prompt) at h))
        | inr typed ↦ elim (Bool-cases (is_cursor_at_end display_width cursor_row cursor_x)) [
          | inr inside ↦ let never = rw (typed, inside, observe_prompt) at h in cc
          | inl at_end ↦ elim (Option-cases (prompt_lines display_width rows)) [
            | inl foreign ↦ let never = rw (typed, at_end, foreign, observe_prompt) at h in cc
            | inr (lines, read) ↦
                let (proper, same) =
                  observe_text-captured (join_text (0x0A ∷ []) lines) area
                    (rw (typed, at_end, read, observe_prompt) at h) in
                (lines, read, proper, same)
          ]
        ]
      ]

  observe_from_cursor-captured :
      (upwards : List VisibleRow) (cursor_x : ℕ) (area : CapturedCodexPromptArea)
      → observe_from_cursor display_width upwards cursor_x ≡ captured area
      → (above : ℕ) × (lines : List Text) × (prompt_lines display_width
            (reverse (take (above + 1) upwards))
          ≡ some lines)
        × IsPromptText area.text
        × (area.text.text ≡ join_text (0x0A ∷ []) lines)
  unfolding observe_from_cursor
  observe_from_cursor-captured [] cursor_x area h = cc
  observe_from_cursor-captured (cursor_row ∷ upwards) cursor_x area h =
      elim (Option-cases (rows_above_cursor display_width (cursor_row ∷ upwards))) [
        | inl startless ↦ let never = rw (startless, observe_from_cursor) at h in cc
        | inr (count, found) ↦
            let (lines, read, proper, same) =
              observe_prompt-captured _ cursor_row count cursor_x area
                (rw (found, observe_from_cursor) at h) in
            (count, lines, read, proper, same)
      ]

  -- A captured prompt has text that is not blank, of 16 KiB at most, with no control but the
  -- newline; the pane showed a Codex footer and was in no mode, and the text is that of the prompt's
  -- rows without their prefix and margins.
  pub capture_visible_codex_prompt-IsCaptured :
      (grid : VisiblePaneGrid) (area : CapturedCodexPromptArea)
      → capture_visible_codex_prompt display_width grid ≡ captured area
      → IsCaptured display_width grid area
  unfolding capture_visible_codex_prompt
  capture_visible_codex_prompt-IsCaptured grid area h =
      elim (Bool-cases (
        grid.metadata.in_mode
        || ltb grid.metadata.height.rows 3
        || ltb (grid.metadata.height.rows - 3) grid.metadata.cursor.y)) [
          | inl unfit ↦ let never = rw (unfit, capture_visible_codex_prompt) at h in cc
          | inr fit ↦
              elim (Option-cases (
                parse_supported_codex_footer display_width grid.rows grid.metadata.cursor.y
                  grid.metadata.width.cells)) [
                    | inl footerless ↦
                        let never = rw (fit, footerless, capture_visible_codex_prompt) at h in cc
                    | inr (footer, found) ↦
                        let (above, lines, read, proper, same) =
                          observe_from_cursor-captured _ grid.metadata.cursor.x area
                            (rw (fit, found, capture_visible_codex_prompt) at h) in
                        let (early, _) = or-eq-false _ _ fit in
                        record {
                          proper = proper;
                          not_in_mode = (or-eq-false _ _ early).0;
                          footer = footer;
                          has_footer = found;
                          above = above;
                          lines = lines;
                          has_lines = read;
                          typed = same;
                        }
                  ]
        ]
