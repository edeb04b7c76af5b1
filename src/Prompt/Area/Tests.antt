-- ===== src/Prompt/Area/Tests.antt =====
-- A pane with a prompt of two lines above a Codex footer.
use tmux_rescue.Common.{[], false, length, list_eq, map, num_eq, refl, ℕ, ◌++◌, ◌∷◌, ◌≡◌}
use tmux_rescue.Std.Path.{split}
use tmux_rescue.Std.Search.{join_text, split_text, strip_suffix, text_contains}
use tmux_rescue.Std.Text.{Text, lit}
use tmux_rescue.Std.Utf8.{chars, decode, is_whitespace}
use tmux_rescue.Model.Name.{CapturedCodexPromptArea, prompt_area_try_new, prompt_text_try_new}
use tmux_rescue.Prompt.Area.{
  capture_visible_codex_prompt, captured, continuation_lines, is_cursor_at_end, is_foreign,
  observe_from_cursor, observe_prompt, observe_text, prompt_lines, rows_above_cursor,
  strip_prompt_prefix,
}
use tmux_rescue.Prompt.Area.Safe.{IsCaptured, capture_visible_codex_prompt-IsCaptured}
use tmux_rescue.Prompt.Footer.{
  configured_status_left_zone, evidence_segments, footer_evidence, middle_dot,
  parse_configured_footer, parse_exact_instructional_footer, parse_exact_instructional_hint,
  parse_positioned_footer_candidate, parse_supported_codex_footer, strip_textarea_margin,
}
use tmux_rescue.Prompt.Status.{parse_context_segment, parse_model_selection}
use tmux_rescue.VisiblePane.Grid.{VisiblePaneGrid, VisibleRow}

-- The prefix and the middle dot take fewer cells than bytes.
abbrev pub cells : Text → ℕ
cells text = length (chars text)

abbrev pub plain_row : Text → VisibleRow
plain_row text = record { text = text; faint_by_char = map (λ _. false) (chars text) }

abbrev pub prompt_grid : VisiblePaneGrid
prompt_grid = record {
  metadata = record {
    pane_id = record { text = lit "%3" };
    width = record { cells = 40 };
    height = record { rows = 6 };
    cursor = record { x = 7; y = 2 };
    in_mode = false;
  };
  rows =
      plain_row (lit "earlier")
      ∷ plain_row (0xE2 ∷ 0x80 ∷ 0xBA ∷ lit " fix")
      ∷ plain_row (lit "  this ")
      ∷ plain_row []
      ∷ plain_row (lit "  gpt-5 high" ++ middle_dot ++ lit "~/src")
      ∷ plain_row []
      ∷ [];
}

abbrev pub typed_prompt : CapturedCodexPromptArea
typed_prompt = record { text = record { text = lit "fix" ++ 0x0A ∷ lit "this " } }

pub prompt_captured : capture_visible_codex_prompt cells prompt_grid ≡ captured typed_prompt
unfolding capture_visible_codex_prompt parse_supported_codex_footer
    parse_positioned_footer_candidate parse_exact_instructional_footer
    parse_exact_instructional_hint parse_configured_footer configured_status_left_zone split_text
    evidence_segments footer_evidence parse_context_segment parse_model_selection
    observe_from_cursor rows_above_cursor strip_prompt_prefix is_foreign observe_prompt
    is_cursor_at_end prompt_lines continuation_lines join_text observe_text prompt_area_try_new
    prompt_text_try_new strip_textarea_margin chars decode is_whitespace strip_suffix split
    text_contains
prompt_captured = refl

capture_visible_codex_prompt-IsCaptured_example : IsCaptured cells prompt_grid typed_prompt
capture_visible_codex_prompt-IsCaptured_example =
    capture_visible_codex_prompt-IsCaptured cells prompt_grid typed_prompt prompt_captured
