-- ===== src/VisiblePane/Tests.antt =====
-- A pane of two rows with a faint word, and the refusals of a capture.
use tmux_rescue.Common.{
  Bool, List, [], arith, err, false, is_empty, length, list_eq, num_eq, ok, refl, some, true, ◌++◌,
  ◌<◌, ◌^◌, ◌↔◌, ◌∷◌, ◌≡◌,
}
use tmux_rescue.Std.Path.{split}
use tmux_rescue.Std.Text.{Bytes, lit}
use tmux_rescue.Std.Utf8.{chars, decode, is_utf8}
use tmux_rescue.VisiblePane.{
  GridResult, VisiblePaneMetadata, cursor_out_of_bounds, height_try_new, invalid_pane_id,
  malformed_sgr_parameters, metadata_try_new, non_sgr_escape_sequence, pane_id_try_from_bytes,
  reject_if, truncated_escape_sequence, unsupported_sgr_operation, width_try_new,
}
use tmux_rescue.VisiblePane.Accepted.{IsGrid, try_from_tmux_styled_capture-IsGrid}
use tmux_rescue.VisiblePane.Grid.{
  VisiblePaneGrid, check_rows, drop_last, faint_suffix_after_non_faint_prefix, pop_newline,
  refine_rows, rows_of, try_from_tmux_styled_capture,
}
use tmux_rescue.VisiblePane.Parameter.{decimal_value, parse_sgr_parameter-eq-ok_iff, sgr_loop_total}
use tmux_rescue.VisiblePane.Runs.{
  AreRuns, Run, decode_styled_capture-print_runs, print_runs, runs_flags, runs_text,
}
use tmux_rescue.VisiblePane.Styled.{
  append_ordinary, apply_sgr, color_values, consume_extended_color, decode_from,
  decode_styled_capture, parse_sgr_digits, parse_sgr_parameter, parse_sgr_parameters, run_sgr,
  sgr_loop,
}

abbrev at_two_rows : VisiblePaneMetadata
at_two_rows = record {
  pane_id = record { text = lit "%15" };
  width = record { cells = 8 };
  height = record { rows = 2 };
  cursor = record { x = 0; y = 1 };
  in_mode = false;
}

abbrev faint_output : Bytes
faint_output =
    lit "> " ++ 0x1B ∷ lit "[1;2;38;5;200mhi" ++ 0x1B ∷ lit "[0m" ++ 0x0A ∷ lit "ok" ++ 0x0A ∷ []

abbrev faint_grid : VisiblePaneGrid
faint_grid = record {
  metadata = at_two_rows;
  rows =
      record { text = lit "> hi"; faint_by_char = false ∷ false ∷ true ∷ true ∷ [] }
      ∷ record { text = lit "ok"; faint_by_char = false ∷ false ∷ [] }
      ∷ [];
}

faint_output-accepted : try_from_tmux_styled_capture length at_two_rows faint_output ≡ ok faint_grid
unfolding try_from_tmux_styled_capture decode_styled_capture decode_from append_ordinary apply_sgr
    parse_sgr_parameters parse_sgr_parameter parse_sgr_digits run_sgr sgr_loop reject_if rows_of
    chars decode split consume_extended_color color_values refine_rows check_rows pop_newline
    drop_last
faint_output-accepted = refl

faint_word :
    faint_suffix_after_non_faint_prefix
      (record { text = lit "> hi"; faint_by_char = false ∷ false ∷ true ∷ true ∷ [] })
      (lit "> ")
    ≡ some (lit "hi")
unfolding faint_suffix_after_non_faint_prefix chars decode
faint_word = refl

refusals :
    (decode_styled_capture (lit "a" ++ 0x1B ∷ []) ≡ err truncated_escape_sequence)
    × (decode_styled_capture (0x1B ∷ lit "]0;x") ≡ err non_sgr_escape_sequence)
    × (decode_styled_capture (0x1B ∷ lit "[65536m") ≡ err malformed_sgr_parameters)
    × (decode_styled_capture (0x1B ∷ lit "[38;2;1;2m") ≡ err malformed_sgr_parameters)
    × (decode_styled_capture (0x1B ∷ lit "[66m") ≡ err unsupported_sgr_operation)
unfolding decode_styled_capture decode_from append_ordinary apply_sgr parse_sgr_parameters
    parse_sgr_parameter parse_sgr_digits run_sgr sgr_loop reject_if decode split
    consume_extended_color color_values
refusals = (refl, refl, refl, refl, refl)

metadata_tests :
    (metadata_try_new (record { text = lit "%15" }) 8 2 0 1 false ≡ ok at_two_rows)
    × (metadata_try_new (record { text = lit "%15" }) 8 2 8 1 false ≡ err cursor_out_of_bounds)
    × (pane_id_try_from_bytes (lit "%15") ≡ ok (record { text = lit "%15" }))
    × (pane_id_try_from_bytes (lit "%") ≡ err invalid_pane_id)
unfolding metadata_try_new width_try_new height_try_new reject_if pane_id_try_from_bytes is_utf8
metadata_tests = (refl, refl, refl, refl)

try_from_tmux_styled_capture-IsGrid_example : IsGrid length at_two_rows faint_output faint_grid
try_from_tmux_styled_capture-IsGrid_example =
    try_from_tmux_styled_capture-IsGrid length at_two_rows faint_output faint_grid
      faint_output-accepted

abbrev two_runs : List Run
two_runs =
    record { faint = true; text = lit "dim" } ∷ record { faint = false; text = lit "bright" } ∷ []

two_runs-AreRuns : AreRuns two_runs
unfolding decode
two_runs-AreRuns = (
  (lit "dim", record { decoded = refl; no_escape = refl }),
  ((lit "bright", record { decoded = refl; no_escape = refl }), tt),
)

decode_styled_capture-print_runs_example :
    decode_styled_capture (print_runs two_runs)
    ≡ ok (record { text = runs_text two_runs; faint_by_char = runs_flags two_runs })
decode_styled_capture-print_runs_example =
    decode_styled_capture-print_runs two_runs two_runs-AreRuns

parse_sgr_parameter-eq-ok_iff_example :
    (parse_sgr_parameter (lit "200") ≡ ok 200)
    ↔ ((is_empty (lit "200") ≡ false) × (200 ≡ decimal_value 0 (lit "200")) × (200 < 2 ^ 16))
parse_sgr_parameter-eq-ok_iff_example = parse_sgr_parameter-eq-ok_iff (lit "200") 200

sgr_loop_total_example :
    (result : GridResult Bool) × (sgr_loop 4 false (38 ∷ 5 ∷ 200 ∷ []) ≡ some result)
sgr_loop_total_example = sgr_loop_total 4 false (38 ∷ 5 ∷ 200 ∷ []) (omega arith)
