-- ===== src/VisiblePane/Accepted.antt =====
-- What holds of a grid that `try_from_tmux_styled_capture` returns.
use tmux_rescue.Common.{
  >>=-eq-ok, All, Bool, List, Option-cases, [], any, ap, arith, false, inl, inr, length,
  length-append, list_eq, ltb, not, not-eq-false, not_ltb→le, num_eq, ok, ok-injective, refl, some,
  some-injective, subst, sym, ℕ, ◌++◌, ◌+◌, ◌==◌, ◌∙◌, ◌∷◌, ◌≡◌, ◌≤◌,
}
use tmux_rescue.Std.Path.{split}
use tmux_rescue.Std.Text.{Bytes, Text}
use tmux_rescue.Std.Utf8.{chars, decode, is_control}
use tmux_rescue.Std.Utf8.Append.{decode-newline}
use tmux_rescue.VisiblePane.{VisiblePaneMetadata, reject_if-eq-ok}
use tmux_rescue.VisiblePane.Aligned.{decode_nil, decode_styled_capture-IsAligned}
use tmux_rescue.VisiblePane.Grid.{
  VisiblePaneGrid, VisibleRow, check_rows, drop_last, pop_newline, refine_rows, rows_of,
  try_from_tmux_styled_capture,
}
use tmux_rescue.VisiblePane.Shape.{
  IsRow, drop_last-length, join_lines-split, pop_newline-eq-some, print_lines, rows_of-IsRow,
  rows_of-print_lines,
}
use tmux_rescue.VisiblePane.Styled.{Decoded, decode_styled_capture}

-- A row that the pane can show: of its width at most, without controls, in UTF-8, and with one flag
-- for each character.
pub record IsVisibleRow (display_width : Text → ℕ) (maximum : ℕ) (row : VisibleRow) : Type 0 where
  pub no_control : any is_control (chars row.text) ≡ false
  pub fits : display_width row.text ≤ maximum
  pub aligned : IsRow row

pub record IsGrid (display_width : Text → ℕ) (metadata : VisiblePaneMetadata) (output : Bytes)
    (grid : VisiblePaneGrid) : Type 0 where
  pub same_metadata : grid.metadata ≡ metadata
  pub all_rows : length grid.rows ≡ metadata.height.rows
  pub visible : All (IsVisibleRow display_width metadata.width.cells) grid.rows
  -- The lines of the decoded text, each with its newline, are the rows.
  pub decoded : Decoded
  pub is_decoded : decode_styled_capture output ≡ ok decoded
  pub lines : print_lines grid.rows ≡ decoded.text

module _ (display_width : Text → ℕ) where
  check_rows-visible :
      (maximum row : ℕ) (values rows : List VisibleRow)
      → check_rows display_width maximum row values ≡ ok rows
      → All IsRow values
      → (rows ≡ values) × All (IsVisibleRow display_width maximum) rows
  unfolding check_rows
  check_rows-visible maximum row [] rows h aligned =
      (sym (ok-injective h), rw (← ok-injective h) tt)
  check_rows-visible maximum row (value ∷ values) rows h (first, later) =
      let (no_control, h₁) = reject_if-eq-ok (any is_control (chars value.text)) _ h in
      let (fits, h₂) = reject_if-eq-ok (ltb maximum (display_width value.text)) _ h₁ in
      let (rest, checked, made) =
        >>=-eq-ok (check_rows display_width maximum (row + 1) values) _ h₂ in
      let (same, visible) = check_rows-visible maximum (row + 1) values rest checked later in
      let whole = ok-injective made in
      (
        sym whole ∙ ap (λ l. value ∷ l) same,
        subst (All (IsVisibleRow display_width maximum)) whole (
          record {
            no_control = no_control;
            fits = not_ltb→le (display_width value.text) maximum fits;
            aligned = first;
          },
          visible,
        ),
      )

  refine_rows-eq-ok :
      (metadata : VisiblePaneMetadata) (values : List VisibleRow) (grid : VisiblePaneGrid)
      → refine_rows display_width metadata values ≡ ok grid
      → All IsRow values
      → (grid.metadata ≡ metadata)
        × (grid.rows ≡ values)
        × (length values ≡ metadata.height.rows)
        × All (IsVisibleRow display_width metadata.width.cells) grid.rows
  unfolding refine_rows
  refine_rows-eq-ok metadata values grid h aligned =
      let (counted, h₁) = reject_if-eq-ok (not (length values == metadata.height.rows)) _ h in
      let (rows, checked, made) =
        >>=-eq-ok (check_rows display_width metadata.width.cells 0 values) _ h₁ in
      let (same, visible) = check_rows-visible metadata.width.cells 0 values rows checked aligned in
      let whole = ok-injective made in
      (
        ap VisiblePaneGrid.metadata (sym whole),
        ap VisiblePaneGrid.rows (sym whole) ∙ same,
        (num_eq.decides _ _).0 (not-eq-false _ counted),
        subst
            (λ (g : VisiblePaneGrid). All (IsVisibleRow display_width metadata.width.cells) g.rows)
            whole visible,
      )

  rows_of-split :
      (text : Text) (cs : List ℕ) (flags : List Bool)
      → decode text ≡ some cs
      → length flags ≡ length cs
      → All IsRow (rows_of flags (split 0x0A text))
        × (print_lines (rows_of flags (split 0x0A text)) ≡ text ++ 0x0A ∷ [])
  rows_of-split text cs flags h same =
      let (line, lines, parts, whole) = join_lines-split text in
      rw parts (
        rows_of-IsRow lines line flags cs (ap decode whole ∙ h) same,
        rows_of-print_lines lines line flags ∙ ap (λ t. t ++ 0x0A ∷ []) whole,
      )

  -- The part behind the last newline.
  refined-IsGrid :
      (metadata : VisiblePaneMetadata) (output : Bytes) (decoded : Decoded) (text : Text)
      (grid : VisiblePaneGrid)
      → decode_styled_capture output ≡ ok decoded
      → pop_newline decoded.text ≡ some text
      → refine_rows display_width metadata
          (rows_of (drop_last decoded.faint_by_char) (split 0x0A text))
        ≡ ok grid
      → IsGrid display_width metadata output grid
  refined-IsGrid metadata output decoded text grid h popped refined =
      let (cs, valid, flags) = decode_styled_capture-IsAligned output decoded h in
      let ended = pop_newline-eq-some decoded.text text popped in
      let (before, after, first, second, cut) =
        decode-newline text [] cs (ap decode (sym ended) ∙ valid) in
      let nothing : after ≡ [] = some-injective (sym second ∙ decode_nil) in
      let counted : length cs ≡ length before + 1 =
        ap length cut ∙ length-append before (0x0A ∷ after) ∙ rw nothing refl in
      let (aligned, lines) =
        rows_of-split text before (drop_last decoded.faint_by_char) first
          (omega (arith, drop_last-length decoded.faint_by_char, flags, counted)) in
      let (same, rows, all_rows, visible) = refine_rows-eq-ok metadata _ grid refined aligned in
      record {
        same_metadata = same;
        all_rows = ap length rows ∙ all_rows;
        visible = visible;
        decoded = decoded;
        is_decoded = h;
        lines = ap print_lines rows ∙ lines ∙ sym ended;
      }

  -- An accepted capture has one row for each line of the pane, every row fits its width, is UTF-8
  -- without control characters and has one faint flag for each character; the rows with their
  -- newlines are the decoded text.
  pub try_from_tmux_styled_capture-IsGrid :
      (metadata : VisiblePaneMetadata) (output : Bytes) (grid : VisiblePaneGrid)
      → try_from_tmux_styled_capture display_width metadata output ≡ ok grid
      → IsGrid display_width metadata output grid
  unfolding try_from_tmux_styled_capture
  try_from_tmux_styled_capture-IsGrid metadata output grid h =
      let (decoded, styled, h₁) = >>=-eq-ok (decode_styled_capture output) _ h in
      elim (Option-cases (pop_newline decoded.text)) [
        | inl unended ↦ let never = rw unended at h₁ in cc
        | inr (text, popped) ↦
            refined-IsGrid metadata output decoded text grid styled popped (rw popped at h₁)
      ]
