-- ===== src/VisiblePane/Grid.antt =====
-- `VisibleRow` and `VisiblePaneGrid::try_from_tmux_styled_capture`.
use tmux_rescue.Common.{
  Bool, List, Option, [], all, any, drop, err, if◌then◌else◌, is_empty, length, list_eq, ltb, none,
  not, num_eq, ok, some, take, ℕ, ◌+◌, ◌==◌, ◌>>=◌, ◌>>◌, ◌||◌, ◌∷◌,
}
use tmux_rescue.Std.Path.{split}
use tmux_rescue.Std.Text.{Bytes, Text, strip_prefix}
use tmux_rescue.Std.Utf8.{chars, is_control}
use tmux_rescue.VisiblePane.{
  GridResult, VisiblePaneMetadata, control_character, missing_final_delimiter, reject_if, row_count,
  row_too_wide,
}
use tmux_rescue.VisiblePane.Styled.{decode_styled_capture}

pub record VisibleRow : Type 0 where
  pub text : Text
  pub faint_by_char : List Bool

pub record VisiblePaneGrid : Type 0 where
  pub metadata : VisiblePaneMetadata
  pub rows : List VisibleRow

-- `VisibleRow::faint_suffix_after_non_faint_prefix`
unfoldable pub faint_suffix_after_non_faint_prefix : VisibleRow → Text → Option Text
faint_suffix_after_non_faint_prefix row prefix = elim (strip_prefix row.text prefix) [
  | none ↦ none
  | some suffix ↦
      let prefix_chars = length (chars prefix) in
      if prefix_chars == 0
        || is_empty suffix
        || not (all not (take prefix_chars row.faint_by_char))
        || not (all (λ faint. faint) (drop prefix_chars row.faint_by_char))
      then none
      else some suffix
]

-- `String::pop`, of a text that ends in a newline.
unfoldable pub pop_newline : Text → Option Text
pop_newline [] = none
pop_newline (c ∷ []) = if c == 0x0A then some [] else none
pop_newline (c ∷ d ∷ text) = elim (pop_newline (d ∷ text)) [
  | none ↦ none
  | some rest ↦ some (c ∷ rest)
]

-- `Vec::pop`
unfoldable pub drop_last : List Bool → List Bool
drop_last [] = []
drop_last (a ∷ []) = []
drop_last (a ∷ b ∷ flags) = a ∷ drop_last (b ∷ flags)

-- The rows with their part of the flags: `style_start` is the number of flags in front.
unfoldable pub rows_of : List Bool → List Text → List VisibleRow
rows_of flags [] = []
rows_of flags (value ∷ values) =
    let count = length (chars value) in
    record { text = value; faint_by_char = take count flags }
    ∷ rows_of (drop (count + 1) flags) values

module _ (display_width : Text → ℕ) where
  -- `UnicodeWidthStr::width` is the parameter.
  unfoldable pub check_rows : ℕ → ℕ → List VisibleRow → GridResult (List VisibleRow)
  check_rows maximum row [] = ok []
  check_rows maximum row (value ∷ values) = do
    reject_if (any is_control (chars value.text)) (control_character row)
    reject_if (ltb maximum (display_width value.text))
        (row_too_wide row (display_width value.text) maximum)
    rest ← check_rows maximum (row + 1) values
    ok (value ∷ rest)

  unfoldable pub refine_rows : VisiblePaneMetadata → List VisibleRow → GridResult VisiblePaneGrid
  refine_rows metadata rows = do
    reject_if (not (length rows == metadata.height.rows))
        (row_count (length rows) metadata.height.rows)
    checked ← check_rows metadata.width.cells 0 rows
    ok (record { metadata = metadata; rows = checked })

  unfoldable pub try_from_tmux_styled_capture :
      VisiblePaneMetadata → Bytes → GridResult VisiblePaneGrid
  unfolding refine_rows check_rows pop_newline drop_last
  try_from_tmux_styled_capture metadata output = do
    decoded ← decode_styled_capture output
    elim (pop_newline decoded.text) [
      | none ↦ err missing_final_delimiter
      | some text ↦
          refine_rows metadata (rows_of (drop_last decoded.faint_by_char) (split 0x0A text))
    ]
