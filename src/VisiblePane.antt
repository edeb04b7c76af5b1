-- ===== src/VisiblePane.antt =====
-- visible_pane.rs: the text of a tmux pane, as `capture-pane -e` prints it, with what is faint.
pub mod Styled
pub mod Grid
pub mod Parameter
pub mod Runs
pub mod Aligned
pub mod Shape
pub mod Accepted
mod Tests
use tmux_rescue.Common.{
  Bool, Result, [], all, err, false, if◌then◌else◌, is_empty, leb, list_eq, not, num_eq, ok, refl,
  true, ℕ, ◌&&◌, ◌==◌, ◌>>=◌, ◌>>◌, ◌||◌, ◌∷◌, ◌≡◌,
}
use tmux_rescue.Std.Text.{Bytes, Text, is_ascii_digit}
use tmux_rescue.Std.Utf8.{is_utf8}

pub data VisiblePaneGridError : Type 0 where
  pane_id_not_utf8 invalid_pane_id zero_width zero_height : VisiblePaneGridError
  cursor_out_of_bounds output_not_utf8 : VisiblePaneGridError
  truncated_escape_sequence non_sgr_escape_sequence : VisiblePaneGridError
  malformed_sgr_parameters unsupported_sgr_operation : VisiblePaneGridError
  missing_final_delimiter : VisiblePaneGridError
  row_count : (actual expected : ℕ) → VisiblePaneGridError
  control_character : (row : ℕ) → VisiblePaneGridError
  row_too_wide : (row width maximum : ℕ) → VisiblePaneGridError

abbrev pub GridResult : Type 0 → Type 0
GridResult A = Result VisiblePaneGridError A

-- `if refused { return Err(error) }`
unfoldable pub reject_if : Bool → VisiblePaneGridError → GridResult (Unit {0})
reject_if test error = if test then err error else ok tt

pub reject_if-eq-ok :
    {A : Type 0} (test : Bool) (error : VisiblePaneGridError) {next : GridResult A} {a : A}
    → (reject_if test error >> next) ≡ ok a
    → (test ≡ false) × (next ≡ ok a)
unfolding reject_if
reject_if-eq-ok true error h = cc
reject_if-eq-ok false error h = (refl, h)

pub record TmuxPaneId : Type 0 where
  pub text : Text

-- `value.starts_with('%')`, more than one byte, and digits behind the first.
is_pane_id : Text → Bool
is_pane_id [] = false
is_pane_id (c ∷ digits) = c == b'%' && not (is_empty digits) && all is_ascii_digit digits

-- `TmuxPaneId::try_from_bytes`
unfoldable pub pane_id_try_from_bytes : Bytes → GridResult TmuxPaneId
unfolding is_pane_id
pane_id_try_from_bytes value = do
  reject_if (not (is_utf8 value)) pane_id_not_utf8
  reject_if (not (is_pane_id value)) invalid_pane_id
  ok (record { text = value })

pub record PaneWidth : Type 0 where
  pub cells : ℕ

pub record PaneHeight : Type 0 where
  pub rows : ℕ

-- `PaneWidth::try_new`
unfoldable pub width_try_new : ℕ → GridResult PaneWidth
width_try_new value = do reject_if (value == 0) zero_width; ok (record { cells = value })

-- `PaneHeight::try_new`
unfoldable pub height_try_new : ℕ → GridResult PaneHeight
height_try_new value = do reject_if (value == 0) zero_height; ok (record { rows = value })

pub record VisibleCellPosition : Type 0 where
  pub x : ℕ
  pub y : ℕ

pub record VisiblePaneMetadata : Type 0 where
  pub pane_id : TmuxPaneId
  pub width : PaneWidth
  pub height : PaneHeight
  pub cursor : VisibleCellPosition
  pub in_mode : Bool

-- `VisiblePaneMetadata::try_new`
unfoldable pub metadata_try_new :
    TmuxPaneId
    → (width height cursor_x cursor_y : ℕ) (in_mode : Bool) → GridResult VisiblePaneMetadata
metadata_try_new pane_id width height cursor_x cursor_y in_mode = do
  pane_width ← width_try_new width
  pane_height ← height_try_new height
  reject_if (leb pane_width.cells cursor_x || leb pane_height.rows cursor_y) cursor_out_of_bounds
  ok (record {
    pane_id = pane_id;
    width = pane_width;
    height = pane_height;
    cursor = record { x = cursor_x; y = cursor_y };
    in_mode = in_mode;
  })
