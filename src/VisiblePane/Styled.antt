-- ===== src/VisiblePane/Styled.antt =====
-- `decode_styled_capture`: text with SGR sequences, as characters with a faint flag each.
use tmux_rescue.Common.{
  Bool, List, Option, [], any, drop, err, false, if◌then◌else◌, in_range, is_empty, leb, length,
  list_eq, ltb, map, none, num_eq, ok, some, suc, take, true, zero, ℕ, ◌%◌, ◌&&◌, ◌*◌, ◌++◌, ◌+◌,
  ◌-◌, ◌==◌, ◌>>=◌, ◌>>◌, ◌||◌, ◌∷◌,
}
use tmux_rescue.Std.Path.{split}
use tmux_rescue.Std.Text.{Bytes, Text, is_ascii_digit}
use tmux_rescue.Std.Utf8.{decode}
use tmux_rescue.Selector.{value}
use tmux_rescue.VisiblePane.{
  GridResult, malformed_sgr_parameters, non_sgr_escape_sequence, output_not_utf8, reject_if,
  truncated_escape_sequence, unsupported_sgr_operation,
}

abbrev pub u16_max : ℕ
u16_max = 65535

-- `try_fold` with `checked_mul` and `checked_add`; the bytes are digits.
-- The subtraction wraps around in 8 bits; only digits reach it.
unfoldable pub parse_sgr_digits : ℕ → Bytes → GridResult ℕ
parse_sgr_digits value [] = ok value
parse_sgr_digits value (byte ∷ bytes) =
    let next = value * 10 + (byte + 256 - b'0') % 256 in
    let rest = parse_sgr_digits next bytes in
    if leb (value * 10) u16_max && leb next u16_max then rest else err malformed_sgr_parameters

unfoldable pub parse_sgr_parameter : Bytes → GridResult ℕ
unfolding parse_sgr_digits
parse_sgr_parameter value = do
  reject_if (is_empty value) malformed_sgr_parameters
  parse_sgr_digits 0 value

-- `.map(parse_sgr_parameter).collect::<Result<Vec<_>, _>>()`
unfoldable pub parse_sgr_parameters : List Bytes → GridResult (List ℕ)
parse_sgr_parameters [] = ok []
parse_sgr_parameters (value ∷ values) = do
  parameter ← parse_sgr_parameter value
  parameters ← parse_sgr_parameters values
  ok (parameter ∷ parameters)

abbrev pub is_over_255 : ℕ → Bool
is_over_255 value = ltb 255 value

-- `parameters.get(color_start..color_end)`, with what is behind it.
unfoldable pub color_values : ℕ → List ℕ → GridResult (List ℕ)
color_values values rest =
    if ltb (length rest) values
    then err malformed_sgr_parameters
    else if any is_over_255 (take values rest)
    then err malformed_sgr_parameters
    else ok (drop values rest)

-- The parameters behind an extended colour, from those behind its first.
unfoldable pub consume_extended_color : List ℕ → GridResult (List ℕ)
unfolding color_values
consume_extended_color [] = err malformed_sgr_parameters
consume_extended_color (mode ∷ rest) =
    if mode == 5
    then color_values 1 rest
    else if mode == 2
    then color_values 3 rest
    else err malformed_sgr_parameters

-- The operations that change neither the faint flag nor the position.
abbrev pub is_ignored_operation : ℕ → Bool
is_ignored_operation p =
    p == 1
    || in_range 3 9 p
    || in_range 10 21 p
    || in_range 23 37 p
    || in_range 39 47 p
    || in_range 49 55 p
    || in_range 59 65 p
    || in_range 73 75 p
    || in_range 90 97 p
    || in_range 100 107 p

abbrev pub is_extended_color : ℕ → Bool
is_extended_color p = p == 38 || p == 48 || p == 58

-- The loop over the parameters, with one unit of fuel for each and one more; `none` means that the
-- fuel ran out.
unfoldable pub sgr_loop : ℕ → Bool → List ℕ → Option (GridResult Bool)
sgr_loop zero faint parameters = none
sgr_loop (suc fuel) faint [] = some (ok faint)
sgr_loop (suc fuel) faint (p ∷ rest) =
    if p == 0
    then sgr_loop fuel false rest
    else if p == 2
    then sgr_loop fuel true rest
    else if p == 22
    then sgr_loop fuel false rest
    else if is_extended_color p
    then (elim (consume_extended_color rest) [
      | ok left ↦ sgr_loop fuel faint left
      | err error ↦ some (err error)
    ])
    else if is_ignored_operation p
    then sgr_loop fuel faint rest
    else some (err unsupported_sgr_operation)

-- Each round takes a parameter at least, so the fuel is enough (`sgr_loop_total`).
unfoldable pub run_sgr : Bool → List ℕ → GridResult Bool
run_sgr faint parameters = elim (sgr_loop (suc (length parameters)) faint parameters) [
  | some result ↦ result
  | none ↦ err unsupported_sgr_operation
]

-- `apply_sgr`, with the new flag as its value.
unfoldable pub apply_sgr : Bytes → Bool → GridResult Bool
unfolding run_sgr parse_sgr_parameters
apply_sgr parameters faint =
    if is_empty parameters
    then ok false
    else do parsed ← parse_sgr_parameters (split b';' parameters); run_sgr faint parsed

-- `text` and `faint_by_char`.
pub record Decoded : Type 0 where
  pub text : Text
  pub faint_by_char : List Bool

-- `ordinary.chars().map(|_| faint)`
abbrev pub flags_of : Bool → List ℕ → List Bool
flags_of faint cs = map (λ _. faint) cs

unfoldable pub append_ordinary : Bytes → Bool → Decoded → GridResult Decoded
append_ordinary bytes faint decoded = elim (decode bytes) [
  | none ↦ err output_not_utf8
  | some cs ↦ ok (record {
    text = decoded.text ++ bytes;
    faint_by_char = decoded.faint_by_char ++ flags_of faint cs;
  })
]

-- Where the two loops stand: in ordinary text, with `output[ordinary_start..index]`, behind an
-- escape, or in the parameters, with `output[parameters_start..index]`.
pub data Position : Type 0 where
  in_text : (ordinary : Bytes) → Position
  behind_escape : Position
  in_parameters : (parameters : Bytes) → Position

abbrev pub is_parameter_byte : ℕ → Bool
is_parameter_byte b = is_ascii_digit b || b == b';'

unfoldable pub decode_from : Position → Decoded → Bool → Bytes → GridResult Decoded
decode_from (in_text ordinary) decoded faint [] = append_ordinary ordinary faint decoded
decode_from (in_text ordinary) decoded faint (b ∷ bs) =
    let next = decode_from (in_text (ordinary ++ b ∷ [])) decoded faint bs in
    if b == 0x1B
    then (elim (append_ordinary ordinary faint decoded) [
      | ok appended ↦ decode_from behind_escape appended faint bs
      | err error ↦ err error
    ])
    else next
decode_from behind_escape decoded faint [] = err truncated_escape_sequence
decode_from behind_escape decoded faint (b ∷ bs) =
    let next = decode_from (in_parameters []) decoded faint bs in
    if b == b'[' then next else err non_sgr_escape_sequence
decode_from (in_parameters parameters) decoded faint [] = err truncated_escape_sequence
decode_from (in_parameters parameters) decoded faint (b ∷ bs) =
    let next = decode_from (in_parameters (parameters ++ b ∷ [])) decoded faint bs in
    if is_parameter_byte b
    then next
    else if b == b'm'
    then (elim (apply_sgr parameters faint) [
      | ok styled ↦ decode_from (in_text []) decoded styled bs
      | err error ↦ err error
    ])
    else err non_sgr_escape_sequence

unfoldable pub decode_styled_capture : Bytes → GridResult Decoded
decode_styled_capture output =
    decode_from (in_text []) (record { text = []; faint_by_char = [] }) false output
