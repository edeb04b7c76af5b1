-- ===== src/VisiblePane/Parameter.antt =====
-- The SGR parameters: their numbers, and the end of the loop over them.
use tmux_rescue.Common.{
  Bool, Bool-cases, List, Result-cases, [], and-eq-true_iff, any, ap, arith, drop, err, false, inl,
  inr, is_empty, leb, leb→le, length, length-drop, list_eq, ltb, num_eq, ok, ok-injective, refl,
  some, suc, sym, take, true, zero, ℕ, ◌%◌, ◌&&◌, ◌*◌, ◌+◌, ◌-◌, ◌<◌, ◌==◌, ◌^◌, ◌↔◌, ◌∙◌, ◌∷◌, ◌≡◌,
  ◌≤◌,
}
use tmux_rescue.Std.Text.{Bytes}
use tmux_rescue.Selector.{value}
use tmux_rescue.VisiblePane.{GridResult, reject_if, unsupported_sgr_operation}
use tmux_rescue.VisiblePane.Styled.{
  color_values, consume_extended_color, is_extended_color, is_ignored_operation, is_over_255,
  parse_sgr_digits, parse_sgr_parameter, sgr_loop, u16_max,
}

-- The number that decimal digits write, behind `value`.
pub decimal_value : ℕ → Bytes → ℕ
decimal_value value [] = value
decimal_value value (byte ∷ bytes) = decimal_value (value * 10 + (byte + 256 - b'0') % 256) bytes

decimal_value_le : (bytes : Bytes) (value : ℕ) → value ≤ decimal_value value bytes
unfolding decimal_value
decimal_value_le [] value = omega arith
decimal_value_le (byte ∷ bytes) value =
    omega (arith, decimal_value_le bytes (value * 10 + (byte + 256 - b'0') % 256))

parse_sgr_digits-eq-ok_iff :
    (bytes : Bytes) (value parsed : ℕ)
    → value ≤ u16_max
    → (parse_sgr_digits value bytes ≡ ok parsed)
      ↔ ((parsed ≡ decimal_value value bytes) × (parsed ≤ u16_max))
unfolding parse_sgr_digits decimal_value
parse_sgr_digits-eq-ok_iff [] value parsed h =
    (λ e. let same = ok-injective e in omega arith, λ (e, _). ap ok (sym e))
parse_sgr_digits-eq-ok_iff (byte ∷ bytes) value parsed h =
    let next = value * 10 + (byte + 256 - b'0') % 256 in
    let grows = decimal_value_le bytes next in
    elim (Bool-cases (leb (value * 10) u16_max && leb next u16_max)) [
      | inl fits ↦
          let (_, small) = (and-eq-true_iff _ _).0 fits in
          rw fits (parse_sgr_digits-eq-ok_iff bytes next parsed (leb→le next u16_max small))
      | inr large ↦ rw large (λ e. cc, λ (e, bound). absurd (ground arith))
    ]

-- A parameter is read exactly if it has a digit and its number fits 16 bits, and as that number.
pub parse_sgr_parameter-eq-ok_iff :
    (digits : Bytes) (parsed : ℕ)
    → (parse_sgr_parameter digits ≡ ok parsed)
      ↔ ((is_empty digits ≡ false) × (parsed ≡ decimal_value 0 digits) × (parsed < 2 ^ 16))
unfolding parse_sgr_parameter reject_if
parse_sgr_parameter-eq-ok_iff [] parsed = (λ h. cc, λ (h, _, _). cc)
parse_sgr_parameter-eq-ok_iff (d ∷ digits) parsed =
    let iff = parse_sgr_digits-eq-ok_iff (d ∷ digits) 0 parsed (omega arith) in
    (
      λ h. let (same, bound) = iff.0 h in (refl, same, omega arith),
      λ (_, same, bound). iff.1 (same, omega arith),
    )

color_values-length :
    (values : ℕ) (rest left : List ℕ)
    → color_values values rest ≡ ok left
    → length left ≤ length rest
unfolding color_values
color_values-length values rest left h = elim (Bool-cases (ltb (length rest) values)) [
  | inl short ↦ let never = rw (short, color_values) at h in cc
  | inr enough ↦ elim (Bool-cases (any is_over_255 (take values rest))) [
    | inl over ↦ let never = rw (enough, over, color_values) at h in cc
    | inr small ↦
        let same : drop values rest ≡ left = ok-injective (rw (enough, small, color_values) at h) in
        rw (← same) (omega (arith, length-drop values rest))
  ]
]

consume_extended_color-length :
    (rest left : List ℕ) → consume_extended_color rest ≡ ok left → length left ≤ length rest
unfolding consume_extended_color
consume_extended_color-length [] left h = cc
consume_extended_color-length (mode ∷ rest) left h = elim (Bool-cases (mode == 5)) [
  | inl indexed ↦
      let shorter = color_values-length 1 rest left (rw (indexed, consume_extended_color) at h) in
      omega arith
  | inr other ↦ elim (Bool-cases (mode == 2)) [
    | inl rgb ↦
        let shorter =
          color_values-length 3 rest left (rw (other, rgb, consume_extended_color) at h) in
        omega arith
    | inr neither ↦ let never = rw (other, neither, consume_extended_color) at h in cc
  ]
]

-- The loop goes on with at most as many parameters, or it ends.
pub data SgrRound (fuel : ℕ) (faint : Bool) (p : ℕ) (rest : List ℕ) : Type 0 where
  goes_on :
      (styled : Bool) (left : List ℕ)
      → length left ≤ length rest
      → sgr_loop (suc fuel) faint (p ∷ rest) ≡ sgr_loop fuel styled left
      → SgrRound fuel faint p rest
  ends :
      (result : GridResult Bool)
      → sgr_loop (suc fuel) faint (p ∷ rest) ≡ some result
      → SgrRound fuel faint p rest

sgr_loop-SgrRound : (fuel : ℕ) (faint : Bool) (p : ℕ) (rest : List ℕ) → SgrRound fuel faint p rest
unfolding sgr_loop
sgr_loop-SgrRound fuel faint p rest = elim (Bool-cases (p == 0)) [
  | inl a ↦ goes_on false rest (omega arith) (rw (a, sgr_loop) refl)
  | inr a ↦ elim (Bool-cases (p == 2)) [
    | inl b ↦ goes_on true rest (omega arith) (rw (a, b, sgr_loop) refl)
    | inr b ↦ elim (Bool-cases (p == 22)) [
      | inl c ↦ goes_on false rest (omega arith) (rw (a, b, c, sgr_loop) refl)
      | inr c ↦ elim (Bool-cases (is_extended_color p)) [
        | inl d ↦ elim (Result-cases (consume_extended_color rest)) [
          | inl (left, colour) ↦
              goes_on faint left (consume_extended_color-length rest left colour)
                (rw (a, b, c, d, colour, sgr_loop) refl)
          | inr (error, refused) ↦ ends (err error) (rw (a, b, c, d, refused, sgr_loop) refl)
        ]
        | inr d ↦ elim (Bool-cases (is_ignored_operation p)) [
          | inl e ↦ goes_on faint rest (omega arith) (rw (a, b, c, d, e, sgr_loop) refl)
          | inr e ↦ ends (err unsupported_sgr_operation) (rw (a, b, c, d, e, sgr_loop) refl)
        ]
      ]
    ]
  ]
]

-- With more fuel than there are parameters the loop ends.
pub sgr_loop_total :
    (fuel : ℕ) (faint : Bool) (parameters : List ℕ)
    → length parameters < fuel
    → (result : GridResult Bool) × (sgr_loop fuel faint parameters ≡ some result)
unfolding sgr_loop
sgr_loop_total zero faint parameters h = elim h [ ]
sgr_loop_total (suc fuel) faint [] h = (ok faint, refl)
sgr_loop_total (suc fuel) faint (p ∷ rest) h = elim (sgr_loop-SgrRound fuel faint p rest) [
  | goes_on styled left shorter step ↦
      let (result, ended) = sgr_loop_total fuel styled left (omega arith) in (result, step ∙ ended)
  | ends result step ↦ (result, step)
]
