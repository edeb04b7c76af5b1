-- ===== src/VisiblePane/Aligned.antt =====
-- Every character of a decoded capture has its flag.
use tmux_rescue.Common.{
  Bool, Bool-cases, List, Option-cases, Result-cases, [], arith, false, if-eq-ok, inl, inr, length,
  length-append, length-map, list_eq, num_eq, ok, ok-injective, refl, some, subst, ℕ, ◌++◌, ◌==◌,
  ◌∷◌, ◌≡◌,
}
use tmux_rescue.Std.Text.{Bytes}
use tmux_rescue.Std.Utf8.{decode, from_utf8}
use tmux_rescue.Std.Utf8.Append.{decode-append}
use tmux_rescue.VisiblePane.{non_sgr_escape_sequence}
use tmux_rescue.VisiblePane.Styled.{
  Decoded, Position, append_ordinary, apply_sgr, behind_escape, decode_from, decode_styled_capture,
  flags_of, in_parameters, in_text, is_parameter_byte,
}

-- The text is UTF-8, and there is one flag for each character.
abbrev pub IsAligned : Decoded → Type 0
IsAligned decoded =
    (cs : List ℕ) × (decode decoded.text ≡ some cs) × (length decoded.faint_by_char ≡ length cs)

append_ordinary-IsAligned :
    (bytes : Bytes) (faint : Bool) (decoded appended : Decoded)
    → IsAligned decoded
    → append_ordinary bytes faint decoded ≡ ok appended
    → IsAligned appended
unfolding append_ordinary
append_ordinary-IsAligned bytes faint decoded appended (cs, text, flags) h =
    elim (Option-cases (decode bytes)) [
      | inl broken_text ↦ let never = rw (broken_text, append_ordinary) at h in cc
      | inr (ds, more) ↦
          let made = ok-injective (rw (more, append_ordinary) at h) in
          subst IsAligned made (
            cs ++ ds,
            decode-append decoded.text bytes cs ds text more,
            omega (
              arith,
              length-append decoded.faint_by_char (flags_of faint ds),
              length-append cs ds,
              length-map ds (λ _. faint),
              flags,
            ),
          )
    ]

decode_from-IsAligned :
    (bytes : Bytes) (position : Position) (decoded : Decoded) (faint : Bool) (final : Decoded)
    → IsAligned decoded
    → decode_from position decoded faint bytes ≡ ok final
    → IsAligned final
unfolding decode_from
decode_from-IsAligned [] (in_text ordinary) decoded faint final aligned h =
    append_ordinary-IsAligned ordinary faint decoded final aligned h
decode_from-IsAligned [] behind_escape decoded faint final aligned h = cc
decode_from-IsAligned [] (in_parameters parameters) decoded faint final aligned h = cc
decode_from-IsAligned (b ∷ bs) (in_text ordinary) decoded faint final aligned h =
    elim (Bool-cases (b == 0x1B)) [
      | inr plain ↦
          decode_from-IsAligned bs (in_text (ordinary ++ b ∷ [])) decoded faint final aligned
            (rw (plain, decode_from) at h)
      | inl escape ↦ elim (Result-cases (append_ordinary ordinary faint decoded)) [
        | inl (appended, text) ↦
            decode_from-IsAligned bs behind_escape appended faint final
              (append_ordinary-IsAligned ordinary faint decoded appended aligned text)
              (rw (escape, text, decode_from) at h)
        | inr (error, refused) ↦ let never = rw (escape, refused, decode_from) at h in cc
      ]
    ]
decode_from-IsAligned (b ∷ bs) behind_escape decoded faint final aligned h =
    let (bracket, next) = if-eq-ok (b == b'[') _ non_sgr_escape_sequence h in
    decode_from-IsAligned bs (in_parameters []) decoded faint final aligned next
decode_from-IsAligned (b ∷ bs) (in_parameters parameters) decoded faint final aligned h =
    elim (Bool-cases (is_parameter_byte b)) [
      | inl more ↦
          decode_from-IsAligned bs (in_parameters (parameters ++ b ∷ [])) decoded faint final
            aligned (rw (more, decode_from) at h)
      | inr other ↦ elim (Bool-cases (b == b'm')) [
        | inr unknown ↦ let never = rw (other, unknown, decode_from) at h in cc
        | inl sgr ↦ elim (Result-cases (apply_sgr parameters faint)) [
          | inl (styled, applied) ↦
              decode_from-IsAligned bs (in_text []) decoded styled final aligned
                (rw (other, sgr, applied, decode_from) at h)
          | inr (error, refused) ↦ let never = rw (other, sgr, refused, decode_from) at h in cc
        ]
      ]
    ]

pub decode_nil : decode [] ≡ some []
unfolding decode from_utf8
decode_nil = refl

pub decode_styled_capture-IsAligned :
    (output : Bytes) (decoded : Decoded)
    → decode_styled_capture output ≡ ok decoded
    → IsAligned decoded
unfolding decode_styled_capture
decode_styled_capture-IsAligned output decoded h =
    decode_from-IsAligned output (in_text []) (record { text = []; faint_by_char = [] }) false
      decoded ([], decode_nil, refl) h
