-- ===== src/Std/Utf8/Laws.antt =====
-- A text whose characters hold no control has no byte that is an ASCII control.
use tmux_rescue.Common.{
  All, All-append, List, Option, [], any, append-nil, append_assoc, arith, false, inl, inr, length,
  length-append, list_eq, none, num_eq, or-eq-false, refl, some, suc, take, take-append,
  take-length, zero, ℕ, ℕ-cases, ◌++◌, ◌+◌, ◌<◌, ◌∙◌, ◌∷◌, ◌≡◌, ◌≤◌, ◌⊎◌,
}
use tmux_rescue.Std.Ascii.{IsPrintable}
use tmux_rescue.Std.Text.{Bytes}
use tmux_rescue.Std.Utf8.{
  Decoder, Progress, Utf8, all_valid, between, broken, continuation, continue_with, feed, from_utf8,
  is_control, lead, malformed, malformed_len, push, scalar, scan, unfinished,
}

-- Only continuation bytes are accepted inside a character.
abbrev pub IsDecoder : Decoder → Type 0
IsDecoder d = 0x80 ≤ d.low

lead-scalar : (b c : ℕ) → lead b ≡ scalar c → is_control c ≡ false → IsPrintable b
unfolding lead
lead-scalar b c e k = ground arith

lead-unfinished : (b : ℕ) (d' : Decoder) → lead b ≡ unfinished d' → (0x80 ≤ b) × IsDecoder d'
unfolding lead
lead-unfinished b d' e = ground arith

continuation-scalar :
    (due : ℕ) (d : Decoder) (b c : ℕ) → IsDecoder d → continuation due d b ≡ scalar c → 0x80 ≤ b
unfolding continuation
continuation-scalar due d b c h e = ground arith

continuation-unfinished :
    (due : ℕ) (d : Decoder) (b : ℕ) (d' : Decoder)
    → IsDecoder d
    → continuation due d b ≡ unfinished d'
    → (0x80 ≤ b) × IsDecoder d'
unfolding continuation continue_with
continuation-unfinished zero d b d' h e = ground arith
continuation-unfinished (suc due) d b d' h e = ground arith

feed-scalar :
    (d : Decoder) (b c : ℕ)
    → IsDecoder d
    → feed d b ≡ scalar c
    → is_control c ≡ false
    → IsPrintable b
unfolding lead feed
feed-scalar d b c h e k = elim (ℕ-cases d.due) [
  | inl none_due ↦ lead-scalar b c (rw none_due at e) k
  | inr (due, some_due) ↦
      let high : 0x80 ≤ b = continuation-scalar due d b c h (rw some_due at e) in omega arith
]

pub feed-unfinished :
    (d : Decoder) (b : ℕ) (d' : Decoder)
    → IsDecoder d
    → feed d b ≡ unfinished d'
    → IsPrintable b × IsDecoder d'
unfolding lead feed
feed-unfinished d b d' h e = elim (ℕ-cases d.due) [
  | inl none_due ↦ let r = lead-unfinished b d' (rw none_due at e) in omega arith
  | inr (due, some_due) ↦
      let r = continuation-unfinished due d b d' h (rw some_due at e) in omega arith
]

-- The characters of an outcome: all of them, or those before the fault.
abbrev pub chars_of : Utf8 → List ℕ
chars_of (all_valid cs) = cs
chars_of (broken cs valid_up_to error_len) = cs

-- How many bytes of an input of `size` bytes the characters take.
abbrev pub valid_len : ℕ → Utf8 → ℕ
valid_len size (all_valid cs) = size
valid_len size (broken cs valid_up_to error_len) = valid_up_to

chars_of-push : (c width : ℕ) (r : Utf8) → chars_of (push c width r) ≡ c ∷ chars_of r
unfolding push
chars_of-push c width (all_valid cs) = refl
chars_of-push c width (broken cs valid_up_to error_len) = refl

valid_len-push :
    (c width size : ℕ) (r : Utf8)
    → valid_len (width + size) (push c width r) ≡ width + valid_len size r
unfolding push
valid_len-push c width size (all_valid cs) = refl
valid_len-push c width size (broken cs valid_up_to error_len) = refl

pub Progress-cases :
    (p : Progress)
    → ((c : ℕ) × (p ≡ scalar c)) ⊎ ((d : Decoder) × (p ≡ unfinished d)) ⊎ (p ≡ malformed)
Progress-cases (scalar c) = inl (c, refl)
Progress-cases (unfinished d) = inr (inl (d, refl))
Progress-cases malformed = inr (inr refl)

abbrev IsCleanBy : Bytes → Utf8 → Type 0
IsCleanBy bytes r = All IsPrintable (take (valid_len (length bytes) r) bytes)

IsCleanBy-push :
    (pre bs : Bytes) (b c : ℕ) (r : Utf8)
    → All IsPrintable pre
    → IsPrintable b
    → IsCleanBy bs r
    → IsCleanBy (pre ++ b ∷ bs) (push c (suc (length pre)) r)
IsCleanBy-push pre bs b c r k p h =
    let size : length (pre ++ b ∷ bs) ≡ suc (length pre) + length bs =
      omega (arith, length-append pre (b ∷ bs)) in
    let kept : suc (length pre) + valid_len (length bs) r
        ≡ length pre + suc (valid_len (length bs) r) =
      omega arith in
    rw (size, valid_len-push, kept, take-append)
      (All-append IsPrintable pre (b ∷ take (valid_len (length bs) r) bs) k (p, h))

module _ (d : Decoder) (pending b : ℕ) (bs : Bytes) where
  pub scan_of_scalar :
      (c : ℕ)
      → feed d b ≡ scalar c
      → scan d pending (b ∷ bs) ≡ push c (suc pending) (scan between 0 bs)
  unfolding scan
  scan_of_scalar c e = rw (e, scan)

  pub scan_of_partial :
      (d' : Decoder) → feed d b ≡ unfinished d' → scan d pending (b ∷ bs) ≡ scan d' (suc pending) bs
  unfolding scan
  scan_of_partial d' e = rw (e, scan)

  pub scan_of_malformed :
      feed d b ≡ malformed → scan d pending (b ∷ bs) ≡ broken [] 0 (some (malformed_len pending))
  unfolding scan
  scan_of_malformed e = rw (e, scan)

pub scan_of_nil :
    (d : Decoder) (pending : ℕ)
    → (scan d pending [] ≡ all_valid []) ⊎ (scan d pending [] ≡ broken [] 0 none)
unfolding scan
scan_of_nil d pending = ground arith

-- `pre` is what has been read of a character, and `bs` is the rest of the input.
scan-IsCleanBy :
    (d : Decoder) (pre bs : Bytes)
    → IsDecoder d
    → All IsPrintable pre
    → any is_control (chars_of (scan d (length pre) bs)) ≡ false
    → IsCleanBy (pre ++ bs) (scan d (length pre) bs)
scan-IsCleanBy d pre [] h k e = elim (scan_of_nil d (length pre)) [
  | inl done ↦ rw (done, append-nil, take-length) k
  | inr more ↦ rw more tt
]
scan-IsCleanBy d pre (b ∷ bs) h k e = elim (Progress-cases (feed d b)) [
  | inl (c, ended) ↦
      let next = scan_of_scalar d (length pre) b bs c ended in
      let clean = rw (next, chars_of-push) at e in
      let (here, later) = or-eq-false _ _ clean in
      rw next (
        IsCleanBy-push pre bs b c (scan between 0 bs) k (feed-scalar d b c h ended here)
          (scan-IsCleanBy between [] bs (omega arith) tt later))
  | inr (inl (d', more)) ↦
      let (printable, within) = feed-unfinished d b d' h more in
      let read : length (pre ++ b ∷ []) ≡ suc (length pre) =
        omega (arith, length-append pre (b ∷ [])) in
      let next : scan d (length pre) (b ∷ bs) ≡ scan d' (length (pre ++ b ∷ [])) bs =
        scan_of_partial d (length pre) b bs d' more ∙ rw read in
      let joined : (pre ++ b ∷ []) ++ bs ≡ pre ++ b ∷ bs = append_assoc pre (b ∷ []) bs in
      rw (next, ← joined)
        (scan-IsCleanBy d' (pre ++ b ∷ []) bs within
          (All-append IsPrintable pre (b ∷ []) k (printable, tt)) (rw next at e))
  | inr (inr fault) ↦ rw (scan_of_malformed d (length pre) b bs fault) tt
]

-- The bytes in front of the first fault, if their characters hold no control.
pub from_utf8-IsPrintable :
    (bytes : Bytes)
    → any is_control (chars_of (from_utf8 bytes)) ≡ false
    → All IsPrintable (take (valid_len (length bytes) (from_utf8 bytes)) bytes)
unfolding from_utf8
from_utf8-IsPrintable bytes e = scan-IsCleanBy between [] bytes (omega arith) tt e

-- A malformed sequence has a byte at least.
abbrev pub HasLength : Utf8 → Type 0
HasLength (broken cs valid_up_to (some error_len)) = 0 < error_len
HasLength _ = Unit

HasLength-push : (c width : ℕ) (r : Utf8) → HasLength r → HasLength (push c width r)
unfolding push
HasLength-push c width (all_valid cs) h = tt
HasLength-push c width (broken cs valid_up_to none) h = tt
HasLength-push c width (broken cs valid_up_to (some error_len)) h = h

malformed_len-pos : (pending : ℕ) → 0 < malformed_len pending
unfolding malformed_len
malformed_len-pos zero = omega arith
malformed_len-pos (suc pending) = omega arith

scan-HasLength : (d : Decoder) (pending : ℕ) (bs : Bytes) → HasLength (scan d pending bs)
scan-HasLength d pending [] = elim (scan_of_nil d pending) [ inl e ↦ rw e tt | inr e ↦ rw e tt ]
scan-HasLength d pending (b ∷ bs) = elim (Progress-cases (feed d b)) [
  | inl (c, ended) ↦
      rw (scan_of_scalar d pending b bs c ended)
        (HasLength-push c (suc pending) (scan between 0 bs) (scan-HasLength between 0 bs))
  | inr (inl (d', more)) ↦
      rw (scan_of_partial d pending b bs d' more) (scan-HasLength d' (suc pending) bs)
  | inr (inr fault) ↦ rw (scan_of_malformed d pending b bs fault) (malformed_len-pos pending)
]

pub from_utf8-HasLength : (bytes : Bytes) → HasLength (from_utf8 bytes)
unfolding from_utf8
from_utf8-HasLength bytes = scan-HasLength between 0 bytes

pub Utf8-cases :
    (r : Utf8)
    → ((cs : List ℕ) × (r ≡ all_valid cs))
      ⊎ ((cs : List ℕ) × (valid_up_to : ℕ) × (error_len : Option ℕ) × (r
            ≡ broken cs valid_up_to error_len))
Utf8-cases (all_valid cs) = inl (cs, refl)
Utf8-cases (broken cs valid_up_to error_len) = inr (cs, valid_up_to, error_len, refl)
