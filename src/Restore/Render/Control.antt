-- ===== src/Restore/Render/Control.antt =====
-- The scan for terminal controls ends, and what it passes has no ASCII control byte.
use tmux_rescue.Common.{
  All, All-of_parts, Bool, List, Option, [], any, ap, arith, drop, false, if◌then◌else◌, inl, inr,
  length, length-drop, list_eq, none, num_eq, or-eq-false, refl, some, suc, sym, take, take-length,
  true, zero, ℕ, ◌+◌, ◌-◌, ◌<◌, ◌∙◌, ◌∷◌, ◌≡◌,
}
use tmux_rescue.Std.Ascii.{IsPrintable}
use tmux_rescue.Std.Text.{Bytes}
use tmux_rescue.Std.Utf8.{all_valid, broken, from_utf8, is_control}
use tmux_rescue.Std.Utf8.Laws.{Utf8-cases, from_utf8-HasLength, from_utf8-IsPrintable}
use tmux_rescue.Restore.Render.{
  contains_terminal_control, control_loop, invalid_end, is_control_byte,
}

control_loop_of_valid :
    (fuel b : ℕ) (bs : Bytes) (cs : List ℕ)
    → from_utf8 (b ∷ bs) ≡ all_valid cs
    → control_loop (suc fuel) (b ∷ bs) ≡ some (any is_control cs)
unfolding control_loop
control_loop_of_valid fuel b bs cs e = rw (e, control_loop)

-- The rest of the input after the first fault.
abbrev after_fault : Bytes → ℕ → Option ℕ → Bytes
after_fault bytes valid_up_to error_len = drop (invalid_end bytes valid_up_to error_len) bytes

-- The bytes of the first fault.
abbrev fault_of : Bytes → ℕ → Option ℕ → Bytes
fault_of bytes valid_up_to error_len =
    take (invalid_end bytes valid_up_to error_len - valid_up_to) (drop valid_up_to bytes)

control_loop_of_broken :
    (fuel b : ℕ) (bs : Bytes) (cs : List ℕ) (up : ℕ) (len : Option ℕ)
    → from_utf8 (b ∷ bs) ≡ broken cs up len
    → control_loop (suc fuel) (b ∷ bs) ≡ (
        if any is_control cs
        then some true
        else if any is_control_byte (fault_of (b ∷ bs) up len)
        then some true
        else control_loop fuel (after_fault (b ∷ bs) up len))
unfolding control_loop
control_loop_of_broken fuel b bs cs up len e = rw (e, control_loop)

length-after_fault :
    (b : ℕ) (bs : Bytes) (cs : List ℕ) (up : ℕ) (len : Option ℕ)
    → from_utf8 (b ∷ bs) ≡ broken cs up len
    → length (after_fault (b ∷ bs) up len) < length (b ∷ bs)
length-after_fault b bs cs up none e = omega (arith, length-drop (length (b ∷ bs)) (b ∷ bs))
length-after_fault b bs cs up (some n) e =
    let positive : 0 < n = rw e at (from_utf8-HasLength (b ∷ bs)) in
    omega (arith, length-drop (up + n) (b ∷ bs))

total_if :
    (test : Bool) {rest : Option Bool}
    → (found : Bool) × (rest ≡ some found)
    → (found : Bool) × ((if test then some true else rest) ≡ some found)
total_if true h = (true, refl)
total_if false h = h

-- With more fuel than bytes the loop ends by its test.
pub control_loop_total :
    (fuel : ℕ) (bytes : Bytes)
    → length bytes < fuel
    → (found : Bool) × (control_loop fuel bytes ≡ some found)
control_loop_total zero bytes h = elim h [ ]
control_loop_total (suc fuel) [] h = (false, unfold control_loop in refl)
control_loop_total (suc fuel) (b ∷ bs) h = elim (Utf8-cases (from_utf8 (b ∷ bs))) [
  | inl (cs, valid) ↦ (any is_control cs, control_loop_of_valid fuel b bs cs valid)
  | inr (cs, up, len, fault) ↦
      let shorter = length-after_fault b bs cs up len fault in
      rw (control_loop_of_broken fuel b bs cs up len fault) (
        total_if (any is_control cs) (
          total_if (any is_control_byte (fault_of (b ∷ bs) up len))
            (control_loop_total fuel (after_fault (b ∷ bs) up len) (omega arith))))
]

any_control_byte : (bs : Bytes) → any is_control_byte bs ≡ false → All IsPrintable bs
any_control_byte [] h = tt
any_control_byte (b ∷ bs) h =
    let (here, later) = or-eq-false _ _ h in (ground arith, any_control_byte bs later)

both_tests_false :
    (test : Bool) (rest : Option Bool)
    → (if test then some true else rest) ≡ some false
    → (test ≡ false) × (rest ≡ some false)
both_tests_false true rest h = cc
both_tests_false false rest h = (refl, h)

control_loop-IsPrintable :
    (fuel : ℕ) (bytes : Bytes) → control_loop fuel bytes ≡ some false → All IsPrintable bytes
unfolding control_loop
control_loop-IsPrintable zero bytes h = cc
control_loop-IsPrintable (suc fuel) [] h = tt
control_loop-IsPrintable (suc fuel) (b ∷ bs) h = elim (Utf8-cases (from_utf8 (b ∷ bs))) [
  | inl (cs, valid) ↦
      let clean : any is_control cs ≡ false =
        ground (arith, control_loop_of_valid fuel b bs cs valid) in
      let all_clean = from_utf8-IsPrintable (b ∷ bs) (rw valid clean) in
      rw (valid, take-length) at all_clean
  | inr (cs, up, len, fault) ↦
      let (clean, h₁) =
        both_tests_false _ _ (sym (control_loop_of_broken fuel b bs cs up len fault) ∙ h) in
      let (clean_fault, h₂) = both_tests_false _ _ h₁ in
      let before = from_utf8-IsPrintable (b ∷ bs) (rw fault clean) in
      All-of_parts IsPrintable (b ∷ bs) up (invalid_end (b ∷ bs) up len) (rw fault at before)
        (any_control_byte (fault_of (b ∷ bs) up len) clean_fault)
        (control_loop-IsPrintable fuel (after_fault (b ∷ bs) up len) h₂)
]

-- An argument that passes the scan has no ASCII control byte: no newline, escape or DEL.
pub contains_terminal_control-IsPrintable :
    (bytes : Bytes) → contains_terminal_control bytes ≡ false → All IsPrintable bytes
unfolding contains_terminal_control
contains_terminal_control-IsPrintable bytes h =
    let (found, ends) = control_loop_total (suc (length bytes)) bytes (omega arith) in
    control_loop-IsPrintable (suc (length bytes)) bytes
      (ends ∙ ap some (rw (ends, contains_terminal_control) at h))
