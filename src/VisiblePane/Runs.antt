-- ===== src/VisiblePane/Runs.antt =====
-- Text with faint and plain runs, written with SGR sequences, is decoded to its text and flags.
use tmux_rescue.Common.{
  All, Bool, List, [], ap, append-nil, append_assoc, arith, contains, false, if◌then◌else◌, list_eq,
  num_eq, ok, or-eq-false, refl, some, true, ℕ, ◌++◌, ◌==◌, ◌∙◌, ◌∷◌, ◌≡◌,
}
use tmux_rescue.Std.Path.{split}
use tmux_rescue.Std.Text.{Bytes, Text, lit}
use tmux_rescue.Std.Utf8.{chars, decode, from_utf8}
use tmux_rescue.VisiblePane.{reject_if}
use tmux_rescue.VisiblePane.Styled.{
  Decoded, append_ordinary, apply_sgr, behind_escape, decode_from, decode_styled_capture, flags_of,
  in_text, parse_sgr_digits, parse_sgr_parameter, parse_sgr_parameters, run_sgr, sgr_loop,
}

-- A run of characters of one weight, as its bytes.
pub record Run : Type 0 where
  pub faint : Bool
  pub text : Text

-- Ordinary text: UTF-8 without an escape.
pub record IsRun (run : Run) (cs : List ℕ) : Type 0 where
  pub decoded : decode run.text ≡ some cs
  pub no_escape : contains run.text 0x1B ≡ false

-- `ESC [ 2 m` or `ESC [ 22 m` in front of each run.
pub print_runs : List Run → Bytes
print_runs [] = []
print_runs (run ∷ runs) =
    0x1B ∷ b'[' ∷ ((if run.faint then lit "2m" else lit "22m") ++ (run.text ++ print_runs runs))

pub runs_text : List Run → Text
runs_text [] = []
runs_text (run ∷ runs) = run.text ++ runs_text runs

pub runs_flags : List Run → List Bool
runs_flags [] = []
runs_flags (run ∷ runs) = flags_of run.faint (chars run.text) ++ runs_flags runs

plain_step :
    (b : ℕ) (bs ordinary : Bytes) (decoded : Decoded) (faint : Bool)
    → (b == 0x1B) ≡ false
    → decode_from (in_text ordinary) decoded faint (b ∷ bs)
      ≡ decode_from (in_text (ordinary ++ b ∷ [])) decoded faint bs
unfolding decode_from
plain_step b bs ordinary decoded faint h = rw (h, decode_from) refl

-- Ordinary bytes in front are taken up to the next escape.
pub decode_from-ordinary :
    (bytes ordinary rest : Bytes) (decoded : Decoded) (faint : Bool)
    → contains bytes 0x1B ≡ false
    → decode_from (in_text ordinary) decoded faint (bytes ++ rest)
      ≡ decode_from (in_text (ordinary ++ bytes)) decoded faint rest
unfolding decode_from
decode_from-ordinary [] ordinary rest decoded faint h = rw (append-nil ordinary) refl
decode_from-ordinary (b ∷ bytes) ordinary rest decoded faint h =
    let (other, later) = or-eq-false _ _ h in
    let not_escape : (b == 0x1B) ≡ false = ground arith in
    let joined = append_assoc ordinary (b ∷ []) bytes in
    plain_step b (bytes ++ rest) ordinary decoded faint not_escape
    ∙ decode_from-ordinary bytes (ordinary ++ b ∷ []) rest decoded faint later
    ∙ ap (λ o. decode_from (in_text o) decoded faint rest) joined

-- At an escape, with the text in front of it in UTF-8.
escape_step :
    (bs ordinary : Bytes) (cs : List ℕ) (decoded : Decoded) (faint : Bool)
    → decode ordinary ≡ some cs
    → decode_from (in_text ordinary) decoded faint (0x1B ∷ bs)
      ≡ decode_from behind_escape
          (record {
            text = decoded.text ++ ordinary;
            faint_by_char = decoded.faint_by_char ++ flags_of faint cs;
          })
          faint
          bs
unfolding decode_from append_ordinary
escape_step bs ordinary cs decoded faint h = rw (h, decode_from, append_ordinary) refl

-- The sequence of a run.
sequence_step :
    (bs : Bytes) (decoded : Decoded) (before faint : Bool)
    → decode_from behind_escape decoded before
        (b'[' ∷ ((if faint then lit "2m" else lit "22m") ++ bs))
      ≡ decode_from (in_text []) decoded faint bs
unfolding decode_from apply_sgr split parse_sgr_parameters parse_sgr_parameter parse_sgr_digits
    run_sgr sgr_loop reject_if
sequence_step bs decoded before true = refl
sequence_step bs decoded before false = refl

abbrev pub AreRuns : List Run → Type 0
AreRuns = All (λ run. (cs : List ℕ) × IsRun run cs)

final_step :
    (ordinary : Bytes) (cs : List ℕ) (decoded : Decoded) (faint : Bool)
    → decode ordinary ≡ some cs
    → decode_from (in_text ordinary) decoded faint []
      ≡ ok (record {
        text = decoded.text ++ ordinary;
        faint_by_char = decoded.faint_by_char ++ flags_of faint cs;
      })
unfolding decode_from append_ordinary
final_step ordinary cs decoded faint h = rw (h, decode_from, append_ordinary) refl

chars_of_decoded : (text : Text) (cs : List ℕ) → decode text ≡ some cs → chars text ≡ cs
unfolding chars
chars_of_decoded text cs h = rw (h, chars) refl

decode_nil : decode [] ≡ some []
unfolding decode from_utf8
decode_nil = refl

decode_from-runs :
    (runs : List Run) (ordinary : Bytes) (cs : List ℕ) (text : Text) (flags : List Bool)
    (faint : Bool)
    → decode ordinary ≡ some cs
    → AreRuns runs
    → decode_from
        (in_text ordinary)
        (record { text = text; faint_by_char = flags })
        faint
        (print_runs runs)
      ≡ ok (record {
        text = (text ++ ordinary) ++ runs_text runs;
        faint_by_char = (flags ++ flags_of faint cs) ++ runs_flags runs;
      })
unfolding print_runs runs_text runs_flags
decode_from-runs [] ordinary cs text flags faint h tt =
    final_step ordinary cs _ faint h
    ∙ rw (append-nil (text ++ ordinary), append-nil (flags ++ flags_of faint cs)) refl
decode_from-runs (run ∷ runs) ordinary cs text flags faint h ((rs, is_run), others) =
    let here = append_assoc (text ++ ordinary) run.text (runs_text runs) in
    let same = chars_of_decoded run.text rs is_run.decoded in
    let flagged =
      append_assoc (flags ++ flags_of faint cs) (flags_of run.faint rs) (runs_flags runs) in
    escape_step _ ordinary cs (record { text = text; faint_by_char = flags }) faint h
    ∙ sequence_step (run.text ++ print_runs runs) _ faint run.faint
    ∙ decode_from-ordinary run.text [] (print_runs runs) _ run.faint is_run.no_escape
    ∙ decode_from-runs runs run.text rs (text ++ ordinary) (flags ++ flags_of faint cs) run.faint
        is_run.decoded others
    ∙ rw (same, here, flagged) refl

-- Runs of UTF-8 text without escapes, each printed behind the sequence of its weight, are decoded
-- to their text, with the weight of each character.
pub decode_styled_capture-print_runs :
    (runs : List Run)
    → AreRuns runs
    → decode_styled_capture (print_runs runs)
      ≡ ok (record { text = runs_text runs; faint_by_char = runs_flags runs })
unfolding decode_styled_capture
decode_styled_capture-print_runs runs h = decode_from-runs runs [] [] [] [] false decode_nil h
