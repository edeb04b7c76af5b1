-- ===== src/Process/Cmdline.antt =====
-- The arguments of a process are read back from the bytes that the kernel lays out.
use tmux_rescue.Common.{
  >>=-eq-ok, All, Bool-cases, List, Option-cases, Result-cases, [], ap, append_assoc, arith,
  contains, false, inl, inr, length, list_eq, ltb, map, num_eq, ok, ok-injective, refl, some,
  some-injective, sym, ℕ, ◌++◌, ◌==◌, ◌↔◌, ◌∙◌, ◌∷◌, ◌≡◌, ◌≤◌,
}
use tmux_rescue.Std.Path.{split}
use tmux_rescue.Std.Text.{Bytes, lit}
use tmux_rescue.Model.Error.{max_os_value_bytes}
use tmux_rescue.Model.OsString.{LosslessOsString, from_bytes}
use tmux_rescue.Model.OsString.Laws.{IsOsString, from_bytes-IsOsString, from_bytes-bytes}
use tmux_rescue.Process.{
  arguments_of_parts, cmdline_too_large, empty_argv_zero, fail_if, fail_if-eq-ok, first_is_empty,
  max_cmdline_bytes, parse_proc_cmdline, without_final_nul,
}

-- Each part with a NUL behind it.
abbrev pub terminated : List Bytes → Bytes
terminated [] = []
terminated (part ∷ parts) = part ++ 0 ∷ terminated parts

abbrev bytes_of : List LosslessOsString → List Bytes
bytes_of arguments = map LosslessOsString.bytes arguments

-- Arguments that the bytes hold one behind the other, the first of them not empty.
pub record IsCmdline (input : Bytes) (argv : List LosslessOsString) : Type 0 where
  pub within_limit : length input ≤ max_os_value_bytes
  pub laid_out : input ≡ terminated (bytes_of argv)
  pub strings : All IsOsString argv
  pub named : first_is_empty argv ≡ false

without_final_nul-append : (bytes : Bytes) → without_final_nul (bytes ++ 0 ∷ []) ≡ some bytes
unfolding without_final_nul
without_final_nul-append [] = refl
without_final_nul-append (b ∷ []) = refl
without_final_nul-append (b ∷ c ∷ bytes) = rw (without_final_nul-append (c ∷ bytes)) refl

without_final_nul-eq-some :
    (input bytes : Bytes) → without_final_nul input ≡ some bytes → input ≡ bytes ++ 0 ∷ []
unfolding without_final_nul
without_final_nul-eq-some [] bytes h = cc
without_final_nul-eq-some (b ∷ []) bytes h = elim (Bool-cases (b == 0)) [
  | inl nul ↦
      let same = some-injective (rw nul at h) in rw (← same, (num_eq.decides b 0).0 nul) refl
  | inr other ↦ let never = rw other at h in cc
]
without_final_nul-eq-some (b ∷ c ∷ input) bytes h =
    elim (Option-cases (without_final_nul (c ∷ input))) [
      | inl nothing ↦ let never = rw nothing at h in cc
      | inr (rest, found) ↦
          let same = some-injective (rw found at h) in
          rw (without_final_nul-eq-some (c ∷ input) rest found, ← same) refl
    ]

-- There is always a first part.
split-first :
    (bytes : Bytes) → (part : Bytes) × (parts : List Bytes) × (split 0 bytes ≡ part ∷ parts)
unfolding split
split-first [] = ([], [], refl)
split-first (b ∷ bytes) =
    let (part, parts, same) = split-first bytes in
    elim (Bool-cases (b == 0)) [
      | inl nul ↦ ([], part ∷ parts, rw (same, split, nul) refl)
      | inr other ↦ (b ∷ part, parts, rw (same, split, other) refl)
    ]

-- The parts, each with its separator behind it, are the bytes and one more separator.
terminated-split : (bytes : Bytes) → terminated (split 0 bytes) ≡ bytes ++ 0 ∷ []
unfolding split
terminated-split [] = refl
terminated-split (b ∷ bytes) =
    let (part, parts, same) = split-first bytes in
    let rest = terminated-split bytes in
    let whole : part ++ 0 ∷ terminated parts ≡ bytes ++ 0 ∷ [] = rw same at rest in
    elim (Bool-cases (b == 0)) [
      | inl nul ↦ rw (same, split, nul, (num_eq.decides b 0).0 nul, whole) refl
      | inr other ↦ rw (same, split, other, whole) refl
    ]

append-not_empty : (bytes : Bytes) → ¬ (bytes ++ 0 ∷ [] ≡ [])
append-not_empty [] h = cc
append-not_empty (b ∷ bytes) h = cc

-- Parts without a NUL are taken apart again.
split-terminated :
    (bytes : Bytes) (parts : List Bytes)
    → All (λ part. contains part 0 ≡ false) parts
    → bytes ++ 0 ∷ [] ≡ terminated parts
    → split 0 bytes ≡ parts
unfolding split
split-terminated bytes [] free h = absurd (append-not_empty bytes h)
split-terminated [] ([] ∷ []) free h = refl
split-terminated [] ([] ∷ [] ∷ parts) free h = cc
split-terminated [] ([] ∷ (c ∷ part) ∷ parts) free h = cc
split-terminated [] ((c ∷ part) ∷ parts) (first, free) h =
    let head : 0 ≡ c = cc in let never = rw (sym head) at first in cc
split-terminated (b ∷ bytes) ([] ∷ parts) (first, free) h =
    let head : b ≡ 0 = cc in
    let rest : bytes ++ 0 ∷ [] ≡ terminated parts = cc in
    let (part, others, same) = split-first bytes in
    let found = split-terminated bytes parts free rest in
    rw (same, split, head) (ap (λ p. [] ∷ p) (sym same ∙ found))
split-terminated (b ∷ bytes) ((c ∷ part) ∷ parts) (first, free) h =
    let head : b ≡ c = cc in
    let rest : bytes ++ 0 ∷ [] ≡ part ++ 0 ∷ terminated parts = cc in
    let (not_nul, later) = parted c part first in
    let found = split-terminated bytes (part ∷ parts) (later, free) rest in
    rw (found, split, head, not_nul) refl
  where
    parted :
        (c : ℕ) (part : Bytes)
        → contains (c ∷ part) 0 ≡ false
        → (c == 0 ≡ false) × (contains part 0 ≡ false)
    parted c part h = ground arith

pub from_bytes-same :
    (part : Bytes) (value : LosslessOsString)
    → from_bytes part (lit "operating-system value") ≡ ok value
    → value.bytes ≡ part
unfolding from_bytes
from_bytes-same part value h = ground arith

arguments_of_parts-eq-ok :
    (parts : List Bytes) (argv : List LosslessOsString)
    → arguments_of_parts parts ≡ ok argv
    → (parts ≡ bytes_of argv) × All IsOsString argv
unfolding arguments_of_parts
arguments_of_parts-eq-ok [] argv h = let none_left = ok-injective h in rw (← none_left) (refl, tt)
arguments_of_parts-eq-ok (part ∷ parts) argv h =
    elim (Result-cases (from_bytes part (lit "operating-system value"))) [
      | inr (error, refused) ↦ let never = rw (refused, arguments_of_parts) at h in cc
      | inl (value, taken) ↦
          let rest_taken = rw (taken, arguments_of_parts) at h in
          let (values, rest, done) = >>=-eq-ok (arguments_of_parts parts) _ rest_taken in
          let (same, strings) = arguments_of_parts-eq-ok parts values rest in
          let whole = ok-injective done in
          rw (← whole) (
            rw (same, from_bytes-same part value taken) refl,
            (from_bytes-IsOsString part (lit "operating-system value") value taken, strings),
          )
    ]

arguments_of_parts-bytes :
    (argv : List LosslessOsString)
    → All IsOsString argv
    → arguments_of_parts (bytes_of argv) ≡ ok argv
unfolding arguments_of_parts
arguments_of_parts-bytes [] strings = refl
arguments_of_parts-bytes (argument ∷ argv) (first, strings) =
    rw
      (
        from_bytes-bytes argument (lit "operating-system value") first,
        arguments_of_parts,
        arguments_of_parts-bytes argv strings,
      )
      refl

without_nul :
    (argv : List LosslessOsString)
    → All IsOsString argv
    → All (λ part. contains part 0 ≡ false) (bytes_of argv)
without_nul [] strings = tt
without_nul (argument ∷ argv) ((_, free), strings) = (free, without_nul argv strings)

-- Some bytes end in the NUL of the last part.
terminated-append :
    (part : Bytes) (parts : List Bytes)
    → (bytes : Bytes) × (terminated (part ∷ parts) ≡ bytes ++ 0 ∷ [])
terminated-append part [] = (part, refl)
terminated-append part (next ∷ parts) =
    let (bytes, same) = terminated-append next parts in
    (part ++ 0 ∷ bytes, rw (same, append_assoc) refl)

not_less : (m n : ℕ) → n ≤ m → ltb m n ≡ false
not_less m n h = ground arith

at_most : (m n : ℕ) → ltb m n ≡ false → n ≤ m
at_most m n h = ground arith

accepted-IsCmdline :
    (input : Bytes) (argv : List LosslessOsString)
    → parse_proc_cmdline input ≡ ok argv
    → IsCmdline input argv
unfolding parse_proc_cmdline max_cmdline_bytes
accepted-IsCmdline input argv h =
    let (within, behind) = fail_if-eq-ok _ (cmdline_too_large _ _) _ h in
    elim (Option-cases (without_final_nul input)) [
      | inl unended ↦ let never = rw unended at behind in cc
      | inr (arguments, found) ↦
          let taken = rw found at behind in
          let (values, split_up, checked) =
            >>=-eq-ok (arguments_of_parts (split 0 arguments)) _ taken in
          let (named, done) = fail_if-eq-ok (first_is_empty values) empty_argv_zero _ checked in
          let same = ok-injective done in
          let (parts_same, strings) =
            arguments_of_parts-eq-ok (split 0 arguments) values split_up in
          let laid_out : input ≡ terminated (bytes_of values) =
            without_final_nul-eq-some input arguments found
            ∙ sym (terminated-split arguments)
            ∙ ap terminated parts_same in
          rw (← same) (record {
            within_limit = at_most max_os_value_bytes (length input) within;
            laid_out = laid_out;
            strings = strings;
            named = named;
          })
    ]

accepts-IsCmdline :
    (input : Bytes) (argv : List LosslessOsString)
    → IsCmdline input argv
    → parse_proc_cmdline input ≡ ok argv
unfolding parse_proc_cmdline max_cmdline_bytes fail_if
accepts-IsCmdline input [] cmdline = let never = cmdline.named in cc
accepts-IsCmdline input (argument ∷ argv) cmdline =
    let (bytes, same) = terminated-append argument.bytes (bytes_of argv) in
    let ends : input ≡ bytes ++ 0 ∷ [] = cmdline.laid_out ∙ same in
    let found : without_final_nul input ≡ some bytes =
      ap without_final_nul ends ∙ without_final_nul-append bytes in
    let parts =
      split-terminated bytes (bytes_of (argument ∷ argv))
        (without_nul (argument ∷ argv) cmdline.strings) (sym ends ∙ cmdline.laid_out) in
    let within : ltb max_os_value_bytes (length input) ≡ false =
      not_less max_os_value_bytes (length input) cmdline.within_limit in
    rw
      (
        within,
        found,
        parts,
        arguments_of_parts-bytes (argument ∷ argv) cmdline.strings,
        cmdline.named,
      )
      refl

-- The arguments of a process are read exactly if the bytes are those arguments, each with a NUL
-- behind it, within the limit, and the first one is not empty.
pub parse_proc_cmdline-eq-ok_iff :
    (input : Bytes) (argv : List LosslessOsString)
    → (parse_proc_cmdline input ≡ ok argv) ↔ IsCmdline input argv
parse_proc_cmdline-eq-ok_iff input argv =
    (accepted-IsCmdline input argv, accepts-IsCmdline input argv)
