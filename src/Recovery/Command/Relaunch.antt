-- ===== src/Recovery/Command/Relaunch.antt =====
-- What is launched from a recognized serve command is recognized again, as what was expected.
use tmux_rescue.Common.{
  ==_refl, List, Option, [], ap, arith, length, list_eq, none, num_eq, ok, refl, some, true, ◌==◌,
  ◌∷◌, ◌≡◌,
}
use tmux_rescue.Std.Path.{file_name}
use tmux_rescue.Std.Text.{Bytes, Text, lit}
use tmux_rescue.Model.Codec.{Codecs}
use tmux_rescue.Model.Command.{CapturedCommand, identifies_serve, is_named, validate_serve_command}
use tmux_rescue.Model.OsString.{LosslessOsString}
use tmux_rescue.Model.Recovery.{
  RecognizedBookshelfServeCommand, RecognizedMdBookServeCommand, book, bookshelf_serve,
  md_book_serve, mdbook, recognize_bookshelf, recognize_md_book,
}
use tmux_rescue.Recovery.Command.{
  arguments_of, derive_automatic_command, expectation_of, fixed_os_string, matches, same_arguments,
  same_basename, same_serve_argv,
}

-- The process seen after the launch: the planned executable, under the derived arguments.
abbrev pub launched_command : List LosslessOsString → LosslessOsString → CapturedCommand
launched_command derived executable = record {
  executable = executable;
  argv = executable ∷ arguments_of derived;
}

same_arguments_refl :
    (arguments : List LosslessOsString) → same_arguments arguments arguments ≡ true
unfolding same_arguments
same_arguments_refl [] = refl
same_arguments_refl (argument ∷ arguments) =
    rw (==_refl argument.bytes, same_arguments_refl arguments) refl

is_named-eq-true :
    (tool : Text) (name : Option Bytes) → is_named tool name ≡ true → name ≡ some tool
is_named-eq-true tool none h = cc
is_named-eq-true tool (some name) h = ap some ((list_eq.decides name tool).0 h)

module _ (tool : Text) (executable : LosslessOsString)
    (named : file_name executable.bytes ≡ some tool) where
  relaunched :
      (word : LosslessOsString) (seen : LosslessOsString) (argv : List LosslessOsString)
      → identifies_serve tool (record { executable = seen; argv = argv }) ≡ true
      → (identifies_serve tool (launched_command (word ∷ arguments_of argv) executable) ≡ true)
        × (same_serve_argv argv (executable ∷ arguments_of argv) ≡ true)
  unfolding same_serve_argv same_basename
  relaunched word seen [] serves = absurd (ground arith)
  relaunched word seen (first ∷ []) serves = absurd (ground arith)
  relaunched word seen (first ∷ second ∷ rest) serves =
      let first_named : is_named tool (file_name first.bytes) ≡ true = ground arith in
      let serve : (second.bytes == lit "serve") ≡ true = ground arith in
      let known = is_named-eq-true tool (file_name first.bytes) first_named in
      (
        rw (named, ==_refl tool, serve) refl,
        rw
            (
              known,
              named,
              ==_refl tool,
              ==_refl (length (second ∷ rest)),
              same_arguments_refl (second ∷ rest),
            )
            refl,
      )

module _ (codecs : Codecs) (executable : LosslessOsString) where
  -- A recognized `mdbook serve` is launched as a command that is recognized as `mdbook serve`
  -- again, and that meets the expectation of the recovery, if the executable is called `mdbook`.
  pub mdbook_relaunched :
      (recognized : RecognizedMdBookServeCommand)
      → file_name executable.bytes ≡ some mdbook
      → identifies_serve mdbook recognized.command ≡ true
      → let recovery = md_book_serve recognized in
        let derived = (derive_automatic_command codecs recovery).argv in
        let seen = launched_command derived executable in
        (recognize_md_book seen ≡ ok (record { command = seen }))
        × (matches (expectation_of recovery) (md_book_serve (record { command = seen })) ≡ true)
  unfolding matches expectation_of derive_automatic_command recognize_md_book validate_serve_command
  mdbook_relaunched recognized named serves =
      let (identified, same) =
        relaunched mdbook executable named (fixed_os_string mdbook) recognized.command.executable
          recognized.command.argv serves in
      (rw identified refl, same)

  -- The same for `book serve`.
  pub book_relaunched :
      (recognized : RecognizedBookshelfServeCommand)
      → file_name executable.bytes ≡ some book
      → identifies_serve book recognized.command ≡ true
      → let recovery = bookshelf_serve recognized in
        let derived = (derive_automatic_command codecs recovery).argv in
        let seen = launched_command derived executable in
        (recognize_bookshelf seen ≡ ok (record { command = seen }))
        × (matches (expectation_of recovery) (bookshelf_serve (record { command = seen })) ≡ true)
  unfolding matches expectation_of derive_automatic_command recognize_bookshelf
      validate_serve_command
  book_relaunched recognized named serves =
      let (identified, same) =
        relaunched book executable named (fixed_os_string book) recognized.command.executable
          recognized.command.argv serves in
      (rw identified refl, same)
