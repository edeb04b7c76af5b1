-- ===== src/Model/Command.antt =====
-- `CapturedCommand`, and the two recognised serve commands.
pub mod Laws
use tmux_rescue.Model.OsString
use tmux_rescue.Common.{
  Bool, List, Option, [], err, false, if◌then◌else◌, is_empty, length, list_eq, ltb, map, none,
  num_eq, ok, some, ℕ, ◌&&◌, ◌++◌, ◌+◌, ◌==◌, ◌>>=◌, ◌>>◌, ◌∷◌,
}
use tmux_rescue.Std.Path.{file_name}
use tmux_rescue.Std.Text.{Bytes, Text, decimal, lit}
use tmux_rescue.Model.Codec.{Codecs}
use tmux_rescue.Model.Error.{
  Validation, empty_argv, empty_argv_zero, empty_executable, invalid_recognized_serve_command,
  max_arguments, refuse_if, too_many_arguments,
}
use tmux_rescue.Model.OsString.{LosslessOsString, RawEncodedOsString}

pub record RawCapturedCommand : Type 0 where
  pub executable : RawEncodedOsString
  pub argv : List RawEncodedOsString

pub record CapturedCommand : Type 0 where
  pub executable : LosslessOsString
  pub argv : List LosslessOsString

-- `argv[0].as_bytes().is_empty()`, where `argv` is not empty.
abbrev pub argv_zero_is_empty : List LosslessOsString → Bool
argv_zero_is_empty [] = false
argv_zero_is_empty (first ∷ _) = is_empty first.bytes

module _ (codecs : Codecs) where
  -- The arguments from position `index` on.
  arguments_from_raw : Text → ℕ → List RawEncodedOsString → Validation (List LosslessOsString)
  arguments_from_raw field index [] = ok []
  arguments_from_raw field index (raw ∷ raws) = do
    value ← OsString.from_raw codecs raw (field ++ lit ".argv[" ++ decimal index ++ lit "]")
    values ← arguments_from_raw field (index + 1) raws
    ok (value ∷ values)

  unfoldable pub from_raw : RawCapturedCommand → Text → Validation CapturedCommand
  unfolding arguments_from_raw
  from_raw raw field = do
    executable ← OsString.from_raw codecs raw.executable (field ++ lit ".executable")
    refuse_if (is_empty executable.bytes) (empty_executable field)
    refuse_if (is_empty raw.argv) (empty_argv field)
    refuse_if (ltb max_arguments (length raw.argv))
        (too_many_arguments field (length raw.argv) max_arguments)
    argv ← arguments_from_raw field 0 raw.argv
    refuse_if (argv_zero_is_empty argv) (empty_argv_zero field)
    ok (record { executable = executable; argv = argv })

  unfoldable pub to_raw : CapturedCommand → RawCapturedCommand
  to_raw command = record {
    executable = OsString.to_raw codecs command.executable;
    argv = map (OsString.to_raw codecs) command.argv;
  }

  -- `CapturedCommand::try_new`
  unfoldable pub try_new : LosslessOsString → List LosslessOsString → Validation CapturedCommand
  try_new executable argv =
      from_raw (to_raw (record { executable = executable; argv = argv })) (lit "captured command")

-- `Path::new(…).file_name() == Some(expected)`
abbrev pub is_named : Text → Option Bytes → Bool
is_named expected none = false
is_named expected (some name) = name == expected

-- `argv.get(1) == Some("serve")`
abbrev pub second_is_serve : List LosslessOsString → Bool
second_is_serve (_ ∷ second ∷ _) = second.bytes == lit "serve"
second_is_serve _ = false

-- `argv[0]` has the expected basename, where `argv` is not empty.
abbrev pub first_is_named : Text → List LosslessOsString → Bool
first_is_named expected [] = false
first_is_named expected (first ∷ _) = is_named expected (file_name first.bytes)

abbrev pub identifies_serve : Text → CapturedCommand → Bool
identifies_serve tool command =
    is_named tool (file_name command.executable.bytes)
    && first_is_named tool command.argv
    && second_is_serve command.argv

unfoldable pub validate_serve_command : Text → CapturedCommand → Validation (Unit {0})
validate_serve_command tool command =
    if identifies_serve tool command
    then ok tt
    else err (
        invalid_recognized_serve_command tool
          (lit "executable basename, argv[0] basename, and argv[1] must identify serve"))
