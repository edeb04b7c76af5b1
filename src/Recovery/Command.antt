-- ===== src/Recovery/Command.antt =====
-- `derive_automatic_command` and `AutomaticRecoveryExpectation`.
pub mod Relaunch
mod Tests
use tmux_rescue.Common.{
  Bool, List, Option, [], false, length, list_eq, none, num_eq, some, true, ◌&&◌, ◌==◌, ◌∷◌,
}
use tmux_rescue.Std.Path.{file_name}
use tmux_rescue.Std.Text.{Bytes, lit}
use tmux_rescue.Model.Codec.{Codecs}
use tmux_rescue.Model.OsString.{LosslessOsString}
use tmux_rescue.Model.Recovery.{
  AutomaticRecovery, ClaudeSessionId, CodexSessionId, RecognizedBookshelfServeCommand,
  RecognizedMdBookServeCommand, bookshelf_serve, claude_code, codex, md_book_serve,
}

pub record RecoveryCommand : Type 0 where
  pub argv : List LosslessOsString

pub data AutomaticRecoveryExpectation : Type 0 where
  expect_codex : CodexSessionId → AutomaticRecoveryExpectation
  expect_claude_code : ClaudeSessionId → AutomaticRecoveryExpectation
  expect_md_book_serve : RecognizedMdBookServeCommand → AutomaticRecoveryExpectation
  expect_bookshelf_serve : RecognizedBookshelfServeCommand → AutomaticRecoveryExpectation

-- `AutomaticRecoveryExpectation::from`
unfoldable pub expectation_of : AutomaticRecovery → AutomaticRecoveryExpectation
expectation_of (codex session_id _) = expect_codex session_id
expectation_of (claude_code session_id) = expect_claude_code session_id
expectation_of (md_book_serve command) = expect_md_book_serve command
expectation_of (bookshelf_serve command) = expect_bookshelf_serve command

-- `LosslessOsString::try_from_bytes(…).expect(…)`: the fixed words and the text of a UUID are
-- short and hold no NUL, so that the check passes.
abbrev pub fixed_os_string : Bytes → LosslessOsString
fixed_os_string bytes = record { bytes = bytes }

-- `argv[1..]`, where `argv` is not empty.
abbrev pub arguments_of : List LosslessOsString → List LosslessOsString
arguments_of [] = []
arguments_of (_ ∷ arguments) = arguments

-- Two basenames, both absent or both there and equal.
same_basename : Option Bytes → Option Bytes → Bool
same_basename none none = true
same_basename (some a) (some b) = a == b
same_basename _ _ = false

same_arguments : List LosslessOsString → List LosslessOsString → Bool
same_arguments [] [] = true
same_arguments (a ∷ others) (b ∷ rest) = a.bytes == b.bytes && same_arguments others rest
same_arguments _ _ = false

-- `expected[0]` panics on an empty list: both are recognised serve commands, and not empty.
pub same_serve_argv : List LosslessOsString → List LosslessOsString → Bool
same_serve_argv (e ∷ expected) (a ∷ actual) =
    (length expected == length actual)
    && same_basename (file_name e.bytes) (file_name a.bytes)
    && same_arguments expected actual
same_serve_argv _ _ = false

-- `AutomaticRecoveryExpectation::matches`
pub matches : AutomaticRecoveryExpectation → AutomaticRecovery → Bool
matches (expect_codex expected) (codex session_id _) = expected.uuid == session_id.uuid
matches (expect_claude_code expected) (claude_code session_id) = expected.uuid == session_id.uuid
matches (expect_md_book_serve expected) (md_book_serve actual) =
    same_serve_argv expected.command.argv actual.command.argv
matches (expect_bookshelf_serve expected) (bookshelf_serve actual) =
    same_serve_argv expected.command.argv actual.command.argv
matches _ _ = false

module _ (codecs : Codecs) where
  unfoldable pub derive_automatic_command : AutomaticRecovery → RecoveryCommand
  derive_automatic_command (codex session_id _) = record {
    argv =
        fixed_os_string (lit "codex")
        ∷ fixed_os_string (lit "resume")
        ∷ fixed_os_string (codecs.uuid_display session_id.uuid)
        ∷ [];
  }
  derive_automatic_command (claude_code session_id) = record {
    argv =
        fixed_os_string (lit "claude")
        ∷ fixed_os_string (lit "--resume")
        ∷ fixed_os_string (codecs.uuid_display session_id.uuid)
        ∷ [];
  }
  derive_automatic_command (md_book_serve recognized) = record {
    argv = fixed_os_string (lit "mdbook") ∷ arguments_of recognized.command.argv;
  }
  derive_automatic_command (bookshelf_serve recognized) = record {
    argv = fixed_os_string (lit "book") ∷ arguments_of recognized.command.argv;
  }
