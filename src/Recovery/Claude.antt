-- ===== src/Recovery/Claude.antt =====
-- `is_claude_tui`: the command lines of an interactive Claude session.
pub mod Options
pub mod Resolve
pub mod Evidence
pub mod Flags
pub mod Scanned
pub mod Named
pub mod Agreed
pub mod Current
use tmux_rescue.Common.{
  Bool, List, Option, [], contains, false, if◌then◌else◌, is_empty, length, list_eq, none, not,
  num_eq, some, suc, true, zero, ℕ, ◌&&◌, ◌==◌, ◌||◌, ◌∷◌,
}
use tmux_rescue.Std.Path.{components, file_name, is_normal}
use tmux_rescue.Std.Text.{Bytes, lit}
use tmux_rescue.Model.Command.{CapturedCommand, first_is_named, is_named}
use tmux_rescue.Model.OsString.{LosslessOsString}

pub data ClaudeOptionArity : Type 0 where
  flag_arity required_value optional_value variadic_value : ClaudeOptionArity

claude_flags : List Bytes
claude_flags =
    lit "--allow-dangerously-skip-permissions"
    ∷ lit "--ax-screen-reader"
    ∷ lit "--bare"
    ∷ lit "--brief"
    ∷ lit "--chrome"
    ∷ lit "-c"
    ∷ lit "--continue"
    ∷ lit "--dangerously-skip-permissions"
    ∷ lit "--disable-slash-commands"
    ∷ lit "--exclude-dynamic-system-prompt-sections"
    ∷ lit "--ide"
    ∷ lit "--no-chrome"
    ∷ lit "--safe-mode"
    ∷ lit "--strict-mcp-config"
    ∷ lit "--verbose"
    ∷ []

claude_required : List Bytes
claude_required =
    lit "--agent"
    ∷ lit "--agents"
    ∷ lit "--append-system-prompt"
    ∷ lit "--debug-file"
    ∷ lit "--effort"
    ∷ lit "--fallback-model"
    ∷ lit "--input-format"
    ∷ lit "--json-schema"
    ∷ lit "--max-budget-usd"
    ∷ lit "--model"
    ∷ lit "-n"
    ∷ lit "--name"
    ∷ lit "--output-format"
    ∷ lit "--permission-mode"
    ∷ lit "--plugin-dir"
    ∷ lit "--plugin-url"
    ∷ lit "--remote-control-session-name-prefix"
    ∷ lit "--session-id"
    ∷ lit "--setting-sources"
    ∷ lit "--settings"
    ∷ lit "--system-prompt"
    ∷ lit "--tools"
    ∷ []

claude_optional : List Bytes
claude_optional =
    lit "-d"
    ∷ lit "--debug"
    ∷ lit "--from-pr"
    ∷ lit "--prompt-suggestions"
    ∷ lit "--remote-control"
    ∷ lit "-r"
    ∷ lit "--resume"
    ∷ []

claude_variadic : List Bytes
claude_variadic =
    lit "--add-dir"
    ∷ lit "--allowedTools"
    ∷ lit "--allowed-tools"
    ∷ lit "--betas"
    ∷ lit "--disallowedTools"
    ∷ lit "--disallowed-tools"
    ∷ lit "--file"
    ∷ lit "--mcp-config"
    ∷ []

unfoldable pub supported_claude_option : Bytes → Option ClaudeOptionArity
unfolding claude_flags claude_required claude_optional claude_variadic
supported_claude_option name =
    if contains claude_flags name
    then some flag_arity
    else if contains claude_required name
    then some required_value
    else if contains claude_optional name
    then some optional_value
    else if contains claude_variadic name
    then some variadic_value
    else none

-- `starts_with(b"-")`
abbrev pub is_dashed : Bytes → Bool
is_dashed [] = false
is_dashed (b ∷ _) = b == b'-'

-- An argument cut at its first `=`.
unfoldable pub cut_at_equals : Bytes → Bytes × Option Bytes
cut_at_equals [] = ([], none)
cut_at_equals (b ∷ bs) =
    let (name, inline_value) = cut_at_equals bs in
    if b == b'=' then ([], some bs) else (b ∷ name, inline_value)

abbrev pub skip_plain : List LosslessOsString → List LosslessOsString
skip_plain [] = []
skip_plain (value ∷ values) =
    let rest = skip_plain values in if is_dashed value.bytes then value ∷ values else rest

-- The position after one plain value, if there is one.
abbrev pub skip_one_plain : List LosslessOsString → List LosslessOsString
skip_one_plain [] = []
skip_one_plain (value ∷ values) = if is_dashed value.bytes then value ∷ values else values

-- The arguments behind those of an option of this arity; none where its value is missing.
unfoldable pub after_option :
    ClaudeOptionArity → List LosslessOsString → Option (List LosslessOsString)
after_option flag_arity rest = some rest
after_option required_value [] = none
after_option required_value (value ∷ rest) = some rest
after_option optional_value rest = some (skip_one_plain rest)
after_option variadic_value [] = none
after_option variadic_value (value ∷ rest) =
    if is_dashed value.bytes then none else some (skip_plain rest)

-- The arguments behind an option with what follows its first `=`.
unfoldable pub after_cut :
    ClaudeOptionArity → Option Bytes → List LosslessOsString → Option (List LosslessOsString)
after_cut flag_arity (some inline) rest = none
after_cut _ (some []) rest = none
after_cut _ (some (_ ∷ _)) rest = some rest
after_cut arity none rest = after_option arity rest

-- One round of the loop: the arguments that are left, or none if the command line is refused.
unfoldable pub after_argument :
    LosslessOsString → List LosslessOsString → Option (List LosslessOsString)
after_argument argument rest =
    if argument.bytes == lit "--" || not (is_dashed argument.bytes)
    then none
    else (elim (supported_claude_option (cut_at_equals argument.bytes).0) [
      | none ↦ none
      | some arity ↦ after_cut arity (cut_at_equals argument.bytes).1 rest
    ])

-- The loop, on the arguments from `index` on; `none` means that the fuel ran out.
unfoldable pub arguments_loop : ℕ → List LosslessOsString → Option Bool
arguments_loop zero arguments = none
arguments_loop (suc fuel) [] = some true
arguments_loop (suc fuel) (argument ∷ rest) = elim (after_argument argument rest) [
  | none ↦ some false
  | some left ↦ arguments_loop fuel left
]

-- `argv[1..]`, empty where `argv` is.
abbrev pub behind_first : List LosslessOsString → List LosslessOsString
behind_first [] = []
behind_first (_ ∷ arguments) = arguments

unfoldable pub supported_claude_tui_arguments : List LosslessOsString → Bool
unfolding arguments_loop
supported_claude_tui_arguments argv =
    elim (arguments_loop (suc (length argv)) (behind_first argv)) [
      | some answer ↦ answer
      | none ↦ false
    ]

normal_components : List Bytes → List Bytes
normal_components [] = []
normal_components (component ∷ others) =
    let rest = normal_components others in if is_normal component then component ∷ rest else rest

-- `[.., claude, versions, version]`
ends_in_version : List Bytes → Bool
ends_in_version [] = false
ends_in_version (claude ∷ []) = false
ends_in_version (claude ∷ versions ∷ []) = false
ends_in_version (claude ∷ versions ∷ version ∷ []) =
    claude == lit "claude" && versions == lit "versions" && not (is_empty version)
ends_in_version (_ ∷ b ∷ c ∷ d ∷ components) = ends_in_version (b ∷ c ∷ d ∷ components)

unfoldable pub is_claude_executable : Bytes → Bool
unfolding normal_components ends_in_version
is_claude_executable value =
    if is_named (lit "claude") (file_name value)
    then true
    else ends_in_version (normal_components (components value))

unfoldable pub is_claude_tui : CapturedCommand → Bool
is_claude_tui command =
    is_claude_executable command.executable.bytes
    && first_is_named (lit "claude") command.argv
    && supported_claude_tui_arguments command.argv
