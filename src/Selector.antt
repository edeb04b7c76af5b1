-- ===== src/Selector.antt =====
-- selector.rs: how tmux is told which server to talk to.
use tmux_rescue.Common.{List, [], list_eq, num_eq, ◌++◌, ◌∷◌}
use tmux_rescue.Std.Text.{Bytes, Text, lit}

pub data TmuxSelector : Type 0 where
  socket_name : Bytes → TmuxSelector
  socket_path : Bytes → TmuxSelector

pub flag : TmuxSelector → Text
flag (socket_name _) = lit "-L"
flag (socket_path _) = lit "-S"

pub value : TmuxSelector → Bytes
value (socket_name name) = name
value (socket_path path) = path

-- `append_to`: the arguments of the command with the selector's two behind them.
pub append_to : TmuxSelector → List Bytes → List Bytes
append_to selector arguments = arguments ++ flag selector ∷ value selector ∷ []
