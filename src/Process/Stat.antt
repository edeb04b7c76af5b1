-- ===== src/Process/Stat.antt =====
-- `parse_proc_stat`: one line of `/proc/<pid>/stat`.
pub mod Name
use tmux_rescue.Common.{
  List, Option, [], err, if◌then◌else◌, is_empty, length, list_eq, ltb, none, not, num_eq, ok,
  reverse, some, suc, zero, ℕ, ◌++◌, ◌==◌, ◌>>=◌, ◌>>◌, ◌∷◌,
}
use tmux_rescue.Std.Number.{parse_i32, parse_i64, parse_u32, parse_u64}
use tmux_rescue.Std.Search.{is_ascii_whitespace, trim_end_matches}
use tmux_rescue.Std.Text.{Bytes, Text, lit}
use tmux_rescue.Std.Utf8.{is_utf8}
use tmux_rescue.Process.{Inspected, ProcessStat, fail_if, malformed_proc_stat, process_id_mismatch}

-- `trim_ascii`
unfoldable pub trim_start : Bytes → Bytes
trim_start [] = []
trim_start (c ∷ text) = if is_ascii_whitespace c then trim_start text else c ∷ text

unfoldable pub trim_ascii : Bytes → Bytes
trim_ascii value = trim_end_matches is_ascii_whitespace (trim_start value)

-- Around the first byte that is `b`: `position`.
unfoldable pub around_first : ℕ → Bytes → Option (Bytes × Bytes)
around_first b [] = none
around_first b (c ∷ bytes) =
    let further = around_first b bytes in
    if c == b
    then some ([], bytes)
    else (elim further [ none ↦ none | some (before, behind) ↦ some (c ∷ before, behind) ])

-- Behind the last byte that is `b`: `rposition`.
unfoldable pub behind_last : ℕ → Bytes → Option Bytes
behind_last b [] = none
behind_last b (c ∷ bytes) = elim (behind_last b bytes) [
  | some behind ↦ some behind
  | none ↦ if c == b then some bytes else none
]

-- `parse_number`, with the `str::parse` of the type that is asked for.
unfoldable pub parse_number : {T : Type 0} → (Text → Option T) → Bytes → ℕ → Text → Inspected T
parse_number parse value process_id field =
    if is_utf8 value
    then (elim (parse value) [
      | some number ↦ ok number
      | none ↦ err (malformed_proc_stat process_id (field ++ lit " is not numeric"))
    ])
    else err (malformed_proc_stat process_id (field ++ lit " is not ASCII"))

-- `split` at white space, without the empty parts.
unfoldable pub fields_from : Bytes → Bytes → List Bytes
fields_from field [] = if is_empty field then [] else reverse field ∷ []
fields_from field (c ∷ bytes) =
    let behind = fields_from [] bytes in
    let on = fields_from (c ∷ field) bytes in
    if is_ascii_whitespace c then if is_empty field then behind else reverse field ∷ behind else on

unfoldable pub nth_field : List Bytes → ℕ → Bytes
nth_field [] i = []
nth_field (field ∷ fields) zero = field
nth_field (field ∷ fields) (suc i) = nth_field fields i

unfoldable pub state_of : ℕ → Bytes → Inspected ℕ
state_of process_id (state ∷ []) = ok state
state_of process_id _ = err (malformed_proc_stat process_id (lit "invalid process state"))

-- The fields by position; `fewer` is not reached from 20 fields on.
unfoldable pub stat_of : ℕ → List Bytes → Inspected ProcessStat
stat_of process_id (state ∷ parent ∷ group ∷ session ∷ tty ∷ foreground ∷ later) = do
  state_byte ← state_of process_id state
  parent_process_id ← parse_number parse_u32 parent process_id (lit "parent process ID")
  process_group ← parse_number parse_u32 group process_id (lit "process group")
  session_id ← parse_number parse_u32 session process_id (lit "session ID")
  tty_device ← parse_number parse_i64 tty process_id (lit "tty device")
  foreground_process_group ←
      parse_number parse_i32 foreground process_id (lit "foreground process group")
  start_time ← parse_number parse_u64 (nth_field later 13) process_id (lit "process start time")
  ok (record {
    process_id = process_id;
    state = state_byte;
    parent_process_id = parent_process_id;
    process_group = process_group;
    session_id = session_id;
    tty_device = tty_device;
    foreground_process_group = foreground_process_group;
    start_time = start_time;
  })
stat_of process_id fewer =
    err (malformed_proc_stat process_id (lit "fewer than 22 process-stat fields"))

-- What stands in front of the parentheses, and what stands behind them.
unfoldable pub stat_from : ℕ → Bytes → Bytes → Inspected ProcessStat
stat_from expected before behind = do
  parsed ← parse_number parse_u32 (trim_ascii before) expected (lit "process ID")
  fail_if (not (parsed == expected)) (process_id_mismatch expected parsed)
  fail_if (ltb (length (fields_from [] behind)) 20)
      (malformed_proc_stat expected (lit "fewer than 22 process-stat fields"))
  stat_of parsed (fields_from [] behind)

unfoldable pub parse_proc_stat : ℕ → Bytes → Inspected ProcessStat
parse_proc_stat expected input = elim (around_first b'(' input) [
  | none ↦ err (malformed_proc_stat expected (lit "missing comm opening parenthesis"))
  | some (before, inside) ↦ elim (behind_last b')' inside) [
    | none ↦ err (malformed_proc_stat expected (lit "missing comm closing parenthesis"))
    | some behind ↦ stat_from expected before behind
  ]
]
