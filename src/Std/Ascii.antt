-- ===== src/Std/Ascii.antt =====
-- Bytes that are no ASCII control: what a terminal does not act on by itself.
use tmux_rescue.Common.{list_eq, num_eq, ℕ, ◌≢◌, ◌≤◌}

-- At least 0x20, and not DEL.
abbrev pub IsPrintable : ℕ → Type 0
IsPrintable b = (0x20 ≤ b) × (b ≢ 0x7F)
