-- ===== src/Restore/Elf/Tests.antt =====
-- A small executable of one segment, and the same cut short.
use tmux_rescue.Common.{[], false, list_eq, num_eq, refl, some, take, true, ℕ, ◌++◌, ◌∷◌, ◌≡◌}
use tmux_rescue.Std.Text.{Bytes, lit}
use tmux_rescue.Restore.Elf.{
  ExecutableFile, Platform, check_header, check_programs, check_segments, false_if,
  is_native_linux_executable, with_number,
}
use tmux_rescue.Restore.Elf.Entry.{HasEntry, is_native_linux_executable-HasEntry}
use tmux_rescue.Restore.ElfSegment.{
  contains_file_backed_executable_entry, elf_number, is_aligned, is_well_formed, little, number_of,
  parse_segment, slice,
}

abbrev two_bytes : ℕ → Bytes
two_bytes n = n ∷ 0 ∷ []

abbrev four_bytes : ℕ → Bytes
four_bytes n = n ∷ 0 ∷ 0 ∷ 0 ∷ []

abbrev eight_bytes : ℕ → Bytes
eight_bytes n = four_bytes n ++ four_bytes 0

-- A header of 64 bytes and one program header of 56; the segment is the whole file of 120.
abbrev small_elf : Bytes
small_elf =
    (0x7F ∷ lit "ELF")
    ++ (2 ∷ 1 ∷ 1 ∷ 0 ∷ [])
    ++ eight_bytes 0
    ++ two_bytes 2
    ++ two_bytes 62
    ++ four_bytes 1
    ++ eight_bytes 119
    ++ eight_bytes 64
    ++ eight_bytes 0
    ++ four_bytes 0
    ++ two_bytes 64
    ++ two_bytes 56
    ++ two_bytes 1
    ++ (two_bytes 0 ++ two_bytes 0 ++ two_bytes 0)
    ++ four_bytes 1
    ++ four_bytes 5
    ++ eight_bytes 0
    ++ eight_bytes 0
    ++ eight_bytes 0
    ++ eight_bytes 120
    ++ eight_bytes 120
    ++ eight_bytes 0

abbrev x86_64 : Platform
x86_64 = record { is_64_bit = true; is_little_endian = true; machine = some 62 }

abbrev executable_of : Bytes → ExecutableFile
executable_of bytes = record { is_file = true; has_execute_bit = true; bytes = bytes }

small_accepted : is_native_linux_executable x86_64 (executable_of small_elf) ≡ true
unfolding is_native_linux_executable false_if with_number check_header check_programs check_segments
    elf_number number_of parse_segment is_well_formed is_aligned
    contains_file_backed_executable_entry
small_accepted = refl

truncated_refused : is_native_linux_executable x86_64 (executable_of (take 119 small_elf)) ≡ false
unfolding is_native_linux_executable false_if with_number check_header check_programs check_segments
    elf_number number_of parse_segment is_well_formed is_aligned
    contains_file_backed_executable_entry
truncated_refused = refl

is_native_linux_executable-HasEntry_example :
    ((executable_of small_elf).is_file ≡ true)
    × ((executable_of small_elf).has_execute_bit ≡ true)
    × (ident : Bytes) × (header : Bytes) × (entry_point : ℕ) × (slice small_elf 0 16 ≡ some ident)
    × (take 4 ident ≡ 0x7F ∷ lit "ELF")
    × (slice small_elf 0 64 ≡ some header)
    × (elf_number 8 header 24 little ≡ some entry_point)
    × HasEntry true little small_elf header entry_point
is_native_linux_executable-HasEntry_example =
    is_native_linux_executable-HasEntry x86_64 (executable_of small_elf) small_accepted
