-- ===== src/Restore/ElfSegment.antt =====
-- `ElfLoadSegment` and the numbers of an ELF file. Offsets into a header are constants, and an
-- offset into the file is below the file's length, so that only the additions that the code checks
-- can pass 64 bits.
use tmux_rescue.Common.{
  Bool, Option, [], drop, false, if◌then◌else◌, leb, length, list_eq, ltb, none, not, num_eq, some,
  suc, take, zero, ℕ, ◌%◌, ◌&&◌, ◌*◌, ◌+◌, ◌==◌, ◌^◌, ◌||◌, ◌∷◌,
}
use tmux_rescue.Std.Text.{Bytes}

abbrev pub checked_add : ℕ → ℕ → Option ℕ
checked_add a b = if ltb (a + b) (2 ^ 64) then some (a + b) else none

-- `bytes.get(offset..offset + count)`, and `read_exact_at` on a whole file.
abbrev pub slice : Bytes → ℕ → ℕ → Option Bytes
slice bytes offset count =
    if leb (offset + count) (length bytes) then some (take count (drop offset bytes)) else none

pub data ElfByteOrder : Type 0 where
  little big : ElfByteOrder

-- `from_le_bytes` and `from_be_bytes`
unfoldable pub number_of : ElfByteOrder → ℕ → Bytes → ℕ
number_of order high [] = high
number_of big high (b ∷ bs) = number_of big (high * 256 + b) bs
number_of little high (b ∷ bs) = b + 256 * number_of little high bs

-- `elf_u16`, `elf_u32` and `elf_u64`, for 2, 4 and 8 bytes.
unfoldable pub elf_number : ℕ → Bytes → ℕ → ElfByteOrder → Option ℕ
elf_number count bytes offset order = elim (slice bytes offset count) [
  | none ↦ none
  | some encoded ↦ some (number_of order 0 encoded)
]

pub record ElfLoadSegment : Type 0 where
  pub file_offset : ℕ
  pub virtual_address : ℕ
  pub file_size : ℕ
  pub memory_size : ℕ
  pub flags : ℕ
  pub alignment : ℕ

abbrev pub then_number : {A : Type 0} → Option ℕ → (ℕ → Option A) → Option A
then_number none rest = none
then_number (some n) rest = rest n

-- `ElfLoadSegment::parse`, of class 1 or 2.
unfoldable pub parse_segment : Bytes → ℕ → ElfByteOrder → Option ElfLoadSegment
parse_segment header class order =
    if class == 1
    then then_number (elf_number 4 header 4 order) (λ file_offset.
      then_number (elf_number 4 header 8 order) (λ virtual_address.
        then_number (elf_number 4 header 16 order) (λ file_size.
          then_number (elf_number 4 header 20 order) (λ memory_size.
            then_number (elf_number 4 header 24 order) (λ flags.
              then_number (elf_number 4 header 28 order) (λ alignment. some (record {
                file_offset = file_offset;
                virtual_address = virtual_address;
                file_size = file_size;
                memory_size = memory_size;
                flags = flags;
                alignment = alignment;
              })))))))
    else if class == 2
    then then_number (elf_number 4 header 4 order) (λ flags.
      then_number (elf_number 8 header 8 order) (λ file_offset.
        then_number (elf_number 8 header 16 order) (λ virtual_address.
          then_number (elf_number 8 header 32 order) (λ file_size.
            then_number (elf_number 8 header 40 order) (λ memory_size.
              then_number (elf_number 8 header 48 order) (λ alignment. some (record {
                file_offset = file_offset;
                virtual_address = virtual_address;
                file_size = file_size;
                memory_size = memory_size;
                flags = flags;
                alignment = alignment;
              })))))))
    else none

-- `u64::is_power_of_two`, among the powers below `2 ^ bits`.
unfoldable pub is_power_of_two : ℕ → ℕ → Bool
is_power_of_two zero n = false
is_power_of_two (suc bits) n = n == 2 ^ bits || is_power_of_two bits n

-- `%` on `u64`, on an alignment above 1.
unfoldable pub is_aligned : ElfLoadSegment → Bool
is_aligned segment =
    leb segment.alignment 1
    || (is_power_of_two 64 segment.alignment
        && segment.file_offset % segment.alignment == segment.virtual_address % segment.alignment)

unfoldable pub is_well_formed : ElfLoadSegment → ℕ → Bool
is_well_formed segment file_length =
    if ltb segment.memory_size segment.file_size
    then false
    else (elim (checked_add segment.file_offset segment.file_size) [
      | none ↦ false
      | some file_end ↦ elim (checked_add segment.virtual_address segment.memory_size) [
        | none ↦ false
        | some _ ↦
            if ltb file_length segment.file_offset || ltb file_length file_end
            then false
            else is_aligned segment
      ]
    ])

unfoldable pub contains_file_backed_executable_entry : ElfLoadSegment → ℕ → Bool
contains_file_backed_executable_entry segment entry_point =
    elim (checked_add segment.virtual_address segment.file_size) [
      | none ↦ false
      | some file_backed_end ↦
          not (segment.flags % 2 == 0)
          && leb segment.virtual_address entry_point
          && ltb entry_point file_backed_end
    ]
