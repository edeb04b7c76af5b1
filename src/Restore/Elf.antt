-- ===== src/Restore/Elf.antt =====
-- `is_native_linux_executable`: the checks of an ELF file, on its metadata and its bytes.
pub mod ProgramHeader
pub mod Entry
mod Tests
use tmux_rescue.Common.{
  Bool, Option, false, get_elem?, if◌then◌else◌, length, list_eq, ltb, none, not, num_eq, some, suc,
  take, true, zero, ℕ, ◌&&◌, ◌*◌, ◌+◌, ◌==◌, ◌||◌, ◌∷◌,
}
use tmux_rescue.Std.Text.{Bytes, lit}
use tmux_rescue.Restore.ElfSegment.{
  ElfByteOrder, big, checked_add, contains_file_backed_executable_entry, elf_number, is_well_formed,
  little, parse_segment, slice,
}

-- `== Some(expected)`
abbrev pub is_number : ℕ → Option ℕ → Bool
is_number expected none = false
is_number expected (some n) = n == expected

-- `if test { return false }`
unfoldable pub false_if : Bool → Bool → Bool
false_if test rest = if test then false else rest

-- `let Some(n) = … else { return false }`
unfoldable pub with_number : Option ℕ → (ℕ → Bool) → Bool
with_number none rest = false
with_number (some n) rest = rest n

-- The loop over the program headers, from position `index` on.
module _ (bytes : Bytes) (class : ℕ) (order : ElfByteOrder) (program_offset entry_size : ℕ)
    (entry_point : ℕ) where
  pub check_segments : (remaining index : ℕ) → (saw_load_segment entry_is_executable : Bool) → Bool
  check_segments zero index saw executable = saw && executable
  check_segments (suc remaining) index saw executable =
      let skipped = check_segments remaining (index + 1) saw executable in
      elim (slice bytes (program_offset + index * entry_size) entry_size) [
        | none ↦ false
        | some encoded ↦
            if not (is_number 1 (elf_number 4 encoded 0 order))
            then skipped
            else (elim (parse_segment encoded class order) [
              | none ↦ false
              | some segment ↦
                  let next =
                    check_segments remaining (index + 1) true
                      (executable || contains_file_backed_executable_entry segment entry_point) in
                  if is_well_formed segment (length bytes) then next else false
            ])
      ]

-- What the build fixes: `usize::BITS == 64`, the byte order, and `native_elf_machine()`.
pub record Platform : Type 0 where
  pub is_64_bit : Bool
  pub is_little_endian : Bool
  pub machine : Option ℕ

-- What is read of a file: its metadata and its contents.
pub record ExecutableFile : Type 0 where
  pub is_file : Bool
  pub has_execute_bit : Bool
  pub bytes : Bytes

abbrev pub byte_order_of : Platform → ℕ → Option ElfByteOrder
byte_order_of platform encoding =
    if encoding == 1 && platform.is_little_endian
    then some little
    else if encoding == 2 && not platform.is_little_endian
    then some big
    else none

-- The offsets and sizes that the class fixes.
pub record ElfLayout : Type 0 where
  pub header_size : ℕ
  pub address_size : ℕ
  pub program_offset_field : ℕ
  pub header_size_field : ℕ
  pub program_entry_size_field : ℕ
  pub program_count_field : ℕ
  pub expected_program_entry_size : ℕ

abbrev pub layout_of : Bool → ElfLayout
layout_of false = record {
  header_size = 52;
  address_size = 4;
  program_offset_field = 28;
  header_size_field = 40;
  program_entry_size_field = 42;
  program_count_field = 44;
  expected_program_entry_size = 32;
}
layout_of true = record {
  header_size = 64;
  address_size = 8;
  program_offset_field = 32;
  header_size_field = 52;
  program_entry_size_field = 54;
  program_count_field = 56;
  expected_program_entry_size = 56;
}

abbrev pub is_machine : Option ℕ → Option ℕ → Bool
is_machine none none = true
is_machine (some a) (some b) = a == b
is_machine _ _ = false

-- From the program headers' place on: they follow the header and end in the file. The product of
-- two 16-bit numbers, which the code checks too, does not pass 64 bits.
pub check_programs :
    Bytes → ElfByteOrder → Bool → (program_offset entry_point entry_size count : ℕ) → Bool
check_programs bytes order wide program_offset entry_point entry_size count =
    false_if
      (ltb program_offset (layout_of wide).header_size
        || not (entry_size == (layout_of wide).expected_program_entry_size)
        || count == 0
        || ltb 4096 count)
      (with_number (checked_add program_offset (entry_size * count)) (λ program_end.
        false_if (ltb (length bytes) program_end) (
          check_segments bytes (if wide then 2 else 1) order program_offset entry_size entry_point
            count 0 false false)))

pub check_header : Platform → Bytes → ElfByteOrder → Bytes → Bool
check_header platform bytes order header =
    let wide = platform.is_64_bit in
    let layout = layout_of wide in
    false_if
      (not
          (is_number 2 (elf_number 2 header 16 order) || is_number 3 (elf_number 2 header 16 order))
        || not (is_machine (elf_number 2 header 18 order) platform.machine)
        || not (is_number 1 (elf_number 4 header 20 order))
        || not (is_number layout.header_size (elf_number 2 header layout.header_size_field order)))
      (with_number (elf_number layout.address_size header layout.program_offset_field order)
        (λ program_offset.
          with_number (elf_number layout.address_size header 24 order) (λ entry_point.
            with_number (elf_number 2 header layout.program_entry_size_field order) (λ entry_size.
              with_number (elf_number 2 header layout.program_count_field order) (λ count.
                check_programs bytes order wide program_offset entry_point entry_size count)))))

-- The first 16 bytes name the format, the class, the byte order and the version.
pub is_native_linux_executable : Platform → ExecutableFile → Bool
is_native_linux_executable platform file =
    let wide = platform.is_64_bit in
    if not file.is_file || not file.has_execute_bit then false else (elim (slice file.bytes 0 16) [
      | none ↦ false
      | some ident ↦
          false_if
            (not (take 4 ident == 0x7F ∷ lit "ELF")
              || not (is_number (if wide then 2 else 1) (get_elem? ident 4))
              || not (is_number 1 (get_elem? ident 6)))
            (with_number (get_elem? ident 5) (λ encoding. elim (byte_order_of platform encoding) [
              | none ↦ false
              | some order ↦ elim (slice file.bytes 0 (layout_of wide).header_size) [
                | none ↦ false
                | some header ↦ check_header platform file.bytes order header
              ]
            ]))
    ])
