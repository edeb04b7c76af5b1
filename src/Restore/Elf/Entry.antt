-- ===== src/Restore/Elf/Entry.antt =====
-- A file that is accepted holds the byte that its entry point names, in an executable segment.
use tmux_rescue.Common.{
  Bool, Bool-cases, Option, and-eq-true_iff, ap, arith, false, get_elem?, if◌then◌else◌, inl, inr,
  length, list_eq, none, not, not-eq-false, num_eq, or-eq-false, refl, some, subst, suc, take, true,
  zero, ℕ, ◌%◌, ◌*◌, ◌+◌, ◌<◌, ◌==◌, ◌^◌, ◌∷◌, ◌≡◌, ◌≢◌, ◌≤◌, ◌⊎◌,
}
use tmux_rescue.Std.Text.{Bytes, lit}
use tmux_rescue.Restore.Elf.{
  ExecutableFile, Platform, byte_order_of, check_header, check_programs, check_segments, false_if,
  is_native_linux_executable, is_number, layout_of, with_number,
}
use tmux_rescue.Restore.Elf.ProgramHeader.{IsSegment, parse_segment-IsSegment}
use tmux_rescue.Restore.ElfSegment.{
  ElfByteOrder, ElfLoadSegment, big, contains_file_backed_executable_entry, elf_number,
  is_well_formed, little, parse_segment, slice,
}

-- The segment holds the entry point, executable, at a place inside the file, and ends in it.
pub record IsEntrySegment (bytes : Bytes) (entry_point : ℕ) (segment : ElfLoadSegment)
    : Type 0 where
  pub from_start : segment.virtual_address ≤ entry_point
  pub before_end : entry_point < segment.virtual_address + segment.file_size
  pub in_file : segment.file_offset + segment.file_size ≤ length bytes
  pub in_memory : segment.virtual_address + segment.memory_size < 2 ^ 64
  pub executable : segment.flags % 2 ≢ 0

entry_segment :
    (bytes : Bytes) (entry_point : ℕ) (segment : ElfLoadSegment)
    → is_well_formed segment (length bytes) ≡ true
    → contains_file_backed_executable_entry segment entry_point ≡ true
    → IsEntrySegment bytes entry_point segment
unfolding is_well_formed contains_file_backed_executable_entry
entry_segment bytes entry_point segment formed entered = record {
  from_start = ground arith;
  before_end = ground arith;
  in_file = ground arith;
  in_memory = ground arith;
  executable = λ h. ground arith;
}

-- One of the file's program headers, at its place in the table that the file's header names, is a
-- load segment that holds the entry point.
pub record HasEntry (wide : Bool) (order : ElfByteOrder) (bytes header : Bytes) (entry_point : ℕ)
    : Type 0 where
  pub program_offset : ℕ
  pub count : ℕ
  pub index : ℕ
  pub encoded : Bytes
  pub segment : ElfLoadSegment
  pub table_place :
      elf_number (if wide then 8 else 4) header (if wide then 32 else 28) order
      ≡ some program_offset
  pub table_length : elf_number 2 header (if wide then 56 else 44) order ≡ some count
  pub in_table : index < count
  pub in_bytes :
      slice bytes (program_offset + index * (if wide then 56 else 32)) (if wide then 56 else 32)
      ≡ some encoded
  pub is_load : elf_number 4 encoded 0 order ≡ some 1
  pub is_segment : IsSegment wide order encoded segment
  pub has_entry : IsEntrySegment bytes entry_point segment

with_number-eq-true :
    (o : Option ℕ) (rest : ℕ → Bool)
    → with_number o rest ≡ true
    → (n : ℕ) × (o ≡ some n) × (rest n ≡ true)
unfolding with_number
with_number-eq-true none rest h = cc
with_number-eq-true (some n) rest h = (n, refl, h)

-- A guard that returns `false` was passed.
false_if-eq-true : (test rest : Bool) → false_if test rest ≡ true → (test ≡ false) × (rest ≡ true)
unfolding false_if
false_if-eq-true true rest h = cc
false_if-eq-true false rest h = (refl, h)

option-eq-true :
    {A : Type 0} (o : Option A) (rest : A → Bool)
    → (elim o [ none ↦ false | some a ↦ rest a ]) ≡ true
    → (a : A) × (o ≡ some a) × (rest a ≡ true)
option-eq-true none rest h = cc
option-eq-true (some a) rest h = (a, refl, h)

is_number-eq-true :
    (expected : ℕ) (o : Option ℕ) → not (is_number expected o) ≡ false → o ≡ some expected
is_number-eq-true expected none h = cc
is_number-eq-true expected (some n) h =
    ap some ((num_eq.decides n expected).0 (not-eq-false (n == expected) h))

module _ (bytes : Bytes) (class : ℕ) (order : ElfByteOrder) (program_offset entry_size : ℕ)
    (entry_point : ℕ) where
  -- A program header below the position is a load segment with the entry point.
  abbrev FoundBelow : ℕ → Type 0
  FoundBelow limit =
      (index : ℕ) × (encoded : Bytes) × (segment : ElfLoadSegment) × (index < limit)
      × (slice bytes (program_offset + index * entry_size) entry_size ≡ some encoded)
      × (elf_number 4 encoded 0 order ≡ some 1)
      × (parse_segment encoded class order ≡ some segment)
      × IsEntrySegment bytes entry_point segment

  check_segments-FoundBelow :
      (remaining index : ℕ) (saw executable : Bool)
      → check_segments bytes class order program_offset entry_size entry_point remaining index saw
          executable
        ≡ true
      → (executable ≡ true) ⊎ FoundBelow (index + remaining)
  unfolding check_segments
  check_segments-FoundBelow zero index saw executable h =
      inl ((and-eq-true_iff saw executable).0 h).1
  check_segments-FoundBelow (suc remaining) index saw executable h =
      let on : index + 1 + remaining ≡ index + suc remaining = omega arith in
      let (encoded, place, h₁) =
        option-eq-true (slice bytes (program_offset + index * entry_size) entry_size) _ h in
      elim (Bool-cases (not (is_number 1 (elf_number 4 encoded 0 order)))) [
        | inl other ↦
            subst (λ n. (executable ≡ true) ⊎ FoundBelow n) on
              (check_segments-FoundBelow remaining (index + 1) saw executable (rw other at h₁))
        | inr load ↦
            let (segment, parsed, h₂) =
              option-eq-true (parse_segment encoded class order) _ (rw load at h₁) in
            let (formed, h₃) = formed_and_next segment _ h₂ in
            elim (check_segments-FoundBelow remaining (index + 1) true _ h₃) [
              | inr found ↦ inr (subst FoundBelow on found)
              | inl some_entry ↦ elim (Bool-cases executable) [
                | inl before ↦ inl before
                | inr none_before ↦ inr (
                  index,
                  encoded,
                  segment,
                  omega arith,
                  place,
                  is_number-eq-true 1 (elf_number 4 encoded 0 order) load,
                  parsed,
                  entry_segment bytes entry_point segment formed (rw none_before at some_entry),
                )
              ]
            ]
      ]
    where
      formed_and_next :
          (segment : ElfLoadSegment) (next : Bool)
          → (if is_well_formed segment (length bytes) then next else false) ≡ true
          → (is_well_formed segment (length bytes) ≡ true) × (next ≡ true)
      formed_and_next segment next g = ground arith

check_programs-FoundBelow :
    (bytes : Bytes) (order : ElfByteOrder) (wide : Bool)
    (program_offset entry_point entry_size count : ℕ)
    → check_programs bytes order wide program_offset entry_point entry_size count ≡ true
    → (entry_size ≡ (layout_of wide).expected_program_entry_size)
      × FoundBelow bytes (if wide then 2 else 1) order program_offset entry_size entry_point count
unfolding check_programs
check_programs-FoundBelow bytes order wide program_offset entry_point entry_size count h =
    let (table, h₁) = false_if-eq-true _ _ h in
    let (program_end, _, h₂) = with_number-eq-true _ _ h₁ in
    let (_, h₃) = false_if-eq-true _ _ h₂ in
    let (filled, few) = or-eq-false _ _ table in
    let (sized, some_left) = or-eq-false _ _ filled in
    let (behind, size) = or-eq-false _ _ sized in
    (
      (num_eq.decides entry_size (layout_of wide).expected_program_entry_size).0
          (not-eq-false _ size),
      elim (check_segments-FoundBelow bytes (if wide then 2 else 1) order program_offset entry_size
          entry_point count 0 false false h₃) [
            | inl never ↦ absurd (cc)
            | inr has ↦
                subst
                  (FoundBelow bytes (if wide then 2 else 1) order program_offset entry_size
                    entry_point)
                  (omega arith) has
          ],
    )

FoundBelow-HasEntry :
    (wide : Bool) (order : ElfByteOrder) (bytes header : Bytes)
    (program_offset entry_point entry_size count : ℕ)
    → elf_number (layout_of wide).address_size header (layout_of wide).program_offset_field order
      ≡ some program_offset
    → elf_number 2 header (layout_of wide).program_count_field order ≡ some count
    → entry_size ≡ (layout_of wide).expected_program_entry_size
    → FoundBelow bytes (if wide then 2 else 1) order program_offset entry_size entry_point count
    → HasEntry wide order bytes header entry_point
FoundBelow-HasEntry true order bytes header program_offset entry_point entry_size count place amount
      size (index, encoded, segment, below, held, load, parsed, entry) =
    record {
      program_offset = program_offset;
      count = count;
      index = index;
      encoded = encoded;
      segment = segment;
      table_place = place;
      table_length = amount;
      in_table = below;
      in_bytes = rw size at held;
      is_load = load;
      is_segment = parse_segment-IsSegment true order encoded segment parsed;
      has_entry = entry;
    }
FoundBelow-HasEntry false order bytes header program_offset entry_point entry_size count place
      amount size (index, encoded, segment, below, held, load, parsed, entry) =
    record {
      program_offset = program_offset;
      count = count;
      index = index;
      encoded = encoded;
      segment = segment;
      table_place = place;
      table_length = amount;
      in_table = below;
      in_bytes = rw size at held;
      is_load = load;
      is_segment = parse_segment-IsSegment false order encoded segment parsed;
      has_entry = entry;
    }

check_header-HasEntry :
    (platform : Platform) (bytes : Bytes) (order : ElfByteOrder) (header : Bytes)
    → check_header platform bytes order header ≡ true
    → (entry_point : ℕ) × (elf_number (if platform.is_64_bit then 8 else 4) header 24 order
        ≡ some entry_point)
      × HasEntry platform.is_64_bit order bytes header entry_point
unfolding check_header
check_header-HasEntry platform bytes order header h =
    let wide = platform.is_64_bit in
    let (_, h₁) = false_if-eq-true _ _ h in
    let (program_offset, place, h₂) = with_number-eq-true _ _ h₁ in
    let (entry_point, found, h₃) = with_number-eq-true _ _ h₂ in
    let (entry_size, _, h₄) = with_number-eq-true _ _ h₃ in
    let (count, amount, h₅) = with_number-eq-true _ _ h₄ in
    let (size, below) =
      check_programs-FoundBelow bytes order wide program_offset entry_point entry_size count h₅ in
    (
      entry_point,
      address_sized wide header order entry_point found,
      FoundBelow-HasEntry wide order bytes header program_offset entry_point entry_size count place
          amount size below,
    )
  where
    address_sized :
        (wide : Bool) (header : Bytes) (order : ElfByteOrder) (entry_point : ℕ)
        → elf_number (layout_of wide).address_size header 24 order ≡ some entry_point
        → elf_number (if wide then 8 else 4) header 24 order ≡ some entry_point
    address_sized true header order entry_point found = found
    address_sized false header order entry_point found = found

header_sized :
    (wide : Bool) (bytes header : Bytes)
    → slice bytes 0 (layout_of wide).header_size ≡ some header
    → slice bytes 0 (if wide then 64 else 52) ≡ some header
header_sized true bytes header read = read
header_sized false bytes header read = read

native_order :
    (platform : Platform) (encoding : ℕ) (order : ElfByteOrder)
    → byte_order_of platform encoding ≡ some order
    → order ≡ (if platform.is_little_endian then little else big)
native_order platform encoding order h = ground arith

-- A file that is accepted as an executable is a regular file with an execute bit and the mark of
-- ELF, and has a header, in the byte order of the build, whose entry point lies in a load segment of
-- its table of program headers; that segment is executable, its bytes end in the file, and its
-- addresses below 2 ^ 64.
pub is_native_linux_executable-HasEntry :
    (platform : Platform) (file : ExecutableFile)
    → is_native_linux_executable platform file ≡ true
    → (file.is_file ≡ true)
      × (file.has_execute_bit ≡ true)
      × (ident : Bytes) × (header : Bytes) × (entry_point : ℕ) × (slice file.bytes 0 16
          ≡ some ident)
      × (take 4 ident ≡ 0x7F ∷ lit "ELF")
      × (slice file.bytes 0 (if platform.is_64_bit then 64 else 52) ≡ some header)
      × (elf_number
            (if platform.is_64_bit then 8 else 4)
            header
            24
            (if platform.is_little_endian then little else big)
          ≡ some entry_point)
      × HasEntry platform.is_64_bit
          (if platform.is_little_endian then little else big)
          file.bytes
          header
          entry_point
unfolding is_native_linux_executable false_if
is_native_linux_executable-HasEntry platform file h =
    let wide = platform.is_64_bit in
    let (kept, h₁) = false_if-eq-true _ _ h in
    let (regular, may_run) = or-eq-false _ _ kept in
    let (ident, marked, h₂) = option-eq-true (slice file.bytes 0 16) _ h₁ in
    let (known, h₃) = false_if-eq-true _ _ h₂ in
    let (mark_and_class, _) = or-eq-false _ _ known in
    let (mark, _) = or-eq-false _ _ mark_and_class in
    let (encoding, _, h₄) = with_number-eq-true (get_elem? ident 5) _ h₃ in
    let (order, named, h₅) = option-eq-true (byte_order_of platform encoding) _ h₄ in
    let (header, read, h₆) =
      option-eq-true (slice file.bytes 0 (layout_of wide).header_size) _ h₅ in
    let (entry_point, found, has) = check_header-HasEntry platform file.bytes order header h₆ in
    let native = native_order platform encoding order named in
    (
      not-eq-false file.is_file regular,
      not-eq-false file.has_execute_bit may_run,
      ident,
      header,
      entry_point,
      marked,
      (list_eq.decides (take 4 ident) (0x7F ∷ lit "ELF")).0 (not-eq-false _ mark),
      header_sized wide file.bytes header read,
      subst (λ o. elf_number (if wide then 8 else 4) header 24 o ≡ some entry_point) native found,
      subst (λ o. HasEntry wide o file.bytes header entry_point) native has,
    )
