-- ===== src/Restore/Elf/ProgramHeader.antt =====
-- What a program header says of its segment.
use tmux_rescue.Common.{
  Bool, Option, false, if◌then◌else◌, list_eq, none, num_eq, refl, some, some-injective, subst,
  true, ℕ, ◌≡◌,
}
use tmux_rescue.Std.Text.{Bytes}
use tmux_rescue.Restore.ElfSegment.{
  ElfByteOrder, ElfLoadSegment, elf_number, parse_segment, then_number,
}

-- The fields of a program header, by the offsets that ELF gives them for the class.
pub record IsSegment (wide : Bool) (order : ElfByteOrder) (encoded : Bytes)
    (segment : ElfLoadSegment) : Type 0 where
  pub at_flags : elf_number 4 encoded (if wide then 4 else 24) order ≡ some segment.flags
  pub at_file_offset :
      elf_number (if wide then 8 else 4) encoded (if wide then 8 else 4) order
      ≡ some segment.file_offset
  pub at_virtual_address :
      elf_number (if wide then 8 else 4) encoded (if wide then 16 else 8) order
      ≡ some segment.virtual_address
  pub at_file_size :
      elf_number (if wide then 8 else 4) encoded (if wide then 32 else 16) order
      ≡ some segment.file_size
  pub at_memory_size :
      elf_number (if wide then 8 else 4) encoded (if wide then 40 else 20) order
      ≡ some segment.memory_size
  pub at_alignment :
      elf_number (if wide then 8 else 4) encoded (if wide then 48 else 28) order
      ≡ some segment.alignment

then_number-eq-some :
    {A : Type 0} (o : Option ℕ) (rest : ℕ → Option A) {a : A}
    → then_number o rest ≡ some a
    → (n : ℕ) × (o ≡ some n) × (rest n ≡ some a)
then_number-eq-some none rest h = cc
then_number-eq-some (some n) rest h = (n, refl, h)

pub parse_segment-IsSegment :
    (wide : Bool) (order : ElfByteOrder) (encoded : Bytes) (segment : ElfLoadSegment)
    → parse_segment encoded (if wide then 2 else 1) order ≡ some segment
    → IsSegment wide order encoded segment
unfolding parse_segment
parse_segment-IsSegment true order encoded segment h =
    let (flags, f, h₁) = then_number-eq-some _ _ h in
    let (file_offset, o, h₂) = then_number-eq-some _ _ h₁ in
    let (virtual_address, v, h₃) = then_number-eq-some _ _ h₂ in
    let (file_size, s, h₄) = then_number-eq-some _ _ h₃ in
    let (memory_size, m, h₅) = then_number-eq-some _ _ h₄ in
    let (alignment, a, h₆) = then_number-eq-some _ _ h₅ in
    subst (IsSegment true order encoded) (some-injective h₆) (record {
      at_flags = f;
      at_file_offset = o;
      at_virtual_address = v;
      at_file_size = s;
      at_memory_size = m;
      at_alignment = a;
    })
parse_segment-IsSegment false order encoded segment h =
    let (file_offset, o, h₁) = then_number-eq-some _ _ h in
    let (virtual_address, v, h₂) = then_number-eq-some _ _ h₁ in
    let (file_size, s, h₃) = then_number-eq-some _ _ h₂ in
    let (memory_size, m, h₄) = then_number-eq-some _ _ h₃ in
    let (flags, f, h₅) = then_number-eq-some _ _ h₄ in
    let (alignment, a, h₆) = then_number-eq-some _ _ h₅ in
    subst (IsSegment false order encoded) (some-injective h₆) (record {
      at_flags = f;
      at_file_offset = o;
      at_virtual_address = v;
      at_file_size = s;
      at_memory_size = m;
      at_alignment = a;
    })
