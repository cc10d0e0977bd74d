-- ===== src/Io.antt =====
-- onestore/io.py, what does not move the cursor: the reader's fields, little-endian values and the
-- bit helpers. Bytes are numbers below 256.
pub mod Bits
pub mod Endian
use aspose_note_foss_for_pyt.Prelude.{
  ℕ, zero, suc, ◌+◌, ◌-◌, ◌*◌, ◌/◌, ◌%◌, ◌^◌, ◌<◌, Option, none, some, List, [], ◌∷◌, ◌==◌,
  if◌then◌else◌,
}

pub record Bounds : Type 0 where
  pub start : ℕ
  pub end : ℕ

-- Bounds.size
unfoldable pub size : Bounds → ℕ
size b = b.end - b.start

pub record BinaryReader : Type 0 where
  pub buffer : List ℕ
  pub bounds : Bounds
  pub pos : ℕ

abbrev pub IsByte : ℕ → Type 0
IsByte b = b < 256

-- the value that `struct.unpack_from` reads under "<B", "<H", "<I" and "<Q"
unfoldable pub little_endian : List ℕ → ℕ
little_endian [] = 0
little_endian (b ∷ bs) = b + 256 * little_endian bs

-- value >> k, and value & ((1 << w) - 1)
abbrev pub shr : ℕ → ℕ → ℕ
shr value k = value / 2 ^ k

abbrev pub low_bits : ℕ → ℕ → ℕ
low_bits value w = value % 2 ^ w

-- BinaryReader.unpack_bits, from the shift that its loop has reached; `none` is the `ValueError` on
-- a width that is not positive
unfoldable pub unpack_bits_from : ℕ → ℕ → List ℕ → Option (List ℕ)
unpack_bits_from value shift [] = some []
unpack_bits_from value shift (w ∷ ws) =
    let rest = unpack_bits_from value (shift + w) ws in
    if w == 0
    then none
    else elim rest [ none ↦ none | some out ↦ some (low_bits (shr value shift) w ∷ out) ]

unfoldable pub unpack_bits : ℕ → List ℕ → Option (List ℕ)
unfolding unpack_bits_from
unpack_bits value widths = unpack_bits_from value 0 widths
