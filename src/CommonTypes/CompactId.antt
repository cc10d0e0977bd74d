-- ===== src/CommonTypes/CompactId.antt =====
-- CompactID of onestore/common_types.py.
use aspose_note_foss_for_pyt.Prelude.{ℕ, ◌+◌, ◌*◌, ◌^◌, ◌<◌, ◌≡◌, List, arith}
use aspose_note_foss_for_pyt.Io.{little_endian, low_bits, shr}
use aspose_note_foss_for_pyt.Parser.{M, pure, ◌>>=◌}
use aspose_note_foss_for_pyt.Read.{read_u32}
use aspose_note_foss_for_pyt.Read.Fields.{Reads, Reads-map, Reads-read_u32}

pub record CompactId : Type 0 where
  pub n : ℕ
  pub guid_index : ℕ

unfoldable pub from_u32 : ℕ → CompactId
from_u32 value = record { n = low_bits value 8; guid_index = low_bits (shr value 8) 24 }

unfoldable pub parse : M CompactId
unfolding from_u32 read_u32
parse = do value ← read_u32; pure (from_u32 value)

-- the word that the two fields make up
unfoldable pub to_u32 : CompactId → ℕ
to_u32 c = c.n + 256 * c.guid_index

unfoldable pub of_bytes : List ℕ → CompactId
of_bytes w = from_u32 (little_endian w)

pub Reads-parse : Reads 4 of_bytes parse
unfolding parse of_bytes
Reads-parse = Reads-map from_u32 Reads-read_u32

-- Every 32-bit word is the word of its two fields.
pub to_u32-from_u32 : (value : ℕ) → value < 2 ^ 32 → to_u32 (from_u32 value) ≡ value
unfolding from_u32 to_u32
to_u32-from_u32 value h = omega arith

-- Fields of 8 and 24 bits are those of their word.
pub from_u32-to_u32 :
    (c : CompactId) → c.n < 2 ^ 8 → c.guid_index < 2 ^ 24 → from_u32 (to_u32 c) ≡ c
unfolding from_u32 to_u32
from_u32-to_u32 c h k = ground arith
