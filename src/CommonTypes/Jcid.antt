-- ===== src/CommonTypes/Jcid.antt =====
-- JCID of onestore/common_types.py.
use aspose_note_foss_for_pyt.Prelude.{
  ℕ, ◌/◌, ◌%◌, ◌^◌, ◌<◌, ◌≡◌, Bool, not, ◌&&◌, ◌||◌, none, ◌==◌, arith, ◌↔◌, ◌⊎◌,
}
use aspose_note_foss_for_pyt.Context.{format_error}
use aspose_note_foss_for_pyt.Io.{little_endian, low_bits, shr}
use aspose_note_foss_for_pyt.Parser.{State, ok, M, pure, raise_if, ◌>>=◌, ◌>>◌}
use aspose_note_foss_for_pyt.Read.{read_u32}
use aspose_note_foss_for_pyt.Read.Fields.{Reads, Reads-map, Reads-read_u32}

pub record Jcid : Type 0 where
  pub raw : ℕ
  pub index : ℕ
  pub is_binary : Bool
  pub is_property_set : Bool
  pub is_graph_node : Bool
  pub is_file_data : Bool
  pub is_read_only : Bool

-- bool((value >> k) & 1)
unfoldable pub bit : ℕ → ℕ → Bool
bit value k = not (low_bits (shr value k) 1 == 0)

unfoldable pub from_u32 : ℕ → Jcid
unfolding bit
from_u32 word =
    let value = low_bits word 32 in
    record {
      raw = value;
      index = low_bits value 16;
      is_binary = bit value 16;
      is_property_set = bit value 17;
      is_graph_node = bit value 18;
      is_file_data = bit value 19;
      is_read_only = bit value 20;
    }

unfoldable pub parse : M Jcid
unfolding from_u32 read_u32
parse = do value ← read_u32; pure (from_u32 value)

-- (self.raw >> 21) & 0x7FF
unfoldable pub reserved_bits : Jcid → ℕ
reserved_bits j = low_bits (shr j.raw 21) 11

unfoldable pub validate : Jcid → M (Unit {0})
unfolding reserved_bits
validate j = do
  raise_if (not (reserved_bits j == 0)) (format_error "JCID.Reserved MUST be 0" none)
  raise_if
      (j.is_file_data && (j.is_binary || j.is_property_set || j.is_graph_node || j.is_read_only))
      (format_error "JCID: if IsFileData is set, other JCID flags MUST be false" none)

pub Reads-parse : Reads 4 (λ w. from_u32 (little_endian w)) parse
unfolding parse
Reads-parse = Reads-map from_u32 Reads-read_u32

-- A 32-bit word passes validation exactly when it is below 2 ^ 21 and either has the file-data bit
-- clear or is an index with that bit alone, apart from the index.
pub validate-from_u32 :
    (value : ℕ) (s : State)
    → value < 2 ^ 32
    → (validate (from_u32 value) s ≡ ok tt s)
      ↔ ((value < 2 ^ 21) × ((value / 2 ^ 19 % 2 ≡ 0) ⊎ (value / 2 ^ 16 ≡ 8)))
unfolding validate from_u32
validate-from_u32 value s h = (ground arith, ground arith)
