-- ===== src/Header.antt =====
-- onestore/header.py: the file's header. Its fields are read by `Header.Fields` and checked here.
-- A comparison of two UUIDs is that of their 16 bytes. The properties of the file type that only
-- convert a field to a UUID are left out.
mod Fields
pub mod Layout
pub mod Accepts
pub mod Parse
pub use Fields.{Header}
unfoldable pub use Fields.{read_fields}
use aspose_note_foss_for_pyt.Prelude.{
  ℕ, String, Bool, true, not, ◌&&◌, ◌||◌, List, [], ◌∷◌, some, ◌==◌, bytes_eq, replicate, length,
}
use aspose_note_foss_for_pyt.Context.{format_error, value_error}
use aspose_note_foss_for_pyt.ChunkRefs.Fcr32
use aspose_note_foss_for_pyt.ChunkRefs.Fcr64x32
use aspose_note_foss_for_pyt.CommonTypes.ExtendedGuid.{zero_guid}
use aspose_note_foss_for_pyt.Parser.{M, pure, raise_if, warn_if, with_reader, ◌>>=◌, ◌>>◌}
use aspose_note_foss_for_pyt.Read.{seek, view, remaining, tell, file_start}

-- GUID_FILE_FORMAT, as the 16 bytes of a file
abbrev pub guid_file_format : List ℕ
guid_file_format =
    0x3f ∷ 0xdd ∷ 0x9a ∷ 0x10 ∷ 0x1b ∷ 0x91 ∷ 0xf5 ∷ 0x49 ∷ 0xa5 ∷ 0xd0 ∷ 0x17 ∷ 0x91 ∷ 0xed ∷ 0xc8
    ∷ 0xae ∷ 0xd8 ∷ []

unfoldable pub rgb_zero : List ℕ
rgb_zero = replicate 728 0

must : Bool → String → ℕ → M (Unit {0})
must holds message offset = raise_if (not holds) (format_error message (some offset))

-- the MUST validations
check_values : Header → M (Unit {0})
unfolding must
check_values h = do
  raise_if (not (length h.guid_file_format == 16)) (value_error "GUID bytes must be 16 bytes")
  must (bytes_eq h.guid_file_format guid_file_format) "Invalid guidFileFormat" 48
  must (not (h.c_transactions_in_log == 0)) "cTransactionsInLog MUST NOT be 0" 96
  must (h.grf_debug_log_flags == 0) "grfDebugLogFlags MUST be 0" 252
  must (Fcr64x32.is_zero h.fcr_debug_log) "fcrDebugLog MUST be fcrZero" 256
  must (Fcr64x32.is_zero h.fcr_alloc_verification_free_chunk_list)
      "fcrAllocVerificationFreeChunkList MUST be fcrZero" 268
  must (not (Fcr64x32.is_zero h.fcr_transaction_log || Fcr64x32.is_nil h.fcr_transaction_log))
      "fcrTransactionLog MUST NOT be fcrZero/fcrNil" 160
  must
      (not
        (Fcr64x32.is_zero h.fcr_file_node_list_root || Fcr64x32.is_nil h.fcr_file_node_list_root))
      "fcrFileNodeListRoot MUST NOT be fcrZero/fcrNil" 172

-- the chunk references lie in the file
check_references : Header → ℕ → M (Unit {0})
check_references h file_size = do
  Fcr64x32.validate_in_file h.fcr_transaction_log file_size
  Fcr64x32.validate_in_file h.fcr_file_node_list_root file_size
  Fcr64x32.validate_in_file h.fcr_hashed_chunk_list file_size
  Fcr64x32.validate_in_file h.fcr_free_chunk_list file_size
  Fcr32.validate_in_file h.fcr_legacy_free_chunk_list file_size
  Fcr32.validate_in_file h.fcr_legacy_transaction_log file_size
  Fcr32.validate_in_file h.fcr_legacy_file_node_list_root file_size

-- the fixed values of the legacy fields
check_legacy : Header → M (Unit {0})
unfolding must
check_legacy h = do
  must (bytes_eq h.guid_legacy_file_version zero_guid) "guidLegacyFileVersion MUST be zero GUID" 32
  must (Fcr32.is_zero h.fcr_legacy_free_chunk_list) "fcrLegacyFreeChunkList MUST be fcrZero" 80
  must (Fcr32.is_nil h.fcr_legacy_transaction_log) "fcrLegacyTransactionLog MUST be fcrNil" 88
  must (h.cb_legacy_expected_file_length == 0) "cbLegacyExpectedFileLength MUST be 0" 100
  must (h.rgb_placeholder == 0) "rgbPlaceholder MUST be 0" 104
  must (Fcr32.is_nil h.fcr_legacy_file_node_list_root) "fcrLegacyFileNodeListRoot MUST be fcrNil"
      112
  must (h.cb_legacy_free_space_in_free_chunk_list == 0) "cbLegacyFreeSpaceInFreeChunkList MUST be 0"
      120
  must (h.f_has_no_embedded_file_objects == 0) "fHasNoEmbeddedFileObjects MUST be 0" 127
  must (bytes_eq h.rgb_reserved rgb_zero) "rgbReserved MUST be all zero" 296

-- a wrong length is no hard error
warn_length : Header → ℕ → M (Unit {0})
warn_length h file_size =
    warn_if (not (h.cb_expected_file_length == 0 || h.cb_expected_file_length == file_size))
      "cbExpectedFileLength does not match actual file size" (some 196)

unfoldable pub check : Header → ℕ → M (Unit {0})
unfolding check_values check_references check_legacy warn_length
check h file_size = do
  check_values h
  check_references h file_size
  check_legacy h
  warn_length h file_size

-- the reads, on the view of the first 1024 bytes
unfoldable pub read_header : M Header
read_header = do
  h ← read_fields
  left ← remaining
  at ← tell
  raise_if (not (left == 0)) (format_error "Header parse did not consume 1024 bytes" (some at))
  pure h

unfoldable pub parse : M Header
parse = do
  file_size ← file_start "Header must be parsed from file start"
  seek 0
  hdr ← view 0 1024
  h ← with_reader hdr read_header
  check h file_size
  pure h
