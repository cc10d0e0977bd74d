-- ===== src/Header/Fields.antt =====
-- The fields of the header of onestore/header.py, and the part of `Header.parse` that reads them.
use aspose_note_foss_for_pyt.Prelude.{ℕ, List}
use aspose_note_foss_for_pyt.ChunkRefs.Fcr32
use aspose_note_foss_for_pyt.ChunkRefs.Fcr64x32
use aspose_note_foss_for_pyt.ChunkRefs.Fcr32.{FileChunkReference32}
use aspose_note_foss_for_pyt.ChunkRefs.Fcr64x32.{FileChunkReference64x32}
use aspose_note_foss_for_pyt.Parser.{M, pure, ◌>>=◌}
use aspose_note_foss_for_pyt.Read.{read_bytes, read_u8, read_u32, read_u64}

pub record Header : Type 0 where
  pub guid_file_type : List ℕ
  pub guid_file : List ℕ
  pub guid_legacy_file_version : List ℕ
  pub guid_file_format : List ℕ
  pub ffv_last_code_that_wrote_to_this_file : ℕ
  pub ffv_oldest_code_that_has_written_to_this_file : ℕ
  pub ffv_newest_code_that_has_written_to_this_file : ℕ
  pub ffv_oldest_code_that_may_read_this_file : ℕ
  pub fcr_legacy_free_chunk_list : FileChunkReference32
  pub fcr_legacy_transaction_log : FileChunkReference32
  pub c_transactions_in_log : ℕ
  pub cb_legacy_expected_file_length : ℕ
  pub rgb_placeholder : ℕ
  pub fcr_legacy_file_node_list_root : FileChunkReference32
  pub cb_legacy_free_space_in_free_chunk_list : ℕ
  pub f_needs_defrag : ℕ
  pub f_repaired_file : ℕ
  pub f_needs_garbage_collect : ℕ
  pub f_has_no_embedded_file_objects : ℕ
  pub guid_ancestor : List ℕ
  pub crc_name : ℕ
  pub fcr_hashed_chunk_list : FileChunkReference64x32
  pub fcr_transaction_log : FileChunkReference64x32
  pub fcr_file_node_list_root : FileChunkReference64x32
  pub fcr_free_chunk_list : FileChunkReference64x32
  pub cb_expected_file_length : ℕ
  pub cb_free_space_in_free_chunk_list : ℕ
  pub guid_file_version : List ℕ
  pub n_file_version_generation : ℕ
  pub guid_deny_read_file_version : List ℕ
  pub grf_debug_log_flags : ℕ
  pub fcr_debug_log : FileChunkReference64x32
  pub fcr_alloc_verification_free_chunk_list : FileChunkReference64x32
  pub bn_created : ℕ
  pub bn_last_wrote_to_this_file : ℕ
  pub bn_oldest_written : ℕ
  pub bn_newest_written : ℕ
  pub rgb_reserved : List ℕ

unfoldable pub read_fields : M Header
unfolding read_bytes read_u8 read_u32 read_u64
read_fields = do
  guid_file_type ← read_bytes 16
  guid_file ← read_bytes 16
  guid_legacy_file_version ← read_bytes 16
  guid_file_format ← read_bytes 16
  ffv_last_code_that_wrote_to_this_file ← read_u32
  ffv_oldest_code_that_has_written_to_this_file ← read_u32
  ffv_newest_code_that_has_written_to_this_file ← read_u32
  ffv_oldest_code_that_may_read_this_file ← read_u32
  fcr_legacy_free_chunk_list ← Fcr32.parse
  fcr_legacy_transaction_log ← Fcr32.parse
  c_transactions_in_log ← read_u32
  cb_legacy_expected_file_length ← read_u32
  rgb_placeholder ← read_u64
  fcr_legacy_file_node_list_root ← Fcr32.parse
  cb_legacy_free_space_in_free_chunk_list ← read_u32
  f_needs_defrag ← read_u8
  f_repaired_file ← read_u8
  f_needs_garbage_collect ← read_u8
  f_has_no_embedded_file_objects ← read_u8
  guid_ancestor ← read_bytes 16
  crc_name ← read_u32
  fcr_hashed_chunk_list ← Fcr64x32.parse
  fcr_transaction_log ← Fcr64x32.parse
  fcr_file_node_list_root ← Fcr64x32.parse
  fcr_free_chunk_list ← Fcr64x32.parse
  cb_expected_file_length ← read_u64
  cb_free_space_in_free_chunk_list ← read_u64
  guid_file_version ← read_bytes 16
  n_file_version_generation ← read_u64
  guid_deny_read_file_version ← read_bytes 16
  grf_debug_log_flags ← read_u32
  fcr_debug_log ← Fcr64x32.parse
  fcr_alloc_verification_free_chunk_list ← Fcr64x32.parse
  bn_created ← read_u32
  bn_last_wrote_to_this_file ← read_u32
  bn_oldest_written ← read_u32
  bn_newest_written ← read_u32
  rgb_reserved ← read_bytes 728
  pure (record {
    guid_file_type = guid_file_type;
    guid_file = guid_file;
    guid_legacy_file_version = guid_legacy_file_version;
    guid_file_format = guid_file_format;
    ffv_last_code_that_wrote_to_this_file = ffv_last_code_that_wrote_to_this_file;
    ffv_oldest_code_that_has_written_to_this_file = ffv_oldest_code_that_has_written_to_this_file;
    ffv_newest_code_that_has_written_to_this_file = ffv_newest_code_that_has_written_to_this_file;
    ffv_oldest_code_that_may_read_this_file = ffv_oldest_code_that_may_read_this_file;
    fcr_legacy_free_chunk_list = fcr_legacy_free_chunk_list;
    fcr_legacy_transaction_log = fcr_legacy_transaction_log;
    c_transactions_in_log = c_transactions_in_log;
    cb_legacy_expected_file_length = cb_legacy_expected_file_length;
    rgb_placeholder = rgb_placeholder;
    fcr_legacy_file_node_list_root = fcr_legacy_file_node_list_root;
    cb_legacy_free_space_in_free_chunk_list = cb_legacy_free_space_in_free_chunk_list;
    f_needs_defrag = f_needs_defrag;
    f_repaired_file = f_repaired_file;
    f_needs_garbage_collect = f_needs_garbage_collect;
    f_has_no_embedded_file_objects = f_has_no_embedded_file_objects;
    guid_ancestor = guid_ancestor;
    crc_name = crc_name;
    fcr_hashed_chunk_list = fcr_hashed_chunk_list;
    fcr_transaction_log = fcr_transaction_log;
    fcr_file_node_list_root = fcr_file_node_list_root;
    fcr_free_chunk_list = fcr_free_chunk_list;
    cb_expected_file_length = cb_expected_file_length;
    cb_free_space_in_free_chunk_list = cb_free_space_in_free_chunk_list;
    guid_file_version = guid_file_version;
    n_file_version_generation = n_file_version_generation;
    guid_deny_read_file_version = guid_deny_read_file_version;
    grf_debug_log_flags = grf_debug_log_flags;
    fcr_debug_log = fcr_debug_log;
    fcr_alloc_verification_free_chunk_list = fcr_alloc_verification_free_chunk_list;
    bn_created = bn_created;
    bn_last_wrote_to_this_file = bn_last_wrote_to_this_file;
    bn_oldest_written = bn_oldest_written;
    bn_newest_written = bn_newest_written;
    rgb_reserved = rgb_reserved;
  })
