-- ===== src/Header/Layout.antt =====
-- The header's fields against the layout table of the file format.
use aspose_note_foss_for_pyt.Prelude.{ℕ, List, take, drop, drop-drop}
use aspose_note_foss_for_pyt.ChunkRefs.Fcr32
use aspose_note_foss_for_pyt.ChunkRefs.Fcr64x32
use aspose_note_foss_for_pyt.Io.{little_endian}
use aspose_note_foss_for_pyt.Read.Fields.{
  Reads, Reads-pure, Reads-bind, Reads-cong, Reads-read_bytes, Reads-read_u8, Reads-read_u32,
  Reads-read_u64,
}
use aspose_note_foss_for_pyt.Read.Cursor.{IsValid}
use aspose_note_foss_for_pyt.Read.Fields.{Reads-cases, Fits, window, advance, out_of_bounds}
use aspose_note_foss_for_pyt.Prelude.{◌+◌, ◌<◌, ◌≡◌, ◌⊎◌}
use aspose_note_foss_for_pyt.Parser.{State, ok, err}
use aspose_note_foss_for_pyt.Header.Fields.{Header, read_fields}

-- the `n` bytes at an offset
abbrev field : ℕ → ℕ → List ℕ → List ℕ
field offset n w = take n (drop offset w)

-- The layout table of the file format: the offset and size of each field within the 1024 bytes.
unfoldable pub layout : List ℕ → Header
layout w = record {
  guid_file_type = take 16 w;
  guid_file = field 16 16 w;
  guid_legacy_file_version = field 32 16 w;
  guid_file_format = field 48 16 w;
  ffv_last_code_that_wrote_to_this_file = little_endian (field 64 4 w);
  ffv_oldest_code_that_has_written_to_this_file = little_endian (field 68 4 w);
  ffv_newest_code_that_has_written_to_this_file = little_endian (field 72 4 w);
  ffv_oldest_code_that_may_read_this_file = little_endian (field 76 4 w);
  fcr_legacy_free_chunk_list = Fcr32.of_bytes (field 80 8 w);
  fcr_legacy_transaction_log = Fcr32.of_bytes (field 88 8 w);
  c_transactions_in_log = little_endian (field 96 4 w);
  cb_legacy_expected_file_length = little_endian (field 100 4 w);
  rgb_placeholder = little_endian (field 104 8 w);
  fcr_legacy_file_node_list_root = Fcr32.of_bytes (field 112 8 w);
  cb_legacy_free_space_in_free_chunk_list = little_endian (field 120 4 w);
  f_needs_defrag = little_endian (field 124 1 w);
  f_repaired_file = little_endian (field 125 1 w);
  f_needs_garbage_collect = little_endian (field 126 1 w);
  f_has_no_embedded_file_objects = little_endian (field 127 1 w);
  guid_ancestor = field 128 16 w;
  crc_name = little_endian (field 144 4 w);
  fcr_hashed_chunk_list = Fcr64x32.of_bytes (field 148 12 w);
  fcr_transaction_log = Fcr64x32.of_bytes (field 160 12 w);
  fcr_file_node_list_root = Fcr64x32.of_bytes (field 172 12 w);
  fcr_free_chunk_list = Fcr64x32.of_bytes (field 184 12 w);
  cb_expected_file_length = little_endian (field 196 8 w);
  cb_free_space_in_free_chunk_list = little_endian (field 204 8 w);
  guid_file_version = field 212 16 w;
  n_file_version_generation = little_endian (field 228 8 w);
  guid_deny_read_file_version = field 236 16 w;
  grf_debug_log_flags = little_endian (field 252 4 w);
  fcr_debug_log = Fcr64x32.of_bytes (field 256 12 w);
  fcr_alloc_verification_free_chunk_list = Fcr64x32.of_bytes (field 268 12 w);
  bn_created = little_endian (field 280 4 w);
  bn_last_wrote_to_this_file = little_endian (field 284 4 w);
  bn_oldest_written = little_endian (field 288 4 w);
  bn_newest_written = little_endian (field 292 4 w);
  rgb_reserved = field 296 728 w;
}

pub Reads-read_fields : Reads 1024 layout read_fields
unfolding read_fields layout
Reads-read_fields =
    Reads-cong (λ w. simp drop-drop)
      (Reads-bind (Reads-read_bytes 16) λ _. Reads-bind (Reads-read_bytes 16) λ _.
        Reads-bind (Reads-read_bytes 16) λ _. Reads-bind (Reads-read_bytes 16) λ _.
          Reads-bind Reads-read_u32 λ _. Reads-bind Reads-read_u32 λ _.
            Reads-bind Reads-read_u32 λ _. Reads-bind Reads-read_u32 λ _.
              Reads-bind Fcr32.Reads-parse λ _. Reads-bind Fcr32.Reads-parse λ _.
                Reads-bind Reads-read_u32 λ _. Reads-bind Reads-read_u32 λ _.
                  Reads-bind Reads-read_u64 λ _. Reads-bind Fcr32.Reads-parse λ _.
                    Reads-bind Reads-read_u32 λ _. Reads-bind Reads-read_u8 λ _.
                      Reads-bind Reads-read_u8 λ _. Reads-bind Reads-read_u8 λ _.
                        Reads-bind Reads-read_u8 λ _. Reads-bind (Reads-read_bytes 16) λ _.
                          Reads-bind Reads-read_u32 λ _. Reads-bind Fcr64x32.Reads-parse λ _.
                            Reads-bind Fcr64x32.Reads-parse λ _.
                              Reads-bind Fcr64x32.Reads-parse λ _.
                                Reads-bind Fcr64x32.Reads-parse λ _. Reads-bind Reads-read_u64 λ _.
                                  Reads-bind Reads-read_u64 λ _.
                                    Reads-bind (Reads-read_bytes 16) λ _.
                                      Reads-bind Reads-read_u64 λ _.
                                        Reads-bind (Reads-read_bytes 16) λ _.
                                          Reads-bind Reads-read_u32 λ _.
                                            Reads-bind Fcr64x32.Reads-parse λ _.
                                              Reads-bind Fcr64x32.Reads-parse λ _.
                                                Reads-bind Reads-read_u32 λ _.
                                                  Reads-bind Reads-read_u32 λ _.
                                                    Reads-bind Reads-read_u32 λ _.
                                                      Reads-bind Reads-read_u32 λ _.
                                                        Reads-bind (Reads-read_bytes 728)
                                                          λ _. Reads-pure _)

-- On a valid reader the header's fields are those of the layout table, read from the 1024 bytes at
-- the cursor; on fewer bytes there is an error.
pub read_fields_lem :
    (s : State)
    → IsValid s.reader
    → (Fits 1024 s × (read_fields s ≡ ok (layout (window 1024 s)) (advance 1024 s)))
      ⊎ ((s.reader.bounds.end < s.reader.pos + 1024)
          × ((o : ℕ) × (read_fields s ≡ err (out_of_bounds o) s.ctx)))
read_fields_lem = Reads-cases Reads-read_fields
