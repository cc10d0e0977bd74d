-- ===== src/FileNodeTypes/GlobalIdTable.antt =====
-- The node types of onestore/file_node_types.py that make up a global id table, and root objects.
use aspose_note_foss_for_pyt.Prelude.{
  ℕ, not, ◌||◌, some, List, [], ◌∷◌, leb, ◌==◌, replicate, bytes_eq,
}
use aspose_note_foss_for_pyt.Context.{format_error, value_error}
use aspose_note_foss_for_pyt.Parser.{M, pure, raise, raise_if, violation_if, ◌>>=◌, ◌>>◌}
use aspose_note_foss_for_pyt.Read.{read_u32, read_bytes}
use aspose_note_foss_for_pyt.CommonTypes.CompactId
use aspose_note_foss_for_pyt.CommonTypes.CompactId.{CompactId}
use aspose_note_foss_for_pyt.FileNodeCore.{FileNode}
use aspose_note_foss_for_pyt.FileNodeTypes.Checks.{
  require_base_type, forbid_reference, require_length, on_fnd, consumed,
}

pub record GlobalIdTableStartFndx : Type 0 where
  pub reserved : ℕ

pub data GlobalIdTableStart2Fnd : Type 0 where
  global_id_table_start2 : GlobalIdTableStart2Fnd

pub record GlobalIdTableEntryFndx : Type 0 where
  pub index : ℕ
  pub guid : List ℕ

pub record GlobalIdTableEntry2Fndx : Type 0 where
  pub index_map_from : ℕ
  pub index_map_to : ℕ

pub record GlobalIdTableEntry3Fndx : Type 0 where
  pub index_copy_from_start : ℕ
  pub entries_to_copy : ℕ
  pub index_copy_to_start : ℕ

pub data GlobalIdTableEndFndx : Type 0 where
  global_id_table_end : GlobalIdTableEndFndx

pub record RootObjectReference2Fndx : Type 0 where
  pub oid_root : CompactId
  pub root_role : ℕ

-- `int(b[0])`, which raises on no bytes
unfoldable pub first_byte : List ℕ → M ℕ
first_byte [] = raise (value_error "index out of range")
first_byte (b ∷ _) = pure b

unfoldable pub parse_global_id_table_start_fndx : FileNode → M GlobalIdTableStartFndx
parse_global_id_table_start_fndx node = do
  require_base_type node 0 "GlobalIdTableStartFNDX MUST have BaseType==0"
  forbid_reference node "GlobalIdTableStartFNDX MUST not contain a FileNodeChunkReference"
  require_length node 1 "GlobalIdTableStartFNDX payload MUST be 1 byte"
  reserved ← first_byte node.fnd
  violation_if (not (reserved == 0)) "GlobalIdTableStartFNDX.Reserved MUST be 0"
      (some node.header.offset)
  pure (record { reserved = reserved })

unfoldable pub parse_global_id_table_start2_fnd : FileNode → M GlobalIdTableStart2Fnd
parse_global_id_table_start2_fnd node = do
  require_base_type node 0 "GlobalIdTableStart2FND MUST have BaseType==0"
  forbid_reference node "GlobalIdTableStart2FND MUST not contain a FileNodeChunkReference"
  require_length node 0 "GlobalIdTableStart2FND MUST contain no data"
  pure global_id_table_start2

abbrev pub max_index : ℕ
max_index = 0xFFFFFF

unfoldable pub read_entry : FileNode → M GlobalIdTableEntryFndx
read_entry node = do
  index ← read_u32
  guid ← read_bytes 16
  consumed node "GlobalIdTableEntryFNDX parse did not consume full payload"
  pure (record { index = index; guid = guid })

unfoldable pub parse_global_id_table_entry_fndx : FileNode → M GlobalIdTableEntryFndx
parse_global_id_table_entry_fndx node = do
  require_base_type node 0 "GlobalIdTableEntryFNDX MUST have BaseType==0"
  forbid_reference node "GlobalIdTableEntryFNDX MUST not contain a FileNodeChunkReference"
  require_length node 20 "GlobalIdTableEntryFNDX payload MUST be 20 bytes"
  x ← on_fnd node (read_entry node)
  raise_if (leb max_index x.index)
      (format_error "GlobalIdTableEntryFNDX.index MUST be < 0xFFFFFF" (some node.header.offset))
  raise_if (bytes_eq x.guid (replicate 16 0))
      (format_error "GlobalIdTableEntryFNDX.guid MUST NOT be all-zero" (some node.header.offset))
  pure x

unfoldable pub read_entry2 : FileNode → M GlobalIdTableEntry2Fndx
read_entry2 node = do
  index_map_from ← read_u32
  index_map_to ← read_u32
  consumed node "GlobalIdTableEntry2FNDX parse did not consume full payload"
  pure (record { index_map_from = index_map_from; index_map_to = index_map_to })

unfoldable pub parse_global_id_table_entry2_fndx : FileNode → M GlobalIdTableEntry2Fndx
parse_global_id_table_entry2_fndx node = do
  require_base_type node 0 "GlobalIdTableEntry2FNDX MUST have BaseType==0"
  forbid_reference node "GlobalIdTableEntry2FNDX MUST not contain a FileNodeChunkReference"
  require_length node 8 "GlobalIdTableEntry2FNDX payload MUST be 8 bytes"
  x ← on_fnd node (read_entry2 node)
  violation_if (leb max_index x.index_map_from || leb max_index x.index_map_to)
      "GlobalIdTableEntry2FNDX indices MUST be < 0xFFFFFF" (some node.header.offset)
  pure x

unfoldable pub read_entry3 : FileNode → M GlobalIdTableEntry3Fndx
read_entry3 node = do
  index_copy_from_start ← read_u32
  entries_to_copy ← read_u32
  index_copy_to_start ← read_u32
  consumed node "GlobalIdTableEntry3FNDX parse did not consume full payload"
  pure (record {
    index_copy_from_start = index_copy_from_start;
    entries_to_copy = entries_to_copy;
    index_copy_to_start = index_copy_to_start;
  })

unfoldable pub parse_global_id_table_entry3_fndx : FileNode → M GlobalIdTableEntry3Fndx
parse_global_id_table_entry3_fndx node = do
  require_base_type node 0 "GlobalIdTableEntry3FNDX MUST have BaseType==0"
  forbid_reference node "GlobalIdTableEntry3FNDX MUST not contain a FileNodeChunkReference"
  require_length node 12 "GlobalIdTableEntry3FNDX payload MUST be 12 bytes"
  x ← on_fnd node (read_entry3 node)
  violation_if (leb max_index x.index_copy_from_start || leb max_index x.index_copy_to_start)
      "GlobalIdTableEntry3FNDX indices MUST be < 0xFFFFFF" (some node.header.offset)
  pure x

unfoldable pub parse_global_id_table_end_fndx : FileNode → M GlobalIdTableEndFndx
parse_global_id_table_end_fndx node = do
  require_base_type node 0 "GlobalIdTableEndFNDX MUST have BaseType==0"
  forbid_reference node "GlobalIdTableEndFNDX MUST not contain a FileNodeChunkReference"
  require_length node 0 "GlobalIdTableEndFNDX MUST contain no data"
  pure global_id_table_end

unfoldable pub read_root2 : FileNode → M RootObjectReference2Fndx
read_root2 node = do
  oid_root ← CompactId.parse
  root_role ← read_u32
  consumed node "RootObjectReference2FNDX parse did not consume full payload"
  pure (record { oid_root = oid_root; root_role = root_role })

unfoldable pub parse_root_object_reference2_fndx : FileNode → M RootObjectReference2Fndx
parse_root_object_reference2_fndx node = do
  require_base_type node 0 "RootObjectReference2FNDX MUST have BaseType==0"
  forbid_reference node "RootObjectReference2FNDX MUST not contain a FileNodeChunkReference"
  require_length node 8 "RootObjectReference2FNDX payload MUST be 8 bytes"
  x ← on_fnd node (read_root2 node)
  pure x
