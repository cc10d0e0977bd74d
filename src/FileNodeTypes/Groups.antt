-- ===== src/FileNodeTypes/Groups.antt =====
-- The node types of onestore/file_node_types.py that describe object groups, overrides and hashed chunks.
use aspose_note_foss_for_pyt.Prelude.{
  ℕ, Bool, not, ◌&&◌, ◌||◌, Option, none, some, List, leb, ◌==◌, length, ◌-◌, ◌^◌, if◌then◌else◌,
}
use aspose_note_foss_for_pyt.Context.{format_error}
use aspose_note_foss_for_pyt.Parser.{M, pure, raise_if, violation_if, ◌>>=◌, ◌>>◌}
use aspose_note_foss_for_pyt.Read.{read_u32}
use aspose_note_foss_for_pyt.ChunkRefs.Node.{FileNodeChunkReference}
use aspose_note_foss_for_pyt.CommonTypes.ExtendedGuid
use aspose_note_foss_for_pyt.CommonTypes.ExtendedGuid.{ExtendedGuid}
use aspose_note_foss_for_pyt.FileNodeCore.{FileNode}
use aspose_note_foss_for_pyt.FileNodeTypes.Checks.{
  require_base_type, require_reference_type, forbid_reference, the_reference, require_length,
  on_fnd, consumed,
}

pub record RootObjectReference3Fnd : Type 0 where
  pub oid_root : ExtendedGuid
  pub root_role : ℕ

pub record ObjectInfoDependencyOverridesFnd : Type 0 where
  pub ref : Option FileNodeChunkReference
  pub inline_data : List ℕ

pub record DataSignatureGroupDefinitionFnd : Type 0 where
  pub data_signature_group : ExtendedGuid

pub record ObjectGroupListReferenceFnd : Type 0 where
  pub ref : FileNodeChunkReference
  pub object_group_id : ExtendedGuid

pub record ObjectGroupStartFnd : Type 0 where
  pub oid : ExtendedGuid

pub data ObjectGroupEndFnd : Type 0 where
  object_group_end : ObjectGroupEndFnd

pub record HashedChunkDescriptor2Fnd : Type 0 where
  pub blob_ref : FileNodeChunkReference
  pub guid_hash : List ℕ

unfoldable pub read_root3 : FileNode → M RootObjectReference3Fnd
read_root3 node = do
  oid_root ← ExtendedGuid.parse
  root_role ← read_u32
  consumed node "RootObjectReference3FND parse did not consume full payload"
  pure (record { oid_root = oid_root; root_role = root_role })

unfoldable pub parse_root_object_reference3_fnd : FileNode → M RootObjectReference3Fnd
parse_root_object_reference3_fnd node = do
  require_base_type node 0 "RootObjectReference3FND MUST have BaseType==0"
  forbid_reference node "RootObjectReference3FND MUST not contain a FileNodeChunkReference"
  require_length node 24 "RootObjectReference3FND payload MUST be 24 bytes"
  x ← on_fnd node (read_root3 node)
  pure x

-- the number of bits of a stored offset; a format is two bits wide
unfoldable pub stp_bits : ℕ → ℕ
stp_bits stp_format =
    if stp_format == 0
    then 64
    else if stp_format == 1
    then 32
    else if stp_format == 2
    then 16
    else if stp_format == 3
    then 32
    else 64

unfoldable pub is_nil_filenode_ref : FileNodeChunkReference → Bool
unfolding stp_bits
is_nil_filenode_ref ref = ref.raw_stp == 2 ^ stp_bits ref.stp_format - 1 && ref.raw_cb == 0

unfoldable pub check_inline : FileNode → M (Unit {0})
check_inline node = raise_if (leb 1024 (length node.fnd)) (
    format_error "Inline ObjectInfoDependencyOverrideData MUST be smaller than 1024 bytes"
      (some node.header.offset))

unfoldable pub parse_object_info_dependency_overrides_fnd :
    FileNode → M ObjectInfoDependencyOverridesFnd
parse_object_info_dependency_overrides_fnd node = do
  violation_if
      (not (node.header.base_type == 0 || node.header.base_type == 1 || node.header.base_type == 2))
      "ObjectInfoDependencyOverridesFND has unexpected BaseType" (some node.header.offset)
  elim node.chunk_ref [
    | none ↦ check_inline node
    | some ref ↦
        if is_nil_filenode_ref ref
        then check_inline node
        else violation_if (not (length node.fnd == 0))
            "ObjectInfoDependencyOverridesFND MUST NOT contain inline data when ref is not fcrNil"
            (some node.header.offset)
  ]
  pure (record { ref = node.chunk_ref; inline_data = node.fnd })

unfoldable pub parse_data_signature_group_definition_fnd :
    FileNode → M DataSignatureGroupDefinitionFnd
parse_data_signature_group_definition_fnd node = do
  require_base_type node 0 "DataSignatureGroupDefinitionFND MUST have BaseType==0"
  forbid_reference node "DataSignatureGroupDefinitionFND MUST not contain a FileNodeChunkReference"
  require_length node 20 "DataSignatureGroupDefinitionFND payload MUST be 20 bytes"
  eg ← on_fnd node ExtendedGuid.parse
  pure (record { data_signature_group = eg })

unfoldable pub parse_object_group_list_reference_fnd : FileNode → M ObjectGroupListReferenceFnd
parse_object_group_list_reference_fnd node = do
  require_reference_type node "ObjectGroupListReferenceFND MUST have BaseType==1 or BaseType==2"
  ref ← the_reference node "ObjectGroupListReferenceFND MUST contain a FileNodeChunkReference"
  require_length node 20 "ObjectGroupListReferenceFND payload MUST end with 20-byte ExtendedGUID"
  object_group_id ← on_fnd node ExtendedGuid.parse
  pure (record { ref = ref; object_group_id = object_group_id })

unfoldable pub parse_object_group_start_fnd : FileNode → M ObjectGroupStartFnd
parse_object_group_start_fnd node = do
  require_base_type node 0 "ObjectGroupStartFND MUST have BaseType==0"
  forbid_reference node "ObjectGroupStartFND MUST not contain a FileNodeChunkReference"
  require_length node 20 "ObjectGroupStartFND payload MUST be 20 bytes"
  oid ← on_fnd node ExtendedGuid.parse
  pure (record { oid = oid })

unfoldable pub parse_object_group_end_fnd : FileNode → M ObjectGroupEndFnd
parse_object_group_end_fnd node = do
  require_base_type node 0 "ObjectGroupEndFND MUST have BaseType==0"
  forbid_reference node "ObjectGroupEndFND MUST not contain a FileNodeChunkReference"
  require_length node 0 "ObjectGroupEndFND MUST contain no data"
  pure object_group_end

unfoldable pub parse_hashed_chunk_descriptor2_fnd : FileNode → M HashedChunkDescriptor2Fnd
parse_hashed_chunk_descriptor2_fnd node = do
  require_base_type node 1 "HashedChunkDescriptor2FND MUST have BaseType==1"
  ref ← the_reference node "HashedChunkDescriptor2FND MUST contain a FileNodeChunkReference"
  require_length node 16 "HashedChunkDescriptor2FND payload MUST be 16 bytes (MD5)"
  pure (record { blob_ref = ref; guid_hash = node.fnd })
