-- ===== src/FileNodeTypes/Manifests.antt =====
-- The node types of onestore/file_node_types.py that describe object spaces, their manifests and revisions.
use aspose_note_foss_for_pyt.Prelude.{
  ℕ, not, some, List, ◌==◌, length, replicate, take, ◌-◌, ◌++◌, ltb, if◌then◌else◌,
}
use aspose_note_foss_for_pyt.Parser.{M, pure, violation_if, ◌>>=◌, ◌>>◌}
use aspose_note_foss_for_pyt.Read.{read_u32}
use aspose_note_foss_for_pyt.ChunkRefs.Node.{FileNodeChunkReference}
use aspose_note_foss_for_pyt.CommonTypes.ExtendedGuid
use aspose_note_foss_for_pyt.CommonTypes.ExtendedGuid.{ExtendedGuid}
use aspose_note_foss_for_pyt.FileNodeCore.{FileNode}
use aspose_note_foss_for_pyt.FileNodeTypes.Checks.{
  require_base_type, base_type_is, forbid_reference, the_reference, require_length, on_fnd,
  consumed, reject_zero,
}

pub record ObjectSpaceManifestRootFnd : Type 0 where
  pub gosid_root : ExtendedGuid

pub record ObjectSpaceManifestListReferenceFnd : Type 0 where
  pub ref : FileNodeChunkReference
  pub gosid : ExtendedGuid

pub record FileDataStoreListReferenceFnd : Type 0 where
  pub ref : FileNodeChunkReference

pub record FileDataStoreObjectReferenceFnd : Type 0 where
  pub ref : FileNodeChunkReference
  pub guid_reference : List ℕ

pub record ObjectSpaceManifestListStartFnd : Type 0 where
  pub gosid : ExtendedGuid

pub record RevisionManifestListReferenceFnd : Type 0 where
  pub ref : FileNodeChunkReference

pub record RevisionManifestListStartFnd : Type 0 where
  pub gosid : ExtendedGuid
  pub n_instance : ℕ

unfoldable pub parse_object_space_manifest_root_fnd : FileNode → M ObjectSpaceManifestRootFnd
parse_object_space_manifest_root_fnd node = do
  base_type_is node 0 "ObjectSpaceManifestRootFND MUST have BaseType==0"
  forbid_reference node "ObjectSpaceManifestRootFND MUST not contain a FileNodeChunkReference"
  require_length node 20 "ObjectSpaceManifestRootFND payload MUST be 20 bytes"
  eg ← on_fnd node ExtendedGuid.parse
  pure (record { gosid_root = eg })

unfoldable pub parse_object_space_manifest_list_reference_fnd :
    FileNode → M ObjectSpaceManifestListReferenceFnd
parse_object_space_manifest_list_reference_fnd node = do
  base_type_is node 2 "ObjectSpaceManifestListReferenceFND MUST have BaseType==2"
  ref ←
      the_reference node "ObjectSpaceManifestListReferenceFND MUST contain a FileNodeChunkReference"
  require_length node 20
      "ObjectSpaceManifestListReferenceFND payload MUST end with 20-byte ExtendedGUID"
  gosid ← on_fnd node ExtendedGuid.parse
  reject_zero node gosid "ObjectSpaceManifestListReferenceFND.gosid MUST NOT be zero"
  pure (record { ref = ref; gosid = gosid })

unfoldable pub parse_file_data_store_list_reference_fnd : FileNode → M FileDataStoreListReferenceFnd
parse_file_data_store_list_reference_fnd node = do
  require_base_type node 2 "FileDataStoreListReferenceFND MUST have BaseType==2"
  ref ← the_reference node "FileDataStoreListReferenceFND MUST contain a FileNodeChunkReference"
  violation_if (not (length node.fnd == 0))
      "FileDataStoreListReferenceFND MUST contain no data beyond FileNodeChunkReference"
      (some node.header.offset)
  pure (record { ref = ref })

-- `ljust(16, b"\x00")` or `[:16]`
unfoldable pub sixteen_bytes : List ℕ → List ℕ
sixteen_bytes b = if ltb (length b) 16 then b ++ replicate (16 - length b) 0 else take 16 b

unfoldable pub parse_file_data_store_object_reference_fnd :
    FileNode → M FileDataStoreObjectReferenceFnd
parse_file_data_store_object_reference_fnd node = do
  require_base_type node 2 "FileDataStoreObjectReferenceFND MUST have BaseType==2"
  ref ← the_reference node "FileDataStoreObjectReferenceFND MUST contain a FileNodeChunkReference"
  violation_if (not (length node.fnd == 16))
      "FileDataStoreObjectReferenceFND payload MUST be 16-byte guidReference"
      (some node.header.offset)
  pure (record { ref = ref; guid_reference = sixteen_bytes node.fnd })

unfoldable pub parse_object_space_manifest_list_start_fnd :
    FileNode → M ObjectSpaceManifestListStartFnd
parse_object_space_manifest_list_start_fnd node = do
  base_type_is node 0 "ObjectSpaceManifestListStartFND MUST have BaseType==0"
  forbid_reference node "ObjectSpaceManifestListStartFND MUST not contain a FileNodeChunkReference"
  require_length node 20 "ObjectSpaceManifestListStartFND payload MUST be 20 bytes"
  gosid ← on_fnd node ExtendedGuid.parse
  pure (record { gosid = gosid })

unfoldable pub parse_revision_manifest_list_reference_fnd :
    FileNode → M RevisionManifestListReferenceFnd
parse_revision_manifest_list_reference_fnd node = do
  base_type_is node 2 "RevisionManifestListReferenceFND MUST have BaseType==2"
  ref ← the_reference node "RevisionManifestListReferenceFND MUST contain a FileNodeChunkReference"
  require_length node 0
      "RevisionManifestListReferenceFND MUST contain no data beyond FileNodeChunkReference"
  pure (record { ref = ref })

unfoldable pub read_list_start : FileNode → M RevisionManifestListStartFnd
read_list_start node = do
  gosid ← ExtendedGuid.parse
  n_instance ← read_u32
  consumed node "RevisionManifestListStartFND parse did not consume full payload"
  pure (record { gosid = gosid; n_instance = n_instance })

unfoldable pub parse_revision_manifest_list_start_fnd : FileNode → M RevisionManifestListStartFnd
parse_revision_manifest_list_start_fnd node = do
  base_type_is node 0 "RevisionManifestListStartFND MUST have BaseType==0"
  forbid_reference node "RevisionManifestListStartFND MUST not contain a FileNodeChunkReference"
  require_length node 24 "RevisionManifestListStartFND payload MUST be 24 bytes"
  on_fnd node (read_list_start node)
