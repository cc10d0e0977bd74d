-- ===== src/FileNodeTypes/Revisions.antt =====
-- The node types of onestore/file_node_types.py that start, end and name revisions.
use aspose_note_foss_for_pyt.Prelude.{ℕ, Bool, not, ◌||◌, some, ◌==◌}
use aspose_note_foss_for_pyt.Parser.{M, pure, violation_if, ◌>>=◌, ◌>>◌}
use aspose_note_foss_for_pyt.Read.{read_u16, read_u32, read_u64}
use aspose_note_foss_for_pyt.ChunkRefs.Node.{FileNodeChunkReference}
use aspose_note_foss_for_pyt.CommonTypes.ExtendedGuid
use aspose_note_foss_for_pyt.CommonTypes.ExtendedGuid.{ExtendedGuid}
use aspose_note_foss_for_pyt.FileNodeCore.{FileNode}
use aspose_note_foss_for_pyt.FileNodeTypes.Checks.{
  require_base_type, forbid_reference, the_reference, require_length, on_fnd, consumed, reject_zero,
}

pub record RevisionManifestStart4Fnd : Type 0 where
  pub rid : ExtendedGuid
  pub rid_dependent : ExtendedGuid
  pub revision_role : ℕ
  pub odcs_default : ℕ

pub record RevisionManifestStart6Fnd : Type 0 where
  pub rid : ExtendedGuid
  pub rid_dependent : ExtendedGuid
  pub revision_role : ℕ
  pub odcs_default : ℕ

pub record RevisionManifestStart7Fnd : Type 0 where
  pub base : RevisionManifestStart6Fnd
  pub gctxid : ExtendedGuid

pub data RevisionManifestEndFnd : Type 0 where
  revision_manifest_end : RevisionManifestEndFnd

pub record RevisionRoleDeclarationFnd : Type 0 where
  pub rid : ExtendedGuid
  pub revision_role : ℕ

pub record RevisionRoleAndContextDeclarationFnd : Type 0 where
  pub rid : ExtendedGuid
  pub revision_role : ℕ
  pub gctxid : ExtendedGuid

pub record ObjectDataEncryptionKeyV2Fndx : Type 0 where
  pub ref : FileNodeChunkReference

unfoldable pub read_start4 : FileNode → M RevisionManifestStart4Fnd
read_start4 node = do
  rid ← ExtendedGuid.parse
  rid_dependent ← ExtendedGuid.parse
  _ ← read_u64
  revision_role ← read_u32
  odcs_default ← read_u16
  consumed node "RevisionManifestStart4FND parse did not consume full payload"
  pure (record {
    rid = rid;
    rid_dependent = rid_dependent;
    revision_role = revision_role;
    odcs_default = odcs_default;
  })

unfoldable pub parse_revision_manifest_start4_fnd : FileNode → M RevisionManifestStart4Fnd
parse_revision_manifest_start4_fnd node = do
  require_base_type node 0 "RevisionManifestStart4FND MUST have BaseType==0"
  forbid_reference node "RevisionManifestStart4FND MUST not contain a FileNodeChunkReference"
  require_length node 54 "RevisionManifestStart4FND payload MUST be 54 bytes"
  x ← on_fnd node (read_start4 node)
  reject_zero node x.rid "RevisionManifestStart4FND.rid MUST NOT be zero"
  violation_if (not (x.odcs_default == 0))
      "RevisionManifestStart4FND.odcsDefault MUST be 0 (and MUST be ignored)"
      (some node.header.offset)
  pure x

unfoldable pub is_odcs_default : ℕ → Bool
is_odcs_default n = n == 0 || n == 2

unfoldable pub read_start6 : FileNode → M RevisionManifestStart6Fnd
read_start6 node = do
  rid ← ExtendedGuid.parse
  rid_dependent ← ExtendedGuid.parse
  revision_role ← read_u32
  odcs_default ← read_u16
  consumed node "RevisionManifestStart6FND parse did not consume full payload"
  pure (record {
    rid = rid;
    rid_dependent = rid_dependent;
    revision_role = revision_role;
    odcs_default = odcs_default;
  })

unfoldable pub parse_revision_manifest_start6_fnd : FileNode → M RevisionManifestStart6Fnd
parse_revision_manifest_start6_fnd node = do
  require_base_type node 0 "RevisionManifestStart6FND MUST have BaseType==0"
  forbid_reference node "RevisionManifestStart6FND MUST not contain a FileNodeChunkReference"
  require_length node 46 "RevisionManifestStart6FND payload MUST be 46 bytes"
  x ← on_fnd node (read_start6 node)
  reject_zero node x.rid "RevisionManifestStart6FND.rid MUST NOT be zero"
  violation_if (not (is_odcs_default x.odcs_default))
      "RevisionManifestStart6FND.odcsDefault MUST be 0x0000 or 0x0002" (some node.header.offset)
  pure x

unfoldable pub read_start7 : FileNode → M RevisionManifestStart7Fnd
read_start7 node = do
  rid ← ExtendedGuid.parse
  rid_dependent ← ExtendedGuid.parse
  revision_role ← read_u32
  odcs_default ← read_u16
  gctxid ← ExtendedGuid.parse
  consumed node "RevisionManifestStart7FND parse did not consume full payload"
  pure (record {
    base = record {
      rid = rid;
      rid_dependent = rid_dependent;
      revision_role = revision_role;
      odcs_default = odcs_default;
    };
    gctxid = gctxid;
  })

unfoldable pub parse_revision_manifest_start7_fnd : FileNode → M RevisionManifestStart7Fnd
parse_revision_manifest_start7_fnd node = do
  require_base_type node 0 "RevisionManifestStart7FND MUST have BaseType==0"
  forbid_reference node "RevisionManifestStart7FND MUST not contain a FileNodeChunkReference"
  require_length node 66 "RevisionManifestStart7FND payload MUST be 66 bytes"
  x ← on_fnd node (read_start7 node)
  reject_zero node x.base.rid "RevisionManifestStart7FND.base.rid MUST NOT be zero"
  violation_if (not (is_odcs_default x.base.odcs_default))
      "RevisionManifestStart7FND.base.odcsDefault MUST be 0x0000 or 0x0002"
      (some node.header.offset)
  pure x

unfoldable pub parse_revision_manifest_end_fnd : FileNode → M RevisionManifestEndFnd
parse_revision_manifest_end_fnd node = do
  require_base_type node 0 "RevisionManifestEndFND MUST have BaseType==0"
  forbid_reference node "RevisionManifestEndFND MUST not contain a FileNodeChunkReference"
  require_length node 0 "RevisionManifestEndFND MUST contain no data"
  pure revision_manifest_end

unfoldable pub read_role : FileNode → M RevisionRoleDeclarationFnd
read_role node = do
  rid ← ExtendedGuid.parse
  revision_role ← read_u32
  consumed node "RevisionRoleDeclarationFND parse did not consume full payload"
  pure (record { rid = rid; revision_role = revision_role })

unfoldable pub parse_revision_role_declaration_fnd : FileNode → M RevisionRoleDeclarationFnd
parse_revision_role_declaration_fnd node = do
  require_base_type node 0 "RevisionRoleDeclarationFND MUST have BaseType==0"
  forbid_reference node "RevisionRoleDeclarationFND MUST not contain a FileNodeChunkReference"
  require_length node 24 "RevisionRoleDeclarationFND payload MUST be 24 bytes"
  x ← on_fnd node (read_role node)
  violation_if (ExtendedGuid.is_zero x.rid) "RevisionRoleDeclarationFND.rid MUST NOT be zero"
      (some node.header.offset)
  pure x

unfoldable pub read_role_and_context : FileNode → M RevisionRoleAndContextDeclarationFnd
read_role_and_context node = do
  rid ← ExtendedGuid.parse
  revision_role ← read_u32
  gctxid ← ExtendedGuid.parse
  consumed node "RevisionRoleAndContextDeclarationFND parse did not consume full payload"
  pure (record { rid = rid; revision_role = revision_role; gctxid = gctxid })

unfoldable pub parse_revision_role_and_context_declaration_fnd :
    FileNode → M RevisionRoleAndContextDeclarationFnd
parse_revision_role_and_context_declaration_fnd node = do
  require_base_type node 0 "RevisionRoleAndContextDeclarationFND MUST have BaseType==0"
  forbid_reference node
      "RevisionRoleAndContextDeclarationFND MUST not contain a FileNodeChunkReference"
  require_length node 44 "RevisionRoleAndContextDeclarationFND payload MUST be 44 bytes"
  x ← on_fnd node (read_role_and_context node)
  violation_if (ExtendedGuid.is_zero x.rid)
      "RevisionRoleAndContextDeclarationFND.rid MUST NOT be zero" (some node.header.offset)
  pure x

unfoldable pub parse_object_data_encryption_key_v2_fndx : FileNode → M ObjectDataEncryptionKeyV2Fndx
parse_object_data_encryption_key_v2_fndx node = do
  require_base_type node 2 "ObjectDataEncryptionKeyV2FNDX MUST have BaseType==2"
  ref ← the_reference node "ObjectDataEncryptionKeyV2FNDX MUST contain a FileNodeChunkReference"
  require_length node 0
      "ObjectDataEncryptionKeyV2FNDX MUST contain no data beyond FileNodeChunkReference"
  pure (record { ref = ref })
