-- ===== src/FileNodeTypes/Typed.antt =====
-- KnownFileNodeType, FILE_NODE_TYPE_PARSERS and parse_typed_file_node of onestore/file_node_types.py.
-- The message of the warning leaves out the id. Every caller leaves the parameter `parsers` at its default. `raw_bytes` is set by the caller.
use aspose_note_foss_for_pyt.Prelude.{
  ℕ, Bool, false, ◌||◌, Option, none, some, List, [], ◌∷◌, ◌==◌, if◌then◌else◌,
}
use aspose_note_foss_for_pyt.Dict
use aspose_note_foss_for_pyt.Dict.{Dict}
use aspose_note_foss_for_pyt.Parser.{M, pure, warn, ◌>>=◌, ◌>>◌}
use aspose_note_foss_for_pyt.FileNodeCore.{FileNode}
use aspose_note_foss_for_pyt.FileNodeTypes.Manifests.{
  FileDataStoreListReferenceFnd, FileDataStoreObjectReferenceFnd,
  ObjectSpaceManifestListReferenceFnd, ObjectSpaceManifestListStartFnd, ObjectSpaceManifestRootFnd,
  RevisionManifestListReferenceFnd, RevisionManifestListStartFnd,
  parse_object_space_manifest_root_fnd, parse_object_space_manifest_list_reference_fnd,
  parse_object_space_manifest_list_start_fnd, parse_revision_manifest_list_reference_fnd,
  parse_revision_manifest_list_start_fnd, parse_file_data_store_list_reference_fnd,
  parse_file_data_store_object_reference_fnd,
}
use aspose_note_foss_for_pyt.FileNodeTypes.Revisions.{
  ObjectDataEncryptionKeyV2Fndx, RevisionManifestEndFnd, RevisionManifestStart4Fnd,
  RevisionManifestStart6Fnd, RevisionManifestStart7Fnd, RevisionRoleAndContextDeclarationFnd,
  RevisionRoleDeclarationFnd, parse_revision_manifest_start4_fnd, parse_revision_manifest_end_fnd,
  parse_revision_manifest_start6_fnd, parse_revision_manifest_start7_fnd,
  parse_revision_role_declaration_fnd, parse_revision_role_and_context_declaration_fnd,
  parse_object_data_encryption_key_v2_fndx,
}
use aspose_note_foss_for_pyt.FileNodeTypes.GlobalIdTable.{
  GlobalIdTableEndFndx, GlobalIdTableEntry2Fndx, GlobalIdTableEntry3Fndx, GlobalIdTableEntryFndx,
  GlobalIdTableStart2Fnd, GlobalIdTableStartFndx, RootObjectReference2Fndx,
  parse_global_id_table_start_fndx, parse_global_id_table_start2_fnd,
  parse_global_id_table_entry_fndx, parse_global_id_table_entry2_fndx,
  parse_global_id_table_entry3_fndx, parse_global_id_table_end_fndx,
  parse_root_object_reference2_fndx,
}
use aspose_note_foss_for_pyt.FileNodeTypes.Groups.{
  DataSignatureGroupDefinitionFnd, HashedChunkDescriptor2Fnd, ObjectGroupEndFnd,
  ObjectGroupListReferenceFnd, ObjectGroupStartFnd, ObjectInfoDependencyOverridesFnd,
  RootObjectReference3Fnd, parse_root_object_reference3_fnd,
  parse_object_info_dependency_overrides_fnd, parse_data_signature_group_definition_fnd,
  parse_object_group_list_reference_fnd, parse_object_group_start_fnd, parse_object_group_end_fnd,
  parse_hashed_chunk_descriptor2_fnd,
}
use aspose_note_foss_for_pyt.FileNodeTypes.Declarations.{
  ObjectDeclaration2LargeRefCountFnd, ObjectDeclaration2RefCountFnd,
  ObjectRevisionWithRefCount2Fndx, ObjectRevisionWithRefCountFndx,
  ReadOnlyObjectDeclaration2LargeRefCountFnd, ReadOnlyObjectDeclaration2RefCountFnd,
  parse_object_declaration2_refcount_fnd, parse_object_declaration2_large_refcount_fnd,
  parse_readonly_object_declaration2_refcount_fnd,
  parse_readonly_object_declaration2_large_refcount_fnd, parse_object_revision_with_refcount_fndx,
  parse_object_revision_with_refcount2_fndx,
}

pub data KnownFileNodeType : Type 0 where
  object_space_manifest_root_fnd : ObjectSpaceManifestRootFnd → KnownFileNodeType
  object_space_manifest_list_reference_fnd : ObjectSpaceManifestListReferenceFnd → KnownFileNodeType
  object_space_manifest_list_start_fnd : ObjectSpaceManifestListStartFnd → KnownFileNodeType
  revision_manifest_list_reference_fnd : RevisionManifestListReferenceFnd → KnownFileNodeType
  revision_manifest_list_start_fnd : RevisionManifestListStartFnd → KnownFileNodeType
  revision_manifest_start4_fnd : RevisionManifestStart4Fnd → KnownFileNodeType
  revision_manifest_end_fnd : RevisionManifestEndFnd → KnownFileNodeType
  revision_manifest_start6_fnd : RevisionManifestStart6Fnd → KnownFileNodeType
  revision_manifest_start7_fnd : RevisionManifestStart7Fnd → KnownFileNodeType
  revision_role_declaration_fnd : RevisionRoleDeclarationFnd → KnownFileNodeType
  revision_role_and_context_declaration_fnd :
      RevisionRoleAndContextDeclarationFnd → KnownFileNodeType
  object_data_encryption_key_v2_fndx : ObjectDataEncryptionKeyV2Fndx → KnownFileNodeType
  global_id_table_start_fndx : GlobalIdTableStartFndx → KnownFileNodeType
  global_id_table_start2_fnd : GlobalIdTableStart2Fnd → KnownFileNodeType
  global_id_table_entry_fndx : GlobalIdTableEntryFndx → KnownFileNodeType
  global_id_table_entry2_fndx : GlobalIdTableEntry2Fndx → KnownFileNodeType
  global_id_table_entry3_fndx : GlobalIdTableEntry3Fndx → KnownFileNodeType
  global_id_table_end_fndx : GlobalIdTableEndFndx → KnownFileNodeType
  root_object_reference2_fndx : RootObjectReference2Fndx → KnownFileNodeType
  root_object_reference3_fnd : RootObjectReference3Fnd → KnownFileNodeType
  object_info_dependency_overrides_fnd : ObjectInfoDependencyOverridesFnd → KnownFileNodeType
  data_signature_group_definition_fnd : DataSignatureGroupDefinitionFnd → KnownFileNodeType
  file_data_store_list_reference_fnd : FileDataStoreListReferenceFnd → KnownFileNodeType
  file_data_store_object_reference_fnd : FileDataStoreObjectReferenceFnd → KnownFileNodeType
  object_declaration2_ref_count_fnd : ObjectDeclaration2RefCountFnd → KnownFileNodeType
  object_declaration2_large_ref_count_fnd : ObjectDeclaration2LargeRefCountFnd → KnownFileNodeType
  object_group_list_reference_fnd : ObjectGroupListReferenceFnd → KnownFileNodeType
  object_group_start_fnd : ObjectGroupStartFnd → KnownFileNodeType
  object_group_end_fnd : ObjectGroupEndFnd → KnownFileNodeType
  readonly_object_declaration2_ref_count_fnd :
      ReadOnlyObjectDeclaration2RefCountFnd → KnownFileNodeType
  readonly_object_declaration2_large_ref_count_fnd :
      ReadOnlyObjectDeclaration2LargeRefCountFnd → KnownFileNodeType
  hashed_chunk_descriptor2_fnd : HashedChunkDescriptor2Fnd → KnownFileNodeType
  object_revision_with_ref_count_fndx : ObjectRevisionWithRefCountFndx → KnownFileNodeType
  object_revision_with_ref_count2_fndx : ObjectRevisionWithRefCount2Fndx → KnownFileNodeType

pub record TypedFileNode : Type 0 where
  pub node : FileNode
  pub typed : Option KnownFileNodeType
  pub raw_bytes : Option (List ℕ)

-- a parser of one type, as one of the union
unfoldable pub as_known :
    {A : Type 0} → (A → KnownFileNodeType) → (FileNode → M A) → FileNode → M KnownFileNodeType
as_known c parser node = do x ← parser node; pure (c x)

unfoldable pub file_node_type_parsers : Dict (FileNode → M KnownFileNodeType)
file_node_type_parsers =
    (0x004, as_known object_space_manifest_root_fnd parse_object_space_manifest_root_fnd)
    ∷ (
      0x008,
      as_known object_space_manifest_list_reference_fnd
          parse_object_space_manifest_list_reference_fnd,
    )
    ∷ (
      0x00C,
      as_known object_space_manifest_list_start_fnd parse_object_space_manifest_list_start_fnd,
    )
    ∷ (
      0x010,
      as_known revision_manifest_list_reference_fnd parse_revision_manifest_list_reference_fnd,
    )
    ∷ (0x014, as_known revision_manifest_list_start_fnd parse_revision_manifest_list_start_fnd)
    ∷ (0x01B, as_known revision_manifest_start4_fnd parse_revision_manifest_start4_fnd)
    ∷ (0x01C, as_known revision_manifest_end_fnd parse_revision_manifest_end_fnd)
    ∷ (0x01E, as_known revision_manifest_start6_fnd parse_revision_manifest_start6_fnd)
    ∷ (0x01F, as_known revision_manifest_start7_fnd parse_revision_manifest_start7_fnd)
    ∷ (0x05C, as_known revision_role_declaration_fnd parse_revision_role_declaration_fnd)
    ∷ (
      0x05D,
      as_known revision_role_and_context_declaration_fnd
          parse_revision_role_and_context_declaration_fnd,
    )
    ∷ (0x07C, as_known object_data_encryption_key_v2_fndx parse_object_data_encryption_key_v2_fndx)
    ∷ (0x021, as_known global_id_table_start_fndx parse_global_id_table_start_fndx)
    ∷ (0x022, as_known global_id_table_start2_fnd parse_global_id_table_start2_fnd)
    ∷ (0x024, as_known global_id_table_entry_fndx parse_global_id_table_entry_fndx)
    ∷ (0x025, as_known global_id_table_entry2_fndx parse_global_id_table_entry2_fndx)
    ∷ (0x026, as_known global_id_table_entry3_fndx parse_global_id_table_entry3_fndx)
    ∷ (0x028, as_known global_id_table_end_fndx parse_global_id_table_end_fndx)
    ∷ (0x059, as_known root_object_reference2_fndx parse_root_object_reference2_fndx)
    ∷ (0x05A, as_known root_object_reference3_fnd parse_root_object_reference3_fnd)
    ∷ (
      0x084,
      as_known object_info_dependency_overrides_fnd parse_object_info_dependency_overrides_fnd,
    )
    ∷ (
      0x08C,
      as_known data_signature_group_definition_fnd parse_data_signature_group_definition_fnd,
    )
    ∷ (0x090, as_known file_data_store_list_reference_fnd parse_file_data_store_list_reference_fnd)
    ∷ (
      0x094,
      as_known file_data_store_object_reference_fnd parse_file_data_store_object_reference_fnd,
    )
    ∷ (0x0A4, as_known object_declaration2_ref_count_fnd parse_object_declaration2_refcount_fnd)
    ∷ (
      0x0A5,
      as_known object_declaration2_large_ref_count_fnd parse_object_declaration2_large_refcount_fnd,
    )
    ∷ (0x0B0, as_known object_group_list_reference_fnd parse_object_group_list_reference_fnd)
    ∷ (0x0B4, as_known object_group_start_fnd parse_object_group_start_fnd)
    ∷ (0x0B8, as_known object_group_end_fnd parse_object_group_end_fnd)
    ∷ (
      0x0C4,
      as_known readonly_object_declaration2_ref_count_fnd
          parse_readonly_object_declaration2_refcount_fnd,
    )
    ∷ (
      0x0C5,
      as_known readonly_object_declaration2_large_ref_count_fnd
          parse_readonly_object_declaration2_large_refcount_fnd,
    )
    ∷ (0x0C2, as_known hashed_chunk_descriptor2_fnd parse_hashed_chunk_descriptor2_fnd)
    ∷ (0x041, as_known object_revision_with_ref_count_fndx parse_object_revision_with_refcount_fndx)
    ∷ (
      0x042,
      as_known object_revision_with_ref_count2_fndx parse_object_revision_with_refcount2_fndx,
    )
    ∷ []

unfoldable pub contains : List ℕ → ℕ → Bool
contains [] k = false
contains (j ∷ ks) k = j == k || contains ks k

-- the warning on an unknown id, once for each id where a set is given
unfoldable pub warn_unknown : FileNode → Option (List ℕ) → M (Option (List ℕ))
warn_unknown node none = do warn "Unknown FileNodeID" (some node.header.offset); pure none
warn_unknown node (some ids) =
    let once = (do
      warn "Unknown FileNodeID" (some node.header.offset)
      pure (some (node.header.file_node_id ∷ ids))) in
    if contains ids node.header.file_node_id then pure (some ids) else once

-- a typed node, and the set of unknown ids
unfoldable pub parse_typed_file_node :
    FileNode → Option (List ℕ) → M (TypedFileNode × Option (List ℕ))
parse_typed_file_node node warn_unknown_ids =
    elim (Dict.get file_node_type_parsers node.header.file_node_id) [
      | none ↦ do
        ids ← warn_unknown node warn_unknown_ids
        pure (record { node = node; typed = none; raw_bytes = none }, ids)
      | some parser ↦ do
        typed ← parser node
        pure (record { node = node; typed = some typed; raw_bytes = none }, warn_unknown_ids)
    ]
