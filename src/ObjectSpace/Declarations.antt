-- ===== src/ObjectSpace/Declarations.antt =====
-- The roles that the nodes of a revision manifest list declare.
use aspose_note_foss_for_pyt.Prelude.{
  ◌≡◌, refl, true, Option, none, some, List, [], ◌∷◌, if◌then◌else◌,
}
use aspose_note_foss_for_pyt.Dict.{or_else}
use aspose_note_foss_for_pyt.CommonTypes.ExtendedGuid.{ExtendedGuid}
use aspose_note_foss_for_pyt.FileNodeTypes.Typed.{
  KnownFileNodeType, TypedFileNode, object_space_manifest_root_fnd,
  object_space_manifest_list_reference_fnd, object_space_manifest_list_start_fnd,
  revision_manifest_list_reference_fnd, revision_manifest_list_start_fnd,
  revision_manifest_start4_fnd, revision_manifest_end_fnd, revision_manifest_start6_fnd,
  revision_manifest_start7_fnd, revision_role_declaration_fnd,
  revision_role_and_context_declaration_fnd, object_data_encryption_key_v2_fndx,
  global_id_table_start_fndx, global_id_table_start2_fnd, global_id_table_entry_fndx,
  global_id_table_entry2_fndx, global_id_table_entry3_fndx, global_id_table_end_fndx,
  root_object_reference2_fndx, root_object_reference3_fnd, object_info_dependency_overrides_fnd,
  data_signature_group_definition_fnd, file_data_store_list_reference_fnd,
  file_data_store_object_reference_fnd, object_declaration2_ref_count_fnd,
  object_declaration2_large_ref_count_fnd, object_group_list_reference_fnd, object_group_start_fnd,
  object_group_end_fnd, readonly_object_declaration2_ref_count_fnd,
  readonly_object_declaration2_large_ref_count_fnd, hashed_chunk_descriptor2_fnd,
  object_revision_with_ref_count_fndx, object_revision_with_ref_count2_fndx,
}
use aspose_note_foss_for_pyt.ObjectSpace.Summaries.{RevisionRoleContextPair, zero_eg}
use aspose_note_foss_for_pyt.ObjectSpace.Revisions.{
  RevisionNode, declares_role, revision_node, is_list_start,
}
use aspose_note_foss_for_pyt.ObjectSpace.Roles.{Assignment, same_key}

-- what a node declares: the role in a context, which is the default one or named, and the revision
unfoldable pub role_of : Option KnownFileNodeType → Option Assignment
role_of (some (revision_role_declaration_fnd x)) =
    some (record { gctxid = zero_eg; revision_role = x.revision_role }, x.rid)
role_of (some (revision_role_and_context_declaration_fnd x)) =
    some (record { gctxid = x.gctxid; revision_role = x.revision_role }, x.rid)
role_of _ = none

unfoldable pub declared_by : RevisionRoleContextPair → Option Assignment → Option ExtendedGuid
declared_by pair none = none
declared_by pair (some (p, rid)) = if same_key p pair then some rid else none

-- The revision that the last declaration of a role in a context names.
unfoldable pub declared : RevisionRoleContextPair → List TypedFileNode → Option ExtendedGuid
declared pair [] = none
declared pair (tn ∷ nodes) = or_else (declared pair nodes) (declared_by pair (role_of tn.typed))

unfoldable pub role_in : RevisionNode → Option Assignment
role_in (declares_role pair rid with_context) = some (pair, rid)
role_in _ = none

pub role_of-revision_node :
    (typed : Option KnownFileNodeType) → role_of typed ≡ role_in (revision_node typed)
unfolding role_of role_in revision_node
role_of-revision_node none = refl
role_of-revision_node (some (object_space_manifest_root_fnd x)) = refl
role_of-revision_node (some (object_space_manifest_list_reference_fnd x)) = refl
role_of-revision_node (some (object_space_manifest_list_start_fnd x)) = refl
role_of-revision_node (some (revision_manifest_list_reference_fnd x)) = refl
role_of-revision_node (some (revision_manifest_list_start_fnd x)) = refl
role_of-revision_node (some (revision_manifest_start4_fnd x)) = refl
role_of-revision_node (some (revision_manifest_end_fnd x)) = refl
role_of-revision_node (some (revision_manifest_start6_fnd x)) = refl
role_of-revision_node (some (revision_manifest_start7_fnd x)) = refl
role_of-revision_node (some (revision_role_declaration_fnd x)) = refl
role_of-revision_node (some (revision_role_and_context_declaration_fnd x)) = refl
role_of-revision_node (some (object_data_encryption_key_v2_fndx x)) = refl
role_of-revision_node (some (global_id_table_start_fndx x)) = refl
role_of-revision_node (some (global_id_table_start2_fnd x)) = refl
role_of-revision_node (some (global_id_table_entry_fndx x)) = refl
role_of-revision_node (some (global_id_table_entry2_fndx x)) = refl
role_of-revision_node (some (global_id_table_entry3_fndx x)) = refl
role_of-revision_node (some (global_id_table_end_fndx x)) = refl
role_of-revision_node (some (root_object_reference2_fndx x)) = refl
role_of-revision_node (some (root_object_reference3_fnd x)) = refl
role_of-revision_node (some (object_info_dependency_overrides_fnd x)) = refl
role_of-revision_node (some (data_signature_group_definition_fnd x)) = refl
role_of-revision_node (some (file_data_store_list_reference_fnd x)) = refl
role_of-revision_node (some (file_data_store_object_reference_fnd x)) = refl
role_of-revision_node (some (object_declaration2_ref_count_fnd x)) = refl
role_of-revision_node (some (object_declaration2_large_ref_count_fnd x)) = refl
role_of-revision_node (some (object_group_list_reference_fnd x)) = refl
role_of-revision_node (some (object_group_start_fnd x)) = refl
role_of-revision_node (some (object_group_end_fnd x)) = refl
role_of-revision_node (some (readonly_object_declaration2_ref_count_fnd x)) = refl
role_of-revision_node (some (readonly_object_declaration2_large_ref_count_fnd x)) = refl
role_of-revision_node (some (hashed_chunk_descriptor2_fnd x)) = refl
role_of-revision_node (some (object_revision_with_ref_count_fndx x)) = refl
role_of-revision_node (some (object_revision_with_ref_count2_fndx x)) = refl

pub role_of-list_start :
    (typed : Option KnownFileNodeType) → is_list_start typed ≡ true → role_of typed ≡ none
unfolding role_of is_list_start
role_of-list_start none h = cc
role_of-list_start (some (object_space_manifest_root_fnd x)) h = refl
role_of-list_start (some (object_space_manifest_list_reference_fnd x)) h = refl
role_of-list_start (some (object_space_manifest_list_start_fnd x)) h = refl
role_of-list_start (some (revision_manifest_list_reference_fnd x)) h = refl
role_of-list_start (some (revision_manifest_list_start_fnd x)) h = refl
role_of-list_start (some (revision_manifest_start4_fnd x)) h = refl
role_of-list_start (some (revision_manifest_end_fnd x)) h = refl
role_of-list_start (some (revision_manifest_start6_fnd x)) h = refl
role_of-list_start (some (revision_manifest_start7_fnd x)) h = refl
role_of-list_start (some (revision_role_declaration_fnd x)) h = cc
role_of-list_start (some (revision_role_and_context_declaration_fnd x)) h = cc
role_of-list_start (some (object_data_encryption_key_v2_fndx x)) h = refl
role_of-list_start (some (global_id_table_start_fndx x)) h = refl
role_of-list_start (some (global_id_table_start2_fnd x)) h = refl
role_of-list_start (some (global_id_table_entry_fndx x)) h = refl
role_of-list_start (some (global_id_table_entry2_fndx x)) h = refl
role_of-list_start (some (global_id_table_entry3_fndx x)) h = refl
role_of-list_start (some (global_id_table_end_fndx x)) h = refl
role_of-list_start (some (root_object_reference2_fndx x)) h = refl
role_of-list_start (some (root_object_reference3_fnd x)) h = refl
role_of-list_start (some (object_info_dependency_overrides_fnd x)) h = refl
role_of-list_start (some (data_signature_group_definition_fnd x)) h = refl
role_of-list_start (some (file_data_store_list_reference_fnd x)) h = refl
role_of-list_start (some (file_data_store_object_reference_fnd x)) h = refl
role_of-list_start (some (object_declaration2_ref_count_fnd x)) h = refl
role_of-list_start (some (object_declaration2_large_ref_count_fnd x)) h = refl
role_of-list_start (some (object_group_list_reference_fnd x)) h = refl
role_of-list_start (some (object_group_start_fnd x)) h = refl
role_of-list_start (some (object_group_end_fnd x)) h = refl
role_of-list_start (some (readonly_object_declaration2_ref_count_fnd x)) h = refl
role_of-list_start (some (readonly_object_declaration2_large_ref_count_fnd x)) h = refl
role_of-list_start (some (hashed_chunk_descriptor2_fnd x)) h = refl
role_of-list_start (some (object_revision_with_ref_count_fndx x)) h = refl
role_of-list_start (some (object_revision_with_ref_count2_fndx x)) h = refl
