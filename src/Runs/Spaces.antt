-- ===== src/Runs/Spaces.antt =====
-- The theorems on object spaces at concrete inputs.
use aspose_note_foss_for_pyt.Prelude.{
  ℕ, ◌≡◌, refl, false, none, some, List, [], ◌∷◌, ◌++◌, All, arith, replicate, bytes_eq,
}
use aspose_note_foss_for_pyt.Dict
use aspose_note_foss_for_pyt.Dict.{Dict}
use aspose_note_foss_for_pyt.Parser.{ok, err}
use aspose_note_foss_for_pyt.Context.{Error, format_error}
use aspose_note_foss_for_pyt.CommonTypes.ExtendedGuid
use aspose_note_foss_for_pyt.CommonTypes.ExtendedGuid.{ExtendedGuid}
use aspose_note_foss_for_pyt.FileNodeTypes.Typed.{
  TypedFileNode, revision_manifest_list_start_fnd, revision_manifest_start6_fnd,
  global_id_table_entry_fndx, global_id_table_entry3_fndx, global_id_table_end_fndx,
}
use aspose_note_foss_for_pyt.FileNodeTypes.GlobalIdTable.{global_id_table_end}
use aspose_note_foss_for_pyt.ObjectSpace.Sequences.{
  start2_fnd, entry, entry3, GlobalIdTableSequenceSummary, parse_global_id_table_sequence,
  last_offset, sequence_ops, sequence_node, check_op, check_entry, check_entry3, dest_add_point,
  dest_add_range, dest_has_overlap, point_overlaps, range_overlaps, has_bytes,
}
use aspose_note_foss_for_pyt.ObjectSpace.Gids.{
  build_gid_table_from_sequence, apply_ops, apply_op, apply_entry3, copy_gids, add_gid, has_index,
}
use aspose_note_foss_for_pyt.ObjectSpace.Tables.{
  IsGidTable, build_gid_table_from_sequence-IsGidTable,
}
use aspose_note_foss_for_pyt.ObjectSpace.Meaning.{Meets, build_gid_table_from_sequence-Meets}
use aspose_note_foss_for_pyt.ObjectSpace.Destinations.{
  AreApart, parse_global_id_table_sequence-AreApart,
}
use aspose_note_foss_for_pyt.FileNodeTypes.Root.{has_guid, same_guid}
use aspose_note_foss_for_pyt.ObjectSpace.Gids.{
  sorted_gid_table_items, resolve_compact_id_to_extended_guid,
}
use aspose_note_foss_for_pyt.ObjectSpace.Summaries.{
  RevisionSummary, zero_eg, sorted, as_change, root_object2,
}
use aspose_note_foss_for_pyt.ObjectSpace.Contents.{
  no_content, parse_revision_manifest_content, content_loop, content_step, content_node,
  change_or_passed, check_roles,
}
use aspose_note_foss_for_pyt.ObjectSpace.Revisions.{
  parse_revision_manifest_list_revisions, is_list_start, revision_loop, step, step_outside,
  revision_node, check_start, step_inside, take_inside, key_of, is_some, close_inside, finish,
  and_revision, finalize, pairs_of,
}
use aspose_note_foss_for_pyt.ObjectSpace.Spaces.{for_each}
use aspose_note_foss_for_pyt.ObjectSpace.Resolved.{
  resolve_revisions, resolve_revision, resolve_root, table_of, dependency_table, table_after,
  resolve_manifest, or_empty, flatten,
}
use aspose_note_foss_for_pyt.ObjectSpace.Order.{
  AreOrdered, Follows, parse_revision_manifest_list_revisions-AreOrdered,
}
use aspose_note_foss_for_pyt.ObjectSpace.Dependencies.{Fails, resolve_revisions-found}
use aspose_note_foss_for_pyt.Runs.{file}
use aspose_note_foss_for_pyt.Runs.Objects.{typed_as, end_node, first_id, second_id}

-- a sequence that copies two entries of another table and adds one
abbrev guid_of : ℕ → List ℕ
guid_of n = n ∷ replicate 15 0

abbrev sequence : GlobalIdTableSequenceSummary
sequence = record {
  start = start2_fnd;
  ops =
      entry3 (record { index_copy_from_start = 1; entries_to_copy = 2; index_copy_to_start = 4 })
      ∷ entry (record { index = 9; guid = guid_of 3 })
      ∷ [];
}

abbrev dependency : Dict (List ℕ)
dependency = (1, guid_of 1) ∷ (2, guid_of 2) ∷ []

abbrev table : Dict (List ℕ)
table = (9, guid_of 3) ∷ (5, guid_of 2) ∷ (4, guid_of 1) ∷ []

building :
    build_gid_table_from_sequence sequence (some dependency) none (file []) ≡ ok table (file [])
unfolding build_gid_table_from_sequence apply_ops apply_op apply_entry3 copy_gids add_gid has_index
    has_bytes Dict.get Dict.put bytes_eq replicate
building = refl

build_gid_table_from_sequence-IsGidTable_example : IsGidTable table
build_gid_table_from_sequence-IsGidTable_example =
    build_gid_table_from_sequence-IsGidTable sequence (some dependency) none (file []) (file [])
      table building

build_gid_table_from_sequence-Meets_example :
    (file [] ≡ file []) × All (Meets (some dependency) table) sequence.ops
build_gid_table_from_sequence-Meets_example =
    build_gid_table_from_sequence-Meets sequence (some dependency) none (file []) (file []) table
      refl building

abbrev sequence_nodes : List TypedFileNode
sequence_nodes =
    typed_as 0x026 (
      global_id_table_entry3_fndx
        (record { index_copy_from_start = 1; entries_to_copy = 2; index_copy_to_start = 4 }))
    ∷ typed_as 0x024 (global_id_table_entry_fndx (record { index = 9; guid = guid_of 3 }))
    ∷ typed_as 0x028 (global_id_table_end_fndx global_id_table_end)
    ∷ end_node
    ∷ []

reading :
    parse_global_id_table_sequence start2_fnd 3 sequence_nodes (file [])
    ≡ ok (sequence, end_node ∷ []) (file [])
unfolding parse_global_id_table_sequence last_offset sequence_ops sequence_node check_op check_entry
    check_entry3 dest_add_point dest_add_range dest_has_overlap point_overlaps range_overlaps
    has_bytes bytes_eq replicate
reading = refl

parse_global_id_table_sequence-AreApart_example : AreApart sequence.ops
parse_global_id_table_sequence-AreApart_example =
    parse_global_id_table_sequence-AreApart start2_fnd 3 sequence_nodes (end_node ∷ []) (file [])
      (file []) sequence reading

-- a revision manifest list of two revisions, of which the second depends on the first
abbrev pub start_of : ExtendedGuid → ExtendedGuid → TypedFileNode
start_of rid rid_dependent = typed_as 0x01E (
    revision_manifest_start6_fnd
      (record { rid = rid; rid_dependent = rid_dependent; revision_role = 1; odcs_default = 0 }))

abbrev revision_nodes : List TypedFileNode
revision_nodes =
    typed_as 0x014 (revision_manifest_list_start_fnd (record { gosid = first_id; n_instance = 0 }))
    ∷ start_of first_id zero_eg
    ∷ end_node
    ∷ start_of second_id first_id
    ∷ end_node
    ∷ []

abbrev pub revision_of : ExtendedGuid → ExtendedGuid → RevisionSummary
revision_of rid rid_dependent = record {
  rid = rid;
  rid_dependent = rid_dependent;
  gctxid = zero_eg;
  revision_role = 1;
  odcs_default = 0;
  has_encryption_marker = false;
  assigned_pairs = [];
  encryption_key_ref = none;
  manifest = some no_content.summary;
}

abbrev two_revisions : List RevisionSummary
two_revisions = revision_of first_id zero_eg ∷ revision_of second_id first_id ∷ []

listing :
    parse_revision_manifest_list_revisions [] revision_nodes [] (file [])
    ≡ ok (two_revisions, []) (file [])
unfolding parse_revision_manifest_list_revisions last_offset is_list_start revision_loop step
    step_outside revision_node check_start step_inside take_inside key_of is_some close_inside
    finish and_revision finalize pairs_of sorted parse_revision_manifest_content content_loop
    content_step content_node change_or_passed as_change check_roles has_guid same_guid
    ExtendedGuid.is_zero bytes_eq replicate
listing = refl

parse_revision_manifest_list_revisions-AreOrdered_example : AreOrdered [] two_revisions
parse_revision_manifest_list_revisions-AreOrdered_example =
    parse_revision_manifest_list_revisions-AreOrdered [] revision_nodes [] (file []) (file [])
      two_revisions [] listing

-- a revision with a root object whose index is in no table
abbrev unresolved : RevisionSummary
unresolved = record (revision_of second_id first_id) {
  manifest = some (record no_content.summary {
    root_objects =
        root_object2 (record { oid_root = record { n = 1; guid_index = 7 }; root_role = 1 }) ∷ [];
  });
}

abbrev broken : List RevisionSummary
broken = revision_of first_id zero_eg ∷ unresolved ∷ []

broken-AreOrdered : AreOrdered [] broken
unfolding AreOrdered Follows has_guid same_guid ExtendedGuid.is_zero bytes_eq replicate
broken-AreOrdered = ground arith

abbrev missing : Error
missing = format_error "CompactID.guidIndex is not present in the effective Global ID Table" none

failing : resolve_revisions [] [] broken [] (file []) ≡ err missing (file []).ctx
unfolding resolve_revisions resolve_revision dependency_table table_of table_after resolve_manifest
    or_empty for_each flatten sorted sorted_gid_table_items ExtendedGuid.is_zero bytes_eq replicate
    resolve_root resolve_compact_id_to_extended_guid same_guid Dict.get
failing = refl

resolve_revisions-found_example :
    (rev : RevisionSummary) × (earlier later : List RevisionSummary) × (broken
      ≡ earlier ++ (rev ∷ later))
    × Fails [] [] missing (file []).ctx rev
resolve_revisions-found_example =
    resolve_revisions-found [] [] broken (file []) missing (file []).ctx broken-AreOrdered failing
