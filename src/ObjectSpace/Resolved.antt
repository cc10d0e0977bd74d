-- ===== src/ObjectSpace/Resolved.antt =====
-- parse_object_spaces_with_resolved_ids of onestore/object_space.py: the tables of the revisions and the
-- ids that they resolve.
use aspose_note_foss_for_pyt.Prelude.{
  ℕ, Option, none, some, List, [], ◌∷◌, ◌++◌, ltb, if◌then◌else◌,
}
use aspose_note_foss_for_pyt.Dict.{Dict}
use aspose_note_foss_for_pyt.Context.{format_error}
use aspose_note_foss_for_pyt.Parser.{M, pure, raise, ◌>>=◌}
use aspose_note_foss_for_pyt.CommonTypes.ExtendedGuid
use aspose_note_foss_for_pyt.CommonTypes.ExtendedGuid.{ExtendedGuid}
use aspose_note_foss_for_pyt.FileNodeTypes.Root.{same_guid}
use aspose_note_foss_for_pyt.ObjectSpace.Gids.{
  build_gid_table_from_sequence, resolve_compact_id_to_extended_guid, sorted_gid_table_items,
}
use aspose_note_foss_for_pyt.ObjectSpace.Summaries.{
  RevisionSummary, RevisionManifestContentSummary, ObjectSpaceRevisionsSummary,
  RevisionResolvedIdsSummary, ObjectSpaceResolvedIdsSummary, OneStoreObjectSpacesWithResolvedIds,
  ObjectGroupSummary, ObjectChangeSummary, RootObject, root_object2, root_object3,
  compact_id_of_change, eg_less, both_less, sorted,
}
use aspose_note_foss_for_pyt.ObjectSpace.Lists.{resolve_oids_in_object_group_list}
use aspose_note_foss_for_pyt.ObjectSpace.Spaces.{
  parse_log, parse_object_spaces_with_revisions, for_each,
}

abbrev pub GidDict : Type 0
GidDict = Dict (List ℕ)

-- tables_by_rid
abbrev pub TablesByRid : Type 0
TablesByRid = List (ExtendedGuid × GidDict)

unfoldable pub table_of : ExtendedGuid → TablesByRid → Option GidDict
table_of rid [] = none
table_of rid ((r, table) ∷ tables) =
    let further = table_of rid tables in if same_guid r rid then some table else further

-- dep_table
unfoldable pub dependency_table : ExtendedGuid → TablesByRid → M (Option GidDict)
dependency_table rid_dependent tables =
    let found : M (Option GidDict) = elim (table_of rid_dependent tables) [
      | none ↦
          raise (format_error "ridDependent MUST refer to a previously built revision table" none)
      | some table ↦ pure (some table)
    ] in
    if ExtendedGuid.is_zero rid_dependent then pure none else found

-- table_after
unfoldable pub table_after :
    Option RevisionManifestContentSummary → Option GidDict → M (Option GidDict)
table_after none dep_table = pure dep_table
table_after (some manifest) dep_table = elim manifest.global_id_table [
  | none ↦ pure dep_table
  | some seq ↦ do table ← build_gid_table_from_sequence seq dep_table none; pure (some table)
]

unfoldable pub resolve_root : Option GidDict → RootObject → M (ℕ × ExtendedGuid)
resolve_root table (root_object3 ro) = pure (ro.root_role, ro.oid_root)
resolve_root table (root_object2 ro) = do
  eg ← resolve_compact_id_to_extended_guid ro.oid_root table none
  pure (ro.root_role, eg)

unfoldable pub resolve_group :
    List ℕ → Dict ℕ → Option GidDict → ObjectGroupSummary → M (List ExtendedGuid)
resolve_group contents counts table grp =
    resolve_oids_in_object_group_list contents grp.ref table counts

unfoldable pub resolve_change : Option GidDict → ObjectChangeSummary → M ExtendedGuid
resolve_change table ch =
    resolve_compact_id_to_extended_guid (compact_id_of_change ch.change) table none

unfoldable pub flatten {ℓ} : {A : Type ℓ} → List (List A) → List A
flatten [] = []
flatten (xs ∷ xss) = xs ++ flatten xss

-- the root objects and the ids of changes of a manifest
unfoldable pub resolve_manifest :
    List ℕ
    → Dict ℕ
    → Option GidDict
    → Option RevisionManifestContentSummary
    → M (List (ℕ × ExtendedGuid) × List ExtendedGuid)
resolve_manifest contents counts table none = pure ([], [])
resolve_manifest contents counts table (some manifest) = do
  roots ← for_each (resolve_root table) manifest.root_objects
  groups ← for_each (resolve_group contents counts table) manifest.object_groups
  changes ← for_each (resolve_change table) manifest.inline_changes
  pure (roots, flatten groups ++ changes)

unfoldable pub or_empty : Option GidDict → GidDict
or_empty none = []
or_empty (some table) = table

unfoldable pub resolve_revision :
    List ℕ → Dict ℕ → RevisionSummary → TablesByRid → M (RevisionResolvedIdsSummary × TablesByRid)
resolve_revision contents counts rev tables = do
  dep_table ← dependency_table rev.rid_dependent tables
  after ← table_after rev.manifest dep_table
  let effective = or_empty after
  (roots, changes) ← resolve_manifest contents counts after rev.manifest
  pure (
    record {
      rid = rev.rid;
      rid_dependent = rev.rid_dependent;
      effective_gid_table = sorted_gid_table_items effective;
      resolved_root_objects = sorted (both_less ltb eg_less) roots;
      resolved_change_oids = changes;
    },
    (rev.rid, effective) ∷ tables,
  )

-- for rev in os.revisions
unfoldable pub resolve_revisions :
    List ℕ → Dict ℕ → List RevisionSummary → TablesByRid → M (List RevisionResolvedIdsSummary)
resolve_revisions contents counts [] tables = pure []
resolve_revisions contents counts (rev ∷ revisions) tables = do
  (resolved, tables') ← resolve_revision contents counts rev tables
  rest ← resolve_revisions contents counts revisions tables'
  pure (resolved ∷ rest)

unfoldable pub resolve_object_space :
    List ℕ → Dict ℕ → ObjectSpaceRevisionsSummary → M ObjectSpaceResolvedIdsSummary
resolve_object_space contents counts os = do
  revisions ← resolve_revisions contents counts os.revisions []
  pure (record { gosid = os.gosid; revisions = revisions })

unfoldable pub parse_object_spaces_with_resolved_ids :
    ℕ → List ℕ → M OneStoreObjectSpacesWithResolvedIds
parse_object_spaces_with_resolved_ids fuel contents = do
  (header, counts) ← parse_log fuel contents
  step10 ← parse_object_spaces_with_revisions fuel contents
  object_spaces ← for_each (resolve_object_space contents counts) step10.object_spaces
  pure (record { root_gosid = step10.root_gosid; object_spaces = object_spaces })
