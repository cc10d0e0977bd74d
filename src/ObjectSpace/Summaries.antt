-- ===== src/ObjectSpace/Summaries.antt =====
-- The dataclasses of onestore/object_space.py and the order of ids by which it sorts.
use aspose_note_foss_for_pyt.Prelude.{
  ℕ, Bool, true, false, not, ◌&&◌, ◌||◌, Option, none, some, List, [], ◌∷◌, ◌==◌, ltb,
  if◌then◌else◌,
}
use aspose_note_foss_for_pyt.CommonTypes.CompactId.{CompactId}
use aspose_note_foss_for_pyt.CommonTypes.ExtendedGuid.{ExtendedGuid, zero_guid}
use aspose_note_foss_for_pyt.ChunkRefs.Node.{FileNodeChunkReference}
use aspose_note_foss_for_pyt.FileNodeTypes.GlobalIdTable.{RootObjectReference2Fndx}
use aspose_note_foss_for_pyt.FileNodeTypes.Groups.{RootObjectReference3Fnd}
use aspose_note_foss_for_pyt.FileNodeTypes.Declarations.{
  ObjectDeclaration2LargeRefCountFnd, ObjectDeclaration2RefCountFnd,
  ObjectRevisionWithRefCount2Fndx, ObjectRevisionWithRefCountFndx,
  ReadOnlyObjectDeclaration2LargeRefCountFnd, ReadOnlyObjectDeclaration2RefCountFnd,
}
use aspose_note_foss_for_pyt.FileNodeTypes.Typed.{
  KnownFileNodeType, object_declaration2_ref_count_fnd, object_declaration2_large_ref_count_fnd,
  readonly_object_declaration2_ref_count_fnd, readonly_object_declaration2_large_ref_count_fnd,
  object_revision_with_ref_count_fndx, object_revision_with_ref_count2_fndx,
}
use aspose_note_foss_for_pyt.ObjectSpace.Sequences.{GlobalIdTableSequenceSummary}

pub record ObjectSpaceSummary : Type 0 where
  pub gosid : ExtendedGuid
  pub manifest_list_ref : FileNodeChunkReference
  pub revision_manifest_list_ref : FileNodeChunkReference

pub record OneStoreObjectSpacesSummary : Type 0 where
  pub root_gosid : ExtendedGuid
  pub object_spaces : List ObjectSpaceSummary

pub record RevisionRoleContextPair : Type 0 where
  pub gctxid : ExtendedGuid
  pub revision_role : ℕ

-- the union of the six types of changes
pub data Change : Type 0 where
  declaration : ObjectDeclaration2RefCountFnd → Change
  large_declaration : ObjectDeclaration2LargeRefCountFnd → Change
  read_only_declaration : ReadOnlyObjectDeclaration2RefCountFnd → Change
  large_read_only_declaration : ReadOnlyObjectDeclaration2LargeRefCountFnd → Change
  revision_change : ObjectRevisionWithRefCountFndx → Change
  revision2_change : ObjectRevisionWithRefCount2Fndx → Change

-- isinstance(t, (…)) with the six types
unfoldable pub as_change : KnownFileNodeType → Option Change
as_change (object_declaration2_ref_count_fnd x) = some (declaration x)
as_change (object_declaration2_large_ref_count_fnd x) = some (large_declaration x)
as_change (readonly_object_declaration2_ref_count_fnd x) = some (read_only_declaration x)
as_change (readonly_object_declaration2_large_ref_count_fnd x) =
    some (large_read_only_declaration x)
as_change (object_revision_with_ref_count_fndx x) = some (revision_change x)
as_change (object_revision_with_ref_count2_fndx x) = some (revision2_change x)
as_change _ = none

-- _iter_compact_ids_from_change, which yields one id for each of the six types
unfoldable pub compact_id_of_change : Change → CompactId
compact_id_of_change (declaration x) = x.oid
compact_id_of_change (large_declaration x) = x.oid
compact_id_of_change (read_only_declaration x) = x.base.oid
compact_id_of_change (large_read_only_declaration x) = x.base.oid
compact_id_of_change (revision_change x) = x.oid
compact_id_of_change (revision2_change x) = x.oid

pub record ObjectChangeSummary : Type 0 where
  pub data_signature_group : ExtendedGuid
  pub change : Change

pub record ObjectGroupSummary : Type 0 where
  pub object_group_id : ExtendedGuid
  pub ref : FileNodeChunkReference
  pub start_oid : ExtendedGuid
  pub changes : List ObjectChangeSummary
  pub has_end : Bool

pub data RootObject : Type 0 where
  root_object2 : RootObjectReference2Fndx → RootObject
  root_object3 : RootObjectReference3Fnd → RootObject

unfoldable pub root_role : RootObject → ℕ
root_role (root_object2 x) = x.root_role
root_role (root_object3 x) = x.root_role

pub record RevisionManifestContentSummary : Type 0 where
  pub object_groups : List ObjectGroupSummary
  pub global_id_table : Option GlobalIdTableSequenceSummary
  pub root_objects : List RootObject
  pub override_nodes : ℕ
  pub inline_changes : List ObjectChangeSummary

pub record RevisionSummary : Type 0 where
  pub rid : ExtendedGuid
  pub rid_dependent : ExtendedGuid
  pub gctxid : ExtendedGuid
  pub revision_role : ℕ
  pub odcs_default : ℕ
  pub has_encryption_marker : Bool
  pub assigned_pairs : List RevisionRoleContextPair
  pub encryption_key_ref : Option FileNodeChunkReference
  pub manifest : Option RevisionManifestContentSummary

pub record ObjectSpaceRevisionsSummary : Type 0 where
  pub gosid : ExtendedGuid
  pub manifest_list_ref : FileNodeChunkReference
  pub revision_manifest_list_ref : FileNodeChunkReference
  pub revisions : List RevisionSummary
  pub role_assignments : List (RevisionRoleContextPair × ExtendedGuid)

pub record OneStoreObjectSpacesWithRevisions : Type 0 where
  pub root_gosid : ExtendedGuid
  pub object_spaces : List ObjectSpaceRevisionsSummary

pub record RevisionResolvedIdsSummary : Type 0 where
  pub rid : ExtendedGuid
  pub rid_dependent : ExtendedGuid
  pub effective_gid_table : List (ℕ × List ℕ)
  pub resolved_root_objects : List (ℕ × ExtendedGuid)
  pub resolved_change_oids : List ExtendedGuid

pub record ObjectSpaceResolvedIdsSummary : Type 0 where
  pub gosid : ExtendedGuid
  pub revisions : List RevisionResolvedIdsSummary

pub record OneStoreObjectSpacesWithResolvedIds : Type 0 where
  pub root_gosid : ExtendedGuid
  pub object_spaces : List ObjectSpaceResolvedIdsSummary

abbrev pub zero_eg : ExtendedGuid
zero_eg = record { guid = zero_guid; n = 0 }

-- `<` of Python's bytes
unfoldable pub bytes_less : List ℕ → List ℕ → Bool
bytes_less xs [] = false
bytes_less [] (y ∷ ys) = true
bytes_less (x ∷ xs) (y ∷ ys) = let rest = bytes_less xs ys in if x == y then rest else ltb x y

-- `<` of the keys of _eg_sort_key
unfoldable pub eg_less : ExtendedGuid → ExtendedGuid → Bool
eg_less a b = bytes_less a.guid b.guid || (not (bytes_less b.guid a.guid) && ltb a.n b.n)

-- `<` of the keys of _pair_sort_key
unfoldable pub pair_less : RevisionRoleContextPair → RevisionRoleContextPair → Bool
pair_less a b =
    eg_less a.gctxid b.gctxid
    || (not (eg_less b.gctxid a.gctxid) && ltb a.revision_role b.revision_role)

-- `<` of pairs of keys
unfoldable pub both_less {ℓ κ} :
    {A : Type ℓ} {B : Type κ} → (A → A → Bool) → (B → B → Bool) → A × B → A × B → Bool
both_less less less' (a, b) (c, d) = less a c || (not (less c a) && less' b d)

-- sorted(xs, key=…), which is stable, by `<` of the keys
unfoldable pub insert_sorted {ℓ} : {A : Type ℓ} → (A → A → Bool) → A → List A → List A
insert_sorted less x [] = x ∷ []
insert_sorted less x (y ∷ ys) =
    let rest = insert_sorted less x ys in if less y x then y ∷ rest else x ∷ y ∷ ys

unfoldable pub sorted {ℓ} : {A : Type ℓ} → (A → A → Bool) → List A → List A
sorted less [] = []
sorted less (x ∷ xs) = insert_sorted less x (sorted less xs)
