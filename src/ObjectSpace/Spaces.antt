-- ===== src/ObjectSpace/Spaces.antt =====
-- The entry points of onestore/object_space.py for object spaces and revisions: from the header and the
-- transaction log on. Every caller passes a context. The fuel is that of the transaction log.
use aspose_note_foss_for_pyt.Prelude.{
  ℕ, Bool, true, false, not, ◌&&◌, ◌||◌, Option, none, some, List, [], ◌∷◌, ◌++◌, ◌==◌,
}
use aspose_note_foss_for_pyt.Dict.{Dict}
use aspose_note_foss_for_pyt.Context.{format_error}
use aspose_note_foss_for_pyt.Parser.{
  M, pure, raise, raise_if, the_context, violation_if, warn_if, ◌>>=◌, ◌>>◌,
}
use aspose_note_foss_for_pyt.ChunkRefs.Node.{FileNodeChunkReference}
use aspose_note_foss_for_pyt.Header
use aspose_note_foss_for_pyt.TxnLog.{parse_transaction_log}
use aspose_note_foss_for_pyt.FileNodeTypes.Checks.{on_bytes}
use aspose_note_foss_for_pyt.FileNodeTypes.Manifests.{
  ObjectSpaceManifestListReferenceFnd, ObjectSpaceManifestListStartFnd,
  RevisionManifestListReferenceFnd, RevisionManifestListStartFnd,
}
use aspose_note_foss_for_pyt.FileNodeTypes.Root.{
  RootFileNodeListManifests, build_root_file_node_list_manifests, same_guid,
}
use aspose_note_foss_for_pyt.FileNodeTypes.Typed.{
  KnownFileNodeType, TypedFileNode, object_space_manifest_list_start_fnd,
  revision_manifest_list_reference_fnd, revision_manifest_list_start_fnd,
}
use aspose_note_foss_for_pyt.ObjectSpace.Summaries.{
  ObjectSpaceSummary, OneStoreObjectSpacesSummary, RevisionSummary, ObjectSpaceRevisionsSummary,
  OneStoreObjectSpacesWithRevisions,
}
use aspose_note_foss_for_pyt.ObjectSpace.Lists.{as_fcr64x32, nodes_at, require_first_typed_node}
use aspose_note_foss_for_pyt.ObjectSpace.Revisions.{parse_revision_manifest_list_revisions}

-- Header.parse and parse_transaction_log, each on a reader of its own
unfoldable pub parse_log : ℕ → List ℕ → M (Header.Header × Dict ℕ)
parse_log fuel contents = do
  header ← on_bytes contents Header.parse
  last_count_by_list_id ← on_bytes contents (parse_transaction_log fuel header)
  pure (header, last_count_by_list_id)

unfoldable pub parse_root : ℕ → List ℕ → M (RootFileNodeListManifests × Dict ℕ)
parse_root fuel contents = do
  (header, last_count_by_list_id) ← parse_log fuel contents
  root_typed ← nodes_at contents header.fcr_file_node_list_root last_count_by_list_id
  manifests ← build_root_file_node_list_manifests root_typed
  pure (manifests, last_count_by_list_id)

unfoldable pub as_manifest_list_start : KnownFileNodeType → Option ObjectSpaceManifestListStartFnd
as_manifest_list_start (object_space_manifest_list_start_fnd x) = some x
as_manifest_list_start _ = none

unfoldable pub as_revision_list_start : KnownFileNodeType → Option RevisionManifestListStartFnd
as_revision_list_start (revision_manifest_list_start_fnd x) = some x
as_revision_list_start _ = none

-- rev_refs
unfoldable pub as_revision_list_ref :
    Option KnownFileNodeType → List RevisionManifestListReferenceFnd
as_revision_list_ref (some (revision_manifest_list_reference_fnd x)) = x ∷ []
as_revision_list_ref _ = []

unfoldable pub revision_list_refs : List TypedFileNode → List RevisionManifestListReferenceFnd
revision_list_refs [] = []
revision_list_refs (tn ∷ nodes) = as_revision_list_ref tn.typed ++ revision_list_refs nodes

-- rev_refs[-1], where `r` comes before `refs`
unfoldable pub last_of :
    RevisionManifestListReferenceFnd
    → List RevisionManifestListReferenceFnd
    → RevisionManifestListReferenceFnd
last_of r [] = r
last_of r (q ∷ refs) = last_of q refs

unfoldable pub last_revision_ref :
    List RevisionManifestListReferenceFnd → ℕ → M RevisionManifestListReferenceFnd
last_revision_ref [] offset = raise (
    format_error
      "Object space manifest list MUST contain at least one RevisionManifestListReferenceFND"
      (some offset))
last_revision_ref (r ∷ refs) offset = pure (last_of r refs)

-- the reference to the revision manifest list of an object space, and the nodes of that list
unfoldable pub open_object_space :
    List ℕ
    → Dict ℕ
    → ObjectSpaceManifestListReferenceFnd
    → M (FileNodeChunkReference × List TypedFileNode)
open_object_space contents counts os_ref = do
  c ← the_context
  manifest_list_fcr ← as_fcr64x32 os_ref.ref none
  os_nodes ← nodes_at contents manifest_list_fcr counts
  (start, offset) ←
      require_first_typed_node as_manifest_list_start os_nodes
        "Object space manifest list MUST start with ObjectSpaceManifestListStartFND"
        (some manifest_list_fcr.stp)
  raise_if (c.strict && not (same_guid start.gosid os_ref.gosid)) (
      format_error
        "ObjectSpaceManifestListStartFND.gosid MUST match the referring ObjectSpaceManifestListReferenceFND.gosid"
        (some offset))
  last_rev_ref ← last_revision_ref (revision_list_refs os_nodes) manifest_list_fcr.stp
  rev_list_fcr ← as_fcr64x32 last_rev_ref.ref none
  rev_nodes ← nodes_at contents rev_list_fcr counts
  (rev_start, rev_offset) ←
      require_first_typed_node as_revision_list_start rev_nodes
        "Revision manifest list MUST start with RevisionManifestListStartFND"
        (some rev_list_fcr.stp)
  raise_if (c.strict && not (same_guid rev_start.gosid os_ref.gosid)) (
      format_error "RevisionManifestListStartFND.gosid MUST match object space gosid"
        (some rev_offset))
  pure (last_rev_ref.ref, rev_nodes)

-- the loops over the object spaces
unfoldable pub for_each {ℓ κ} : {A : Type ℓ} {B : Type κ} → (A → M B) → List A → M (List B)
for_each f [] = pure []
for_each f (x ∷ xs) = do y ← f x; ys ← for_each f xs; pure (y ∷ ys)

unfoldable pub summarise :
    List ℕ → Dict ℕ → ObjectSpaceManifestListReferenceFnd → M ObjectSpaceSummary
summarise contents counts os_ref = do
  (rev_ref, nodes) ← open_object_space contents counts os_ref
  pure (record {
    gosid = os_ref.gosid;
    manifest_list_ref = os_ref.ref;
    revision_manifest_list_ref = rev_ref;
  })

unfoldable pub parse_object_spaces_summary : ℕ → List ℕ → M OneStoreObjectSpacesSummary
parse_object_spaces_summary fuel contents = do
  (manifests, counts) ← parse_root fuel contents
  object_spaces ← for_each (summarise contents counts) manifests.object_space_refs
  pure (record { root_gosid = manifests.root.gosid_root; object_spaces = object_spaces })

unfoldable pub any_marker : List RevisionSummary → Bool
any_marker [] = false
any_marker (r ∷ revisions) = r.has_encryption_marker || any_marker revisions

-- whether the list `missing` is not empty
unfoldable pub some_missing : List RevisionSummary → Bool
some_missing [] = false
some_missing (r ∷ revisions) = not r.has_encryption_marker || some_missing revisions

-- equality of two references, field by field
unfoldable pub same_ref : FileNodeChunkReference → FileNodeChunkReference → Bool
same_ref a b =
    a.stp_format == b.stp_format
    && a.cb_format == b.cb_format
    && a.raw_stp == b.raw_stp
    && a.raw_cb == b.raw_cb
    && a.stp == b.stp
    && a.cb == b.cb

unfoldable pub key_refs : List RevisionSummary → List FileNodeChunkReference
key_refs [] = []
key_refs (r ∷ revisions) = elim r.encryption_key_ref [
  | none ↦ key_refs revisions
  | some ref ↦ ref ∷ key_refs revisions
]

unfoldable pub all_same_as : FileNodeChunkReference → List FileNodeChunkReference → Bool
all_same_as ref [] = true
all_same_as ref (q ∷ refs) = same_ref ref q && all_same_as ref refs

-- whether the set of the references has more than one
unfoldable pub differ : List FileNodeChunkReference → Bool
differ [] = false
differ (ref ∷ refs) = not (all_same_as ref refs)

unfoldable pub check_markers : List RevisionSummary → M (Unit {0})
check_markers revisions = do
  violation_if (any_marker revisions && some_missing revisions)
      "If any revision manifest in an object space is encrypted, all manifests MUST include the encryption marker"
      (some 0)
  warn_if (any_marker revisions && differ (key_refs revisions))
      "Encryption key reference differs across revision manifests in the same object space" (some 0)

unfoldable pub with_revisions :
    List ℕ → Dict ℕ → ObjectSpaceManifestListReferenceFnd → M ObjectSpaceRevisionsSummary
with_revisions contents counts os_ref = do
  (rev_ref, nodes) ← open_object_space contents counts os_ref
  (revisions, assignments) ← parse_revision_manifest_list_revisions contents nodes counts
  check_markers revisions
  pure (record {
    gosid = os_ref.gosid;
    manifest_list_ref = os_ref.ref;
    revision_manifest_list_ref = rev_ref;
    revisions = revisions;
    role_assignments = assignments;
  })

unfoldable pub parse_object_spaces_with_revisions : ℕ → List ℕ → M OneStoreObjectSpacesWithRevisions
parse_object_spaces_with_revisions fuel contents = do
  (manifests, counts) ← parse_root fuel contents
  object_spaces ← for_each (with_revisions contents counts) manifests.object_space_refs
  pure (record { root_gosid = manifests.root.gosid_root; object_spaces = object_spaces })
