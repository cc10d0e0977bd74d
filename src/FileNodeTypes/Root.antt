-- ===== src/FileNodeTypes/Root.antt =====
-- build_root_file_node_list_manifests of onestore/file_node_types.py: what the root file node list
-- says of the object spaces.
use aspose_note_foss_for_pyt.Prelude.{
  ℕ, Bool, true, false, not, ◌&&◌, ◌||◌, Option, none, some, List, [], ◌∷◌, ◌==◌, bytes_eq,
}
use aspose_note_foss_for_pyt.Context.{format_error}
use aspose_note_foss_for_pyt.Parser.{M, pure, raise, raise_if, the_context, ◌>>=◌, ◌>>◌}
use aspose_note_foss_for_pyt.CommonTypes.ExtendedGuid.{ExtendedGuid}
use aspose_note_foss_for_pyt.FileNodeTypes.Manifests.{
  ObjectSpaceManifestRootFnd, ObjectSpaceManifestListReferenceFnd, FileDataStoreListReferenceFnd,
}
use aspose_note_foss_for_pyt.FileNodeTypes.Typed.{
  KnownFileNodeType, TypedFileNode, object_space_manifest_root_fnd,
  object_space_manifest_list_reference_fnd, file_data_store_list_reference_fnd,
}

pub record RootFileNodeListManifests : Type 0 where
  pub root : ObjectSpaceManifestRootFnd
  pub object_space_refs : List ObjectSpaceManifestListReferenceFnd
  pub file_data_store_list_ref : Option FileDataStoreListReferenceFnd

-- the three lists of the loop, each with the offsets of its nodes
pub record RootNodes : Type 0 where
  pub roots : List (ObjectSpaceManifestRootFnd × ℕ)
  pub refs : List (ObjectSpaceManifestListReferenceFnd × ℕ)
  pub file_data_refs : List (FileDataStoreListReferenceFnd × ℕ)

abbrev pub no_root_nodes : RootNodes
no_root_nodes = record { roots = []; refs = []; file_data_refs = [] }

-- ids of allowed_ids_strict
unfoldable pub is_allowed : ℕ → Bool
is_allowed id = id == 0x004 || id == 0x008 || id == 0x090

-- one of the three types of the branches
unfoldable pub is_root_type : Option KnownFileNodeType → Bool
is_root_type (some (object_space_manifest_root_fnd x)) = true
is_root_type (some (object_space_manifest_list_reference_fnd x)) = true
is_root_type (some (file_data_store_list_reference_fnd x)) = true
is_root_type _ = false

unfoldable pub add_node : Option KnownFileNodeType → ℕ → RootNodes → RootNodes
add_node (some (object_space_manifest_root_fnd x)) off ns = record ns {
  roots = (x, off) ∷ ns.roots;
}
add_node (some (object_space_manifest_list_reference_fnd x)) off ns = record ns {
  refs = (x, off) ∷ ns.refs;
}
add_node (some (file_data_store_list_reference_fnd x)) off ns = record ns {
  file_data_refs = (x, off) ∷ ns.file_data_refs;
}
add_node _ off ns = ns

-- for tn in typed_nodes
unfoldable pub collect : List TypedFileNode → M RootNodes
collect [] = pure no_root_nodes
collect (tn ∷ typed_nodes) = do
  c ← the_context
  raise_if (c.strict && not (is_allowed tn.node.header.file_node_id)) (
      format_error "Root file node list MUST contain only 0x004/0x008/0x090 FileNodeIDs"
        (some tn.node.header.offset))
  raise_if (not (is_root_type tn.typed) && (c.strict && is_allowed tn.node.header.file_node_id)) (
      format_error "Root file node list FileNodeID could not be parsed"
        (some tn.node.header.offset))
  ns ← collect typed_nodes
  pure (add_node tn.typed tn.node.header.offset ns)

unfoldable pub first_offset : List TypedFileNode → ℕ
first_offset [] = 0
first_offset (tn ∷ _) = tn.node.header.offset

-- the only root, with its offset
unfoldable pub only_root :
    List TypedFileNode → List (ObjectSpaceManifestRootFnd × ℕ) → M (ObjectSpaceManifestRootFnd × ℕ)
only_root typed_nodes (r ∷ []) = pure r
only_root typed_nodes _ = raise (
    format_error "Root file node list MUST contain exactly one ObjectSpaceManifestRootFND"
      (some (first_offset typed_nodes)))

unfoldable pub require_refs :
    List TypedFileNode → List (ObjectSpaceManifestListReferenceFnd × ℕ) → M (Unit {0})
require_refs typed_nodes [] = raise (
    format_error "Root file node list MUST contain at least one ObjectSpaceManifestListReferenceFND"
      (some (first_offset typed_nodes)))
require_refs typed_nodes (_ ∷ _) = pure tt

-- the file data reference, where there is one
unfoldable pub at_most_one :
    List (FileDataStoreListReferenceFnd × ℕ) → M (Option FileDataStoreListReferenceFnd)
at_most_one [] = pure none
at_most_one ((r, _) ∷ []) = pure (some r)
at_most_one (_ ∷ (_, off) ∷ _) = raise (
    format_error "Root file node list MUST contain zero or one FileDataStoreListReferenceFND"
      (some off))

unfoldable pub same_guid : ExtendedGuid → ExtendedGuid → Bool
same_guid a b = bytes_eq a.guid b.guid && a.n == b.n

unfoldable pub has_guid : List ExtendedGuid → ExtendedGuid → Bool
has_guid [] g = false
has_guid (h ∷ hs) g = same_guid h g || has_guid hs g

-- for r, off in refs, with the set of the ids seen
unfoldable pub check_unique :
    List ExtendedGuid → List (ObjectSpaceManifestListReferenceFnd × ℕ) → M (Unit {0})
check_unique seen [] = pure tt
check_unique seen ((r, off) ∷ refs) = do
  raise_if (has_guid seen r.gosid)
      (format_error "ObjectSpaceManifestListReferenceFND.gosid MUST be unique" (some off))
  check_unique (r.gosid ∷ seen) refs

unfoldable pub refs_only :
    List (ObjectSpaceManifestListReferenceFnd × ℕ) → List ObjectSpaceManifestListReferenceFnd
refs_only [] = []
refs_only ((r, _) ∷ refs) = r ∷ refs_only refs

-- any(r.gosid == root.gosid_root for r, _ in refs)
unfoldable pub some_ref_has : List (ObjectSpaceManifestListReferenceFnd × ℕ) → ExtendedGuid → Bool
some_ref_has [] g = false
some_ref_has ((r, _) ∷ refs) g = same_guid r.gosid g || some_ref_has refs g

unfoldable pub build_root_file_node_list_manifests :
    List TypedFileNode → M RootFileNodeListManifests
build_root_file_node_list_manifests typed_nodes = do
  ns ← collect typed_nodes
  (root, root_off) ← only_root typed_nodes ns.roots
  require_refs typed_nodes ns.refs
  file_data_ref ← at_most_one ns.file_data_refs
  check_unique [] ns.refs
  raise_if (not (some_ref_has ns.refs root.gosid_root)) (
      format_error
        "ObjectSpaceManifestRootFND.gosidRoot MUST match one of ObjectSpaceManifestListReferenceFND.gosid"
        (some root_off))
  pure (record {
    root = root;
    object_space_refs = refs_only ns.refs;
    file_data_store_list_ref = file_data_ref;
  })
