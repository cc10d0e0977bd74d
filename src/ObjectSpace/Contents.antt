-- ===== src/ObjectSpace/Contents.antt =====
-- _parse_revision_manifest_content of onestore/object_space.py: what a revision manifest holds.
use aspose_note_foss_for_pyt.Prelude.{
  ℕ, zero, suc, ◌+◌, Bool, true, false, not, Option, none, some, List, [], ◌∷◌, ◌++◌, length,
}
use aspose_note_foss_for_pyt.Dict.{Dict}
use aspose_note_foss_for_pyt.Context.{format_error}
use aspose_note_foss_for_pyt.Parser.{
  M, out_of_fuel, pure, raise_if, violation_if, warn_if, ◌>>=◌, ◌>>◌,
}
use aspose_note_foss_for_pyt.CommonTypes.ExtendedGuid.{ExtendedGuid}
use aspose_note_foss_for_pyt.FileNodeTypes.GlobalIdTable.{RootObjectReference2Fndx}
use aspose_note_foss_for_pyt.FileNodeTypes.Groups.{
  ObjectGroupListReferenceFnd, RootObjectReference3Fnd,
}
use aspose_note_foss_for_pyt.FileNodeTypes.Typed.{
  KnownFileNodeType, TypedFileNode, contains, object_info_dependency_overrides_fnd,
  data_signature_group_definition_fnd, object_group_list_reference_fnd, global_id_table_start_fndx,
  global_id_table_start2_fnd, root_object_reference2_fndx, root_object_reference3_fnd,
}
use aspose_note_foss_for_pyt.ObjectSpace.Sequences.{
  GlobalIdTableStart, start_fndx, start2_fnd, parse_global_id_table_sequence,
}
use aspose_note_foss_for_pyt.ObjectSpace.Summaries.{
  Change, RootObject, root_object2, root_object3, root_role, RevisionManifestContentSummary,
  as_change, zero_eg,
}
use aspose_note_foss_for_pyt.ObjectSpace.Lists.{parse_object_group_list}

pub data StartKind : Type 0 where
  onetoc2 : StartKind
  one : StartKind

unfoldable pub is_onetoc2 : StartKind → Bool
is_onetoc2 onetoc2 = true
is_onetoc2 one = false

-- the type tests on a node; the encryption marker and other types are passed over
pub data ContentNode : Type 0 where
  passed : ContentNode
  overrides : ContentNode
  new_signature : ExtendedGuid → ContentNode
  group_ref : ObjectGroupListReferenceFnd → ContentNode
  gid_start : GlobalIdTableStart → ContentNode
  root3 : RootObjectReference3Fnd → ContentNode
  root2 : RootObjectReference2Fndx → ContentNode
  inline_change : Change → ContentNode

unfoldable pub change_or_passed : Option Change → ContentNode
change_or_passed none = passed
change_or_passed (some change) = inline_change change

unfoldable pub content_node : Option KnownFileNodeType → ContentNode
content_node none = passed
content_node (some (object_info_dependency_overrides_fnd x)) = overrides
content_node (some (data_signature_group_definition_fnd x)) = new_signature x.data_signature_group
content_node (some (object_group_list_reference_fnd x)) = group_ref x
content_node (some (global_id_table_start_fndx x)) = gid_start (start_fndx x)
content_node (some (global_id_table_start2_fnd x)) = gid_start start2_fnd
content_node (some (root_object_reference3_fnd x)) = root3 x
content_node (some (root_object_reference2_fndx x)) = root2 x
content_node (some t) = change_or_passed (as_change t)

-- the variables of the loop; `is_pre`: the phase is "pre"
pub record Content : Type 0 where
  pub summary : RevisionManifestContentSummary
  pub current_sig : ExtendedGuid
  pub is_pre : Bool

abbrev pub no_content : Content
no_content = record {
  summary = record {
    object_groups = [];
    global_id_table = none;
    root_objects = [];
    override_nodes = 0;
    inline_changes = [];
  };
  current_sig = zero_eg;
  is_pre = true;
}

unfoldable pub has_table : Content → Bool
has_table c = elim c.summary.global_id_table [ none ↦ false | some _ ↦ true ]

unfoldable pub is_overrides : ContentNode → Bool
is_overrides overrides = true
is_overrides _ = false

unfoldable pub starts_with_overrides : List TypedFileNode → Bool
starts_with_overrides [] = false
starts_with_overrides (tn ∷ nodes) = is_overrides (content_node tn.typed)

unfoldable pub behind : List TypedFileNode → List TypedFileNode
behind [] = []
behind (tn ∷ nodes) = nodes

-- the branch of a reference to an object group list
unfoldable pub add_group :
    List ℕ
    → StartKind
    → Dict ℕ
    → ObjectGroupListReferenceFnd
    → ℕ
    → List TypedFileNode
    → Content
    → M (Content × List TypedFileNode)
add_group contents start_kind counts t offset nodes c = do
  raise_if (is_onetoc2 start_kind) (
      format_error "ObjectGroupListReferenceFND is only expected in .one revision manifests"
        (some offset))
  raise_if (not c.is_pre) (
      format_error
        "Object group sequences MUST appear before the global id table and before root refs"
        (some offset))
  raise_if (not (starts_with_overrides nodes)) (
      format_error
        "ObjectGroupListReferenceFND MUST be immediately followed by ObjectInfoDependencyOverridesFND"
        (some offset))
  grp ← parse_object_group_list contents t.ref t.object_group_id counts
  pure (
    record c {
      summary = record c.summary {
        object_groups = c.summary.object_groups ++ (grp ∷ []);
        override_nodes = c.summary.override_nodes + 1;
      };
    },
    behind nodes,
  )

-- the branch of a global id table
unfoldable pub add_table :
    GlobalIdTableStart → ℕ → List TypedFileNode → Content → M (Content × List TypedFileNode)
add_table start_t offset nodes c = do
  raise_if (has_table c) (
      format_error "Revision manifest MUST contain at most one global id table sequence"
        (some offset))
  raise_if (not c.is_pre) (
      format_error "Global id table sequence MUST appear before root refs and object declarations"
        (some offset))
  (seq, rest) ← parse_global_id_table_sequence start_t offset nodes
  pure
      (record c { summary = record c.summary { global_id_table = some seq }; is_pre = false }, rest)

unfoldable pub with_root : RootObject → Content → Content
with_root ro c = record c {
  summary = record c.summary { root_objects = c.summary.root_objects ++ (ro ∷ []) };
}

unfoldable pub add_root3 : StartKind → RootObjectReference3Fnd → ℕ → Content → M Content
add_root3 start_kind t offset c = do
  raise_if (is_onetoc2 start_kind) (
      format_error "RootObjectReference3FND is not expected in .onetoc2 revision manifests"
        (some offset))
  pure (record (with_root (root_object3 t) c) { is_pre = false })

unfoldable pub add_root2 : StartKind → RootObjectReference2Fndx → ℕ → Content → M Content
add_root2 start_kind t offset c = do
  raise_if (not (is_onetoc2 start_kind)) (
      format_error "RootObjectReference2FNDX is only expected in .onetoc2 revision manifests"
        (some offset))
  violation_if (has_table c) "RootObjectReference2FNDX appeared after the global id table"
      (some offset)
  pure (with_root (root_object2 t) c)

unfoldable pub add_change : StartKind → Change → ℕ → Content → M Content
add_change start_kind change offset c = do
  warn_if (not (is_onetoc2 start_kind))
      "Object declaration/revision node encountered inline in a .one revision manifest"
      (some offset)
  violation_if (not (has_table c))
      "Object declarations/revisions MUST follow the global id table sequence" (some offset)
  pure (record c {
    summary = record c.summary {
      inline_changes =
          c.summary.inline_changes
          ++ (record { data_signature_group = c.current_sig; change = change } ∷ []);
    };
    is_pre = false;
  })

-- a branch that takes one node
unfoldable pub one_node : List TypedFileNode → M Content → M (Content × List TypedFileNode)
one_node nodes m = do c ← m; pure (c, nodes)

-- the body of the loop: a node and the nodes behind it
unfoldable pub content_step :
    List ℕ
    → StartKind
    → Dict ℕ
    → TypedFileNode
    → List TypedFileNode
    → Content
    → M (Content × List TypedFileNode)
content_step contents start_kind counts tn nodes c =
    let offset = tn.node.header.offset in
    elim (content_node tn.typed) [
      | passed ↦ pure (c, nodes)
      | overrides ↦ pure (
        record c { summary = record c.summary { override_nodes = c.summary.override_nodes + 1 } },
        nodes,
      )
      | new_signature sig ↦ pure (record c { current_sig = sig }, nodes)
      | group_ref t ↦ add_group contents start_kind counts t offset nodes c
      | gid_start start_t ↦ add_table start_t offset nodes c
      | root3 t ↦ one_node nodes (add_root3 start_kind t offset c)
      | root2 t ↦ one_node nodes (add_root2 start_kind t offset c)
      | inline_change change ↦ one_node nodes (add_change start_kind change offset c)
    ]

-- the loop; fuel: the number of nodes
unfoldable pub content_loop :
    ℕ → List ℕ → StartKind → Dict ℕ → List TypedFileNode → Content → M Content
content_loop fuel contents start_kind counts [] c = pure c
content_loop zero contents start_kind counts (tn ∷ nodes) c = out_of_fuel
content_loop (suc fuel) contents start_kind counts (tn ∷ nodes) c = do
  (c', rest) ← content_step contents start_kind counts tn nodes c
  content_loop fuel contents start_kind counts rest c'

-- the roles of root objects, with those seen
unfoldable pub check_roles : List ℕ → List RootObject → M (Unit {0})
check_roles seen [] = pure tt
check_roles seen (ro ∷ root_objects) = do
  violation_if (contains seen (root_role ro))
      "RootRole MUST NOT appear more than once within a revision manifest" (some 0)
  check_roles (root_role ro ∷ seen) root_objects

unfoldable pub parse_revision_manifest_content :
    List ℕ → List TypedFileNode → StartKind → Dict ℕ → M RevisionManifestContentSummary
parse_revision_manifest_content contents manifest_nodes start_kind last_count_by_list_id = do
  c ←
      content_loop (length manifest_nodes) contents start_kind last_count_by_list_id manifest_nodes
        no_content
  check_roles [] c.summary.root_objects
  pure c.summary
