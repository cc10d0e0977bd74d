-- ===== src/ObjectSpace/Lists.antt =====
-- The lists that onestore/object_space.py opens from the whole file, and the object group lists. The
-- reader of every call is a new one over the file.
use aspose_note_foss_for_pyt.Prelude.{
  ℕ, Bool, true, false, not, ◌&&◌, ◌||◌, Option, none, some, List, [], ◌∷◌, ◌==◌, ltb, String, zero,
  suc, length, if◌then◌else◌,
}
use aspose_note_foss_for_pyt.Dict.{Dict}
use aspose_note_foss_for_pyt.Context.{format_error}
use aspose_note_foss_for_pyt.Parser.{
  M, out_of_fuel, pure, raise, raise_if, violation_if, ◌>>=◌, ◌>>◌,
}
use aspose_note_foss_for_pyt.CommonTypes.ExtendedGuid.{ExtendedGuid}
use aspose_note_foss_for_pyt.ChunkRefs.Fcr64x32.{FileChunkReference64x32}
use aspose_note_foss_for_pyt.ChunkRefs.Node.{FileNodeChunkReference}
use aspose_note_foss_for_pyt.FileNodeTypes.Checks.{on_bytes}
use aspose_note_foss_for_pyt.FileNodeTypes.Groups.{ObjectGroupStartFnd}
use aspose_note_foss_for_pyt.FileNodeTypes.Root.{same_guid}
use aspose_note_foss_for_pyt.FileNodeTypes.Typed.{
  KnownFileNodeType, TypedFileNode, object_group_start_fnd, object_group_end_fnd,
  data_signature_group_definition_fnd,
}
use aspose_note_foss_for_pyt.FileNodeList.{parse_file_node_list_typed_nodes}
use aspose_note_foss_for_pyt.ObjectSpace.Sequences.{
  sequence_node, table_start, parse_global_id_table_sequence,
}
use aspose_note_foss_for_pyt.ObjectSpace.Gids.{
  build_gid_table_from_sequence, resolve_compact_id_to_extended_guid,
}
use aspose_note_foss_for_pyt.ObjectSpace.Summaries.{
  ObjectChangeSummary, ObjectGroupSummary, as_change, compact_id_of_change, zero_eg,
}

unfoldable pub as_fcr64x32 : FileNodeChunkReference → Option ℕ → M FileChunkReference64x32
as_fcr64x32 ref offset = do
  raise_if (ltb 0xFFFFFFFFFFFFFFFF ref.stp)
      (format_error "FileNodeChunkReference.stp is out of range" offset)
  raise_if (ltb 0xFFFFFFFF ref.cb)
      (format_error "FileNodeChunkReference.cb is out of range for FileChunkReference64x32" offset)
  pure (record { stp = ref.stp; cb = ref.cb })

-- parse_file_node_list_typed_nodes(BinaryReader(data), …).nodes
unfoldable pub nodes_at : List ℕ → FileChunkReference64x32 → Dict ℕ → M (List TypedFileNode)
nodes_at contents first last_count_by_list_id = do
  out ← on_bytes contents (parse_file_node_list_typed_nodes first (some last_count_by_list_id))
  pure out.nodes

-- what the first node is, with its offset; `as_expected` is the test on its type
unfoldable pub require_first_typed_node :
    {A : Type 0}
    → (KnownFileNodeType → Option A)
    → List TypedFileNode
    → String
    → Option ℕ
    → M (A × ℕ)
require_first_typed_node as_expected [] message offset = raise (format_error message offset)
require_first_typed_node as_expected (tn ∷ _) message offset =
    let offset' = tn.node.header.offset in
    let wrong = raise (format_error message (some offset')) in
    elim tn.typed [
      | none ↦ wrong
      | some typed ↦ elim (as_expected typed) [ none ↦ wrong | some x ↦ pure (x, offset') ]
    ]

unfoldable pub is_nil_ref : FileNodeChunkReference → Bool
is_nil_ref ref =
    ref.cb == 0 && (ref.stp == 0 || ref.stp == 0xFFFFFFFF || ref.stp == 0xFFFFFFFFFFFFFFFF)

unfoldable pub as_group_start : KnownFileNodeType → Option ObjectGroupStartFnd
as_group_start (object_group_start_fnd x) = some x
as_group_start _ = none

-- the type tests on a node of an object group list
pub data GroupNode : Type 0 where
  signature : ExtendedGuid → GroupNode
  group_end : GroupNode
  group_other : GroupNode

unfoldable pub group_node : KnownFileNodeType → GroupNode
group_node (data_signature_group_definition_fnd x) = signature x.data_signature_group
group_node (object_group_end_fnd x) = group_end
group_node _ = group_other

-- the loop: the changes, and whether there was an end
unfoldable pub group_changes : ExtendedGuid → List TypedFileNode → List ObjectChangeSummary × Bool
group_changes current_sig [] = ([], false)
group_changes current_sig (tn ∷ nodes) =
    let rest = group_changes current_sig nodes in
    elim tn.typed [
      | none ↦ rest
      | some t ↦ elim (group_node t) [
        | signature sig ↦ group_changes sig nodes
        | group_end ↦ ([], true)
        | group_other ↦ elim (as_change t) [
          | none ↦ rest
          | some change ↦
              (record { data_signature_group = current_sig; change = change } ∷ rest.0, rest.1)
        ]
      ]
    ]

unfoldable pub behind_first : List TypedFileNode → List TypedFileNode
behind_first [] = []
behind_first (_ ∷ nodes) = nodes

-- the message of the warning in the other mode is another one
unfoldable pub check_group_id : ExtendedGuid → ExtendedGuid → ℕ → M (Unit {0})
check_group_id oid object_group_id offset s =
    let differs = not (same_guid oid object_group_id) in
    violation_if differs
      (if s.ctx.strict
        then "ObjectGroupStartFND.oid MUST match the referring ObjectGroupListReferenceFND.ObjectGroupID"
        else "ObjectGroupStartFND.oid does not match ObjectGroupListReferenceFND.ObjectGroupID")
      (some offset) s

unfoldable pub parse_object_group_list :
    List ℕ → FileNodeChunkReference → ExtendedGuid → Dict ℕ → M ObjectGroupSummary
parse_object_group_list contents ref object_group_id last_count_by_list_id = do
  raise_if (is_nil_ref ref)
      (format_error "ObjectGroupListReferenceFND ref MUST NOT be fcrNil" (some 0))
  group_list_fcr ← as_fcr64x32 ref none
  nodes ← nodes_at contents group_list_fcr last_count_by_list_id
  (start, offset) ←
      require_first_typed_node as_group_start nodes
        "Object group list MUST start with ObjectGroupStartFND" (some group_list_fcr.stp)
  check_group_id start.oid object_group_id offset
  let (changes, has_end) = group_changes zero_eg (behind_first nodes)
  pure (record {
    object_group_id = object_group_id;
    ref = ref;
    start_oid = start.oid;
    changes = changes;
    has_end = has_end;
  })

-- the loop over the nodes, where `initial` is the table of the revision; fuel: the number of nodes
unfoldable pub resolve_nodes :
    ℕ → Option (Dict (List ℕ)) → Option (Dict (List ℕ)) → List TypedFileNode → M (List ExtendedGuid)
resolve_nodes fuel initial current [] = pure []
resolve_nodes zero initial current (tn ∷ nodes) = out_of_fuel
resolve_nodes (suc fuel) initial current (tn ∷ nodes) =
    let offset = tn.node.header.offset in
    let rest = resolve_nodes fuel initial current nodes in
    let go_on : M (List ExtendedGuid) = elim tn.typed [
      | none ↦ rest
      | some t ↦ elim (group_node t) [
        | group_end ↦ pure []
        | _ ↦ elim (as_change t) [
          | none ↦ rest
          | some change ↦ do
            oid ← resolve_compact_id_to_extended_guid (compact_id_of_change change) current none
            oids ← resolve_nodes fuel initial current nodes
            pure (oid ∷ oids)
        ]
      ]
    ] in
    elim (sequence_node tn.typed) [
      | table_start start_t ↦ do
        (seq, behind) ← parse_global_id_table_sequence start_t offset nodes
        table ← build_gid_table_from_sequence seq initial (some offset)
        resolve_nodes fuel initial (some table) behind
      | _ ↦ go_on
    ]

unfoldable pub resolve_oids_in_object_group_list :
    List ℕ → FileNodeChunkReference → Option (Dict (List ℕ)) → Dict ℕ → M (List ExtendedGuid)
resolve_oids_in_object_group_list contents ref initial_table last_count_by_list_id = do
  raise_if (is_nil_ref ref)
      (format_error "ObjectGroupListReferenceFND ref MUST NOT be fcrNil" (some 0))
  group_list_fcr ← as_fcr64x32 ref none
  nodes ← nodes_at contents group_list_fcr last_count_by_list_id
  resolve_nodes (length nodes) initial_table initial_table nodes
