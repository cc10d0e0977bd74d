-- ===== src/ObjectSpace/Revisions.antt =====
-- _parse_revision_manifest_list_revisions of onestore/object_space.py: the revisions of a list, one
-- after the other, and the roles that are assigned to them. The map from ids to positions, which is
-- written and never read, is left out.
use aspose_note_foss_for_pyt.Prelude.{
  ℕ, ◌+◌, Bool, true, false, not, ◌&&◌, ◌||◌, Option, none, some, List, [], ◌∷◌, ◌++◌, ◌==◌,
  if◌then◌else◌,
}
use aspose_note_foss_for_pyt.Dict.{Dict}
use aspose_note_foss_for_pyt.Context.{format_error}
use aspose_note_foss_for_pyt.Parser.{M, pure, raise, raise_if, warn, warn_if, ◌>>=◌, ◌>>◌}
use aspose_note_foss_for_pyt.CommonTypes.ExtendedGuid
use aspose_note_foss_for_pyt.CommonTypes.ExtendedGuid.{ExtendedGuid}
use aspose_note_foss_for_pyt.ChunkRefs.Node.{FileNodeChunkReference}
use aspose_note_foss_for_pyt.FileNodeTypes.Root.{same_guid, has_guid}
use aspose_note_foss_for_pyt.FileNodeTypes.Typed.{
  KnownFileNodeType, TypedFileNode, revision_manifest_list_start_fnd, revision_manifest_start4_fnd,
  revision_manifest_start6_fnd, revision_manifest_start7_fnd, revision_manifest_end_fnd,
  revision_role_declaration_fnd, revision_role_and_context_declaration_fnd,
  object_data_encryption_key_v2_fndx,
}
use aspose_note_foss_for_pyt.ObjectSpace.Sequences.{last_offset}
use aspose_note_foss_for_pyt.ObjectSpace.Summaries.{
  RevisionRoleContextPair, RevisionSummary, zero_eg, eg_less, pair_less, both_less, sorted,
}
use aspose_note_foss_for_pyt.ObjectSpace.Contents.{
  StartKind, onetoc2, one, parse_revision_manifest_content,
}

-- DEFAULT_CONTEXT_GCTXID
abbrev pub default_context_gctxid : ExtendedGuid
default_context_gctxid = zero_eg

-- what the three kinds of starts say
pub record RevisionStart : Type 0 where
  pub rid : ExtendedGuid
  pub rid_dependent : ExtendedGuid
  pub gctxid : ExtendedGuid
  pub revision_role : ℕ
  pub odcs_default : ℕ
  pub kind : StartKind

-- the type tests on a node of the list
pub data RevisionNode : Type 0 where
  starts : RevisionStart → RevisionNode
  ends : RevisionNode
  declares_role : RevisionRoleContextPair → ExtendedGuid → Bool → RevisionNode
  encryption_key : FileNodeChunkReference → RevisionNode
  other : RevisionNode

unfoldable pub revision_node : Option KnownFileNodeType → RevisionNode
revision_node (some (revision_manifest_start4_fnd x)) = starts (record {
  rid = x.rid;
  rid_dependent = x.rid_dependent;
  gctxid = default_context_gctxid;
  revision_role = x.revision_role;
  odcs_default = x.odcs_default;
  kind = onetoc2;
})
revision_node (some (revision_manifest_start6_fnd x)) = starts (record {
  rid = x.rid;
  rid_dependent = x.rid_dependent;
  gctxid = default_context_gctxid;
  revision_role = x.revision_role;
  odcs_default = x.odcs_default;
  kind = one;
})
revision_node (some (revision_manifest_start7_fnd x)) = starts (record {
  rid = x.base.rid;
  rid_dependent = x.base.rid_dependent;
  gctxid = x.gctxid;
  revision_role = x.base.revision_role;
  odcs_default = x.base.odcs_default;
  kind = one;
})
revision_node (some (revision_manifest_end_fnd x)) = ends
revision_node (some (revision_role_declaration_fnd x)) =
    declares_role (record { gctxid = default_context_gctxid; revision_role = x.revision_role })
      x.rid false
revision_node (some (revision_role_and_context_declaration_fnd x)) =
    declares_role (record { gctxid = x.gctxid; revision_role = x.revision_role }) x.rid true
revision_node (some (object_data_encryption_key_v2_fndx x)) = encryption_key x.ref
revision_node _ = other

-- role_assignments
abbrev pub Assignments : Type 0
Assignments = List (RevisionRoleContextPair × ExtendedGuid)

unfoldable pub same_pair : RevisionRoleContextPair → RevisionRoleContextPair → Bool
same_pair a b = same_guid a.gctxid b.gctxid && a.revision_role == b.revision_role

-- role_assignments[key] = rid: in the place of the key, or at the end
unfoldable pub assign : RevisionRoleContextPair → ExtendedGuid → Assignments → Assignments
assign key rid [] = (key, rid) ∷ []
assign key rid ((k, r) ∷ rest) =
    let further = assign key rid rest in
    if same_pair k key then (k, rid) ∷ rest else (k, r) ∷ further

-- the revision manifest that the loop is in
pub record Current : Type 0 where
  pub start : RevisionStart
  pub has_encryption_marker : Bool
  pub encryption_ref : Option FileNodeChunkReference
  pub manifest_pos : ℕ
  pub manifest_nodes : List TypedFileNode

pub record Loop : Type 0 where
  pub started_rids : List ExtendedGuid
  pub role_assignments : Assignments
  pub current : Option Current

-- the checks on a start
unfoldable pub check_start : List ExtendedGuid → RevisionStart → ℕ → M (Unit {0})
check_start started_rids x offset = do
  raise_if (ExtendedGuid.is_zero x.rid)
      (format_error "RevisionManifestStart*.rid MUST NOT be zero" (some offset))
  raise_if (has_guid started_rids x.rid) (
      format_error "RevisionManifestStart*.rid MUST be unique within the revision manifest list"
        (some offset))
  raise_if
      (not (ExtendedGuid.is_zero x.rid_dependent) && not (has_guid started_rids x.rid_dependent))
      (format_error
        "ridDependent MUST refer to a previously declared revision in the same revision manifest list"
        (some offset))

-- outside a revision manifest
unfoldable pub step_outside : TypedFileNode → Loop → M Loop
step_outside tn l =
    let offset = tn.node.header.offset in
    elim (revision_node tn.typed) [
      | starts x ↦ do
        check_start l.started_rids x offset
        pure (record l {
          started_rids = x.rid ∷ l.started_rids;
          current = some (record {
            start = x;
            has_encryption_marker = false;
            encryption_ref = none;
            manifest_pos = 1;
            manifest_nodes = [];
          });
        })
      | ends ↦ raise (format_error "RevisionManifestEndFND without a matching start" (some offset))
      | declares_role pair rid with_context ↦ do
        raise_if (not (has_guid l.started_rids rid)) (
            format_error
              (if with_context
                then "RevisionRoleAndContextDeclarationFND.rid MUST refer to a preceding revision manifest in this list"
                else "RevisionRoleDeclarationFND.rid MUST refer to a preceding revision manifest in this list")
              (some offset))
        pure (record l { role_assignments = assign pair rid l.role_assignments })
      | encryption_key ref ↦ do
        warn "ObjectDataEncryptionKeyV2FNDX appears outside a revision manifest" (some offset)
        pure l
      | other ↦ pure l
    ]

unfoldable pub key_of : RevisionNode → Option FileNodeChunkReference
key_of (encryption_key ref) = some ref
key_of _ = none

unfoldable pub is_some {ℓ} : {A : Type ℓ} → Option A → Bool
is_some none = false
is_some (some _) = true

-- a node inside a revision manifest, and the marker of encryption
unfoldable pub take_inside : TypedFileNode → RevisionNode → Current → M Current
take_inside tn node c = do
  let offset = tn.node.header.offset
  let key = key_of node
  let pos = c.manifest_pos + 1
  raise_if (pos == 2 && c.start.odcs_default == 0x0002 && not (is_some key)) (
      format_error
        "Encrypted revision manifest MUST have ObjectDataEncryptionKeyV2FNDX as the second FileNode"
        (some offset))
  warn_if (not (pos == 2) && is_some key)
      "ObjectDataEncryptionKeyV2FNDX appears not as the second node in a revision manifest"
      (some offset)
  pure (record c {
    has_encryption_marker = is_some key || c.has_encryption_marker;
    encryption_ref = if is_some key then key else c.encryption_ref;
    manifest_pos = pos;
    manifest_nodes = c.manifest_nodes ++ (tn ∷ []);
  })

unfoldable pub finish : List ℕ → Dict ℕ → Current → M RevisionSummary
finish contents counts c = do
  content ← parse_revision_manifest_content contents c.manifest_nodes c.start.kind counts
  pure (record {
    rid = c.start.rid;
    rid_dependent = c.start.rid_dependent;
    gctxid = c.start.gctxid;
    revision_role = c.start.revision_role;
    odcs_default = c.start.odcs_default;
    has_encryption_marker = c.has_encryption_marker;
    assigned_pairs = [];
    encryption_key_ref = c.encryption_ref;
    manifest = some content;
  })

-- what a node inside a revision manifest does behind the checks on the marker: what the loop goes on
-- with, and the revision that the node ends
unfoldable pub close_inside :
    List ℕ → Dict ℕ → RevisionNode → ℕ → Current → Loop → M (Loop × Option RevisionSummary)
close_inside contents counts (declares_role _ _ _) offset c l = raise (
    format_error "Revision role declarations MUST be outside revision manifest boundaries"
      (some offset))
close_inside contents counts ends offset c l = do
  revision ← finish contents counts c
  pure (record l { current = none }, some revision)
close_inside contents counts _ offset c l = pure (record l { current = some c }, none)

unfoldable pub step_inside :
    List ℕ → Dict ℕ → TypedFileNode → Current → Loop → M (Loop × Option RevisionSummary)
step_inside contents counts tn c l = do
  c' ← take_inside tn (revision_node tn.typed) c
  close_inside contents counts (revision_node tn.typed) tn.node.header.offset c' l

unfoldable pub step : List ℕ → Dict ℕ → TypedFileNode → Loop → M (Loop × Option RevisionSummary)
step contents counts tn l = elim l.current [
  | none ↦ do l' ← step_outside tn l; pure (l', none)
  | some c ↦ step_inside contents counts tn c l
]

unfoldable pub and_revision : Option RevisionSummary → List RevisionSummary → List RevisionSummary
and_revision none revisions = revisions
and_revision (some r) revisions = r ∷ revisions

-- for tn in nodes[1:], and the check behind it, where `last` is the offset of the last node
unfoldable pub revision_loop :
    List ℕ → Dict ℕ → ℕ → List TypedFileNode → Loop → M (List RevisionSummary × Assignments)
revision_loop contents counts last [] l = do
  raise_if (is_some l.current) (
      format_error
        "Revision manifest list ended inside a revision manifest (missing RevisionManifestEndFND)"
        (some last))
  pure ([], l.role_assignments)
revision_loop contents counts last (tn ∷ nodes) l = do
  (l', done) ← step contents counts tn l
  (revisions, assignments) ← revision_loop contents counts last nodes l'
  pure (and_revision done revisions, assignments)

-- pairs_by_rid.get(rid, [])
unfoldable pub pairs_of : ExtendedGuid → Assignments → List RevisionRoleContextPair
pairs_of rid [] = []
pairs_of rid ((pair, r) ∷ rest) =
    let further = pairs_of rid rest in if same_guid r rid then pair ∷ further else further

unfoldable pub finalize : Assignments → List RevisionSummary → List RevisionSummary
finalize assignments [] = []
finalize assignments (r ∷ revisions) =
    record r { assigned_pairs = sorted pair_less (pairs_of r.rid assignments) }
    ∷ finalize assignments revisions

unfoldable pub is_list_start : Option KnownFileNodeType → Bool
is_list_start (some (revision_manifest_list_start_fnd x)) = true
is_list_start _ = false

abbrev pub loop_start : Loop
loop_start = record { started_rids = []; role_assignments = []; current = none }

unfoldable pub parse_revision_manifest_list_revisions :
    List ℕ → List TypedFileNode → Dict ℕ → M (List RevisionSummary × Assignments)
parse_revision_manifest_list_revisions contents [] counts =
    raise (format_error "Revision manifest list is empty" (some 0))
parse_revision_manifest_list_revisions contents (tn ∷ nodes) counts = do
  let offset = tn.node.header.offset
  raise_if (not (is_list_start tn.typed)) (
      format_error "Revision manifest list MUST start with RevisionManifestListStartFND"
        (some offset))
  (revisions, role_assignments) ←
      revision_loop contents counts (last_offset offset nodes) nodes loop_start
  pure (finalize role_assignments revisions, sorted (both_less pair_less eg_less) role_assignments)
