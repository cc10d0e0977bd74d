-- ===== src/FileNodeTypes/Ids.antt =====
-- The routing table against the ids that the file format gives to the node types.
use aspose_note_foss_for_pyt.Prelude.{
  ℕ, ◌≡◌, refl, ap, ◌∙◌, arith, Option, none, some, ◌==◌, Bool-cases, Option-cases, List, [], ◌∷◌,
  inl, inr,
}
use aspose_note_foss_for_pyt.Dict
use aspose_note_foss_for_pyt.Dict.{Dict}
use aspose_note_foss_for_pyt.Parser.{State, M, ok, pure}
use aspose_note_foss_for_pyt.Parser.Rules.{>>=-eq-ok}
use aspose_note_foss_for_pyt.FileNodeCore.{FileNode}
use aspose_note_foss_for_pyt.FileNodeTypes.Typed.{
  KnownFileNodeType, TypedFileNode, as_known, file_node_type_parsers, parse_typed_file_node,
  object_space_manifest_root_fnd, object_space_manifest_list_reference_fnd,
  object_space_manifest_list_start_fnd, revision_manifest_list_reference_fnd,
  revision_manifest_list_start_fnd, revision_manifest_start4_fnd, revision_manifest_end_fnd,
  revision_manifest_start6_fnd, revision_manifest_start7_fnd, revision_role_declaration_fnd,
  revision_role_and_context_declaration_fnd, object_data_encryption_key_v2_fndx,
  global_id_table_start_fndx, global_id_table_start2_fnd, global_id_table_entry_fndx,
  global_id_table_entry2_fndx, global_id_table_entry3_fndx, global_id_table_end_fndx,
  root_object_reference2_fndx, root_object_reference3_fnd, object_info_dependency_overrides_fnd,
  data_signature_group_definition_fnd, file_data_store_list_reference_fnd,
  file_data_store_object_reference_fnd, object_declaration2_ref_count_fnd,
  object_declaration2_large_ref_count_fnd, object_group_list_reference_fnd, object_group_start_fnd,
  object_group_end_fnd, readonly_object_declaration2_ref_count_fnd,
  readonly_object_declaration2_large_ref_count_fnd, hashed_chunk_descriptor2_fnd,
  object_revision_with_ref_count_fndx, object_revision_with_ref_count2_fndx,
}

-- the id of a type
unfoldable pub type_id : KnownFileNodeType → ℕ
type_id (object_space_manifest_root_fnd x) = 0x004
type_id (object_space_manifest_list_reference_fnd x) = 0x008
type_id (object_space_manifest_list_start_fnd x) = 0x00C
type_id (revision_manifest_list_reference_fnd x) = 0x010
type_id (revision_manifest_list_start_fnd x) = 0x014
type_id (revision_manifest_start4_fnd x) = 0x01B
type_id (revision_manifest_end_fnd x) = 0x01C
type_id (revision_manifest_start6_fnd x) = 0x01E
type_id (revision_manifest_start7_fnd x) = 0x01F
type_id (revision_role_declaration_fnd x) = 0x05C
type_id (revision_role_and_context_declaration_fnd x) = 0x05D
type_id (object_data_encryption_key_v2_fndx x) = 0x07C
type_id (global_id_table_start_fndx x) = 0x021
type_id (global_id_table_start2_fnd x) = 0x022
type_id (global_id_table_entry_fndx x) = 0x024
type_id (global_id_table_entry2_fndx x) = 0x025
type_id (global_id_table_entry3_fndx x) = 0x026
type_id (global_id_table_end_fndx x) = 0x028
type_id (root_object_reference2_fndx x) = 0x059
type_id (root_object_reference3_fnd x) = 0x05A
type_id (object_info_dependency_overrides_fnd x) = 0x084
type_id (data_signature_group_definition_fnd x) = 0x08C
type_id (file_data_store_list_reference_fnd x) = 0x090
type_id (file_data_store_object_reference_fnd x) = 0x094
type_id (object_declaration2_ref_count_fnd x) = 0x0A4
type_id (object_declaration2_large_ref_count_fnd x) = 0x0A5
type_id (object_group_list_reference_fnd x) = 0x0B0
type_id (object_group_start_fnd x) = 0x0B4
type_id (object_group_end_fnd x) = 0x0B8
type_id (readonly_object_declaration2_ref_count_fnd x) = 0x0C4
type_id (readonly_object_declaration2_large_ref_count_fnd x) = 0x0C5
type_id (hashed_chunk_descriptor2_fnd x) = 0x0C2
type_id (object_revision_with_ref_count_fndx x) = 0x041
type_id (object_revision_with_ref_count2_fndx x) = 0x042

-- a parser whose results are of the type with this id
abbrev Yields : ℕ → (FileNode → M KnownFileNodeType) → Type 0
Yields id parser =
    (node : FileNode) (s t : State) (k : KnownFileNodeType)
    → parser node s ≡ ok k t
    → type_id k ≡ id

routed :
    {A : Type 0} {id : ℕ} (c : A → KnownFileNodeType) (parser : FileNode → M A)
    → ((x : A) → type_id (c x) ≡ id)
    → Yields id (as_known c parser)
unfolding as_known
routed c parser h node s t k e =
    let (x, u, e1, e2) = >>=-eq-ok (parser node) (λ x. pure (c x)) s e in
    ap type_id (ground arith) ∙ h x

data AllYield : Dict (FileNode → M KnownFileNodeType) → Type 0 where
  nil : AllYield []
  cons :
      {id : ℕ} {parser : FileNode → M KnownFileNodeType} {d : Dict (FileNode → M KnownFileNodeType)}
      → Yields id parser
      → AllYield d
      → AllYield ((id, parser) ∷ d)

get-Yields :
    (d : Dict (FileNode → M KnownFileNodeType)) (k : ℕ) (parser : FileNode → M KnownFileNodeType)
    → AllYield d
    → Dict.get d k ≡ some parser
    → Yields k parser
unfolding Dict.get
get-Yields [] k parser a e = cc
get-Yields ((id, p) ∷ d) k parser (cons y a) e = elim (Bool-cases (id == k)) [
  | inl same ↦ ground (arith, y)
  | inr other ↦ get-Yields d k parser a (ground arith)
]

-- an entry of the table in front of the others
infixr 5 ◌▸◌
◌▸◌ :
    {id : ℕ} {parser : FileNode → M KnownFileNodeType} {d : Dict (FileNode → M KnownFileNodeType)}
    → Yields id parser
    → AllYield d
    → AllYield ((id, parser) ∷ d)
h ▸ rest = cons h rest

table-AllYield : AllYield file_node_type_parsers
unfolding file_node_type_parsers type_id
table-AllYield =
    routed _ _ (λ _. refl)
    ▸ routed _ _ (λ _. refl)
    ▸ routed _ _ (λ _. refl)
    ▸ routed _ _ (λ _. refl)
    ▸ routed _ _ (λ _. refl)
    ▸ routed _ _ (λ _. refl)
    ▸ routed _ _ (λ _. refl)
    ▸ routed _ _ (λ _. refl)
    ▸ routed _ _ (λ _. refl)
    ▸ routed _ _ (λ _. refl)
    ▸ routed _ _ (λ _. refl)
    ▸ routed _ _ (λ _. refl)
    ▸ routed _ _ (λ _. refl)
    ▸ routed _ _ (λ _. refl)
    ▸ routed _ _ (λ _. refl)
    ▸ routed _ _ (λ _. refl)
    ▸ routed _ _ (λ _. refl)
    ▸ routed _ _ (λ _. refl)
    ▸ routed _ _ (λ _. refl)
    ▸ routed _ _ (λ _. refl)
    ▸ routed _ _ (λ _. refl)
    ▸ routed _ _ (λ _. refl)
    ▸ routed _ _ (λ _. refl)
    ▸ routed _ _ (λ _. refl)
    ▸ routed _ _ (λ _. refl)
    ▸ routed _ _ (λ _. refl)
    ▸ routed _ _ (λ _. refl)
    ▸ routed _ _ (λ _. refl)
    ▸ routed _ _ (λ _. refl)
    ▸ routed _ _ (λ _. refl)
    ▸ routed _ _ (λ _. refl)
    ▸ routed _ _ (λ _. refl)
    ▸ routed _ _ (λ _. refl)
    ▸ routed _ _ (λ _. refl)
    ▸ nil

-- A node that is read as a known type is read as the type that the file format has for its id.
pub parse_typed_file_node-type_id :
    (node : FileNode) (ids ids' : Option (List ℕ)) (s t : State) (tn : TypedFileNode)
    (k : KnownFileNodeType)
    → parse_typed_file_node node ids s ≡ ok (tn, ids') t
    → tn.typed ≡ some k
    → (type_id k ≡ node.header.file_node_id) × (tn.node ≡ node)
unfolding parse_typed_file_node
parse_typed_file_node-type_id node ids ids' s t tn k e typed =
    elim (Option-cases (Dict.get file_node_type_parsers node.header.file_node_id)) [
      | inl none_ ↦ elim ids [ none ↦ ground arith | some seen ↦ ground arith ]
      | inr (parser, found) ↦
          let (k', u, e1, e2) =
            >>=-eq-ok (parser node) _ s (rw (parse_typed_file_node, found) at e) in
          let right = get-Yields _ _ parser table-AllYield found node s u k' e1 in
          ground (arith, right)
    ]
