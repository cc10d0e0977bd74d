-- ===== src/Runs/Roles.antt =====
-- The theorem on the roles of revisions at a concrete list.
use aspose_note_foss_for_pyt.Prelude.{ℕ, List, [], ◌∷◌}
use aspose_note_foss_for_pyt.CommonTypes.ExtendedGuid
use aspose_note_foss_for_pyt.CommonTypes.ExtendedGuid.{ExtendedGuid}
use aspose_note_foss_for_pyt.FileNodeTypes.Typed.{
  TypedFileNode, revision_manifest_list_start_fnd, revision_role_declaration_fnd,
}
use aspose_note_foss_for_pyt.ObjectSpace.Summaries.{
  RevisionRoleContextPair, RevisionSummary, zero_eg,
}
use aspose_note_foss_for_pyt.ObjectSpace.Revisions.{Assignments}
use aspose_note_foss_for_pyt.Runs.Objects.{typed_as, end_node, first_id, second_id}
use aspose_note_foss_for_pyt.Runs.Spaces.{start_of, revision_of}

abbrev role : ℕ → RevisionRoleContextPair
role n = record { gctxid = zero_eg; revision_role = n }

abbrev declaration : ℕ → ExtendedGuid → TypedFileNode
declaration n rid =
    typed_as 0x05C (revision_role_declaration_fnd (record { rid = rid; revision_role = n }))

-- the roles 1 and 2 are declared for the first revision, and then the role 1 for the second
abbrev role_nodes : List TypedFileNode
role_nodes =
    typed_as 0x014 (revision_manifest_list_start_fnd (record { gosid = first_id; n_instance = 0 }))
    ∷ start_of first_id zero_eg
    ∷ end_node
    ∷ declaration 1 first_id
    ∷ declaration 2 first_id
    ∷ start_of second_id first_id
    ∷ end_node
    ∷ declaration 1 second_id
    ∷ []

abbrev with_roles : List RevisionSummary
with_roles =
    record (revision_of first_id zero_eg) { assigned_pairs = role 2 ∷ [] }
    ∷ record (revision_of second_id first_id) { assigned_pairs = role 1 ∷ [] }
    ∷ []

abbrev assignments : Assignments
assignments = (role 1, second_id) ∷ (role 2, first_id) ∷ []
