-- ===== src/ObjectSpace/Declared.antt =====
-- The roles of the summaries of revisions, by the nodes that declare them.
use aspose_note_foss_for_pyt.Prelude.{◌≡◌, ◌↔◌, true, Option, some, List}
use aspose_note_foss_for_pyt.Dict.{Dict, or_else}
use aspose_note_foss_for_pyt.Parser.Ensures.{Ensures}
use aspose_note_foss_for_pyt.CommonTypes.ExtendedGuid.{ExtendedGuid}
use aspose_note_foss_for_pyt.FileNodeTypes.Typed.{TypedFileNode}
use aspose_note_foss_for_pyt.ObjectSpace.Summaries.{RevisionRoleContextPair, RevisionSummary}
use aspose_note_foss_for_pyt.ObjectSpace.Revisions.{Assignments}
use aspose_note_foss_for_pyt.ObjectSpace.Roles.{Assignment, revision_for, IsTable, has_pair}
use aspose_note_foss_for_pyt.ObjectSpace.Declarations.{declared_by, declared}

-- the assignments, behind a declaration
record Declares (o : Option Assignment) (before after : Assignments) : Type 0 where
  table : IsTable before → IsTable after
  meaning :
      (pair : RevisionRoleContextPair)
      → revision_for pair after ≡ or_else (declared_by pair o) (revision_for pair before)

-- the assignments behind the nodes of a list
record AreDeclared (nodes : List TypedFileNode) (before after : Assignments) : Type 0 where
  table : IsTable before → IsTable after
  meaning :
      (pair : RevisionRoleContextPair)
      → revision_for pair after ≡ or_else (declared pair nodes) (revision_for pair before)

-- the roles in contexts of a summary are those that are declared last for its revision
unfoldable pub HasItsRoles : List TypedFileNode → RevisionSummary → Type 0
HasItsRoles nodes r =
    (pair : RevisionRoleContextPair)
    → (has_pair pair r.assigned_pairs ≡ true) ↔ (declared pair nodes ≡ some r.rid)
