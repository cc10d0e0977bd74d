-- ===== src/ObjectSpace/Order.antt =====
-- The order of the revisions in a list.
use aspose_note_foss_for_pyt.Prelude.{
  ℕ, ◌≡◌, refl, sym, ap, ◌⊎◌, true, false, not, Option, none, some, List, [], ◌∷◌, arith,
}
use aspose_note_foss_for_pyt.Dict.{Dict}
use aspose_note_foss_for_pyt.Parser.{State, ok, pure, raise_if, warn, ◌>>=◌}
use aspose_note_foss_for_pyt.Parser.Ensures.{
  Ensures, Ensures-bind, Ensures-after, Ensures-pure, Ensures-raise,
}
use aspose_note_foss_for_pyt.CommonTypes.ExtendedGuid
use aspose_note_foss_for_pyt.CommonTypes.ExtendedGuid.{ExtendedGuid}
use aspose_note_foss_for_pyt.FileNodeTypes.Root.{has_guid}
use aspose_note_foss_for_pyt.FileNodeTypes.Typed.{TypedFileNode}
use aspose_note_foss_for_pyt.ObjectSpace.Summaries.{
  RevisionSummary, pair_less, both_less, eg_less, sorted,
}
use aspose_note_foss_for_pyt.ObjectSpace.Sequences.{last_offset}
use aspose_note_foss_for_pyt.ObjectSpace.Contents.{parse_revision_manifest_content}
use aspose_note_foss_for_pyt.ObjectSpace.Revisions.{
  RevisionStart, RevisionNode, starts, ends, declares_role, encryption_key, other, revision_node,
  Assignments, Current, Loop, check_start, step_outside, take_inside, finish, close_inside,
  step_inside, step, and_revision, revision_loop, finalize, loop_start,
  parse_revision_manifest_list_revisions, is_some, is_list_start,
}

-- an id that is not zero and not among the earlier ones, and what it depends on, which is nothing or an earlier
-- one
unfoldable pub Follows : List ExtendedGuid → ExtendedGuid → ExtendedGuid → Type 0
Follows earlier rid rid_dependent =
    (ExtendedGuid.is_zero rid ≡ false)
    × (has_guid earlier rid ≡ false)
    × ((ExtendedGuid.is_zero rid_dependent ≡ true) ⊎ (has_guid earlier rid_dependent ≡ true))

unfoldable pub AreOrdered : List ExtendedGuid → List RevisionSummary → Type 0
AreOrdered earlier [] = Unit
AreOrdered earlier (r ∷ revisions) =
    Follows earlier r.rid r.rid_dependent × AreOrdered (r.rid ∷ earlier) revisions

-- what holds in the loop, behind the revisions `earlier`
Started : List ExtendedGuid → List ExtendedGuid → Option Current → Type 0
Started earlier started none = started ≡ earlier
Started earlier started (some c) =
    (started ≡ c.start.rid ∷ earlier) × Follows earlier c.start.rid c.start.rid_dependent

abbrev Holds : List ExtendedGuid → Loop → Type 0
Holds earlier l = Started earlier l.started_rids l.current

abbrev Steps : List ExtendedGuid → Loop × Option RevisionSummary → Type 0
Steps earlier (l, none) = Holds earlier l
Steps earlier (l, some r) = Follows earlier r.rid r.rid_dependent × Holds (r.rid ∷ earlier) l

check_start-Follows :
    (started : List ExtendedGuid) (x : RevisionStart) (offset : ℕ)
    → Ensures (λ _. Follows started x.rid x.rid_dependent) (check_start started x offset)
unfolding check_start Follows
check_start-Follows started x offset = record { holds = λ s t a e. ground arith }

step_outside-Holds :
    (earlier : List ExtendedGuid) (tn : TypedFileNode) (l : Loop)
    → l.current ≡ none
    → l.started_rids ≡ earlier
    → Ensures (Holds earlier) (step_outside tn l)
unfolding step_outside Started
step_outside-Holds earlier tn l idle same =
    elim (revision_node tn.typed)
        as (λ n. revision_node tn.typed ≡ n → Ensures (Holds earlier) (step_outside tn l)) [
          | starts x ↦ λ e.
              rw (e, step_outside)
                (Ensures-bind (check_start-Follows l.started_rids x tn.node.header.offset)
                  λ _ f. Ensures-pure _ (ap (λ r. x.rid ∷ r) same, rw (sym same) f))
          | ends ↦ λ e. rw (e, step_outside) (Ensures-raise _)
          | declares_role pair rid with_context ↦ λ e.
              rw (e, step_outside) (Ensures-after (raise_if _ _) λ _. Ensures-pure _ (rw idle same))
          | encryption_key ref ↦ λ e.
              rw (e, step_outside)
                (Ensures-after
                  (warn "ObjectDataEncryptionKeyV2FNDX appears outside a revision manifest"
                    (some tn.node.header.offset))
                  λ _. Ensures-pure l (rw idle same))
          | other ↦ λ e. rw (e, step_outside) (Ensures-pure l (rw idle same))
        ]
      refl

take_inside-start :
    (tn : TypedFileNode) (node : RevisionNode) (c : Current)
    → Ensures (λ (d : Current). d.start ≡ c.start) (take_inside tn node c)
unfolding take_inside
take_inside-start tn node c = record { holds = λ s t d e. ground arith }

finish-ids :
    (contents : List ℕ) (counts : Dict ℕ) (c : Current)
    → Ensures
        (λ (r : RevisionSummary). (r.rid ≡ c.start.rid) × (r.rid_dependent ≡ c.start.rid_dependent))
        (finish contents counts c)
unfolding finish
finish-ids contents counts c =
    Ensures-after (parse_revision_manifest_content contents c.manifest_nodes c.start.kind counts)
      λ content. Ensures-pure _ (refl, refl)

close_inside-Steps :
    (contents : List ℕ) (counts : Dict ℕ) (earlier : List ExtendedGuid) (node : RevisionNode)
    (offset : ℕ) (c : Current) (l : Loop)
    → Started earlier l.started_rids (some c)
    → Ensures (Steps earlier) (close_inside contents counts node offset c l)
unfolding close_inside Started
close_inside-Steps contents counts earlier (declares_role pair rid with_context) offset c l h =
    Ensures-raise _
close_inside-Steps contents counts earlier ends offset c l (same, f) =
    Ensures-bind (finish-ids contents counts c)
      λ r (p, q). Ensures-pure (record l { current = none }, some r) (rw (p, q) (f, same))
close_inside-Steps contents counts earlier (starts x) offset c l h = Ensures-pure _ h
close_inside-Steps contents counts earlier (encryption_key ref) offset c l h = Ensures-pure _ h
close_inside-Steps contents counts earlier other offset c l h = Ensures-pure _ h

step_inside-Steps :
    (contents : List ℕ) (counts : Dict ℕ) (earlier : List ExtendedGuid) (tn : TypedFileNode)
    (c : Current) (l : Loop)
    → Started earlier l.started_rids (some c)
    → Ensures (Steps earlier) (step_inside contents counts tn c l)
unfolding step_inside Started
step_inside-Steps contents counts earlier tn c l (same, f) =
    Ensures-bind (take_inside-start tn (revision_node tn.typed) c) λ c' e.
      close_inside-Steps contents counts earlier (revision_node tn.typed) tn.node.header.offset c' l
        (rw e (same, f))

step-Steps :
    (contents : List ℕ) (counts : Dict ℕ) (earlier : List ExtendedGuid) (tn : TypedFileNode)
    (l : Loop)
    → Holds earlier l
    → Ensures (Steps earlier) (step contents counts tn l)
unfolding step Started
step-Steps contents counts earlier tn l h =
    elim l.current
        as (λ o.
          l.current ≡ o
          → Started earlier l.started_rids o
          → Ensures (Steps earlier) (step contents counts tn l)) [
            | none ↦ λ e h'.
                rw (e, step)
                  (Ensures-bind (step_outside-Holds earlier tn l e h')
                    λ l' p. Ensures-pure (l', none) p)
            | some c ↦ λ e h'. rw (e, step) (step_inside-Steps contents counts earlier tn c l h')
          ]
      refl h

-- the revisions of a list and the assignments
abbrev Ordered : List ExtendedGuid → List RevisionSummary × Assignments → Type 0
Ordered earlier (revisions, assignments) = AreOrdered earlier revisions

revision_loop-Ordered :
    (contents : List ℕ) (counts : Dict ℕ) (last : ℕ) (nodes : List TypedFileNode)
    (earlier : List ExtendedGuid) (l : Loop)
    → Holds earlier l
    → Ensures (Ordered earlier) (revision_loop contents counts last nodes l)
unfolding revision_loop AreOrdered and_revision
revision_loop-Ordered contents counts last [] earlier l h =
    Ensures-after (raise_if (is_some l.current) _) λ _. Ensures-pure ([], l.role_assignments) tt
revision_loop-Ordered contents counts last (tn ∷ nodes) earlier l h =
    Ensures-bind (step-Steps contents counts earlier tn l h) λ (l', done) p.
      elim done
          as (λ o.
            Steps earlier (l', o)
            → Ensures (Ordered earlier) (do
              (revisions, assignments) ← revision_loop contents counts last nodes l'
              pure (and_revision o revisions, assignments))) [
                | none ↦ λ q.
                    Ensures-bind (revision_loop-Ordered contents counts last nodes earlier l' q)
                      λ r w. Ensures-pure r w
                | some rev ↦ λ (f, q).
                    Ensures-bind
                      (revision_loop-Ordered contents counts last nodes (rev.rid ∷ earlier) l' q)
                      λ r w. Ensures-pure (rev ∷ r.0, r.1) (f, w)
              ]
        p

finalize-AreOrdered :
    (assignments : Assignments) (earlier : List ExtendedGuid) (revisions : List RevisionSummary)
    → AreOrdered earlier revisions
    → AreOrdered earlier (finalize assignments revisions)
unfolding AreOrdered finalize
finalize-AreOrdered assignments earlier [] h = tt
finalize-AreOrdered assignments earlier (r ∷ revisions) (f, h) =
    (f, finalize-AreOrdered assignments (r.rid ∷ earlier) revisions h)

parse_revision_manifest_list_revisions-Ensures :
    (contents : List ℕ) (nodes : List TypedFileNode) (counts : Dict ℕ)
    → Ensures (Ordered []) (parse_revision_manifest_list_revisions contents nodes counts)
unfolding parse_revision_manifest_list_revisions Started
parse_revision_manifest_list_revisions-Ensures contents [] counts = Ensures-raise _
parse_revision_manifest_list_revisions-Ensures contents (tn ∷ nodes) counts =
    Ensures-after (raise_if (not (is_list_start tn.typed)) _) λ _.
      Ensures-bind
        (revision_loop-Ordered contents counts (last_offset tn.node.header.offset nodes) nodes []
          loop_start refl)
        λ r h.
          Ensures-pure (finalize r.1 r.0, sorted (both_less pair_less eg_less) r.1)
            (finalize-AreOrdered r.1 [] r.0 h)

-- In a revision manifest list that is accepted, in the strict mode or not, the ids of the revisions are not
-- zero and no two are the same, and every revision depends on none or on an earlier one of the list.
pub parse_revision_manifest_list_revisions-AreOrdered :
    (contents : List ℕ) (nodes : List TypedFileNode) (counts : Dict ℕ) (s t : State)
    (revisions : List RevisionSummary) (assignments : Assignments)
    → parse_revision_manifest_list_revisions contents nodes counts s ≡ ok (revisions, assignments) t
    → AreOrdered [] revisions
parse_revision_manifest_list_revisions-AreOrdered contents nodes counts s t revisions assignments
      e =
    (parse_revision_manifest_list_revisions-Ensures contents nodes counts).holds s t
      (revisions, assignments) e
