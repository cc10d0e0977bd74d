-- ===== src/ObjectSpace/Dependencies.antt =====
-- The tables of the revisions on which others depend.
use aspose_note_foss_for_pyt.Prelude.{
  ℕ, ◌≡◌, refl, ◌⊎◌, inl, inr, true, Bool-cases, Option, none, some, List, [], ◌∷◌, ◌++◌, ap, arith,
}
use aspose_note_foss_for_pyt.Dict.{Dict}
use aspose_note_foss_for_pyt.Parser.{State, ok, err}
use aspose_note_foss_for_pyt.Parser.Rules.{>>=-eq-err}
use aspose_note_foss_for_pyt.Context.{Error, ParseContext}
use aspose_note_foss_for_pyt.Parser.Ensures.{Ensures, Ensures-after, Ensures-pure}
use aspose_note_foss_for_pyt.CommonTypes.ExtendedGuid
use aspose_note_foss_for_pyt.CommonTypes.ExtendedGuid.{ExtendedGuid}
use aspose_note_foss_for_pyt.FileNodeTypes.Root.{has_guid, same_guid}
use aspose_note_foss_for_pyt.ObjectSpace.Summaries.{RevisionSummary, RevisionResolvedIdsSummary}
use aspose_note_foss_for_pyt.ObjectSpace.Resolved.{
  GidDict, TablesByRid, table_of, dependency_table, table_after, resolve_manifest, resolve_revision,
  resolve_revisions,
}
use aspose_note_foss_for_pyt.ObjectSpace.Order.{AreOrdered, Follows}

-- the keys
unfoldable pub rids_of : TablesByRid → List ExtendedGuid
rids_of [] = []
rids_of ((rid, table) ∷ tables) = rid ∷ rids_of tables

table_of-some :
    (tables : TablesByRid) (rid : ExtendedGuid)
    → has_guid (rids_of tables) rid ≡ true
    → (table : GidDict) × (table_of rid tables ≡ some table)
unfolding rids_of table_of has_guid
table_of-some [] rid h = cc
table_of-some ((r, table) ∷ tables) rid h = elim (Bool-cases (same_guid r rid)) [
  | inl e ↦ (table, ground arith)
  | inr e ↦ let (found, p) = table_of-some tables rid (ground arith) in (found, ground arith)
]

-- a round adds the table of its revision
abbrev Adds : ExtendedGuid → TablesByRid → RevisionResolvedIdsSummary × TablesByRid → Type 0
Adds rid tables (out, tables') = rids_of tables' ≡ rid ∷ rids_of tables

resolve_revision-Adds :
    (contents : List ℕ) (counts : Dict ℕ) (rev : RevisionSummary) (tables : TablesByRid)
    → Ensures (Adds rev.rid tables) (resolve_revision contents counts rev tables)
unfolding resolve_revision rids_of
resolve_revision-Adds contents counts rev tables =
    Ensures-after (dependency_table rev.rid_dependent tables) λ dep_table.
      Ensures-after (table_after rev.manifest dep_table) λ after.
        Ensures-after (resolve_manifest contents counts after rev.manifest) λ r. Ensures-pure _ refl

-- the table that a revision builds on: none, if it depends on none, and otherwise one that was found
abbrev Found : RevisionSummary → Option GidDict → Type 0
Found rev dep_table =
    ((ExtendedGuid.is_zero rev.rid_dependent ≡ true) × (dep_table ≡ none))
    ⊎ ((table : GidDict) × (dep_table ≡ some table))

dependency_table-ok :
    (rev : RevisionSummary) (tables : TablesByRid) (s : State)
    → (ExtendedGuid.is_zero rev.rid_dependent ≡ true)
      ⊎ (has_guid (rids_of tables) rev.rid_dependent ≡ true)
    → (dep_table : Option GidDict) × Found rev dep_table
      × (dependency_table rev.rid_dependent tables s ≡ ok dep_table s)
unfolding dependency_table
dependency_table-ok rev tables s h = elim (Bool-cases (ExtendedGuid.is_zero rev.rid_dependent)) [
  | inl zero ↦ (none, inl (zero, refl), ground arith)
  | inr used ↦
      let known : has_guid (rids_of tables) rev.rid_dependent ≡ true = ground arith in
      let (table, found) = table_of-some tables rev.rid_dependent known in
      (some table, inr (table, refl), ground arith)
]

-- The table of a revision is not built, or its objects are not resolved: with the table that it builds
-- on, one of these two steps raises the error.
pub data Fails (contents : List ℕ) (counts : Dict ℕ) (x : Error) (c : ParseContext)
    : RevisionSummary → Type 0 where
  not_built :
      (rev : RevisionSummary) (dep_table : Option GidDict) (t : State)
      → Found rev dep_table
      → table_after rev.manifest dep_table t ≡ err x c
      → Fails contents counts x c rev
  not_resolved :
      (rev : RevisionSummary) (dep_table after : Option GidDict) (t u : State)
      → Found rev dep_table
      → table_after rev.manifest dep_table t ≡ ok after u
      → resolve_manifest contents counts after rev.manifest u ≡ err x c
      → Fails contents counts x c rev

module _ (contents : List ℕ) (counts : Dict ℕ) (x : Error) (c : ParseContext) where
  resolve_revision-Fails :
      (rev : RevisionSummary) (tables : TablesByRid) (s : State)
      → (ExtendedGuid.is_zero rev.rid_dependent ≡ true)
        ⊎ (has_guid (rids_of tables) rev.rid_dependent ≡ true)
      → resolve_revision contents counts rev tables s ≡ err x c
      → Fails contents counts x c rev
  unfolding resolve_revision
  resolve_revision-Fails rev tables s h e =
      let (dep, found, p) = dependency_table-ok rev tables s h in
      elim (>>=-eq-err (dependency_table rev.rid_dependent tables) _ s e) [
        | inl lost ↦ cc
        | inr (dep', t, p', e1) ↦
            let found' : Found rev dep' = let same : dep' ≡ dep = cc in rw same found in
            elim (>>=-eq-err (table_after rev.manifest dep') _ t e1) [
              | inl unbuilt ↦ not_built rev dep' t found' unbuilt
              | inr (after, u, built, e2) ↦
                  elim (>>=-eq-err (resolve_manifest contents counts after rev.manifest) _ u e2) [
                    | inl unresolved ↦ not_resolved rev dep' after t u found' built unresolved
                    | inr (r, v, resolved, e3) ↦ cc
                  ]
            ]
      ]

  resolve_revisions-Fails :
      (revisions : List RevisionSummary) (tables : TablesByRid) (s : State)
      → AreOrdered (rids_of tables) revisions
      → resolve_revisions contents counts revisions tables s ≡ err x c
      → (rev : RevisionSummary) × (earlier later : List RevisionSummary) × (revisions
          ≡ earlier ++ (rev ∷ later))
        × Fails contents counts x c rev
  unfolding resolve_revisions AreOrdered Follows
  resolve_revisions-Fails [] tables s h e = cc
  resolve_revisions-Fails (rev ∷ revisions) tables s (f, h) e =
      elim (>>=-eq-err (resolve_revision contents counts rev tables) _ s e) [
        | inl now ↦ (rev, [], revisions, refl, resolve_revision-Fails rev tables s f.2 now)
        | inr ((out, between), u, e1, e2) ↦
            let more =
              (resolve_revision-Adds contents counts rev tables).holds s u (out, between) e1 in
            elim (>>=-eq-err (resolve_revisions contents counts revisions between) _ u e2) [
              | inl below ↦
                  let (r, earlier, later, same, fails) =
                    resolve_revisions-Fails revisions between u (rw more h) below in
                  (r, rev ∷ earlier, later, ap (λ rs. rev ∷ rs) same, fails)
              | inr (rest, v, e3, e4) ↦ cc
            ]
      ]

-- Where the revisions are in the order that the parser of revision manifest lists demands, the loop
-- that builds their tables never fails for want of the table of a revision that another depends on:
-- if it raises, then the error is raised by the building of the table of one of the revisions, or by the
-- resolving of its ids, behind a lookup that succeeded.
pub resolve_revisions-found :
    (contents : List ℕ) (counts : Dict ℕ) (revisions : List RevisionSummary) (s : State) (x : Error)
    (c : ParseContext)
    → AreOrdered [] revisions
    → resolve_revisions contents counts revisions [] s ≡ err x c
    → (rev : RevisionSummary) × (earlier later : List RevisionSummary) × (revisions
        ≡ earlier ++ (rev ∷ later))
      × Fails contents counts x c rev
unfolding rids_of
resolve_revisions-found contents counts revisions s x c h e =
    resolve_revisions-Fails contents counts x c revisions [] s h e
