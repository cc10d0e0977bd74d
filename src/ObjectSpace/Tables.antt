-- ===== src/ObjectSpace/Tables.antt =====
-- The global id tables that are built.
use aspose_note_foss_for_pyt.Prelude.{
  ℕ, zero, suc, ◌+◌, ◌-◌, ◌<◌, ◌≡◌, ◌≢◌, refl, ap, true, false, ◌||◌, Option, none, some, List, [],
  ◌∷◌, ◌==◌, leb, String, bytes_eq_iff, All, arith, Option-cases, inl, inr,
}
use aspose_note_foss_for_pyt.Dict
use aspose_note_foss_for_pyt.Dict.{Dict}
use aspose_note_foss_for_pyt.Parser.{State, ok, pure, violation_if, ◌>>◌}
use aspose_note_foss_for_pyt.Parser.Ensures.{
  Ensures, Ensures-bind, Ensures-after, Ensures-pure, Ensures-raise, Ensures-if,
}
use aspose_note_foss_for_pyt.ObjectSpace.Sequences.{
  GlobalIdTableOp, entry, entry2, entry3, GlobalIdTableSequenceSummary, index_limit, has_bytes,
}
use aspose_note_foss_for_pyt.ObjectSpace.Gids.{
  GidTable, no_gids, has_index, add_gid, copy_gid, copy_gids, apply_entry2, apply_entry3, apply_op,
  apply_ops, build_gid_table_from_sequence,
}

-- a table of indices below 0xFFFFFF, no two of them or of the GUIDs the same
unfoldable pub IsGidTable : Dict (List ℕ) → Type 0
IsGidTable [] = Unit
IsGidTable ((k, g) ∷ d) =
    (k < 0xFFFFFF)
    × All (λ (item : ℕ × List ℕ). item.0 ≢ k) d
    × All (λ (item : ℕ × List ℕ). item.1 ≢ g) d
    × IsGidTable d

-- the second field of the state is the list of the GUIDs
guids_of : Dict (List ℕ) → List (List ℕ)
guids_of [] = []
guids_of ((k, g) ∷ d) = g ∷ guids_of d

record IsBuilt (t : GidTable) : Type 0 where
  is_table : IsGidTable t.table
  guids : t.guids ≡ guids_of t.table

no_index :
    (d : Dict (List ℕ)) (k : ℕ) → has_index d k ≡ false → All (λ (item : ℕ × List ℕ). item.0 ≢ k) d
unfolding has_index Dict.get
no_index [] k h = tt
no_index ((j, g) ∷ d) k h = (ground arith, no_index d k (ground arith))

no_guid :
    (d : Dict (List ℕ)) (g : List ℕ)
    → has_bytes (guids_of d) g ≡ false
    → All (λ (item : ℕ × List ℕ). item.1 ≢ g) d
unfolding has_bytes guids_of
no_guid [] g h = tt
no_guid ((j, x) ∷ d) g h = (ground (arith, bytes_eq_iff x g), no_guid d g (ground arith))

-- an operation that is passed over
passed_over :
    (message : String) (offset : Option ℕ) (t : GidTable)
    → IsBuilt t
    → Ensures IsBuilt (violation_if true message offset >> pure t)
passed_over message offset t b =
    Ensures-after (violation_if true message offset) λ _. Ensures-pure t b

add_gid-IsBuilt :
    (offset : Option ℕ) (k : ℕ) (g : List ℕ) (t : GidTable)
    → IsBuilt t
    → Ensures IsBuilt (add_gid offset k g t)
unfolding add_gid IsGidTable guids_of Dict.put
add_gid-IsBuilt offset k g t b =
    Ensures-if (leb index_limit k)
      (λ _. passed_over "Global ID Table index MUST be < 0xFFFFFF" offset t b)
      λ small. record {
        holds = λ s u a e.
            let fresh = no_index t.table k (ground arith) in
            let new_guid = no_guid t.table g (ground (arith, b.guids)) in
            let made : a ≡ record { table = (k, g) ∷ t.table; guids = g ∷ t.guids } =
              ground arith in
            rw made (record {
              is_table = (ground arith, fresh, new_guid, b.is_table);
              guids = ap (λ r. g ∷ r) b.guids;
            });
      }

copy_gids-IsBuilt :
    (offset : Option ℕ) (dep : Dict (List ℕ)) (count from to : ℕ) (t : GidTable)
    → IsBuilt t
    → Ensures IsBuilt (copy_gids offset dep count from to t)
unfolding copy_gids
copy_gids-IsBuilt offset dep zero from to t b = Ensures-pure t b
copy_gids-IsBuilt offset dep (suc count) from to t b = elim (Option-cases (Dict.get dep from)) [
  | inl e ↦ rw (e, copy_gids) (Ensures-raise _)
  | inr (g, e) ↦
      rw (e, copy_gids)
        (Ensures-bind (add_gid-IsBuilt offset to g t b)
          λ t' b'. copy_gids-IsBuilt offset dep count (from + 1) (to + 1) t' b')
]

copy_gid-IsBuilt :
    (offset : Option ℕ) (t : GidTable) (dep : Dict (List ℕ)) (from to : ℕ)
    → IsBuilt t
    → Ensures IsBuilt (copy_gid offset t dep from to)
unfolding copy_gid
copy_gid-IsBuilt offset t dep from to b = elim (Option-cases (Dict.get dep from)) [
  | inl e ↦ rw (e, copy_gid) (Ensures-raise _)
  | inr (g, e) ↦ rw (e, copy_gid) (add_gid-IsBuilt offset to g t b)
]

apply_op-IsBuilt :
    (offset : Option ℕ) (dep : Option (Dict (List ℕ))) (op : GlobalIdTableOp) (t : GidTable)
    → IsBuilt t
    → Ensures IsBuilt (apply_op offset dep op t)
unfolding apply_op apply_entry2 apply_entry3
apply_op-IsBuilt offset dep (entry op) t b = add_gid-IsBuilt offset _ _ t b
apply_op-IsBuilt offset none (entry2 op) t b = passed_over _ offset t b
apply_op-IsBuilt offset (some dep) (entry2 op) t b =
    Ensures-if (leb index_limit op.index_map_from || leb index_limit op.index_map_to)
      (λ _. passed_over _ offset t b) λ _. copy_gid-IsBuilt offset t dep _ _ b
apply_op-IsBuilt offset none (entry3 op) t b = passed_over _ offset t b
apply_op-IsBuilt offset (some dep) (entry3 op) t b =
    Ensures-if (leb index_limit op.index_copy_from_start || leb index_limit op.index_copy_to_start)
      (λ _. passed_over _ offset t b)
      λ _.
        Ensures-if (op.entries_to_copy == 0) (λ _. Ensures-pure t b)
          λ _.
            Ensures-if (leb index_limit (op.index_copy_to_start + op.entries_to_copy - 1))
              (λ _. passed_over _ offset t b) λ _. copy_gids-IsBuilt offset dep _ _ _ t b

apply_ops-IsBuilt :
    (offset : Option ℕ) (dep : Option (Dict (List ℕ))) (ops : List GlobalIdTableOp) (t : GidTable)
    → IsBuilt t
    → Ensures IsBuilt (apply_ops offset dep ops t)
unfolding apply_ops
apply_ops-IsBuilt offset dep [] t b = Ensures-pure t b
apply_ops-IsBuilt offset dep (op ∷ ops) t b =
    Ensures-bind (apply_op-IsBuilt offset dep op t b)
      λ t' b'. apply_ops-IsBuilt offset dep ops t' b'

-- Whatever the operations of a sequence are, in the strict mode or not, a global id table that is built
-- from them has indices below 0xFFFFFF, no two of them the same, and no two GUIDs the same.
pub build_gid_table_from_sequence-IsGidTable :
    (seq : GlobalIdTableSequenceSummary) (dep : Option (Dict (List ℕ))) (offset : Option ℕ)
    (s t : State) (d : Dict (List ℕ))
    → build_gid_table_from_sequence seq dep offset s ≡ ok d t
    → IsGidTable d
unfolding build_gid_table_from_sequence IsGidTable guids_of
build_gid_table_from_sequence-IsGidTable seq dep offset s t d e =
    let start : IsBuilt no_gids = record { is_table = tt; guids = refl } in
    (Ensures-bind (apply_ops-IsBuilt offset dep seq.ops no_gids start)
        λ u b. Ensures-pure u.table b.is_table).holds
      s t d e
