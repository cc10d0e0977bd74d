-- ===== src/ObjectSpace/Meaning.antt =====
-- What the operations of a sequence say of the global id table, in the strict mode.
use aspose_note_foss_for_pyt.Prelude.{
  ℕ, zero, suc, ◌+◌, ◌-◌, ◌<◌, ◌≡◌, refl, ap, ◌∙◌, true, false, ◌||◌, Option, none, some, List, [],
  ◌∷◌, ◌==◌, leb, All, arith, Option-cases, inl, inr,
}
use aspose_note_foss_for_pyt.Context.{format_error}
use aspose_note_foss_for_pyt.Dict
use aspose_note_foss_for_pyt.Dict.{Dict}
use aspose_note_foss_for_pyt.Parser.{State, ok, pure}
use aspose_note_foss_for_pyt.Parser.Strictly.{
  Strictly, Strictly-map, Strictly-bind, Strictly-pure, Strictly-raise, Strictly-violation,
  Strictly-raise_if, Strictly-if,
}
use aspose_note_foss_for_pyt.FileNodeTypes.GlobalIdTable.{
  GlobalIdTableEntry2Fndx, GlobalIdTableEntry3Fndx,
}
use aspose_note_foss_for_pyt.ObjectSpace.Sequences.{
  GlobalIdTableOp, entry, entry2, entry3, GlobalIdTableSequenceSummary, index_limit, has_bytes,
}
use aspose_note_foss_for_pyt.ObjectSpace.Gids.{
  GidTable, no_gids, has_index, add_gid, copy_gid, copy_gids, apply_entry2, apply_entry3, apply_op,
  apply_ops, build_gid_table_from_sequence,
}

-- the entry of the dependency table, where there is such a table
unfoldable pub dependency_entry : Option (Dict (List ℕ)) → ℕ → Option (List ℕ)
dependency_entry none k = none
dependency_entry (some dep) k = Dict.get dep k

-- what the table `d` has to hold of an operation
unfoldable pub Meets : Option (Dict (List ℕ)) → Dict (List ℕ) → GlobalIdTableOp → Type 0
Meets dep d (entry op) = Dict.get d op.index ≡ some op.guid
Meets dep d (entry2 op) =
    (g : List ℕ) × (dependency_entry dep op.index_map_from ≡ some g)
    × (Dict.get d op.index_map_to ≡ some g)
Meets dep d (entry3 op) =
    (k : ℕ)
    → k < op.entries_to_copy
    → (g : List ℕ) × (dependency_entry dep (op.index_copy_from_start + k) ≡ some g)
      × (Dict.get d (op.index_copy_to_start + k) ≡ some g)

-- nothing is lost
Keeps : Dict (List ℕ) → Dict (List ℕ) → Type 0
Keeps d e = (k : ℕ) (g : List ℕ) → Dict.get d k ≡ some g → Dict.get e k ≡ some g

-- the entry `g` at `k` is there, and nothing is lost
record Adds (t : GidTable) (k : ℕ) (g : List ℕ) (u : GidTable) : Type 0 where
  there : Dict.get u.table k ≡ some g
  kept : Keeps t.table u.table

put-Keeps :
    (d : Dict (List ℕ)) (k : ℕ) (g : List ℕ) → has_index d k ≡ false → Keeps d (Dict.put k g d)
unfolding has_index Dict.get Dict.put Keeps
put-Keeps d k g fresh j h e = ground arith

add_gid-Adds :
    (offset : Option ℕ) (k : ℕ) (g : List ℕ) (t : GidTable)
    → Strictly (Adds t k g) (add_gid offset k g t)
unfolding add_gid Dict.get Dict.put
add_gid-Adds offset k g t =
    Strictly-if (leb index_limit k)
      (λ _. Strictly-violation "Global ID Table index MUST be < 0xFFFFFF" offset (pure t))
      λ _.
        Strictly-bind
          (Strictly-raise_if (has_index t.table k)
            (format_error "Global ID Table indices MUST be unique" offset))
          λ _ fresh.
            Strictly-bind
              (Strictly-raise_if (has_bytes t.guids g)
                (format_error "Global ID Table GUIDs MUST be unique" offset))
              λ _ _.
                Strictly-pure (record { table = Dict.put k g t.table; guids = g ∷ t.guids })
                  (record { there = ground arith; kept = put-Keeps t.table k g fresh })

-- what copying `count` entries adds
record Copies (dep : Dict (List ℕ)) (count from to : ℕ) (t u : GidTable) : Type 0 where
  there :
      (k : ℕ)
      → k < count
      → (g : List ℕ) × (Dict.get dep (from + k) ≡ some g) × (Dict.get u.table (to + k) ≡ some g)
  kept : Keeps t.table u.table

copy_more :
    (dep : Dict (List ℕ)) (count from to : ℕ) (t u v : GidTable) (g : List ℕ)
    → Dict.get dep from ≡ some g
    → Adds t to g u
    → Copies dep count (from + 1) (to + 1) u v
    → Copies dep (suc count) from to t v
unfolding Keeps
copy_more dep count from to t u v g e a c = record {
  there = λ k.
      elim k
        as (λ j.
          j < suc count
          → (h : List ℕ) × (Dict.get dep (from + j) ≡ some h)
            × (Dict.get v.table (to + j) ≡ some h)) [
              | zero ↦ λ less. (
                g,
                ap (Dict.get dep) (omega arith) ∙ e,
                ap (Dict.get v.table) (omega arith) ∙ c.kept to g a.there,
              )
              | suc j ↦ λ less.
                  let (h, e1, e2) = c.there j (omega arith) in
                  (
                    h,
                    ap (Dict.get dep) (omega arith) ∙ e1,
                    ap (Dict.get v.table) (omega arith) ∙ e2,
                  )
            ];
  kept = λ j h p. c.kept j h (a.kept j h p);
}

copy_gids-Copies :
    (offset : Option ℕ) (dep : Dict (List ℕ)) (count from to : ℕ) (t : GidTable)
    → Strictly (Copies dep count from to t) (copy_gids offset dep count from to t)
unfolding copy_gids Keeps
copy_gids-Copies offset dep zero from to t =
    Strictly-pure t (record { there = λ k less. absurd (omega arith); kept = λ j h p. p })
copy_gids-Copies offset dep (suc count) from to t = elim (Option-cases (Dict.get dep from)) [
  | inl e ↦ rw (e, copy_gids) (Strictly-raise _)
  | inr (g, e) ↦
      rw (e, copy_gids)
        (Strictly-bind (add_gid-Adds offset to g t) λ u a.
          Strictly-map (copy_gids-Copies offset dep count (from + 1) (to + 1) u)
            λ v c. copy_more dep count from to t u v g e a c)
]

copy_gid-Adds :
    (offset : Option ℕ) (t : GidTable) (dep : Dict (List ℕ)) (from to : ℕ)
    → Strictly
        (λ u. (g : List ℕ) × (Dict.get dep from ≡ some g) × Adds t to g u)
        (copy_gid offset t dep from to)
unfolding copy_gid
copy_gid-Adds offset t dep from to = elim (Option-cases (Dict.get dep from)) [
  | inl e ↦ rw (e, copy_gid) (Strictly-raise _)
  | inr (g, e) ↦ rw (e, copy_gid) (Strictly-map (add_gid-Adds offset to g t) λ u a. (g, refl, a))
]

-- an operation is met, and nothing is lost
record Applies (dep : Option (Dict (List ℕ))) (op : GlobalIdTableOp) (t u : GidTable) : Type 0 where
  meets : Meets dep u.table op
  kept : Keeps t.table u.table

apply_entry2-Applies :
    (offset : Option ℕ) (dep : Option (Dict (List ℕ))) (op : GlobalIdTableEntry2Fndx) (t : GidTable)
    → Strictly (Applies dep (entry2 op) t) (apply_entry2 offset dep op t)
unfolding apply_entry2 Meets dependency_entry
apply_entry2-Applies offset none op t =
    Strictly-violation "GlobalIdTableEntry2FNDX requires a dependency revision Global ID Table"
      offset (pure t)
apply_entry2-Applies offset (some dep) op t =
    Strictly-if (leb index_limit op.index_map_from || leb index_limit op.index_map_to)
      (λ _. Strictly-violation "GlobalIdTableEntry2FNDX indices MUST be < 0xFFFFFF" offset (pure t))
      λ _.
        Strictly-map (copy_gid-Adds offset t dep op.index_map_from op.index_map_to)
          λ u (g, e, a). record { meets = (g, e, a.there); kept = a.kept }

apply_entry3-Applies :
    (offset : Option ℕ) (dep : Option (Dict (List ℕ))) (op : GlobalIdTableEntry3Fndx) (t : GidTable)
    → Strictly (Applies dep (entry3 op) t) (apply_entry3 offset dep op t)
unfolding apply_entry3 Meets dependency_entry Keeps
apply_entry3-Applies offset none op t =
    Strictly-violation "GlobalIdTableEntry3FNDX requires a dependency revision Global ID Table"
      offset (pure t)
apply_entry3-Applies offset (some dep) op t =
    Strictly-if (leb index_limit op.index_copy_from_start || leb index_limit op.index_copy_to_start)
      (λ _. Strictly-violation "GlobalIdTableEntry3FNDX indices MUST be < 0xFFFFFF" offset (pure t))
      λ _.
        Strictly-if (op.entries_to_copy == 0)
          (λ e.
            Strictly-pure t (record { meets = λ k less. absurd (ground arith); kept = λ j h p. p }))
          λ _.
            Strictly-if (leb index_limit (op.index_copy_to_start + op.entries_to_copy - 1))
              (λ _.
                Strictly-violation "GlobalIdTableEntry3FNDX destination indices MUST be < 0xFFFFFF"
                  offset (pure t))
              λ _.
                Strictly-map
                  (copy_gids-Copies offset dep op.entries_to_copy op.index_copy_from_start
                    op.index_copy_to_start t)
                  λ u c. record { meets = c.there; kept = c.kept }

apply_op-Applies :
    (offset : Option ℕ) (dep : Option (Dict (List ℕ))) (op : GlobalIdTableOp) (t : GidTable)
    → Strictly (Applies dep op t) (apply_op offset dep op t)
unfolding apply_op Meets
apply_op-Applies offset dep (entry op) t =
    Strictly-map (add_gid-Adds offset op.index op.guid t)
      λ u a. record { meets = a.there; kept = a.kept }
apply_op-Applies offset dep (entry2 op) t = apply_entry2-Applies offset dep op t
apply_op-Applies offset dep (entry3 op) t = apply_entry3-Applies offset dep op t

Meets-Keeps :
    (dep : Option (Dict (List ℕ))) (op : GlobalIdTableOp) (d e : Dict (List ℕ))
    → Keeps d e
    → Meets dep d op
    → Meets dep e op
unfolding Meets Keeps
Meets-Keeps dep (entry op) d e k m = k _ _ m
Meets-Keeps dep (entry2 op) d e k (g, p, q) = (g, p, k _ _ q)
Meets-Keeps dep (entry3 op) d e k m = λ j less. let (g, p, q) = m j less in (g, p, k _ _ q)

apply_ops-Meets :
    (offset : Option ℕ) (dep : Option (Dict (List ℕ))) (ops : List GlobalIdTableOp) (t : GidTable)
    → Strictly
        (λ u. All (Meets dep u.table) ops × Keeps t.table u.table)
        (apply_ops offset dep ops t)
unfolding apply_ops Keeps
apply_ops-Meets offset dep [] t = Strictly-pure t (tt, λ j h p. p)
apply_ops-Meets offset dep (op ∷ ops) t = Strictly-bind (apply_op-Applies offset dep op t) λ u a.
    Strictly-map (apply_ops-Meets offset dep ops u)
      λ v (m, k). ((Meets-Keeps dep op u.table v.table k a.meets, m), λ j h p. k j h (a.kept j h p))

-- In the strict mode, a global id table that is built holds what every operation of the sequence says:
-- the GUID of an entry at its index, and for the two kinds of copies the entries of the dependency
-- table, which are all there. The state stays as it was: there are no warnings.
pub build_gid_table_from_sequence-Meets :
    (seq : GlobalIdTableSequenceSummary) (dep : Option (Dict (List ℕ))) (offset : Option ℕ)
    (s t : State) (d : Dict (List ℕ))
    → s.ctx.strict ≡ true
    → build_gid_table_from_sequence seq dep offset s ≡ ok d t
    → (t ≡ s) × All (Meets dep d) seq.ops
unfolding build_gid_table_from_sequence
build_gid_table_from_sequence-Meets seq dep offset s t d strict e =
    (Strictly-bind (apply_ops-Meets offset dep seq.ops no_gids)
        λ u m. Strictly-pure u.table m.0).holds
      s t d strict e
