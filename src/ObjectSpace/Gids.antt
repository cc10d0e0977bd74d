-- ===== src/ObjectSpace/Gids.antt =====
-- The global id tables of onestore/object_space.py and the ids that they resolve. The message on a
-- missing index leaves out the index; the check on a negative count is left out.
use aspose_note_foss_for_pyt.Prelude.{
  ℕ, zero, suc, ◌+◌, ◌-◌, Bool, true, false, ◌||◌, Option, none, some, List, [], ◌∷◌, ◌==◌, leb,
  if◌then◌else◌,
}
use aspose_note_foss_for_pyt.Dict
use aspose_note_foss_for_pyt.Dict.{Dict}
use aspose_note_foss_for_pyt.Context.{format_error}
use aspose_note_foss_for_pyt.Parser.{M, pure, raise, raise_if, violation_if, ◌>>=◌, ◌>>◌}
use aspose_note_foss_for_pyt.CommonTypes.CompactId.{CompactId}
use aspose_note_foss_for_pyt.CommonTypes.ExtendedGuid.{ExtendedGuid, zero_guid}
use aspose_note_foss_for_pyt.FileNodeTypes.GlobalIdTable.{
  GlobalIdTableEntry2Fndx, GlobalIdTableEntry3Fndx,
}
use aspose_note_foss_for_pyt.ObjectSpace.Sequences.{
  GlobalIdTableOp, entry, entry2, entry3, GlobalIdTableSequenceSummary, index_limit, has_bytes,
}

-- table and guid_to_index, of which only the keys are used
pub record GidTable : Type 0 where
  pub table : Dict (List ℕ)
  pub guids : List (List ℕ)

abbrev pub no_gids : GidTable
no_gids = record { table = []; guids = [] }

unfoldable pub has_index : Dict (List ℕ) → ℕ → Bool
has_index d k = elim (Dict.get d k) [ none ↦ false | some _ ↦ true ]

-- _add
unfoldable pub add_gid : Option ℕ → ℕ → List ℕ → GidTable → M GidTable
add_gid offset index guid t =
    let too_large = (do
      violation_if true "Global ID Table index MUST be < 0xFFFFFF" offset
      pure t) in
    let added = (do
      raise_if (has_index t.table index)
          (format_error "Global ID Table indices MUST be unique" offset)
      raise_if (has_bytes t.guids guid) (format_error "Global ID Table GUIDs MUST be unique" offset)
      pure (record { table = Dict.put index guid t.table; guids = guid ∷ t.guids })) in
    if leb index_limit index then too_large else added

-- one entry of the dependency table
unfoldable pub copy_gid : Option ℕ → GidTable → Dict (List ℕ) → ℕ → ℕ → M GidTable
copy_gid offset t dep from to = elim (Dict.get dep from) [
  | none ↦ raise (
      format_error "GlobalIdTableEntry2FNDX.iIndexMapFrom MUST exist in the dependency table"
        offset)
  | some g ↦ add_gid offset to g t
]

-- for k in range(count)
unfoldable pub copy_gids : Option ℕ → Dict (List ℕ) → ℕ → ℕ → ℕ → GidTable → M GidTable
copy_gids offset dep zero from to t = pure t
copy_gids offset dep (suc count) from to t = elim (Dict.get dep from) [
  | none ↦ raise (
      format_error "GlobalIdTableEntry3FNDX source range MUST exist in the dependency table" offset)
  | some g ↦ do t' ← add_gid offset to g t; copy_gids offset dep count (from + 1) (to + 1) t'
]

unfoldable pub apply_entry2 :
    Option ℕ → Option (Dict (List ℕ)) → GlobalIdTableEntry2Fndx → GidTable → M GidTable
apply_entry2 offset none op t = do
  violation_if true "GlobalIdTableEntry2FNDX requires a dependency revision Global ID Table" offset
  pure t
apply_entry2 offset (some dep) op t =
    let too_large = (do
      violation_if true "GlobalIdTableEntry2FNDX indices MUST be < 0xFFFFFF" offset
      pure t) in
    if leb index_limit op.index_map_from || leb index_limit op.index_map_to
    then too_large
    else copy_gid offset t dep op.index_map_from op.index_map_to

unfoldable pub apply_entry3 :
    Option ℕ → Option (Dict (List ℕ)) → GlobalIdTableEntry3Fndx → GidTable → M GidTable
apply_entry3 offset none op t = do
  violation_if true "GlobalIdTableEntry3FNDX requires a dependency revision Global ID Table" offset
  pure t
apply_entry3 offset (some dep) op t =
    let too_large = (do
      violation_if true "GlobalIdTableEntry3FNDX indices MUST be < 0xFFFFFF" offset
      pure t) in
    let outside = (do
      violation_if true "GlobalIdTableEntry3FNDX destination indices MUST be < 0xFFFFFF" offset
      pure t) in
    if leb index_limit op.index_copy_from_start || leb index_limit op.index_copy_to_start
    then too_large
    else if op.entries_to_copy == 0
    then pure t
    else if leb index_limit (op.index_copy_to_start + op.entries_to_copy - 1)
    then outside
    else copy_gids offset dep op.entries_to_copy op.index_copy_from_start op.index_copy_to_start t

unfoldable pub apply_op :
    Option ℕ → Option (Dict (List ℕ)) → GlobalIdTableOp → GidTable → M GidTable
apply_op offset dep (entry op) t = add_gid offset op.index op.guid t
apply_op offset dep (entry2 op) t = apply_entry2 offset dep op t
apply_op offset dep (entry3 op) t = apply_entry3 offset dep op t

-- for op in seq.ops
unfoldable pub apply_ops :
    Option ℕ → Option (Dict (List ℕ)) → List GlobalIdTableOp → GidTable → M GidTable
apply_ops offset dep [] t = pure t
apply_ops offset dep (op ∷ ops) t = do t' ← apply_op offset dep op t; apply_ops offset dep ops t'

unfoldable pub build_gid_table_from_sequence :
    GlobalIdTableSequenceSummary → Option (Dict (List ℕ)) → Option ℕ → M (Dict (List ℕ))
build_gid_table_from_sequence seq dependency offset = do
  t ← apply_ops offset dependency seq.ops no_gids
  pure t.table

-- what an id stands for, and what stands in for it where there is a warning
unfoldable pub resolve_compact_id_to_extended_guid :
    CompactId → Option (Dict (List ℕ)) → Option ℕ → M ExtendedGuid
resolve_compact_id_to_extended_guid oid none offset = do
  violation_if true "CompactID resolution requires an in-scope Global ID Table" offset
  pure (record { guid = zero_guid; n = oid.n })
resolve_compact_id_to_extended_guid oid (some table) offset = elim (Dict.get table oid.guid_index) [
  | none ↦ do
    violation_if true "CompactID.guidIndex is not present in the effective Global ID Table" offset
    pure (record { guid = zero_guid; n = oid.n })
  | some guid ↦ pure (record { guid = guid; n = oid.n })
]

-- _sorted_gid_table_items: by the index
unfoldable pub insert_item : ℕ × List ℕ → List (ℕ × List ℕ) → List (ℕ × List ℕ)
insert_item x [] = x ∷ []
insert_item x (y ∷ ys) = if leb x.0 y.0 then x ∷ y ∷ ys else y ∷ insert_item x ys

unfoldable pub sorted_gid_table_items : Dict (List ℕ) → List (ℕ × List ℕ)
sorted_gid_table_items [] = []
sorted_gid_table_items (x ∷ xs) = insert_item x (sorted_gid_table_items xs)
