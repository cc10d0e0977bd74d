-- ===== src/ObjectData/Values.antt =====
-- The values of properties and the cursor over the streams of ids, of onestore/object_data.py.
use aspose_note_foss_for_pyt.Prelude.{
  ℕ, ◌+◌, Bool, Option, none, some, List, [], ◌∷◌, ltb, String, length, take, drop,
}
use aspose_note_foss_for_pyt.Context.{format_error, value_error}
use aspose_note_foss_for_pyt.Parser.{M, pure, raise, raise_if, ◌>>=◌, ◌>>◌}
use aspose_note_foss_for_pyt.CommonTypes.CompactId.{CompactId}
use aspose_note_foss_for_pyt.ObjectData.Streams.{PropertyId}

-- a value, a property, and sets of properties
mutual
  pub data Value : Type 0 where
    no_value : Value
    bool_value : Bool → Value
    bytes_value : List ℕ → Value
    id_value : CompactId → Value
    ids_value : List CompactId → Value
    set_value : DecodedPropertySet → Value
    sets_value : DecodedSets → Value

  pub data DecodedProperty : Type 0 where
    property : PropertyId → Value → ℕ → ℕ → DecodedProperty

  pub data DecodedProperties : Type 0 where
    no_properties : DecodedProperties
    property_and : DecodedProperty → DecodedProperties → DecodedProperties

  pub data DecodedPropertySet : Type 0 where
    property_set : ℕ → DecodedProperties → ℕ → ℕ → DecodedPropertySet

  pub data DecodedSets : Type 0 where
    no_sets : DecodedSets
    set_and : DecodedPropertySet → DecodedSets → DecodedSets

-- _RefCursor
pub record RefCursor : Type 0 where
  pub oids : List CompactId
  pub osids : Option (List CompactId)
  pub context_ids : Option (List CompactId)
  pub i_oid : ℕ
  pub i_osid : ℕ
  pub i_ctx : ℕ

-- `n` ids from a stream, from the position `i` on
unfoldable pub ids_from : String → List CompactId → ℕ → ℕ → Option ℕ → M (List CompactId)
ids_from message ids i n offset = do
  raise_if (ltb (length ids) (i + n)) (format_error message offset)
  pure (take n (drop i ids))

unfoldable pub take_oid : ℕ → Option ℕ → RefCursor → M (List CompactId × RefCursor)
unfolding ids_from
take_oid n offset cursor = do
  out ← ids_from "OIDs stream does not contain enough CompactIDs" cursor.oids cursor.i_oid n offset
  pure (out, record cursor { i_oid = cursor.i_oid + n })

unfoldable pub take_osid : ℕ → Option ℕ → RefCursor → M (List CompactId × RefCursor)
unfolding ids_from
take_osid n offset cursor = elim cursor.osids [
  | none ↦ raise (format_error "OSIDs stream is required but not present" offset)
  | some ids ↦ do
    out ← ids_from "OSIDs stream does not contain enough CompactIDs" ids cursor.i_osid n offset
    pure (out, record cursor { i_osid = cursor.i_osid + n })
]

unfoldable pub take_context : ℕ → Option ℕ → RefCursor → M (List CompactId × RefCursor)
unfolding ids_from
take_context n offset cursor = elim cursor.context_ids [
  | none ↦ raise (format_error "ContextIDs stream is required but not present" offset)
  | some ids ↦ do
    out ← ids_from "ContextIDs stream does not contain enough CompactIDs" ids cursor.i_ctx n offset
    pure (out, record cursor { i_ctx = cursor.i_ctx + n })
]

-- (oid,) = …
unfoldable pub only_id : List CompactId → M CompactId
only_id (x ∷ []) = pure x
only_id _ = raise (value_error "not one value to unpack")
