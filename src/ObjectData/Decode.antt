-- ===== src/ObjectData/Decode.antt =====
-- The decoding of property sets in onestore/object_data.py. A set may hold sets; the recursion is on
-- fuel. The numbers of Python's recursion limit are not modelled. A count read from the data is not
-- negative, so the checks on a negative count are left out.
use aspose_note_foss_for_pyt.Prelude.{
  ℕ, zero, suc, ◌+◌, ◌-◌, ◌*◌, Bool, false, not, ◌&&◌, Option, none, some, List, [], ◌∷◌, ltb, leb,
  ◌==◌, String, length, replicate, bytes_eq, if◌then◌else◌,
}
use aspose_note_foss_for_pyt.Context.{format_error}
use aspose_note_foss_for_pyt.Parser.{
  M, out_of_fuel, pure, raise, raise_if, warn_if, violation_if, with_reader, ◌>>=◌, ◌>>◌,
}
use aspose_note_foss_for_pyt.Read.{tell, remaining, read_bytes, peek_bytes, read_u32, binary_reader}
use aspose_note_foss_for_pyt.CommonTypes.CompactId.{CompactId}
use aspose_note_foss_for_pyt.ObjectData.Values.{
  Value, no_value, bool_value, bytes_value, id_value, ids_value, set_value, sets_value,
  DecodedProperty, property, DecodedProperties, no_properties, property_and, DecodedPropertySet,
  property_set, DecodedSets, no_sets, set_and, RefCursor, take_oid, take_osid, take_context,
  only_id,
}
use aspose_note_foss_for_pyt.ObjectData.Streams.{
  PropertyId, PropertySet, ObjectSpaceObjectStream, ObjectSpaceObjectPropSet, parse_property_id,
  read_property_ids, parse_box,
}

abbrev pub Take : Type 0
Take = ℕ → Option ℕ → RefCursor → M (List CompactId × RefCursor)

-- the value of a property with the number of bytes of rgData that it takes
abbrev pub Decoded : Type 0
Decoded = Value × ℕ × RefCursor

-- the three types of one id, and the three of an array of ids
unfoldable pub decode_id : Take → RefCursor → M Decoded
unfolding tell
decode_id take_ids cursor = do
  at ← tell
  (ids, cursor') ← take_ids 1 (some at) cursor
  x ← only_id ids
  pure (id_value x, 0, cursor')

unfoldable pub decode_ids : Take → String → RefCursor → M Decoded
unfolding tell remaining
decode_ids take_ids message cursor = do
  left ← remaining
  at ← tell
  raise_if (ltb left 4) (format_error message (some at))
  count ← read_u32
  behind ← tell
  (ids, cursor') ← take_ids count (some (behind - 4)) cursor
  pure (ids_value ids, 4, cursor')

-- what a nested property set is read by
abbrev pub Nested : Type 0
Nested = RefCursor → M (DecodedPropertySet × RefCursor)

-- for _ in range(c)
unfoldable pub decode_sets : Nested → ℕ → RefCursor → M (DecodedSets × RefCursor)
decode_sets nested zero cursor = pure (no_sets, cursor)
decode_sets nested (suc c) cursor = do
  (set, cursor1) ← nested cursor
  (sets, cursor2) ← decode_sets nested c cursor1
  pure (set_and set sets, cursor2)

unfoldable pub decode_fixed : ℕ → RefCursor → M Decoded
unfolding tell remaining
decode_fixed n cursor = do
  left ← remaining
  at ← tell
  raise_if (ltb left n)
      (format_error "PropertySet rgData fixed-size value exceeds available data" (some at))
  raw ← read_bytes n
  pure (bytes_value raw, n, cursor)

unfoldable pub decode_box : RefCursor → M Decoded
unfolding tell
decode_box cursor = do
  start ← tell
  box ← parse_box
  behind ← tell
  pure (bytes_value box.contents, behind - start, cursor)

unfoldable pub decode_array : Nested → RefCursor → M Decoded
unfolding tell remaining
decode_array nested cursor = do
  start ← tell
  left ← remaining
  raise_if (ltb left 4) (format_error "prtArrayOfPropertyValues missing cProperties" (some start))
  c ← read_u32
  let elements = (do
    left2 ← remaining
    at ← tell
    raise_if (ltb left2 4) (format_error "prtArrayOfPropertyValues missing prid" (some at))
    elem_prid ← parse_property_id
    violation_if (not (elem_prid.prop_type == 0x11))
        "prtArrayOfPropertyValues.prid.type MUST be 0x11 (PropertySet)" (some start)
    (items, cursor') ← decode_sets nested c cursor
    behind ← tell
    pure (sets_value items, behind - start, cursor'))
  if c == 0 then pure (sets_value no_sets, 4, cursor) else elements

unfoldable pub decode_nested : Nested → RefCursor → M Decoded
unfolding tell
decode_nested nested cursor = do
  start ← tell
  (set, cursor') ← nested cursor
  behind ← tell
  pure (set_value set, behind - start, cursor')

unfoldable pub unsupported : M Decoded
unfolding tell
unsupported = do at ← tell; raise (format_error "Unsupported PropertyID.type" (some at))

-- the branches on the type
unfoldable pub decode_value : Nested → PropertyId → RefCursor → M Decoded
decode_value nested prid cursor =
    let t = prid.prop_type in
    if t == 0x01
    then pure (no_value, 0, cursor)
    else if t == 0x02
    then pure (bool_value prid.bool_value, 0, cursor)
    else if t == 0x03
    then decode_fixed 1 cursor
    else if t == 0x04
    then decode_fixed 2 cursor
    else if t == 0x05
    then decode_fixed 4 cursor
    else if t == 0x06
    then decode_fixed 8 cursor
    else if t == 0x07
    then decode_box cursor
    else if t == 0x08
    then decode_id take_oid cursor
    else if t == 0x09
    then decode_ids take_oid "PropertySet missing OID array length" cursor
    else if t == 0x0A
    then decode_id take_osid cursor
    else if t == 0x0B
    then decode_ids take_osid "PropertySet missing OSID array length" cursor
    else if t == 0x0C
    then decode_id take_context cursor
    else if t == 0x0D
    then decode_ids take_context "PropertySet missing ContextID array length" cursor
    else if t == 0x10
    then decode_array nested cursor
    else if t == 0x11
    then decode_nested nested cursor
    else unsupported

unfoldable pub decode_one_property :
    Nested → ℕ → PropertyId → RefCursor → M (DecodedProperty × RefCursor)
unfolding tell
decode_one_property nested rgdata_start prid cursor = do
  at ← tell
  (value, rgdata_length, cursor') ← decode_value nested prid cursor
  pure (property prid value (at - rgdata_start) rgdata_length, cursor')

-- for prid in prids
unfoldable pub decode_properties :
    Nested → ℕ → List PropertyId → RefCursor → M (DecodedProperties × RefCursor)
decode_properties nested rgdata_start [] cursor = pure (no_properties, cursor)
decode_properties nested rgdata_start (prid ∷ prids) cursor = do
  (p, cursor1) ← decode_one_property nested rgdata_start prid cursor
  (ps, cursor2) ← decode_properties nested rgdata_start prids cursor1
  pure (property_and p ps, cursor2)

-- the body of _decode_property_set_from_reader, with its recursive call as an argument
unfoldable pub decode_set : Nested → Nested
unfolding tell
decode_set nested cursor = do
  start ← tell
  (c_properties, prids) ← read_property_ids
  rgdata_start ← tell
  (props, cursor') ← decode_properties nested rgdata_start prids cursor
  rgdata_end ← tell
  pure (property_set c_properties props (rgdata_end - rgdata_start) (rgdata_end - start), cursor')

unfoldable pub decode_property_set_from_reader : ℕ → Nested
decode_property_set_from_reader zero cursor = out_of_fuel
decode_property_set_from_reader (suc fuel) cursor =
    decode_set (decode_property_set_from_reader fuel) cursor

-- whether the ids of a stream that is present are not all used
unfoldable pub is_left : Option (List CompactId) → ℕ → Bool
is_left none i = false
is_left (some ids) i = not (i == length ids)

-- what is left behind the properties
unfoldable pub check_rest : M (Unit {0})
unfolding tell remaining
check_rest = do
  rem ← remaining
  at ← tell
  tail ← peek_bytes rem
  violation_if (not (rem == 0) && not (leb rem 7 && bytes_eq tail (replicate rem 0)))
      "PropertySet rgData was not fully consumed" (some at)

unfoldable pub decode_rg_data : PropertySet → RefCursor → M (DecodedProperties × RefCursor)
unfolding tell
decode_rg_data prop_set cursor = do
  rgdata_start ← tell
  (props, cursor') ←
      decode_properties (decode_property_set_from_reader (suc (length prop_set.rg_data)))
        rgdata_start prop_set.rg_prids cursor
  check_rest
  pure (props, cursor')

abbrev pub start_cursor :
    List CompactId → Option (List CompactId) → Option (List CompactId) → RefCursor
start_cursor oids osids context_ids = record {
  oids = oids;
  osids = osids;
  context_ids = context_ids;
  i_oid = 0;
  i_osid = 0;
  i_ctx = 0;
}

unfoldable pub decode_property_set :
    PropertySet
    → List CompactId
    → Option (List CompactId)
    → Option (List CompactId)
    → M DecodedPropertySet
decode_property_set prop_set oids osids context_ids = do
  r ← binary_reader prop_set.rg_data 0 none 0
  (props, cursor) ← with_reader r (decode_rg_data prop_set (start_cursor oids osids context_ids))
  warn_if (not (cursor.i_oid == length cursor.oids)) "OIDs stream was not fully consumed" none
  warn_if (is_left cursor.osids cursor.i_osid) "OSIDs stream was not fully consumed" none
  warn_if (is_left cursor.context_ids cursor.i_ctx) "ContextIDs stream was not fully consumed" none
  pure (
      property_set prop_set.c_properties props (length prop_set.rg_data)
        (2 + 4 * prop_set.c_properties + length prop_set.rg_data))

-- ObjectSpaceObjectPropSet.decode_property_set
unfoldable pub body_of : Option ObjectSpaceObjectStream → Option (List CompactId)
body_of none = none
body_of (some stream) = some stream.body

unfoldable pub decode_object_prop_set : ObjectSpaceObjectPropSet → M DecodedPropertySet
decode_object_prop_set o =
    decode_property_set o.property_set o.oids.body (body_of o.osids) (body_of o.context_ids)
