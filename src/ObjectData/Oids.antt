-- ===== src/ObjectData/Oids.antt =====
-- The ids that a decoded property set holds are those that the stream of OIDs gave out.
use aspose_note_foss_for_pyt.Prelude.{
  ℕ, zero, suc, ◌+◌, ◌≡◌, refl, ◌==◌, List, [], ◌∷◌, ◌++◌, Option, some, none, drop, length, ltb,
  ◌-◌, ◌*◌, not,
}
use aspose_note_foss_for_pyt.Context.{format_error}
use aspose_note_foss_for_pyt.Parser.{State, ok, warn_if, raise_if, violation_if}
use aspose_note_foss_for_pyt.Read.{binary_reader, tell, remaining, read_u32}
use aspose_note_foss_for_pyt.Parser.Ensures.{
  Ensures, Ensures-with_reader, Ensures-bind, Ensures-after, Ensures-pure, Ensures-raise,
  Ensures-if,
}
use aspose_note_foss_for_pyt.CommonTypes.CompactId.{CompactId}
use aspose_note_foss_for_pyt.ObjectData.Streams.{
  PropertyId, PropertySet, parse_property_id, read_property_ids,
}
use aspose_note_foss_for_pyt.ObjectData.Values.{
  RefCursor, take_oid, take_osid, take_context, no_value, bool_value, set_value, sets_value,
  DecodedProperty, property, DecodedProperties, no_properties, property_and, DecodedPropertySet,
  property_set, DecodedSets, no_sets, set_and,
}
use aspose_note_foss_for_pyt.ObjectData.Decode.{
  Nested, decode_sets, decode_array, decode_nested, unsupported, decode_value, decode_one_property,
  decode_properties, decode_set, decode_property_set_from_reader, decode_property_set,
  decode_rg_data, start_cursor, check_rest, is_left,
}
use aspose_note_foss_for_pyt.ObjectData.Used.{
  Used, Used-none, Used-append, UsedValue, take_osid-Ensures, take_context-Ensures,
  take_oid-Ensures, decode_id-Ensures, decode_ids-Ensures, decode_fixed-Ensures, decode_box-Ensures,
  oids_of_value, oids_of_property, oids_of_properties, oids_of_set, oids_of_sets,
}

-- what is read inside a set, when the sets inside it hold the ids that they use
abbrev NestedUses : Nested → Type 0
NestedUses nested =
    (c : RefCursor)
    → Ensures (λ (r : DecodedPropertySet × RefCursor). Used c (oids_of_set r.0) r.1) (nested c)

module _ (nested : Nested) (h : NestedUses nested) where
  decode_sets-Ensures :
      (k : ℕ) (c : RefCursor)
      → Ensures
          (λ (r : DecodedSets × RefCursor). Used c (oids_of_sets r.0) r.1)
          (decode_sets nested k c)
  unfolding decode_sets oids_of_sets
  decode_sets-Ensures zero c = Ensures-pure (no_sets, c) (Used-none c c refl refl)
  decode_sets-Ensures (suc k) c = Ensures-bind (h c) λ r p.
      Ensures-bind (decode_sets-Ensures k r.1)
        λ q p2. Ensures-pure (set_and r.0 q.0, q.1) (Used-append c r.1 q.1 _ _ p p2)

  decode_array-Ensures : (t : ℕ) (c : RefCursor) → Ensures (UsedValue t c) (decode_array nested c)
  unfolding decode_array oids_of_value
  decode_array-Ensures t c = Ensures-after tell λ start. Ensures-after remaining λ left.
      Ensures-after
        (raise_if (ltb left 4)
          (format_error "prtArrayOfPropertyValues missing cProperties" (some start)))
        λ _. Ensures-after read_u32 λ k.
          Ensures-if (k == 0)
            (λ _. Ensures-pure (sets_value no_sets, 4, c) (Used-none c c refl refl))
            λ _. Ensures-after remaining λ left2. Ensures-after tell λ at.
              Ensures-after
                (raise_if (ltb left2 4)
                  (format_error "prtArrayOfPropertyValues missing prid" (some at)))
                λ _. Ensures-after parse_property_id λ prid.
                  Ensures-after
                    (violation_if (not (prid.prop_type == 0x11))
                      "prtArrayOfPropertyValues.prid.type MUST be 0x11 (PropertySet)" (some start))
                    λ _. Ensures-bind (decode_sets-Ensures k c) λ r p.
                      Ensures-after tell
                        λ behind. Ensures-pure (sets_value r.0, behind - start, r.1) p

  decode_nested-Ensures : (t : ℕ) (c : RefCursor) → Ensures (UsedValue t c) (decode_nested nested c)
  unfolding decode_nested oids_of_value
  decode_nested-Ensures t c = Ensures-after tell λ start.
      Ensures-bind (h c)
        λ r p. Ensures-after tell λ behind. Ensures-pure (set_value r.0, behind - start, r.1) p

  decode_value-Ensures :
      (prid : PropertyId) (c : RefCursor)
      → Ensures (UsedValue prid.prop_type c) (decode_value nested prid c)
  unfolding decode_value oids_of_value unsupported
  decode_value-Ensures prid c =
      let t = prid.prop_type in
      let none_used = Used-none c c refl refl in
      Ensures-if (t == 1) (λ _. Ensures-pure (no_value, 0, c) none_used)
        λ _.
          Ensures-if (t == 2) (λ _. Ensures-pure (bool_value prid.bool_value, 0, c) none_used)
            λ _.
              Ensures-if (t == 3) (λ _. decode_fixed-Ensures t 1 c)
                λ _.
                  Ensures-if (t == 4) (λ _. decode_fixed-Ensures t 2 c)
                    λ _.
                      Ensures-if (t == 5) (λ _. decode_fixed-Ensures t 4 c)
                        λ _.
                          Ensures-if (t == 6) (λ _. decode_fixed-Ensures t 8 c)
                            λ _.
                              Ensures-if (t == 7) (λ _. decode_box-Ensures t c)
                                λ _.
                                  Ensures-if (t == 8)
                                    (λ e.
                                      decode_id-Ensures c t take_oid (Used c)
                                        (λ n o. take_oid-Ensures n o c) λ x d p. rw e p)
                                    λ e8.
                                      Ensures-if (t == 9)
                                        (λ e.
                                          decode_ids-Ensures c t take_oid (Used c)
                                            (λ n o. take_oid-Ensures n o c)
                                            "PropertySet missing OID array length" λ x d p. rw e p)
                                        λ e9.
                                          Ensures-if (t == 10)
                                            (λ e.
                                              decode_id-Ensures c t take_osid (λ _. Used c [])
                                                (λ n o. take_osid-Ensures n o c) λ x d p. rw e8 p)
                                            λ _.
                                              Ensures-if (t == 11)
                                                (λ e.
                                                  decode_ids-Ensures c t take_osid (λ _. Used c [])
                                                    (λ n o. take_osid-Ensures n o c)
                                                    "PropertySet missing OSID array length"
                                                    λ x d p. rw e9 p)
                                                λ _.
                                                  Ensures-if (t == 12)
                                                    (λ e.
                                                      decode_id-Ensures c t take_context
                                                        (λ _. Used c [])
                                                        (λ n o. take_context-Ensures n o c)
                                                        λ x d p. rw e8 p)
                                                    λ _.
                                                      Ensures-if (t == 13)
                                                        (λ e.
                                                          decode_ids-Ensures c t take_context
                                                            (λ _. Used c [])
                                                            (λ n o. take_context-Ensures n o c)
                                                            "PropertySet missing ContextID array length"
                                                            λ x d p. rw e9 p)
                                                        λ _.
                                                          Ensures-if (t == 16)
                                                            (λ _. decode_array-Ensures t c)
                                                            λ _.
                                                            Ensures-if (t == 17)
                                                            (λ _. decode_nested-Ensures t c)
                                                            λ _. Ensures-after tell λ at.
                                                            Ensures-raise (
                                                            format_error
                                                            "Unsupported PropertyID.type" (some at))

  decode_one_property-Ensures :
      (start : ℕ) (prid : PropertyId) (c : RefCursor)
      → Ensures
          (λ (r : DecodedProperty × RefCursor). Used c (oids_of_property r.0) r.1)
          (decode_one_property nested start prid c)
  unfolding decode_one_property oids_of_property
  decode_one_property-Ensures start prid c = Ensures-after tell λ at.
      Ensures-bind (decode_value-Ensures prid c)
        λ r u. Ensures-pure (property prid r.0 (at - start) r.1, r.2) u

  decode_properties-Ensures :
      (start : ℕ) (prids : List PropertyId) (c : RefCursor)
      → Ensures
          (λ (r : DecodedProperties × RefCursor). Used c (oids_of_properties r.0) r.1)
          (decode_properties nested start prids c)
  unfolding decode_properties oids_of_properties
  decode_properties-Ensures start [] c = Ensures-pure (no_properties, c) (Used-none c c refl refl)
  decode_properties-Ensures start (prid ∷ prids) c =
      Ensures-bind (decode_one_property-Ensures start prid c) λ r u.
        Ensures-bind (decode_properties-Ensures start prids r.1)
          λ q w. Ensures-pure (property_and r.0 q.0, q.1) (Used-append c r.1 q.1 _ _ u w)

decode_set-Ensures : (nested : Nested) → NestedUses nested → NestedUses (decode_set nested)
unfolding decode_set oids_of_set
decode_set-Ensures nested h c = Ensures-after tell λ start. Ensures-after read_property_ids λ ids.
    Ensures-after tell λ rgdata_start.
      Ensures-bind (decode_properties-Ensures nested h rgdata_start ids.1 c) λ r u.
        Ensures-after tell λ behind.
          Ensures-pure (property_set ids.0 r.0 (behind - rgdata_start) (behind - start), r.1) u

decode_property_set_from_reader-Ensures :
    (fuel : ℕ) → NestedUses (decode_property_set_from_reader fuel)
unfolding decode_property_set_from_reader
decode_property_set_from_reader-Ensures zero c = record { holds = λ s t a e. cc }
decode_property_set_from_reader-Ensures (suc fuel) c =
    decode_set-Ensures _ (decode_property_set_from_reader-Ensures fuel) c

decode_rg_data-Ensures :
    (prop_set : PropertySet) (c : RefCursor)
    → Ensures
        (λ (r : DecodedProperties × RefCursor). Used c (oids_of_properties r.0) r.1)
        (decode_rg_data prop_set c)
unfolding decode_rg_data
decode_rg_data-Ensures prop_set c =
    let nested = decode_property_set_from_reader-Ensures (suc (length prop_set.rg_data)) in
    Ensures-after tell λ start.
      Ensures-bind (decode_properties-Ensures _ nested start prop_set.rg_prids c)
        λ r u. Ensures-after check_rest λ _. Ensures-pure (r.0, r.1) u

decode_property_set-Ensures :
    (prop_set : PropertySet) (oids : List CompactId) (osids context_ids : Option (List CompactId))
    → Ensures
        (λ set. (rest : List CompactId) × (oids ≡ oids_of_set set ++ rest))
        (decode_property_set prop_set oids osids context_ids)
unfolding decode_property_set oids_of_set drop
decode_property_set-Ensures prop_set oids osids context_ids =
    let c : RefCursor = start_cursor oids osids context_ids in
    Ensures-after (binary_reader prop_set.rg_data 0 none 0) λ r.
      Ensures-bind (Ensures-with_reader r (decode_rg_data-Ensures prop_set c)) λ res used.
        Ensures-after
          (warn_if (not (res.1.i_oid == length res.1.oids)) "OIDs stream was not fully consumed"
            none)
          λ _.
            Ensures-after
              (warn_if (is_left res.1.osids res.1.i_osid) "OSIDs stream was not fully consumed"
                none)
              λ _.
                Ensures-after
                  (warn_if (is_left res.1.context_ids res.1.i_ctx)
                    "ContextIDs stream was not fully consumed" none)
                  λ _.
                    Ensures-pure
                      (property_set prop_set.c_properties res.0 (length prop_set.rg_data)
                        (2 + 4 * prop_set.c_properties + length prop_set.rg_data))
                      (drop res.1.i_oid res.1.oids, used.ids)

-- When the decoding of a property set succeeds, the OIDs of the result, those of nested sets included
-- and in the order of the properties, are a prefix of the stream of OIDs: none is left out, repeated or
-- made up.
pub decode_property_set-oids :
    (prop_set : PropertySet) (oids : List CompactId) (osids context_ids : Option (List CompactId))
    (s t : State) (set : DecodedPropertySet)
    → decode_property_set prop_set oids osids context_ids s ≡ ok set t
    → (rest : List CompactId) × (oids ≡ oids_of_set set ++ rest)
decode_property_set-oids prop_set oids osids context_ids s t set e =
    (decode_property_set-Ensures prop_set oids osids context_ids).holds s t set e
