-- ===== src/ObjectData/Used.antt =====
-- The ids that a decoded value holds, and what is read of one value, by the ids that it takes.
use aspose_note_foss_for_pyt.Prelude.{
  ℕ, ◌+◌, ◌≡◌, refl, ap, sym, ◌∙◌, if◌then◌else◌, ◌==◌, List, [], ◌∷◌, ◌++◌, Option, some, take,
  drop, drop-drop, take-append-drop, append_assoc, arith, String, ltb, ◌-◌,
}
use aspose_note_foss_for_pyt.Context.{format_error}
use aspose_note_foss_for_pyt.Parser.{raise_if}
use aspose_note_foss_for_pyt.Read.{tell, remaining, read_bytes, read_u32}
use aspose_note_foss_for_pyt.Parser.Ensures.{
  Ensures, Ensures-bind, Ensures-after, Ensures-pure, Ensures-raise,
}
use aspose_note_foss_for_pyt.CommonTypes.CompactId.{CompactId}
use aspose_note_foss_for_pyt.ObjectData.Streams.{parse_box}
use aspose_note_foss_for_pyt.ObjectData.Values.{
  RefCursor, ids_from, take_oid, take_osid, take_context, only_id, Value, no_value, bool_value,
  bytes_value, id_value, ids_value, set_value, sets_value, DecodedProperty, property,
  DecodedProperties, no_properties, property_and, DecodedPropertySet, property_set, DecodedSets,
  no_sets, set_and,
}
use aspose_note_foss_for_pyt.ObjectData.Decode.{
  Take, Decoded, decode_id, decode_ids, decode_fixed, decode_box,
}

-- the OIDs of a value of the type `t`, in the order of the properties
unfoldable mutual
  pub oids_of_value : ℕ → Value → List CompactId
  oids_of_value t no_value = []
  oids_of_value t (bool_value b) = []
  oids_of_value t (bytes_value bs) = []
  oids_of_value t (id_value x) = if t == 0x08 then x ∷ [] else []
  oids_of_value t (ids_value xs) = if t == 0x09 then xs else []
  oids_of_value t (set_value set) = oids_of_set set
  oids_of_value t (sets_value sets) = oids_of_sets sets

  pub oids_of_property : DecodedProperty → List CompactId
  oids_of_property (property prid value offset size) = oids_of_value prid.prop_type value

  pub oids_of_properties : DecodedProperties → List CompactId
  oids_of_properties no_properties = []
  oids_of_properties (property_and p ps) = oids_of_property p ++ oids_of_properties ps

  pub oids_of_set : DecodedPropertySet → List CompactId
  oids_of_set (property_set c_properties ps rgdata_size encoded_size) = oids_of_properties ps

  pub oids_of_sets : DecodedSets → List CompactId
  oids_of_sets no_sets = []
  oids_of_sets (set_and set sets) = oids_of_set set ++ oids_of_sets sets

-- from the cursor `c`, the ids `xs` of the stream are used, and the cursor is `d`
pub record Used (c : RefCursor) (xs : List CompactId) (d : RefCursor) : Type 0 where
  pub stream : d.oids ≡ c.oids
  pub ids : drop c.i_oid c.oids ≡ xs ++ drop d.i_oid d.oids

pub Used-none : (c d : RefCursor) → d.oids ≡ c.oids → d.i_oid ≡ c.i_oid → Used c [] d
Used-none c d h k = record { stream = h; ids = rw (h, k) refl }

pub Used-append :
    (b c d : RefCursor) (xs ys : List CompactId) → Used b xs c → Used c ys d → Used b (xs ++ ys) d
Used-append b c d xs ys h k = record {
  stream = k.stream ∙ h.stream;
  ids = h.ids ∙ ap (λ r. xs ++ r) k.ids ∙ sym (append_assoc xs ys _);
}

Used-take :
    (n : ℕ) (c : RefCursor)
    → Used c (take n (drop c.i_oid c.oids)) (record c { i_oid = c.i_oid + n })
Used-take n c = record {
  stream = refl;
  ids = sym (
      ap (λ r. take n (drop c.i_oid c.oids) ++ r) (sym (drop-drop n c.i_oid c.oids))
      ∙ take-append-drop n _);
}

-- what is read of one value of the type `t`
abbrev pub UsedValue : ℕ → RefCursor → Decoded → Type 0
UsedValue t c (v, n, d) = Used c (oids_of_value t v) d

-- ids of another stream
pub take_osid-Ensures :
    (n : ℕ) (o : Option ℕ) (c : RefCursor)
    → Ensures (λ (r : List CompactId × RefCursor). Used c [] r.1) (take_osid n o c)
unfolding take_osid ids_from
take_osid-Ensures n o c = record {
  holds = λ s t r e. Used-none c r.1 (ground arith) (ground arith);
}

pub take_context-Ensures :
    (n : ℕ) (o : Option ℕ) (c : RefCursor)
    → Ensures (λ (r : List CompactId × RefCursor). Used c [] r.1) (take_context n o c)
unfolding take_context ids_from
take_context-Ensures n o c = record {
  holds = λ s t r e. Used-none c r.1 (ground arith) (ground arith);
}

ids_from-Ensures :
    (message : String) (ids : List CompactId) (i n : ℕ) (o : Option ℕ)
    → Ensures (λ xs. xs ≡ take n (drop i ids)) (ids_from message ids i n o)
unfolding ids_from
ids_from-Ensures message ids i n o = record { holds = λ s t r e. ground arith }

pub take_oid-Ensures :
    (n : ℕ) (o : Option ℕ) (c : RefCursor)
    → Ensures (λ (r : List CompactId × RefCursor). Used c r.0 r.1) (take_oid n o c)
unfolding take_oid ids_from
take_oid-Ensures n o c =
    Ensures-bind (ids_from-Ensures _ c.oids c.i_oid n o)
      λ ids h. Ensures-pure (ids, record c { i_oid = c.i_oid + n }) (rw h (Used-take n c))

only_id-Ensures : (ids : List CompactId) → Ensures (λ x. ids ≡ x ∷ []) (only_id ids)
unfolding only_id
only_id-Ensures [] = Ensures-raise _
only_id-Ensures (x ∷ []) = Ensures-pure x refl
only_id-Ensures (x ∷ y ∷ ids) = Ensures-raise _

-- the types of one id and of an array of ids, by what taking ids does
module _ (c : RefCursor) (t : ℕ) (take_ids : Take) (Takes : List CompactId → RefCursor → Type 0)
    (taken : (n : ℕ) (o : Option ℕ)
      → Ensures (λ (r : List CompactId × RefCursor). Takes r.0 r.1) (take_ids n o c)) where
  pub decode_id-Ensures :
      ((x : CompactId) (d : RefCursor) → Takes (x ∷ []) d → Used c (oids_of_value t (id_value x)) d)
      → Ensures (UsedValue t c) (decode_id take_ids c)
  unfolding decode_id
  decode_id-Ensures h = Ensures-after tell λ at. Ensures-bind (taken 1 (some at)) λ r p.
      Ensures-bind (only_id-Ensures r.0)
        λ x e. Ensures-pure (id_value x, 0, r.1) (h x r.1 (rw (sym e) p))

  pub decode_ids-Ensures :
      (message : String)
      → ((xs : List CompactId) (d : RefCursor)
          → Takes xs d
          → Used c (oids_of_value t (ids_value xs)) d)
      → Ensures (UsedValue t c) (decode_ids take_ids message c)
  unfolding decode_ids
  decode_ids-Ensures message h = Ensures-after remaining λ left. Ensures-after tell λ at.
      Ensures-after (raise_if (ltb left 4) (format_error message (some at))) λ _.
        Ensures-after read_u32 λ count. Ensures-after tell λ behind.
          Ensures-bind (taken count (some (behind - 4)))
            λ r p. Ensures-pure (ids_value r.0, 4, r.1) (h r.0 r.1 p)

pub decode_fixed-Ensures : (t n : ℕ) (c : RefCursor) → Ensures (UsedValue t c) (decode_fixed n c)
unfolding decode_fixed oids_of_value
decode_fixed-Ensures t n c = Ensures-after remaining λ left. Ensures-after tell λ at.
    Ensures-after
      (raise_if (ltb left n)
        (format_error "PropertySet rgData fixed-size value exceeds available data" (some at)))
      λ _.
        Ensures-after (read_bytes n)
          λ raw. Ensures-pure (bytes_value raw, n, c) (Used-none c c refl refl)

pub decode_box-Ensures : (t : ℕ) (c : RefCursor) → Ensures (UsedValue t c) (decode_box c)
unfolding decode_box oids_of_value
decode_box-Ensures t c = Ensures-after tell λ start. Ensures-after parse_box λ box.
    Ensures-after tell
      λ behind. Ensures-pure (bytes_value box.contents, behind - start, c) (Used-none c c refl refl)
