-- ===== src/ObjectData/Ends.antt =====
-- The decoding of property sets ends: a set inside a set lies behind the two bytes of its count.
use aspose_note_foss_for_pyt.Prelude.{
  ℕ, zero, suc, ◌≢◌, List, [], ◌∷◌, Option, String, length, All, arith,
}
use aspose_note_foss_for_pyt.Io.{IsByte, BinaryReader}
use aspose_note_foss_for_pyt.Parser.{State, M, stuck}
use aspose_note_foss_for_pyt.Read.{peek_bytes, binary_reader}
use aspose_note_foss_for_pyt.Read.Progress.{
  Goes, Goes-bind, Goes-then, Goes-pure, Goes-raise, Goes-if, Goes-tell, Goes-read_u16, Goes-first,
  goes, Goes-ne-stuck,
}
use aspose_note_foss_for_pyt.CommonTypes.CompactId.{CompactId}
use aspose_note_foss_for_pyt.ObjectData.Streams.{
  repeat, parse_property_id, read_property_ids, parse_box, PropertyId, PropertySet,
}
use aspose_note_foss_for_pyt.ObjectData.Values.{
  RefCursor, ids_from, take_oid, take_osid, take_context, only_id,
}
use aspose_note_foss_for_pyt.ObjectData.Decode.{
  Take, Nested, decode_id, decode_ids, decode_sets, decode_fixed, decode_box, decode_array,
  decode_nested, unsupported, decode_value, decode_one_property, decode_properties, decode_set,
  decode_property_set_from_reader, decode_property_set, decode_rg_data, start_cursor, check_rest,
}

Goes-repeat {ℓ} : {A : Type ℓ} {n : ℕ} (k : ℕ) {m : M A} → Goes n 0 m → Goes n 0 (repeat k m)
unfolding repeat
Goes-repeat zero h = Goes-pure []
Goes-repeat (suc k) h = Goes-then h λ x. Goes-then (Goes-repeat k h) λ xs. Goes-pure (x ∷ xs)

Goes-parse_property_id : {n : ℕ} → Goes n 0 parse_property_id
unfolding parse_property_id
Goes-parse_property_id = search (goes) depth 16

Goes-read_property_ids : {n : ℕ} → Goes n 2 read_property_ids
unfolding read_property_ids
Goes-read_property_ids =
    search (goes, Goes-first, Goes-read_u16, Goes-repeat, Goes-parse_property_id) depth 16

-- taking ids does not move the reader
abbrev TakeGoes : Take → Type 0
TakeGoes take_ids = (k n : ℕ) (o : Option ℕ) (c : RefCursor) → Goes n 0 (take_ids k o c)

take_oid-Goes : TakeGoes take_oid
unfolding take_oid ids_from
take_oid-Goes k n o c = record { after = λ s v h. ground arith }

take_osid-Goes : TakeGoes take_osid
unfolding take_osid ids_from
take_osid-Goes k n o c = record { after = λ s v h. ground arith }

take_context-Goes : TakeGoes take_context
unfolding take_context ids_from
take_context-Goes k n o c = record { after = λ s v h. ground arith }

Goes-only_id : {n : ℕ} (ids : List CompactId) → Goes n 0 (only_id ids)
unfolding only_id
Goes-only_id [] = Goes-raise _
Goes-only_id (x ∷ []) = Goes-pure x
Goes-only_id (x ∷ y ∷ ids) = Goes-raise _

Goes-decode_id :
    {n : ℕ} {take_ids : Take} (c : RefCursor) → TakeGoes take_ids → Goes n 0 (decode_id take_ids c)
unfolding decode_id
Goes-decode_id c h = search (goes, Goes-only_id) depth 16

Goes-decode_ids :
    {n : ℕ} {take_ids : Take} (message : String) (c : RefCursor)
    → TakeGoes take_ids
    → Goes n 0 (decode_ids take_ids message c)
unfolding decode_ids
Goes-decode_ids message c h = search (goes) depth 16

Goes-decode_fixed : {n : ℕ} (k : ℕ) (c : RefCursor) → Goes n 0 (decode_fixed k c)
unfolding decode_fixed
Goes-decode_fixed k c = search (goes) depth 16

Goes-parse_box : {n : ℕ} → Goes n 0 parse_box
unfolding parse_box
Goes-parse_box = search (goes) depth 16

Goes-decode_box : {n : ℕ} (c : RefCursor) → Goes n 0 (decode_box c)
unfolding decode_box
Goes-decode_box c = search (goes, Goes-parse_box) depth 16

Goes-unsupported : {n : ℕ} → Goes n 0 unsupported
unfolding unsupported
Goes-unsupported = search (goes) depth 16

-- what is read inside a set, when the sets inside it end
module _ (n : ℕ) (nested : Nested) (h : (c : RefCursor) → Goes n 0 (nested c)) where
  Goes-decode_sets : (k : ℕ) (c : RefCursor) → Goes n 0 (decode_sets nested k c)
  unfolding decode_sets
  Goes-decode_sets zero c = Goes-pure _
  Goes-decode_sets (suc k) c = search (goes, Goes-decode_sets k) depth 16

  Goes-decode_array : (c : RefCursor) → Goes n 0 (decode_array nested c)
  unfolding decode_array
  Goes-decode_array c = search (goes, Goes-decode_sets, Goes-parse_property_id) depth 20

  Goes-decode_nested : (c : RefCursor) → Goes n 0 (decode_nested nested c)
  unfolding decode_nested
  Goes-decode_nested c = search (goes) depth 16

  Goes-decode_value : (p : PropertyId) (c : RefCursor) → Goes n 0 (decode_value nested p c)
  unfolding decode_value
  Goes-decode_value p c =
      search
        (
          Goes-if, Goes-pure, Goes-decode_fixed, Goes-decode_box, Goes-decode_id, Goes-decode_ids,
          take_oid-Goes, take_osid-Goes, take_context-Goes, Goes-decode_array, Goes-decode_nested,
          Goes-unsupported,
        )
        depth 20

  Goes-decode_one_property :
      (start : ℕ) (p : PropertyId) (c : RefCursor) → Goes n 0 (decode_one_property nested start p c)
  unfolding decode_one_property
  Goes-decode_one_property start p c = search (goes, Goes-decode_value) depth 16

  Goes-decode_properties :
      (start : ℕ) (ps : List PropertyId) (c : RefCursor)
      → Goes n 0 (decode_properties nested start ps c)
  unfolding decode_properties
  Goes-decode_properties start [] c = Goes-pure _
  Goes-decode_properties start (p ∷ ps) c =
      search (goes, Goes-decode_one_property, Goes-decode_properties start ps) depth 16

Goes-decode_set :
    (n : ℕ) (nested : Nested)
    → ((c : RefCursor) → Goes n 0 (nested c))
    → (c : RefCursor) → Goes (suc n) 0 (decode_set nested c)
unfolding decode_set
Goes-decode_set n nested h c = Goes-then Goes-tell λ start.
    Goes-bind n 2 0 (omega arith) (omega arith) Goes-read_property_ids
      λ ids. search (goes, Goes-decode_properties n nested h) depth 16

Goes-decode_property_set_from_reader :
    (fuel : ℕ) (c : RefCursor) → Goes fuel 0 (decode_property_set_from_reader fuel c)
unfolding decode_property_set_from_reader
Goes-decode_property_set_from_reader zero c = record {
  after = λ s v h. absurd (omega (arith, h, v.pos_le));
}
Goes-decode_property_set_from_reader (suc fuel) c =
    Goes-decode_set fuel _ (Goes-decode_property_set_from_reader fuel) c

abbrev reader_of : List ℕ → BinaryReader
reader_of buffer = record {
  buffer = buffer;
  bounds = record { start = 0; end = length buffer };
  pos = 0;
}

Goes-check_rest : {n : ℕ} → Goes n 0 check_rest
unfolding check_rest peek_bytes
Goes-check_rest = record { after = λ s v h. ground arith }

Goes-decode_rg_data :
    (ps : PropertySet) (c : RefCursor) → Goes (suc (length ps.rg_data)) 0 (decode_rg_data ps c)
unfolding decode_rg_data
Goes-decode_rg_data ps c =
    let nested = Goes-decode_property_set_from_reader (suc (length ps.rg_data)) in
    Goes-then Goes-tell λ start.
      Goes-then (Goes-decode_properties _ _ nested start ps.rg_prids c)
        λ props. Goes-then Goes-check_rest λ _. Goes-pure (props.0, props.1)

-- Decoding a property set whose rgData are bytes gives a result or raises: one more than the length of
-- rgData is enough fuel, however deep the sets are nested and whatever the counts in them are.
pub decode_property_set_terminates :
    (ps : PropertySet) (oids : List CompactId) (osids context_ids : Option (List CompactId))
    (s : State)
    → All IsByte ps.rg_data
    → decode_property_set ps oids osids context_ids s ≢ stuck
unfolding decode_property_set binary_reader
decode_property_set_terminates ps oids osids context_ids s b =
    let c : RefCursor = start_cursor oids osids context_ids in
    let r : State = record { reader = reader_of ps.rg_data; ctx = s.ctx } in
    let fine =
      Goes-ne-stuck (suc (length ps.rg_data)) 0 (decode_rg_data ps c) r (Goes-decode_rg_data ps c)
        (record { start_le = omega arith; pos_le = omega arith; end_le = omega arith; bytes = b })
        (omega arith) in
    ground arith
