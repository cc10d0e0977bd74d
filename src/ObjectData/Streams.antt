-- ===== src/ObjectData/Streams.antt =====
-- The streams of ids and the property ids of onestore/object_data.py.
use aspose_note_foss_for_pyt.Prelude.{
  ℕ, zero, suc, ◌-◌, ◌*◌, Bool, not, Option, none, some, List, [], ◌∷◌, ltb, leb, ◌==◌,
  if◌then◌else◌,
}
use aspose_note_foss_for_pyt.Context.{format_error}
use aspose_note_foss_for_pyt.Io.{low_bits, shr}
use aspose_note_foss_for_pyt.Parser.{M, pure, raise_if, violation_if, with_reader, ◌>>=◌, ◌>>◌}
use aspose_note_foss_for_pyt.Read.{
  tell, remaining, read_bytes, read_u16, read_u32, binary_reader, view,
}
use aspose_note_foss_for_pyt.CommonTypes.CompactId
use aspose_note_foss_for_pyt.CommonTypes.CompactId.{CompactId}
use aspose_note_foss_for_pyt.CommonTypes.Jcid.{bit}

-- tuple(m for _ in range(n))
unfoldable pub repeat {ℓ} : {A : Type ℓ} → ℕ → M A → M (List A)
repeat zero m = pure []
repeat (suc n) m = do x ← m; xs ← repeat n m; pure (x ∷ xs)

pub record ObjectSpaceObjectStreamHeader : Type 0 where
  pub raw : ℕ
  pub count : ℕ
  pub reserved : ℕ
  pub extended_streams_present : Bool
  pub osid_stream_not_present : Bool

unfoldable pub stream_header_from_u32 : ℕ → ObjectSpaceObjectStreamHeader
stream_header_from_u32 word =
    let value = low_bits word 32 in
    record {
      raw = value;
      count = low_bits value 24;
      reserved = low_bits (shr value 24) 6;
      extended_streams_present = bit value 30;
      osid_stream_not_present = bit value 31;
    }

unfoldable pub parse_stream_header : M ObjectSpaceObjectStreamHeader
unfolding tell
parse_stream_header = do
  raw ← read_u32
  let out = stream_header_from_u32 raw
  at ← tell
  violation_if (not (out.reserved == 0)) "ObjectSpaceObjectStreamHeader.Reserved MUST be 0"
      (some (at - 4))
  pure out

pub record ObjectSpaceObjectStream : Type 0 where
  pub header : ObjectSpaceObjectStreamHeader
  pub body : List CompactId

unfoldable pub parse_stream : M ObjectSpaceObjectStream
unfolding tell remaining
parse_stream = do
  header ← parse_stream_header
  left ← remaining
  at ← tell
  raise_if (ltb left (header.count * 4))
      (format_error "ObjectSpaceObjectStream body exceeds available data" (some at))
  body ← repeat header.count CompactId.parse
  pure (record { header = header; body = body })

pub record PropertyId : Type 0 where
  pub raw : ℕ
  pub prop_id : ℕ
  pub prop_type : ℕ
  pub bool_value : Bool

unfoldable pub property_id_from_u32 : ℕ → PropertyId
property_id_from_u32 word =
    let value = low_bits word 32 in
    record {
      raw = value;
      prop_id = low_bits value 26;
      prop_type = low_bits (shr value 26) 5;
      bool_value = bit value 31;
    }

unfoldable pub parse_property_id : M PropertyId
parse_property_id = do value ← read_u32; pure (property_id_from_u32 value)

-- cProperties and rgPrids, which the two parsers of property sets read alike
unfoldable pub read_property_ids : M (ℕ × List PropertyId)
unfolding tell remaining
read_property_ids = do
  left ← remaining
  at ← tell
  raise_if (ltb left 2) (format_error "PropertySet missing cProperties" (some at))
  c_properties ← read_u16
  left2 ← remaining
  at2 ← tell
  raise_if (ltb left2 (c_properties * 4))
      (format_error "PropertySet rgPrids exceeds available data" (some at2))
  prids ← repeat c_properties parse_property_id
  pure (c_properties, prids)

pub record PropertySet : Type 0 where
  pub c_properties : ℕ
  pub rg_prids : List PropertyId
  pub rg_data : List ℕ

unfoldable pub parse_from_tail : M PropertySet
unfolding remaining
parse_from_tail = do
  (c_properties, rg_prids) ← read_property_ids
  left ← remaining
  rg_data ← read_bytes left
  pure (record { c_properties = c_properties; rg_prids = rg_prids; rg_data = rg_data })

pub record ObjectSpaceObjectPropSet : Type 0 where
  pub oids : ObjectSpaceObjectStream
  pub osids : Option ObjectSpaceObjectStream
  pub context_ids : Option ObjectSpaceObjectStream
  pub property_set : PropertySet
  pub padding : List ℕ

-- the two streams that there may be behind the first
unfoldable pub parse_further_streams :
    ℕ
    → ObjectSpaceObjectStreamHeader
    → M (Option ObjectSpaceObjectStream × Option ObjectSpaceObjectStream)
parse_further_streams start oids_header =
    let without = (do
      violation_if oids_header.extended_streams_present
          "OIDs header is inconsistent: ExtendedStreamsPresent set while OsidStreamNotPresent is true"
          (some start)
      pure (none, none)) in
    let with_osids = (do
      osids ← parse_stream
      let with_contexts = (do context_ids ← parse_stream; pure (some osids, some context_ids))
      if osids.header.extended_streams_present then with_contexts else pure (some osids, none)) in
    if oids_header.osid_stream_not_present then without else with_osids

unfoldable pub parse_object_prop_set : M ObjectSpaceObjectPropSet
unfolding tell remaining
parse_object_prop_set = do
  start ← tell
  oids ← parse_stream
  (osids, context_ids) ← parse_further_streams start oids.header
  left ← remaining
  rest ← read_bytes left
  tail ← binary_reader rest 0 none 0
  prop ← with_reader tail parse_from_tail
  pure (record {
    oids = oids;
    osids = osids;
    context_ids = context_ids;
    property_set = prop;
    padding = [];
  })

-- from the whole file
unfoldable pub parse_object_space_object_prop_set_from_ref :
    List ℕ → ℕ → ℕ → M ObjectSpaceObjectPropSet
parse_object_space_object_prop_set_from_ref buffer stp cb = do
  file ← binary_reader buffer 0 none 0
  r ← with_reader file (view stp cb)
  with_reader r parse_object_prop_set

pub record PrtFourBytesOfLengthFollowedByData : Type 0 where
  pub cb : ℕ
  pub contents : List ℕ

unfoldable pub parse_box : M PrtFourBytesOfLengthFollowedByData
unfolding tell remaining
parse_box = do
  start ← tell
  cb ← read_u32
  violation_if (leb 0x40000000 cb) "prtFourBytesOfLengthFollowedByData.cb MUST be < 0x40000000"
      (some start)
  left ← remaining
  raise_if (ltb left cb)
      (format_error "prtFourBytesOfLengthFollowedByData exceeds available data" (some start))
  contents ← read_bytes cb
  pure (record { cb = cb; contents = contents })

pub record PrtArrayOfPropertyValues : Type 0 where
  pub c_properties : ℕ
  pub prid : Option PropertyId
  pub raw_data : List ℕ

unfoldable pub parse_property_array : M PrtArrayOfPropertyValues
unfolding tell remaining
parse_property_array = do
  start ← tell
  c ← read_u32
  let elements = (do
    left ← remaining
    raise_if (ltb left 4) (format_error "prtArrayOfPropertyValues missing prid" (some start))
    prid ← parse_property_id
    violation_if (not (prid.prop_type == 0x11))
        "prtArrayOfPropertyValues.prid.type MUST be 0x11 (PropertySet)" (some start)
    left2 ← remaining
    raw ← read_bytes left2
    pure (record { c_properties = c; prid = some prid; raw_data = raw }))
  if c == 0 then pure (record { c_properties = 0; prid = none; raw_data = [] }) else elements
