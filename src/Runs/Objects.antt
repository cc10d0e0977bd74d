-- ===== src/Runs/Objects.antt =====
-- The theorems on typed nodes, property sets and hashes at concrete inputs.
use aspose_note_foss_for_pyt.Prelude.{
  ℕ, ◌≡◌, ◌≢◌, ◌↔◌, refl, true, false, none, some, List, [], ◌∷◌, ◌++◌, All, arith, take, drop,
  replicate, bytes_eq,
}
use aspose_note_foss_for_pyt.Dict
use aspose_note_foss_for_pyt.Dict.{Dict}
use aspose_note_foss_for_pyt.Io.{IsByte}
use aspose_note_foss_for_pyt.Parser.{ok, stuck}
use aspose_note_foss_for_pyt.CommonTypes.CompactId.{CompactId}
use aspose_note_foss_for_pyt.CommonTypes.ExtendedGuid.{ExtendedGuid}
use aspose_note_foss_for_pyt.FileNodeCore.{FileNode}
use aspose_note_foss_for_pyt.FileNodeTypes.Checks
use aspose_note_foss_for_pyt.FileNodeTypes.Revisions
use aspose_note_foss_for_pyt.FileNodeTypes.Revisions.{
  revision_manifest_end, RevisionManifestStart6Fnd,
}
use aspose_note_foss_for_pyt.FileNodeTypes.Typed.{
  TypedFileNode, KnownFileNodeType, revision_manifest_end_fnd, object_space_manifest_root_fnd,
  object_space_manifest_list_reference_fnd, hashed_chunk_descriptor2_fnd, parse_typed_file_node,
  file_node_type_parsers, as_known,
}
use aspose_note_foss_for_pyt.FileNodeTypes.Ids.{type_id, parse_typed_file_node-type_id}
use aspose_note_foss_for_pyt.ChunkRefs.Node.{FileNodeChunkReference}
use aspose_note_foss_for_pyt.CommonTypes.Jcid.{bit}
use aspose_note_foss_for_pyt.Io.{little_endian}
use aspose_note_foss_for_pyt.Read.{
  binary_reader, read_u16, read_u32, read_struct, require, remaining, tell, peek_bytes,
}
use aspose_note_foss_for_pyt.FileNodeTypes.Root.{
  RootFileNodeListManifests, build_root_file_node_list_manifests,
}
use aspose_note_foss_for_pyt.FileNodeTypes.RootList.{
  are_admitted, Accepted, root_nodes, build_root_iff,
}
use aspose_note_foss_for_pyt.ObjectData.Streams.{
  PropertyId, PropertySet, read_property_ids, parse_property_id, property_id_from_u32, repeat,
}
use aspose_note_foss_for_pyt.ObjectData.Values.{
  id_value, set_value, property, no_properties, property_and, DecodedPropertySet, property_set,
  take_oid, ids_from, only_id,
}
use aspose_note_foss_for_pyt.ObjectData.Decode.{
  decode_property_set, decode_rg_data, decode_properties, decode_one_property, decode_value,
  decode_id, decode_nested, decode_property_set_from_reader, decode_set, check_rest, is_left,
}
use aspose_note_foss_for_pyt.ObjectData.Ends.{decode_property_set_terminates}
use aspose_note_foss_for_pyt.ObjectData.Used.{oids_of_set}
use aspose_note_foss_for_pyt.ObjectData.Oids.{decode_property_set-oids}
use aspose_note_foss_for_pyt.Read.{view, read_bytes}
use aspose_note_foss_for_pyt.HashedChunks.{
  HashedChunkListEntry, parse_entries, as_descriptor, parse_entry, is_outside, check_hash, blob_at,
}
use aspose_note_foss_for_pyt.HashedChunks.Hashes.{IsHash, parse_entries-IsHash}
use aspose_note_foss_for_pyt.Runs.{file}

-- a node of the id, without data
abbrev node_of : ℕ → FileNode
node_of id = record {
  header = record {
    file_node_id = id;
    size = 4;
    stp_format = 0;
    cb_format = 0;
    base_type = 0;
    reserved = 1;
    offset = 7;
  };
  chunk_ref = none;
  payload = [];
  fnd = [];
}

abbrev pub typed_as : ℕ → KnownFileNodeType → TypedFileNode
typed_as id k = record { node = node_of id; typed = some k; raw_bytes = none }

-- the end of a revision manifest
abbrev pub end_node : TypedFileNode
end_node = typed_as 0x01C (revision_manifest_end_fnd revision_manifest_end)

end_node-read : parse_typed_file_node (node_of 0x01C) none (file []) ≡ ok (end_node, none) (file [])
unfolding parse_typed_file_node file_node_type_parsers as_known Dict.get
    Revisions.parse_revision_manifest_end_fnd Checks.require_base_type Checks.forbid_reference
    Checks.require_length
end_node-read = refl

parse_typed_file_node-type_id_example :
    (type_id (revision_manifest_end_fnd revision_manifest_end) ≡ 0x01C)
    × (node_of 0x01C ≡ node_of 0x01C)
parse_typed_file_node-type_id_example =
    parse_typed_file_node-type_id (node_of 0x01C) none none (file []) (file []) end_node
      (revision_manifest_end_fnd revision_manifest_end) end_node-read refl

abbrev pub first_id : ExtendedGuid
first_id = record { guid = replicate 16 1; n = 1 }

abbrev pub second_id : ExtendedGuid
second_id = record { guid = replicate 16 2; n = 1 }

abbrev some_ref : FileNodeChunkReference
some_ref = record { stp_format = 0; cb_format = 0; raw_stp = 2; raw_cb = 3; stp = 2; cb = 3 }

-- a root file node list of two nodes
abbrev root_list : List TypedFileNode
root_list =
    typed_as 0x004 (object_space_manifest_root_fnd (record { gosid_root = first_id }))
    ∷ typed_as 0x008
        (object_space_manifest_list_reference_fnd (record { ref = some_ref; gosid = first_id }))
    ∷ []

abbrev manifests : RootFileNodeListManifests
manifests = record {
  root = record { gosid_root = first_id };
  object_space_refs = record { ref = some_ref; gosid = first_id } ∷ [];
  file_data_store_list_ref = none;
}

build_root_iff_example :
    (build_root_file_node_list_manifests root_list (file []) ≡ ok manifests (file [])) ↔ (
      (file [] ≡ file [])
      × (are_admitted true root_list ≡ true)
      × Accepted
          (root_nodes root_list).roots
          (root_nodes root_list).refs
          (root_nodes root_list).file_data_refs
          manifests)
build_root_iff_example = build_root_iff root_list (file []) (file []) manifests

-- a property set with an id and a set inside it, which has an id again: types 8, 17 and 8
abbrev id_property : PropertyId
id_property = record { raw = 0x20000001; prop_id = 1; prop_type = 8; bool_value = false }

abbrev set_property : PropertyId
set_property = record { raw = 0x44000002; prop_id = 2; prop_type = 17; bool_value = false }

abbrev nested_set : PropertySet
nested_set = record {
  c_properties = 2;
  rg_prids = id_property ∷ set_property ∷ [];
  rg_data = 1 ∷ 0 ∷ 1 ∷ 0 ∷ 0 ∷ 0x20 ∷ [];
}

nested_set-IsByte : All IsByte nested_set.rg_data
nested_set-IsByte = ground arith

abbrev id_of : ℕ → CompactId
id_of n = record { n = n; guid_index = 0 }

decode_property_set_terminates_example :
    decode_property_set nested_set (id_of 5 ∷ id_of 6 ∷ []) none none (file []) ≢ stuck
decode_property_set_terminates_example =
    decode_property_set_terminates nested_set (id_of 5 ∷ id_of 6 ∷ []) none none (file [])
      nested_set-IsByte

abbrev decoded : DecodedPropertySet
decoded =
    property_set 2
      (property_and (property id_property (id_value (id_of 5)) 0 0) (
        property_and
          (property set_property
            (set_value (
              property_set 1
                (property_and (property id_property (id_value (id_of 6)) 0 0) no_properties) 0 6))
            0 6)
          no_properties))
      6 16

decoding :
    decode_property_set nested_set (id_of 5 ∷ id_of 6 ∷ []) none none (file [])
    ≡ ok decoded (file [])
unfolding decode_property_set decode_rg_data binary_reader decode_properties decode_one_property
    decode_value decode_id take_oid ids_from only_id decode_nested decode_property_set_from_reader
    decode_set read_property_ids parse_property_id property_id_from_u32 repeat read_u16 read_u32
    read_struct require remaining tell take drop little_endian bit check_rest peek_bytes is_left
    bytes_eq replicate
decoding = refl

decode_property_set-oids_example :
    (rest : List CompactId) × (id_of 5 ∷ id_of 6 ∷ [] ≡ oids_of_set decoded ++ rest)
decode_property_set-oids_example =
    decode_property_set-oids nested_set (id_of 5 ∷ id_of 6 ∷ []) none none (file []) (file [])
      decoded decoding

-- a chunk of three bytes whose hash is taken to be its first two
abbrev chunk_nodes : List TypedFileNode
chunk_nodes =
    typed_as 0x0C2
      (hashed_chunk_descriptor2_fnd (record { blob_ref = some_ref; guid_hash = 30 ∷ 40 ∷ [] }))
    ∷ []

abbrev chunk_file : List ℕ
chunk_file = 10 ∷ 20 ∷ 30 ∷ 40 ∷ 50 ∷ 60 ∷ []

abbrev chunk_entries : List HashedChunkListEntry
chunk_entries = record { stp = 2; cb = 3; md5 = 30 ∷ 40 ∷ [] } ∷ []

hashing : parse_entries (take 2) true chunk_file chunk_nodes (file []) ≡ ok chunk_entries (file [])
unfolding parse_entries as_descriptor parse_entry is_outside check_hash blob_at binary_reader view
    read_bytes require bytes_eq take drop
hashing = refl

parse_entries-IsHash_example : All (IsHash (take 2) chunk_file) chunk_entries
parse_entries-IsHash_example =
    parse_entries-IsHash (take 2) chunk_file chunk_nodes (file []) (file []) chunk_entries refl
      hashing
