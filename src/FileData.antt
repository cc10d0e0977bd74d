-- ===== src/FileData.antt =====
-- onestore/file_data.py: the embedded files and the index of them. The parsing of the text of a reference, by
-- regular expressions and the UUID class, is library code: a reference is taken as the GUID that it
-- names, where it names one. Every caller passes a context. The fuel is that of the transaction log.
pub mod Store
use aspose_note_foss_for_pyt.Prelude.{
  ℕ, ◌+◌, ◌-◌, Bool, true, false, not, ◌&&◌, Option, none, some, List, [], ◌∷◌, ◌++◌, ◌==◌, ltb,
  min, bytes_eq, if◌then◌else◌,
}
use aspose_note_foss_for_pyt.Context.{format_error}
use aspose_note_foss_for_pyt.Parser.{
  M, pure, raise_if, the_context, violation_if, with_reader, ◌>>=◌, ◌>>◌,
}
use aspose_note_foss_for_pyt.Read.{
  binary_reader, view, tell, remaining, read_bytes, read_u32, read_u64,
}
use aspose_note_foss_for_pyt.ChunkRefs.Node.{FileNodeChunkReference}
use aspose_note_foss_for_pyt.FileNodeTypes.Manifests.{
  FileDataStoreListReferenceFnd, FileDataStoreObjectReferenceFnd,
}
use aspose_note_foss_for_pyt.FileNodeTypes.Root.{RootFileNodeListManifests}
use aspose_note_foss_for_pyt.FileNodeTypes.Typed.{
  KnownFileNodeType, TypedFileNode, file_data_store_object_reference_fnd,
}
use aspose_note_foss_for_pyt.ObjectSpace.Summaries.{bytes_less, sorted}
use aspose_note_foss_for_pyt.ObjectSpace.Lists.{nodes_at}
use aspose_note_foss_for_pyt.ObjectSpace.Spaces.{parse_root}

-- the bytes of the GUID BDE316E7-2665-4511-A4C4-8D4D0B7A9EAC
abbrev pub guid_header : List ℕ
guid_header =
    0xE7 ∷ 0x16 ∷ 0xE3 ∷ 0xBD ∷ 0x65 ∷ 0x26 ∷ 0x11 ∷ 0x45 ∷ 0xA4 ∷ 0xC4 ∷ 0x8D ∷ 0x4D ∷ 0x0B ∷ 0x7A
    ∷ 0x9E ∷ 0xAC ∷ []

-- the bytes of the GUID 71FBA722-0F79-4A0B-BB13-899256426B24
abbrev pub guid_footer : List ℕ
guid_footer =
    0x22 ∷ 0xA7 ∷ 0xFB ∷ 0x71 ∷ 0x79 ∷ 0x0F ∷ 0x0B ∷ 0x4A ∷ 0xBB ∷ 0x13 ∷ 0x89 ∷ 0x92 ∷ 0x56 ∷ 0x42
    ∷ 0x6B ∷ 0x24 ∷ []

pub record FileDataStoreObject : Type 0 where
  pub cb_length : ℕ
  pub file_data : List ℕ
  pub padding : List ℕ

-- the header: the GUID, the length and two fields that are not used
unfoldable pub read_object_header : ℕ → M ℕ
read_object_header start = do
  guid ← read_bytes 16
  violation_if (not (bytes_eq guid guid_header))
      "FileDataStoreObject.guidHeader MUST match expected GUID" (some start)
  cb_length ← read_u64
  _ ← read_u32
  _ ← read_u64
  pure cb_length

-- the padding, of at most 7 bytes
unfoldable pub read_padding : M (List ℕ)
unfolding tell remaining
read_padding = do
  left ← remaining
  at ← tell
  raise_if (ltb left 16) (format_error "FileDataStoreObject missing guidFooter" (some at))
  violation_if (ltb 7 (left - 16)) "FileDataStoreObject padding length MUST be between 0 and 7"
      (some at)
  read_bytes (min 7 (left - 16))

unfoldable pub read_object_footer : M (Unit {0})
unfolding tell remaining
read_object_footer = do
  guid ← read_bytes 16
  at ← tell
  violation_if (not (bytes_eq guid guid_footer))
      "FileDataStoreObject.guidFooter MUST match expected GUID" (some (at - 16))
  left ← remaining
  violation_if (not (left == 0)) "FileDataStoreObject parse did not consume full referenced payload"
      (some at)

-- the data and what is behind them
unfoldable pub read_padding_and_footer : ℕ → List ℕ → M FileDataStoreObject
read_padding_and_footer cb_length file_data = do
  padding ← read_padding
  read_object_footer
  pure (record { cb_length = cb_length; file_data = file_data; padding = padding })

unfoldable pub read_file_data : ℕ → M FileDataStoreObject
unfolding tell remaining
read_file_data cb_length = do
  left ← remaining
  at ← tell
  raise_if (ltb left (cb_length + 16))
      (format_error "FileDataStoreObject.FileData exceeds available data" (some at))
  file_data ← read_bytes cb_length
  read_padding_and_footer cb_length file_data

-- on the view of the object
unfoldable pub parse_object : M FileDataStoreObject
unfolding tell remaining
parse_object = do
  start ← tell
  left ← remaining
  raise_if (ltb left 52) (format_error "FileDataStoreObject is too small" (some start))
  cb_length ← read_object_header start
  read_file_data cb_length

unfoldable pub parse_file_data_store_object_from_ref : List ℕ → ℕ → ℕ → M FileDataStoreObject
parse_file_data_store_object_from_ref contents stp cb = do
  file ← binary_reader contents 0 none 0
  r ← with_reader file (view stp cb)
  with_reader r parse_object

-- guidReference -> FileNodeChunkReference
abbrev pub Index : Type 0
Index = List (List ℕ × FileNodeChunkReference)

unfoldable pub index_get : Index → List ℕ → Option FileNodeChunkReference
index_get [] guid = none
index_get ((g, ref) ∷ by_guid) guid =
    let further = index_get by_guid guid in if bytes_eq g guid then some ref else further

unfoldable pub has_key : Index → List ℕ → Bool
has_key [] guid = false
has_key ((g, ref) ∷ by_guid) guid =
    let further = has_key by_guid guid in if bytes_eq g guid then true else further

unfoldable pub as_object_ref : Option KnownFileNodeType → Option FileDataStoreObjectReferenceFnd
as_object_ref (some (file_data_store_object_reference_fnd x)) = some x
as_object_ref _ = none

-- an item of the index, unless its GUID is there
unfoldable pub add_ref : FileDataStoreObjectReferenceFnd → ℕ → Index → M Index
add_ref x offset by_guid = do
  let twice = has_key by_guid x.guid_reference
  violation_if twice "FileDataStoreObjectReferenceFND.guidReference MUST be unique" (some offset)
  pure (if twice then by_guid else (by_guid ++ ((x.guid_reference, x.ref) ∷ [])))

-- for tn in lst.nodes
unfoldable pub index_nodes : Index → List TypedFileNode → M Index
index_nodes by_guid [] = pure by_guid
index_nodes by_guid (tn ∷ nodes) = do
  let offset = tn.node.header.offset
  c ← the_context
  raise_if (c.strict && not (tn.node.header.file_node_id == 0x094)) (
      format_error "File data store list MUST contain only FileDataStoreObjectReferenceFND (0x094)"
        (some offset))
  elim (as_object_ref tn.typed) [
    | none ↦ do
      raise_if c.strict
          (format_error "File data store list contains an unparsed or unknown node" (some offset))
      index_nodes by_guid nodes
    | some x ↦ do by_guid' ← add_ref x offset by_guid; index_nodes by_guid' nodes
  ]

-- the order of the keys
unfoldable pub key_less : List ℕ × FileNodeChunkReference → List ℕ × FileNodeChunkReference → Bool
key_less a b = bytes_less a.0 b.0

unfoldable pub parse_file_data_store_index : ℕ → List ℕ → M Index
parse_file_data_store_index fuel contents = do
  (manifests, counts) ← parse_root fuel contents
  elim manifests.file_data_store_list_ref [
    | none ↦ pure []
    | some file_data_ref ↦ do
      nodes ←
          nodes_at contents (record { stp = file_data_ref.ref.stp; cb = file_data_ref.ref.cb })
            counts
      by_guid ← index_nodes [] nodes
      pure (sorted key_less by_guid)
  ]

unfoldable pub file_data_at : List ℕ → Option FileNodeChunkReference → M (Option (List ℕ))
file_data_at contents none = pure none
file_data_at contents (some ref) = do
  obj ← parse_file_data_store_object_from_ref contents ref.stp ref.cb
  pure (some obj.file_data)

unfoldable pub the_index : ℕ → List ℕ → Option Index → M Index
the_index fuel contents none = parse_file_data_store_index fuel contents
the_index fuel contents (some index) = pure index

-- with the GUID of the parsed reference, where it is of the kind that has one
unfoldable pub get_file_data_by_reference :
    ℕ → List ℕ → Option (List ℕ) → Option Index → M (Option (List ℕ))
get_file_data_by_reference fuel contents none index = pure none
get_file_data_by_reference fuel contents (some guid) index = do
  by_guid ← the_index fuel contents index
  file_data_at contents (index_get by_guid guid)
