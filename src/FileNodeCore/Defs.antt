-- ===== src/FileNodeCore/Defs.antt =====
-- onestore/file_node_core.py: one node of a file node list. `warn_unknown_ids` is not used there, and
-- the messages leave out the number that they interpolate.
use aspose_note_foss_for_pyt.Prelude.{
  ℕ, ◌+◌, ◌-◌, Bool, not, ◌&&◌, ◌||◌, Option, none, some, List, [], ◌∷◌, ltb, ◌==◌, if◌then◌else◌,
}
use aspose_note_foss_for_pyt.Context.{format_error, value_error}
use aspose_note_foss_for_pyt.Parser.{
  M, pure, raise, raise_if, warn_if, the_context, with_reader, ◌>>=◌, ◌>>◌,
}
use aspose_note_foss_for_pyt.Read.{
  tell, tell_relative, remaining, read_u32, read_bytes, peek_bytes, skip, view, bits_of,
}
use aspose_note_foss_for_pyt.ChunkRefs.Node.{FileNodeChunkReference, parse_filenode_chunk_reference}

abbrev pub chunk_terminator_fnd_id : ℕ
chunk_terminator_fnd_id = 0x0ff

pub record FileNodeHeader : Type 0 where
  pub file_node_id : ℕ
  pub size : ℕ
  pub stp_format : ℕ
  pub cb_format : ℕ
  pub base_type : ℕ
  pub reserved : ℕ
  pub offset : ℕ

unfoldable pub is_chunk_terminator : FileNodeHeader → Bool
is_chunk_terminator h = h.file_node_id == chunk_terminator_fnd_id

abbrev pub header_widths : List ℕ
header_widths = 10 ∷ 13 ∷ 2 ∷ 2 ∷ 4 ∷ 1 ∷ []

-- the assignment of the six fields, which raises unless there are six
unfoldable pub node_header : ℕ → List ℕ → M FileNodeHeader
node_header start (id ∷ size ∷ sf ∷ cf ∷ base ∷ reserved ∷ []) = pure (record {
  file_node_id = id;
  size = size;
  stp_format = sf;
  cb_format = cf;
  base_type = base;
  reserved = reserved;
  offset = start;
})
node_header start _ = raise (value_error "not six values to unpack")

unfoldable pub parse_file_node_header : M FileNodeHeader
unfolding tell
parse_file_node_header = do
  start ← tell
  hdr ← read_u32
  fields ← bits_of hdr header_widths
  node_header start fields

pub record FileNode : Type 0 where
  pub header : FileNodeHeader
  pub chunk_ref : Option FileNodeChunkReference
  pub payload : List ℕ
  pub fnd : List ℕ

unfoldable pub validate_chunk_ref_in_file : FileNodeChunkReference → ℕ → M (Unit {0})
validate_chunk_ref_in_file ref file_size s =
    if ref.cb == 0 && (ref.stp == 0 || ref.stp == 0xffffffff || ref.stp == 0xffffffffffffffff)
    then pure tt s
    else raise_if (ltb file_size (ref.stp + ref.cb))
        (format_error "FileNodeChunkReference out of bounds" (some ref.stp)) s

-- the checks on the header alone, which the list parser makes too
unfoldable pub check_node : FileNodeHeader → M (Unit {0})
check_node h = do
  warn_if (not (h.reserved == 1)) "FileNode.Reserved bit is not 1" (some h.offset)
  raise_if (ltb h.size 4) (format_error "FileNode.Size MUST be >= 4" (some h.offset))

validate_in_context : FileNodeChunkReference → Option ℕ → M (Unit {0})
validate_in_context ref none = pure tt
validate_in_context ref (some n) = validate_chunk_ref_in_file ref n

-- the payload, on a view of its own: the chunk reference and what follows it
unfoldable pub parse_payload : FileNodeHeader → List ℕ → M FileNode
unfolding validate_in_context
parse_payload h payload =
    let with_reference = (do
      ref ← parse_filenode_chunk_reference h.stp_format h.cb_format
      c ← the_context
      validate_in_context ref c.file_size
      left ← remaining
      fnd ← read_bytes left
      pure (record { header = h; chunk_ref = some ref; payload = payload; fnd = fnd })) in
    let without = (do
      warn_if (not (h.base_type == 0 || h.base_type == 1 || h.base_type == 2))
          "Unknown FileNode.BaseType" (some h.offset)
      pure (record { header = h; chunk_ref = none; payload = payload; fnd = payload })) in
    if h.base_type == 1 || h.base_type == 2 then with_reference else without

unfoldable pub read_payload : FileNodeHeader → M FileNode
read_payload h = do payload ← peek_bytes (h.size - 4); parse_payload h payload

-- a node that is not the terminator, once its header is read and checked
unfoldable pub parse_body : ℕ → FileNodeHeader → M FileNode
unfolding tell tell_relative
parse_body start h = do
  at ← tell_relative
  payload_view ← view at (h.size - 4)
  node ← with_reader payload_view (read_payload h)
  skip (h.size - 4)
  behind ← tell
  raise_if (not (behind == start + h.size))
      (format_error "FileNode did not consume declared Size" (some h.offset))
  pure node

unfoldable pub parse_terminator : ℕ → FileNodeHeader → M FileNode
unfolding tell
parse_terminator start h = do
  raise_if (not (h.size == 4))
      (format_error "ChunkTerminatorFND MUST contain no data" (some h.offset))
  at ← tell
  raise_if (not (at == start + 4)) (format_error "Internal cursor mismatch" (some at))
  pure (record { header = h; chunk_ref = none; payload = []; fnd = [] })

-- the rest of `parse_file_node`, once the header is read
unfoldable pub node_with_header : ℕ → FileNodeHeader → M FileNode
unfolding remaining
node_with_header start h = do
  check_node h
  left ← remaining
  raise_if (ltb left (h.size - 4))
      (format_error "FileNode exceeds container bounds" (some h.offset))
  raise_if (h.base_type == 0 && not (h.cb_format == 0))
      (format_error "FileNode.CbFormat MUST be 0 when BaseType==0" (some h.offset))
  if is_chunk_terminator h then parse_terminator start h else parse_body start h

unfoldable pub parse_file_node : M FileNode
unfolding tell
parse_file_node = do start ← tell; h ← parse_file_node_header; node_with_header start h
