-- ===== src/FileNodeList/Defs.antt =====
-- onestore/file_node_list.py: a list of nodes, a chain of fragments of the file.
use aspose_note_foss_for_pyt.Prelude.{
  ℕ, zero, suc, ◌+◌, ◌-◌, Bool, true, false, not, ◌&&◌, ◌||◌, Option, none, some, List, [], ◌∷◌,
  ltb, ◌==◌, bytes_eq, drop, if◌then◌else◌,
}
use aspose_note_foss_for_pyt.Context.{format_error}
use aspose_note_foss_for_pyt.Parser.{M, out_of_fuel, pure, raise_if, with_reader, ◌>>=◌, ◌>>◌}
use aspose_note_foss_for_pyt.Read.{
  tell, tell_relative, seek_relative, remaining, read_u32, read_u64, peek_bytes, skip, view,
  file_start,
}
use aspose_note_foss_for_pyt.ChunkRefs.Fcr64x32
use aspose_note_foss_for_pyt.ChunkRefs.Fcr64x32.{FileChunkReference64x32}
use aspose_note_foss_for_pyt.FileNodeCore.{
  FileNodeHeader, check_node, is_chunk_terminator, parse_file_node_header,
}

abbrev pub fnl_header_magic : ℕ
fnl_header_magic = 0xA4567AB1F5F7F4C4

abbrev pub fnl_footer_magic : ℕ
fnl_footer_magic = 0x8BC215C38233BA4B

pub record FileNodeRaw : Type 0 where
  pub header : FileNodeHeader
  pub raw_bytes : List ℕ

unfoldable pub payload : FileNodeRaw → List ℕ
payload n = drop 4 n.raw_bytes

pub record FileNodeListHeader : Type 0 where
  pub magic : ℕ
  pub list_id : ℕ
  pub fragment_sequence : ℕ

unfoldable pub parse_list_header : M FileNodeListHeader
unfolding tell
parse_list_header = do
  start ← tell
  magic ← read_u64
  list_id ← read_u32
  fragment_sequence ← read_u32
  raise_if (not (magic == fnl_header_magic))
      (format_error "Invalid FileNodeListHeader magic" (some start))
  raise_if (ltb list_id 0x10) (format_error "FileNodeListID MUST be >= 0x10" (some (start + 8)))
  pure (record { magic = magic; list_id = list_id; fragment_sequence = fragment_sequence })

-- what the loop over the nodes of a fragment collects
pub record Nodes : Type 0 where
  pub file_nodes : List FileNodeHeader
  pub raw_nodes : List FileNodeRaw
  pub node_count : ℕ
  pub found_terminator : Bool

abbrev pub no_nodes : Nodes
no_nodes = record { file_nodes = []; raw_nodes = []; node_count = 0; found_terminator = false }

-- `remaining_nodes is not None and remaining_nodes <= 0`
unfoldable pub is_used_up : Option ℕ → Bool
is_used_up none = false
is_used_up (some n) = n == 0

unfoldable pub use_one : Option ℕ → Option ℕ
use_one none = none
use_one (some n) = some (n - 1)

-- the checks on a node and the bytes that it keeps
unfoldable pub check_in_fragment : FileNodeHeader → ℕ → ℕ → M (Unit {0})
check_in_fragment node node_start_rel next_fragment_pos = do
  check_node node
  raise_if (ltb next_fragment_pos (node_start_rel + node.size))
      (format_error "FileNode exceeds fragment bounds" (some node.offset))
  raise_if (node.base_type == 0 && not (node.cb_format == 0))
      (format_error "FileNode.CbFormat MUST be 0 when BaseType==0" (some node.offset))

unfoldable pub capture : Bool → FileNodeHeader → ℕ → M (List FileNodeRaw)
capture capture_node_bytes node node_start_rel =
    let raw = (do
      v ← view node_start_rel node.size
      bytes ← with_reader v (peek_bytes node.size)
      pure (record { header = node; raw_bytes = bytes } ∷ [])) in
    if capture_node_bytes then raw else pure []

-- one round of the loop: the node, its bytes where they are asked for, and the cursor behind it
pub record Round : Type 0 where
  pub node : FileNodeHeader
  pub raw : List FileNodeRaw

unfoldable pub read_node : Bool → ℕ → M Round
unfolding tell_relative
read_node capture_node_bytes next_fragment_pos = do
  node_start_rel ← tell_relative
  node ← parse_file_node_header
  check_in_fragment node node_start_rel next_fragment_pos
  raise_if (is_chunk_terminator node && not (node.size == 4))
      (format_error "ChunkTerminatorFND MUST contain no data" (some node.offset))
  raw ← capture capture_node_bytes node node_start_rel
  skip (if is_chunk_terminator node then 0 else node.size - 4)
  pure (record { node = node; raw = raw })

-- the node in front of those that the further rounds collect
unfoldable pub with_node : Round → Nodes → Nodes
with_node r ns = record {
  file_nodes = r.node ∷ ns.file_nodes;
  raw_nodes = elim r.raw [ [] ↦ ns.raw_nodes | (x ∷ _) ↦ x ∷ ns.raw_nodes ];
  node_count = ns.node_count + 1;
  found_terminator = ns.found_terminator;
}

unfoldable pub ends_with : Round → Nodes
ends_with r = record {
  file_nodes = r.node ∷ [];
  raw_nodes = r.raw;
  node_count = 0;
  found_terminator = true;
}

abbrev pub zero_header : List ℕ
zero_header = 0 ∷ 0 ∷ 0 ∷ 0 ∷ []

-- after a node: `break` at the terminator, or the further rounds
unfoldable pub after_node : M Nodes → Round → M Nodes
after_node rounds r =
    let further = (do ns ← rounds; pure (with_node r ns)) in
    if is_chunk_terminator r.node then pure (ends_with r) else further

-- a zero header is padding, and ends the loop
unfoldable pub node_or_padding : Bool → ℕ → M Nodes → M Nodes
node_or_padding capture_node_bytes next_fragment_pos rounds = do
  next ← peek_bytes 4
  let node = (do r ← read_node capture_node_bytes next_fragment_pos; after_node rounds r)
  if bytes_eq next zero_header then pure no_nodes else node

-- `while True`, with fuel
unfoldable pub read_nodes : ℕ → Bool → ℕ → Option ℕ → M Nodes
unfolding tell_relative
read_nodes zero capture_node_bytes next_fragment_pos remaining_nodes = out_of_fuel
read_nodes (suc fuel) capture_node_bytes next_fragment_pos remaining_nodes = do
  at ← tell_relative
  let further = read_nodes fuel capture_node_bytes next_fragment_pos (use_one remaining_nodes)
  if ltb next_fragment_pos (at + 4) || is_used_up remaining_nodes
      then pure no_nodes
      else node_or_padding capture_node_bytes next_fragment_pos further

pub record FileNodeListFragment : Type 0 where
  pub fcr : FileChunkReference64x32
  pub header : FileNodeListHeader
  pub nodes : Nodes
  pub next_fragment : FileChunkReference64x32

-- `if r.tell_relative() < next_fragment_pos: r.seek_relative(next_fragment_pos)`
unfoldable pub skip_padding : ℕ → M (Unit {0})
unfolding tell_relative tell
skip_padding next_fragment_pos = do
  at ← tell_relative
  here ← tell
  raise_if (ltb next_fragment_pos at)
      (format_error "FileNodeListFragment parse overran nextFragment" (some here))
  if ltb at next_fragment_pos then seek_relative next_fragment_pos else pure tt

-- what is read of the chunk itself
unfoldable pub parse_chunk : Bool → FileChunkReference64x32 → Option ℕ → M FileNodeListFragment
unfolding tell remaining
parse_chunk capture_node_bytes fcr remaining_nodes = do
  header ← parse_list_header
  let next_fragment_pos = fcr.cb - 20
  raise_if (ltb next_fragment_pos 16)
      (format_error "FileNodeListFragment nextFragment position invalid" (some fcr.stp))
  nodes ← read_nodes (suc next_fragment_pos) capture_node_bytes next_fragment_pos remaining_nodes
  skip_padding next_fragment_pos
  next_fragment ← Fcr64x32.parse
  footer ← read_u64
  at ← tell
  raise_if (not (footer == fnl_footer_magic))
      (format_error "Invalid FileNodeListFragment footer" (some (at - 8)))
  left ← remaining
  raise_if (not (left == 0))
      (format_error "FileNodeListFragment parse did not consume full chunk" (some at))
  pure (record { fcr = fcr; header = header; nodes = nodes; next_fragment = next_fragment })

unfoldable pub parse_fragment : Bool → FileChunkReference64x32 → Option ℕ → M FileNodeListFragment
parse_fragment capture_node_bytes fcr remaining_nodes = do
  file_size ← file_start "FileNodeListFragment must be parsed from file start"
  Fcr64x32.validate_in_file fcr file_size
  raise_if (ltb fcr.cb 36) (format_error "FileNodeListFragment too small" (some fcr.stp))
  r ← view fcr.stp fcr.cb
  with_reader r (parse_chunk capture_node_bytes fcr remaining_nodes)

pub record FileNodeList : Type 0 where
  pub list_id : ℕ
  pub fragments : List FileNodeListFragment
  pub file_nodes : List FileNodeHeader
  pub node_count : ℕ
