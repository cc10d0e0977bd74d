-- ===== src/FileNodeList/Lists.antt =====
-- The parsers of whole lists in onestore/file_node_list.py.
use aspose_note_foss_for_pyt.Prelude.{
  ℕ, zero, suc, ◌+◌, ◌-◌, Bool, true, false, not, ◌&&◌, ◌||◌, Option, none, some, List, [], ◌∷◌,
  ◌++◌, ◌==◌, length, if◌then◌else◌,
}
use aspose_note_foss_for_pyt.Context.{format_error}
use aspose_note_foss_for_pyt.Dict
use aspose_note_foss_for_pyt.Dict.{Dict}
use aspose_note_foss_for_pyt.Parser.{M, pure, raise, raise_if, the_reader, with_reader, ◌>>=◌, ◌>>◌}
use aspose_note_foss_for_pyt.Read.{view, file_start}
use aspose_note_foss_for_pyt.ChunkRefs.Fcr64x32
use aspose_note_foss_for_pyt.ChunkRefs.Fcr64x32.{FileChunkReference64x32}
use aspose_note_foss_for_pyt.FileNodeCore.{
  FileNode, FileNodeHeader, is_chunk_terminator, parse_file_node,
}
use aspose_note_foss_for_pyt.FileNodeTypes.Typed.{TypedFileNode, parse_typed_file_node}
use aspose_note_foss_for_pyt.FileNodeList.Defs.{
  FileNodeList, FileNodeListFragment, FileNodeRaw, is_used_up, parse_fragment,
}

-- the variables of the loop over the fragments
pub record Walk : Type 0 where
  pub fragments : List FileNodeListFragment
  pub nodes : List FileNodeHeader
  pub raw_nodes : List FileNodeRaw
  pub visited : List (ℕ × ℕ)
  pub current : FileChunkReference64x32
  pub expected_seq : ℕ
  pub list_id : Option ℕ
  pub remaining_nodes : Option ℕ

abbrev pub start_at : FileChunkReference64x32 → Walk
start_at first = record {
  fragments = [];
  nodes = [];
  raw_nodes = [];
  visited = [];
  current = first;
  expected_seq = 0;
  list_id = none;
  remaining_nodes = none;
}

unfoldable pub has_visited : FileChunkReference64x32 → List (ℕ × ℕ) → Bool
has_visited r [] = false
has_visited r ((stp, cb) ∷ keys) = (r.stp == stp && r.cb == cb) || has_visited r keys

-- `last_count_by_list_id[list_id]` where there is one
unfoldable pub committed_count : Option (Dict ℕ) → ℕ → Option ℕ
committed_count none id = none
committed_count (some counts) id = Dict.get counts id

-- the list's id and what is left to read, once a fragment is parsed
unfoldable pub identify : Option (Dict ℕ) → FileNodeListFragment → Walk → M (ℕ × Option ℕ)
identify last_count_by_list_id frag walk = elim walk.list_id [
  | none ↦ pure (frag.header.list_id, committed_count last_count_by_list_id frag.header.list_id)
  | some id ↦ do
    raise_if (not (frag.header.list_id == id))
        (format_error "FileNodeListID mismatch across fragments" (some (frag.fcr.stp + 8)))
    pure (id, walk.remaining_nodes)
]

unfoldable pub less_by : ℕ → Option ℕ → Option ℕ
less_by n none = none
less_by n (some r) = some (r - n)

unfoldable pub committed_headers : List FileNodeHeader → List FileNodeHeader
committed_headers [] = []
committed_headers (h ∷ hs) =
    if is_chunk_terminator h then committed_headers hs else h ∷ committed_headers hs

unfoldable pub committed_raw : List FileNodeRaw → List FileNodeRaw
committed_raw [] = []
committed_raw (r ∷ rs) =
    if is_chunk_terminator r.header then committed_raw rs else r ∷ committed_raw rs

unfoldable pub headers_of : List FileNodeRaw → List FileNodeHeader
headers_of [] = []
headers_of (r ∷ rs) = r.header ∷ headers_of rs

unfoldable pub has_no_next : FileChunkReference64x32 → Bool
has_no_next next = Fcr64x32.is_nil next || Fcr64x32.is_zero next || next.cb == 0

-- the walk with a fragment's nodes
unfoldable pub gather : Bool → FileNodeListFragment → ℕ → Option ℕ → Walk → Walk
gather capture_node_bytes frag id remaining_nodes walk = record {
  fragments = walk.fragments ++ (frag ∷ []);
  nodes =
      walk.nodes
      ++ (if capture_node_bytes
          then headers_of (committed_raw frag.nodes.raw_nodes)
          else committed_headers frag.nodes.file_nodes);
  raw_nodes =
      walk.raw_nodes ++ (if capture_node_bytes then committed_raw frag.nodes.raw_nodes else []);
  visited = (walk.current.stp, walk.current.cb) ∷ walk.visited;
  current = walk.current;
  expected_seq = walk.expected_seq;
  list_id = some id;
  remaining_nodes = less_by frag.nodes.node_count remaining_nodes;
}

-- where the walk goes after a fragment: `none` ends it
unfoldable pub go_on : ℕ → FileNodeListFragment → Walk → M (Option Walk)
go_on file_size frag walk =
    let next = (do
      Fcr64x32.validate_in_file frag.next_fragment file_size
      pure (
          some (record walk {
            current = frag.next_fragment;
            expected_seq = walk.expected_seq + 1;
          }))) in
    let continued = (do
      raise_if (has_no_next frag.next_fragment)
          (format_error "ChunkTerminatorFND requires a valid nextFragment" (some frag.fcr.stp))
      next) in
    let last = if has_no_next frag.next_fragment then pure none else next in
    if is_used_up walk.remaining_nodes
    then pure none
    else (if frag.nodes.found_terminator then continued else last)

-- one round: the walk with the fragment, and the walk to go on with (`none` is `break`)
unfoldable pub one_fragment : Bool → Option (Dict ℕ) → ℕ → Walk → M (Walk × Option Walk)
one_fragment capture_node_bytes last_count_by_list_id file_size walk = do
  raise_if (has_visited walk.current walk.visited)
      (format_error "FileNodeList fragment chain contains a loop" (some walk.current.stp))
  frag ← parse_fragment capture_node_bytes walk.current walk.remaining_nodes
  raise_if (not (frag.header.fragment_sequence == walk.expected_seq))
      (format_error "FileNodeListFragment sequence mismatch" (some frag.fcr.stp))
  (id, remaining_nodes) ← identify last_count_by_list_id frag walk
  let walk' = gather capture_node_bytes frag id remaining_nodes walk
  next ← go_on file_size frag walk'
  pure (walk', next)

-- `for _ in range(rounds)`, with its `else`
unfoldable pub walk_fragments :
    ℕ → Bool → Option (Dict ℕ) → ℕ → FileChunkReference64x32 → Walk → M Walk
walk_fragments zero capture_node_bytes last_count_by_list_id file_size first walk =
    raise (format_error "FileNodeList fragment chain is unexpectedly long" (some first.stp))
walk_fragments (suc rounds) capture_node_bytes last_count_by_list_id file_size first walk = do
  (walk', next) ← one_fragment capture_node_bytes last_count_by_list_id file_size walk
  elim next [
    | none ↦ pure walk'
    | some further ↦
        walk_fragments rounds capture_node_bytes last_count_by_list_id file_size first further
  ]

unfoldable pub list_of : FileChunkReference64x32 → Walk → M FileNodeList
list_of first walk = elim walk.list_id [
  | none ↦ raise (format_error "FileNodeList has no fragments" (some first.stp))
  | some id ↦ pure (record {
    list_id = id;
    fragments = walk.fragments;
    file_nodes = walk.nodes;
    node_count = length walk.nodes;
  })
]

unfoldable pub walk_list : Bool → Option (Dict ℕ) → FileChunkReference64x32 → M Walk
walk_list capture_node_bytes last_count_by_list_id first = do
  file_size ← file_start "FileNodeList must be parsed from file start"
  Fcr64x32.validate_in_file first file_size
  walk_fragments 4096 capture_node_bytes last_count_by_list_id file_size first (start_at first)

unfoldable pub parse_file_node_list : FileChunkReference64x32 → Option (Dict ℕ) → M FileNodeList
parse_file_node_list first last_count_by_list_id = do
  walk ← walk_list false last_count_by_list_id first
  list_of first walk

pub record FileNodeListWithRaw : Type 0 where
  pub list : FileNodeList
  pub raw_nodes : List FileNodeRaw

unfoldable pub parse_file_node_list_with_raw :
    FileChunkReference64x32 → Option (Dict ℕ) → M FileNodeListWithRaw
parse_file_node_list_with_raw first last_count_by_list_id = do
  walk ← walk_list true last_count_by_list_id first
  base ← list_of first walk
  pure (record { list = base; raw_nodes = walk.raw_nodes })

pub record FileNodeListWithNodes : Type 0 where
  pub list : FileNodeList
  pub nodes : List FileNode

-- for rn in out.raw_nodes
unfoldable pub parse_nodes : List FileNodeRaw → M (List FileNode)
parse_nodes [] = pure []
parse_nodes (rn ∷ raw) = do
  node_reader ← view rn.header.offset rn.header.size
  node ← with_reader node_reader parse_file_node
  nodes ← parse_nodes raw
  pure (node ∷ nodes)

unfoldable pub parse_file_node_list_nodes :
    FileChunkReference64x32 → Option (Dict ℕ) → M FileNodeListWithNodes
parse_file_node_list_nodes first last_count_by_list_id = do
  r ← the_reader
  raise_if (not (r.bounds.start == 0))
      (format_error "FileNodeList must be parsed from file start" (some r.bounds.start))
  out ← parse_file_node_list_with_raw first last_count_by_list_id
  nodes ← parse_nodes out.raw_nodes
  pure (record { list = out.list; nodes = nodes })

pub record FileNodeListWithTypedNodes : Type 0 where
  pub list : FileNodeList
  pub nodes : List TypedFileNode

-- for rn in out.raw_nodes, with the set of unknown ids
unfoldable pub parse_typed_nodes : Option (List ℕ) → List FileNodeRaw → M (List TypedFileNode)
parse_typed_nodes warn_once [] = pure []
parse_typed_nodes warn_once (rn ∷ raw) = do
  node_reader ← view rn.header.offset rn.header.size
  node ← with_reader node_reader parse_file_node
  (tn, ids) ← parse_typed_file_node node warn_once
  nodes ← parse_typed_nodes ids raw
  pure (record tn { raw_bytes = some rn.raw_bytes } ∷ nodes)

unfoldable pub parse_file_node_list_typed_nodes :
    FileChunkReference64x32 → Option (Dict ℕ) → M FileNodeListWithTypedNodes
parse_file_node_list_typed_nodes first last_count_by_list_id = do
  r ← the_reader
  raise_if (not (r.bounds.start == 0))
      (format_error "FileNodeList must be parsed from file start" (some r.bounds.start))
  out ← parse_file_node_list_with_raw first last_count_by_list_id
  nodes ← parse_typed_nodes (some []) out.raw_nodes
  pure (record { list = out.list; nodes = nodes })
