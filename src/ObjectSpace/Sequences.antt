-- ===== src/ObjectSpace/Sequences.antt =====
-- _parse_global_id_table_sequence of onestore/object_space.py: the sequences of nodes that define
-- global id tables. A count is read from an unsigned field, so the check on a negative one is left out.
use aspose_note_foss_for_pyt.Prelude.{
  ℕ, ◌+◌, ◌-◌, Bool, false, not, ◌&&◌, ◌||◌, Option, some, List, [], ◌∷◌, ◌==◌, ltb, leb, bytes_eq,
  if◌then◌else◌,
}
use aspose_note_foss_for_pyt.Context.{format_error}
use aspose_note_foss_for_pyt.Parser.{M, pure, raise, raise_if, violation_if, ◌>>=◌, ◌>>◌}
use aspose_note_foss_for_pyt.FileNodeTypes.GlobalIdTable.{
  GlobalIdTableEntryFndx, GlobalIdTableEntry2Fndx, GlobalIdTableEntry3Fndx, GlobalIdTableStartFndx,
}
use aspose_note_foss_for_pyt.FileNodeTypes.Typed.{
  KnownFileNodeType, TypedFileNode, global_id_table_start_fndx, global_id_table_start2_fnd,
  global_id_table_entry_fndx, global_id_table_entry2_fndx, global_id_table_entry3_fndx,
  global_id_table_end_fndx,
}

-- the node that a sequence starts with; GlobalIdTableStart2FND has no fields
pub data GlobalIdTableStart : Type 0 where
  start_fndx : GlobalIdTableStartFndx → GlobalIdTableStart
  start2_fnd : GlobalIdTableStart

pub data GlobalIdTableOp : Type 0 where
  entry : GlobalIdTableEntryFndx → GlobalIdTableOp
  entry2 : GlobalIdTableEntry2Fndx → GlobalIdTableOp
  entry3 : GlobalIdTableEntry3Fndx → GlobalIdTableOp

pub record GlobalIdTableSequenceSummary : Type 0 where
  pub start : GlobalIdTableStart
  pub ops : List GlobalIdTableOp

-- the type tests on a node inside a sequence
pub data SequenceNode : Type 0 where
  table_start : GlobalIdTableStart → SequenceNode
  table_op : GlobalIdTableOp → SequenceNode
  table_end : SequenceNode
  other_node : SequenceNode

unfoldable pub sequence_node : Option KnownFileNodeType → SequenceNode
sequence_node (some (global_id_table_start_fndx x)) = table_start (start_fndx x)
sequence_node (some (global_id_table_start2_fnd x)) = table_start start2_fnd
sequence_node (some (global_id_table_entry_fndx x)) = table_op (entry x)
sequence_node (some (global_id_table_entry2_fndx x)) = table_op (entry2 x)
sequence_node (some (global_id_table_entry3_fndx x)) = table_op (entry3 x)
sequence_node (some (global_id_table_end_fndx x)) = table_end
sequence_node _ = other_node

-- dest_points and dest_ranges
pub record Destinations : Type 0 where
  pub points : List ℕ
  pub ranges : List (ℕ × ℕ)

unfoldable pub point_overlaps : List ℕ → ℕ → ℕ → Bool
point_overlaps [] start end = false
point_overlaps (p ∷ ps) start end = (leb start p && leb p end) || point_overlaps ps start end

unfoldable pub range_overlaps : List (ℕ × ℕ) → ℕ → ℕ → Bool
range_overlaps [] start end = false
range_overlaps ((a, b) ∷ rs) start end =
    not (ltb end a || ltb b start) || range_overlaps rs start end

unfoldable pub dest_has_overlap : Destinations → ℕ → ℕ → Bool
dest_has_overlap d start end =
    if ltb end start
    then false
    else (point_overlaps d.points start end || range_overlaps d.ranges start end)

unfoldable pub dest_add_point : ℕ → ℕ → Destinations → M Destinations
dest_add_point offset p d = do
  raise_if (dest_has_overlap d p p) (
      format_error "Global ID table destination index MUST be unique within a sequence"
        (some offset))
  pure (record d { points = p ∷ d.points })

unfoldable pub dest_add_range : ℕ → ℕ → ℕ → Destinations → M Destinations
dest_add_range offset start end d =
    let added = (do
      raise_if (dest_has_overlap d start end) (
          format_error "Global ID table destination index range MUST NOT overlap within a sequence"
            (some offset))
      pure (record d { ranges = (start, end) ∷ d.ranges })) in
    if ltb end start then pure d else added

unfoldable pub has_bytes : List (List ℕ) → List ℕ → Bool
has_bytes [] g = false
has_bytes (h ∷ hs) g = bytes_eq h g || has_bytes hs g

abbrev pub index_limit : ℕ
index_limit = 0xFFFFFF

-- the variables of the loop
pub record Seen : Type 0 where
  pub dests : Destinations
  pub guids : List (List ℕ)

abbrev pub nothing_seen : Seen
nothing_seen = record { dests = record { points = []; ranges = [] }; guids = [] }

-- the checks of one entry
unfoldable pub check_entry : ℕ → GlobalIdTableEntryFndx → Seen → M Seen
check_entry offset t seen = do
  dests ← dest_add_point offset t.index seen.dests
  raise_if (has_bytes seen.guids t.guid)
      (format_error "GlobalIdTableEntryFNDX.guid MUST be unique within a sequence" (some offset))
  pure (record { dests = dests; guids = t.guid ∷ seen.guids })

unfoldable pub check_entry2 : ℕ → GlobalIdTableEntry2Fndx → Seen → M Seen
check_entry2 offset t seen = do
  violation_if (leb index_limit t.index_map_from || leb index_limit t.index_map_to)
      "GlobalIdTableEntry2FNDX indices MUST be < 0xFFFFFF" (some offset)
  dests ← dest_add_point offset t.index_map_to seen.dests
  pure (record seen { dests = dests })

unfoldable pub check_entry3 : ℕ → GlobalIdTableEntry3Fndx → Seen → M Seen
check_entry3 offset t seen = do
  violation_if (leb index_limit t.index_copy_from_start || leb index_limit t.index_copy_to_start)
      "GlobalIdTableEntry3FNDX indices MUST be < 0xFFFFFF" (some offset)
  let end = t.index_copy_to_start + t.entries_to_copy - 1
  let copied = (do
    violation_if (leb index_limit end)
        "GlobalIdTableEntry3FNDX destination range MUST be < 0xFFFFFF" (some offset)
    dests ← dest_add_range offset t.index_copy_to_start end seen.dests
    pure (record seen { dests = dests }))
  if t.entries_to_copy == 0 then pure seen else copied

unfoldable pub check_op : ℕ → GlobalIdTableOp → Seen → M Seen
check_op offset (entry t) seen = check_entry offset t seen
check_op offset (entry2 t) seen = check_entry2 offset t seen
check_op offset (entry3 t) seen = check_entry3 offset t seen

-- the loop over the nodes behind the start, where `last` is the offset of the last node: the
-- operations, and the nodes behind the end
unfoldable pub sequence_ops :
    ℕ → Seen → List TypedFileNode → M (List GlobalIdTableOp × List TypedFileNode)
sequence_ops last seen [] =
    raise (format_error "Global id table sequence missing GlobalIdTableEndFNDX" (some last))
sequence_ops last seen (tn ∷ nodes) =
    let offset = tn.node.header.offset in
    elim (sequence_node tn.typed) [
      | table_end ↦ pure ([], nodes)
      | table_start _ ↦
          raise (
            format_error "GlobalIdTableStart* encountered before GlobalIdTableEndFNDX"
              (some offset))
      | table_op op ↦ do
        seen' ← check_op offset op seen
        (ops, rest) ← sequence_ops last seen' nodes
        pure (op ∷ ops, rest)
      | other_node ↦
          raise (format_error "Unexpected FileNode inside global id table sequence" (some offset))
    ]

unfoldable pub last_offset : ℕ → List TypedFileNode → ℕ
last_offset offset [] = offset
last_offset offset (tn ∷ nodes) = last_offset tn.node.header.offset nodes

-- from the start, a node at `offset`, and the nodes behind it
unfoldable pub parse_global_id_table_sequence :
    GlobalIdTableStart
    → ℕ
    → List TypedFileNode
    → M (GlobalIdTableSequenceSummary × List TypedFileNode)
parse_global_id_table_sequence start_t offset nodes = do
  (ops, rest) ← sequence_ops (last_offset offset nodes) nothing_seen nodes
  pure (record { start = start_t; ops = ops }, rest)
