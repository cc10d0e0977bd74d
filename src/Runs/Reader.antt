-- ===== src/Runs/Reader.antt =====
-- The theorems on the reader, the header and the nodes at concrete inputs.
use aspose_note_foss_for_pyt.Prelude.{
  ℕ, zero, suc, ◌≡◌, ◌<◌, ◌≤◌, ◌+◌, ◌-◌, ◌^◌, ◌%◌, ◌/◌, ◌⊎◌, ◌↔◌, refl, true, false, none, some,
  List, [], ◌∷◌, All, arith, length, take, drop, replicate, bytes_eq,
}
use aspose_note_foss_for_pyt.Context.{format_error}
use aspose_note_foss_for_pyt.Io.{IsByte, unpack_bits, unpack_bits_from, little_endian}
use aspose_note_foss_for_pyt.Io.Bits.{pack, sum, FieldsFit, unpack_bits-pack, unpack_bits-of_pack}
use aspose_note_foss_for_pyt.Io.Endian.{le_bytes}
use aspose_note_foss_for_pyt.Parser.{State, ok, err}
use aspose_note_foss_for_pyt.Read.{
  seek, seek_relative, skip, read_bytes, peek_bytes, read_struct, view, move, slice_at, tell,
  tell_relative, require, binary_reader, remaining, read_u32, bits_of,
}
use aspose_note_foss_for_pyt.Read.Cursor.{IsValid, LeavesValid, cursor-IsValid}
use aspose_note_foss_for_pyt.Read.Views.{
  part, between, whole-IsValid, view_lem, read_struct-le_bytes,
}
use aspose_note_foss_for_pyt.Read.Fields.{Fits, window, advance, out_of_bounds}
use aspose_note_foss_for_pyt.Read.Start.{with_size}
use aspose_note_foss_for_pyt.ChunkRefs.Node
use aspose_note_foss_for_pyt.ChunkRefs.Node.{
  stp_width, cb_width, parse_filenode_chunk_reference, parse_filenode_chunk_reference_lem,
}
use aspose_note_foss_for_pyt.CommonTypes.CompactId
use aspose_note_foss_for_pyt.CommonTypes.CompactId.{
  CompactId, to_u32, to_u32-from_u32, from_u32-to_u32,
}
use aspose_note_foss_for_pyt.CommonTypes.Jcid
use aspose_note_foss_for_pyt.CommonTypes.Jcid.{validate-from_u32}
use aspose_note_foss_for_pyt.CommonTypes.ExtendedGuid
use aspose_note_foss_for_pyt.CommonTypes.ExtendedGuid.{extended_guid_lem}
use aspose_note_foss_for_pyt.TxnLog.Fragment
use aspose_note_foss_for_pyt.TxnLog.Fragment.{HoldsFragment, fragment_at, fragment_parse_iff}
use aspose_note_foss_for_pyt.Header
use aspose_note_foss_for_pyt.Header.{check, read_fields}
use aspose_note_foss_for_pyt.Header.Layout.{layout, read_fields_lem}
use aspose_note_foss_for_pyt.Header.Accepts.{IsWellFormed, after_check, check_iff}
use aspose_note_foss_for_pyt.Header.Parse.{header_of, IsParsed, header_parse_iff}
use aspose_note_foss_for_pyt.FileNodeCore.{
  FileNode, header_widths, parse_file_node, parse_file_node_header, node_header, node_with_header,
  check_node, is_chunk_terminator, parse_body, read_payload, parse_payload,
}
use aspose_note_foss_for_pyt.FileNodeCore.NodeHeader.{header_of_word, parse_file_node_header_lem}
use aspose_note_foss_for_pyt.FileNodeCore.Extent.{parse_file_node-extent}
use aspose_note_foss_for_pyt.FileNodeList.{
  Nodes, read_nodes, read_node, after_node, node_or_padding, with_node, committed_headers,
  check_in_fragment, is_used_up, use_one, capture,
}
use aspose_note_foss_for_pyt.FileNodeList.Loop.{Within, read_nodes-count}
use aspose_note_foss_for_pyt.FileNodeList.Ends.{read_nodes_terminates}
use aspose_note_foss_for_pyt.Parser.{stuck}
use aspose_note_foss_for_pyt.Prelude.{◌≢◌}
use aspose_note_foss_for_pyt.FileNodeTypes.GlobalIdTable.{
  max_index, parse_global_id_table_entry_fndx,
}
use aspose_note_foss_for_pyt.FileNodeTypes.Entries.{entry_of_bytes, parse_global_id_table_entry_lem}
use aspose_note_foss_for_pyt.Prelude.{leb, bytes_eq, if◌then◌else◌}
use aspose_note_foss_for_pyt.Runs.{
  file, strict_context, one_transaction, one_transaction-IsFile, log_reference, log_header,
}

abbrev log_file : State
log_file = file one_transaction

fragment_parse_iff_example :
    (Fragment.parse log_reference log_file
      ≡ ok (fragment_at log_reference one_transaction) (with_size log_file))
    ↔ (HoldsFragment log_reference log_file
        × (fragment_at log_reference one_transaction ≡ fragment_at log_reference one_transaction)
        × (with_size log_file ≡ with_size log_file))
fragment_parse_iff_example =
    fragment_parse_iff log_reference log_file one_transaction-IsFile.valid refl
      (fragment_at log_reference one_transaction) (with_size log_file)

zeros-IsByte : (n : ℕ) → All IsByte (replicate n 0)
unfolding replicate
zeros-IsByte zero = tt
zeros-IsByte (suc n) = (omega arith, zeros-IsByte n)

-- a file of zeros that is as long as a header
abbrev zeros : State
zeros = file (replicate 1024 0)

zeros-IsValid : IsValid zeros.reader
zeros-IsValid = whole-IsValid (replicate 1024 0) (zeros-IsByte 1024)

header_parse_iff_example :
    (Header.parse zeros ≡ ok (header_of zeros) zeros) ↔ IsParsed zeros (header_of zeros) zeros
header_parse_iff_example = header_parse_iff zeros zeros-IsValid refl (header_of zeros) zeros

check_iff_example :
    (check log_header 1024 zeros ≡ ok tt zeros)
    ↔ ((zeros ≡ after_check log_header 1024 zeros) × IsWellFormed log_header 1024)
check_iff_example = check_iff log_header 1024 zeros zeros

read_fields_example :
    (Fits 1024 zeros × (read_fields zeros ≡ ok (layout (window 1024 zeros)) (advance 1024 zeros)))
    ⊎ ((zeros.reader.bounds.end < zeros.reader.pos + 1024)
        × ((o : ℕ) × (read_fields zeros ≡ err (out_of_bounds o) zeros.ctx)))
read_fields_example = read_fields_lem zeros zeros-IsValid

-- a node of six bytes with a payload of two
abbrev node_bytes : List ℕ
node_bytes = 1 ∷ 24 ∷ 0 ∷ 128 ∷ 9 ∷ 9 ∷ []

abbrev node_file : State
node_file = file node_bytes

node_file-IsValid : IsValid node_file.reader
node_file-IsValid = whole-IsValid node_bytes (ground arith)

abbrev node : FileNode
node = record {
  header = header_of_word 0 0x80001801;
  chunk_ref = none;
  payload = 9 ∷ 9 ∷ [];
  fnd = 9 ∷ 9 ∷ [];
}

node_parses : parse_file_node node_file ≡ ok node (move 6 node_file)
unfolding parse_file_node tell tell_relative parse_file_node_header read_u32 read_struct bits_of
    unpack_bits unpack_bits_from node_header node_with_header check_node is_chunk_terminator
    parse_body read_payload parse_payload peek_bytes skip remaining require view binary_reader
    header_of_word little_endian take drop
node_parses = refl

parse_file_node-extent_example :
    (4 ≤ node.header.size)
    × ((move 6 node_file).reader ≡ (move (0 + node.header.size) node_file).reader)
    × (node.payload ≡ slice_at (0 + 4) (node.header.size - 4) node_file.reader)
parse_file_node-extent_example =
    parse_file_node-extent node_file (move 6 node_file) node node_file-IsValid node_parses

parse_file_node_header_example :
    (Fits 4 node_file
      × (parse_file_node_header node_file
          ≡ ok (header_of_word 0 (little_endian (window 4 node_file))) (advance 4 node_file)))
    ⊎ ((node_file.reader.bounds.end < node_file.reader.pos + 4)
        × ((o : ℕ) × (parse_file_node_header node_file ≡ err (out_of_bounds o) node_file.ctx)))
parse_file_node_header_example = parse_file_node_header_lem node_file node_file-IsValid

abbrev counted : Nodes
counted = record {
  file_nodes = header_of_word 0 0x80001801 ∷ [];
  raw_nodes = [];
  node_count = 1;
  found_terminator = false;
}

nodes_read : read_nodes 2 false 6 (some 1) node_file ≡ ok counted (move 6 node_file)
unfolding read_nodes read_node after_node node_or_padding with_node check_in_fragment is_used_up
    use_one capture tell_relative parse_file_node_header tell read_u32 read_struct bits_of
    unpack_bits unpack_bits_from node_header check_node is_chunk_terminator peek_bytes skip require
    header_of_word little_endian take drop bytes_eq
nodes_read = refl

read_nodes-count_example :
    (counted.node_count ≡ length (committed_headers counted.file_nodes))
    × Within counted.node_count (some 1)
read_nodes-count_example =
    read_nodes-count 2 false 6 (some 1) node_file (move 6 node_file) counted nodes_read

parse_filenode_chunk_reference_example :
    (Fits (stp_width 1 + cb_width 2) log_file
      × (parse_filenode_chunk_reference 1 2 log_file
          ≡ ok
              (Node.of_bytes 1 2 (window (stp_width 1 + cb_width 2) log_file))
              (advance (stp_width 1 + cb_width 2) log_file)))
    ⊎ ((log_file.reader.bounds.end < log_file.reader.pos + (stp_width 1 + cb_width 2))
        × ((o : ℕ) × (parse_filenode_chunk_reference 1 2 log_file
              ≡ err (out_of_bounds o) log_file.ctx)))
parse_filenode_chunk_reference_example =
    parse_filenode_chunk_reference_lem 1 2 log_file (omega arith) (omega arith)
      one_transaction-IsFile.valid

extended_guid_example :
    (Fits 20 log_file
      × (ExtendedGuid.parse log_file
          ≡ ok (ExtendedGuid.of_bytes (window 20 log_file)) (advance 20 log_file)))
    ⊎ ((log_file.reader.bounds.end < log_file.reader.pos + 20)
        × ((o : ℕ) × (ExtendedGuid.parse log_file ≡ err (out_of_bounds o) log_file.ctx)))
extended_guid_example = extended_guid_lem log_file one_transaction-IsFile.valid

unpack_bits-pack_example :
    (out : List ℕ) × (unpack_bits 0x80001801 header_widths ≡ some out)
    × FieldsFit header_widths out
    × (pack header_widths out ≡ 0x80001801 % 2 ^ sum header_widths)
unpack_bits-pack_example = unpack_bits-pack 0x80001801 header_widths (ground arith)

unpack_bits-of_pack_example :
    unpack_bits (pack header_widths (1 ∷ 6 ∷ 0 ∷ 0 ∷ 0 ∷ 1 ∷ [])) header_widths
    ≡ some (1 ∷ 6 ∷ 0 ∷ 0 ∷ 0 ∷ 1 ∷ [])
unpack_bits-of_pack_example =
    unpack_bits-of_pack header_widths (1 ∷ 6 ∷ 0 ∷ 0 ∷ 0 ∷ 1 ∷ []) (ground arith) (ground arith)

cursor-IsValid_example :
    LeavesValid (seek 3 node_file)
    × LeavesValid (seek_relative 3 node_file)
    × LeavesValid (skip 3 node_file)
    × LeavesValid (read_bytes 3 node_file)
    × LeavesValid (peek_bytes 3 node_file)
    × LeavesValid (read_struct 3 node_file)
cursor-IsValid_example = cursor-IsValid node_file 3 node_file-IsValid

view_example :
    ((0 + 2 + 3 ≤ 6) × (view 2 3 node_file ≡ ok (part node_file.reader 2 3) node_file))
    ⊎ ((6 < 0 + 2 + 3)
        × (view 2 3 node_file
            ≡ err (format_error "View out of bounds" (some (0 + 2))) node_file.ctx))
view_example = view_lem node_file 2 3 node_file-IsValid

read_struct-le_bytes_example :
    read_struct 4 (between (7 ∷ []) (le_bytes 4 0x80001801) (8 ∷ []) strict_context)
    ≡ ok 0x80001801 (advance 4 (between (7 ∷ []) (le_bytes 4 0x80001801) (8 ∷ []) strict_context))
read_struct-le_bytes_example =
    read_struct-le_bytes 4 0x80001801 (7 ∷ []) (8 ∷ []) strict_context (omega arith)

to_u32-from_u32_example : to_u32 (CompactId.from_u32 0x80001801) ≡ 0x80001801
to_u32-from_u32_example = to_u32-from_u32 0x80001801 (omega arith)

abbrev compact : CompactId
compact = record { n = 3; guid_index = 1000 }

from_u32-to_u32_example : CompactId.from_u32 (to_u32 compact) ≡ compact
from_u32-to_u32_example = from_u32-to_u32 compact (omega arith) (omega arith)

validate-from_u32_example :
    (Jcid.validate (Jcid.from_u32 0x00020001) node_file ≡ ok tt node_file)
    ↔ ((0x00020001 < 2 ^ 21) × ((0x00020001 / 2 ^ 19 % 2 ≡ 0) ⊎ (0x00020001 / 2 ^ 16 ≡ 8)))
validate-from_u32_example = validate-from_u32 0x00020001 node_file (omega arith)

read_nodes_terminates_example : read_nodes 7 true 6 none node_file ≢ stuck
read_nodes_terminates_example =
    read_nodes_terminates 7 true 6 none node_file node_file-IsValid (omega arith) (omega arith)

abbrev entry_bytes : List ℕ
entry_bytes =
    5 ∷ 0 ∷ 0 ∷ 0 ∷ 1 ∷ 2 ∷ 3 ∷ 4 ∷ 5 ∷ 6 ∷ 7 ∷ 8 ∷ 9 ∷ 10 ∷ 11 ∷ 12 ∷ 13 ∷ 14 ∷ 15 ∷ 16 ∷ []

abbrev entry_node : FileNode
entry_node = record {
  header = header_of_word 0 0x80006024;
  chunk_ref = none;
  payload = entry_bytes;
  fnd = entry_bytes;
}

parse_global_id_table_entry_example : parse_global_id_table_entry_fndx entry_node node_file ≡ (
    if leb max_index (entry_of_bytes entry_bytes).index
    then err
        (format_error "GlobalIdTableEntryFNDX.index MUST be < 0xFFFFFF" (some 0))
        strict_context
    else (if bytes_eq (entry_of_bytes entry_bytes).guid (replicate 16 0)
        then err
            (format_error "GlobalIdTableEntryFNDX.guid MUST NOT be all-zero" (some 0))
            strict_context
        else ok (entry_of_bytes entry_bytes) node_file))
unfolding header_of_word
parse_global_id_table_entry_example =
    parse_global_id_table_entry_lem entry_node node_file (ground arith) refl refl refl
