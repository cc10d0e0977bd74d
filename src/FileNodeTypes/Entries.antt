-- ===== src/FileNodeTypes/Entries.antt =====
-- The entries of a global id table.
use aspose_note_foss_for_pyt.Prelude.{
  ℕ, ◌≡◌, refl, List, none, some, leb, bytes_eq, length, replicate, take, drop, All, arith,
  if◌then◌else◌,
}
use aspose_note_foss_for_pyt.Context.{format_error, ParseContext}
use aspose_note_foss_for_pyt.Io.{IsByte, little_endian}
use aspose_note_foss_for_pyt.Parser.{State, ok, err}
use aspose_note_foss_for_pyt.Read.{remaining}
use aspose_note_foss_for_pyt.Read.Fields.{
  Reads-read_u32, Reads-read_bytes, advance, advance-IsValid,
}
use aspose_note_foss_for_pyt.Read.Views.{whole, whole-IsValid, binary_reader-whole}
use aspose_note_foss_for_pyt.FileNodeCore.{FileNode}
use aspose_note_foss_for_pyt.FileNodeTypes.Checks.{
  require_base_type, forbid_reference, require_length, on_fnd, consumed,
}
use aspose_note_foss_for_pyt.FileNodeTypes.GlobalIdTable.{
  GlobalIdTableEntryFndx, read_entry, max_index, parse_global_id_table_entry_fndx,
}

-- the entry that 20 bytes lay out
unfoldable pub entry_of_bytes : List ℕ → GlobalIdTableEntryFndx
entry_of_bytes w = record { index = little_endian (take 4 w); guid = take 16 (drop 4 w) }

module _ (node : FileNode) (bytes : All IsByte node.fnd) (long : length node.fnd ≡ 20) where
  abbrev on_bytes : ParseContext → State
  on_bytes c = record { reader = whole node.fnd; ctx = c }

  read_entry_lem :
      (c : ParseContext)
      → read_entry node (on_bytes c) ≡ ok (entry_of_bytes node.fnd) (advance 20 (on_bytes c))
  unfolding read_entry consumed remaining entry_of_bytes drop
  read_entry_lem c =
      let v = whole-IsValid node.fnd bytes in
      rw
        (
          Reads-read_u32.enough (on_bytes c) v (omega arith),
          (Reads-read_bytes 16).enough (advance 4 (on_bytes c))
              (advance-IsValid 4 (on_bytes c) v (omega arith)) (omega arith),
          long,
        )
        refl

-- A node of 20 bytes with base type 0 and without a reference is read as the entry that its bytes
-- lay out, and changes nothing; it is refused where the index is out of range or the guid zero.
pub parse_global_id_table_entry_lem :
    (node : FileNode) (s : State)
    → All IsByte node.fnd
    → length node.fnd ≡ 20
    → node.header.base_type ≡ 0
    → node.chunk_ref ≡ none
    → parse_global_id_table_entry_fndx node s ≡ (
        if leb max_index (entry_of_bytes node.fnd).index
        then err
            (format_error "GlobalIdTableEntryFNDX.index MUST be < 0xFFFFFF"
              (some node.header.offset))
            s.ctx
        else (if bytes_eq (entry_of_bytes node.fnd).guid (replicate 16 0)
            then err
                (format_error "GlobalIdTableEntryFNDX.guid MUST NOT be all-zero"
                  (some node.header.offset))
                s.ctx
            else ok (entry_of_bytes node.fnd) s))
unfolding parse_global_id_table_entry_fndx require_base_type forbid_reference require_length on_fnd
parse_global_id_table_entry_lem node s b long base none_ =
    ground
      (arith, base, none_, long, binary_reader-whole node.fnd s, read_entry_lem node b long s.ctx)
