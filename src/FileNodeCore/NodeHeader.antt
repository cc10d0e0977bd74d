-- ===== src/FileNodeCore/NodeHeader.antt =====
-- The header of a node: six bit fields of one 32-bit word.
use aspose_note_foss_for_pyt.Prelude.{ℕ, ◌+◌, ◌*◌, ◌/◌, ◌%◌, ◌^◌, ◌<◌, ◌≡◌, ◌⊎◌, inl, inr, arith}
use aspose_note_foss_for_pyt.Io.{little_endian}
use aspose_note_foss_for_pyt.Parser.{State, ok, err, ◌>>=◌}
use aspose_note_foss_for_pyt.Read.{bits_of}
use aspose_note_foss_for_pyt.Read.Cursor.{IsValid}
use aspose_note_foss_for_pyt.Read.Fields.{Reads-read_u32, Fits, window, advance, out_of_bounds}
use native.Mathlib.Decide.{dec_le}
use aspose_note_foss_for_pyt.FileNodeCore.Defs.{
  FileNodeHeader, header_widths, node_header, parse_file_node_header,
}

-- the fields of a word by position
unfoldable pub header_of_word : ℕ → ℕ → FileNodeHeader
header_of_word start w = record {
  file_node_id = w % 2 ^ 10;
  size = w / 2 ^ 10 % 2 ^ 13;
  stp_format = w / 2 ^ 23 % 2 ^ 2;
  cb_format = w / 2 ^ 25 % 2 ^ 2;
  base_type = w / 2 ^ 27 % 2 ^ 4;
  reserved = w / 2 ^ 31 % 2;
  offset = start;
}

fields_lem :
    (start w : ℕ) (s : State)
    → (bits_of w header_widths >>= node_header start) s ≡ ok (header_of_word start w) s
unfolding bits_of node_header header_of_word
fields_lem start w s = ground arith

-- The header of a node takes four bytes, and its fields are the bits of their word by position; on
-- fewer bytes it is an error.
pub parse_file_node_header_lem :
    (s : State)
    → IsValid s.reader
    → (Fits 4 s
        × (parse_file_node_header s
            ≡ ok (header_of_word s.reader.pos (little_endian (window 4 s))) (advance 4 s)))
      ⊎ ((s.reader.bounds.end < s.reader.pos + 4)
          × ((o : ℕ) × (parse_file_node_header s ≡ err (out_of_bounds o) s.ctx)))
unfolding parse_file_node_header
parse_file_node_header_lem s v = elim (dec_le (s.reader.pos + 4) s.reader.bounds.end) [
  | yes h ↦ inl (h, rw (Reads-read_u32.enough s v h) (fields_lem s.reader.pos _ (advance 4 s)))
  | no h ↦
      let less : s.reader.bounds.end < s.reader.pos + 4 = omega arith in
      let (o, e, _) = Reads-read_u32.short s v less in inr (less, (o, rw e))
]

-- The fields stay within their widths, and together they are the word.
pub header_of_word_fields :
    (start w : ℕ)
    → w < 2 ^ 32
    → let h = header_of_word start w in
      (h.file_node_id < 2 ^ 10)
      × (h.size < 2 ^ 13)
      × (h.stp_format < 4)
      × (h.cb_format < 4)
      × (h.base_type < 2 ^ 4)
      × (h.reserved < 2)
      × (h.file_node_id
            + 2 ^ 10 * h.size
            + 2 ^ 23 * h.stp_format
            + 2 ^ 25 * h.cb_format
            + 2 ^ 27 * h.base_type
            + 2 ^ 31 * h.reserved
          ≡ w)
unfolding header_of_word
header_of_word_fields start w h = omega arith
