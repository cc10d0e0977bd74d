-- ===== src/FileNodeCore/Extent.antt =====
-- How much of its container a node takes, and what it keeps of it.
use aspose_note_foss_for_pyt.Prelude.{
  ℕ, ◌+◌, ◌-◌, ◌≤◌, ◌≡◌, refl, List, [], some, take, inl, inr, ◌==◌, arith, if◌then◌else◌,
  Bool-cases, not,
}
use aspose_note_foss_for_pyt.Context.{format_error}
use aspose_note_foss_for_pyt.Parser.{raise_if, State, ok, pure, with_reader, ◌>>=◌, ◌>>◌}
use aspose_note_foss_for_pyt.Parser.Rules.{>>=-eq-ok, with_reader-ok}
use aspose_note_foss_for_pyt.Read.{
  tell, tell_relative, view, skip, remaining, peek_bytes, move, slice_at,
}
use aspose_note_foss_for_pyt.Read.Cursor.{IsValid}
use aspose_note_foss_for_pyt.Read.Views.{view_lem}
use aspose_note_foss_for_pyt.Read.Fields.{window, advance, advance-IsValid}
use aspose_note_foss_for_pyt.Io.{little_endian}
use aspose_note_foss_for_pyt.FileNodeCore.NodeHeader.{header_of_word, parse_file_node_header_lem}
use aspose_note_foss_for_pyt.FileNodeCore.Defs.{
  FileNodeHeader, FileNode, check_node, is_chunk_terminator, parse_payload, read_payload,
  parse_body, parse_terminator, node_with_header, parse_file_node,
}

parse_payload-payload :
    (h : FileNodeHeader) (p : List ℕ) (s t : State) (n : FileNode)
    → parse_payload h p s ≡ ok n t
    → (n.payload ≡ p) × (n.header ≡ h)
unfolding parse_payload
parse_payload-payload h p s t n e = (ground arith, ground arith)

read_payload-payload :
    (h : FileNodeHeader) (s t : State) (n : FileNode)
    → read_payload h s ≡ ok n t
    → (n.payload ≡ window (h.size - 4) s) × (n.header ≡ h)
unfolding read_payload peek_bytes
read_payload-payload h s t n e =
    parse_payload-payload h (window (h.size - 4) s) s t n (ground arith)

-- the end of `parse_body`
finish :
    (start : ℕ) (h : FileNodeHeader) (node : FileNode) (s t : State) (n : FileNode)
    → (do
      skip (h.size - 4)
      behind ← tell
      raise_if
          (not (behind == start + h.size))
          (format_error "FileNode did not consume declared Size" (some h.offset))
      pure node)
        s
      ≡ ok n t
    → (n ≡ node) × (t.reader ≡ (move (start + h.size) s).reader)
unfolding skip tell
finish start h node s t n e = (ground arith, ground arith)

parse_body-ok :
    (start : ℕ) (h : FileNodeHeader) (s t : State) (n : FileNode)
    → parse_body start h s ≡ ok n t
    → IsValid s.reader
    → (n.payload ≡ window (h.size - 4) s)
      × (n.header ≡ h)
      × (t.reader ≡ (move (start + h.size) s).reader)
unfolding parse_body tell_relative
parse_body-ok start h s t n e v =
    let (r, s1, e1, e2) =
      >>=-eq-ok (view (s.reader.pos - s.reader.bounds.start) (h.size - 4)) _ s e in
    let (node, s2, e3, e4) = >>=-eq-ok (with_reader r (read_payload h)) _ s1 e2 in
    let (u, e5, e6) = with_reader-ok r (read_payload h) s1 e3 in
    let (n-node, t-move) = finish start h node s2 t n e4 in
    let (p, q) = read_payload-payload h _ u node e5 in
    elim (view_lem s (s.reader.pos - s.reader.bounds.start) (h.size - 4) v) [
      | inl (inside, shown) ↦ (grind arith, grind arith, grind arith)
      | inr (outside, refused) ↦ cc
    ]

terminator-ok :
    (start : ℕ) (h : FileNodeHeader) (s t : State) (n : FileNode)
    → parse_terminator start h s ≡ ok n t
    → (n.payload ≡ [])
      × (n.header ≡ h)
      × (h.size ≡ 4)
      × (s.reader.pos ≡ start + 4)
      × (t.reader ≡ s.reader)
unfolding parse_terminator
terminator-ok start h s t n e =
    (ground arith, ground arith, ground arith, ground arith, ground arith)

check_node-ok :
    (h : FileNodeHeader) (s t : State)
    → check_node h s ≡ ok tt t
    → (4 ≤ h.size) × (t.reader ≡ s.reader)
unfolding check_node
check_node-ok h s t e = (ground arith, ground arith)

after_checks :
    (start : ℕ) (h : FileNodeHeader) (s t : State) (n : FileNode)
    → node_with_header start h s ≡ ok n t
    → (4 ≤ h.size)
      × ((u : State) × (u.reader ≡ s.reader)
          × ((if is_chunk_terminator h then parse_terminator start h else parse_body start h) u
              ≡ ok n t))
unfolding node_with_header remaining
after_checks start h s t n e =
    let (x, u, e1, e2) = >>=-eq-ok (check_node h) _ s e in
    let (a, b) = check_node-ok h s u e1 in (a, (u, b, ground arith))

-- The reader of a successful parse has moved by exactly the size that the header declares, which is
-- at least the header's own four bytes, and the payload is the bytes between the two.
pub parse_file_node-extent :
    (s t : State) (n : FileNode)
    → IsValid s.reader
    → parse_file_node s ≡ ok n t
    → (4 ≤ n.header.size)
      × (t.reader ≡ (move (s.reader.pos + n.header.size) s).reader)
      × (n.payload ≡ slice_at (s.reader.pos + 4) (n.header.size - 4) s.reader)
unfolding parse_file_node tell take
parse_file_node-extent s t n v e = elim (parse_file_node_header_lem s v) [
  | inl (fits, read) ↦
      let (big, (u, same, branch)) = after_checks s.reader.pos h (advance 4 s) t n (cc) in
      elim (Bool-cases (is_chunk_terminator h)) [
        | inl ends ↦
            let (a, b, c, d, f) = terminator-ok s.reader.pos h u t n (ground arith) in
            (rw b big, rw (b, c, f, same) refl, rw (b, a, c) refl)
        | inr goes ↦
            let (a, b, c) =
              parse_body-ok s.reader.pos h u t n (ground arith)
                (rw same (advance-IsValid 4 s v fits)) in
            (rw b big, rw (b, c, same) refl, rw (b, a, same) refl)
      ]
  | inr (short, (o, failed)) ↦ cc
]
  where
    h : FileNodeHeader
    h = header_of_word s.reader.pos (little_endian (window 4 s))
