-- ===== src/FileNodeList/Ends.antt =====
-- The loop over the nodes of a fragment ends: every round takes at least the four bytes of a header.
use aspose_note_foss_for_pyt.Prelude.{
  ℕ, zero, suc, ◌+◌, ◌-◌, ◌≤◌, ◌<◌, ◌≢◌, refl, ap, ◌==◌, Bool, true, false, Option, not, ◌&&◌, some,
  ltb, ◌||◌, Bool-cases, inl, inr, arith, if◌then◌else◌,
}
use aspose_note_foss_for_pyt.Context.{Error, format_error}
use aspose_note_foss_for_pyt.Io.{BinaryReader, Bounds}
use aspose_note_foss_for_pyt.Parser.{State, M, stuck, pure, raise_if, ◌>>=◌, ◌>>◌}
use aspose_note_foss_for_pyt.Read.{tell_relative, peek_bytes, skip, view, binary_reader, require}
use aspose_note_foss_for_pyt.Read.Cursor.{IsValid}
use aspose_note_foss_for_pyt.Read.Fields.{advance-IsValid}
use aspose_note_foss_for_pyt.Read.Progress.{Further, After, After-bind, continue-ne-stuck}
use aspose_note_foss_for_pyt.FileNodeCore.{
  FileNodeHeader, is_chunk_terminator, parse_file_node_header, check_node,
}
use aspose_note_foss_for_pyt.FileNodeCore.NodeHeader.{parse_file_node_header_lem}
use aspose_note_foss_for_pyt.FileNodeList.Defs.{
  Nodes, Round, read_node, after_node, node_or_padding, read_nodes, is_used_up, use_one,
  check_in_fragment, capture,
}

header-After : (s : State) → IsValid s.reader → After 4 s.reader (parse_file_node_header s)
header-After s v = elim (parse_file_node_header_lem s v) [
  | inl (fits, e) ↦
      rw e (record { valid = advance-IsValid 4 s v fits; bounds = refl; moved = omega arith })
  | inr (short, (o, e)) ↦ rw e tt
]

module _ (r : BinaryReader) (t : State) (h : Further 4 r t.reader) where
  check-After : (n : FileNodeHeader) (at end : ℕ) → After 4 r (check_in_fragment n at end t)
  unfolding check_in_fragment check_node
  check-After n at end = ground arith

  capture-After :
      (captured : Bool) (n : FileNodeHeader) (at : ℕ) → After 4 r (capture captured n at t)
  unfolding capture view binary_reader peek_bytes require
  capture-After captured n at = ground arith

  skip-After : (n : ℕ) → After 4 r (skip n t)
  unfolding skip require
  skip-After n =
      ground (arith, h.valid, h.bounds, h.moved, h.valid.pos_le, h.valid.start_le, h.valid.end_le)

  raise-After : (b : Bool) (e : Error) → After 4 r (raise_if b e t)
  raise-After true e = tt
  raise-After false e = h

read_node-After :
    (captured : Bool) (end : ℕ) (s : State)
    → IsValid s.reader
    → After 4 s.reader (read_node captured end s)
unfolding read_node tell_relative
read_node-After captured end s v =
    After-bind (parse_file_node_header s) _ (header-After s v) λ n t h.
      After-bind (check_in_fragment n _ end t) _ (check-After s.reader t h n _ end) λ _ t1 h1.
        After-bind {B = Round}
          (raise_if (is_chunk_terminator n && not (n.size == 4))
            (format_error "ChunkTerminatorFND MUST contain no data" (some n.offset)) t1)
          (λ _. do
            raw ← capture captured n (s.reader.pos - s.reader.bounds.start)
            skip (if is_chunk_terminator n then 0 else n.size - 4)
            pure (record { node = n; raw = raw }))
          (raise-After s.reader t1 h1 _ _)
          λ _ t2 h2.
            After-bind (capture captured n _ t2) _ (capture-After s.reader t2 h2 captured n _)
              λ raw t3 h3. After-bind (skip _ t3) _ (skip-After s.reader t3 h3 _) λ _ t4 h4. h4

after_node-ne-stuck :
    (rounds : M Nodes) (n : Round) (s : State) → rounds s ≢ stuck → after_node rounds n s ≢ stuck
unfolding after_node
after_node-ne-stuck rounds n s h = ground arith

node_or_padding-ne-stuck :
    (captured : Bool) (end : ℕ) (rounds : M Nodes) (s : State)
    → IsValid s.reader
    → ((t : State) → Further 4 s.reader t.reader → rounds t ≢ stuck)
    → node_or_padding captured end rounds s ≢ stuck
unfolding node_or_padding peek_bytes require
node_or_padding-ne-stuck captured end rounds s v h =
    let node =
      continue-ne-stuck (read_node captured end s) (after_node rounds)
        (read_node-After captured end s v) λ n t f. after_node-ne-stuck rounds n t (h t f) in
    ground (arith, node)

-- On a valid reader, fuel that is not 0 and exceeds what is left before `end` is enough for the loop
-- over the nodes: it returns the nodes or an error.
pub read_nodes_terminates :
    (fuel : ℕ) (captured : Bool) (end : ℕ) (left : Option ℕ) (s : State)
    → IsValid s.reader
    → 0 < fuel
    → end < fuel + (s.reader.pos - s.reader.bounds.start)
    → read_nodes fuel captured end left s ≢ stuck
unfolding read_nodes tell_relative
read_nodes_terminates zero captured end left s v some_ enough = absurd (omega arith)
read_nodes_terminates (suc fuel) captured end left s v some_ enough =
    elim (Bool-cases (ltb end (s.reader.pos - s.reader.bounds.start + 4) || is_used_up left)) [
      | inl stop ↦ ground arith
      | inr goes ↦
          let inside : s.reader.pos - s.reader.bounds.start + 4 ≤ end = ground arith in
          let node =
            node_or_padding-ne-stuck captured end (read_nodes fuel captured end (use_one left)) s v
              λ t f.
                read_nodes_terminates fuel captured end (use_one left) t f.valid (omega arith)
                  (omega (arith, f.moved, v.start_le, ap (λ (b : Bounds). b.start) f.bounds)) in
          ground (arith, node)
    ]
