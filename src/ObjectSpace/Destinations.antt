-- ===== src/ObjectSpace/Destinations.antt =====
-- The destinations of the operations of a sequence.
use aspose_note_foss_for_pyt.Prelude.{
  ℕ, ◌+◌, ◌-◌, ◌≤◌, ◌<◌, ◌≡◌, refl, false, ◌||◌, some, List, [], ◌∷◌, ◌==◌, leb, All, arith,
}
use aspose_note_foss_for_pyt.Context.{format_error}
use aspose_note_foss_for_pyt.Parser.{State, ok, raise_if, violation_if}
use aspose_note_foss_for_pyt.Parser.Ensures.{
  Ensures, Ensures-bind, Ensures-after, Ensures-pure, Ensures-raise, Ensures-if,
}
use aspose_note_foss_for_pyt.FileNodeTypes.GlobalIdTable.{
  GlobalIdTableEntryFndx, GlobalIdTableEntry2Fndx, GlobalIdTableEntry3Fndx,
}
use aspose_note_foss_for_pyt.FileNodeTypes.Typed.{TypedFileNode}
use aspose_note_foss_for_pyt.ObjectSpace.Sequences.{
  GlobalIdTableStart, GlobalIdTableOp, entry, entry2, entry3, GlobalIdTableSequenceSummary,
  Destinations, point_overlaps, range_overlaps, dest_has_overlap, dest_add_point, dest_add_range,
  Seen, nothing_seen, check_entry, check_entry2, check_entry3, check_op, sequence_node, table_start,
  table_op, table_end, other_node, sequence_ops, parse_global_id_table_sequence, has_bytes,
  index_limit, last_offset,
}

-- the indices that an operation writes
unfoldable pub Writes : GlobalIdTableOp → ℕ → Type 0
Writes (entry op) k = k ≡ op.index
Writes (entry2 op) k = k ≡ op.index_map_to
Writes (entry3 op) k =
    (op.index_copy_to_start ≤ k) × (k < op.index_copy_to_start + op.entries_to_copy)

-- no index is written by two operations
unfoldable pub AreApart : List GlobalIdTableOp → Type 0
AreApart [] = Unit
AreApart (op ∷ ops) = All (λ q. (k : ℕ) → Writes op k → Writes q k → ⊥) ops × AreApart ops

-- `k` is not among the destinations
IsFree : Destinations → ℕ → Type 0
IsFree d k = (point_overlaps d.points k k ≡ false) × (range_overlaps d.ranges k k ≡ false)

point_inside :
    (ps : List ℕ) (first last k : ℕ)
    → first ≤ k
    → k ≤ last
    → point_overlaps ps first last ≡ false
    → point_overlaps ps k k ≡ false
unfolding point_overlaps
point_inside [] first last k a b h = refl
point_inside (p ∷ ps) first last k a b h =
    ground (arith, point_inside ps first last k a b (ground arith))

range_inside :
    (rs : List (ℕ × ℕ)) (first last k : ℕ)
    → first ≤ k
    → k ≤ last
    → range_overlaps rs first last ≡ false
    → range_overlaps rs k k ≡ false
unfolding range_overlaps
range_inside [] first last k a b h = refl
range_inside ((x, y) ∷ rs) first last k a b h =
    ground (arith, range_inside rs first last k a b (ground arith))

-- what is added: it was free, and what stays free is not among it
record Claims (op : GlobalIdTableOp) (d e : Destinations) : Type 0 where
  free : (k : ℕ) → Writes op k → IsFree d k
  left : (k : ℕ) → IsFree e k → IsFree d k
  apart : (k : ℕ) → IsFree e k → Writes op k → ⊥

-- a single index
record ClaimsPoint (p : ℕ) (d e : Destinations) : Type 0 where
  free : IsFree d p
  left : (k : ℕ) → IsFree e k → IsFree d k
  apart : (k : ℕ) → IsFree e k → k ≡ p → ⊥

dest_add_point-ClaimsPoint :
    (offset p : ℕ) (d : Destinations) → Ensures (ClaimsPoint p d) (dest_add_point offset p d)
unfolding dest_add_point dest_has_overlap IsFree point_overlaps
dest_add_point-ClaimsPoint offset p d = record {
  holds = λ s t e h.
      let made : e ≡ record { points = p ∷ d.points; ranges = d.ranges } = ground arith in
      rw made (record {
        free = ground arith;
        left = λ k f. ground arith;
        apart = λ k f same. ground arith;
      });
}

point-Claims :
    (op : GlobalIdTableOp) (p : ℕ) (d e : Destinations)
    → ((k : ℕ) → Writes op k → k ≡ p)
    → ClaimsPoint p d e
    → Claims op d e
unfolding IsFree
point-Claims op p d e only c = record {
  free = λ k w. rw (only k w) c.free;
  left = c.left;
  apart = λ k f w. c.apart k f (only k w);
}

-- a range that is not empty
record ClaimsRange (first last : ℕ) (d e : Destinations) : Type 0 where
  free : (k : ℕ) → first ≤ k → k ≤ last → IsFree d k
  left : (k : ℕ) → IsFree e k → IsFree d k
  apart : (k : ℕ) → IsFree e k → first ≤ k → k ≤ last → ⊥

dest_add_range-ClaimsRange :
    (offset first last : ℕ) (d : Destinations)
    → first ≤ last
    → Ensures (ClaimsRange first last d) (dest_add_range offset first last d)
unfolding dest_add_range dest_has_overlap IsFree range_overlaps
dest_add_range-ClaimsRange offset first last d le = record {
  holds = λ s t e h.
      let made : e ≡ record { points = d.points; ranges = (first, last) ∷ d.ranges } =
        ground arith in
      rw made (record {
        free = λ k a b. (
          point_inside d.points first last k a b (ground arith),
          range_inside d.ranges first last k a b (ground arith),
        );
        left = λ k f. ground arith;
        apart = λ k f a b. ground arith;
      });
}

-- what one operation does to what has been seen
abbrev Step : GlobalIdTableOp → Seen → Seen → Type 0
Step op seen seen' = Claims op seen.dests seen'.dests

check_entry-Claims :
    (offset : ℕ) (op : GlobalIdTableEntryFndx) (seen : Seen)
    → Ensures (Step (entry op) seen) (check_entry offset op seen)
unfolding check_entry Writes
check_entry-Claims offset op seen =
    Ensures-bind (dest_add_point-ClaimsPoint offset op.index seen.dests) λ dests c.
      Ensures-after
        (raise_if (has_bytes seen.guids op.guid) (
          format_error "GlobalIdTableEntryFNDX.guid MUST be unique within a sequence"
            (some offset)))
        λ _.
          Ensures-pure (record { dests = dests; guids = op.guid ∷ seen.guids })
            (point-Claims (entry op) op.index seen.dests dests (λ k w. w) c)

check_entry2-Claims :
    (offset : ℕ) (op : GlobalIdTableEntry2Fndx) (seen : Seen)
    → Ensures (Step (entry2 op) seen) (check_entry2 offset op seen)
unfolding check_entry2 Writes
check_entry2-Claims offset op seen =
    Ensures-after
      (violation_if (leb index_limit op.index_map_from || leb index_limit op.index_map_to)
        "GlobalIdTableEntry2FNDX indices MUST be < 0xFFFFFF" (some offset))
      λ _. Ensures-bind (dest_add_point-ClaimsPoint offset op.index_map_to seen.dests) λ dests c.
        Ensures-pure (record seen { dests = dests })
          (point-Claims (entry2 op) op.index_map_to seen.dests dests (λ k w. w) c)

no-Claims :
    (op : GlobalIdTableEntry3Fndx) (d : Destinations)
    → op.entries_to_copy ≡ 0
    → Claims (entry3 op) d d
unfolding Writes IsFree
no-Claims op d e = record {
  free = λ k w. absurd (omega (arith, w.0, w.1, e));
  left = λ k f. f;
  apart = λ k f w. omega (arith, w.0, w.1, e);
}

range-Claims :
    (op : GlobalIdTableEntry3Fndx) (d e : Destinations)
    → ClaimsRange op.index_copy_to_start (op.index_copy_to_start + op.entries_to_copy - 1) d e
    → Claims (entry3 op) d e
unfolding Writes
range-Claims op d e c = record {
  free = λ k w. c.free k w.0 (omega (arith, w.1));
  left = c.left;
  apart = λ k f w. c.apart k f w.0 (omega (arith, w.1));
}

check_entry3-Claims :
    (offset : ℕ) (op : GlobalIdTableEntry3Fndx) (seen : Seen)
    → Ensures (Step (entry3 op) seen) (check_entry3 offset op seen)
unfolding check_entry3
check_entry3-Claims offset op seen =
    let last = op.index_copy_to_start + op.entries_to_copy - 1 in
    Ensures-after
      (violation_if
        (leb index_limit op.index_copy_from_start || leb index_limit op.index_copy_to_start)
        "GlobalIdTableEntry3FNDX indices MUST be < 0xFFFFFF" (some offset))
      λ _.
        Ensures-if (op.entries_to_copy == 0)
          (λ e. Ensures-pure seen (no-Claims op seen.dests (ground arith)))
          λ e.
            Ensures-after
              (violation_if (leb index_limit last)
                "GlobalIdTableEntry3FNDX destination range MUST be < 0xFFFFFF" (some offset))
              λ _.
                Ensures-bind
                  (dest_add_range-ClaimsRange offset op.index_copy_to_start last seen.dests
                    (ground arith))
                  λ dests c.
                    Ensures-pure (record seen { dests = dests })
                      (range-Claims op seen.dests dests c)

check_op-Claims :
    (offset : ℕ) (op : GlobalIdTableOp) (seen : Seen)
    → Ensures (Step op seen) (check_op offset op seen)
unfolding check_op
check_op-Claims offset (entry op) seen = check_entry-Claims offset op seen
check_op-Claims offset (entry2 op) seen = check_entry2-Claims offset op seen
check_op-Claims offset (entry3 op) seen = check_entry3-Claims offset op seen

-- every index that one of the operations writes is free
AllFree : Destinations → List GlobalIdTableOp → Type 0
AllFree d = All (λ q. (k : ℕ) → Writes q k → IsFree d k)

AllFree-left :
    (op : GlobalIdTableOp) (d e : Destinations) (ops : List GlobalIdTableOp)
    → Claims op d e
    → AllFree e ops
    → AllFree d ops × All (λ q. (k : ℕ) → Writes op k → Writes q k → ⊥) ops
unfolding AllFree
AllFree-left op d e [] c h = (tt, tt)
AllFree-left op d e (q ∷ ops) c (h, hs) =
    let (free, apart) = AllFree-left op d e ops c hs in
    ((λ k w. c.left k (h k w), free), (λ k w w'. c.apart k (h k w') w, apart))

-- the operations of a sequence and the nodes behind it
abbrev Accepted : Seen → List GlobalIdTableOp × List TypedFileNode → Type 0
Accepted seen (ops, rest) = AllFree seen.dests ops × AreApart ops

sequence_ops-AreApart :
    (last : ℕ) (nodes : List TypedFileNode) (seen : Seen)
    → Ensures (Accepted seen) (sequence_ops last seen nodes)
unfolding sequence_ops AllFree AreApart
sequence_ops-AreApart last [] seen =
    Ensures-raise (format_error "Global id table sequence missing GlobalIdTableEndFNDX" (some last))
sequence_ops-AreApart last (tn ∷ nodes) seen =
    elim (sequence_node tn.typed)
        as (λ n.
          sequence_node tn.typed ≡ n
          → Ensures (Accepted seen) (sequence_ops last seen (tn ∷ nodes))) [
            | table_end ↦ λ e. rw (e, sequence_ops) (Ensures-pure ([], nodes) (tt, tt))
            | table_start x ↦ λ e. rw (e, sequence_ops) (Ensures-raise _)
            | other_node ↦ λ e. rw (e, sequence_ops) (Ensures-raise _)
            | table_op op ↦ λ e.
                rw (e, sequence_ops)
                  (Ensures-bind (check_op-Claims tn.node.header.offset op seen) λ seen' c.
                    Ensures-bind (sequence_ops-AreApart last nodes seen') λ r (f, a).
                      let (free, apart) = AllFree-left op seen.dests seen'.dests r.0 c f in
                      Ensures-pure (op ∷ r.0, r.1) ((c.free, free), (apart, a)))
          ]
      refl

-- In a global id table sequence that is accepted, in the strict mode or not, no index is the
-- destination of two operations, also not of two ranges that are copied.
pub parse_global_id_table_sequence-AreApart :
    (start_t : GlobalIdTableStart) (offset : ℕ) (nodes rest : List TypedFileNode) (s t : State)
    (seq : GlobalIdTableSequenceSummary)
    → parse_global_id_table_sequence start_t offset nodes s ≡ ok (seq, rest) t
    → AreApart seq.ops
unfolding parse_global_id_table_sequence
parse_global_id_table_sequence-AreApart start_t offset nodes rest s t seq e =
    (Ensures-bind {Q = λ (r : GlobalIdTableSequenceSummary × List TypedFileNode). AreApart r.0.ops}
        (sequence_ops-AreApart (last_offset offset nodes) nodes nothing_seen)
        λ r a. Ensures-pure (record { start = start_t; ops = r.0 }, r.1) a.1).holds
      s t (seq, rest) e
