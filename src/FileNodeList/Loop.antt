-- ===== src/FileNodeList/Loop.antt =====
-- The loop over the nodes of a fragment: its counts, and that it ends.
use aspose_note_foss_for_pyt.Prelude.{
  ℕ, zero, suc, ◌+◌, ◌-◌, ◌≤◌, ◌≡◌, refl, Bool, true, false, Option, none, some, length, ltb, ◌||◌,
  bytes_eq, Bool-cases, inl, inr, arith,
}
use aspose_note_foss_for_pyt.Parser.{State, M, ok, pure}
use aspose_note_foss_for_pyt.Parser.Rules.{>>=-eq-ok}
use aspose_note_foss_for_pyt.Read.{tell_relative, peek_bytes}
use aspose_note_foss_for_pyt.FileNodeCore.{is_chunk_terminator}
use aspose_note_foss_for_pyt.FileNodeList.Defs.{
  Nodes, Round, read_node, after_node, node_or_padding, read_nodes, with_node, ends_with, no_nodes,
  is_used_up, use_one, zero_header,
}
use aspose_note_foss_for_pyt.FileNodeList.Lists.{committed_headers}

-- the number of nodes that a limit allows
abbrev pub Within : ℕ → Option ℕ → Type 0
Within n none = Unit
Within n (some m) = n ≤ m

-- what a round that succeeds comes to
data Ran (rounds : M Nodes) (ns : Nodes) : Type 0 where
  stopped : ns ≡ no_nodes → Ran rounds ns
  ended : (r : Round) → is_chunk_terminator r.node ≡ true → ns ≡ ends_with r → Ran rounds ns
  further :
      (r : Round) (u v : State) (more : Nodes)
      → is_chunk_terminator r.node ≡ false
      → rounds u ≡ ok more v
      → ns ≡ with_node r more
      → Ran rounds ns

after_node-Ran :
    (rounds : M Nodes) (r : Round) (s t : State) (ns : Nodes)
    → after_node rounds r s ≡ ok ns t
    → Ran rounds ns
unfolding after_node
after_node-Ran rounds r s t ns e = elim (Bool-cases (is_chunk_terminator r.node)) [
  | inl ends ↦ ended r ends (ground arith)
  | inr goes ↦
      let (more, v, e1, e2) =
        >>=-eq-ok rounds (λ x. pure (with_node r x)) s {b = ns} {t = t} (ground arith) in
      further r s v more goes e1 (ground arith)
]

node_or_padding-Ran :
    (captured : Bool) (end : ℕ) (rounds : M Nodes) (s t : State) (ns : Nodes)
    → node_or_padding captured end rounds s ≡ ok ns t
    → Ran rounds ns
unfolding node_or_padding
node_or_padding-Ran captured end rounds s t ns e =
    let (next, u, e1, e2) = >>=-eq-ok (peek_bytes 4) _ s e in
    elim (Bool-cases (bytes_eq next zero_header)) [
      | inl padding ↦ stopped (ground arith)
      | inr node ↦
          let (r, v, e3, e4) =
            >>=-eq-ok (read_node captured end) (after_node rounds) u {b = ns} {t = t}
              (ground arith) in
          after_node-Ran rounds r v t ns e4
    ]

Counted : Nodes → Option ℕ → Type 0
Counted ns left =
    (ns.node_count ≡ length (committed_headers ns.file_nodes)) × Within ns.node_count left

Within-suc :
    (n : ℕ) (left : Option ℕ)
    → is_used_up left ≡ false
    → Within n (use_one left)
    → Within (n + 1) left
unfolding is_used_up use_one
Within-suc n none h w = tt
Within-suc n (some m) h w = ground arith

Within-zero : (left : Option ℕ) → Within 0 left
Within-zero none = tt
Within-zero (some m) = omega arith

stopped-Counted : (left : Option ℕ) (ns : Nodes) → ns ≡ no_nodes → Counted ns left
unfolding Counted committed_headers
stopped-Counted left ns e = rw e (refl, Within-zero left)

count-Ran :
    (rounds : M Nodes) (left : Option ℕ) (ns : Nodes)
    → is_used_up left ≡ false
    → ((u v : State) (more : Nodes) → rounds u ≡ ok more v → Counted more (use_one left))
    → Ran rounds ns
    → Counted ns left
unfolding Counted committed_headers with_node ends_with
count-Ran rounds left ns h rest (stopped e) = stopped-Counted left ns e
count-Ran rounds left ns h rest (ended r ends e) = rw (e, ends) (refl, Within-zero left)
count-Ran rounds left ns h rest (further r u v more goes ran e) =
    let (a, b) = rest u v more ran in rw (e, goes) (omega (arith, a), Within-suc _ left h b)

-- The number of nodes that the loop has counted is that of the nodes other than the terminator, and
-- no more than the number that remains where one is given.
pub read_nodes-count :
    (fuel : ℕ) (captured : Bool) (end : ℕ) (left : Option ℕ) (s t : State) (ns : Nodes)
    → read_nodes fuel captured end left s ≡ ok ns t
    → (ns.node_count ≡ length (committed_headers ns.file_nodes)) × Within ns.node_count left
unfolding read_nodes tell_relative Counted
read_nodes-count zero captured end left s t ns e = cc
read_nodes-count (suc fuel) captured end left s t ns e =
    elim (Bool-cases (ltb end (s.reader.pos - s.reader.bounds.start + 4) || is_used_up left)) [
      | inl stop ↦ stopped-Counted left ns (ground arith)
      | inr goes ↦
          count-Ran further left ns (ground arith)
            (λ u v more h. read_nodes-count fuel captured end (use_one left) u v more h)
            (node_or_padding-Ran captured end further s t ns (ground arith))
    ]
  where
    further : M Nodes
    further = read_nodes fuel captured end (use_one left)
