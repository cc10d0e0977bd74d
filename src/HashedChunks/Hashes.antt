-- ===== src/HashedChunks/Hashes.antt =====
-- The hashes that have been compared.
use aspose_note_foss_for_pyt.Prelude.{
  ℕ, ◌+◌, ◌≤◌, ◌≡◌, refl, true, not, ◌&&◌, none, some, List, [], ◌∷◌, ◌==◌, take, drop, length,
  bytes_eq_iff, All, arith,
}
use aspose_note_foss_for_pyt.Context.{format_error}
use aspose_note_foss_for_pyt.Parser.{State, ok}
use aspose_note_foss_for_pyt.Read.{binary_reader, view, read_bytes}
use aspose_note_foss_for_pyt.HashedChunks.{
  HashedChunkListEntry, as_descriptor, is_outside, blob_at, check_hash, parse_entry, parse_entries,
}
use aspose_note_foss_for_pyt.FileNodeTypes.Groups.{HashedChunkDescriptor2Fnd}
use aspose_note_foss_for_pyt.FileNodeTypes.Typed.{TypedFileNode}
use aspose_note_foss_for_pyt.Parser.Strictly.{
  Strictly, Strictly-bind, Strictly-pure, Strictly-raise_if, Strictly-the_context,
}

-- the chunk of an entry
unfoldable pub chunk : List ℕ → HashedChunkListEntry → List ℕ
chunk contents e = take e.cb (drop e.stp contents)

-- the chunk lies inside the file and has the hash that the entry stores
unfoldable pub IsHash : (List ℕ → List ℕ) → List ℕ → HashedChunkListEntry → Type 0
IsHash md5 contents e = (e.stp + e.cb ≤ length contents) × (md5 (chunk contents e) ≡ e.md5)

check_hash-IsHash :
    (md5 : List ℕ → List ℕ) (contents : List ℕ) (e : HashedChunkListEntry) (offset : ℕ)
    → Strictly (λ _. IsHash md5 contents e) (check_hash md5 true contents e offset)
unfolding check_hash blob_at binary_reader view read_bytes IsHash chunk
check_hash-IsHash md5 contents e offset = record {
  holds = λ s t u strict h.
      let fits = bytes_eq_iff (md5 (take e.cb (drop e.stp contents))) e.md5 in
      (ground arith, ground (arith, fits));
}

module _ (md5 : List ℕ → List ℕ) (contents : List ℕ) where
  parse_entry-IsHash :
      (x : HashedChunkDescriptor2Fnd) (offset : ℕ)
      → Strictly (IsHash md5 contents) (parse_entry md5 true contents x offset)
  unfolding parse_entry
  parse_entry-IsHash x offset =
      let e : HashedChunkListEntry = record {
        stp = x.blob_ref.stp;
        cb = x.blob_ref.cb;
        md5 = x.guid_hash;
      } in
      Strictly-bind Strictly-the_context λ c _.
        Strictly-bind
          (Strictly-raise_if (is_outside c.file_size (e.stp + e.cb))
            (format_error "Hashed chunk BlobRef is out of file bounds" (some e.stp)))
          λ _ _. Strictly-bind (check_hash-IsHash md5 contents e offset) λ _ h. Strictly-pure e h

  parse_entries-Strictly :
      (nodes : List TypedFileNode)
      → Strictly (All (IsHash md5 contents)) (parse_entries md5 true contents nodes)
  unfolding parse_entries
  parse_entries-Strictly [] = Strictly-pure [] tt
  parse_entries-Strictly (tn ∷ nodes) =
      elim (as_descriptor tn.typed)
          as (λ o.
            as_descriptor tn.typed ≡ o
            → Strictly (All (IsHash md5 contents)) (parse_entries md5 true contents (tn ∷ nodes))) [
              | none ↦ λ e.
                  rw (e, parse_entries)
                    (Strictly-bind Strictly-the_context λ c _.
                      Strictly-bind
                        (Strictly-raise_if (c.strict && not (tn.node.header.file_node_id == 0x0C2))
                          (format_error
                            "Hashed chunk list MUST contain only HashedChunkDescriptor2FND (0x0C2)"
                            (some tn.node.header.offset)))
                        λ _ _.
                          Strictly-bind
                            (Strictly-raise_if c.strict (
                              format_error "Hashed chunk list contains an unparsed or unknown node"
                                (some tn.node.header.offset)))
                            λ _ _. parse_entries-Strictly nodes)
              | some x ↦ λ e.
                  rw (e, parse_entries)
                    (Strictly-bind Strictly-the_context λ c _.
                      Strictly-bind
                        (Strictly-raise_if (c.strict && not (tn.node.header.file_node_id == 0x0C2))
                          (format_error
                            "Hashed chunk list MUST contain only HashedChunkDescriptor2FND (0x0C2)"
                            (some tn.node.header.offset)))
                        λ _ _. Strictly-bind (parse_entry-IsHash x tn.node.header.offset) λ y h.
                          Strictly-bind (parse_entries-Strictly nodes)
                            λ ys hs. Strictly-pure (y ∷ ys) (h, hs))
            ]
        refl

-- In the strict mode, where the hashes are compared, every entry that is read from the nodes of the list names
-- a chunk that lies inside the file and has the hash that the entry stores, whatever the hash function
-- is.
pub parse_entries-IsHash :
    (md5 : List ℕ → List ℕ) (contents : List ℕ) (nodes : List TypedFileNode) (s t : State)
    (entries : List HashedChunkListEntry)
    → s.ctx.strict ≡ true
    → parse_entries md5 true contents nodes s ≡ ok entries t
    → All (IsHash md5 contents) entries
parse_entries-IsHash md5 contents nodes s t entries strict e =
    let (_, h) = (parse_entries-Strictly md5 contents nodes).holds s t entries strict e in h
