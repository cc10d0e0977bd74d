-- ===== src/HashedChunks.antt =====
-- onestore/hashed_chunk_list.py: the hashes of the chunks of the file. `hashlib.md5` is a parameter. Every
-- caller passes a context. The fuel is that of the transaction log.
pub mod Hashes
use aspose_note_foss_for_pyt.Prelude.{
  ℕ, ◌+◌, Bool, true, false, not, ◌&&◌, ◌||◌, Option, none, some, List, [], ◌∷◌, ◌++◌, ◌==◌, ltb,
  bytes_eq, if◌then◌else◌,
}
use aspose_note_foss_for_pyt.Dict.{Dict}
use aspose_note_foss_for_pyt.Context.{format_error}
use aspose_note_foss_for_pyt.Parser.{
  M, pure, raise_if, the_context, violation_if, with_reader, ◌>>=◌, ◌>>◌,
}
use aspose_note_foss_for_pyt.Read.{binary_reader, view, read_bytes}
use aspose_note_foss_for_pyt.ChunkRefs.Fcr64x32
use aspose_note_foss_for_pyt.ChunkRefs.Fcr64x32.{FileChunkReference64x32}
use aspose_note_foss_for_pyt.Header
use aspose_note_foss_for_pyt.TxnLog.{parse_transaction_log}
use aspose_note_foss_for_pyt.FileNodeTypes.Checks.{on_bytes}
use aspose_note_foss_for_pyt.FileNodeTypes.Groups.{HashedChunkDescriptor2Fnd}
use aspose_note_foss_for_pyt.FileNodeTypes.Typed.{
  KnownFileNodeType, TypedFileNode, hashed_chunk_descriptor2_fnd,
}
use aspose_note_foss_for_pyt.ObjectSpace.Summaries.{bytes_less, sorted}
use aspose_note_foss_for_pyt.ObjectSpace.Lists.{nodes_at}

pub record HashedChunkListEntry : Type 0 where
  pub stp : ℕ
  pub cb : ℕ
  pub md5 : List ℕ

-- `<` of the keys (stp, cb, md5)
unfoldable pub entry_less : HashedChunkListEntry → HashedChunkListEntry → Bool
entry_less a b =
    ltb a.stp b.stp
    || (a.stp == b.stp && (ltb a.cb b.cb || (a.cb == b.cb && bytes_less a.md5 b.md5)))

unfoldable pub as_descriptor : Option KnownFileNodeType → Option HashedChunkDescriptor2Fnd
as_descriptor (some (hashed_chunk_descriptor2_fnd x)) = some x
as_descriptor _ = none

-- BinaryReader(data).view(stp, cb).read_bytes(cb)
unfoldable pub blob_at : List ℕ → ℕ → ℕ → M (List ℕ)
blob_at contents stp cb = do
  file ← binary_reader contents 0 none 0
  r ← with_reader file (view stp cb)
  with_reader r (read_bytes cb)

-- the end of a chunk lies behind the file, where the file's size is known
unfoldable pub is_outside : Option ℕ → ℕ → Bool
is_outside none end = false
is_outside (some file_size) end = ltb file_size end

module _ (md5 : List ℕ → List ℕ) where
  unfoldable pub check_hash : Bool → List ℕ → HashedChunkListEntry → ℕ → M (Unit {0})
  check_hash validate_md5 contents e offset =
      let compared = (do
        blob ← blob_at contents e.stp e.cb
        violation_if (not (bytes_eq (md5 blob) e.md5))
            "HashedChunkDescriptor2FND.guidHash does not match MD5(blob)" (some offset)) in
      if validate_md5 then compared else pure tt

  -- the entry of a descriptor
  unfoldable pub parse_entry :
      Bool → List ℕ → HashedChunkDescriptor2Fnd → ℕ → M HashedChunkListEntry
  parse_entry validate_md5 contents x offset = do
    c ← the_context
    let e : HashedChunkListEntry = record {
      stp = x.blob_ref.stp;
      cb = x.blob_ref.cb;
      md5 = x.guid_hash;
    }
    raise_if (is_outside c.file_size (e.stp + e.cb))
        (format_error "Hashed chunk BlobRef is out of file bounds" (some e.stp))
    check_hash validate_md5 contents e offset
    pure e

  -- for tn in lst.nodes
  unfoldable pub parse_entries : Bool → List ℕ → List TypedFileNode → M (List HashedChunkListEntry)
  parse_entries validate_md5 contents [] = pure []
  parse_entries validate_md5 contents (tn ∷ nodes) = do
    let offset = tn.node.header.offset
    c ← the_context
    raise_if (c.strict && not (tn.node.header.file_node_id == 0x0C2)) (
        format_error "Hashed chunk list MUST contain only HashedChunkDescriptor2FND (0x0C2)"
          (some offset))
    elim (as_descriptor tn.typed) [
      | none ↦ do
        raise_if c.strict
            (format_error "Hashed chunk list contains an unparsed or unknown node" (some offset))
        parse_entries validate_md5 contents nodes
      | some x ↦ do
        e ← parse_entry validate_md5 contents x offset
        entries ← parse_entries validate_md5 contents nodes
        pure (e ∷ entries)
    ]

  unfoldable pub parse_hashed_chunk_list_entries : ℕ → Bool → List ℕ → M (List HashedChunkListEntry)
  parse_hashed_chunk_list_entries fuel validate_md5 contents = do
    header ← on_bytes contents Header.parse
    let first = header.fcr_hashed_chunk_list
    let present = (do
      last_count_by_list_id ← on_bytes contents (parse_transaction_log fuel header)
      nodes ← nodes_at contents first last_count_by_list_id
      entries ← parse_entries validate_md5 contents nodes
      pure (sorted entry_less entries))
    if Fcr64x32.is_zero first || Fcr64x32.is_nil first then pure [] else present

-- the keys of `out`
unfoldable pub has_chunk : List HashedChunkListEntry → HashedChunkListEntry → Bool
has_chunk [] e = false
has_chunk (x ∷ out) e = (x.stp == e.stp && x.cb == e.cb) || has_chunk out e

-- for e in entries: the items of the index in their order, with those before them
unfoldable pub index_entries :
    List HashedChunkListEntry → List HashedChunkListEntry → M (List HashedChunkListEntry)
index_entries out [] = pure out
index_entries out (e ∷ entries) = do
  let twice = has_chunk out e
  violation_if twice "Hashed chunk list contains duplicate BlobRef entries" (some e.stp)
  index_entries (if twice then out else (out ++ (e ∷ []))) entries

unfoldable pub parse_hashed_chunk_list_index :
    (List ℕ → List ℕ) → ℕ → Bool → List ℕ → M (List HashedChunkListEntry)
parse_hashed_chunk_list_index md5 fuel validate_md5 contents = do
  entries ← parse_hashed_chunk_list_entries md5 fuel validate_md5 contents
  index_entries [] entries
