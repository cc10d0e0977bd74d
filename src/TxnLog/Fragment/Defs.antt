-- ===== src/TxnLog/Fragment/Defs.antt =====
-- TransactionEntry and TransactionLogFragment of onestore/txn_log.py.
use aspose_note_foss_for_pyt.Prelude.{
  ℕ, zero, suc, ◌-◌, ◌%◌, Bool, not, List, [], ◌∷◌, some, ltb, ◌==◌, if◌then◌else◌,
}
use aspose_note_foss_for_pyt.Context.{format_error}
use aspose_note_foss_for_pyt.Parser.{M, out_of_fuel, pure, raise_if, with_reader, ◌>>=◌, ◌>>◌}
use aspose_note_foss_for_pyt.Read.{tell, tell_relative, remaining, skip, view, read_u32, file_start}
use aspose_note_foss_for_pyt.ChunkRefs.Fcr64x32
use aspose_note_foss_for_pyt.ChunkRefs.Fcr64x32.{FileChunkReference64x32}

pub record TransactionEntry : Type 0 where
  pub src_id : ℕ
  pub value : ℕ
  pub offset : ℕ

unfoldable pub is_sentinel : TransactionEntry → Bool
is_sentinel e = e.src_id == 1

pub record TransactionLogFragment : Type 0 where
  pub fcr : FileChunkReference64x32
  pub entries : List TransactionEntry
  pub next_fragment : FileChunkReference64x32

-- one round of the loop
unfoldable pub read_entry : M TransactionEntry
unfolding tell
read_entry = do
  entry_off ← tell
  src_id ← read_u32
  value ← read_u32
  pure (record { src_id = src_id; value = value; offset = entry_off })

-- `while r.tell_relative() < size_table_size`, with fuel
unfoldable pub read_entries : ℕ → ℕ → M (List TransactionEntry)
unfolding tell_relative
read_entries zero size_table_size = out_of_fuel
read_entries (suc fuel) size_table_size = do
  at ← tell_relative
  let more = (do
    entry ← read_entry
    entries ← read_entries fuel size_table_size
    pure (entry ∷ entries))
  if ltb at size_table_size then more else pure []

-- what is read of the chunk itself
unfoldable pub parse_table : FileChunkReference64x32 → ℕ → ℕ → M TransactionLogFragment
unfolding tell_relative tell remaining
parse_table fcr size_table_size padding = do
  entries ← read_entries (suc size_table_size) size_table_size
  at ← tell_relative
  here ← tell
  raise_if (not (at == size_table_size))
      (format_error "TransactionLogFragment sizeTable parse mismatch" (some here))
  next_fragment ← Fcr64x32.parse
  left ← remaining
  there ← tell
  raise_if (not (left == padding))
      (format_error "TransactionLogFragment padding size mismatch" (some there))
  skip padding
  pure (record { fcr = fcr; entries = entries; next_fragment = next_fragment })

unfoldable pub parse : FileChunkReference64x32 → M TransactionLogFragment
parse fcr = do
  file_size ← file_start "TransactionLogFragment must be parsed from file start"
  Fcr64x32.validate_in_file fcr file_size
  raise_if (ltb fcr.cb 12) (format_error "TransactionLogFragment too small" (some fcr.stp))
  let padding = (fcr.cb - 12) % 8
  let size_table_size = fcr.cb - 12 - padding
  raise_if (not (size_table_size % 8 == 0)) (
      format_error
        "TransactionLogFragment sizeTable length is not a multiple of TransactionEntry size"
        (some fcr.stp))
  r ← view fcr.stp fcr.cb
  with_reader r (parse_table fcr size_table_size padding)
