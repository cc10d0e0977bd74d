-- ===== src/TxnLog.antt =====
-- onestore/txn_log.py: the transaction log, a chain of fragments whose entries say how many nodes
-- of each file node list are committed.
pub mod Fragment
pub mod Counts
pub mod Transactions
pub mod Chain
pub mod Ends
use aspose_note_foss_for_pyt.Prelude.{
  ℕ, zero, suc, ◌+◌, Bool, true, false, ◌||◌, List, [], ◌∷◌, some, ltb, leb, ◌==◌, if◌then◌else◌,
}
use aspose_note_foss_for_pyt.Context.{format_error}
use aspose_note_foss_for_pyt.Parser.{M, out_of_fuel, pure, raise_if, warn, ◌>>=◌, ◌>>◌}
use aspose_note_foss_for_pyt.Read.{file_start}
use aspose_note_foss_for_pyt.Dict
use aspose_note_foss_for_pyt.Dict.{Dict}
use aspose_note_foss_for_pyt.ChunkRefs.Fcr64x32
use aspose_note_foss_for_pyt.ChunkRefs.Fcr64x32.{FileChunkReference64x32}
use aspose_note_foss_for_pyt.Header.{Header}
use aspose_note_foss_for_pyt.TxnLog.Fragment.{TransactionEntry, TransactionLogFragment, is_sentinel}

-- the variables of the loop
pub record Log : Type 0 where
  pub committed_txns : ℕ
  pub last_count_by_list_id : Dict ℕ
  pub pending_updates : Dict ℕ

-- after the entries of a fragment: `return`, or on to the next fragment
pub data Progress : Type 0 where
  done : Dict ℕ → Progress
  more : Log → Progress

-- the entry that ends a transaction
unfoldable pub commit : ℕ → Log → Log
commit txn_limit log = record {
  committed_txns = log.committed_txns + 1;
  last_count_by_list_id =
      if ltb log.committed_txns txn_limit
      then Dict.update log.last_count_by_list_id log.pending_updates
      else log.last_count_by_list_id;
  pending_updates = [];
}

-- an entry that sets the count of a list
unfoldable pub set_count : ℕ → TransactionEntry → Log → Log
set_count txn_limit entry log =
    if ltb log.committed_txns txn_limit
    then record log { pending_updates = Dict.put entry.src_id entry.value log.pending_updates }
    else log

-- for entry in frag.entries
unfoldable pub apply_entries : ℕ → Log → List TransactionEntry → M Progress
unfolding commit set_count is_sentinel
apply_entries txn_limit log [] = pure (more log)
apply_entries txn_limit log (entry ∷ entries) =
    let log' = commit txn_limit log in
    let next = apply_entries txn_limit log' entries in
    let ignored = apply_entries txn_limit log entries in
    let counted = apply_entries txn_limit (set_count txn_limit entry log) entries in
    if is_sentinel entry
    then (if leb txn_limit log'.committed_txns
        then pure (done log'.last_count_by_list_id)
        else next)
    else if entry.value == 0
    then (do
      warn "TransactionEntrySwitch is 0 for non-sentinel entry; ignoring" (some entry.offset)
      ignored)
    else counted

-- the chain ends at a reference that is zero, nil or empty
unfoldable pub ends_chain : FileChunkReference64x32 → Bool
ends_chain next = Fcr64x32.is_zero next || Fcr64x32.is_nil next || next.cb == 0

-- what follows the entries of a fragment; `rest` goes on with the loop
unfoldable pub proceed :
    (FileChunkReference64x32 → Log → M (Dict ℕ))
    → ℕ
    → ℕ
    → TransactionLogFragment
    → Progress
    → M (Dict ℕ)
proceed rest txn_limit file_size frag (done counts) = pure counts
proceed rest txn_limit file_size frag (more log) =
    let next = (do
      Fcr64x32.validate_in_file frag.next_fragment file_size
      rest frag.next_fragment log) in
    if leb txn_limit log.committed_txns || ends_chain frag.next_fragment
    then pure log.last_count_by_list_id
    else next

-- `while True`, with fuel
unfoldable pub follow : ℕ → ℕ → ℕ → FileChunkReference64x32 → Log → M (Dict ℕ)
follow zero txn_limit file_size current log = out_of_fuel
follow (suc fuel) txn_limit file_size current log = do
  frag ← Fragment.parse current
  progress ← apply_entries txn_limit log frag.entries
  proceed (follow fuel txn_limit file_size) txn_limit file_size frag progress

abbrev pub empty_log : Log
empty_log = record { committed_txns = 0; last_count_by_list_id = []; pending_updates = [] }

unfoldable pub parse_transaction_log : ℕ → Header → M (Dict ℕ)
parse_transaction_log fuel header = do
  raise_if (header.c_transactions_in_log == 0)
      (format_error "cTransactionsInLog MUST NOT be 0" (some 96))
  file_size ← file_start "TransactionLog must be parsed from file start"
  Fcr64x32.validate_in_file header.fcr_transaction_log file_size
  follow fuel header.c_transactions_in_log file_size header.fcr_transaction_log empty_log
