-- ===== src/Runs.antt =====
-- The theorems at concrete inputs: small files of the format, byte by byte.
pub mod Reader
pub mod Objects
pub mod Spaces
pub mod Files
pub mod Roles
use aspose_note_foss_for_pyt.Prelude.{
  ℕ, ◌≡◌, ◌≢◌, ◌<◌, ◌≤◌, ◌+◌, ◌-◌, ◌*◌, ◌^◌, ◌%◌, ◌/◌, ◌⊎◌, ◌↔◌, refl, true, false, none, some,
  List, [], ◌∷◌, ◌++◌, All, arith, length, inl, inr, take, drop,
}
use aspose_note_foss_for_pyt.Context.{ParseWarning, ParseContext, format_error, warn_context}
use aspose_note_foss_for_pyt.Dict
use aspose_note_foss_for_pyt.TxnLog
use aspose_note_foss_for_pyt.Read.{
  file_start, known_size, view, binary_reader, read_u32, read_u64, read_struct, skip, remaining,
  require, tell, tell_relative,
}
use aspose_note_foss_for_pyt.TxnLog.{apply_entries, proceed, commit, set_count}
use aspose_note_foss_for_pyt.Io.{IsByte, BinaryReader, unpack_bits, little_endian}
use aspose_note_foss_for_pyt.Parser.{State, ok, err, stuck}
use aspose_note_foss_for_pyt.Read.Views.{whole, whole-IsValid}
use aspose_note_foss_for_pyt.Read.Cursor.{IsValid}
use aspose_note_foss_for_pyt.ChunkRefs.Fcr64x32.{FileChunkReference64x32}
use aspose_note_foss_for_pyt.TxnLog.{
  Progress, Log, empty_log, follow, ends_chain, parse_transaction_log,
}
use aspose_note_foss_for_pyt.TxnLog.Fragment.{
  TransactionEntry, HoldsFragment, fragment_at, entries_at, entry_of, is_sentinel,
  TransactionLogFragment,
}
use aspose_note_foss_for_pyt.TxnLog.Transactions.{Ran, transactions, apply_entries-committed}
use aspose_note_foss_for_pyt.TxnLog.Counts.{
  has_sentinel, split_transaction, run, result, count_in, committed, run-committed, with_warnings,
}
use aspose_note_foss_for_pyt.ChunkRefs.Fcr64x32
use aspose_note_foss_for_pyt.TxnLog.Chain.{Chain, all_entries, parse_transaction_log-committed}
use aspose_note_foss_for_pyt.TxnLog.Ends.{Reaches, here, onward, follow_terminates}
use aspose_note_foss_for_pyt.Header.{Header}
use aspose_note_foss_for_pyt.Header.Layout.{layout}
use aspose_note_foss_for_pyt.Read.Start.{with_size, size_in}
use aspose_note_foss_for_pyt.TxnLog.Chain.{IsFile, follow-self_loop}

abbrev strict_context : ParseContext
strict_context = record { strict = true; warnings = []; file_size = none }

abbrev file : List ℕ → State
file d = record { reader = whole d; ctx = strict_context }

-- a log of one entry, with itself as the next fragment
abbrev looping_log : List ℕ
looping_log = 5 ∷ 0 ∷ 0 ∷ 0 ∷ 2 ∷ 0 ∷ 0 ∷ 0 ∷ 0 ∷ 0 ∷ 0 ∷ 0 ∷ 0 ∷ 0 ∷ 0 ∷ 0 ∷ 20 ∷ 0 ∷ 0 ∷ 0 ∷ []

abbrev loop_reference : FileChunkReference64x32
loop_reference = record { stp = 0; cb = 20 }

looping_log-IsByte : All IsByte looping_log
looping_log-IsByte = ground arith

looping_log-IsFile : IsFile (file looping_log)
looping_log-IsFile = record {
  valid = whole-IsValid looping_log looping_log-IsByte;
  from_start = refl;
}

looping_log-HoldsFragment : HoldsFragment loop_reference (file looping_log)
unfolding Fcr64x32.fits_file Fcr64x32.is_nil Fcr64x32.is_zero
looping_log-HoldsFragment = record { fits = refl; big = omega arith; inside = omega arith }

follow-self_loop_example : follow 100 3 20 loop_reference empty_log (file looping_log) ≡ stuck
unfolding Fcr64x32.fits_file Fcr64x32.is_nil Fcr64x32.is_zero fragment_at entries_at entry_of
    has_sentinel split_transaction is_sentinel ends_chain Fcr64x32.of_bytes take drop little_endian
follow-self_loop_example =
    follow-self_loop 100 3 20 loop_reference empty_log (file looping_log) looping_log-IsFile
      looping_log-HoldsFragment refl refl refl refl (omega arith)

-- a log of one transaction, which commits two nodes of the list 5
abbrev one_transaction : List ℕ
one_transaction =
    5 ∷ 0 ∷ 0 ∷ 0 ∷ 2 ∷ 0 ∷ 0 ∷ 0 ∷ 1 ∷ 0 ∷ 0 ∷ 0 ∷ 7 ∷ 0 ∷ 0 ∷ 0 ∷ 0 ∷ 0 ∷ 0 ∷ 0 ∷ 0 ∷ 0 ∷ 0 ∷ 0
    ∷ 0 ∷ 0 ∷ 0 ∷ 0 ∷ []

abbrev log_reference : FileChunkReference64x32
log_reference = record { stp = 0; cb = 28 }

one_transaction-IsByte : All IsByte one_transaction
one_transaction-IsByte = ground arith

one_transaction-IsFile : IsFile (file one_transaction)
one_transaction-IsFile = record {
  valid = whole-IsValid one_transaction one_transaction-IsByte;
  from_start = refl;
}

busy :
    (q : FileChunkReference64x32)
    → Reaches (file one_transaction) q log_reference
    → HoldsFragment q (file one_transaction)
    → has_sentinel (fragment_at q one_transaction).entries ≡ true
unfolding fragment_at entries_at entry_of has_sentinel split_transaction is_sentinel ends_chain
    Fcr64x32.of_bytes Fcr64x32.is_nil Fcr64x32.is_zero take drop little_endian
busy q here h = refl
busy q (onward k e p) h = cc

follow_terminates_example : follow 1 1 28 log_reference empty_log (file one_transaction) ≢ stuck
follow_terminates_example =
    follow_terminates 1 1 28 log_reference empty_log (file one_transaction) one_transaction-IsFile
      busy (omega arith) (omega arith)

-- a log of two fragments with one transaction each, which both set the count of the list 5
abbrev two_fragments : List ℕ
two_fragments =
    5 ∷ 0 ∷ 0 ∷ 0 ∷ 2 ∷ 0 ∷ 0 ∷ 0 ∷ 1 ∷ 0 ∷ 0 ∷ 0 ∷ 7 ∷ 0 ∷ 0 ∷ 0 ∷ 28 ∷ 0 ∷ 0 ∷ 0 ∷ 0 ∷ 0 ∷ 0 ∷ 0
    ∷ 28 ∷ 0 ∷ 0 ∷ 0 ∷ 5 ∷ 0 ∷ 0 ∷ 0 ∷ 3 ∷ 0 ∷ 0 ∷ 0 ∷ 1 ∷ 0 ∷ 0 ∷ 0 ∷ 7 ∷ 0 ∷ 0 ∷ 0 ∷ 0 ∷ 0 ∷ 0 ∷ 0
    ∷ 0 ∷ 0 ∷ 0 ∷ 0 ∷ 0 ∷ 0 ∷ 0 ∷ 0 ∷ []

two_fragments-IsByte : All IsByte two_fragments
two_fragments-IsByte = ground arith

two_fragments-IsFile : IsFile (file two_fragments)
two_fragments-IsFile = record {
  valid = whole-IsValid two_fragments two_fragments-IsByte;
  from_start = refl;
}

abbrev log_header : Header
log_header = record (layout []) { c_transactions_in_log = 2; fcr_transaction_log = log_reference }

runs :
    parse_transaction_log 2 log_header (file two_fragments)
    ≡ ok ((5, 3) ∷ (5, 2) ∷ []) (with_size (file two_fragments))
unfolding parse_transaction_log file_start known_size Fcr64x32.validate_in_file Fcr64x32.is_nil
    Fcr64x32.is_zero Fcr64x32.parse follow TxnLog.Fragment.parse TxnLog.Fragment.parse_table
    TxnLog.Fragment.read_entries TxnLog.Fragment.read_entry view binary_reader read_u32 read_u64
    read_struct skip remaining require tell tell_relative apply_entries proceed commit set_count
    is_sentinel ends_chain Dict.update Dict.put take drop little_endian warn_context
runs = refl

parse_transaction_log_example :
    (fs : List TransactionLogFragment) × Chain two_fragments 2 log_reference fs
    × ((k : ℕ) → Dict.get ((5, 3) ∷ (5, 2) ∷ []) k ≡ count_in (committed 2 (all_entries fs)) k)
parse_transaction_log_example =
    parse_transaction_log-committed 2 log_header (file two_fragments)
      (with_size (file two_fragments)) ((5, 3) ∷ (5, 2) ∷ []) two_fragments-IsFile runs

abbrev log_entries : List TransactionEntry
log_entries =
    record { src_id = 5; value = 2; offset = 0 }
    ∷ record { src_id = 6; value = 0; offset = 8 }
    ∷ record { src_id = 1; value = 7; offset = 16 }
    ∷ []

apply_entries-committed_example :
    (p : Progress) × (ws : List ParseWarning) × (apply_entries 1 empty_log log_entries (file [])
      ≡ ok p (with_warnings ws (file [])))
    × Ran 1 empty_log (transactions log_entries) p
    × ((k : ℕ) → Dict.get (result p) k ≡ count_in (committed 1 log_entries) k)
apply_entries-committed_example = apply_entries-committed 1 log_entries (file []) (omega arith)
