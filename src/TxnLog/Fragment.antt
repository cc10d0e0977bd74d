-- ===== src/TxnLog/Fragment.antt =====
-- TransactionEntry and TransactionLogFragment of onestore/txn_log.py.
mod Defs
mod Entries
pub use Defs.*
unfoldable pub use Defs.{is_sentinel, read_entries, parse_table, parse}
pub use Entries.*
unfoldable pub use Defs.{read_entry}
unfoldable pub use Entries.{fragment_at, entries_at, entry_of}
