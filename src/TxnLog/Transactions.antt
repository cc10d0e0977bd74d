-- ===== src/TxnLog/Transactions.antt =====
-- How many transactions the entries of the log complete, and when they fill it.
use aspose_note_foss_for_pyt.Prelude.{
  ℕ, ◌+◌, ◌≤◌, ◌<◌, ◌≡◌, List, [], ◌∷◌, leb, ◌==◌, arith, if◌then◌else◌, Bool-cases, inl, inr,
}
use aspose_note_foss_for_pyt.Context.{ParseWarning}
use aspose_note_foss_for_pyt.Parser.{State, ok}
use aspose_note_foss_for_pyt.Dict
use aspose_note_foss_for_pyt.Dict.{Dict}
use aspose_note_foss_for_pyt.TxnLog.Fragment.{TransactionEntry, is_sentinel}
use aspose_note_foss_for_pyt.TxnLog.{
  Log, Progress, done, more, empty_log, commit, set_count, apply_entries,
}
use aspose_note_foss_for_pyt.TxnLog.Counts.{
  run, result, with_warnings, apply_entries-run, count_in, committed, run-committed,
}

-- how many transactions the entries complete: the number of sentinels, whose srcID is 1
unfoldable pub transactions : List TransactionEntry → ℕ
transactions [] = 0
transactions (e ∷ es) = let n = transactions es in if e.src_id == 1 then n + 1 else n

-- What a log is after entries, by the transactions that they complete.
unfoldable pub Ran : ℕ → Log → ℕ → Progress → Type 0
Ran n log k (done d) = n ≤ log.committed_txns + k
Ran n log k (more log') =
    (log'.committed_txns ≡ log.committed_txns + k) × (log.committed_txns + k < n)

Ran-sentinel :
    (n : ℕ) (log : Log) (k : ℕ) (p : Progress) → Ran n (commit n log) k p → Ran n log (k + 1) p
unfolding Ran commit
Ran-sentinel n log k (done d) h = omega arith
Ran-sentinel n log k (more log') h = (omega arith, omega arith)

Ran-set_count :
    (n : ℕ) (log : Log) (e : TransactionEntry) (k : ℕ) (p : Progress)
    → Ran n (set_count n e log) k p
    → Ran n log k p
unfolding Ran set_count
Ran-set_count n log e k (done d) h = ground arith
Ran-set_count n log e k (more log') h = ground arith

pub run-Ran :
    (n : ℕ) (log : Log) (es : List TransactionEntry)
    → log.committed_txns < n
    → Ran n log (transactions es) (run n log es)
unfolding run transactions is_sentinel
run-Ran n log [] h = unfold Ran in (omega arith, omega arith)
run-Ran n log (e ∷ es) h = elim (Bool-cases (e.src_id == 1)) [
  | inl s ↦ elim (Bool-cases (leb n (commit n log).committed_txns)) [
    | inl last ↦ rw (s, last) (unfold Ran commit in ground arith)
    | inr not_last ↦
        let room : (commit n log).committed_txns < n = ground arith in
        rw (s, not_last) (Ran-sentinel n log (transactions es) _ (run-Ran n (commit n log) es room))
  ]
  | inr t ↦ elim (Bool-cases (e.value == 0)) [
    | inl z ↦ rw (t, z) (run-Ran n log es h)
    | inr y ↦
        let room : (set_count n e log).committed_txns < n = unfold set_count in ground arith in
        rw (t, y)
          (Ran-set_count n log e (transactions es) _ (run-Ran n (set_count n e log) es room))
  ]
]

-- The entries of a fragment, applied to an empty log of which at least one transaction is wanted,
-- never raise; only warnings are added. The log is full exactly when they complete as many
-- transactions as are wanted, and otherwise it counts those that they complete; and for every list it
-- holds the count that the wanted ones of these transactions set last, and none if they set none.
pub apply_entries-committed :
    (limit : ℕ) (es : List TransactionEntry) (s : State)
    → 0 < limit
    → (p : Progress) × (ws : List ParseWarning) × (apply_entries limit empty_log es s
        ≡ ok p (with_warnings ws s))
      × Ran limit empty_log (transactions es) p
      × ((k : ℕ) → Dict.get (result p) k ≡ count_in (committed limit es) k)
apply_entries-committed limit es s h =
    let (ws, e) = apply_entries-run limit empty_log es s in
    (run limit empty_log es, ws, e, run-Ran limit empty_log es h, λ k. run-committed limit es k h)
