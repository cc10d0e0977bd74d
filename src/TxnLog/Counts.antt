-- ===== src/TxnLog/Counts.antt =====
-- What the entries of the transaction log commit, against a description by whole transactions.
use aspose_note_foss_for_pyt.Prelude.{
  ℕ, zero, suc, ◌+◌, ◌≤◌, ◌<◌, ◌≡◌, refl, sym, ◌∙◌, Bool, true, false, Bool-cases, Option, none,
  some, List, [], ◌∷◌, ◌++◌, leb, ◌==◌, arith, if◌then◌else◌, append_assoc, append-nil, inl, inr,
}
use aspose_note_foss_for_pyt.Context.{ParseWarning, warn_context}
use aspose_note_foss_for_pyt.Parser.{State, ok}
use aspose_note_foss_for_pyt.Dict
use aspose_note_foss_for_pyt.Dict.{Dict, or_else, get-put, get-update}
use aspose_note_foss_for_pyt.TxnLog.Fragment.{TransactionEntry, is_sentinel}
use aspose_note_foss_for_pyt.TxnLog.{
  Log, Progress, done, more, empty_log, commit, set_count, apply_entries,
}

-- `apply_entries` without its warnings
unfoldable pub run : ℕ → Log → List TransactionEntry → Progress
run txn_limit log [] = more log
run txn_limit log (entry ∷ entries) =
    let log' = commit txn_limit log in
    let next = run txn_limit log' entries in
    let ignored = run txn_limit log entries in
    let counted = run txn_limit (set_count txn_limit entry log) entries in
    if is_sentinel entry
    then (if leb txn_limit log'.committed_txns then done log'.last_count_by_list_id else next)
    else if entry.value == 0
    then ignored
    else counted

abbrev pub with_warnings : List ParseWarning → State → State
with_warnings ws s = record s { ctx = record s.ctx { warnings = s.ctx.warnings ++ ws } }

abbrev no_op_warning : TransactionEntry → ParseWarning
no_op_warning e = record {
  message = "TransactionEntrySwitch is 0 for non-sentinel entry; ignoring";
  offset = some e.offset;
}

-- The entries are applied without an error, and all that changes is the list of warnings.
pub apply_entries-run :
    (n : ℕ) (log : Log) (es : List TransactionEntry) (s : State)
    → (ws : List ParseWarning) × (apply_entries n log es s ≡ ok (run n log es) (with_warnings ws s))
unfolding apply_entries run warn_context
apply_entries-run n log [] s = ([], rw append-nil)
apply_entries-run n log (e ∷ es) s = elim (Bool-cases (is_sentinel e)) [
  | inl sentinel ↦ elim (Bool-cases (leb n (commit n log).committed_txns)) [
    | inl last ↦ ([], rw append-nil (ground arith))
    | inr not_last ↦
        let (ws, p) = apply_entries-run n (commit n log) es s in (ws, ground (arith, p))
  ]
  | inr entry ↦ elim (Bool-cases (e.value == 0)) [
    | inl no_op ↦
        let (ws, p) = apply_entries-run n log es (with_warnings (no_op_warning e ∷ []) s) in
        (
          no_op_warning e ∷ ws,
          ground (arith, p, append_assoc s.ctx.warnings (no_op_warning e ∷ []) ws),
        )
    | inr counted ↦
        let (ws, p) = apply_entries-run n (set_count n e log) es s in (ws, ground (arith, p))
  ]
]

-- The entries before the first sentinel, an entry whose srcID is 1, and those behind it; `none` if
-- there is no sentinel.
unfoldable pub split_transaction :
    List TransactionEntry → Option (List TransactionEntry × List TransactionEntry)
split_transaction [] = none
split_transaction (e ∷ es) =
    let rest = split_transaction es in
    if e.src_id == 1
    then some ([], es)
    else elim rest [ none ↦ none | some (t, after) ↦ some (e ∷ t, after) ]

-- The entries of the first `n` complete transactions.
unfoldable pub committed : ℕ → List TransactionEntry → List TransactionEntry
committed zero es = []
committed (suc n) es = elim (split_transaction es) [
  | none ↦ []
  | some (t, after) ↦ t ++ committed n after
]

-- The last count other than 0 that the entries set for a list.
unfoldable pub count_in : List TransactionEntry → ℕ → Option ℕ
count_in [] k = none
count_in (e ∷ es) k =
    or_else (count_in es k)
      (if e.value == 0 then none else if e.src_id == k then some e.value else none)

unfoldable pub has_sentinel : List TransactionEntry → Bool
has_sentinel es = elim (split_transaction es) [ none ↦ false | some p ↦ true ]

-- the dictionary that is returned if the log ends here
abbrev pub result : Progress → Dict ℕ
result (done d) = d
result (more log) = log.last_count_by_list_id

-- what the list `k` counts before these entries, once its pending update is in
abbrev settled : Log → Bool → ℕ → Option ℕ
settled log b k =
    if b
    then or_else (Dict.get log.pending_updates k) (Dict.get log.last_count_by_list_id k)
    else Dict.get log.last_count_by_list_id k

or_else_assoc : (a b c : Option ℕ) → or_else (or_else a b) c ≡ or_else a (or_else b c)
or_else_assoc none b c = refl
or_else_assoc (some x) b c = refl

-- A sentinel closes the open transaction; another entry joins it.
committed-sentinel :
    (n : ℕ) (e : TransactionEntry) (es : List TransactionEntry)
    → is_sentinel e ≡ true
    → (committed (suc n) (e ∷ es) ≡ committed n es) × (has_sentinel (e ∷ es) ≡ true)
unfolding committed split_transaction has_sentinel is_sentinel
committed-sentinel n e es h = (ground arith, ground arith)

committed-entry :
    (n : ℕ) (e : TransactionEntry) (es : List TransactionEntry)
    → is_sentinel e ≡ false
    → (committed (suc n) (e ∷ es) ≡ (if has_sentinel es then e ∷ committed (suc n) es else []))
      × (has_sentinel (e ∷ es) ≡ has_sentinel es)
      × (has_sentinel es ≡ false → committed (suc n) es ≡ [])
unfolding committed split_transaction has_sentinel is_sentinel
committed-entry n e es h = (ground arith, ground arith, λ p. ground arith)

-- The claim of `run-Counts`, for a log that `n + 1` more transactions fill.
abbrev Counts : ℕ → ℕ → Log → List TransactionEntry → ℕ → Type 0
Counts n limit log es k =
    Dict.get (result (run limit log es)) k
    ≡ or_else (count_in (committed (suc n) es) k) (settled log (has_sentinel es) k)

get-nil : (k : ℕ) → Dict.get {V = ℕ} [] k ≡ none
unfolding Dict.get
get-nil k = refl

module _ (n limit : ℕ) (log : Log) (e : TransactionEntry) (es : List TransactionEntry) (k : ℕ) where
  update_lem :
      Dict.get (Dict.update log.last_count_by_list_id log.pending_updates) k
      ≡ or_else (Dict.get log.pending_updates k) (Dict.get log.last_count_by_list_id k)
  update_lem = get-update log.last_count_by_list_id log.pending_updates k

  sentinel_last :
      is_sentinel e ≡ true → log.committed_txns + 1 ≡ limit → Counts zero limit log (e ∷ es) k
  unfolding run commit committed count_in
  sentinel_last h full = ground (arith, committed-sentinel zero e es h, update_lem)

  sentinel_more :
      is_sentinel e ≡ true
      → log.committed_txns + suc (suc n) ≡ limit
      → Counts n limit (commit limit log) es k
      → Counts (suc n) limit log (e ∷ es) k
  unfolding run commit
  sentinel_more h room ih =
      ground (arith, committed-sentinel (suc n) e es h, update_lem, get-nil k, ih)

  entry_more :
      is_sentinel e ≡ false
      → log.committed_txns + suc n ≡ limit
      → Counts n limit log es k
      → Counts n limit (set_count limit e log) es k
      → Counts n limit log (e ∷ es) k
  unfolding run set_count count_in
  entry_more h room ih ih' =
      let (p, q, r) = committed-entry n e es h in
      elim (Bool-cases (has_sentinel es)) [
        | inl has ↦
            ground (arith, p, q, has, ih, ih', get-put e.src_id e.value log.pending_updates k)
        | inr hasnt ↦ ground (arith, p, q, r hasnt, hasnt, ih, ih')
      ]

room-set_count :
    (n limit : ℕ) (log : Log) (e : TransactionEntry)
    → log.committed_txns + suc n ≡ limit
    → (set_count limit e log).committed_txns + suc n ≡ limit
unfolding set_count
room-set_count n limit log e h = ground arith

room-commit :
    (n limit : ℕ) (log : Log)
    → log.committed_txns + suc (suc n) ≡ limit
    → (commit limit log).committed_txns + suc n ≡ limit
unfolding commit
room-commit n limit log h = omega arith

run-Counts :
    (n limit : ℕ) (log : Log) (es : List TransactionEntry) (k : ℕ)
    → log.committed_txns + suc n ≡ limit
    → Counts n limit log es k
unfolding run count_in has_sentinel committed split_transaction
run-Counts n limit log [] k h = refl
run-Counts zero limit log (e ∷ es) k h = elim (Bool-cases (is_sentinel e)) [
  | inl s ↦ sentinel_last zero limit log e es k s (omega arith)
  | inr t ↦
      entry_more zero limit log e es k t h (run-Counts zero limit log es k h)
        (run-Counts zero limit (set_count limit e log) es k (room-set_count zero limit log e h))
]
run-Counts (suc n) limit log (e ∷ es) k h = elim (Bool-cases (is_sentinel e)) [
  | inl s ↦
      sentinel_more n limit log e es k s h
        (run-Counts n limit (commit limit log) es k (room-commit n limit log h))
  | inr t ↦
      entry_more (suc n) limit log e es k t h (run-Counts (suc n) limit log es k h) (
        run-Counts (suc n) limit (set_count limit e log) es k
          (room-set_count (suc n) limit log e h))
]

-- The entries of a log, applied from the start, set for every list the count that the first
-- `limit` complete transactions set last, and no count if they set none.
pub run-committed :
    (limit : ℕ) (es : List TransactionEntry) (k : ℕ)
    → 0 < limit
    → Dict.get (result (run limit empty_log es)) k ≡ count_in (committed limit es) k
run-committed zero es k h = absurd (omega arith)
run-committed (suc n) es k h =
    run-Counts n (suc n) empty_log es k (omega arith) ∙ unfold Dict.get in ground arith

-- what comes of a progress when more entries follow
abbrev pub resume : ℕ → Progress → List TransactionEntry → Progress
resume n (done d) fs = done d
resume n (more log) fs = run n log fs

pub run-append :
    (n : ℕ) (log : Log) (es fs : List TransactionEntry)
    → run n log (es ++ fs) ≡ resume n (run n log es) fs
unfolding run
run-append n log [] fs = refl
run-append n log (e ∷ es) fs = ground (
  arith,
  run-append n (commit n log) es fs,
  run-append n log es fs,
  run-append n (set_count n e log) es fs,
)

-- How many transactions a log holds after entries that do not fill it: without a sentinel as many as
-- before, with one more than before.
pub committed_txns-run :
    (n : ℕ) (log log' : Log) (es : List TransactionEntry)
    → run n log es ≡ more log'
    → (has_sentinel es ≡ false → log'.committed_txns ≡ log.committed_txns)
      × (has_sentinel es ≡ true → log.committed_txns < log'.committed_txns)
      × (log.committed_txns ≤ log'.committed_txns)
unfolding run commit set_count
committed_txns-run n log log' [] e =
    (λ h. ground arith, λ h. unfold has_sentinel split_transaction in cc, ground arith)
committed_txns-run n log log' (x ∷ es) e = elim (Bool-cases (is_sentinel x)) [
  | inl s ↦
      let (_, has) = committed-sentinel 0 x es s in
      let (_, _, le) = committed_txns-run n (commit n log) log' es (ground arith) in
      (λ h. cc, λ h. omega arith, omega arith)
  | inr t ↦
      let (_, same, _) = committed-entry 0 x es t in
      elim (Bool-cases (x.value == 0)) [
        | inl z ↦
            let (p, q, le) = committed_txns-run n log log' es (ground arith) in
            (λ h. p (sym same ∙ h), λ h. q (sym same ∙ h), le)
        | inr y ↦
            let (p, q, le) = committed_txns-run n (set_count n x log) log' es (ground arith) in
            let kept : (set_count n x log).committed_txns ≡ log.committed_txns = ground arith in
            (λ h. p (sym same ∙ h) ∙ kept, λ h. rw (← kept) (q (sym same ∙ h)), rw (← kept) le)
      ]
]

pub run-no_sentinel :
    (n : ℕ) (log : Log) (es : List TransactionEntry)
    → has_sentinel es ≡ false
    → (log' : Log) × (run n log es ≡ more log')
unfolding run
run-no_sentinel n log [] h = (log, refl)
run-no_sentinel n log (x ∷ es) h = elim (Bool-cases (is_sentinel x)) [
  | inl s ↦ let (_, has) = committed-sentinel 0 x es s in cc
  | inr t ↦
      let (_, same, _) = committed-entry 0 x es t in
      elim (Bool-cases (x.value == 0)) [
        | inl z ↦ let (log', p) = run-no_sentinel n log es (sym same ∙ h) in (log', ground arith)
        | inr y ↦
            let (log', p) = run-no_sentinel n (set_count n x log) es (sym same ∙ h) in
            (log', ground arith)
      ]
]
