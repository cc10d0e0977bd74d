-- ===== src/TxnLog/Chain.antt =====
-- The chain of fragments that `parse_transaction_log` follows.
use aspose_note_foss_for_pyt.Prelude.{
  ℕ, zero, suc, ◌<◌, ◌≤◌, ◌+◌, ◌-◌, ◌≡◌, refl, sym, ◌∙◌, true, false, List, [], ◌∷◌, ◌++◌, arith,
  append-nil, ◌⊎◌, inl, inr,
}
use native.Mathlib.Decide.{dec_lt}
use aspose_note_foss_for_pyt.Parser.{State, M, ok, stuck, ◌>>=◌}
use aspose_note_foss_for_pyt.Parser.Rules.{continue-ok}
use aspose_note_foss_for_pyt.Read.Cursor.{IsValid}
use aspose_note_foss_for_pyt.Read.Start.{size_in, with_size, file_start_lem}
use aspose_note_foss_for_pyt.Dict
use aspose_note_foss_for_pyt.Dict.{Dict}
use aspose_note_foss_for_pyt.ChunkRefs.Fcr64x32
use aspose_note_foss_for_pyt.ChunkRefs.Fcr64x32.{FileChunkReference64x32}
use aspose_note_foss_for_pyt.TxnLog.Fragment
use aspose_note_foss_for_pyt.TxnLog.Fragment.{
  TransactionEntry, TransactionLogFragment, fragment_at, HoldsFragment, fragment_parse_iff,
  parse_of, parse_cases,
}
use aspose_note_foss_for_pyt.TxnLog.{
  Log, Progress, done, more, empty_log, ends_chain, apply_entries, proceed, follow,
  parse_transaction_log,
}
use aspose_note_foss_for_pyt.Header.{Header}
use aspose_note_foss_for_pyt.TxnLog.Transactions.{transactions, Ran, run-Ran}
use aspose_note_foss_for_pyt.TxnLog.Counts.{
  run, result, with_warnings, apply_entries-run, run-append, has_sentinel, run-no_sentinel,
  committed_txns-run, committed, count_in, run-committed,
}

-- The fragments `fs` of a file stand in a chain from the reference `r` on, as far as it is to be read
-- when `wanted` transactions are wanted: up to the first fragment that completes the last of them, or
-- up to the end of the chain, a next reference of no bytes.
pub data Chain (buffer : List ℕ)
    : ℕ → FileChunkReference64x32 → List TransactionLogFragment → Type 0 where
  full :
      (wanted : ℕ) (r : FileChunkReference64x32)
      → wanted ≤ transactions (fragment_at r buffer).entries
      → Chain buffer wanted r (fragment_at r buffer ∷ [])
  ended :
      (wanted : ℕ) (r : FileChunkReference64x32)
      → transactions (fragment_at r buffer).entries < wanted
      → (fragment_at r buffer).next_fragment.cb ≡ 0
      → Chain buffer wanted r (fragment_at r buffer ∷ [])
  next :
      (wanted : ℕ) (r : FileChunkReference64x32) {fs : List TransactionLogFragment}
      → transactions (fragment_at r buffer).entries < wanted
      → 0 < (fragment_at r buffer).next_fragment.cb
      → Chain buffer
          (wanted - transactions (fragment_at r buffer).entries)
          (fragment_at r buffer).next_fragment
          fs
      → Chain buffer wanted r (fragment_at r buffer ∷ fs)

unfoldable pub all_entries : List TransactionLogFragment → List TransactionEntry
all_entries [] = []
all_entries (f ∷ fs) = f.entries ++ all_entries fs

-- a state that stands at the start of a valid file
pub record IsFile (s : State) : Type 0 where
  pub valid : IsValid s.reader
  pub from_start : s.reader.bounds.start ≡ 0

proceed_cases :
    (rest : FileChunkReference64x32 → Log → M (Dict ℕ)) (limit size : ℕ)
    (frag : TransactionLogFragment) (log : Log) (s t : State) (d : Dict ℕ)
    → log.committed_txns < limit
    → proceed rest limit size frag (more log) s ≡ ok d t
    → ((d ≡ log.last_count_by_list_id) × (frag.next_fragment.cb ≡ 0))
      ⊎ ((0 < frag.next_fragment.cb) × (rest frag.next_fragment log s ≡ ok d t))
unfolding proceed ends_chain Fcr64x32.is_zero Fcr64x32.is_nil
proceed_cases rest limit size frag log s t d room e = elim (dec_lt 0 frag.next_fragment.cb) [
  | no empty ↦ let none_ : frag.next_fragment.cb ≡ 0 = omega arith in inl (ground arith, none_)
  | yes bytes ↦ inr (bytes, ground (arith, Fcr64x32.validate_in_file_lem frag.next_fragment size s))
]

module _ (limit size : ℕ) (r : FileChunkReference64x32) (log : Log) (s : State) (f : IsFile s) where
  abbrev pub fragment : TransactionLogFragment
  fragment = fragment_at r s.reader.buffer

  -- One round of the loop.
  pub follow_step :
      (fuel : ℕ)
      → HoldsFragment r s
      → (ws : _) × (follow (suc fuel) limit size r log s
          ≡ proceed
              (follow fuel limit size)
              limit
              size
              fragment
              (run limit log fragment.entries)
              (with_warnings ws (with_size s)))
  unfolding follow
  follow_step fuel h =
      let (ws, a) = apply_entries-run limit log fragment.entries (with_size s) in
      (ws, rw (parse_of r s f.valid f.from_start h, a))

  follow_holds :
      (fuel : ℕ) (d : Dict ℕ) (t : State)
      → follow (suc fuel) limit size r log s ≡ ok d t
      → HoldsFragment r s
  unfolding follow
  follow_holds fuel d t e =
      let (frag, u, p, _) =
        continue-ok (Fragment.parse r s)
          (λ frag.
            apply_entries limit log frag.entries
            >>= proceed (follow fuel limit size) limit size frag)
          e in
      ((fragment_parse_iff r s f.valid f.from_start frag u).0 p).0

module _ (limit size : ℕ) (buffer : List ℕ) where
  -- what `follow` returns: the result of all entries of a chain
  abbrev Follows : FileChunkReference64x32 → Log → Dict ℕ → Type 0
  Follows r log d =
      (fs : List TransactionLogFragment) × Chain buffer (limit - log.committed_txns) r fs
      × (d ≡ result (run limit log (all_entries fs)))

  stop_here :
      (r : FileChunkReference64x32) (log : Log) (d : Dict ℕ)
      → Chain buffer (limit - log.committed_txns) r (fragment_at r buffer ∷ [])
      → d ≡ result (run limit log (fragment_at r buffer).entries)
      → Follows r log d
  unfolding all_entries
  stop_here r log d c e = (fragment_at r buffer ∷ [], c, rw append-nil e)

  go_on :
      (r : FileChunkReference64x32) (log log' : Log) (d : Dict ℕ)
      → log'.committed_txns ≡ log.committed_txns + transactions (fragment_at r buffer).entries
      → log'.committed_txns < limit
      → 0 < (fragment_at r buffer).next_fragment.cb
      → run limit log (fragment_at r buffer).entries ≡ more log'
      → Follows (fragment_at r buffer).next_fragment log' d
      → Follows r log d
  unfolding all_entries
  go_on r log log' d k room cb e (fs, c, p) =
      let left : limit - log'.committed_txns
          ≡ limit - log.committed_txns - transactions (fragment_at r buffer).entries =
        omega (arith, k, room) in
      (
        fragment_at r buffer ∷ fs,
        next _ r (omega (arith, k, room)) cb (rw (← left) c),
        rw (run-append, e) p,
      )

  finish :
      (rest : FileChunkReference64x32 → Log → M (Dict ℕ)) (r : FileChunkReference64x32) (log : Log)
      (s t : State) (d : Dict ℕ)
      → ((log' : Log)
          → log'.committed_txns < limit
          → rest (fragment_at r buffer).next_fragment log' s ≡ ok d t
          → Follows (fragment_at r buffer).next_fragment log' d)
      → (p : Progress) → run limit log (fragment_at r buffer).entries ≡ p
      → Ran limit log (transactions (fragment_at r buffer).entries) p
      → proceed rest limit size (fragment_at r buffer) p s ≡ ok d t
      → Follows r log d
  unfolding Ran
  finish rest r log s t d ih (done counts) q ran e =
      stop_here r log d (full _ r (omega (arith, ran))) (rw q (unfold proceed in ground arith))
  finish rest r log s t d ih (more log') q (k, below) e =
      let room : log'.committed_txns < limit = omega (arith, k, below) in
      elim (proceed_cases rest limit size (fragment_at r buffer) log' s t d room e) [
        | inl (is_result, cb) ↦
            stop_here r log d (ended _ r (omega (arith, below)) cb) (rw q is_result)
        | inr (cb, went_on) ↦ go_on r log log' d k room cb q (ih log' room went_on)
      ]

-- Where `follow` returns a dictionary while transactions are wanted, it is the result of all entries of
-- the chain of fragments from the reference on, as far as it is to be read.
pub follow-Chain :
    (fuel limit size : ℕ) (r : FileChunkReference64x32) (log : Log) (s t : State) (d : Dict ℕ)
    → IsFile s
    → log.committed_txns < limit
    → follow fuel limit size r log s ≡ ok d t
    → Follows limit size s.reader.buffer r log d
follow-Chain zero limit size r log s t d f room e = unfold follow in cc
follow-Chain (suc fuel) limit size r log s t d f room e =
    let h = follow_holds limit size r log s f fuel d t e in
    let (ws, step) = follow_step limit size r log s f fuel h in
    let s' : State = with_warnings ws (with_size s) in
    let f' : IsFile s' = record { valid = f.valid; from_start = f.from_start } in
    finish limit size s.reader.buffer (follow fuel limit size) r log s' t d
      (λ log' below x. follow-Chain fuel limit size _ log' s' t d f' below x)
      (run limit log (fragment_at r s.reader.buffer).entries) refl
      (run-Ran limit log (fragment_at r s.reader.buffer).entries room) (sym step ∙ e)

proceed_on :
    (rest : FileChunkReference64x32 → Log → M (Dict ℕ)) (limit size : ℕ)
    (frag : TransactionLogFragment) (log : Log) (s : State)
    → log.committed_txns < limit
    → ends_chain frag.next_fragment ≡ false
    → Fcr64x32.fits_file frag.next_fragment size ≡ true
    → proceed rest limit size frag (more log) s ≡ rest frag.next_fragment log s
unfolding proceed
proceed_on rest limit size frag log s room goes fits =
    ground (arith, Fcr64x32.validate_in_file_lem frag.next_fragment size s)

-- A fragment that names itself as the next one and completes no transaction is read for ever: no
-- fuel is enough.
pub follow-self_loop :
    (fuel limit size : ℕ) (r : FileChunkReference64x32) (log : Log) (s : State)
    → IsFile s
    → HoldsFragment r s
    → (fragment_at r s.reader.buffer).next_fragment ≡ r
    → has_sentinel (fragment_at r s.reader.buffer).entries ≡ false
    → ends_chain r ≡ false
    → Fcr64x32.fits_file r size ≡ true
    → log.committed_txns < limit
    → follow fuel limit size r log s ≡ stuck
follow-self_loop zero limit size r log s f h e n z i l = unfold follow in refl
follow-self_loop (suc fuel) limit size r log s f h e n z i l =
    let (ws, step) = follow_step limit size r log s f fuel h in
    let (log', p) = run-no_sentinel limit log (fragment_at r s.reader.buffer).entries n in
    let grown = committed_txns-run limit log log' _ p in
    let s' : State = with_warnings ws (with_size s) in
    let f' : IsFile s' = record { valid = f.valid; from_start = f.from_start } in
    let h' : HoldsFragment r s' = record { fits = h.fits; big = h.big; inside = h.inside } in
    let room : log'.committed_txns < limit = omega (arith, grown.0 n) in
    let again = follow-self_loop fuel limit size r log' s' f' h' e n z i room in
    step
    ∙ rw p (
        proceed_on (follow fuel limit size) limit size (fragment_at r s.reader.buffer) log' s' room
          (rw e z) (rw e i)
        ∙ rw e again)

Chain-at_start :
    (buffer : List ℕ) (n : ℕ) (r : FileChunkReference64x32) (fs : List TransactionLogFragment)
    → Chain buffer (n - empty_log.committed_txns) r fs
    → Chain buffer n r fs
Chain-at_start buffer n r fs c =
    let e : n - empty_log.committed_txns ≡ n = omega arith in rw (← e) c

-- The whole of `parse_transaction_log`: the fragments that it reads are the chain from
-- `fcrTransactionLog` on, up to the first fragment with which `cTransactionsInLog` transactions are
-- complete, or else up to its end, a next reference of no bytes; and what it returns is, for every
-- list, the count that the first `cTransactionsInLog` complete transactions of these fragments set
-- last, and nothing for a list that they do not set.
pub parse_transaction_log-committed :
    (fuel : ℕ) (h : Header) (s t : State) (d : Dict ℕ)
    → IsFile s
    → parse_transaction_log fuel h s ≡ ok d t
    → (fs : List TransactionLogFragment) × Chain s.reader.buffer h.c_transactions_in_log
        h.fcr_transaction_log fs
      × ((k : ℕ) → Dict.get d k ≡ count_in (committed h.c_transactions_in_log (all_entries fs)) k)
parse_transaction_log-committed fuel h s t d f e =
    let (pos_, e1) = opened in
    let f' : IsFile (with_size s) = record { valid = f.valid; from_start = f.from_start } in
    let (fs, c, p) =
      follow-Chain fuel h.c_transactions_in_log (size_in s) h.fcr_transaction_log empty_log
        (with_size s) t d f' pos_ e1 in
    (
      fs,
      Chain-at_start _ _ _ fs c,
      λ k. rw p (run-committed h.c_transactions_in_log (all_entries fs) k pos_),
    )
  where
    opened :
        (0 < h.c_transactions_in_log)
        × (follow fuel h.c_transactions_in_log
              (size_in s)
              h.fcr_transaction_log
              empty_log
              (with_size s)
            ≡ ok d t)
    opened =
        unfold parse_transaction_log in
        (
          ground (
            arith,
            e,
            file_start_lem "TransactionLog must be parsed from file start" s f.from_start,
          ),
          ground (
            arith,
            e,
            file_start_lem "TransactionLog must be parsed from file start" s f.from_start,
            Fcr64x32.validate_in_file_lem h.fcr_transaction_log (size_in s) (with_size s),
          ),
        )
