-- ===== src/TxnLog/Ends.antt =====
-- When the loop of `parse_transaction_log` ends.
use aspose_note_foss_for_pyt.Prelude.{
  ℕ, zero, suc, ◌+◌, ◌≤◌, ◌<◌, ◌≡◌, ◌≢◌, refl, true, false, Bool-cases, List, arith, inl, inr,
}
use native.Mathlib.Decide.{dec_lt}
use aspose_note_foss_for_pyt.Context.{Error, ParseContext, ParseWarning}
use aspose_note_foss_for_pyt.Parser.{State, M, err, stuck}
use aspose_note_foss_for_pyt.Read.Start.{with_size}
use aspose_note_foss_for_pyt.Dict.{Dict}
use aspose_note_foss_for_pyt.ChunkRefs.Fcr64x32
use aspose_note_foss_for_pyt.ChunkRefs.Fcr64x32.{FileChunkReference64x32}
use aspose_note_foss_for_pyt.TxnLog.Fragment
use aspose_note_foss_for_pyt.TxnLog.Fragment.{
  TransactionEntry, TransactionLogFragment, fragment_at, HoldsFragment, fragment_parse_iff,
  parse_of, parse_cases,
}
use aspose_note_foss_for_pyt.TxnLog.{Log, Progress, done, more, ends_chain, proceed, follow}
use aspose_note_foss_for_pyt.TxnLog.Counts.{run, with_warnings, has_sentinel, committed_txns-run}
use aspose_note_foss_for_pyt.TxnLog.Chain.{IsFile, follow_step}

proceed-ne-stuck :
    (rest : FileChunkReference64x32 → Log → M (Dict ℕ)) (limit size : ℕ)
    (frag : TransactionLogFragment) (p : Progress) (s : State)
    → ((log : Log)
        → p ≡ more log
        → log.committed_txns < limit
        → ends_chain frag.next_fragment ≡ false
        → rest frag.next_fragment log s ≢ stuck)
    → proceed rest limit size frag p s ≢ stuck
unfolding proceed
proceed-ne-stuck rest limit size frag (done counts) s go = λ q. cc
proceed-ne-stuck rest limit size frag (more log) s go = elim (dec_lt log.committed_txns limit) [
  | yes room ↦ elim (Bool-cases (ends_chain frag.next_fragment)) [
    | inl ended ↦ ground arith
    | inr goes ↦
        let going = go log refl room goes in
        ground (arith, going, Fcr64x32.validate_in_file_lem frag.next_fragment size s)
  ]
  | no full ↦ ground arith
]

follow_err :
    (fuel limit size : ℕ) (r : FileChunkReference64x32) (log : Log) (s : State) {x : Error}
    {c : ParseContext}
    → Fragment.parse r s ≡ err x c
    → follow (suc fuel) limit size r log s ≡ err x c
unfolding follow
follow_err fuel limit size r log s p = rw p

-- The loop may come from the reference `r` to `q`: each fragment before `q` can be read and names a
-- next one.
pub data Reaches (s : State) (q : FileChunkReference64x32) : FileChunkReference64x32 → Type 0 where
  here : Reaches s q q
  onward :
      {r : FileChunkReference64x32}
      → HoldsFragment r s
      → ends_chain (fragment_at r s.reader.buffer).next_fragment ≡ false
      → Reaches s q (fragment_at r s.reader.buffer).next_fragment
      → Reaches s q r

-- The same from a state that differs in the context alone, once the file's size is known.
Reaches-from :
    (s : State) (ws : List ParseWarning) {q r : FileChunkReference64x32}
    → Reaches (with_warnings ws (with_size s)) q r
    → Reaches s q r
Reaches-from s ws here = here
Reaches-from s ws (onward h e p) =
    onward (record { fits = h.fits; big = h.big; inside = h.inside }) e (Reaches-from s ws p)

-- Where every fragment that the loop can come to completes a transaction, and one at least is still
-- wanted, one round for each transaction that is still wanted is enough fuel: the loop ends, with a
-- dictionary or an error.
pub follow_terminates :
    (fuel limit size : ℕ) (r : FileChunkReference64x32) (log : Log) (s : State)
    → IsFile s
    → ((q : FileChunkReference64x32)
        → Reaches s q r
        → HoldsFragment q s
        → has_sentinel (fragment_at q s.reader.buffer).entries ≡ true)
    → limit ≤ log.committed_txns + fuel
    → log.committed_txns < limit
    → follow fuel limit size r log s ≢ stuck
follow_terminates zero limit size r log s f busy enough le = absurd (omega arith)
follow_terminates (suc fuel) limit size r log s f busy enough le =
    elim (parse_cases r s f.valid f.from_start) [
      | inl h ↦
          let (ws, step) = follow_step limit size r log s f fuel h in
          let s' : State = with_warnings ws (with_size s) in
          let f' : IsFile s' = record { valid = f.valid; from_start = f.from_start } in
          rw step (
            proceed-ne-stuck (follow fuel limit size) limit size (fragment_at r s.reader.buffer)
              (run limit log (fragment_at r s.reader.buffer).entries) s'
              λ log' p room goes.
                let (_, grown, _) = committed_txns-run limit log log' _ p in
                follow_terminates fuel limit size _ log' s' f'
                  (λ q path hq.
                    busy q (onward h goes (Reaches-from s ws path))
                      (record { fits = hq.fits; big = hq.big; inside = hq.inside }))
                  (omega (arith, grown (busy r here h))) room)
      | inr (x, p) ↦ λ q. cc (follow_err fuel limit size r log s p)
    ]
