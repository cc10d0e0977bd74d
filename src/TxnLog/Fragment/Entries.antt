-- ===== src/TxnLog/Fragment/Entries.antt =====
-- What a fragment of the transaction log is read as.
use aspose_note_foss_for_pyt.Prelude.{
  ℕ, zero, suc, ◌+◌, ◌-◌, ◌*◌, ◌/◌, ◌%◌, ◌≤◌, ◌<◌, ◌≡◌, ◌↔◌, ap, ◌∙◌, List, [], ◌∷◌, take, drop,
  length, some, lt→ltb, ge→ltb, arith, true, false, ◌==◌, Bool-cases, ◌⊎◌, inl, inr, All,
}
use native.Mathlib.Decide.{dec_le}
use aspose_note_foss_for_pyt.Io.{BinaryReader, IsByte, little_endian}
use aspose_note_foss_for_pyt.Parser.{State, ok, err, pure, back_to, ◌>>=◌}
use aspose_note_foss_for_pyt.Read.{
  binary_reader, tell, move, remaining, tell_relative, view, read_u32,
}
use aspose_note_foss_for_pyt.Read.Cursor.{IsValid}
use aspose_note_foss_for_pyt.Read.Views.{part}
use aspose_note_foss_for_pyt.Read.Fields.{
  Reads, Reads-bind, Reads-pure, Reads-read_u32, Reads-skip, Fits, window, advance, advance-IsValid,
}
use aspose_note_foss_for_pyt.Context.{Error, ParseContext, format_error}
use aspose_note_foss_for_pyt.Read.Start.{size_in, with_size, file_start_lem}
use aspose_note_foss_for_pyt.ChunkRefs.Fcr64x32
use aspose_note_foss_for_pyt.ChunkRefs.Fcr64x32.{FileChunkReference64x32}
use aspose_note_foss_for_pyt.TxnLog.Fragment.Defs.{
  TransactionEntry, TransactionLogFragment, read_entry, read_entries, parse_table, parse,
}

-- the entry in eight bytes that stand at `p`, and the `n` entries from `p` on
unfoldable pub entry_of : ℕ → List ℕ → TransactionEntry
entry_of p w = record {
  src_id = little_endian (take 4 w);
  value = little_endian (take 4 (drop 4 w));
  offset = p;
}

unfoldable pub entries_at : ℕ → ℕ → List ℕ → List TransactionEntry
entries_at zero p buffer = []
entries_at (suc n) p buffer = entry_of p (take 8 (drop p buffer)) ∷ entries_at n (p + 8) buffer

Reads-words :
    (p : ℕ)
    → Reads 8 (entry_of p) (do
      src_id ← read_u32
      value ← read_u32
      pure (record { src_id = src_id; value = value; offset = p }))
unfolding entry_of
Reads-words p = Reads-bind Reads-read_u32 λ a. Reads-bind Reads-read_u32 λ b. Reads-pure _

read_entry_lem :
    (s : State)
    → IsValid s.reader
    → Fits 8 s
    → read_entry s ≡ ok (entry_of s.reader.pos (window 8 s)) (advance 8 s)
unfolding read_entry
read_entry_lem s v h = (Reads-words s.reader.pos).enough s v h

-- From a cursor that has `n` entries before it, the loop reads them and stops.
pub read_entries_lem :
    (n fuel size : ℕ) (s : State)
    → IsValid s.reader
    → Fits (8 * n) s
    → s.reader.pos + 8 * n ≡ s.reader.bounds.start + size
    → n < fuel
    → read_entries fuel size s ≡ ok (entries_at n s.reader.pos s.reader.buffer) (advance (8 * n) s)
unfolding read_entries entries_at
read_entries_lem n zero size s v h e f = absurd (omega arith)
read_entries_lem zero (suc fuel) size s v h e f =
    rw (ge→ltb _ _ ended) (ap (λ p. ok [] (move p s)) (omega arith))
  where
    ended : size ≤ s.reader.pos - s.reader.bounds.start
    ended = omega arith
read_entries_lem (suc n) (suc fuel) size s v h e f =
    rw
      (
        lt→ltb _ _ inside,
        read_entry_lem s v fits,
        read_entries_lem n fuel size (advance 8 s) (advance-IsValid 8 s v fits) (omega arith)
            (omega arith) (omega arith),
      )
      (ap (λ p. ok (entries_at (suc n) s.reader.pos s.reader.buffer) (move p s)) (omega arith))
  where
    inside : s.reader.pos - s.reader.bounds.start < size
    inside = omega (arith, v.start_le)

    fits : Fits 8 s
    fits = omega arith

-- the view of a chunk of a whole file, and that view with its cursor at `p`
abbrev chunk : FileChunkReference64x32 → List ℕ → BinaryReader
chunk fcr buffer = record {
  buffer = buffer;
  bounds = record { start = fcr.stp; end = fcr.stp + fcr.cb };
  pos = fcr.stp;
}

abbrev chunk_state : FileChunkReference64x32 → List ℕ → ParseContext → ℕ → State
chunk_state fcr buffer c p = record { reader = record (chunk fcr buffer) { pos = p }; ctx = c }

module _ (fcr : FileChunkReference64x32) (buffer : List ℕ) (bytes : All IsByte buffer)
    (c : ParseContext) where
  abbrev on_chunk : ℕ → State
  on_chunk = chunk_state fcr buffer c

  module _ (count padding : ℕ) (split : fcr.cb ≡ 8 * count + 12 + padding)
      (inside : fcr.stp + fcr.cb ≤ length buffer) where
    chunk-IsValid :
        (p : ℕ)
        → fcr.stp ≤ p
        → p ≤ fcr.stp + fcr.cb
        → IsValid (record (chunk fcr buffer) { pos = p })
    chunk-IsValid p h k = record { start_le = h; pos_le = k; end_le = inside; bytes = bytes }

    parse_table_lem :
        parse_table fcr (8 * count) padding (on_chunk fcr.stp)
        ≡ ok
            (record {
              fcr = fcr;
              entries = entries_at count fcr.stp buffer;
              next_fragment = Fcr64x32.of_bytes (take 12 (drop (fcr.stp + 8 * count) buffer));
            })
            (on_chunk (fcr.stp + 8 * count + 12 + padding))
    unfolding parse_table tell tell_relative remaining
    parse_table_lem = rw (
      read_entries_lem count (suc (8 * count)) (8 * count) (on_chunk fcr.stp)
          (chunk-IsValid fcr.stp (omega arith) (omega arith)) (omega arith) (omega arith)
          (omega arith),
      table_read,
      Fcr64x32.Reads-parse.enough (on_chunk (fcr.stp + 8 * count))
          (chunk-IsValid (fcr.stp + 8 * count) (omega arith) (omega arith)) (omega arith),
      padding_left,
      (Reads-skip padding).enough (on_chunk (fcr.stp + 8 * count + 12))
          (chunk-IsValid (fcr.stp + 8 * count + 12) (omega arith) (omega arith)) (omega arith),
    )
      where
        table_read : (fcr.stp + 8 * count - fcr.stp == 8 * count) ≡ true
        table_read = ground arith

        padding_left : (fcr.stp + fcr.cb - (fcr.stp + 8 * count + 12) == padding) ≡ true
        padding_left = ground arith

-- A chunk of 12 bytes or more is its entries, the 12 bytes behind them, and the padding.
split_chunk :
    (cb : ℕ)
    → 12 ≤ cb
    → (cb ≡ 8 * ((cb - 12) / 8) + 12 + (cb - 12) % 8)
      × (cb - 12 - (cb - 12) % 8 ≡ 8 * ((cb - 12) / 8))
      × ((cb - 12 - (cb - 12) % 8) % 8 ≡ 0)
split_chunk cb h = (omega arith, omega arith, omega arith)

part-chunk :
    (fcr : FileChunkReference64x32) (r : BinaryReader)
    → r.bounds.start ≡ 0
    → part r fcr.stp fcr.cb ≡ chunk fcr r.buffer
part-chunk fcr r h = ground arith

-- The fragment in the chunk at `fcr` of a file: as many entries as fit before the last 12 bytes, the
-- next reference right behind them, and up to seven bytes of padding.
unfoldable pub fragment_at : FileChunkReference64x32 → List ℕ → TransactionLogFragment
fragment_at fcr buffer =
    let count = (fcr.cb - 12) / 8 in
    record {
      fcr = fcr;
      entries = entries_at count fcr.stp buffer;
      next_fragment = Fcr64x32.of_bytes (take 12 (drop (fcr.stp + 8 * count) buffer));
    }

-- what makes a reference one of a fragment that can be read
pub record HoldsFragment (fcr : FileChunkReference64x32) (s : State) : Type 0 where
  pub fits : Fcr64x32.fits_file fcr (size_in s) ≡ true
  pub big : 12 ≤ fcr.cb
  pub inside : fcr.stp + fcr.cb ≤ s.reader.bounds.end

module _ (fcr : FileChunkReference64x32) (s : State) (v : IsValid s.reader)
    (from_start : s.reader.bounds.start ≡ 0) where
  view-chunk :
      fcr.stp + fcr.cb ≤ s.reader.bounds.end
      → view fcr.stp fcr.cb (with_size s) ≡ ok (chunk fcr s.reader.buffer) (with_size s)
  unfolding view binary_reader
  view-chunk h = rw from_start (ground (arith, v.end_le))

  view_outside :
      s.reader.bounds.end < fcr.stp + fcr.cb
      → view fcr.stp fcr.cb (with_size s)
        ≡ err (format_error "View out of bounds" (some fcr.stp)) (with_size s).ctx
  unfolding view
  view_outside h = rw from_start (ground arith)

  pub parse_of :
      HoldsFragment fcr s → parse fcr s ≡ ok (fragment_at fcr s.reader.buffer) (with_size s)
  unfolding parse fragment_at
  parse_of h =
      let (split, table, multiple) = split_chunk fcr.cb h.big in
      rw
        (
          file_start_lem _ s from_start,
          Fcr64x32.validate_in_file_lem fcr (size_in s) (with_size s),
          h.fits,
          ge→ltb _ _ h.big,
          multiple,
          table,
          view-chunk h.inside,
        )
        (ap (back_to s.reader) (
          parse_table_lem fcr s.reader.buffer v.bytes (with_size s).ctx ((fcr.cb - 12) / 8)
            ((fcr.cb - 12) % 8) split (omega (arith, v.end_le, h.inside))))

  parse_outside :
      Fcr64x32.fits_file fcr (size_in s) ≡ true
      → 12 ≤ fcr.cb
      → s.reader.bounds.end < fcr.stp + fcr.cb
      → parse fcr s ≡ err (format_error "View out of bounds" (some fcr.stp)) (with_size s).ctx
  unfolding parse
  parse_outside fits big h =
      let (split, table, multiple) = split_chunk fcr.cb big in
      rw (
        file_start_lem _ s from_start,
        Fcr64x32.validate_in_file_lem fcr (size_in s) (with_size s),
        fits,
        ge→ltb _ _ big,
        multiple,
        view_outside h,
      )

  parse_unfit :
      Fcr64x32.fits_file fcr (size_in s) ≡ false
      → parse fcr s
        ≡ err
            (format_error "FileChunkReference64x32 out of bounds" (some fcr.stp))
            (with_size s).ctx
  unfolding parse
  parse_unfit unfit = rw (
    file_start_lem _ s from_start,
    Fcr64x32.validate_in_file_lem fcr (size_in s) (with_size s),
    unfit,
  )

  parse_small :
      Fcr64x32.fits_file fcr (size_in s) ≡ true
      → fcr.cb < 12
      → parse fcr s
        ≡ err (format_error "TransactionLogFragment too small" (some fcr.stp)) (with_size s).ctx
  unfolding parse
  parse_small fits small = rw (
    file_start_lem _ s from_start,
    Fcr64x32.validate_in_file_lem fcr (size_in s) (with_size s),
    fits,
    lt→ltb _ _ small,
  )

  -- A fragment is read, or refused with an error.
  pub parse_cases : HoldsFragment fcr s ⊎ ((x : Error) × (parse fcr s ≡ err x (with_size s).ctx))
  parse_cases = elim (Bool-cases (Fcr64x32.fits_file fcr (size_in s))) [
    | inr unfit ↦ inr (_, parse_unfit unfit)
    | inl fits ↦ elim (dec_le 12 fcr.cb) [
      | no small ↦ inr (_, parse_small fits (omega arith))
      | yes big ↦ elim (dec_le (fcr.stp + fcr.cb) s.reader.bounds.end) [
        | yes h ↦ inl (record { fits = fits; big = big; inside = h })
        | no h ↦ inr (_, parse_outside fits big (omega arith))
      ]
    ]
  ]

  holds_of : (f : TransactionLogFragment) (t : State) → parse fcr s ≡ ok f t → HoldsFragment fcr s
  holds_of f t e = elim parse_cases [ inl h ↦ h | inr (x, p) ↦ cc ]

  -- On a whole file a fragment is read exactly where its reference fits the file and has 12 bytes or
  -- more; it is then the one that the bytes lay out, and the reader is where it was.
  pub fragment_parse_iff :
      (f : TransactionLogFragment) (t : State)
      → (parse fcr s ≡ ok f t)
        ↔ (HoldsFragment fcr s × (f ≡ fragment_at fcr s.reader.buffer) × (t ≡ with_size s))
  fragment_parse_iff f t = (
    λ e. let h = holds_of f t e in let p = parse_of h in (h, cc, cc),
    λ (h, p, q). parse_of h ∙ cc,
  )
