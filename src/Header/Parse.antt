-- ===== src/Header/Parse.antt =====
-- `Header.parse` of onestore/header.py as a whole, on a reader that starts where the file does.
use aspose_note_foss_for_pyt.Prelude.{◌≤◌, ◌<◌, ◌≡◌, ◌↔◌, ◌∙◌, take, drop, some, arith}
use native.Mathlib.Decide.{dec_le}
use aspose_note_foss_for_pyt.Context.{ParseContext, format_error}
use aspose_note_foss_for_pyt.Parser.{State, ok, err, pure, ◌>>◌}
use aspose_note_foss_for_pyt.Parser.Rules.{continue-ok}
use aspose_note_foss_for_pyt.Read.{binary_reader, seek, view, remaining, tell, move}
use aspose_note_foss_for_pyt.Read.Cursor.{IsValid}
use aspose_note_foss_for_pyt.Read.Views.{part}
use aspose_note_foss_for_pyt.Read.Start.{size_in, with_size, file_start_lem}
use aspose_note_foss_for_pyt.Io.{BinaryReader}
use aspose_note_foss_for_pyt.Header.{Header, read_header, check, parse}
use aspose_note_foss_for_pyt.Header.Layout.{layout, Reads-read_fields}
use aspose_note_foss_for_pyt.Header.Accepts.{IsWellFormed, after_check, check_iff}

-- the header that the first 1024 bytes hold
abbrev pub header_of : State → Header
header_of s = layout (take 1024 s.reader.buffer)

-- the state in which the checks run
abbrev pub ready : State → State
ready s = move 0 (with_size s)

abbrev front : BinaryReader → BinaryReader
front r = record { buffer = r.buffer; bounds = record { start = 0; end = 1024 }; pos = 0 }

part-front : (r : BinaryReader) → r.bounds.start ≡ 0 → part r 0 1024 ≡ front r
part-front r h = ground arith

module _ (s : State) (v : IsValid s.reader) (from_start : s.reader.bounds.start ≡ 0) where
  module _ (long : 1024 ≤ s.reader.bounds.end) where
    front-IsValid : IsValid (front s.reader)
    front-IsValid = record {
      start_le = omega arith;
      pos_le = omega arith;
      end_le = omega (arith, v.end_le);
      bytes = v.bytes;
    }

    read_header_lem :
        (c : ParseContext)
        → read_header (record { reader = front s.reader; ctx = c })
          ≡ ok (header_of s) (record { reader = record (front s.reader) { pos = 1024 }; ctx = c })
    unfolding read_header remaining tell drop
    read_header_lem c = rw (
        Reads-read_fields.enough (record { reader = front s.reader; ctx = c }) front-IsValid
          (omega arith))

    seek_start : seek 0 (with_size s) ≡ ok tt (ready s)
    unfolding seek
    seek_start = ground arith

    view_header : view 0 1024 (ready s) ≡ ok (front s.reader) (ready s)
    unfolding view binary_reader
    view_header = rw from_start (ground (arith, v.end_le))

    -- On a long enough file `parse` is the check of the header that its first bytes hold.
    parse_lem : parse s ≡ (do check (header_of s) (size_in s); pure (header_of s)) (ready s)
    unfolding parse
    parse_lem =
        rw (file_start_lem _ s from_start, seek_start, view_header, read_header_lem (ready s).ctx)

  parse_short :
      s.reader.bounds.end < 1024
      → parse s ≡ err (format_error "View out of bounds" (some 0)) (ready s).ctx
  unfolding parse seek view
  parse_short h = rw (file_start_lem _ s from_start) (ground arith)

-- what `parse` returns from the state `s`, and the state it leaves
abbrev pub IsParsed : State → Header → State → Type 0
IsParsed s h t =
    (1024 ≤ s.reader.bounds.end)
    × (h ≡ header_of s)
    × (t ≡ after_check (header_of s) (size_in s) (ready s))
    × IsWellFormed (header_of s) (size_in s)

module _ (s : State) (v : IsValid s.reader) (from_start : s.reader.bounds.start ≡ 0) (h : Header)
    (t : State) where
  checked :
      (check (header_of s) (size_in s) >> pure (header_of s)) (ready s) ≡ ok h t
      → (h ≡ header_of s)
        × (t ≡ after_check (header_of s) (size_in s) (ready s))
        × IsWellFormed (header_of s) (size_in s)
  checked e =
      let (_, u, e1, e2) =
        continue-ok (check (header_of s) (size_in s) (ready s)) (λ _. pure (header_of s)) e in
      let (p, w) = (check_iff (header_of s) (size_in s) (ready s) u).0 e1 in (cc, cc, w)

  -- From the start of a file, `parse` returns a header exactly when the file has 1024 bytes and they
  -- hold a well-formed one; it returns that one, and leaves the cursor at the start.
  pub header_parse_iff : (parse s ≡ ok h t) ↔ IsParsed s h t
  header_parse_iff = (
    λ e. elim (dec_le 1024 s.reader.bounds.end) [
      | yes long ↦
          let (p, q, w) = checked (rw (parse_lem s v from_start long) at e) in (long, p, q, w)
      | no short ↦ cc (parse_short s v from_start (omega arith))
    ],
    λ (long, p, q, w).
        parse_lem s v from_start long
        ∙ rw ((check_iff (header_of s) (size_in s) (ready s) t).1 (q, w)) (cc),
  )
