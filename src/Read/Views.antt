-- ===== src/Read/Views.antt =====
-- Sub-readers of onestore/io.py: `BinaryReader(data)` over a whole buffer, and `view`.
use aspose_note_foss_for_pyt.Prelude.{
  ℕ, ◌+◌, ◌^◌, ◌≤◌, ◌<◌, ◌≡◌, sym, ap, ◌∙◌, List, ◌++◌, none, some, length, length-append, take,
  take-append, drop-append, All, ge→ltb, arith, ◌⊎◌, inl, inr,
}
use native.Mathlib.Decide.{dec_le}
use aspose_note_foss_for_pyt.Context.{ParseContext, format_error}
use aspose_note_foss_for_pyt.Io.{BinaryReader, IsByte}
use aspose_note_foss_for_pyt.Io.Endian.{le_bytes, length-le_bytes, little_endian-le_bytes}
use aspose_note_foss_for_pyt.Parser.{State, ok, err}
use aspose_note_foss_for_pyt.Read.{binary_reader, view, read_struct}
use aspose_note_foss_for_pyt.Read.Cursor.{IsValid}
use aspose_note_foss_for_pyt.Read.Fields.{advance}

-- BinaryReader(data), and what `view` returns where it succeeds
abbrev pub whole : List ℕ → BinaryReader
whole d = record { buffer = d; bounds = record { start = 0; end = length d }; pos = 0 }

abbrev pub part : BinaryReader → ℕ → ℕ → BinaryReader
part r offset size = record {
  buffer = r.buffer;
  bounds = record { start = r.bounds.start + offset; end = r.bounds.start + offset + size };
  pos = r.bounds.start + offset;
}

pub binary_reader-whole : (d : List ℕ) (s : State) → binary_reader d 0 none 0 s ≡ ok (whole d) s
unfolding binary_reader
binary_reader-whole d s = ground arith

pub whole-IsValid : (d : List ℕ) → All IsByte d → IsValid (whole d)
whole-IsValid d h = record {
  start_le = omega arith;
  pos_le = omega arith;
  end_le = omega arith;
  bytes = h;
}

-- A view of a valid reader is exactly the part asked for when that lies inside the bounds, whatever
-- the cursor; otherwise it is refused, and in both cases the outer reader is as before.
pub view_lem :
    (s : State) (offset size : ℕ)
    → IsValid s.reader
    → ((s.reader.bounds.start + offset + size ≤ s.reader.bounds.end)
        × (view offset size s ≡ ok (part s.reader offset size) s))
      ⊎ ((s.reader.bounds.end < s.reader.bounds.start + offset + size)
          × (view offset size s
              ≡ err
                  (format_error "View out of bounds" (some (s.reader.bounds.start + offset)))
                  s.ctx))
unfolding view
view_lem s offset size v =
    elim (dec_le (s.reader.bounds.start + offset + size) s.reader.bounds.end) [
      | yes h ↦ inl (h, ground arith)
      | no h ↦ inr (omega arith, ground arith)
    ]

-- a reader over three pieces of a buffer, with its cursor before the second
abbrev pub between : List ℕ → List ℕ → List ℕ → ParseContext → State
between before w after c = record {
  reader = record {
    buffer = before ++ (w ++ after);
    bounds = record { start = 0; end = length (before ++ (w ++ after)) };
    pos = length before;
  };
  ctx = c;
}

-- An encoded number that fits its `n` bytes is read back, wherever it stands in the buffer, and the
-- cursor moves behind it.
pub read_struct-le_bytes :
    (n v : ℕ) (before after : List ℕ) (c : ParseContext)
    → v < 256 ^ n
    → let s : State = between before (le_bytes n v) after c in read_struct n s ≡ ok v (advance n s)
unfolding read_struct
read_struct-le_bytes n v before after c h =
    rw (ge→ltb _ _ inside, drop-append, field)
      (ap (λ x. ok x (advance n s)) (little_endian-le_bytes n v h))
  where
    s : State
    s = between before (le_bytes n v) after c

    inside : length before + n ≤ length (before ++ (le_bytes n v ++ after))
    inside = omega (
      arith,
      length-append before (le_bytes n v ++ after),
      length-append (le_bytes n v) after,
      length-le_bytes n v,
    )

    field : take n (le_bytes n v ++ after) ≡ le_bytes n v
    field =
        ap (λ k. take k (le_bytes n v ++ after)) (sym (length-le_bytes n v))
        ∙ take-append (le_bytes n v) after
