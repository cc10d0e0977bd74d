-- ===== src/Read/Cursor.antt =====
-- The cursor stays inside the bounds, and the bounds inside the buffer.
use aspose_note_foss_for_pyt.Prelude.{ℕ, ◌≤◌, ◌≡◌, Option, List, length, All, arith}
use aspose_note_foss_for_pyt.Io.{BinaryReader, IsByte}
use aspose_note_foss_for_pyt.Parser.{State, ok, err, stuck, Outcome}
use aspose_note_foss_for_pyt.Read.{
  binary_reader, seek, seek_relative, skip, read_bytes, peek_bytes, read_struct, view,
}

pub record IsValid (r : BinaryReader) : Type 0 where
  pub start_le : r.bounds.start ≤ r.pos
  pub pos_le : r.pos ≤ r.bounds.end
  pub end_le : r.bounds.end ≤ length r.buffer
  pub bytes : All IsByte r.buffer

-- The readers that an outcome shows: that of the state it leaves.
abbrev pub LeavesValid {ℓ} : {A : Type ℓ} → Outcome A → Type 0
LeavesValid (ok a s) = IsValid s.reader
LeavesValid (err e c) = Unit
LeavesValid stuck = ⊥

-- The reader that an outcome returns lies within the outer one.
abbrev pub ReturnsWithin : BinaryReader → Outcome BinaryReader → Type 0
ReturnsWithin r (ok v s) =
    IsValid v
    × (r.bounds.start ≤ v.bounds.start)
    × (v.bounds.end ≤ r.bounds.end)
    × (v.buffer ≡ r.buffer)
ReturnsWithin r (err e c) = Unit
ReturnsWithin r stuck = ⊥

-- From a valid reader no cursor operation leaves an invalid one, whatever its argument.
pub cursor-IsValid :
    (s : State) (n : ℕ)
    → IsValid s.reader
    → LeavesValid (seek n s)
      × LeavesValid (seek_relative n s)
      × LeavesValid (skip n s)
      × LeavesValid (read_bytes n s)
      × LeavesValid (peek_bytes n s)
      × LeavesValid (read_struct n s)
unfolding seek seek_relative skip read_bytes peek_bytes read_struct
cursor-IsValid s n h =
    (ground arith, ground arith, ground arith, ground arith, ground arith, ground arith)

pub binary_reader-IsValid :
    (buffer : List ℕ) (start cursor : ℕ) (size : Option ℕ) (s t : State) (r : BinaryReader)
    → All IsByte buffer
    → binary_reader buffer start size cursor s ≡ ok r t
    → IsValid r
unfolding binary_reader
binary_reader-IsValid buffer start cursor size s t r b h = ground arith

pub view-within :
    (s : State) (offset size : ℕ) → IsValid s.reader → ReturnsWithin s.reader (view offset size s)
unfolding view
view-within s offset size h = ground arith
