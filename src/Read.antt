-- ===== src/Read.antt =====
-- onestore/io.py, the methods that move the cursor. Every caller passes sizes and offsets that are
-- not negative, so they are natural numbers here and the checks on a negative argument are left out.
pub mod Cursor
pub mod Fields
pub mod Views
pub mod Start
pub mod Progress
use aspose_note_foss_for_pyt.Prelude.{
  ℕ, ◌+◌, ◌-◌, Bool, Option, none, some, List, ltb, ◌==◌, String, not, ◌||◌, take, drop, length,
  if◌then◌else◌,
}
use aspose_note_foss_for_pyt.Context.{format_error, value_error}
use aspose_note_foss_for_pyt.Io.{Bounds, BinaryReader, little_endian, unpack_bits}
use aspose_note_foss_for_pyt.Parser.{State, ok, M, pure, raise, raise_if, the_reader, ◌>>=◌, ◌>>◌}

-- BinaryReader.__init__
unfoldable pub binary_reader : List ℕ → ℕ → Option ℕ → ℕ → M BinaryReader
binary_reader buffer start size cursor = do
  raise_if (ltb (length buffer) start) (value_error "start beyond data")
  let end : ℕ = elim size [ none ↦ length buffer | some n ↦ start + n ]
  raise_if (ltb (length buffer) end) (value_error "(start+size) beyond data")
  raise_if (ltb end (start + cursor)) (value_error "cursor beyond bounds")
  pure (record {
    buffer = buffer;
    bounds = record { start = start; end = end };
    pos = start + cursor;
  })

unfoldable pub tell : M ℕ
tell s = ok s.reader.pos s

unfoldable pub tell_relative : M ℕ
tell_relative s = ok (s.reader.pos - s.reader.bounds.start) s

abbrev pub move : ℕ → State → State
move p s = record s { reader = record s.reader { pos = p } }

abbrev pub move_to : ℕ → M (Unit {0})
move_to p s = ok tt (move p s)

unfoldable pub seek : ℕ → M (Unit {0})
seek absolute_offset = do
  r ← the_reader
  raise_if (ltb absolute_offset r.bounds.start || ltb r.bounds.end absolute_offset)
      (format_error "Seek out of bounds" (some absolute_offset))
  move_to absolute_offset

unfoldable pub seek_relative : ℕ → M (Unit {0})
unfolding seek
seek_relative offset = do r ← the_reader; seek (r.bounds.start + offset)

unfoldable pub remaining : M ℕ
remaining s = ok (s.reader.bounds.end - s.reader.pos) s

-- BinaryReader._require
unfoldable pub require : ℕ → M (Unit {0})
require n = do
  r ← the_reader
  raise_if (ltb r.bounds.end (r.pos + n)) (format_error "Read out of bounds" (some r.pos))

-- `self._data[self._pos : self._pos + n]`
abbrev pub slice_at : ℕ → ℕ → BinaryReader → List ℕ
slice_at p n r = take n (drop p r.buffer)

unfoldable pub read_bytes : ℕ → M (List ℕ)
unfolding require
read_bytes n = do require n; r ← the_reader; move_to (r.pos + n); pure (slice_at r.pos n r)

unfoldable pub peek_bytes : ℕ → M (List ℕ)
unfolding require
peek_bytes n = do require n; r ← the_reader; pure (slice_at r.pos n r)

unfoldable pub skip : ℕ → M (Unit {0})
unfolding require
skip n = do require n; r ← the_reader; move_to (r.pos + n)

unfoldable pub view : ℕ → ℕ → M BinaryReader
unfolding binary_reader
view relative_offset size = do
  r ← the_reader
  let start = r.bounds.start + relative_offset
  raise_if (ltb r.bounds.end (start + size)) (format_error "View out of bounds" (some start))
  binary_reader r.buffer start (some size) 0

-- BinaryReader._read_struct, for the little-endian formats of `size` bytes
unfoldable pub read_struct : ℕ → M ℕ
unfolding require little_endian
read_struct size = do
  require size
  r ← the_reader
  move_to (r.pos + size)
  pure (little_endian (slice_at r.pos size r))

unfoldable pub read_u8 : M ℕ
unfolding read_struct
read_u8 = read_struct 1

unfoldable pub read_u16 : M ℕ
unfolding read_struct
read_u16 = read_struct 2

unfoldable pub read_u32 : M ℕ
unfolding read_struct
read_u32 = read_struct 4

unfoldable pub read_u64 : M ℕ
unfolding read_struct
read_u64 = read_struct 8

unfoldable pub bits_of : ℕ → List ℕ → M (List ℕ)
unfolding unpack_bits
bits_of value widths = elim (unpack_bits value widths) [
  | none ↦ raise (value_error "widths must be positive")
  | some out ↦ pure out
]

unfoldable pub read_u32_bits : List ℕ → M (List ℕ)
unfolding bits_of read_u32
read_u32_bits widths = do value ← read_u32; bits_of value widths

-- The opening of the parsers that work on the file as a whole: the reader starts where the file
-- does, and the context keeps the file's size once it is known.
unfoldable pub known_size : ℕ → M ℕ
known_size n s = elim s.ctx.file_size [
  | none ↦ ok n (record s { ctx = record s.ctx { file_size = some n } })
  | some m ↦ ok m s
]

unfoldable pub file_start : String → M ℕ
unfolding known_size
file_start message = do
  r ← the_reader
  raise_if (not (r.bounds.start == 0)) (format_error message (some r.bounds.start))
  known_size r.bounds.end
