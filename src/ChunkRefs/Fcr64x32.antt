-- ===== src/ChunkRefs/Fcr64x32.antt =====
-- FileChunkReference64x32 of onestore/chunk_refs.py.
use aspose_note_foss_for_pyt.Prelude.{
  ℕ, ◌+◌, ◌≡◌, Bool, ◌&&◌, ◌||◌, List, some, leb, ltb, ◌==◌, take, drop, arith, if◌then◌else◌,
}
use aspose_note_foss_for_pyt.Context.{format_error}
use aspose_note_foss_for_pyt.Io.{little_endian}
use aspose_note_foss_for_pyt.Parser.{State, ok, err, M, pure, raise_if, ◌>>=◌}
use aspose_note_foss_for_pyt.Read.{read_u32, read_u64}
use aspose_note_foss_for_pyt.Read.Fields.{
  Reads, Reads-pure, Reads-bind, Reads-read_u32, Reads-read_u64,
}

pub record FileChunkReference64x32 : Type 0 where
  pub stp : ℕ
  pub cb : ℕ

unfoldable pub parse : M FileChunkReference64x32
unfolding read_u32 read_u64
parse = do stp ← read_u64; cb ← read_u32; pure (record { stp = stp; cb = cb })

unfoldable pub is_nil : FileChunkReference64x32 → Bool
is_nil r = r.stp == 0xffffffffffffffff && r.cb == 0

unfoldable pub is_zero : FileChunkReference64x32 → Bool
is_zero r = r.stp == 0 && r.cb == 0

unfoldable pub validate_in_file : FileChunkReference64x32 → ℕ → M (Unit {0})
unfolding is_nil is_zero
validate_in_file r file_size s =
    if is_nil r || is_zero r
    then ok tt s
    else raise_if (ltb file_size (r.stp + r.cb))
        (format_error "FileChunkReference64x32 out of bounds" (some r.stp)) s

-- What the 12 bytes of the structure stand for.
unfoldable pub of_bytes : List ℕ → FileChunkReference64x32
of_bytes w = record { stp = little_endian (take 8 w); cb = little_endian (take 4 (drop 8 w)) }

pub Reads-parse : Reads 12 of_bytes parse
unfolding parse of_bytes
Reads-parse = Reads-bind Reads-read_u64 λ a. Reads-bind Reads-read_u32 λ b. Reads-pure _

-- A reference fits a file if it is one of the two special ones or ends inside the file.
unfoldable pub fits_file : FileChunkReference64x32 → ℕ → Bool
fits_file r n = is_nil r || is_zero r || leb (r.stp + r.cb) n

pub validate_in_file_lem :
    (r : FileChunkReference64x32) (n : ℕ) (s : State)
    → validate_in_file r n s ≡ (
        if fits_file r n
        then ok tt s
        else err (format_error "FileChunkReference64x32 out of bounds" (some r.stp)) s.ctx)
unfolding validate_in_file fits_file
validate_in_file_lem r n s = ground arith
