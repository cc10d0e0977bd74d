-- ===== src/ChunkRefs/Node.antt =====
-- FileNodeChunkReference of onestore/chunk_refs.py: a reference whose two fields have one of four
-- compressed formats each. The number that the two messages interpolate is left out.
use aspose_note_foss_for_pyt.Prelude.{
  ℕ, zero, suc, ◌+◌, ◌*◌, ◌<◌, List, some, ◌==◌, take, drop, arith, if◌then◌else◌,
}
use aspose_note_foss_for_pyt.Context.{format_error}
use aspose_note_foss_for_pyt.Io.{little_endian}
use aspose_note_foss_for_pyt.Parser.{M, pure, raise, ◌>>=◌}
use aspose_note_foss_for_pyt.Read.Cursor.{IsValid}
use aspose_note_foss_for_pyt.Read.Fields.{Reads-cases, Fits, window, advance, out_of_bounds}
use aspose_note_foss_for_pyt.Prelude.{◌≡◌, ◌⊎◌}
use aspose_note_foss_for_pyt.Parser.{State, ok, err}
use aspose_note_foss_for_pyt.Read.{tell, read_u8, read_u16, read_u32, read_u64}
use aspose_note_foss_for_pyt.Read.Fields.{
  Reads, Reads-bind, Reads-map, Reads-cong, Reads-read_u8, Reads-read_u16, Reads-read_u32,
  Reads-read_u64,
}

pub record FileNodeChunkReference : Type 0 where
  pub stp_format : ℕ
  pub cb_format : ℕ
  pub raw_stp : ℕ
  pub raw_cb : ℕ
  pub stp : ℕ
  pub cb : ℕ

-- a field as stored, and as expanded
pub record Expanded : Type 0 where
  pub raw : ℕ
  pub value : ℕ

plain : M ℕ → M Expanded
plain m = do raw ← m; pure (record { raw = raw; value = raw })

times_eight : M ℕ → M Expanded
times_eight m = do raw ← m; pure (record { raw = raw; value = raw * 8 })

-- the branches on StpFormat
unfoldable pub parse_stp : ℕ → M Expanded
unfolding plain times_eight tell read_u16 read_u32 read_u64
parse_stp stp_format =
    if stp_format == 0
    then plain read_u64
    else if stp_format == 1
    then plain read_u32
    else if stp_format == 2
    then times_eight read_u16
    else if stp_format == 3
    then times_eight read_u32
    else do at ← tell; raise (format_error "Unknown StpFormat" (some at))

-- the branches on CbFormat
unfoldable pub parse_cb : ℕ → M Expanded
unfolding plain times_eight tell read_u8 read_u16 read_u32 read_u64
parse_cb cb_format =
    if cb_format == 0
    then plain read_u32
    else if cb_format == 1
    then plain read_u64
    else if cb_format == 2
    then times_eight read_u8
    else if cb_format == 3
    then times_eight read_u16
    else do at ← tell; raise (format_error "Unknown CbFormat" (some at))

-- the constructor call at the end of the parser
abbrev pub reference : ℕ → ℕ → Expanded → Expanded → FileNodeChunkReference
reference stp_format cb_format stp cb = record {
  stp_format = stp_format;
  cb_format = cb_format;
  raw_stp = stp.raw;
  raw_cb = cb.raw;
  stp = stp.value;
  cb = cb.value;
}

unfoldable pub parse_filenode_chunk_reference : ℕ → ℕ → M FileNodeChunkReference
unfolding parse_stp parse_cb
parse_filenode_chunk_reference stp_format cb_format = do
  stp ← parse_stp stp_format
  cb ← parse_cb cb_format
  pure (reference stp_format cb_format stp cb)

-- The format tables of the file format: the width of a field, and the unit that it counts in.
unfoldable pub stp_width : ℕ → ℕ
stp_width n = if n == 0 then 8 else if n == 2 then 2 else 4

unfoldable pub stp_unit : ℕ → ℕ
stp_unit n = if n == 2 then 8 else if n == 3 then 8 else 1

unfoldable pub cb_width : ℕ → ℕ
cb_width n = if n == 0 then 4 else if n == 1 then 8 else if n == 2 then 1 else 2

unfoldable pub cb_unit : ℕ → ℕ
cb_unit n = if n == 2 then 8 else if n == 3 then 8 else 1

unfoldable pub of_bytes : ℕ → ℕ → List ℕ → FileNodeChunkReference
of_bytes sf cf w =
    let raw_stp = little_endian (take (stp_width sf) w) in
    let raw_cb = little_endian (drop (stp_width sf) w) in
    record {
      stp_format = sf;
      cb_format = cf;
      raw_stp = raw_stp;
      raw_cb = raw_cb;
      stp = raw_stp * stp_unit sf;
      cb = raw_cb * cb_unit cf;
    }

-- What `plain` and `times_eight` make of a stored number.
abbrev scaled : ℕ → ℕ → Expanded
scaled unit raw = record { raw = raw; value = raw * unit }

module _ {n : ℕ} {f : List ℕ → ℕ} {m : M ℕ} where
  Reads-plain : Reads n f m → Reads n (λ w. scaled 1 (f w)) (plain m)
  unfolding plain
  Reads-plain p = Reads-cong (λ w. ground arith) (Reads-map (λ r. record { raw = r; value = r }) p)

  Reads-times_eight : Reads n f m → Reads n (λ w. scaled 8 (f w)) (times_eight m)
  unfolding times_eight
  Reads-times_eight p = Reads-map (scaled 8) p

Reads-parse_stp :
    (sf : ℕ)
    → sf < 4
    → Reads (stp_width sf) (λ w. scaled (stp_unit sf) (little_endian w)) (parse_stp sf)
unfolding parse_stp stp_width stp_unit
Reads-parse_stp zero h = Reads-plain Reads-read_u64
Reads-parse_stp (suc zero) h = Reads-plain Reads-read_u32
Reads-parse_stp (suc (suc zero)) h = Reads-times_eight Reads-read_u16
Reads-parse_stp (suc (suc (suc zero))) h = Reads-times_eight Reads-read_u32
Reads-parse_stp (suc (suc (suc (suc n)))) h = absurd (omega arith)

Reads-parse_cb :
    (cf : ℕ)
    → cf < 4
    → Reads (cb_width cf) (λ w. scaled (cb_unit cf) (little_endian w)) (parse_cb cf)
unfolding parse_cb cb_width cb_unit
Reads-parse_cb zero h = Reads-plain Reads-read_u32
Reads-parse_cb (suc zero) h = Reads-plain Reads-read_u64
Reads-parse_cb (suc (suc zero)) h = Reads-times_eight Reads-read_u8
Reads-parse_cb (suc (suc (suc zero))) h = Reads-times_eight Reads-read_u16
Reads-parse_cb (suc (suc (suc (suc n)))) h = absurd (omega arith)

-- For formats of two bits the parser takes exactly the bytes of the two widths and scales the
-- stored numbers by the units of the format tables; on fewer bytes it raises.
pub Reads-parse_filenode_chunk_reference :
    (sf cf : ℕ)
    → sf < 4
    → cf < 4
    → Reads (stp_width sf + cb_width cf) (of_bytes sf cf) (parse_filenode_chunk_reference sf cf)
unfolding parse_filenode_chunk_reference of_bytes
Reads-parse_filenode_chunk_reference sf cf hs hc =
    Reads-bind (Reads-parse_stp sf hs) λ a. Reads-map (reference sf cf a) (Reads-parse_cb cf hc)

-- On a valid reader and for formats of two bits, the reference is read from exactly the bytes of the
-- two widths, its numbers scaled by the units of the format tables; on fewer bytes there is an error.
pub parse_filenode_chunk_reference_lem :
    (sf cf : ℕ) (s : State)
    → sf < 4
    → cf < 4
    → IsValid s.reader
    → (Fits (stp_width sf + cb_width cf) s
        × (parse_filenode_chunk_reference sf cf s
            ≡ ok
                (of_bytes sf cf (window (stp_width sf + cb_width cf) s))
                (advance (stp_width sf + cb_width cf) s)))
      ⊎ ((s.reader.bounds.end < s.reader.pos + (stp_width sf + cb_width cf))
          × ((o : ℕ) × (parse_filenode_chunk_reference sf cf s ≡ err (out_of_bounds o) s.ctx)))
parse_filenode_chunk_reference_lem sf cf s hs hc v =
    Reads-cases (Reads-parse_filenode_chunk_reference sf cf hs hc) s v
