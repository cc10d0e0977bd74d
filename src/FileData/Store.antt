-- ===== src/FileData/Store.antt =====
-- Where the parts of an embedded file stand.
use aspose_note_foss_for_pyt.Prelude.{
  ℕ, ◌+◌, ◌-◌, ◌≤◌, ◌≡◌, ap, ◌∙◌, true, List, min, bytes_eq_iff, arith,
}
use aspose_note_foss_for_pyt.Io.{little_endian, Bounds}
use aspose_note_foss_for_pyt.Context.{ParseContext}
use aspose_note_foss_for_pyt.Parser.{State, ok}
use aspose_note_foss_for_pyt.Parser.Rules.{>>=-eq-ok}
use aspose_note_foss_for_pyt.Read.{slice_at, read_bytes, read_u64, read_u32}
use aspose_note_foss_for_pyt.FileData.{
  guid_header, guid_footer, FileDataStoreObject, read_object_header, read_padding,
  read_object_footer, read_padding_and_footer, read_file_data, parse_object,
}

-- the header of the object at the cursor
record HasHeader (s : State) (n : ℕ) (t : State) : Type 0 where
  header : slice_at s.reader.pos 16 s.reader ≡ guid_header
  size : n ≡ little_endian (slice_at (s.reader.pos + 16) 8 s.reader)
  buffer : t.reader.buffer ≡ s.reader.buffer
  bounds : t.reader.bounds ≡ s.reader.bounds
  pos : t.reader.pos ≡ s.reader.pos + 36
  strict : t.ctx.strict ≡ true

read_object_header-HasHeader :
    (start n : ℕ) (s t : State)
    → s.ctx.strict ≡ true
    → read_object_header start s ≡ ok n t
    → HasHeader s n t
unfolding read_object_header read_bytes read_u64 read_u32
read_object_header-HasHeader start n s t strict e =
    let same = bytes_eq_iff (slice_at s.reader.pos 16 s.reader) guid_header in
    record {
      header = ground (arith, same);
      size = ground arith;
      buffer = ground arith;
      bounds = ground arith;
      pos = ground arith;
      strict = ground arith;
    }

-- the padding up to the last 16 bytes
record HasPadding (s : State) (w : List ℕ) (t : State) : Type 0 where
  padding : w ≡ slice_at s.reader.pos (s.reader.bounds.end - 16 - s.reader.pos) s.reader
  few : s.reader.bounds.end ≤ s.reader.pos + 23
  fits : s.reader.pos + 16 ≤ s.reader.bounds.end
  buffer : t.reader.buffer ≡ s.reader.buffer
  bounds : t.reader.bounds ≡ s.reader.bounds
  pos : t.reader.pos ≡ s.reader.bounds.end - 16
  strict : t.ctx.strict ≡ true

read_padding-HasPadding :
    (padding : List ℕ) (s t : State)
    → s.ctx.strict ≡ true
    → read_padding s ≡ ok padding t
    → HasPadding s padding t
unfolding read_padding read_bytes
read_padding-HasPadding padding s t strict e =
    let few : s.reader.bounds.end ≤ s.reader.pos + 23 = ground arith in
    let fits : s.reader.pos + 16 ≤ s.reader.bounds.end = ground arith in
    let size : min 7 (s.reader.bounds.end - s.reader.pos - 16)
        ≡ s.reader.bounds.end - 16 - s.reader.pos =
      omega arith in
    record {
      padding = ground arith;
      few = few;
      fits = fits;
      buffer = ground arith;
      bounds = ground arith;
      pos = ground arith;
      strict = ground arith;
    }

read_object_footer-footer :
    (s t : State)
    → s.ctx.strict ≡ true
    → read_object_footer s ≡ ok tt t
    → slice_at s.reader.pos 16 s.reader ≡ guid_footer
unfolding read_object_footer read_bytes
read_object_footer-footer s t strict e =
    let same = bytes_eq_iff (slice_at s.reader.pos 16 s.reader) guid_footer in ground (arith, same)

read_data :
    (n : ℕ) (w : List ℕ) (s t : State)
    → read_bytes n s ≡ ok w t
    → (w ≡ slice_at s.reader.pos n s.reader)
      × (t.reader.buffer ≡ s.reader.buffer)
      × (t.reader.bounds ≡ s.reader.bounds)
      × (t.reader.pos ≡ s.reader.pos + n)
      × (t.ctx ≡ s.ctx)
unfolding read_bytes
read_data n w s t e = (ground arith, ground arith, ground arith, ground arith, ground arith)

-- what is behind the data
record HasTail (n : ℕ) (w : List ℕ) (s : State) (obj : FileDataStoreObject) : Type 0 where
  size : obj.cb_length ≡ n
  contents : obj.file_data ≡ w
  fits : s.reader.pos + 16 ≤ s.reader.bounds.end
  few : s.reader.bounds.end ≤ s.reader.pos + 23
  footer : slice_at (s.reader.bounds.end - 16) 16 s.reader ≡ guid_footer

read_padding_and_footer-HasTail :
    (n : ℕ) (w : List ℕ) (obj : FileDataStoreObject) (s t : State)
    → s.ctx.strict ≡ true
    → read_padding_and_footer n w s ≡ ok obj t
    → HasTail n w s obj
unfolding read_padding_and_footer
read_padding_and_footer-HasTail n w obj s t strict e =
    let (p, u, e1, rest1) = >>=-eq-ok read_padding _ s e in
    let (_, v, e2, rest2) = >>=-eq-ok read_object_footer _ u rest1 in
    let q = read_padding-HasPadding p s u strict e1 in
    let footer = read_object_footer-footer u v q.strict e2 in
    record {
      size = cc (rest2);
      contents = cc (rest2);
      fits = q.fits;
      few = q.few;
      footer = cc (footer, q.pos, q.buffer);
    }

-- the data and what is behind them
record HasData (n : ℕ) (s : State) (obj : FileDataStoreObject) : Type 0 where
  size : obj.cb_length ≡ n
  contents : obj.file_data ≡ slice_at s.reader.pos n s.reader
  fits : s.reader.pos + n + 16 ≤ s.reader.bounds.end
  few : s.reader.bounds.end ≤ s.reader.pos + n + 23
  footer : slice_at (s.reader.bounds.end - 16) 16 s.reader ≡ guid_footer

read_file_data-HasData :
    (n : ℕ) (obj : FileDataStoreObject) (s t : State)
    → s.ctx.strict ≡ true
    → read_file_data n s ≡ ok obj t
    → HasData n s obj
unfolding read_file_data
read_file_data-HasData n obj s t strict e =
    let (w, u, e1, rest) =
      >>=-eq-ok (read_bytes n) (read_padding_and_footer n) s {b = obj} {t = t} (ground arith) in
    let (read, buffer, bounds, pos, ctx) = read_data n w s u e1 in
    let same_end = ap (λ (b : Bounds). b.end) bounds in
    let tail =
      read_padding_and_footer-HasTail n w obj u t (ap (λ (c : ParseContext). c.strict) ctx ∙ strict)
        rest in
    record {
      size = tail.size;
      contents = tail.contents ∙ read;
      fits = omega (arith, tail.fits, pos, same_end);
      few = omega (arith, tail.few, pos, same_end);
      footer = cc (tail.footer, buffer, same_end);
    }

-- The bytes between the cursor and the end of the bounds are a header, the length of the data, twelve
-- bytes, the data, at most seven bytes and a footer.
pub record IsObject (s : State) (obj : FileDataStoreObject) : Type 0 where
  pub header : slice_at s.reader.pos 16 s.reader ≡ guid_header
  pub size : obj.cb_length ≡ little_endian (slice_at (s.reader.pos + 16) 8 s.reader)
  pub contents : obj.file_data ≡ slice_at (s.reader.pos + 36) obj.cb_length s.reader
  pub fits : s.reader.pos + 36 + obj.cb_length + 16 ≤ s.reader.bounds.end
  pub few : s.reader.bounds.end ≤ s.reader.pos + 36 + obj.cb_length + 23
  pub footer : slice_at (s.reader.bounds.end - 16) 16 s.reader ≡ guid_footer

-- In the strict mode an embedded file is read only where the bytes from the cursor to the end are those of
-- the format: a header GUID, the length, twelve bytes, as many bytes of data as the length says, at most
-- seven bytes of padding and a footer GUID; and the data are those bytes.
pub parse_object-IsObject :
    (obj : FileDataStoreObject) (s t : State)
    → s.ctx.strict ≡ true
    → parse_object s ≡ ok obj t
    → IsObject s obj
unfolding parse_object
parse_object-IsObject obj s t strict e =
    let (n, u, e1, rest) =
      >>=-eq-ok (read_object_header s.reader.pos) read_file_data s {b = obj} {t = t}
        (ground arith) in
    let h = read_object_header-HasHeader s.reader.pos n s u strict e1 in
    let d = read_file_data-HasData n obj u t h.strict rest in
    let same_end = ap (λ (b : Bounds). b.end) h.bounds in
    record {
      header = h.header;
      size = d.size ∙ h.size;
      contents = cc (d.contents, d.size, h.pos, h.buffer);
      fits = omega (arith, d.fits, d.size, h.pos, same_end);
      few = omega (arith, d.few, d.size, h.pos, same_end);
      footer = cc (d.footer, h.buffer, same_end);
    }
