-- ===== src/CommonTypes/ExtendedGuid.antt =====
-- ExtendedGUID of onestore/common_types.py. `to_uuid` and `as_str` only convert by the standard
-- library's UUID class and are left out.
use aspose_note_foss_for_pyt.Prelude.{
  ℕ, ◌≡◌, Bool, not, ◌&&◌, List, [], ◌∷◌, some, ◌==◌, take, drop, length,
}
use aspose_note_foss_for_pyt.Prelude.{bytes_eq}
use aspose_note_foss_for_pyt.Context.{format_error}
use aspose_note_foss_for_pyt.Io.{little_endian}
use aspose_note_foss_for_pyt.Parser.{M, pure, raise_if, ◌>>=◌, ◌>>◌}
use aspose_note_foss_for_pyt.Read.Cursor.{IsValid}
use aspose_note_foss_for_pyt.Read.Fields.{Reads-cases, Fits, window, advance, out_of_bounds}
use aspose_note_foss_for_pyt.Prelude.{◌+◌, ◌<◌, ◌⊎◌}
use aspose_note_foss_for_pyt.Parser.{State, ok, err}
use aspose_note_foss_for_pyt.Read.{read_bytes, read_u32}
use aspose_note_foss_for_pyt.Read.Fields.{
  Reads, Reads-pure, Reads-same, Reads-bind, Reads-bind_where, Reads-read_bytes, Reads-read_u32,
}

pub record ExtendedGuid : Type 0 where
  pub guid : List ℕ
  pub n : ℕ

-- the check on the length of what was read
abbrev check_length : List ℕ → M (Unit {0})
check_length guid s =
    raise_if (not (length guid == 16))
      (format_error "ExtendedGUID: invalid guid length" (some s.reader.pos)) s

unfoldable pub parse : M ExtendedGuid
unfolding read_bytes read_u32
parse = do
  guid ← read_bytes 16
  check_length guid
  n ← read_u32
  pure (record { guid = guid; n = n })

abbrev pub zero_guid : List ℕ
zero_guid = 0 ∷ 0 ∷ 0 ∷ 0 ∷ 0 ∷ 0 ∷ 0 ∷ 0 ∷ 0 ∷ 0 ∷ 0 ∷ 0 ∷ 0 ∷ 0 ∷ 0 ∷ 0 ∷ []

unfoldable pub is_zero : ExtendedGuid → Bool
is_zero g = bytes_eq g.guid zero_guid && g.n == 0

unfoldable pub of_bytes : List ℕ → ExtendedGuid
of_bytes w = record { guid = take 16 w; n = little_endian (take 4 (drop 16 w)) }

after_guid : (g : List ℕ) → M ExtendedGuid
after_guid g = do check_length g; n ← read_u32; pure (record { guid = g; n = n })

Reads-after_guid :
    (g : List ℕ)
    → length g ≡ 16
    → Reads 4 (λ w. record { guid = g; n = little_endian (take 4 w) }) (after_guid g)
unfolding after_guid
Reads-after_guid g h =
    Reads-same (λ s. rw h) (Reads-bind Reads-read_u32 λ n. Reads-pure (record { guid = g; n = n }))

-- The check on the length never fails: a valid reader gives out the 16 bytes asked for.
pub Reads-parse : Reads 20 of_bytes parse
unfolding parse of_bytes after_guid
Reads-parse =
    Reads-bind_where (λ g. length g ≡ 16) (λ w h. h.0) (Reads-read_bytes 16) Reads-after_guid

-- On a valid reader the check on the length of the guid never fails: 20 bytes are read as the guid
-- and its number, and fewer are an error.
pub extended_guid_lem :
    (s : State)
    → IsValid s.reader
    → (Fits 20 s × (parse s ≡ ok (of_bytes (window 20 s)) (advance 20 s)))
      ⊎ ((s.reader.bounds.end < s.reader.pos + 20)
          × ((o : ℕ) × (parse s ≡ err (out_of_bounds o) s.ctx)))
extended_guid_lem = Reads-cases Reads-parse
