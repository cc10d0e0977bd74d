-- ===== src/CommonTypes/StorageString.antt =====
-- StringInStorageBuffer of onestore/common_types.py. `decode` calls the standard library's UTF-16
-- decoder and is left out.
use aspose_note_foss_for_pyt.Prelude.{ℕ, ◌*◌, List}
use aspose_note_foss_for_pyt.Parser.{M, pure, ◌>>=◌}
use aspose_note_foss_for_pyt.Read.{read_bytes, read_u32}

pub record StringInStorageBuffer : Type 0 where
  pub cch : ℕ
  pub raw_utf16le : List ℕ

unfoldable pub parse : M StringInStorageBuffer
unfolding read_bytes read_u32
parse = do
  cch ← read_u32
  raw ← read_bytes (cch * 2)
  pure (record { cch = cch; raw_utf16le = raw })
