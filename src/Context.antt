-- ===== src/Context.antt =====
-- onestore/errors.py and onestore/parse_context.py.
use aspose_note_foss_for_pyt.Prelude.{ℕ, String, Bool, Option, List, [], ◌∷◌, ◌++◌}

-- `OneStoreFormatError`, and the `ValueError` of the reader's own argument checks
pub data Error : Type 0 where
  format_error : String → Option ℕ → Error
  value_error : String → Error

pub record ParseWarning : Type 0 where
  pub message : String
  pub offset : Option ℕ

-- `path` is never read by the parsers, so it is left out
pub record ParseContext : Type 0 where
  pub strict : Bool
  pub warnings : List ParseWarning
  pub file_size : Option ℕ

-- ParseContext.warn
unfoldable pub warn_context : String → Option ℕ → ParseContext → ParseContext
warn_context m o c = record c { warnings = c.warnings ++ (record { message = m; offset = o } ∷ []) }
