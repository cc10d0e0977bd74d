-- ===== src/Parser.antt =====
-- The monad of the parsing functions: a cursor and a context that calls change, exceptions, and
-- recursion on fuel.
pub mod Rules
pub mod Ensures
pub mod Strictly
use aspose_note_foss_for_pyt.Prelude.{
  ℕ, ◌≡◌, String, Bool, true, false, Option, some, if◌then◌else◌,
}
use aspose_note_foss_for_pyt.Context.{Error, format_error, value_error, ParseContext, warn_context}
use aspose_note_foss_for_pyt.Io.{BinaryReader}

pub record State : Type 0 where
  pub reader : BinaryReader
  pub ctx : ParseContext

-- What a call leaves behind: a value with the new state, an exception with the context, which the
-- caller still holds, or nothing within the fuel.
pub data Outcome {ℓ} (A : Type ℓ) : Type ℓ where
  ok : A → State → Outcome A
  err : Error → ParseContext → Outcome A
  stuck : Outcome A

abbrev pub M {ℓ} : Type ℓ → Type ℓ
M A = State → Outcome A

abbrev pub pure {ℓ} : {A : Type ℓ} → A → M A
pure a s = ok a s

abbrev pub raise {ℓ} : {A : Type ℓ} → Error → M A
raise e s = err e s.ctx

-- out of fuel
abbrev pub out_of_fuel {ℓ} : {A : Type ℓ} → M A
out_of_fuel s = stuck

abbrev pub continue {ℓ κ} : {A : Type ℓ} {B : Type κ} → Outcome A → (A → M B) → Outcome B
continue (ok a s) f = f a s
continue (err e c) f = err e c
continue stuck f = stuck

infixl 5 ◌>>=◌ ◌>>◌
abbrev pub ◌>>=◌ {ℓ κ} : {A : Type ℓ} {B : Type κ} → M A → (A → M B) → M B
◌>>=◌ m f s = continue (m s) f

abbrev pub ◌>>◌ {ℓ} : {B : Type ℓ} → M (Unit {0}) → M B → M B
m >> k = m >>= λ _. k

-- if b: raise e
abbrev pub raise_if : Bool → Error → M (Unit {0})
raise_if b e s = if b then err e s.ctx else ok tt s

-- ctx.warn(message, offset=offset)
abbrev pub warn : String → Option ℕ → M (Unit {0})
warn m o s = ok tt (record s { ctx = warn_context m o s.ctx })

-- if b: ctx.warn(message, offset=offset)
abbrev pub warn_if : Bool → String → Option ℕ → M (Unit {0})
warn_if b m o s = if b then warn m o s else ok tt s

-- if b: raise in strict mode, warn otherwise
abbrev pub violation_if : Bool → String → Option ℕ → M (Unit {0})
violation_if b m o s =
    if b then (if s.ctx.strict then err (format_error m o) s.ctx else warn m o s) else ok tt s

-- the reader and the context as they stand
abbrev pub the_reader : M BinaryReader
the_reader s = ok s.reader s

abbrev pub the_context : M ParseContext
the_context s = ok s.ctx s

-- `m` on a reader of its own: afterwards the caller's reader stands where it stood
abbrev pub back_to {ℓ} : {A : Type ℓ} → BinaryReader → Outcome A → Outcome A
back_to r (ok a s) = ok a (record { reader = r; ctx = s.ctx })
back_to r (err e c) = err e c
back_to r stuck = stuck

abbrev pub with_reader {ℓ} : {A : Type ℓ} → BinaryReader → M A → M A
with_reader r m s = back_to s.reader (m (record { reader = r; ctx = s.ctx }))

-- try: m; except OneStoreFormatError as e: h(str(e)), where the reader of `m` is not used again. The
-- text leaves out the offset, which `str` adds where there is one.
abbrev pub caught {ℓ} : {A : Type ℓ} → State → Outcome A → (String → M A) → Outcome A
caught s (ok a t) h = ok a t
caught s (err (format_error m o) c) h = h m (record s { ctx = c })
caught s (err (value_error m) c) h = err (value_error m) c
caught s stuck h = stuck

abbrev pub catch_format_error {ℓ} : {A : Type ℓ} → M A → (String → M A) → M A
catch_format_error m h s = caught s (m s) h
