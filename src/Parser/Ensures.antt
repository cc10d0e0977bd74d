-- ===== src/Parser/Ensures.antt =====
-- What holds of the results of a parser, whatever it reads.
use aspose_note_foss_for_pyt.Prelude.{◌≡◌, refl, Bool, true, false, if◌then◌else◌}
use aspose_note_foss_for_pyt.Context.{Error}
use aspose_note_foss_for_pyt.Io.{BinaryReader}
use aspose_note_foss_for_pyt.Parser.{State, M, ok, pure, raise, with_reader, ◌>>=◌}
use aspose_note_foss_for_pyt.Parser.Rules.{>>=-eq-ok, with_reader-ok}

-- every result of `m` has `P`
pub record Ensures {ℓ κ} {A : Type ℓ} (P : A → Type κ) (m : M A) : Type (ℓ ⊔ κ) where
  pub holds : (s t : State) (a : A) → m s ≡ ok a t → P a

pub Ensures-bind {ℓ κ ν μ} :
    {A : Type ℓ} {B : Type κ} {P : A → Type ν} {Q : B → Type μ} {m : M A} {f : A → M B}
    → Ensures P m
    → ((a : A) → P a → Ensures Q (f a))
    → Ensures Q (m >>= f)
Ensures-bind {m = m} {f = f} h g = record {
  holds =
      λ s t b e. let (a, u, e1, e2) = >>=-eq-ok m f s e in (g a (h.holds s u a e1)).holds u t b e2;
}

pub Ensures-any {ℓ κ} : {A : Type ℓ} {P : A → Type κ} {m : M A} → ((a : A) → P a) → Ensures P m
Ensures-any h = record { holds = λ s t a e. h a }

-- a step whose result does not matter
pub Ensures-after {ℓ κ μ} :
    {A : Type ℓ} {B : Type κ} {Q : B → Type μ} (m : M A) {f : A → M B}
    → ((a : A) → Ensures Q (f a))
    → Ensures Q (m >>= f)
Ensures-after m {f = f} g = record {
  holds = λ s t b e. let (a, u, e1, e2) = >>=-eq-ok m f s e in (g a).holds u t b e2;
}

pub Ensures-pure {ℓ κ} : {A : Type ℓ} {P : A → Type κ} (a : A) → P a → Ensures P (pure a)
Ensures-pure {P = P} a h = record { holds = λ s t b e. let same : b ≡ a = cc in rw same h }

pub Ensures-raise {ℓ κ} : {A : Type ℓ} {P : A → Type κ} (e : Error) → Ensures P (raise {A = A} e)
Ensures-raise e = record { holds = λ s t b h. cc }

pub Ensures-if {ℓ κ} :
    {A : Type ℓ} {P : A → Type κ} (b : Bool) {m m' : M A}
    → (b ≡ true → Ensures P m)
    → (b ≡ false → Ensures P m')
    → Ensures P (if b then m else m')
Ensures-if true h h' = h refl
Ensures-if false h h' = h' refl

pub Ensures-with_reader {ℓ κ} :
    {A : Type ℓ} {P : A → Type κ} (r : BinaryReader) {m : M A}
    → Ensures P m
    → Ensures P (with_reader r m)
Ensures-with_reader r {m = m} h = record {
  holds = λ s t a e. let (u, e1, e2) = with_reader-ok r m s e in h.holds _ u a e1;
}
