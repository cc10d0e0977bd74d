-- ===== src/Parser/Strictly.antt =====
-- What holds of the results of a parser in the strict mode, where there are no warnings.
use aspose_note_foss_for_pyt.Prelude.{
  ◌≡◌, refl, ap, ◌∙◌, Bool, true, false, String, ℕ, Option, arith, if◌then◌else◌,
}
use aspose_note_foss_for_pyt.Context.{Error}
use aspose_note_foss_for_pyt.Parser.{
  State, M, ok, pure, raise, raise_if, violation_if, the_context, ◌>>=◌, ◌>>◌,
}
use aspose_note_foss_for_pyt.Parser.Rules.{>>=-eq-ok}

-- In the strict mode every result of `m` has `P`, and the state is as it was.
pub record Strictly {ℓ κ} {A : Type ℓ} (P : A → Type κ) (m : M A) : Type (ℓ ⊔ κ) where
  pub holds : (s t : State) (a : A) → s.ctx.strict ≡ true → m s ≡ ok a t → (t ≡ s) × P a

pub Strictly-bind {ℓ κ ν μ} :
    {A : Type ℓ} {B : Type κ} {P : A → Type ν} {Q : B → Type μ} {m : M A} {f : A → M B}
    → Strictly P m
    → ((a : A) → P a → Strictly Q (f a))
    → Strictly Q (m >>= f)
Strictly-bind {m = m} {f = f} h g = record {
  holds = λ s t b strict e.
      let (a, u, e1, e2) = >>=-eq-ok m f s e in
      let (same, p) = h.holds s u a strict e1 in
      let (same2, q) = (g a p).holds u t b (ap (λ (x : State). x.ctx.strict) same ∙ strict) e2 in
      (same2 ∙ same, q);
}

pub Strictly-pure {ℓ κ} : {A : Type ℓ} {P : A → Type κ} (a : A) → P a → Strictly P (pure a)
Strictly-pure {P = P} a h = record {
  holds = λ s t b strict e. let same : b ≡ a = cc in (cc, rw same h);
}

pub Strictly-raise {ℓ κ} : {A : Type ℓ} {P : A → Type κ} (e : Error) → Strictly P (raise {A = A} e)
Strictly-raise e = record { holds = λ s t b strict h. cc }

-- what is only a warning otherwise
pub Strictly-violation {ℓ κ} :
    {A : Type ℓ} {P : A → Type κ} (message : String) (offset : Option ℕ) (m : M A)
    → Strictly P (violation_if true message offset >> m)
Strictly-violation message offset m = record { holds = λ s t b strict h. ground arith }

pub Strictly-raise_if : (b : Bool) (e : Error) → Strictly (λ _. b ≡ false) (raise_if b e)
Strictly-raise_if b e = record { holds = λ s t u strict h. (ground arith, ground arith) }

pub Strictly-violation_if :
    (b : Bool) (message : String) (offset : Option ℕ)
    → Strictly (λ _. b ≡ false) (violation_if b message offset)
Strictly-violation_if b message offset = record {
  holds = λ s t u strict h. (ground arith, ground arith);
}

pub Strictly-if {ℓ κ} :
    {A : Type ℓ} {P : A → Type κ} (b : Bool) {m m' : M A}
    → (b ≡ true → Strictly P m)
    → (b ≡ false → Strictly P m')
    → Strictly P (if b then m else m')
Strictly-if true h h' = h refl
Strictly-if false h h' = h' refl

pub Strictly-map {ℓ κ ν} :
    {A : Type ℓ} {P : A → Type κ} {Q : A → Type ν} {m : M A}
    → Strictly P m
    → ((a : A) → P a → Q a)
    → Strictly Q m
Strictly-map h g = record {
  holds = λ s t a strict e. let (same, p) = h.holds s t a strict e in (same, g a p);
}

pub Strictly-the_context : Strictly (λ _. Unit {0}) the_context
Strictly-the_context = record { holds = λ s t a strict e. (cc, tt) }
