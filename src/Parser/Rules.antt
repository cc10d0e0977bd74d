-- ===== src/Parser/Rules.antt =====
-- Inversion of a step that succeeds or raises.
use aspose_note_foss_for_pyt.Io.{BinaryReader}
use aspose_note_foss_for_pyt.Prelude.{◌≡◌, refl, ◌⊎◌, inl, inr}
use aspose_note_foss_for_pyt.Context.{Error, ParseContext}
use aspose_note_foss_for_pyt.Parser.{
  State, Outcome, with_reader, back_to, ok, err, stuck, M, continue, ◌>>=◌,
}

module _ {ℓ κ} {A : Type ℓ} {B : Type κ} where
  pub continue-ok :
      (o : Outcome A) (f : A → M B) {b : B} {t : State}
      → continue o f ≡ ok b t
      → (a : A) × (u : State) × (o ≡ ok a u) × (f a u ≡ ok b t)
  continue-ok (ok a u) f h = (a, u, refl, h)
  continue-ok (err x c) f h = cc
  continue-ok stuck f h = cc

  pub >>=-eq-ok :
      (m : M A) (f : A → M B) (s : State) {b : B} {t : State}
      → (m >>= f) s ≡ ok b t
      → (a : A) × (u : State) × (m s ≡ ok a u) × (f a u ≡ ok b t)
  >>=-eq-ok m f s h = continue-ok (m s) f h

  continue-err :
      (o : Outcome A) (f : A → M B) {x : Error} {c : ParseContext}
      → continue o f ≡ err x c
      → (o ≡ err x c) ⊎ ((a : A) × (u : State) × (o ≡ ok a u) × (f a u ≡ err x c))
  continue-err (ok a u) f h = inr (a, u, refl, h)
  continue-err (err y d) f h = inl cc
  continue-err stuck f h = cc

  pub >>=-eq-err :
      (m : M A) (f : A → M B) (s : State) {x : Error} {c : ParseContext}
      → (m >>= f) s ≡ err x c
      → (m s ≡ err x c) ⊎ ((a : A) × (u : State) × (m s ≡ ok a u) × (f a u ≡ err x c))
  >>=-eq-err m f s h = continue-err (m s) f h

module _ {ℓ} {A : Type ℓ} where
  back_to-ok :
      (r : BinaryReader) (o : Outcome A) {a : A} {t : State}
      → back_to r o ≡ ok a t
      → (u : State) × (o ≡ ok a u) × (t ≡ record { reader = r; ctx = u.ctx })
  back_to-ok r (ok a u) h = (u, cc, cc)
  back_to-ok r (err x c) h = cc
  back_to-ok r stuck h = cc

  pub with_reader-ok :
      (r : BinaryReader) (m : M A) (s : State) {a : A} {t : State}
      → with_reader r m s ≡ ok a t
      → (u : State) × (m (record { reader = r; ctx = s.ctx }) ≡ ok a u)
        × (t ≡ record { reader = s.reader; ctx = u.ctx })
  with_reader-ok r m s h = back_to-ok s.reader (m (record { reader = r; ctx = s.ctx })) h
