-- ===== src/Io/Bits.antt =====
-- BinaryReader.unpack_bits of onestore/io.py, against packing by positional weights.
use aspose_note_foss_for_pyt.Prelude.{
  ℕ, zero, suc, ◌+◌, ◌*◌, ◌/◌, ◌%◌, ◌^◌, ◌<◌, ◌≡◌, refl, sym, ap, ◌∙◌, List, [], ◌∷◌, some, arith,
  All,
}
use native.Mathlib.Nat.{
  div-div-eq-div-mul, mod-add-div, mod-lt, pow-suc, add-zero, add_assoc, mod-eq_of_lt,
  add-mul-mod_self_left, add-mul-div_left, div-eq_of_lt, one-le-pow, div-one,
}
use Prim.Native.Nat.add
use aspose_note_foss_for_pyt.Io.{unpack_bits, unpack_bits_from, low_bits, shr}

-- the number whose fields, lowest first, are `fs`
unfoldable pub pack : List ℕ → List ℕ → ℕ
pack [] fs = 0
pack (w ∷ ws) [] = 0
pack (w ∷ ws) (f ∷ fs) = f + 2 ^ w * pack ws fs

unfoldable pub sum : List ℕ → ℕ
sum [] = 0
sum (w ∷ ws) = w + sum ws

-- one value for each width, and within it
abbrev pub FieldsFit : List ℕ → List ℕ → Type 0
FieldsFit [] [] = Unit
FieldsFit [] (f ∷ fs) = ⊥
FieldsFit (w ∷ ws) [] = ⊥
FieldsFit (w ∷ ws) (f ∷ fs) = (f < 2 ^ w) × FieldsFit ws fs

abbrev pub IsPositive : ℕ → Type 0
IsPositive w = 0 < w

pub pow-add : (a b : ℕ) → 2 ^ (a + b) ≡ 2 ^ a * 2 ^ b
pow-add zero b = rw add.zero (omega arith)
pow-add (suc a) b =
    rw (add.suc, pow-suc, pow-suc) (omega (arith, ap (λ (t : ℕ). t * 2) (pow-add a b)))

pow_pos : (w : ℕ) → 0 < 2 ^ w
pow_pos w = one-le-pow w 2 (omega arith)

-- Dropping `w` more bits, and the bits dropped.
shr_more : (v k w : ℕ) → v / 2 ^ (k + w) ≡ v / 2 ^ k / 2 ^ w
shr_more v k w = rw pow-add (sym (div-div-eq-div-mul v (2 ^ k) (2 ^ w)))

split_low : (q w : ℕ) → q ≡ q % 2 ^ w + 2 ^ w * (q / 2 ^ w)
split_low q w = sym (mod-add-div q (2 ^ w))

combine : (q low p q' u s r : ℕ) → q ≡ low + p * q' → q' ≡ u + s * r → q ≡ low + p * u + p * s * r
combine q low p q' u s r h k = omega (arith, ap (λ (t : ℕ). p * t) k)

module _ (value : ℕ) where
  unpack_from_fields :
      (shift : ℕ) (ws : List ℕ)
      → All IsPositive ws
      → (out : List ℕ) × (unpack_bits_from value shift ws ≡ some out)
        × FieldsFit ws out
        × (shr value shift ≡ pack ws out + 2 ^ sum ws * shr value (shift + sum ws))
  unfolding unpack_bits_from pack sum
  unpack_from_fields shift [] h = ([], refl, tt, rw add-zero (omega arith))
  unpack_from_fields shift (w ∷ ws) h =
      let (out, e, fits, eq) = unpack_from_fields (shift + w) ws h.1 in
      let q : ℕ = shr value shift in
      (
        low_bits q w ∷ out,
        ground (arith, e, h.0),
        (mod-lt q (pow_pos w), fits),
        rw (pow-add, ← add_assoc)
            (combine q (low_bits q w) (2 ^ w) (shr value (shift + w)) (pack ws out) (2 ^ sum ws)
              (shr value (shift + w + sum ws)) (rw shr_more (split_low q w)) eq),
      )

-- Fields within their widths pack into a number of the total width.
pack-lt : (ws fs : List ℕ) → FieldsFit ws fs → pack ws fs < 2 ^ sum ws
unfolding pack sum
pack-lt [] [] h = omega arith
pack-lt [] (f ∷ fs) h = absurd h
pack-lt (w ∷ ws) [] h = absurd h
pack-lt (w ∷ ws) (f ∷ fs) h =
    rw pow-add (weigh f (2 ^ w) (pack ws fs) (2 ^ sum ws) h.0 (pack-lt ws fs h.1))
  where
    weigh : (a b c d : ℕ) → a < b → c < d → a + b * c < b * d
    weigh a b c d p q = grind arith

low_part : (v p s r : ℕ) → p < s → v ≡ p + s * r → p ≡ v % s
low_part v p s r h e = rw e (rw add-mul-mod_self_left (sym (mod-eq_of_lt h)))

-- With positive widths the fields fit their widths, and together they are the value's low bits.
pub unpack_bits-pack :
    (value : ℕ) (ws : List ℕ)
    → All IsPositive ws
    → (out : List ℕ) × (unpack_bits value ws ≡ some out)
      × FieldsFit ws out
      × (pack ws out ≡ value % 2 ^ sum ws)
unfolding unpack_bits
unpack_bits-pack value ws h =
    let (out, e, fits, eq) = unpack_from_fields value 0 ws h in
    (
      out,
      e,
      fits,
      low_part value (pack ws out) (2 ^ sum ws) _ (pack-lt ws out fits) (sym (div-one value) ∙ eq),
    )

module _ (value : ℕ) where
  unpack_from-of_pack :
      (shift : ℕ) (ws fs : List ℕ) (r : ℕ)
      → All IsPositive ws
      → FieldsFit ws fs
      → shr value shift ≡ pack ws fs + 2 ^ sum ws * r
      → unpack_bits_from value shift ws ≡ some fs
  unfolding unpack_bits_from pack sum
  unpack_from-of_pack shift [] [] r h fits e = refl
  unpack_from-of_pack shift [] (f ∷ fs) r h fits e = absurd fits
  unpack_from-of_pack shift (w ∷ ws) [] r h fits e = absurd fits
  unpack_from-of_pack shift (w ∷ ws) (f ∷ fs) r h fits e =
      ground (arith, h.0, low, unpack_from-of_pack (shift + w) ws fs r h.1 fits.1 high)
    where
      whole : shr value shift ≡ f + 2 ^ w * (pack ws fs + 2 ^ sum ws * r)
      whole = rw pow-add at e ∙ omega arith

      low : low_bits (shr value shift) w ≡ f
      low = rw (whole, add-mul-mod_self_left) (mod-eq_of_lt fits.0)

      high : shr value (shift + w) ≡ pack ws fs + 2 ^ sum ws * r
      high =
          rw (shr_more, whole, add-mul-div_left _ _ (pow_pos w), div-eq_of_lt fits.0) (omega arith)

-- Unpacking is the inverse of packing fields that fit positive widths.
pub unpack_bits-of_pack :
    (ws fs : List ℕ) → All IsPositive ws → FieldsFit ws fs → unpack_bits (pack ws fs) ws ≡ some fs
unfolding unpack_bits
unpack_bits-of_pack ws fs h fits =
    unpack_from-of_pack (pack ws fs) 0 ws fs 0 h fits (rw div-one (omega arith))
