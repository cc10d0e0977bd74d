-- ===== src/Io/Endian.antt =====
-- The little-endian values of onestore/io.py, against the encoding that writers use.
use aspose_note_foss_for_pyt.Prelude.{
  ℕ, zero, suc, ◌+◌, ◌*◌, ◌/◌, ◌%◌, ◌^◌, ◌<◌, ◌≡◌, refl, ap, List, [], ◌∷◌, arith, All, length,
}
use native.Mathlib.Nat.{pow-suc}
use aspose_note_foss_for_pyt.Io.{IsByte, little_endian}

-- the `n` bytes of a number, lowest first
unfoldable pub le_bytes : ℕ → ℕ → List ℕ
le_bytes zero v = []
le_bytes (suc n) v = (v % 256) ∷ le_bytes n (v / 256)

pub length-le_bytes : (n v : ℕ) → length (le_bytes n v) ≡ n
unfolding le_bytes
length-le_bytes zero v = refl
length-le_bytes (suc n) v = ap suc (length-le_bytes n (v / 256))

pub little_endian-le_bytes : (n v : ℕ) → v < 256 ^ n → little_endian (le_bytes n v) ≡ v
unfolding little_endian le_bytes
little_endian-le_bytes zero v h = omega arith
little_endian-le_bytes (suc n) v h =
    omega (arith, little_endian-le_bytes n (v / 256) (div_below v n h))
  where
    div_below : (v n : ℕ) → v < 256 ^ suc n → v / 256 < 256 ^ n
    div_below v n h = omega (arith, pow-suc 256 n)

pub little_endian-lt : (w : List ℕ) → All IsByte w → little_endian w < 256 ^ length w
unfolding little_endian
little_endian-lt [] h = omega arith
little_endian-lt (b ∷ w) h = omega (arith, h.0, pow-suc 256 (length w), little_endian-lt w h.1)

pub le_bytes-little_endian : (w : List ℕ) → All IsByte w → le_bytes (length w) (little_endian w) ≡ w
unfolding little_endian le_bytes
le_bytes-little_endian [] h = refl
le_bytes-little_endian (b ∷ w) h = cc (low, high, le_bytes-little_endian w h.1)
  where
    low : (b + 256 * little_endian w) % 256 ≡ b
    low = omega (arith, h.0)

    high : (b + 256 * little_endian w) / 256 ≡ little_endian w
    high = omega (arith, h.0)
