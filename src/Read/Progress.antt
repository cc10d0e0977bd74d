-- ===== src/Read/Progress.antt =====
-- Parsers that move the cursor of onestore/io.py forward, and the rules to compose them: loops and
-- recursions over a reader end because of this.
use aspose_note_foss_for_pyt.Prelude.{
  ℕ, ◌+◌, ◌≤◌, ◌<◌, ◌≡◌, ◌≢◌, refl, ap, Bool, true, false, String, Option, arith, if◌then◌else◌,
}
use aspose_note_foss_for_pyt.Context.{Error}
use aspose_note_foss_for_pyt.Io.{BinaryReader, Bounds}
use aspose_note_foss_for_pyt.Parser.{
  State, M, Outcome, ok, err, stuck, pure, raise, raise_if, violation_if, continue, ◌>>=◌,
}
use aspose_note_foss_for_pyt.Read.{tell, remaining, read_bytes, read_u16, read_u32}
use aspose_note_foss_for_pyt.Read.Cursor.{IsValid}

-- `k` bytes further on in the same bounds
pub record Further (k : ℕ) (r q : BinaryReader) : Type 0 where
  pub valid : IsValid q
  pub bounds : q.bounds ≡ r.bounds
  pub moved : r.pos + k ≤ q.pos

pub Further-trans :
    (a b c : ℕ) (r q p : BinaryReader) → c ≤ a + b → Further a r q → Further b q p → Further c r p
Further-trans a b c r q p e h k = record {
  valid = k.valid;
  bounds = cc;
  moved = omega (arith, h.moved, k.moved);
}

-- an outcome that is not `stuck`, and leaves a reader that has moved
abbrev pub After {ℓ} : {A : Type ℓ} → ℕ → BinaryReader → Outcome A → Type 0
After k r (ok a t) = Further k r t.reader
After k r (err e c) = Unit
After k r stuck = ⊥

pub After-bind {ℓ κ} :
    {A : Type ℓ} {B : Type κ} {k : ℕ} {r : BinaryReader} (o : Outcome A) (f : A → M B)
    → After k r o
    → ((a : A) (t : State) → Further k r t.reader → After k r (f a t))
    → After k r (continue o f)
After-bind (ok a t) f h g = g a t h
After-bind (err e c) f h g = tt
After-bind stuck f h g = absurd h

pub continue-ne-stuck {ℓ κ} :
    {A : Type ℓ} {B : Type κ} {k : ℕ} {r : BinaryReader} (o : Outcome A) (f : A → M B)
    → After k r o
    → ((a : A) (t : State) → Further k r t.reader → f a t ≢ stuck)
    → continue o f ≢ stuck
continue-ne-stuck (ok a t) f h g = g a t h
continue-ne-stuck (err e c) f h g = λ q. cc
continue-ne-stuck stuck f h g = absurd h

After-ne-stuck {ℓ} :
    {A : Type ℓ} (k : ℕ) (r : BinaryReader) (o : Outcome A) → After k r o → o ≢ stuck
After-ne-stuck k r (ok a t) h = λ q. cc
After-ne-stuck k r (err e c) h = λ q. cc
After-ne-stuck k r stuck h = absurd h

After-trans {ℓ} :
    {A : Type ℓ} (a b c : ℕ) (r q : BinaryReader) (o : Outcome A)
    → c ≤ a + b
    → Further a r q
    → After b q o
    → After c r o
After-trans a b c r q (ok x u) e h p = Further-trans a b c r q u.reader e h p
After-trans a b c r q (err x d) e h p = tt
After-trans a b c r q stuck e h p = absurd p

-- With fewer than `n` bytes left in a valid reader, `m` gives a result or raises, and takes at least
-- `k` bytes.
pub record Goes {ℓ} {A : Type ℓ} (n k : ℕ) (m : M A) : Type ℓ where
  pub after :
      (s : State)
      → IsValid s.reader
      → s.reader.bounds.end < n + s.reader.pos
      → After k s.reader (m s)

pub Goes-ne-stuck {ℓ} :
    {A : Type ℓ} (n k : ℕ) (m : M A) (s : State)
    → Goes n k m
    → IsValid s.reader
    → s.reader.bounds.end < n + s.reader.pos
    → m s ≢ stuck
Goes-ne-stuck n k m s g v h = After-ne-stuck k s.reader _ (g.after s v h)

After-then {ℓ κ} :
    {A : Type ℓ} {B : Type κ} (n k j i : ℕ) (s : State) (o : Outcome A) (f : A → M B)
    → s.reader.bounds.end < k + n + s.reader.pos
    → i ≤ k + j
    → After k s.reader o
    → ((a : A) → Goes n j (f a))
    → After i s.reader (continue o f)
After-then n k j i s (ok a t) f e d h g =
    After-trans k j i s.reader t.reader (f a t) d h
      ((g a).after t h.valid (omega (arith, h.moved, e, ap (λ (b : Bounds). b.end) h.bounds)))
After-then n k j i s (err x c) f e d h g = tt
After-then n k j i s stuck f e d h g = absurd h

-- The rules: a step that takes `k` bytes leaves less for what follows.
pub Goes-bind {ℓ κ} :
    {A : Type ℓ} {B : Type κ} (l k j : ℕ) {n i : ℕ} {m : M A} {f : A → M B}
    → n ≤ k + l
    → i ≤ k + j
    → Goes n k m
    → ((a : A) → Goes l j (f a))
    → Goes n i (m >>= f)
Goes-bind l k j {i = i} {m = m} {f = f} c d h g = record {
  after = λ s v e. After-then l k j i s (m s) f (omega arith) d (h.after s v e) g;
}

pub Goes-then {ℓ κ} :
    {A : Type ℓ} {B : Type κ} {n j : ℕ} {m : M A} {f : A → M B}
    → Goes n 0 m
    → ((a : A) → Goes n j (f a))
    → Goes n j (m >>= f)
Goes-then {n = n} {j = j} h g = Goes-bind n 0 j (omega arith) (omega arith) h g

pub Goes-pure {ℓ} : {A : Type ℓ} {n : ℕ} (a : A) → Goes n 0 (pure a)
Goes-pure a = record { after = λ s v h. record { valid = v; bounds = refl; moved = omega arith } }

pub Goes-raise {ℓ} : {A : Type ℓ} {n k : ℕ} (e : Error) → Goes n k (raise {A = A} e)
Goes-raise e = record { after = λ s v h. tt }

pub Goes-if {ℓ} :
    {A : Type ℓ} {n k : ℕ} (b : Bool) {m m' : M A}
    → Goes n k m
    → Goes n k m'
    → Goes n k (if b then m else m')
Goes-if true h h' = h
Goes-if false h h' = h'

pub Goes-raise_if : {n : ℕ} (b : Bool) (e : Error) → Goes n 0 (raise_if b e)
Goes-raise_if b e = record { after = λ s v h. ground arith }

pub Goes-violation_if :
    {n : ℕ} (b : Bool) (e : String) (o : Option ℕ) → Goes n 0 (violation_if b e o)
Goes-violation_if b e o = record { after = λ s v h. ground arith }

pub Goes-tell : {n : ℕ} → Goes n 0 tell
unfolding tell
Goes-tell = record { after = λ s v h. ground arith }

pub Goes-remaining : {n : ℕ} → Goes n 0 remaining
unfolding remaining
Goes-remaining = record { after = λ s v h. ground arith }

pub Goes-read_bytes : {n : ℕ} (k : ℕ) → Goes n 0 (read_bytes k)
unfolding read_bytes
Goes-read_bytes k = record { after = λ s v h. ground arith }

pub Goes-read_u16 : {n : ℕ} → Goes n 2 read_u16
unfolding read_u16
Goes-read_u16 = record { after = λ s v h. ground arith }

pub Goes-read_u32 : {n : ℕ} → Goes n 0 read_u32
unfolding read_u32
Goes-read_u32 = record { after = λ s v h. ground arith }

pub Goes-first {ℓ κ} :
    {A : Type ℓ} {B : Type κ} {n k : ℕ} {m : M A} {f : A → M B}
    → Goes n k m
    → ((a : A) → Goes n 0 (f a))
    → Goes n k (m >>= f)
Goes-first {n = n} {k = k} h g = Goes-bind n k 0 (omega arith) (omega arith) h g

-- the rules for parsers whose progress does not matter
pub ruleset goes = (
  Goes-then, Goes-pure, Goes-raise, Goes-if, Goes-raise_if, Goes-violation_if, Goes-tell,
  Goes-remaining, Goes-read_bytes, Goes-read_u32,
)
