-- ===== src/Read/Fields.antt =====
-- What a parser of a fixed number of bytes does, and the rules to compose such parsers.
use aspose_note_foss_for_pyt.Prelude.{
  ℕ, ◌+◌, ◌≤◌, ◌<◌, ◌≡◌, refl, ap, ◌∙◌, List, ◌⊎◌, inl, inr, some, lt→ltb, ge→ltb, take, drop,
  drop-drop, take-take, drop-take, arith, length, length-take, length-drop, All, All-take, All-drop,
}
use native.Mathlib.Nat.{add_assoc}
use aspose_note_foss_for_pyt.Context.{Error, format_error}
use aspose_note_foss_for_pyt.Io.{little_endian, IsByte}
use aspose_note_foss_for_pyt.Read.Cursor.{IsValid}
use aspose_note_foss_for_pyt.Parser.{State, ok, err, M, pure, ◌>>=◌}
use aspose_note_foss_for_pyt.Read.{
  move, slice_at, skip, read_bytes, read_struct, read_u8, read_u16, read_u32, read_u64,
}
use native.Mathlib.Decide.{dec_le}

-- the next `n` bytes lie inside the reader's bounds; the bytes; the cursor behind them
abbrev pub Fits : ℕ → State → Type 0
Fits n s = s.reader.pos + n ≤ s.reader.bounds.end

abbrev pub window : ℕ → State → List ℕ
window n s = slice_at s.reader.pos n s.reader

abbrev pub advance : ℕ → State → State
advance n s = move (s.reader.pos + n) s

abbrev pub out_of_bounds : ℕ → Error
out_of_bounds o = format_error "Read out of bounds" (some o)

-- `m` is a field of `n` bytes with the value `f` of them: on `n` bytes or more it succeeds, takes
-- exactly `n` and changes nothing else; on fewer it raises, at an offset inside the bounds.
pub record Reads {ℓ} {A : Type ℓ} (n : ℕ) (f : List ℕ → A) (m : M A) : Type ℓ where
  pub enough : (s : State) → IsValid s.reader → Fits n s → m s ≡ ok (f (window n s)) (advance n s)
  pub short :
      (s : State)
      → IsValid s.reader
      → s.reader.bounds.end < s.reader.pos + n
      → (o : ℕ) × (m s ≡ err (out_of_bounds o) s.ctx) × (o ≤ s.reader.bounds.end)

Fits-cases : (n : ℕ) (s : State) → Fits n s ⊎ (s.reader.bounds.end < s.reader.pos + n)
Fits-cases n s = elim (dec_le (s.reader.pos + n) s.reader.bounds.end) [
  | yes h ↦ inl h
  | no h ↦ inr (omega arith)
]

pub Reads-pure {ℓ} : {A : Type ℓ} (a : A) → Reads 0 (λ _. a) (pure a)
Reads-pure a = record {
  enough = λ s v h. ap (λ p. ok a (move p s)) (omega arith);
  short = λ s v k. absurd (omega (arith, v.pos_le));
}

window_head : (n k : ℕ) (s : State) → take n (window (n + k) s) ≡ window n s
window_head n k s = take-take n k _

window_tail : (n k : ℕ) (s : State) → drop n (window (n + k) s) ≡ window k (advance n s)
window_tail n k s = rw (drop-take, drop-drop) refl

pub advance-advance : (n k : ℕ) (s : State) → advance k (advance n s) ≡ advance (n + k) s
advance-advance n k s = ap (λ p. move p s) (add_assoc s.reader.pos n k)

pub advance-IsValid :
    (n : ℕ) (s : State) → IsValid s.reader → Fits n s → IsValid (advance n s).reader
advance-IsValid n s v h = record {
  start_le = omega (arith, v.start_le);
  pos_le = h;
  end_le = v.end_le;
  bytes = v.bytes;
}

-- The bytes that a valid reader gives out are as many as asked for.
pub length-window : (n : ℕ) (s : State) → IsValid s.reader → Fits n s → length (window n s) ≡ n
length-window n s v h = omega (
  arith,
  v.end_le,
  length-take n (drop s.reader.pos s.reader.buffer),
  length-drop s.reader.pos s.reader.buffer,
)

pub window-IsByte : (n : ℕ) (s : State) → IsValid s.reader → All IsByte (window n s)
window-IsByte n s v = All-take IsByte n _ (All-drop IsByte s.reader.pos _ v.bytes)

-- what is known of the bytes that a field of `n` bytes is given
abbrev pub IsField : ℕ → List ℕ → Type 0
IsField n w = (length w ≡ n) × All IsByte w

module _ {ℓ κ μ} {A : Type ℓ} {B : Type κ} {n k : ℕ} {f : List ℕ → A} {g : A → List ℕ → B} where
  -- The second parser may rely on `P`, which holds of what the first makes of `n` bytes.
  pub Reads-bind_where :
      {m : M A} {h : A → M B} (P : A → Type μ)
      → ((w : List ℕ) → IsField n w → P (f w))
      → Reads n f m
      → ((a : A) → P a → Reads k (g a) (h a))
      → Reads (n + k) (λ w. g (f (take n w)) (drop n w)) (m >>= h)
  Reads-bind_where {m} {h} P holds p q = record {
    enough = λ s v fits.
        let first : Fits n s = omega arith in
        let r =
          q (f (window n s))
            (holds (window n s) (length-window n s v first, window-IsByte n s v)) in
        rw (p.enough s v first, window_head, window_tail, ← advance-advance n k s)
          (r.enough (advance n s) (advance-IsValid n s v first) (omega arith));
    short = λ s v small. elim (Fits-cases n s) [
      | inl first ↦
          let r =
            q (f (window n s))
              (holds (window n s) (length-window n s v first, window-IsByte n s v)) in
          rw (p.enough s v first)
            (r.short (advance n s) (advance-IsValid n s v first) (omega arith))
      | inr less ↦ let (o, e, le) = p.short s v less in (o, rw e, le)
    ];
  }

module _ {ℓ κ} {A : Type ℓ} {B : Type κ} {n k : ℕ} {f : List ℕ → A} {g : A → List ℕ → B} where
  pub Reads-bind :
      {m : M A} {h : A → M B}
      → Reads n f m
      → ((a : A) → Reads k (g a) (h a))
      → Reads (n + k) (λ w. g (f (take n w)) (drop n w)) (m >>= h)
  Reads-bind p q = Reads-bind_where (λ _. Unit {0}) (λ w h. tt) p (λ a _. q a)

module _ {ℓ κ} {A : Type ℓ} {B : Type κ} {n : ℕ} {f : List ℕ → A} {m : M A} where
  pub Reads-map : (g : A → B) → Reads n f m → Reads n (λ w. g (f w)) (do a ← m; pure (g a))
  Reads-map g p = record {
    enough = λ s v fits. rw (p.enough s v fits);
    short = λ s v small. let (o, e, le) = p.short s v small in (o, rw e, le);
  }

pub Reads-cong {ℓ} :
    {A : Type ℓ} {n : ℕ} {f g : List ℕ → A} {m : M A}
    → ((w : List ℕ) → f w ≡ g w)
    → Reads n f m
    → Reads n g m
Reads-cong {n} e p = record {
  enough = λ s v fits. rw (← e (window n s)) (p.enough s v fits);
  short = p.short;
}

pub Reads-read_bytes : (n : ℕ) → Reads n (λ w. w) (read_bytes n)
unfolding read_bytes
Reads-read_bytes n = record {
  enough = λ s v h. rw (ge→ltb _ _ h);
  short = λ s v k. (s.reader.pos, rw (lt→ltb _ _ k), v.pos_le);
}

pub Reads-read_struct : (n : ℕ) → Reads n little_endian (read_struct n)
unfolding read_struct
Reads-read_struct n = record {
  enough = λ s v h. rw (ge→ltb _ _ h);
  short = λ s v k. (s.reader.pos, rw (lt→ltb _ _ k), v.pos_le);
}

pub Reads-skip : (n : ℕ) → Reads n (λ _. tt) (skip n)
unfolding skip
Reads-skip n = record {
  enough = λ s v h. rw (ge→ltb _ _ h);
  short = λ s v k. (s.reader.pos, rw (lt→ltb _ _ k), v.pos_le);
}

pub Reads-read_u8 : Reads 1 little_endian read_u8
unfolding read_u8
Reads-read_u8 = Reads-read_struct 1

pub Reads-read_u16 : Reads 2 little_endian read_u16
unfolding read_u16
Reads-read_u16 = Reads-read_struct 2

pub Reads-read_u32 : Reads 4 little_endian read_u32
unfolding read_u32
Reads-read_u32 = Reads-read_struct 4

pub Reads-read_u64 : Reads 8 little_endian read_u64
unfolding read_u64
Reads-read_u64 = Reads-read_struct 8

pub Reads-same {ℓ} :
    {A : Type ℓ} {n : ℕ} {f : List ℕ → A} {m m' : M A}
    → ((s : State) → m s ≡ m' s)
    → Reads n f m'
    → Reads n f m
Reads-same e p = record {
  enough = λ s v fits. e s ∙ p.enough s v fits;
  short = λ s v small. let (o, x, le) = p.short s v small in (o, e s ∙ x, le);
}

-- A parser that reads a field, on a valid reader: it returns what the bytes stand for and moves
-- behind them, or finds too few bytes and changes nothing.
pub Reads-cases {ℓ} :
    {A : Type ℓ} {n : ℕ} {f : List ℕ → A} {m : M A}
    → Reads n f m
    → (s : State) → IsValid s.reader
    → (Fits n s × (m s ≡ ok (f (window n s)) (advance n s)))
      ⊎ ((s.reader.bounds.end < s.reader.pos + n) × ((o : ℕ) × (m s ≡ err (out_of_bounds o) s.ctx)))
Reads-cases r s v = elim (Fits-cases _ s) [
  | inl h ↦ inl (h, r.enough s v h)
  | inr less ↦ let (o, e, _) = r.short s v less in inr (less, (o, e))
]
