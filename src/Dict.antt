-- ===== src/Dict.antt =====
-- Python's `dict` with integer keys. The program never relies on the order of entries, so a
-- dictionary is read by `get` only.
use aspose_note_foss_for_pyt.Prelude.{
  ℕ, ◌≡◌, refl, Option, none, some, List, [], ◌∷◌, ◌++◌, ◌==◌, arith, if◌then◌else◌,
}

abbrev pub Dict {ℓ} : Type ℓ → Type ℓ
Dict V = List (ℕ × V)

module _ {ℓ} {V : Type ℓ} where
  -- d.get(k)
  unfoldable pub get : Dict V → ℕ → Option V
  get [] k = none
  get ((j, v) ∷ d) k = if j == k then some v else get d k

  -- d[k] = v
  unfoldable pub put : ℕ → V → Dict V → Dict V
  put k v d = (k, v) ∷ d

  -- d.update(e)
  unfoldable pub update : Dict V → Dict V → Dict V
  update d e = e ++ d

  pub get-put :
      (k : ℕ) (v : V) (d : Dict V) (j : ℕ)
      → get (put k v d) j ≡ (if k == j then some v else get d j)
  unfolding get put
  get-put k v d j = refl

  -- `o`, or `p` where there is none
  abbrev pub or_else : Option V → Option V → Option V
  or_else none p = p
  or_else (some v) p = some v

  pub get-update : (d e : Dict V) (j : ℕ) → get (update d e) j ≡ or_else (get e j) (get d j)
  unfolding get update
  get-update d [] j = refl
  get-update d ((k, v) ∷ e) j = ground (arith, get-update d e j)
