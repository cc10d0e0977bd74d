-- ===== src/ObjectSpace/Items.antt =====
-- The items of a global id table in the order of their indices.
use aspose_note_foss_for_pyt.Prelude.{
  ℕ, ◌<◌, ◌≡◌, ◌≢◌, refl, ap, ◌∙◌, some, List, [], ◌∷◌, leb, ◌==◌, All, arith, if◌then◌else◌,
  Bool-cases, inl, inr,
}
use aspose_note_foss_for_pyt.Dict
use aspose_note_foss_for_pyt.Dict.{Dict}
use aspose_note_foss_for_pyt.ObjectSpace.Gids.{insert_item, sorted_gid_table_items}
use aspose_note_foss_for_pyt.ObjectSpace.Tables.{IsGidTable}

abbrev Item : Type 0
Item = ℕ × List ℕ

-- every index is below those behind it
unfoldable pub IsAscending : List (ℕ × List ℕ) → Type 0
IsAscending [] = Unit
IsAscending (x ∷ xs) = All (λ (y : ℕ × List ℕ). x.0 < y.0) xs × IsAscending xs

All-insert_item :
    (P : Item → Type 0) (x : Item) (ys : List Item) → P x → All P ys → All P (insert_item x ys)
unfolding insert_item
All-insert_item P x [] p h = (p, tt)
All-insert_item P x (y ∷ ys) p (q, h) = elim (Bool-cases (leb x.0 y.0)) [
  | inl e ↦ rw (e, insert_item) (p, (q, h))
  | inr e ↦ rw (e, insert_item) (q, All-insert_item P x ys p h)
]

All-below :
    (i j : ℕ) (ys : List Item)
    → i < j
    → All (λ (y : Item). j < y.0) ys
    → All (λ (y : Item). i < y.0) ys
All-below i j [] less h = tt
All-below i j (y ∷ ys) less (q, h) = (omega (arith, q, less), All-below i j ys less h)

insert_item-IsAscending :
    (x : Item) (ys : List Item)
    → All (λ (y : Item). y.0 ≢ x.0) ys
    → IsAscending ys
    → IsAscending (insert_item x ys)
unfolding insert_item IsAscending
insert_item-IsAscending x [] other h = (tt, tt)
insert_item-IsAscending x (y ∷ ys) (o, other) (q, h) = elim (Bool-cases (leb x.0 y.0)) [
  | inl e ↦
      let less : x.0 < y.0 = ground (arith, o) in
      rw (e, insert_item) ((less, All-below x.0 y.0 ys less q), (q, h))
  | inr e ↦
      let less : y.0 < x.0 = ground arith in
      rw (e, insert_item)
        (
          All-insert_item (λ (z : Item). y.0 < z.0) x ys less q,
          insert_item-IsAscending x ys other h,
        )
]

get-insert_item :
    (x : Item) (ys : List Item) (k : ℕ)
    → All (λ (y : Item). y.0 ≢ x.0) ys
    → Dict.get (insert_item x ys) k ≡ Dict.get (x ∷ ys) k
unfolding insert_item Dict.get
get-insert_item x [] k other = refl
get-insert_item x (y ∷ ys) k (o, other) = ground (arith, o, get-insert_item x ys k other)

sorted-others :
    (k : ℕ) (d : Dict (List ℕ))
    → All (λ (y : Item). y.0 ≢ k) d
    → All (λ (y : Item). y.0 ≢ k) (sorted_gid_table_items d)
unfolding sorted_gid_table_items
sorted-others k [] h = tt
sorted-others k (x ∷ d) (o, h) =
    All-insert_item (λ (y : Item). y.0 ≢ k) x (sorted_gid_table_items d) o (sorted-others k d h)

sorted-IsAscending : (d : Dict (List ℕ)) → IsGidTable d → IsAscending (sorted_gid_table_items d)
unfolding sorted_gid_table_items IsGidTable IsAscending
sorted-IsAscending [] h = tt
sorted-IsAscending ((k, g) ∷ d) (_, other, _, h) =
    insert_item-IsAscending (k, g) (sorted_gid_table_items d) (sorted-others k d other)
      (sorted-IsAscending d h)

get-sorted :
    (d : Dict (List ℕ)) (j : ℕ)
    → IsGidTable d
    → Dict.get (sorted_gid_table_items d) j ≡ Dict.get d j
unfolding sorted_gid_table_items IsGidTable Dict.get
get-sorted [] j h = refl
get-sorted ((k, g) ∷ d) j (_, other, _, h) =
    get-insert_item (k, g) (sorted_gid_table_items d) j (sorted-others k d other)
    ∙ ap (λ r. if k == j then some g else r) (get-sorted d j h)

-- The items of a global id table that a revision's summary keeps are in ascending order of their
-- indices, and every index is looked up in them as in the table.
pub sorted_gid_table_items_lem :
    (d : Dict (List ℕ))
    → IsGidTable d
    → IsAscending (sorted_gid_table_items d)
      × ((k : ℕ) → Dict.get (sorted_gid_table_items d) k ≡ Dict.get d k)
sorted_gid_table_items_lem d h = (sorted-IsAscending d h, λ k. get-sorted d k h)
