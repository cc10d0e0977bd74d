-- ===== src/ObjectSpace/Roles.antt =====
-- The table of the roles of revisions: a key is a role in a context, and no key is there twice.
use aspose_note_foss_for_pyt.Prelude.{
  ◌≡◌, refl, ◌∙◌, sym, ap, Bool, true, false, ◌&&◌, ◌||◌, ◌==◌, Option, none, some, List, [], ◌∷◌,
  All, arith, bytes_eq, bytes_eq_iff, if◌then◌else◌, Bool-cases, inl, inr,
}
use aspose_note_foss_for_pyt.CommonTypes.ExtendedGuid.{ExtendedGuid}
use aspose_note_foss_for_pyt.FileNodeTypes.Root.{same_guid}
use aspose_note_foss_for_pyt.ObjectSpace.Summaries.{RevisionRoleContextPair, sorted, insert_sorted}
use aspose_note_foss_for_pyt.ObjectSpace.Revisions.{Assignments, assign, same_pair, pairs_of}

-- the same context and the same role
unfoldable pub same_key : RevisionRoleContextPair → RevisionRoleContextPair → Bool
same_key a b =
    (bytes_eq a.gctxid.guid b.gctxid.guid && a.gctxid.n == b.gctxid.n)
    && a.revision_role == b.revision_role

-- the revision that a role in a context stands for
unfoldable pub revision_for : RevisionRoleContextPair → Assignments → Option ExtendedGuid
revision_for pair [] = none
revision_for pair ((p, rid) ∷ rest) =
    let further = revision_for pair rest in if same_key p pair then some rid else further

same_pair-same_key : (a b : RevisionRoleContextPair) → same_pair a b ≡ same_key a b
unfolding same_pair same_key same_guid
same_pair-same_key a b = refl

pub same_guid→eq : (a b : ExtendedGuid) → same_guid a b ≡ true → a ≡ b
unfolding same_guid
same_guid→eq a b h = ground (arith, bytes_eq_iff a.guid b.guid)

pub same_guid_refl : (a : ExtendedGuid) → same_guid a a ≡ true
unfolding same_guid
same_guid_refl a =
    let (to, from) = bytes_eq_iff a.guid a.guid in
    let same : bytes_eq a.guid a.guid ≡ true = from refl in ground arith

same_key→eq : (a b : RevisionRoleContextPair) → same_key a b ≡ true → a ≡ b
unfolding same_key
same_key→eq a b h =
    let same : a.gctxid ≡ b.gctxid =
      same_guid→eq a.gctxid b.gctxid (unfold same_guid in ground arith) in
    ground (arith, same)

same_key_refl : (a : RevisionRoleContextPair) → same_key a a ≡ true
unfolding same_key
same_key_refl a =
    let (to, from) = bytes_eq_iff a.gctxid.guid a.gctxid.guid in
    let same : bytes_eq a.gctxid.guid a.gctxid.guid ≡ true = from refl in ground arith

same_key_comm : (a b : RevisionRoleContextPair) → same_key a b ≡ false → same_key b a ≡ false
same_key_comm a b h = elim (Bool-cases (same_key b a)) [
  | inl e ↦ let p : b ≡ a = same_key→eq b a e in let q = same_key_refl a in cc
  | inr e ↦ e
]

-- two keys that are the same as a third
same_key-common :
    (a b c : RevisionRoleContextPair)
    → same_key a c ≡ true
    → same_key b c ≡ true
    → same_key a b ≡ true
same_key-common a b c h k =
    let p : a ≡ b = same_key→eq a c h ∙ sym (same_key→eq b c k) in rw p (same_key_refl b)

-- An assignment sets the revision of its role and context, and leaves all others as they were.
pub revision_for-assign :
    (key pair : RevisionRoleContextPair) (rid : ExtendedGuid) (assignments : Assignments)
    → revision_for pair (assign key rid assignments)
      ≡ (if same_key key pair then some rid else revision_for pair assignments)
unfolding revision_for assign
revision_for-assign key pair rid [] = refl
revision_for-assign key pair rid ((p, r) ∷ rest) = elim (Bool-cases (same_key p key)) [
  | inl e ↦ let same = same_key→eq p key e in ground (arith, same, same_pair-same_key p key)
  | inr e ↦
      let below = revision_for-assign key pair rid rest in
      let common = same_key-common p key pair in
      ground (arith, below, common, same_pair-same_key p key)
]

abbrev pub Assignment : Type 0
Assignment = RevisionRoleContextPair × ExtendedGuid

-- no key is the key of two items
unfoldable pub IsTable : Assignments → Type 0
IsTable [] = Unit
IsTable ((p, r) ∷ rest) = All (λ (y : Assignment). same_key p y.0 ≡ false) rest × IsTable rest

assign-All :
    (q key : RevisionRoleContextPair) (rid : ExtendedGuid) (assignments : Assignments)
    → same_key q key ≡ false
    → All (λ (y : Assignment). same_key q y.0 ≡ false) assignments
    → All (λ (y : Assignment). same_key q y.0 ≡ false) (assign key rid assignments)
unfolding assign
assign-All q key rid [] h a = (h, tt)
assign-All q key rid ((k, r) ∷ rest) h (here, a) = elim (Bool-cases (same_pair k key)) [
  | inl e ↦ rw e (here, a)
  | inr e ↦ rw e (here, assign-All q key rid rest h a)
]

pub assign-IsTable :
    (key : RevisionRoleContextPair) (rid : ExtendedGuid) (assignments : Assignments)
    → IsTable assignments
    → IsTable (assign key rid assignments)
unfolding assign IsTable
assign-IsTable key rid [] h = (tt, tt)
assign-IsTable key rid ((k, r) ∷ rest) (a, h) = elim (Bool-cases (same_pair k key)) [
  | inl e ↦ rw e (a, h)
  | inr e ↦ rw e (
    assign-All k key rid rest (sym (same_pair-same_key k key) ∙ e) a,
    assign-IsTable key rid rest h,
  )
]

-- whether a role in a context is among those of a summary
unfoldable pub has_pair : RevisionRoleContextPair → List RevisionRoleContextPair → Bool
has_pair pair [] = false
has_pair pair (p ∷ ps) = same_key p pair || has_pair pair ps

has_pair-insert_sorted :
    (less : RevisionRoleContextPair → RevisionRoleContextPair → Bool)
    (pair x : RevisionRoleContextPair) (ys : List RevisionRoleContextPair)
    → has_pair pair (insert_sorted less x ys) ≡ (same_key x pair || has_pair pair ys)
unfolding has_pair insert_sorted
has_pair-insert_sorted less pair x [] = refl
has_pair-insert_sorted less pair x (y ∷ ys) = ground (arith, has_pair-insert_sorted less pair x ys)

pub has_pair-sorted :
    (less : RevisionRoleContextPair → RevisionRoleContextPair → Bool)
    (pair : RevisionRoleContextPair) (ps : List RevisionRoleContextPair)
    → has_pair pair (sorted less ps) ≡ has_pair pair ps
unfolding has_pair sorted
has_pair-sorted less pair [] = refl
has_pair-sorted less pair (p ∷ ps) =
    has_pair-insert_sorted less pair p (sorted less ps)
    ∙ ap (λ b. same_key p pair || b) (has_pair-sorted less pair ps)

-- whether a looked up revision is `rid`
unfoldable pub is_for : ExtendedGuid → Option ExtendedGuid → Bool
is_for rid none = false
is_for rid (some r) = same_guid r rid

pairs_of-absent :
    (rid : ExtendedGuid) (pair : RevisionRoleContextPair) (assignments : Assignments)
    → All (λ (y : Assignment). same_key pair y.0 ≡ false) assignments
    → has_pair pair (pairs_of rid assignments) ≡ false
unfolding has_pair pairs_of
pairs_of-absent rid pair [] h = refl
pairs_of-absent rid pair ((p, r) ∷ rest) (here, h) =
    ground (arith, same_key_comm pair p here, pairs_of-absent rid pair rest h)

-- The roles of a revision are those that stand for it.
pub has_pair-pairs_of :
    (rid : ExtendedGuid) (pair : RevisionRoleContextPair) (assignments : Assignments)
    → IsTable assignments
    → has_pair pair (pairs_of rid assignments) ≡ is_for rid (revision_for pair assignments)
unfolding has_pair pairs_of revision_for is_for IsTable
has_pair-pairs_of rid pair [] h = refl
has_pair-pairs_of rid pair ((p, r) ∷ rest) (a, h) =
    let below = has_pair-pairs_of rid pair rest h in
    elim (Bool-cases (same_key p pair)) [
      | inl e ↦
          let same : p ≡ pair = same_key→eq p pair e in
          let absent = pairs_of-absent rid pair rest (rw (← same) a) in ground (arith, absent)
      | inr e ↦ ground (arith, below)
    ]
