-- ===== src/FileNodeTypes/RootList.antt =====
-- Which root file node lists are accepted.
use aspose_note_foss_for_pyt.Prelude.{
  ℕ, ◌≡◌, refl, ◌⊎◌, ◌↔◌, inl, inr, Bool, true, false, not, ◌&&◌, ◌||◌, Option, none, some, List,
  [], ◌∷◌, Bool-cases, arith,
}
use aspose_note_foss_for_pyt.Context.{Error, format_error}
use aspose_note_foss_for_pyt.Parser.{State, M, ok, err, pure, raise_if, ◌>>=◌, ◌>>◌}
use aspose_note_foss_for_pyt.CommonTypes.ExtendedGuid.{ExtendedGuid}
use aspose_note_foss_for_pyt.FileNodeTypes.Manifests.{
  ObjectSpaceManifestRootFnd, ObjectSpaceManifestListReferenceFnd, FileDataStoreListReferenceFnd,
}
use aspose_note_foss_for_pyt.FileNodeTypes.Typed.{TypedFileNode}
use aspose_note_foss_for_pyt.FileNodeTypes.Root.{
  RootFileNodeListManifests, RootNodes, no_root_nodes, is_allowed, is_root_type, add_node, collect,
  only_root, require_refs, at_most_one, has_guid, same_guid, check_unique, refs_only, some_ref_has,
  build_root_file_node_list_manifests,
}

-- A node that the strict mode admits: of an allowed id and read as one of the three types.
unfoldable pub is_root_node : TypedFileNode → Bool
is_root_node tn = is_allowed tn.node.header.file_node_id && is_root_type tn.typed

unfoldable pub all_root_nodes : List TypedFileNode → Bool
all_root_nodes [] = true
all_root_nodes (tn ∷ tns) = is_root_node tn && all_root_nodes tns

-- the nodes of the three types, in their order
unfoldable pub root_nodes : List TypedFileNode → RootNodes
root_nodes [] = no_root_nodes
root_nodes (tn ∷ tns) = add_node tn.typed tn.node.header.offset (root_nodes tns)

-- ids of which no two are the same
unfoldable pub none_same : ExtendedGuid → List ExtendedGuid → Bool
none_same g [] = true
none_same g (h ∷ hs) = not (same_guid g h) && none_same g hs

unfoldable pub all_different : List ExtendedGuid → Bool
all_different [] = true
all_different (g ∷ gs) = none_same g gs && all_different gs

unfoldable pub gosids : List (ObjectSpaceManifestListReferenceFnd × ℕ) → List ExtendedGuid
gosids [] = []
gosids ((r, _) ∷ rs) = r.gosid ∷ gosids rs

abbrev pub are_admitted : Bool → List TypedFileNode → Bool
are_admitted strict tns = not strict || all_root_nodes tns

collect_ok :
    (tns : List TypedFileNode) (s : State)
    → are_admitted s.ctx.strict tns ≡ true
    → collect tns s ≡ ok (root_nodes tns) s
unfolding collect root_nodes all_root_nodes is_root_node
collect_ok [] s h = refl
collect_ok (tn ∷ tns) s h =
    let rest : are_admitted s.ctx.strict tns ≡ true = ground arith in
    ground (arith, collect_ok tns s rest)

collect_err :
    (tns : List TypedFileNode) (s : State)
    → are_admitted s.ctx.strict tns ≡ false
    → (x : Error) × (collect tns s ≡ err x s.ctx)
unfolding collect all_root_nodes is_root_node
collect_err [] s h = ground arith
collect_err (tn ∷ tns) s h = elim (Bool-cases (is_allowed tn.node.header.file_node_id)) [
  | inl allowed ↦ elim (Bool-cases (is_root_type tn.typed)) [
    | inl typed ↦ let (x, e) = collect_err tns s (ground arith) in (x, ground (arith, e))
    | inr other ↦ (
      format_error "Root file node list FileNodeID could not be parsed"
          (some tn.node.header.offset),
      ground arith,
    )
  ]
  | inr not_allowed ↦ (
    format_error "Root file node list MUST contain only 0x004/0x008/0x090 FileNodeIDs"
        (some tn.node.header.offset),
    ground arith,
  )
]

-- none of the ids is among those seen
unseen : List ExtendedGuid → List ExtendedGuid → Bool
unseen seen [] = true
unseen seen (g ∷ gs) = not (has_guid seen g) && unseen seen gs

unseen-cons :
    (g : ExtendedGuid) (seen gs : List ExtendedGuid)
    → unseen (g ∷ seen) gs ≡ (none_same g gs && unseen seen gs)
unfolding unseen none_same has_guid
unseen-cons g seen [] = refl
unseen-cons g seen (h ∷ hs) = ground (arith, unseen-cons g seen hs)

check_unique_lem :
    (seen : List ExtendedGuid) (refs : List (ObjectSpaceManifestListReferenceFnd × ℕ)) (s : State)
    → (check_unique seen refs s ≡ ok tt s)
        × ((unseen seen (gosids refs) && all_different (gosids refs)) ≡ true)
      ⊎ ((x : Error) × (check_unique seen refs s ≡ err x s.ctx)
          × ((unseen seen (gosids refs) && all_different (gosids refs)) ≡ false))
unfolding check_unique unseen gosids all_different
check_unique_lem seen [] s = inl (refl, refl)
check_unique_lem seen ((r, off) ∷ refs) s =
    let same = unseen-cons r.gosid seen (gosids refs) in
    elim (Bool-cases (has_guid seen r.gosid)) [
      | inl old ↦ inr (
        format_error "ObjectSpaceManifestListReferenceFND.gosid MUST be unique" (some off),
        ground arith,
        ground arith,
      )
      | inr new ↦ elim (check_unique_lem (r.gosid ∷ seen) refs s) [
        | inl (e, p) ↦ inl (ground (arith, e), ground (arith, same, p))
        | inr (x, e, p) ↦ inr (x, ground (arith, e), ground (arith, same, p))
      ]
    ]

-- the file data reference that there may be; `none` for more than one
unfoldable pub the_only :
    List (FileDataStoreListReferenceFnd × ℕ) → Option (Option FileDataStoreListReferenceFnd)
the_only [] = some none
the_only ((r, _) ∷ []) = some (some r)
the_only (_ ∷ _ ∷ _) = none

-- what the nodes of the three types have to be for the manifests `m`
abbrev pub Accepted :
    List (ObjectSpaceManifestRootFnd × ℕ)
    → List (ObjectSpaceManifestListReferenceFnd × ℕ)
    → List (FileDataStoreListReferenceFnd × ℕ)
    → RootFileNodeListManifests
    → Type 0
Accepted roots refs fds m =
    (off : ℕ) × (roots ≡ (m.root, off) ∷ [])
    × (m.object_space_refs ≡ refs_only refs)
    × (all_different (gosids refs) ≡ true)
    × (some_ref_has refs m.root.gosid_root ≡ true)
    × (the_only fds ≡ some m.file_data_store_list_ref)

-- `build_root_file_node_list_manifests` once the nodes are collected
finish :
    List TypedFileNode
    → List (ObjectSpaceManifestRootFnd × ℕ)
    → List (ObjectSpaceManifestListReferenceFnd × ℕ)
    → List (FileDataStoreListReferenceFnd × ℕ)
    → M RootFileNodeListManifests
finish tns roots refs fds = do
  (root, root_off) ← only_root tns roots
  require_refs tns refs
  file_data_ref ← at_most_one fds
  check_unique [] refs
  raise_if (not (some_ref_has refs root.gosid_root)) (
      format_error
        "ObjectSpaceManifestRootFND.gosidRoot MUST match one of ObjectSpaceManifestListReferenceFND.gosid"
        (some root_off))
  pure (record {
    root = root;
    object_space_refs = refs_only refs;
    file_data_store_list_ref = file_data_ref;
  })

unseen-nil : (gs : List ExtendedGuid) → unseen [] gs ≡ true
unfolding unseen has_guid
unseen-nil [] = refl
unseen-nil (g ∷ gs) = ground (arith, unseen-nil gs)

finish_iff :
    (tns : List TypedFileNode) (roots : List (ObjectSpaceManifestRootFnd × ℕ))
    (refs : List (ObjectSpaceManifestListReferenceFnd × ℕ))
    (fds : List (FileDataStoreListReferenceFnd × ℕ)) (s t : State) (m : RootFileNodeListManifests)
    → (finish tns roots refs fds s ≡ ok m t) ↔ ((s ≡ t) × Accepted roots refs fds m)
unfolding finish only_root require_refs at_most_one some_ref_has the_only
finish_iff tns [] refs fds s t m = (λ e. cc, λ p. cc)
finish_iff tns (_ ∷ _ ∷ _) refs fds s t m = (λ e. cc, λ p. cc)
finish_iff tns (r ∷ []) [] fds s t m = (λ e. cc, λ p. cc)
finish_iff tns (r ∷ []) (f ∷ refs) (_ ∷ _ ∷ _) s t m = (λ e. cc, λ p. cc)
finish_iff tns ((r, off) ∷ []) (f ∷ refs) [] s t m =
    let new = unseen-nil (gosids (f ∷ refs)) in
    elim (check_unique_lem [] (f ∷ refs) s) [
      | inl (e, p) ↦ (
        λ h. (
          ground (arith, e),
          (
            off,
            ground (arith, e),
            ground (arith, e),
            ground (arith, p, new),
            ground (arith, e),
            ground (arith, e),
          ),
        ),
        λ h. ground (arith, e),
      )
      | inr (x, e, p) ↦ (λ h. cc, λ h. ground (arith, new, p))
    ]
finish_iff tns ((r, off) ∷ []) (f ∷ refs) (d ∷ []) s t m =
    let new = unseen-nil (gosids (f ∷ refs)) in
    elim (check_unique_lem [] (f ∷ refs) s) [
      | inl (e, p) ↦ (
        λ h. (
          ground (arith, e),
          (
            off,
            ground (arith, e),
            ground (arith, e),
            ground (arith, p, new),
            ground (arith, e),
            ground (arith, e),
          ),
        ),
        λ h. ground (arith, e),
      )
      | inr (x, e, p) ↦ (λ h. cc, λ h. ground (arith, new, p))
    ]

-- A root file node list is accepted exactly where in strict mode all its nodes are of the three
-- types, exactly one is the root, the ids of the object spaces are different and one of them is the
-- root's, and at most one refers to file data; the manifests are those nodes, and nothing changes.
pub build_root_iff :
    (tns : List TypedFileNode) (s t : State) (m : RootFileNodeListManifests)
    → (build_root_file_node_list_manifests tns s ≡ ok m t) ↔ (
        (s ≡ t)
        × (are_admitted s.ctx.strict tns ≡ true)
        × Accepted (root_nodes tns).roots (root_nodes tns).refs (root_nodes tns).file_data_refs m)
unfolding build_root_file_node_list_manifests finish
build_root_iff tns s t m = elim (Bool-cases (are_admitted s.ctx.strict tns)) [
  | inl admits ↦
      let e = collect_ok tns s admits in
      let (to, from) =
        finish_iff tns (root_nodes tns).roots (root_nodes tns).refs (root_nodes tns).file_data_refs
          s t m in
      (λ h. let (a, b) = to (rw e at h) in (a, admits, b), λ (a, _, b). rw e (from (a, b)))
  | inr not_ ↦ let (x, e) = collect_err tns s not_ in (λ h. cc, λ h. cc)
]
