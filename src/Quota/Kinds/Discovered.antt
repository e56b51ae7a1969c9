-- ===== src/Quota/Kinds/Discovered.antt =====
-- `ListKinds` lists what discovery has found, each kind with all its versions.
use mathlib.Core.List.{append_assoc, append-nil, map-append, Perm, Pairwise, not-mem-nil}
use mathlib.Core.List.Perm
use rancid_syncer.Base.{
  String, ◌≡◌, refl, sym, ◌∙◌, ap, subst, List, [], ◌∷◌, ◌++◌, map, Option, none, some, true, false,
  inl, inr, Bool-cases, arith, if◌then◌else◌, ◌==◌, eq_iff, all, length, ltb,
}
use rancid_syncer.Base.Dict.{Dict, lookup, insert, lookup-insert}
use rancid_syncer.Base.Outcome.{Outcome, ok, err, panic, ok-injective, Error, >>=-eq-ok}
use rancid_syncer.Base.Runtime.{Runtime, IsRuntime, IsOrder}
use rancid_syncer.Quota.Types.{ApiType, ApiResource, ApiResourceList, Platform}
use rancid_syncer.Quota.Kinds.{
  has_slash, first_seen, with_version, add_resources, add_lists, sort_versions, sort_types,
  list_kinds,
}

few_sorted :
    (R : String → String → Type 0) (l : List String) → ltb 1 (length l) ≡ false → Pairwise R l
few_sorted R [] e = Pairwise.nil
few_sorted R (v ∷ []) e = Pairwise.cons (λ a m. absurd (not-mem-nil m)) Pairwise.nil
few_sorted R (v ∷ w ∷ l) e = absurd (ground arith)

not_ok : {A : Type 0} {m : String} {a : A} → Outcome.panic m ≡ ok a → ⊥
not_ok e = cc

-- A resource that discovery has found, in a group and a version.
pub record Found : Type 0 where
  pub group : String
  pub version : String
  pub resource : ApiResource

-- The entry of a kind of which only this resource is known: its name, its scope and its version.
abbrev pub entry_of : Found → ApiType
entry_of f = record {
  group = f.group;
  kind = f.resource.kind;
  resource = f.resource.name;
  versions = f.version ∷ [];
  namespaced = f.resource.namespaced;
}

module _ (go : Runtime) (q : Platform) (key : String) where
  -- The resources under the key, without the subresources.
  abbrev pub found_in : String → String → List ApiResource → List Found
  found_in group version [] = []
  found_in group version (r ∷ resources) =
      let rest = found_in group version resources in
      if has_slash r.name
      then rest
      else if q.group_kind_text (record { group = group; kind = r.kind }) == key
      then record { group = group; version = version; resource = r } ∷ rest
      else rest

  abbrev pub found_under : String × String → List ApiResource → List Found
  found_under gv resources = found_in gv.0 gv.1 resources

  abbrev pub parsed : Outcome (String × String) → List ApiResource → List Found
  parsed (ok gv) resources = found_under gv resources
  parsed (err e) resources = []
  parsed (panic m) resources = []

  abbrev pub found_by : List ApiResourceList → List Found
  found_by [] = []
  found_by (l ∷ lists) =
      parsed (q.parse_group_version l.group_version) l.api_resources ++ found_by lists

  abbrev version_of : Found → String
  version_of f = f.version

  -- The entry before the sorting.
  abbrev described : List Found → Option ApiType
  described [] = none
  described (f ∷ more) = some (record (entry_of f) { versions = f.version ∷ map version_of more })

  described-add :
      (seen : List Found) (group version : String) (r : ApiResource)
      → some (with_version group version r (described seen))
        ≡ described (seen ++ record { group = group; version = version; resource = r } ∷ [])
  unfolding with_version first_seen
  described-add [] group version r = refl
  described-add (f ∷ more) group version r =
      ap (λ versions. some (record (entry_of f) { versions = f.version ∷ versions }))
        (sym (
          map-append version_of more
            (record { group = group; version = version; resource = r } ∷ [])))

  add_resources-described :
      (group version : String) (resources : List ApiResource) (types : Dict ApiType)
      (seen : List Found)
      → lookup key types ≡ described seen
      → lookup key (add_resources go q group version resources types)
        ≡ described (seen ++ found_in group version resources)
  unfolding add_resources
  add_resources-described group version [] types seen e = e ∙ ap described (sym (append-nil seen))
  add_resources-described group version (r ∷ resources) types seen e =
      let gk = q.group_kind_text (record { group = group; kind = r.kind }) in
      elim (Bool-cases (has_slash r.name)) [
        | inl sub ↦ rw sub (add_resources-described group version resources types seen e)
        | inr whole ↦ elim (Bool-cases (gk == key)) [
          | inl same ↦
              let f : Found = record { group = group; version = version; resource = r } in
              let next = insert gk (with_version group version r (lookup gk types)) types in
              let there : lookup key next ≡ described (seen ++ f ∷ []) =
                lookup-insert gk key (with_version group version r (lookup gk types)) types
                ∙ rw same (
                    ap (λ k. some (with_version group version r (lookup k types)))
                      ((eq_iff gk key).0 same)
                    ∙ ap (λ o. some (with_version group version r o)) e)
                ∙ described-add seen group version r in
              rw (whole, same)
                (add_resources-described group version resources next (seen ++ f ∷ []) there
                  ∙ ap described (append_assoc seen (f ∷ []) (found_in group version resources)))
          | inr other ↦
              let there =
                lookup-insert gk key (with_version group version r (lookup gk types)) types
                ∙ rw other e in
              rw (whole, other) (add_resources-described group version resources _ seen there)
        ]
      ]

  add_lists-described :
      (lists : List ApiResourceList) (types types' : Dict ApiType) (seen : List Found)
      → lookup key types ≡ described seen
      → add_lists go q lists types ≡ ok types'
      → lookup key types' ≡ described (seen ++ found_by lists)
  unfolding add_lists
  add_lists-described [] types types' seen e h =
      ap (lookup key) (sym (ok-injective h)) ∙ e ∙ ap described (sym (append-nil seen))
  add_lists-described (l ∷ lists) types types' seen e h =
      let (gv, d, f) = >>=-eq-ok (q.parse_group_version l.group_version) _ h in
      let here = found_under gv l.api_resources in
      add_lists-described lists (add_resources go q gv.0 gv.1 l.api_resources types) types'
        (seen ++ here) (add_resources-described gv.0 gv.1 l.api_resources types seen e) f
      ∙ ap described (append_assoc seen here (found_by lists))
      ∙ ap (λ o. described (seen ++ (parsed o l.api_resources ++ found_by lists))) (sym d)

  -- The entry after the sorting, by the one before it.
  abbrev IsSortedOf : Option ApiType → Option ApiType → Type 0
  IsSortedOf none after = after ≡ none
  IsSortedOf (some t) after = (u : ApiType) × (after ≡ some u) × (sort_versions go q t ≡ ok u)

  sort_types-IsSortedOf :
      (types types' : Dict ApiType)
      → sort_types go q types ≡ ok types'
      → IsSortedOf (lookup key types) (lookup key types')
  unfolding sort_types lookup
  sort_types-IsSortedOf [] types' h = ap (lookup key) (sym (ok-injective h))
  sort_types-IsSortedOf ((k, t) ∷ types) types' h =
      let (u, d, f) = >>=-eq-ok (sort_versions go q t) _ h in
      let (rest, d', f') = >>=-eq-ok (sort_types go q types) _ f in
      subst (λ m. IsSortedOf (lookup key ((k, t) ∷ types)) (lookup key m)) (ok-injective f')
        (elim (Bool-cases (k == key)) [
          | inl same ↦ rw same (u, refl, d)
          | inr other ↦ rw other (sort_types-IsSortedOf types rest d')
        ])

module _ (q : Platform) where
  abbrev pub AreNewestFirst : List String → Type 0
  AreNewestFirst = Pairwise (λ a b. q.version_gt b a ≡ false)

  -- What is listed for the resources that were found under a key.
  abbrev pub IsDiscovered : List Found → Option ApiType → Type 0
  IsDiscovered [] listed = listed ≡ none
  IsDiscovered (f ∷ more) listed =
      (t : ApiType) × (listed ≡ some t)
      × (t ≡ record (entry_of f) { versions = t.versions })
      × Perm t.versions (f.version ∷ map (λ (x : Found). x.version) more)
      × AreNewestFirst t.versions

  abbrev pub IsUsable : Option Error → Type 0
  IsUsable none = Unit
  IsUsable (some e) = q.is_group_discovery_failed e ≡ true

-- `version_gt` is the order of the versions.
module _ (go : Runtime) (lawful : IsRuntime go) (q : Platform) (order : IsOrder q.version_gt) where
  sort_versions-AreNewestFirst :
      (t u : ApiType)
      → sort_versions go q t ≡ ok u
      → (u ≡ record t { versions = u.versions })
        × Perm u.versions t.versions
        × AreNewestFirst q u.versions
  unfolding sort_versions
  sort_versions-AreNewestFirst t u h = elim (Bool-cases (ltb 1 (length t.versions))) [
    | inl many ↦ elim (Bool-cases (all q.is_version t.versions)) [
      | inl valid ↦
          let e = ok-injective (rw (many, valid) at h) in
          subst
            (λ (x : ApiType).
              (x ≡ record t { versions = x.versions })
              × Perm x.versions t.versions
              × AreNewestFirst q x.versions)
            e
            (
              refl,
              lawful.sort_slice-perm q.version_gt t.versions,
              lawful.sort_slice-sorted order t.versions,
            )
      | inr bad ↦ absurd (not_ok (rw (many, bad) at h))
    ]
    | inr few ↦
        subst
          (λ (x : ApiType).
            (x ≡ record t { versions = x.versions })
            × Perm x.versions t.versions
            × AreNewestFirst q x.versions)
          (ok-injective (rw few at h)) (refl, Perm.refl t.versions, few_sorted _ t.versions few)
  ]

  sorted-IsDiscovered :
      (key : String) (found : List Found) (listed : Option ApiType)
      → IsSortedOf go q key (described go q key found) listed
      → IsDiscovered q found listed
  sorted-IsDiscovered key [] listed k = k
  sorted-IsDiscovered key (f ∷ more) listed (u, e, h) =
      let (same, perm, sorted) = sort_versions-AreNewestFirst _ u h in (u, e, same, perm, sorted)

  run_kinds :
      (s : q.State) (lists : List ApiResourceList) (failed : Option Error) (types : Dict ApiType)
      → q.server_groups_and_resources s ≡ (lists, failed)
      → IsUsable q failed
      → list_kinds go q s ≡ ok types
      → (unsorted : Dict ApiType) × (add_lists go q lists [] ≡ ok unsorted)
        × (sort_types go q unsorted ≡ ok types)
  unfolding list_kinds
  run_kinds s lists none types e usable h =
      >>=-eq-ok (add_lists go q lists []) _ (rw (e, list_kinds) at h)
  run_kinds s lists (some x) types e usable h =
      >>=-eq-ok (add_lists go q lists []) _ (rw usable at rw (e, list_kinds) at h)

  -- With a runtime that sorts (`IsRuntime`) by the order of the versions, when discovery answers, for
  -- all groups or for some, and `ListKinds` returns its map: a group and kind is in it just if
  -- discovery has found a resource of theirs that is not a subresource. Its entry has the name and
  -- the scope of the first such resource, and as its versions those in which discovery has found one,
  -- each as often, the newest first.
  pub list_kinds-IsDiscovered :
      (key : String) (s : q.State) (lists : List ApiResourceList) (failed : Option Error)
      (types : Dict ApiType)
      → q.server_groups_and_resources s ≡ (lists, failed)
      → IsUsable q failed
      → list_kinds go q s ≡ ok types
      → IsDiscovered q (found_by go q key lists) (lookup key types)
  unfolding lookup
  list_kinds-IsDiscovered key s lists failed types e usable h =
      let (unsorted, d, f) = run_kinds s lists failed types e usable h in
      sorted-IsDiscovered key (found_by go q key lists) (lookup key types) (
        subst (λ o. IsSortedOf go q key o (lookup key types))
          (add_lists-described go q key lists [] unsorted [] refl d)
          (sort_types-IsSortedOf go q key unsorted types f))
