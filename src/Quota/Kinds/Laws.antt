-- ===== src/Quota/Kinds/Laws.antt =====
-- What `ListKinds` guarantees to its users, and the error that it hides.
use mathlib.Core.List.Perm
use rancid_syncer.Base.{
  String, ◌≡◌, refl, ◌≢◌, List, [], ◌∷◌, ◌++◌, Option, none, some, Bool, true, false, inl, inr, All,
  Bool-cases, if◌then◌else◌, ◌==◌, subst, all, length, ltb,
}
use rancid_syncer.Base.Dict.{Dict, lookup, insert}
use rancid_syncer.Base.Outcome.{Outcome, ok, ok-injective, Error, >>=-eq-ok}
use rancid_syncer.Base.Runtime.{Runtime, IsRuntime}
use rancid_syncer.Quota.Types.{ApiType, ApiResource, ApiResourceList, Platform}
use rancid_syncer.Quota.Kinds.{
  has_slash, with_version, add_resources, add_lists, sort_versions, sort_types, list_kinds,
}

-- A kind that a quota can be computed for: it is not a subresource, and has a version.
pub record IsListed (t : ApiType) : Type 0 where
  pub versioned : t.versions ≢ []
  pub whole : has_slash t.resource ≡ false

abbrev pub AreListed : Dict ApiType → Type 0
AreListed = All (λ (e : String × ApiType). IsListed e.1)

not_ok : {A : Type 0} {m : String} {a : A} → Outcome.panic m ≡ ok a → ⊥
not_ok e = cc

AreListed-insert :
    (k : String) (t : ApiType) (types : Dict ApiType)
    → IsListed t
    → AreListed types
    → AreListed (insert k t types)
unfolding insert
AreListed-insert k t [] p h = (p, tt)
AreListed-insert k t ((j, u) ∷ types) p (r, h) = elim (Bool-cases (j == k)) [
  | inl same ↦ rw (same, insert) (p, h)
  | inr other ↦ rw (other, insert) (r, AreListed-insert k t types p h)
]

AreListed-lookup :
    (k : String) (t : ApiType) (types : Dict ApiType)
    → AreListed types
    → lookup k types ≡ some t
    → IsListed t
unfolding lookup
AreListed-lookup k t [] h e = cc
AreListed-lookup k t ((j, u) ∷ types) (r, h) e = elim (Bool-cases (j == k)) [
  | inl same ↦ subst IsListed (cc) r
  | inr other ↦ AreListed-lookup k t types h (rw other at e)
]

append_one-ne-nil : {A : Type 0} (xs : List A) (x : A) → xs ++ x ∷ [] ≢ []
append_one-ne-nil [] x e = cc
append_one-ne-nil (y ∷ xs) x e = cc

with_version-IsListed :
    (group version : String) (r : ApiResource) (old : Option ApiType)
    → has_slash r.name ≡ false
    → ((t : ApiType) → old ≡ some t → IsListed t)
    → IsListed (with_version group version r old)
unfolding with_version
with_version-IsListed group version r none w h = record { versioned = λ e. cc; whole = w }
with_version-IsListed group version r (some x) w h = record {
  versioned = append_one-ne-nil x.versions version;
  whole = (h x refl).whole;
}

module _ (go : Runtime) (q : Platform) where
  add_resources-AreListed :
      (group version : String) (resources : List ApiResource) (types : Dict ApiType)
      → AreListed types
      → AreListed (add_resources go q group version resources types)
  unfolding add_resources
  add_resources-AreListed group version [] types h = h
  add_resources-AreListed group version (r ∷ resources) types h =
      add_resources-AreListed group version resources _ (kept (has_slash r.name) refl)
    where
      gk : String
      gk = q.group_kind_text (record { group = group; kind = r.kind })

      kept :
          (b : Bool)
          → has_slash r.name ≡ b
          → AreListed (
              if b then types else insert gk (with_version group version r (lookup gk types)) types)
      kept true e = h
      kept false e =
          AreListed-insert gk _ types
            (with_version-IsListed group version r (lookup gk types) e
              (λ t. AreListed-lookup gk t types h))
            h

  add_lists-AreListed :
      (lists : List ApiResourceList) (types types' : Dict ApiType)
      → AreListed types
      → add_lists go q lists types ≡ ok types'
      → AreListed types'
  unfolding add_lists
  add_lists-AreListed [] types types' h e = subst AreListed (ok-injective e) h
  add_lists-AreListed (l ∷ lists) types types' h e =
      let (gv, d, f) = >>=-eq-ok (q.parse_group_version l.group_version) _ e in
      add_lists-AreListed lists (add_resources go q gv.0 gv.1 l.api_resources types) types'
        (add_resources-AreListed gv.0 gv.1 l.api_resources types h) f

module _ (go : Runtime) (lawful : IsRuntime go) (q : Platform) where
  sort_slice-ne-nil : (xs : List String) → xs ≢ [] → go.sort_slice q.version_gt xs ≢ []
  sort_slice-ne-nil xs h e =
      h (Perm.eq-nil (Perm.symm (rw e at (lawful.sort_slice-perm q.version_gt xs))))

  sort_versions-IsListed : (t u : ApiType) → IsListed t → sort_versions go q t ≡ ok u → IsListed u
  unfolding sort_versions
  sort_versions-IsListed t u p e = elim (Bool-cases (ltb 1 (length t.versions))) [
    | inl many ↦ elim (Bool-cases (all q.is_version t.versions)) [
      | inl valid ↦
          subst IsListed (ok-injective (rw (many, valid) at e))
            (record { versioned = sort_slice-ne-nil t.versions p.versioned; whole = p.whole })
      | inr bad ↦ absurd (not_ok (rw (many, bad) at e))
    ]
    | inr few ↦ subst IsListed (ok-injective (rw few at e)) p
  ]

  sort_types-AreListed :
      (types types' : Dict ApiType)
      → AreListed types
      → sort_types go q types ≡ ok types'
      → AreListed types'
  unfolding sort_types
  sort_types-AreListed [] types' h e = subst AreListed (ok-injective e) tt
  sort_types-AreListed ((k, t) ∷ types) types' (p, h) e =
      let (u, d, f) = >>=-eq-ok (sort_versions go q t) _ e in
      let (rest, d', f') = >>=-eq-ok (sort_types go q types) _ f in
      subst AreListed (ok-injective f')
        (sort_versions-IsListed t u p d, sort_types-AreListed types rest h d')

  -- With a runtime that sorts (`IsRuntime`), every kind that `ListKinds` returns has at least one
  -- version, so that `Versions[0]` is in range, and is not a subresource.
  pub list_kinds-AreListed :
      (s : q.State) (types : Dict ApiType) → list_kinds go q s ≡ ok types → AreListed types
  unfolding list_kinds
  list_kinds-AreListed s types e =
      let (unsorted, d, f) = >>=-eq-ok (if usable then add_lists go q found.0 [] else ok []) _ e in
      sort_types-AreListed unsorted types (started usable unsorted d) f
    where
      found : List ApiResourceList × Option Error
      found = q.server_groups_and_resources s

      usable : Bool
      usable = elim found.1 [ none ↦ true | some x ↦ q.is_group_discovery_failed x ]

      started :
          (b : Bool) (unsorted : Dict ApiType)
          → (if b then add_lists go q found.0 [] else ok []) ≡ ok unsorted
          → AreListed unsorted
      started true unsorted d = add_lists-AreListed go q found.0 [] unsorted tt d
      started false unsorted d = subst AreListed (ok-injective d) tt

-- When discovery fails, other than for some groups only, `ListKinds` returns the empty map and no
-- error.
list_kinds_hidden :
    (go : Runtime) (q : Platform) (s : q.State) (lists : List ApiResourceList) (e : Error)
    → q.server_groups_and_resources s ≡ (lists, some e)
    → q.is_group_discovery_failed e ≡ false
    → list_kinds go q s ≡ ok []
unfolding list_kinds sort_types
list_kinds_hidden go q s lists e h k = rw (h, list_kinds) (rw k)
