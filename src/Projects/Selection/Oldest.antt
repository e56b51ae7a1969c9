-- ===== src/Projects/Selection/Oldest.antt =====
-- The namespace that `NamespaceForPreset` chooses.
use mathlib.Core.List.Perm
use mathlib.Core.List.{Perm, Pairwise, Mem, mem-cons_self}
use mathlib.Core.List.{eq-or-mem_of_mem-cons}
use mathlib.Core.Logic.Or
use mathlib.Core.Bool.{Bool-set}
use rancid_syncer.Base.{
  ◌≤◌, String, ◌≡◌, sym, List, [], ◌∷◌, some, false, arith, subst, inl, inr, Option-cases,
}
use rancid_syncer.Base.Dict.{insert}
use rancid_syncer.Base.Outcome.{Outcome, ok, ok-injective, >>=-eq-ok}
use rancid_syncer.Base.Runtime.{Runtime, IsOrder, IsRuntime}
use rancid_syncer.Kube.{LabelSelector, Namespace, Prometheus}
use rancid_syncer.Projects.Types.{Cluster}
use rancid_syncer.Projects.Selection.{
  is_older, first_name, oldest_name, operated, select_namespace, namespace_for_preset,
}

is_older-IsOrder : IsOrder is_older
is_older-IsOrder = record {
  asymmetric = λ a b h. ground arith;
  transitive = λ a b c h k. ground arith;
}

-- A namespace of the list, of the name, and none of the list is older.
abbrev pub IsOldest : String → List Namespace → Type 0
IsOldest name items =
    (ns : Namespace) × Mem ns items
    × (ns.meta.name ≡ name)
    × ((other : Namespace)
        → Mem other items
        → ns.meta.creation_timestamp ≤ other.meta.creation_timestamp)

first_name-IsOldest :
    (name : String) (items sorted : List Namespace)
    → Perm sorted items
    → Pairwise (λ a b. is_older b a ≡ false) sorted
    → first_name sorted ≡ ok name
    → IsOldest name items
first_name-IsOldest name items [] p w h = cc
first_name-IsOldest name items (x ∷ xs) p (Pairwise.cons k w) h = (
  x,
  Perm.subset p x mem-cons_self,
  ok-injective h,
  λ other m. at_most other (not_older other (Perm.subset (Perm.symm p) other m)),
)
  where
    not_older : (other : Namespace) → Mem other (x ∷ xs) → is_older other x ≡ false
    not_older other m =
        Or.elim (Bool-set (is_older other x) false) (eq-or-mem_of_mem-cons m)
          (λ e. subst (λ (y : Namespace). is_older y x ≡ false) (sym e) (ground arith)) (k other)

    at_most :
        (other : Namespace)
        → is_older other x ≡ false
        → x.meta.creation_timestamp ≤ other.meta.creation_timestamp
    at_most other e = ground arith

-- The selector that asks for the label of an operated namespace as well.
abbrev pub with_operated : LabelSelector → LabelSelector
with_operated ls = record ls {
  match_labels = insert "helm.cattle.io/helm-project-operated" "true" ls.match_labels;
}

module _ (go : Runtime) (lawful : IsRuntime go) (c : Cluster) where
  oldest_name-IsOldest :
      (items : List Namespace) (name : String)
      → oldest_name go c items ≡ ok name
      → IsOldest name items
  unfolding oldest_name
  oldest_name-IsOldest [] name h = cc
  oldest_name-IsOldest (ns ∷ items) name h =
      first_name-IsOldest name (ns ∷ items) (go.sort_slice is_older (ns ∷ items))
        (lawful.sort_slice-perm is_older (ns ∷ items))
        (lawful.sort_slice-sorted is_older-IsOrder (ns ∷ items)) h

  -- With a runtime that sorts (`IsRuntime`), when `NamespaceForPreset` returns a name, the
  -- Prometheus has a namespace selector, and the name is that of a namespace which this selector,
  -- with the label that marks an operated namespace added to it, selects, and than which no
  -- selected namespace is older.
  pub namespace_for_preset-IsOldest :
      (prom : Prometheus) (s : c.State) (name : String)
      → (namespace_for_preset go c prom s).0 ≡ ok name
      → (ls : LabelSelector) × (sel : c.Selector) × (items : List Namespace)
        × (prom.service_monitor_namespace_selector ≡ some ls)
        × (c.as_selector (some (with_operated ls)) ≡ ok sel)
        × (c.select_namespaces sel s ≡ ok items)
        × IsOldest name items
  unfolding namespace_for_preset select_namespace operated
  namespace_for_preset-IsOldest prom s name h =
      elim (Option-cases prom.service_monitor_namespace_selector) [
        | inl e ↦ absurd (panicked (rw (e, namespace_for_preset) at h))
        | inr (ls, e) ↦
            let (sel, d, f) =
              >>=-eq-ok (c.as_selector (some (with_operated ls))) _
                (rw (e, namespace_for_preset) at h) in
            let (items, d', f') = >>=-eq-ok (c.select_namespaces sel s) _ f in
            (ls, sel, items, e, d, d', oldest_name-IsOldest items name f')
      ]
    where
      panicked : {m : String} → Outcome.panic m ≡ ok name → ⊥
      panicked e = cc
