-- ===== src/Presets/Load/Shadows.antt =====
-- Which presets of the cluster `LoadPresetValues` leaves out.
use mathlib.Core.List.Perm
use mathlib.Core.List.{Mem, mem-cons_self, mem-cons_of_mem}
use rancid_syncer.Base.{String, ◌≡◌, refl, ◌≢◌, ap, List, [], ◌∷◌, ◌++◌, map, false, eq_iff, arith}
use rancid_syncer.Base.Outcome.{ok}
use rancid_syncer.Base.Runtime.{Runtime, IsRuntime}
use rancid_syncer.Presets.Types.{
  ChartPreset, PresetKind, chart_preset, cluster_chart_preset, Cluster,
}
use rancid_syncer.Presets.Bundle.{
  is_known, by_name, located, unknown_values, bundle_chart_presets, bundle_cluster_chart_presets,
}
use rancid_syncer.Presets.Load.{source_names, with_cluster_presets, load_namespace}

unknown_values-nil :
    (kind : PresetKind) (cps : List ChartPreset)
    → unknown_values kind [] cps ≡ map (located kind) cps
unfolding unknown_values
unknown_values-nil kind [] = refl
unknown_values-nil kind (cp ∷ cps) = ap (λ vs. located kind cp ∷ vs) (unknown_values-nil kind cps)

-- The names that the presets of a namespace make known are that of the namespace, over and over.
is_known-source_names :
    (own name : String) (cps : List ChartPreset)
    → ((cp : ChartPreset) → Mem cp cps → cp.meta.namespace ≡ own)
    → name ≢ own
    → is_known (source_names (map (located chart_preset) cps)) name ≡ false
unfolding source_names located
is_known-source_names own name [] h n = refl
is_known-source_names own name (cp ∷ cps) h n =
    let e : cp.meta.namespace ≡ own = h cp mem-cons_self in
    let rest = is_known-source_names own name cps (λ x m. h x (mem-cons_of_mem cp m)) n in
    ground (arith, eq_iff cp.meta.namespace name)

unknown_values-map :
    (kind : PresetKind) (known : List String) (cps : List ChartPreset)
    → ((cp : ChartPreset) → Mem cp cps → is_known known cp.meta.name ≡ false)
    → unknown_values kind known cps ≡ map (located kind) cps
unfolding unknown_values
unknown_values-map kind known [] h = refl
unknown_values-map kind known (cp ∷ cps) h = rw (h cp mem-cons_self) (
    ap (λ vs. located kind cp ∷ vs)
      (unknown_values-map kind known cps (λ x m. h x (mem-cons_of_mem cp m))))

module _ (go : Runtime) (lawful : IsRuntime go) (c : Cluster) where
  -- With a runtime that sorts (`IsRuntime`), on a cluster that Rancher does not manage, when both
  -- lists are read, let the presets of the namespace `own` have that
  -- namespace, and let no preset of the cluster be named `own`. Then all presets of the cluster are
  -- returned in front of those of the namespace: none is left out because the namespace has a
  -- preset of the same name.
  pub load_namespace_all :
      (own : String) (sel : c.Selector) (s : c.State) (cps ccps : List ChartPreset)
      → c.is_rancher_managed ≡ false
      → c.list_chart_presets own sel s ≡ ok cps
      → c.list_cluster_chart_presets sel s ≡ ok ccps
      → ((cp : ChartPreset) → Mem cp cps → cp.meta.namespace ≡ own)
      → ((ccp : ChartPreset) → Mem ccp ccps → ccp.meta.name ≢ own)
      → load_namespace go c own sel s
        ≡ ok (
            map (located cluster_chart_preset) (go.sort_slice by_name ccps)
            ++ map (located chart_preset) (go.sort_slice by_name cps))
  unfolding load_namespace with_cluster_presets bundle_chart_presets bundle_cluster_chart_presets
  load_namespace_all own sel s cps ccps unmanaged a b h k =
      let in_own : (cp : ChartPreset)
          → Mem cp (go.sort_slice by_name cps)
          → cp.meta.namespace ≡ own =
        λ cp m. h cp (Perm.subset (lawful.sort_slice-perm by_name cps) cp m) in
      let fresh : (ccp : ChartPreset)
          → Mem ccp (go.sort_slice by_name ccps)
          → is_known (source_names (map (located chart_preset) (go.sort_slice by_name cps)))
              ccp.meta.name
            ≡ false =
        λ ccp m.
          is_known-source_names own ccp.meta.name (go.sort_slice by_name cps) in_own
            (k ccp (Perm.subset (lawful.sort_slice-perm by_name ccps) ccp m)) in
      rw (a, unmanaged)
        (rw (unknown_values-nil chart_preset (go.sort_slice by_name cps)) (
          rw b (
            rw (
              unknown_values-map cluster_chart_preset
                (source_names (map (located chart_preset) (go.sort_slice by_name cps)))
                (go.sort_slice by_name ccps) fresh))))
