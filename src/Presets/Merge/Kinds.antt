-- ===== src/Presets/Merge/Kinds.antt =====
-- Where the values that `MergePresetValues` returns come from.
use rancid_syncer.Base.{
  String, ◌≡◌, refl, subst, List, [], ◌∷◌, ◌++◌, true, not, some, ◌==◌, All, All-append, inl, inr,
  Bool-cases, Option-cases,
}
use rancid_syncer.Base.Outcome.{Outcome, ok, ok-injective, Error, >>=-eq-ok}
use rancid_syncer.Base.Runtime.{Runtime}
use rancid_syncer.Presets.Types.{
  ChartPreset, ChartPresetFlatRef, cluster_chart_preset, VariantRef, ChartPresetValues, Cluster,
}
use rancid_syncer.Presets.Bundle.{by_name, located}
use rancid_syncer.Presets.Load.{resource_of}
use rancid_syncer.Presets.Merge.{merge_presets, merge_variants, merge_preset_values}

-- The values are those of a ClusterChartPreset.
abbrev pub IsOfCluster : ChartPresetValues → Type 0
IsOfCluster v = v.source.resource ≡ cluster_chart_preset

located_kind : (ccp : ChartPreset) → IsOfCluster (located cluster_chart_preset ccp)
unfolding located
located_kind ccp = refl

refused : {A : Type 0} {e : Error} {a : A} → Outcome.err e ≡ ok a → ⊥
refused e = cc

module _ (go : Runtime) (c : Cluster) where
  merge_presets-IsOfCluster :
      (namespace : String) (ccps : List ChartPreset) (values result : List ChartPresetValues)
      → (s : c.State) → (namespace == "") ≡ true
      → All IsOfCluster values
      → merge_presets go c namespace ccps values s ≡ ok result
      → All IsOfCluster result
  unfolding merge_presets
  merge_presets-IsOfCluster namespace [] values result s e a h =
      subst (All IsOfCluster) (ok-injective h) a
  merge_presets-IsOfCluster namespace (ccp ∷ ccps) values result s e a h =
      merge_presets-IsOfCluster namespace ccps (values ++ located cluster_chart_preset ccp ∷ [])
        result s e
        (All-append IsOfCluster values (located cluster_chart_preset ccp ∷ []) a
          (located_kind ccp, tt))
        (rw e at h)

  merge_variants-IsOfCluster :
      (ref : ChartPresetFlatRef) (variants : List VariantRef)
      (values result : List ChartPresetValues)
      → (s : c.State) → (ref.namespace == "") ≡ true
      → All IsOfCluster values
      → merge_variants go c ref variants values s ≡ ok result
      → All IsOfCluster result
  unfolding merge_variants
  merge_variants-IsOfCluster ref [] values result s e a h =
      subst (All IsOfCluster) (ok-injective h) a
  merge_variants-IsOfCluster ref (v ∷ variants) values result s e a h =
      elim (Bool-cases (not (v.name == ref.preset_name))) [
        | inl other ↦ merge_variants-IsOfCluster ref variants values result s e a (rw other at h)
        | inr same ↦ elim (Option-cases v.selector) [
          | inl bare ↦
              merge_variants-IsOfCluster ref variants values result s e a (rw (same, bare) at h)
          | inr (selector, chosen) ↦
              let (sel, d, f) =
                >>=-eq-ok (c.as_selector (some selector)) _ (rw (same, chosen) at h) in
              let (items, d1, f1) = >>=-eq-ok (c.list_cluster_chart_presets sel s) _ f in
              let sorted = go.sort_slice by_name items in
              let (more, d2, f2) =
                >>=-eq-ok (merge_presets go c ref.namespace sorted values s) _ f1 in
              merge_variants-IsOfCluster ref variants more result s e
                (merge_presets-IsOfCluster ref.namespace sorted values more s e a d2) f2
        ]
      ]

  -- Everything that `MergePresetValues` returns comes from a ClusterChartPreset: since it refuses a
  -- reference with a namespace, no ChartPreset ever takes the place of one.
  pub merge_preset_values-IsOfCluster :
      (ref : ChartPresetFlatRef) (s : c.State) (result : List ChartPresetValues)
      → merge_preset_values go c ref s ≡ ok result
      → All IsOfCluster result
  unfolding merge_preset_values
  merge_preset_values-IsOfCluster ref s result h = elim (Bool-cases (ref.namespace == "")) [
    | inr known ↦ absurd (refused (rw known at h))
    | inl e ↦ elim (Bool-cases (ref.preset_name == "")) [
      | inl unnamed ↦ subst (All IsOfCluster) (ok-injective (rw (e, unnamed) at h)) tt
      | inr named ↦
          let (rid, d, f) =
            >>=-eq-ok (c.extract_resource_id (resource_of ref)) _ (rw (e, named) at h) in
          elim (Option-cases (c.load_variants rid s)) [
            | inl missing ↦ absurd (refused (rw missing at f))
            | inr (variants, found) ↦
                merge_variants-IsOfCluster ref variants [] result s e tt (rw found at f)
          ]
    ]
  ]
