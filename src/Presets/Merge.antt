-- ===== src/Presets/Merge.antt =====
-- `MergePresetValues`.
pub mod Kinds
use rancid_syncer.Base.{String, List, [], ◌∷◌, ◌++◌, not, none, some, ◌==◌, if◌then◌else◌}
use rancid_syncer.Base.Outcome.{Outcome, ok, err, panic, failure, is_not_found, ◌>>=◌}
use rancid_syncer.Base.Runtime.{Runtime}
use rancid_syncer.Presets.Types.{
  ChartPreset, ChartPresetFlatRef, chart_preset, cluster_chart_preset, VariantRef,
  ChartPresetValues, Cluster,
}
use rancid_syncer.Presets.Bundle.{by_name, located}
use rancid_syncer.Presets.Load.{resource_of}

module _ (go : Runtime) (c : Cluster) where
  -- The preset of the namespace in place of that of the cluster, if there is one.
  unfoldable pub preset_in : String → ChartPreset → c.State → Outcome ChartPresetValues
  preset_in namespace ccp s =
      elim (c.get_chart_preset (record { namespace = namespace; name = ccp.meta.name }) s) [
        | ok cp ↦ ok (located chart_preset cp)
        | err e ↦ if is_not_found e then ok (located cluster_chart_preset ccp) else err e
        | panic m ↦ panic m
      ]

  unfoldable pub merge_presets :
      String
      → List ChartPreset
      → List ChartPresetValues
      → c.State
      → Outcome (List ChartPresetValues)
  unfolding preset_in
  merge_presets namespace [] values s = ok values
  merge_presets namespace (ccp ∷ ccps) values s = do
    v ← if namespace == "" then ok (located cluster_chart_preset ccp) else preset_in namespace ccp s
    merge_presets namespace ccps (values ++ v ∷ []) s

  unfoldable pub merge_variants :
      ChartPresetFlatRef
      → List VariantRef
      → List ChartPresetValues
      → c.State
      → Outcome (List ChartPresetValues)
  unfolding merge_presets
  merge_variants ref [] values s = ok values
  merge_variants ref (v ∷ variants) values s =
      let skipped = merge_variants ref variants values s in
      let merged = λ (more : List ChartPresetValues). merge_variants ref variants more s in
      if not (v.name == ref.preset_name) then skipped else (elim v.selector [
        | none ↦ skipped
        | some selector ↦ c.as_selector (some selector) >>= λ sel.
            c.list_cluster_chart_presets sel s >>= λ items.
            merge_presets ref.namespace (go.sort_slice by_name items) values s >>= merged
      ])

  unfoldable pub merge_preset_values :
      ChartPresetFlatRef → c.State → Outcome (List ChartPresetValues)
  unfolding merge_variants
  merge_preset_values ref s =
      if not (ref.namespace == "")
      then err (failure "Only call when namespace is not known")
      else if ref.preset_name == ""
      then ok []
      else (do
        rid ← c.extract_resource_id (resource_of ref)
        elim (c.load_variants rid s) [
          | none ↦ err (failure "failed to detect ResourceEditor")
          | some variants ↦ merge_variants ref variants [] s
        ])
