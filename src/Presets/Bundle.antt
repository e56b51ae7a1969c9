-- ===== src/Presets/Bundle.antt =====
-- `bundleChartPresets` and `bundleClusterChartPresets`. The keys of the map `knownPresets` are a
-- list: only their presence is read.
use rancid_syncer.Base.{String, List, [], ◌∷◌, Bool, ◌==◌, any, text_lt, if◌then◌else◌}
use rancid_syncer.Base.Outcome.{Outcome, ok, ◌>>=◌}
use rancid_syncer.Base.Runtime.{Runtime}
use rancid_syncer.Presets.Types.{
  ChartPreset, PresetKind, chart_preset, cluster_chart_preset, ChartPresetValues, Cluster,
}

-- `_, exists := knownPresets[name]`
abbrev pub is_known : List String → String → Bool
is_known known name = any (λ k. k == name) known

abbrev pub by_name : ChartPreset → ChartPreset → Bool
by_name a b = text_lt a.meta.name b.meta.name

-- The values of one preset. The reference's name is set from the preset's namespace.
unfoldable pub located : PresetKind → ChartPreset → ChartPresetValues
located kind cp = record {
  source = record {
    resource = kind;
    ref = record { namespace = cp.meta.namespace; name = cp.meta.namespace };
  };
  values = cp.values;
}

-- The loop over the presets.
unfoldable pub unknown_values : PresetKind → List String → List ChartPreset → List ChartPresetValues
unfolding located
unknown_values kind known [] = []
unknown_values kind known (cp ∷ cps) =
    if is_known known cp.meta.name
    then unknown_values kind known cps
    else located kind cp ∷ unknown_values kind known cps

module _ (go : Runtime) (c : Cluster) where
  unfoldable pub bundle_chart_presets :
      String → c.Selector → List String → c.State → Outcome (List ChartPresetValues)
  unfolding unknown_values
  bundle_chart_presets ns sel known s = do
    items ← c.list_chart_presets ns sel s
    ok (unknown_values chart_preset known (go.sort_slice by_name items))

  unfoldable pub bundle_cluster_chart_presets :
      c.Selector → List String → c.State → Outcome (List ChartPresetValues)
  unfolding unknown_values
  bundle_cluster_chart_presets sel known s = do
    items ← c.list_cluster_chart_presets sel s
    ok (unknown_values cluster_chart_preset known (go.sort_slice by_name items))
