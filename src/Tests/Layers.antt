-- ===== src/Tests/Layers.antt =====
-- A project of three namespaces, each with a preset of its own.
use rancid_syncer.Base.{String, ◌≡◌, refl, List, [], map, ◌∷◌, ◌++◌, true, none, some, ◌<>◌}
use rancid_syncer.Base.Dict.{lookup}
use rancid_syncer.Base.Outcome.{ok, err, not_found}
use rancid_syncer.Kube.{Namespace, new_meta}
use rancid_syncer.Presets.Types.{
  ChartPreset, ChartPresetValues, chart_preset, cluster_chart_preset, Cluster,
}
use rancid_syncer.Presets.Bundle.{
  by_name, located, unknown_values, bundle_chart_presets, bundle_cluster_chart_presets,
}
use rancid_syncer.Presets.Load.{
  project_id_label, source_names, ns_by_name, load_namespace, load_project, add_namespaces,
  with_cluster_presets,
}
use rancid_syncer.Presets.Load.Filter.{values_of, IsClusterLayer}
use rancid_syncer.Presets.Load.Layers.{AreLayers, IsRef, load_namespace-AreLayers}
use rancid_syncer.Tests.Machine.{machine, insertion_sort, insert_sorted}

abbrev preset : String → String → ChartPreset
preset name namespace = record { meta = new_meta name namespace; values = "{}" }

abbrev namespace_in : String → Namespace
namespace_in name = record {
  meta = record (new_meta name "") { labels = (project_id_label, "p-1") ∷ [] };
}

abbrev cluster : Cluster
cluster = record {
  State = Unit {0};
  Selector = Unit {0};
  is_rancher_managed = true;
  extract_resource_id = λ rid. ok rid;
  load_variants = λ rid s. none;
  as_selector = λ sel. ok tt;
  get_namespace = λ name s. ok (namespace_in name);
  list_namespaces =
      λ labels s. ok (namespace_in "web" ∷ namespace_in "app" ∷ namespace_in "db" ∷ []);
  list_chart_presets = λ ns sel s. ok (preset ("of-" <> ns) ns ∷ []);
  list_cluster_chart_presets = λ sel s. ok (preset "monitoring" "" ∷ []);
  get_chart_preset = λ key s. err not_found;
}

abbrev loaded : List ChartPresetValues
loaded =
    located cluster_chart_preset (preset "monitoring" "")
    ∷ located chart_preset (preset "of-db" "db")
    ∷ located chart_preset (preset "of-web" "web")
    ∷ located chart_preset (preset "of-app" "app")
    ∷ []

layers_loaded : load_namespace machine cluster "app" tt tt ≡ ok loaded
unfolding load_namespace load_project add_namespaces with_cluster_presets bundle_chart_presets
    bundle_cluster_chart_presets unknown_values located source_names lookup insertion_sort
    insert_sorted
layers_loaded = refl

in_project : lookup project_id_label (namespace_in "app").meta.labels ≡ some "p-1"
unfolding lookup
in_project = refl

load_namespace-AreLayers_example :
    (cps : List ChartPreset) × (items : List Namespace) × (ccps : List ChartPresetValues)
    × (layers : List ChartPresetValues) × (values : List ChartPresetValues)
    × (cluster.list_chart_presets "app" tt tt ≡ ok cps)
    × (values ≡ map (values_of chart_preset) (machine.sort_slice by_name cps))
    × (cluster.list_namespaces ((project_id_label, "p-1") ∷ []) tt ≡ ok items)
    × AreLayers machine cluster "app" tt tt
        (IsRef machine cluster values)
        (machine.sort_slice ns_by_name items)
        layers
    × IsClusterLayer machine cluster tt tt (IsRef machine cluster (layers ++ values)) ccps
    × (loaded ≡ ccps ++ (layers ++ values))
load_namespace-AreLayers_example =
    load_namespace-AreLayers machine cluster "app" "p-1" tt (namespace_in "app") loaded tt refl refl
      in_project layers_loaded
