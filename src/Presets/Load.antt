-- ===== src/Presets/Load.antt =====
-- `LoadPresetValues`.
pub mod Shadows
pub mod Filter
pub mod Bundled
pub mod Layers
use mathlib.Core.List.{reverse}
use rancid_syncer.Base.{
  String, List, [], ◌∷◌, ◌++◌, map, Bool, Option, none, some, ◌==◌, text_lt, if◌then◌else◌,
}
use rancid_syncer.Base.Dict.{lookup}
use rancid_syncer.Base.Outcome.{Outcome, ok, err, failure, ◌>>=◌}
use rancid_syncer.Base.Runtime.{Runtime}
use rancid_syncer.Kube.{Namespace}
use rancid_syncer.Presets.Types.{
  ChartPresetFlatRef, ResourceId, VariantRef, ChartPresetValues, Cluster,
}
use rancid_syncer.Presets.Bundle.{bundle_chart_presets, bundle_cluster_chart_presets}

abbrev pub project_id_label : String
project_id_label = "field.cattle.io/projectId"

-- The loop over `ed.Spec.Variants`, which ends at the first match.
unfoldable pub find_variant : String → List VariantRef → Option VariantRef
find_variant name [] = none
find_variant name (v ∷ variants) = if v.name == name then some v else find_variant name variants

-- The names that `knownPresets[v.Source.Ref.Name] = true` records.
unfoldable pub source_names : List ChartPresetValues → List String
source_names values = map (λ (v : ChartPresetValues). v.source.ref.name) values

abbrev pub ns_by_name : Namespace → Namespace → Bool
ns_by_name a b = text_lt a.meta.name b.meta.name

abbrev pub resource_of : ChartPresetFlatRef → ResourceId
resource_of ref = record { group = ref.group; version = ""; name = ref.resource; kind = ref.kind }

module _ (go : Runtime) (c : Cluster) where
  -- `for i := len(namespaces) - 1; i >= 0; i--`, over the namespaces from the last to the first,
  -- with the names of the project's presets so far and the values so far.
  unfoldable pub add_namespaces :
      String
      → c.Selector
      → List String
      → List Namespace
      → List String
      → List ChartPresetValues
      → c.State
      → Outcome (List String × List ChartPresetValues)
  unfolding source_names
  add_namespaces own sel known [] project values s = ok (project, values)
  add_namespaces own sel known (ns ∷ namespaces) project values s =
      let skipped = add_namespaces own sel known namespaces project values s in
      let added = λ (presets : List ChartPresetValues).
        add_namespaces own sel known namespaces (project ++ source_names presets)
          (presets ++ values) s in
      if ns.meta.name == own
      then skipped
      else (bundle_chart_presets go c ns.meta.name sel known s >>= added)

  -- The presets of the cluster in front of the values, without those that are known.
  unfoldable pub with_cluster_presets :
      c.Selector → List String → List ChartPresetValues → c.State → Outcome (List ChartPresetValues)
  with_cluster_presets sel known values s = do
    ccps ← bundle_cluster_chart_presets go c sel known s
    ok (ccps ++ values)

  -- The namespace is in a project.
  unfoldable pub load_project :
      String
      → String
      → c.Selector
      → List String
      → List ChartPresetValues
      → c.State
      → Outcome (List ChartPresetValues)
  unfolding add_namespaces with_cluster_presets
  load_project own project sel known values s = do
    items ← c.list_namespaces ((project_id_label, project) ∷ []) s
    r ← add_namespaces own sel known (reverse (go.sort_slice ns_by_name items)) [] values s
    with_cluster_presets sel (known ++ r.0) r.1 s

  unfoldable pub load_namespace : String → c.Selector → c.State → Outcome (List ChartPresetValues)
  unfolding load_project
  load_namespace own sel s = do
    values ← bundle_chart_presets go c own sel [] s
    if c.is_rancher_managed
        then (do
          ns ← c.get_namespace own s
          elim (lookup project_id_label ns.meta.labels) [
            | none ↦ with_cluster_presets sel (source_names values) values s
            | some project ↦ load_project own project sel (source_names values) values s
          ])
        else with_cluster_presets sel (source_names values) values s

  -- What `LoadPresetValues` does with the variant.
  unfoldable pub load_variant :
      ChartPresetFlatRef → VariantRef → c.State → Outcome (List ChartPresetValues)
  unfolding load_namespace
  load_variant ref v s = elim v.selector [
    | none ↦ ok []
    | some selector ↦ do
      sel ← c.as_selector (some selector)
      if ref.namespace == ""
          then bundle_cluster_chart_presets go c sel [] s
          else load_namespace ref.namespace sel s
  ]

  unfoldable pub load_preset_values :
      ChartPresetFlatRef → c.State → Outcome (List ChartPresetValues)
  unfolding find_variant load_variant
  load_preset_values ref s =
      if ref.preset_name == "" then err (failure "preset name is not set") else (do
        rid ← c.extract_resource_id (resource_of ref)
        elim (c.load_variants rid s) [
          | none ↦ err (failure "failed to detect ResourceEditor")
          | some variants ↦ elim (find_variant ref.preset_name variants) [
            | none ↦ err (failure "No variant with the name found")
            | some v ↦ load_variant ref v s
          ]
        ])
