-- ===== src/Presets/Types.antt =====
-- The data of the preset calculation, and what it calls. The API server, the resource editors and
-- the selectors are parameters.
use rancid_syncer.Base.{String, List, Option, Bool}
use rancid_syncer.Base.Outcome.{Outcome}
use rancid_syncer.Kube.{Labels, LabelSelector, Namespace, ObjectMeta, ObjectKey}

-- `chartsapi.ChartPresetFlatRef`
pub record ChartPresetFlatRef : Type 0 where
  pub group : String
  pub resource : String
  pub kind : String
  pub preset_name : String
  pub namespace : String

-- `kmapi.ResourceID`, with the fields that are read and written.
pub record ResourceId : Type 0 where
  pub group : String
  pub version : String
  pub name : String
  pub kind : String

-- `uiv1alpha1.VariantRef`
pub record VariantRef : Type 0 where
  pub name : String
  pub selector : Option LabelSelector

-- A ChartPreset, or a ClusterChartPreset, which has no namespace. The values are JSON text.
pub record ChartPreset : Type 0 where
  pub meta : ObjectMeta
  pub values : String

pub data PresetKind : Type 0 where
  chart_preset cluster_chart_preset : PresetKind

-- `chartsapi.SourceLocator`: the kind of the resource stands for its group, version and kind.
pub record SourceLocator : Type 0 where
  pub resource : PresetKind
  pub ref : ObjectKey

pub record ChartPresetValues : Type 0 where
  pub source : SourceLocator
  pub values : String

pub record Cluster : Type 1 where
  pub State : Type 0
  pub Selector : Type 0
  pub is_rancher_managed : Bool
  -- `kmapi.ExtractResourceID`, and the variants of the editor that `resourceeditors.LoadByGVR`
  -- finds.
  pub extract_resource_id : ResourceId → Outcome ResourceId
  pub load_variants : ResourceId → State → Option (List VariantRef)
  pub as_selector : Option LabelSelector → Outcome Selector
  pub get_namespace : String → State → Outcome Namespace
  pub list_namespaces : Labels → State → Outcome (List Namespace)
  pub list_chart_presets : String → Selector → State → Outcome (List ChartPreset)
  pub list_cluster_chart_presets : Selector → State → Outcome (List ChartPreset)
  pub get_chart_preset : ObjectKey → State → Outcome ChartPreset
