-- ===== src/Projects/Types.antt =====
-- The data of the projects, and what the functions call, as parameters.
use rancid_syncer.Base.{ℕ, String, List, Option, Bool}
use rancid_syncer.Base.Outcome.{Outcome}
use rancid_syncer.Kube.{Labels, LabelSelector, Namespace, ObjectKey, ObjectMeta, Prometheus}
use rancid_syncer.Presets.Types.{ChartPreset, SourceLocator}

-- `rscoreapi.ProjectType`
pub data ProjectType : Type 0 where
  user_project default_project system_project : ProjectType

-- `rscoreapi.ProjectMonitoring`
pub record ProjectMonitoring : Type 0 where
  pub prometheus_ref : Option ObjectKey
  pub alertmanager_ref : Option ObjectKey
  pub alertmanager_url : String
  pub grafana_url : String
  pub prometheus_url : String

-- `rscoreapi.Project`. The namespace selector is that on the labels.
pub record Project : Type 0 where
  pub name : String
  pub creation_timestamp : ℕ
  pub uid : String
  pub labels : Labels
  pub type : ProjectType
  pub namespaces : List String
  pub namespace_selector : Labels
  pub presets : List SourceLocator
  pub monitoring : Option ProjectMonitoring

pub record Alertmanager : Type 0 where
  pub meta : ObjectMeta
  pub external_url : String

pub record Cluster : Type 1 where
  pub State : Type 0
  pub Selector : Type 0
  pub Chart : Type 0
  -- `time.Now()` and the new UUID of a project.
  pub now : ℕ
  pub new_uid : String → String
  pub is_rancher_managed : Bool
  -- `clustermeta.GetSystemProjectId`
  pub system_project_id : State → Outcome String
  pub as_selector : Option LabelSelector → Outcome Selector
  -- The API server.
  pub list_namespaces : State → Outcome (List Namespace)
  pub select_namespaces : Selector → State → Outcome (List Namespace)
  pub list_cluster_chart_presets : State → Outcome (List ChartPreset)
  pub list_chart_presets : String → State → Outcome (List ChartPreset)
  pub list_prometheuses : State → Outcome (List Prometheus)
  pub list_alertmanagers : String → State → Outcome (List Alertmanager)
  pub get_project_helm_chart : ObjectKey → State → Outcome Chart
  -- `unstructured.NestedString`, its first result.
  pub nested_string : List String → Chart → String
