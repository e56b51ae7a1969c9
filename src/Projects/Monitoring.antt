-- ===== src/Projects/Monitoring.antt =====
-- The third loop of `ListRancherProjects`, `FindSiblingAlertManagerForPrometheus` and
-- `DetectProjectMonitoringURLs`.
pub mod Kept
pub mod Last
use rancid_syncer.Base.{String, List, [], ◌∷◌, Option, none, some, ◌==◌, if◌then◌else◌}
use rancid_syncer.Base.Dict.{Dict, lookup, insert}
use rancid_syncer.Base.Outcome.{Outcome, ok, err, panic, nil_dereference, ◌>>=◌}
use rancid_syncer.Kube.{ObjectKey, object_key, Prometheus}
use rancid_syncer.Projects.Types.{Project, ProjectMonitoring, Alertmanager, Cluster}
use rancid_syncer.Projects.Texts.{replace_first, trim_suffix}

abbrev pub helm_project_id_label : String
helm_project_id_label = "helm.cattle.io/projectId"

-- `m[k]`, where a missing key reads as the empty string.
abbrev pub text_at : Option String → String
text_at none = ""
text_at (some v) = v

unfoldable pub project_of : String → Prometheus → String
project_of system prom =
    if prom.meta.namespace == "cattle-monitoring-system"
    then system
    else (elim prom.service_monitor_namespace_selector [
      | none ↦ ""
      | some sel ↦ text_at (lookup helm_project_id_label sel.match_labels)
    ])

unfoldable pub grafana_of : String → String
unfolding replace_first
grafana_of url =
    replace_first "/services/http:rancher-monitoring-prometheus:9090/proxy"
      "/services/http:rancher-monitoring-grafana:80/proxy/?orgId=1" url

abbrev pub monitoring_of : Option ProjectMonitoring → ProjectMonitoring
monitoring_of none = record {
  prometheus_ref = none;
  alertmanager_ref = none;
  alertmanager_url = "";
  grafana_url = "";
  prometheus_url = "";
}
monitoring_of (some monitoring) = monitoring

abbrev pub with_refs : Prometheus → Alertmanager → ProjectMonitoring → ProjectMonitoring
with_refs prom alertmanager monitoring = record monitoring {
  prometheus_ref = some (object_key prom.meta);
  alertmanager_ref = some (object_key alertmanager.meta);
}

module _ (c : Cluster) where
  -- The first Alertmanager of the namespace, and nil without an error if there is none.
  unfoldable pub find_sibling_alert_manager_for_prometheus :
      ObjectKey → c.State → Outcome (Option Alertmanager)
  find_sibling_alert_manager_for_prometheus key s = do
    items ← c.list_alertmanagers key.namespace s
    ok (elim items [ [] ↦ none | a ∷ _ ↦ some a ])

  -- The three addresses, which stay empty when the chart is not found.
  unfoldable pub detect_project_monitoring_urls :
      String → c.State → Outcome (String × String × String)
  unfolding trim_suffix
  detect_project_monitoring_urls prom_ns s =
      elim (c.get_project_helm_chart
        (record { namespace = trim_suffix "-monitoring" prom_ns; name = "project-monitoring" }) s) [
          | ok chart ↦ ok (
            c.nested_string ("status" ∷ "dashboardValues" ∷ "alertmanagerURL" ∷ []) chart,
            c.nested_string ("status" ∷ "dashboardValues" ∷ "grafanaURL" ∷ []) chart,
            c.nested_string ("status" ∷ "dashboardValues" ∷ "prometheusURL" ∷ []) chart,
          )
          | err _ ↦ ok ("", "", "")
          | panic m ↦ panic m
        ]

  -- The monitoring of a project that was found, with its Prometheus and its Alertmanager.
  unfoldable pub set_urls :
      String
      → String
      → Prometheus
      → Alertmanager
      → ProjectMonitoring
      → c.State
      → Outcome ProjectMonitoring
  unfolding grafana_of detect_project_monitoring_urls
  set_urls system id prom alertmanager monitoring s =
      if id == system
      then ok (record monitoring {
        alertmanager_url = alertmanager.external_url;
        prometheus_url = prom.external_url;
        grafana_url = grafana_of prom.external_url;
      })
      else (do
        urls ← detect_project_monitoring_urls prom.meta.namespace s
        ok (record monitoring {
          alertmanager_url = urls.0;
          grafana_url = urls.1;
          prometheus_url = urls.2;
        }))

  unfoldable pub monitor_project :
      String → String → Prometheus → Project → c.State → Outcome Project
  unfolding find_sibling_alert_manager_for_prometheus set_urls
  monitor_project system id prom prj s = do
    sibling ← find_sibling_alert_manager_for_prometheus (object_key prom.meta) s
    elim sibling [
      | none ↦ panic nil_dereference
      | some alertmanager ↦ do
        monitoring ←
            set_urls system id prom alertmanager
              (with_refs prom alertmanager (monitoring_of prj.monitoring)) s
        ok (record prj { monitoring = some monitoring })
    ]

  -- `for _, prom := range promList.Items`
  unfoldable pub monitor_projects :
      String → List Prometheus → Dict Project → c.State → Outcome (Dict Project)
  unfolding project_of monitor_project
  monitor_projects system [] projects s = ok projects
  monitor_projects system (prom ∷ items) projects s =
      let id = project_of system prom in
      let skipped = monitor_projects system items projects s in
      let found = λ (prj : Project). monitor_projects system items (insert id prj projects) s in
      elim (lookup id projects) [
        | none ↦ skipped
        | some prj ↦ monitor_project system id prom prj s >>= found
      ]
