-- ===== src/Tests/Rancher.antt =====
-- A Rancher cluster with a project of two namespaces, a project that has only Rancher's namespace,
-- and a Prometheus.
use rancid_syncer.Base.{ℕ, String, ◌≡◌, refl, List, [], ◌∷◌, true, none, some}
use rancid_syncer.Base.Dict.{Dict, lookup, insert, erase}
use rancid_syncer.Base.Outcome.{ok, err, not_found, no_match}
use rancid_syncer.Kube.{LabelSelector, Namespace, Prometheus, new_meta}
use rancid_syncer.Projects.Types.{Project, Alertmanager, Cluster, user_project}
use rancid_syncer.Projects.Grouping.{
  group_namespaces, add_namespace, with_namespace, new_project, type_with,
}
use rancid_syncer.Projects.Presets.{
  find_presets, visit_presets, presets_in, items_of, is_user_namespace,
}
use rancid_syncer.Projects.Monitoring.{
  project_of, monitor_projects, monitor_project, set_urls,
  find_sibling_alert_manager_for_prometheus, detect_project_monitoring_urls,
}
use rancid_syncer.Projects.Monitoring.Last.{IsMonitored, latest, monitor_projects-IsMonitored}
use rancid_syncer.Projects.Listing.{list_rancher_projects, get_rancher_project, find_project}
use rancid_syncer.Projects.Listing.Monitored.{HasMonitoring, get_rancher_project-HasMonitoring}
use rancid_syncer.Projects.Listing.Whole.{IsFound, get_rancher_project-IsFound}
use rancid_syncer.Projects.Selection.{namespace_for_preset, select_namespace, oldest_name}
use rancid_syncer.Projects.Selection.Oldest.{with_operated, IsOldest, namespace_for_preset-IsOldest}
use rancid_syncer.Tests.Machine.{machine, machine-IsRuntime, insertion_sort, insert_sorted}

abbrev namespace_in : String → String → ℕ → Namespace
namespace_in project name created = record {
  meta = record (new_meta name "") {
    labels = ("field.cattle.io/projectId", project) ∷ [];
    creation_timestamp = created;
  };
}

abbrev items : List Namespace
items =
    namespace_in "p-1" "shop" 7
    ∷ namespace_in "p-2" "cattle-project-p-2" 6
    ∷ namespace_in "p-1" "db" 5
    ∷ []

abbrev selector : LabelSelector
selector = record {
  match_labels = ("helm.cattle.io/projectId", "p-1") ∷ [];
  match_expressions = [];
}

abbrev prometheus : Prometheus
prometheus = record {
  meta = new_meta "prometheus" "cattle-project-p-1-monitoring";
  service_monitor_selector = none;
  service_monitor_namespace_selector = some selector;
  rule_selector = none;
  external_url = "";
}

abbrev pub alertmanager : Alertmanager
alertmanager = record {
  meta = new_meta "alertmanager" "cattle-project-p-1-monitoring";
  external_url = "";
}

-- The state is the Alertmanagers, in whatever namespace.
abbrev pub cluster : Cluster
cluster = record {
  State = List Alertmanager;
  Selector = Unit {0};
  Chart = Unit {0};
  now = 9;
  new_uid = λ id. id;
  is_rancher_managed = true;
  system_project_id = λ s. ok "p-0";
  as_selector = λ sel. ok tt;
  list_namespaces = λ s. ok items;
  select_namespaces = λ sel s. ok items;
  list_cluster_chart_presets = λ s. err no_match;
  list_chart_presets = λ ns s. err no_match;
  list_prometheuses = λ s. ok (prometheus ∷ []);
  list_alertmanagers = λ ns s. ok s;
  get_project_helm_chart = λ key s. err not_found;
  nested_string = λ path chart. "";
}

abbrev shop : Project
shop = record {
  name = "p-1";
  creation_timestamp = 5;
  uid = "p-1";
  labels = ("field.cattle.io/projectId", "p-1") ∷ [];
  type = user_project;
  namespaces = "shop" ∷ "db" ∷ [];
  namespace_selector = ("field.cattle.io/projectId", "p-1") ∷ [];
  presets = [];
  monitoring = none;
}

abbrev rancher : Project
rancher = record shop {
  name = "p-2";
  creation_timestamp = 6;
  uid = "p-2";
  labels = ("field.cattle.io/projectId", "p-2") ∷ [];
  namespaces = "cattle-project-p-2" ∷ [];
  namespace_selector = ("field.cattle.io/projectId", "p-2") ∷ [];
}

abbrev grouped : Dict Project
grouped = ("p-1", shop) ∷ ("p-2", rancher) ∷ []

groups : group_namespaces cluster items [] ≡ grouped
unfolding group_namespaces add_namespace with_namespace new_project type_with lookup insert
groups = refl

abbrev used : Dict Project
used = ("p-1", shop) ∷ []

dropped : find_presets cluster machine grouped grouped [] ≡ ok used
unfolding find_presets visit_presets presets_in items_of is_user_namespace insert erase
    insertion_sort
dropped = refl

abbrev monitored : Project
monitored = record shop {
  monitoring = some (record {
    prometheus_ref =
        some (record { namespace = "cattle-project-p-1-monitoring"; name = "prometheus" });
    alertmanager_ref =
        some (record { namespace = "cattle-project-p-1-monitoring"; name = "alertmanager" });
    alertmanager_url = "";
    grafana_url = "";
    prometheus_url = "";
  });
}

with_monitoring :
    monitor_projects cluster "p-0" (prometheus ∷ []) used (alertmanager ∷ [])
    ≡ ok (("p-1", monitored) ∷ [])
unfolding monitor_projects monitor_project set_urls project_of
    find_sibling_alert_manager_for_prometheus detect_project_monitoring_urls lookup insert
with_monitoring = refl

monitor_projects-IsMonitored_example :
    IsMonitored cluster "p-0"
      (alertmanager ∷ [])
      "p-1"
      (latest cluster "p-0" (alertmanager ∷ []) "p-1" (prometheus ∷ []) none)
      (lookup "p-1" used)
      (lookup "p-1" (("p-1", monitored) ∷ []))
monitor_projects-IsMonitored_example =
    monitor_projects-IsMonitored cluster "p-0" (alertmanager ∷ []) "p-1" (prometheus ∷ []) used
      (("p-1", monitored) ∷ []) with_monitoring

chosen : (namespace_for_preset machine cluster prometheus []).0 ≡ ok "db"
unfolding namespace_for_preset select_namespace oldest_name insertion_sort insert_sorted
chosen = refl

namespace_for_preset-IsOldest_example :
    (ls : LabelSelector) × (sel : Unit {0}) × (selected : List Namespace)
    × (prometheus.service_monitor_namespace_selector ≡ some ls)
    × (cluster.as_selector (some (with_operated ls)) ≡ ok sel)
    × (cluster.select_namespaces sel [] ≡ ok selected)
    × IsOldest "db" selected
namespace_for_preset-IsOldest_example =
    namespace_for_preset-IsOldest machine machine-IsRuntime cluster prometheus [] "db" chosen

whole_listing : list_rancher_projects machine cluster (alertmanager ∷ []) ≡ ok (monitored ∷ [])
unfolding list_rancher_projects find_presets visit_presets presets_in items_of is_user_namespace
    group_namespaces add_namespace with_namespace new_project type_with insert erase lookup
    insertion_sort insert_sorted monitor_projects project_of monitor_project set_urls
    find_sibling_alert_manager_for_prometheus detect_project_monitoring_urls
whole_listing = refl

get_rancher_project-IsFound_example :
    IsFound cluster "p-1" items (get_rancher_project machine cluster "p-1" (alertmanager ∷ []))
get_rancher_project-IsFound_example =
    get_rancher_project-IsFound machine machine-IsRuntime cluster "p-1" (alertmanager ∷ []) items
      (monitored ∷ []) refl whole_listing

returned : get_rancher_project machine cluster "p-1" (alertmanager ∷ []) ≡ ok monitored
unfolding get_rancher_project find_project list_rancher_projects find_presets visit_presets
    presets_in items_of is_user_namespace group_namespaces add_namespace with_namespace new_project
    type_with insert erase lookup insertion_sort insert_sorted monitor_projects project_of
    monitor_project set_urls find_sibling_alert_manager_for_prometheus
    detect_project_monitoring_urls
returned = refl

prometheuses : items_of (cluster.list_prometheuses (alertmanager ∷ [])) ≡ ok (prometheus ∷ [])
unfolding items_of
prometheuses = refl

get_rancher_project-HasMonitoring_example :
    HasMonitoring cluster "p-0"
      (alertmanager ∷ [])
      "p-1"
      (latest cluster "p-0" (alertmanager ∷ []) "p-1" (prometheus ∷ []) none)
      monitored.monitoring
get_rancher_project-HasMonitoring_example =
    get_rancher_project-HasMonitoring machine machine-IsRuntime cluster "p-1" (alertmanager ∷ [])
      items (monitored ∷ []) "p-0" (prometheus ∷ []) monitored refl whole_listing refl refl
      prometheuses returned
