-- ===== src/Setup.antt =====
-- main.go: the service, the presets and the AppBinding of a Prometheus. What is called is a
-- parameter.
pub mod Laws
pub mod Access
pub mod Token
pub mod Cluster
pub mod Grafana
use rancid_syncer.Base.{
  ℕ, String, List, [], ◌∷◌, Option, none, some, Bool, true, false, ◌==◌, ◌&&◌, not, if◌then◌else◌,
}
use rancid_syncer.Base.Dict.{insert}
use rancid_syncer.Base.Outcome.{Outcome, ok, err, not_found, ◌>>=◌}
use rancid_syncer.Base.Effect.{Effect, lift}
use rancid_syncer.Base.Effect
use rancid_syncer.Kube.{
  Labels, LabelSelector, ObjectKey, ObjectMeta, Prometheus, Service, ServicePort, new_meta,
}

-- `mona.MonitoringPresets`, with the fields that are set.
pub record MonitoringPresets : Type 0 where
  pub agent : String
  pub service_monitor_labels : Labels
  pub alert_enabled : String
  pub alert_labels : Labels

-- A ChartPreset or a ClusterChartPreset, with its values in JSON.
pub record Preset : Type 0 where
  pub meta : ObjectMeta
  pub values : String

pub record ServiceReference : Type 0 where
  pub scheme : String
  pub namespace : String
  pub name : String
  pub port : ℕ

-- An AppBinding of a Prometheus.
pub record AppBinding : Type 0 where
  pub meta : ObjectMeta
  pub type : String
  pub app_ref : Option ObjectKey
  pub service : Option ServiceReference

pub record Server : Type 1 where
  pub State : Type 0
  pub labels_for_selector : Option LabelSelector → Labels
  pub marshal : MonitoringPresets → Outcome String
  -- The response of the resource query, taken out of its JSON.
  pub exposing_services : ObjectKey → State → Outcome (List Service)
  pub patch_cluster_chart_preset : Preset → (Preset → Preset) → Effect State (Unit {0})
  pub patch_chart_preset : Preset → (Preset → Preset) → Effect State (Unit {0})
  pub patch_app_binding : AppBinding → (AppBinding → AppBinding) → Effect State Bool

-- The first service with a cluster address.
unfoldable pub first_exposed : List Service → Outcome Service
first_exposed [] = err not_found
first_exposed (svc ∷ items) = if not (svc.cluster_ip == "None") then ok svc else first_exposed items

abbrev pub presets_monitoring : String
presets_monitoring = "monitoring-presets"

abbrev pub default_presets_labels : Labels
default_presets_labels = ("charts.x-helm.dev/is-default-preset", "true") ∷ []

unfoldable pub change_preset : String → Preset → Preset
change_preset preset_bytes obj = record {
  meta = record obj.meta { labels = default_presets_labels };
  values = preset_bytes;
}

-- The number of the last port that is named `http-web`, or the one before.
unfoldable pub web_port : List ServicePort → ℕ → ℕ
web_port [] port = port
web_port (p ∷ ports) port = web_port ports (if p.name == "http-web" then p.port else port)

unfoldable pub change_app_binding : Prometheus → Service → AppBinding → AppBinding
unfolding web_port
change_app_binding p svc obj = record {
  meta = record obj.meta {
    annotations =
        insert "monitoring.appscode.com/is-default-prometheus" "true" obj.meta.annotations;
  };
  type = "Prometheus";
  app_ref = some (record { namespace = p.meta.namespace; name = p.meta.name });
  service = some (record {
    scheme = "http";
    namespace = svc.meta.namespace;
    name = svc.meta.name;
    port = web_port svc.ports 0;
  });
}

module _ (c : Server) where
  unfoldable pub find_service_for_prometheus : ObjectKey → c.State → Outcome Service
  unfolding first_exposed
  find_service_for_prometheus key s = do items ← c.exposing_services key s; first_exposed items

  unfoldable pub generate_preset_for_prometheus : Prometheus → MonitoringPresets
  generate_preset_for_prometheus p = record {
    agent = "prometheus.io/operator";
    service_monitor_labels = c.labels_for_selector p.service_monitor_selector;
    alert_enabled = "critical";
    alert_labels = c.labels_for_selector p.rule_selector;
  }

  unfoldable pub create_cluster_preset : String → Effect c.State (Unit {0})
  unfolding change_preset
  create_cluster_preset preset_bytes =
      c.patch_cluster_chart_preset (record { meta = new_meta presets_monitoring ""; values = "" })
        (change_preset preset_bytes)

  unfoldable pub create_project_preset : Prometheus → String → Effect c.State (Unit {0})
  unfolding change_preset
  create_project_preset p preset_bytes =
      c.patch_chart_preset
        (record { meta = new_meta presets_monitoring p.meta.namespace; values = "" })
        (change_preset preset_bytes)

  -- `managed` is `cm.ManagedByRancher()`.
  unfoldable pub create_preset : Bool → Prometheus → Bool → Effect c.State (Unit {0})
  unfolding generate_preset_for_prometheus create_cluster_preset create_project_preset
  create_preset managed p is_default =
      Effect.◌>>=◌ (lift (c.marshal (generate_preset_for_prometheus p))) (λ preset_bytes.
        if managed
        then (if is_default
            then create_cluster_preset preset_bytes
            else create_project_preset p preset_bytes)
        else create_cluster_preset preset_bytes)

  -- The result tells whether the AppBinding was created.
  unfoldable pub create_prometheus_app_binding : Prometheus → Service → Effect c.State Bool
  unfolding change_app_binding
  create_prometheus_app_binding p svc =
      c.patch_app_binding
        (record {
          meta = new_meta "default-prometheus" p.meta.namespace;
          type = "";
          app_ref = none;
          service = none;
        })
        (change_app_binding p svc)
