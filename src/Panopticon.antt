-- ===== src/Panopticon.antt =====
-- panopticon/lib.go: the ServiceMonitor through which a Prometheus scrapes panopticon. Its API
-- server and helpers are those of the federation.
pub mod Scope
use rancid_syncer.Base.{
  String, ◌<>◌, List, [], ◌∷◌, ◌++◌, map, Bool, true, false, Option, none, some, text_lt,
}
use rancid_syncer.Base.Dict.{lookup}
use rancid_syncer.Base.Outcome.{Outcome, ok, ◌>>=◌}
use rancid_syncer.Base.Effect.{Effect, read, pure}
use rancid_syncer.Base.Effect
use rancid_syncer.Base.Runtime.{Runtime}
use rancid_syncer.Kube.{
  Labels, Namespace, Service, RelabelConfig, MonitorEndpoint, ServiceMonitor, Prometheus,
}
use rancid_syncer.Federate.Client.{Client}
use rancid_syncer.Federate.Copy.{project_id_label, prometheus_gvk, join}
use rancid_syncer.Federate.Write.{new_service_monitor}

-- The calls that the client of the federation does not have.
pub record Namespaces (c : Client) : Type 0 where
  pub get_namespace : String → c.State → Outcome Namespace
  pub list_by_labels : Labels → c.State → Outcome (List Namespace)

abbrev pub namespace_name : Namespace → String
namespace_name x = x.meta.name

abbrev pub relabel : List String → String → String → RelabelConfig
relabel source_labels regex action = record {
  source_labels = source_labels;
  separator = "";
  target_label = "";
  regex = regex;
  modulus = 0;
  replacement = "";
  action = action;
}

abbrev pub drop_labels : RelabelConfig
drop_labels = relabel [] "pod|service|endpoint|namespace" "labeldrop"

unfoldable pub relabel_configs : List String → List RelabelConfig
relabel_configs [] = drop_labels ∷ []
relabel_configs (ns ∷ namespaces) =
    relabel ("namespace" ∷ []) (join "|" (ns ∷ namespaces)) "keep" ∷ drop_labels ∷ []

abbrev pub token_file : String
token_file = "/var/run/secrets/kubernetes.io/serviceaccount/token"

unfoldable pub api_endpoint : Service → List String → MonitorEndpoint
unfolding relabel_configs
api_endpoint panopticon namespaces = record {
  port = "api";
  scheme = "https";
  interval = "10s";
  bearer_token_file = token_file;
  honor_labels = false;
  tls_config = some (record {
    ca_secret = some (record { name = panopticon.meta.name <> "-apiserver-cert"; key = "tls.crt" });
    server_name = panopticon.meta.name <> "." <> panopticon.meta.namespace <> ".svc";
  });
  relabel_configs = relabel_configs namespaces;
  metric_relabel_configs = [];
}

abbrev pub telemetry_endpoint : MonitorEndpoint
telemetry_endpoint = record {
  port = "telemetry";
  scheme = "http";
  interval = "10s";
  bearer_token_file = token_file;
  honor_labels = false;
  tls_config = none;
  relabel_configs = [];
  metric_relabel_configs = [];
}

module _ (go : Runtime) (c : Client) (n : Namespaces c) where
  -- The names of the namespaces in the project of the seed, sorted; nil if it is in none.
  unfoldable pub list_project_namespaces : String → c.State → Outcome (List String)
  list_project_namespaces seed_ns s = do
    seed ← n.get_namespace seed_ns s
    elim (lookup project_id_label seed.meta.labels) [
      | none ↦ ok []
      | some project ↦ do
        items ← n.list_by_labels ((project_id_label, project) ∷ []) s
        ok (go.sort_slice text_lt (map namespace_name items))
    ]

  unfoldable pub change_panopticon_monitor :
      Prometheus → Service → List String → ServiceMonitor → ServiceMonitor
  unfolding api_endpoint
  change_panopticon_monitor prom panopticon namespaces obj = record {
    meta = record obj.meta {
      labels =
          c.overwrite_keys obj.meta.labels (c.labels_for_selector prom.service_monitor_selector);
      owner_references = c.controller_ref prom.meta prometheus_gvk ∷ [];
    };
    spec = record {
      endpoints = api_endpoint panopticon namespaces ∷ telemetry_endpoint ∷ [];
      namespace_selector = record { any = false; match_names = panopticon.meta.namespace ∷ [] };
      selector = record { match_labels = panopticon.meta.labels; match_expressions = [] };
    };
  }

  abbrev pub project_namespaces : Prometheus → c.State → Outcome (List String)
  project_namespaces prom s = elim c.is_rancher_managed [
    | true ↦ list_project_namespaces prom.meta.namespace s
    | false ↦ ok []
  ]

  unfoldable pub create_service_monitor : Prometheus → Service → Effect c.State ServiceMonitor
  unfolding list_project_namespaces
  create_service_monitor prom panopticon s =
      Effect.and_then (project_namespaces prom s)
        (λ namespaces.
          c.patch_service_monitor (new_service_monitor panopticon.meta.name prom.meta.namespace)
            (λ obj created. ok (change_panopticon_monitor prom panopticon namespaces obj)))
        s
