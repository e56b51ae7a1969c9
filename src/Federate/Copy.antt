-- ===== src/Federate/Copy.antt =====
-- The objects that a copy consists of, as the callbacks of `CreateOrPatch` change them, and the
-- functions `updateServiceMonitorLabels`, `copyServiceMonitor`, `copySecret`, `copyService` and
-- `copyEndpoints` around them.
pub mod Monitors
pub mod Subsets
pub mod Pointed
pub mod ServicePorts
pub mod Settled
pub mod Again
use rancid_syncer.Base.{
  ℕ, String, ◌<>◌, List, [], ◌∷◌, map, Bool, true, Option, none, some, ◌==◌, ◌&&◌, eqb, text_lt,
  if◌then◌else◌,
}
use rancid_syncer.Base.Dict.{lookup, erase}
use rancid_syncer.Base.Outcome.{Outcome, ok, err, panic, nil_dereference, ◌>>=◌}
use rancid_syncer.Base.Effect.{Effect, and_then, lift, read, crash}
use rancid_syncer.Base.Effect
use rancid_syncer.Base.Runtime.{Runtime}
use rancid_syncer.Kube.{
  ObjectMeta, GroupVersionKind, Namespace, Service, ServicePort, Secret, Endpoints, EndpointPort,
  EndpointSubset, RelabelConfig, MonitorEndpoint, ServiceMonitor, ServiceMonitorSpec, Prometheus,
  new_meta,
}
use rancid_syncer.Federate.Client.{Client}
use rancid_syncer.Federate.Ports.{upsert_service_port, upsert_endpoint_port, service_port_for_name}

abbrev pub prometheus_key : String
prometheus_key = "monitoring.appscode.com/prometheus"

abbrev pub prometheus_gvk : GroupVersionKind
prometheus_gvk = record { group = "monitoring.coreos.com"; version = "v1"; kind = "Prometheus" }

abbrev pub service_monitor_gvk : GroupVersionKind
service_monitor_gvk = record {
  group = "monitoring.coreos.com";
  version = "v1";
  kind = "ServiceMonitor";
}

abbrev pub project_id_label : String
project_id_label = "field.cattle.io/projectId"

-- `m[k]` of a string map, where a missing key reads as the empty string.
abbrev pub value_at : String → List (String × String) → String
value_at k m = elim (lookup k m) [ none ↦ "" | some v ↦ v ]

texts_equal : List String → List String → Bool
texts_equal [] [] = true
texts_equal (s ∷ ss) (t ∷ ts) = s == t && texts_equal ss ts
texts_equal _ _ = Bool.false

-- `reflect.DeepEqual` on two of these.
unfoldable pub relabel_equal : RelabelConfig → RelabelConfig → Bool
unfolding texts_equal
relabel_equal a b =
    texts_equal a.source_labels b.source_labels
    && a.separator == b.separator
    && a.target_label == b.target_label
    && a.regex == b.regex
    && eqb a.modulus b.modulus
    && a.replacement == b.replacement
    && a.action == b.action

-- `strings.Join(parts, sep)`
unfoldable pub join : String → List String → String
join sep [] = ""
join sep (s ∷ []) = s
join sep (s ∷ t ∷ parts) = s <> sep <> join sep (t ∷ parts)

-- The loop of `copyServiceMonitor` over the namespaces: the project's own namespace is left out.
unfoldable pub kept_namespaces : List Namespace → List String
kept_namespaces [] = []
kept_namespaces (ns ∷ items) =
    if ns.meta.name == "cattle-project-" <> value_at project_id_label ns.meta.labels
    then kept_namespaces items
    else ns.meta.name ∷ kept_namespaces items

-- The first of the sorted names is "", for resources without a namespace.
unfoldable pub metric_namespaces : Runtime → List Namespace → List String
unfolding kept_namespaces
metric_namespaces go items = go.sort_slice text_lt ("" ∷ kept_namespaces items)

unfoldable pub keep_ns_metrics : List String → RelabelConfig
unfolding join
keep_ns_metrics namespaces = record {
  source_labels = "namespace" ∷ [];
  separator = "";
  target_label = "";
  regex = "(" <> join "|" namespaces <> ")";
  modulus = 0;
  replacement = "";
  action = "keep";
}

-- `len(cs) == 0 || !reflect.DeepEqual(keep, *cs[0])`, then the prepending.
unfoldable pub with_keep : RelabelConfig → List RelabelConfig → List RelabelConfig
unfolding relabel_equal
with_keep keep [] = keep ∷ []
with_keep keep (c ∷ cs) = if relabel_equal keep c then c ∷ cs else keep ∷ c ∷ cs

unfoldable pub change_endpoint : RelabelConfig → MonitorEndpoint → MonitorEndpoint
unfolding with_keep
change_endpoint keep e = record e {
  honor_labels = true;
  metric_relabel_configs = with_keep keep e.metric_relabel_configs;
}

-- `for i, srcSubNet := range srcEP.Subsets`: the inner loop over the ports.
unfoldable pub copy_ports :
    Service → List EndpointPort → List EndpointPort → Outcome (List EndpointPort)
copy_ports svc [] ports = ok ports
copy_ports svc (port ∷ src) ports = service_port_for_name svc port.name >>= λ number.
    copy_ports svc src
      (upsert_endpoint_port ports (record { name = port.name; port = number; protocol = "" }))

unfoldable pub copy_subset : Service → EndpointSubset → EndpointSubset → Outcome EndpointSubset
unfolding copy_ports
copy_subset svc src subset = do
  ports ← copy_ports svc src.ports subset.ports
  ok (record subset {
    addresses = record { ip = svc.cluster_ip; hostname = "" } ∷ [];
    ports = ports;
  })

abbrev pub empty_subset : EndpointSubset
empty_subset = record { addresses = []; not_ready_addresses = []; ports = [] }

-- The outer loop. Subsets of the object past those of the source are left as they are.
unfoldable pub copy_subsets :
    Service → List EndpointSubset → List EndpointSubset → Outcome (List EndpointSubset)
unfolding copy_subset
copy_subsets svc [] subsets = ok subsets
copy_subsets svc (src ∷ srcs) [] = do
  subset ← copy_subset svc src empty_subset
  rest ← copy_subsets svc srcs []
  ok (subset ∷ rest)
copy_subsets svc (src ∷ srcs) (old ∷ olds) = do
  subset ← copy_subset svc src old
  rest ← copy_subsets svc srcs olds
  ok (subset ∷ rest)

-- The loop of `copyService` over the ports of the source.
unfoldable pub upsert_service_ports : List ServicePort → List ServicePort → List ServicePort
upsert_service_ports ports [] = ports
upsert_service_ports ports (x ∷ src) = upsert_service_ports (upsert_service_port ports x) src

module _ (c : Client) where
  unfoldable pub change_service_monitor :
      Prometheus → List String → ServiceMonitor → ServiceMonitor → ServiceMonitor
  unfolding change_endpoint keep_ns_metrics
  change_service_monitor prom namespaces src obj =
      let labels =
        c.overwrite_keys obj.meta.labels (c.labels_for_selector prom.service_monitor_selector) in
      record {
        meta = record obj.meta {
          owner_references = c.controller_ref prom.meta prometheus_gvk ∷ [];
          labels = erase prometheus_key labels;
        };
        spec = record src.spec {
          endpoints = map (change_endpoint (keep_ns_metrics namespaces)) src.spec.endpoints;
        };
      }

  unfoldable pub change_secret : Secret → ServiceMonitor → Secret → Secret
  change_secret src target obj = record obj {
    meta = record obj.meta {
      owner_references = c.controller_ref target.meta service_monitor_gvk ∷ [];
    };
    immutable = src.immutable;
    content = src.content;
    type = src.type;
  }

  unfoldable pub change_service : Service → ServiceMonitor → Service → Service
  unfolding upsert_service_ports
  change_service src target obj = record obj {
    meta = record obj.meta {
      owner_references = c.controller_ref target.meta service_monitor_gvk ∷ [];
      labels = c.overwrite_keys obj.meta.labels src.meta.labels;
      annotations = c.overwrite_keys obj.meta.annotations src.meta.annotations;
    };
    type = "ClusterIP";
    ports = upsert_service_ports obj.ports src.ports;
  }

  unfoldable pub change_endpoints :
      Service → Endpoints → ServiceMonitor → Endpoints → Outcome Endpoints
  unfolding copy_subsets
  change_endpoints src_svc src_ep target obj = do
    subsets ← copy_subsets src_svc src_ep.subsets obj.subsets
    ok (record {
      meta = record obj.meta {
        owner_references = c.controller_ref target.meta service_monitor_gvk ∷ [];
        labels = c.overwrite_keys obj.meta.labels src_ep.meta.labels;
        annotations = c.overwrite_keys obj.meta.annotations src_ep.meta.annotations;
      };
      subsets = subsets;
    })
