-- ===== src/Federate/Write.antt =====
-- The functions that write: `updateServiceMonitorLabels`, `copyServiceMonitor`, `copySecret`,
-- `copyService` and `copyEndpoints`. The target ServiceMonitor is a pointer in the source, which
-- is nil after a failed `copyServiceMonitor`: here an option.
use rancid_syncer.Base.{String, false, List, Option, none, some}
use rancid_syncer.Base.Outcome.{ok, nil_dereference}
use rancid_syncer.Base.Effect.{Effect, lift, read, crash, ◌>>=◌}
use rancid_syncer.Base.Runtime.{Runtime}
use rancid_syncer.Kube.{Service, Secret, Endpoints, ServiceMonitor, Prometheus, new_meta}
use rancid_syncer.Federate.Client.{Client}
use rancid_syncer.Federate.Copy.{
  metric_namespaces, change_service_monitor, change_secret, change_service, change_endpoints,
}

-- The literals that are given to `CreateOrPatch`.
abbrev pub new_service_monitor : String → String → ServiceMonitor
new_service_monitor name namespace = record {
  meta = new_meta name namespace;
  spec = record {
    endpoints = List.[];
    namespace_selector = record { any = false; match_names = List.[] };
    selector = record { match_labels = List.[]; match_expressions = List.[] };
  };
}

abbrev pub new_secret : String → String → Secret
new_secret name namespace = record {
  meta = new_meta name namespace;
  immutable = none;
  content = List.[];
  string_content = List.[];
  type = "";
}

abbrev pub new_service : String → String → Service
new_service name namespace = record {
  meta = new_meta name namespace;
  type = "";
  cluster_ip = "";
  ports = List.[];
}

abbrev pub new_endpoints : String → String → Endpoints
new_endpoints name namespace = record { meta = new_meta name namespace; subsets = List.[] }

module _ (go : Runtime) (c : Client) where
  unfoldable pub change_labels : Prometheus → ServiceMonitor → ServiceMonitor
  change_labels prom obj = record obj {
    meta = record obj.meta {
      labels =
          c.overwrite_keys obj.meta.labels (c.labels_for_selector prom.service_monitor_selector);
    };
  }

  unfoldable pub update_service_monitor_labels :
      Prometheus → ServiceMonitor → Effect c.State ServiceMonitor
  update_service_monitor_labels prom src =
      c.patch_service_monitor src (λ obj created. ok (change_labels prom obj))

  unfoldable pub copy_service_monitor : Prometheus → ServiceMonitor → Effect c.State ServiceMonitor
  copy_service_monitor prom src = do
    sel ← lift (c.as_selector prom.service_monitor_namespace_selector)
    items ← read (c.list_namespaces sel)
    c.patch_service_monitor (new_service_monitor src.meta.name prom.meta.namespace)
        (λ obj created. ok (change_service_monitor c prom (metric_namespaces go items) src obj))

  unfoldable pub copy_secret : Secret → Option ServiceMonitor → Effect c.State Secret
  copy_secret src none = crash nil_dereference
  copy_secret src (some target) =
      c.patch_secret (new_secret src.meta.name target.meta.namespace)
        (λ obj created. ok (change_secret c src target obj))

  unfoldable pub copy_service : Service → Option ServiceMonitor → Effect c.State Service
  copy_service src none = crash nil_dereference
  copy_service src (some target) =
      c.patch_service (new_service src.meta.name target.meta.namespace)
        (λ obj created. ok (change_service c src target obj))

  unfoldable pub copy_endpoints :
      Service → Endpoints → Option ServiceMonitor → Effect c.State Endpoints
  copy_endpoints src_svc src_ep none = crash nil_dereference
  copy_endpoints src_svc src_ep (some target) =
      c.patch_endpoints (new_endpoints src_ep.meta.name target.meta.namespace)
        (λ obj created. change_endpoints c src_svc src_ep target obj)
