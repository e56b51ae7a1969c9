-- ===== src/Federate/Reconcile.antt =====
-- `Reconcile`. Its result `ok errs` is the return of `errors.NewAggregate(errs)`, which is nil for
-- the empty list; `err e` is an early return of the error `e`.
pub mod Errors
pub mod Runs
pub mod Collected
pub mod Copies
pub mod Writes
use rancid_syncer.Base.{
  String, List, [], ◌∷◌, ◌++◌, Bool, not, ◌&&◌, Option, none, some, ◌==◌, ◌⊎◌, inl, inr,
  if◌then◌else◌,
}
use rancid_syncer.Base.Dict.{lookup}
use rancid_syncer.Base.Outcome.{Error, is_not_found}
use rancid_syncer.Base.Effect.{Effect, pure, throw, lift, read, try, gather, ◌>>=◌}
use rancid_syncer.Base.Runtime.{Runtime}
use rancid_syncer.Kube.{
  ObjectKey, key_eq, object_key, Service, Secret, Endpoints, MonitorEndpoint, ServiceMonitor,
  Prometheus,
}
use rancid_syncer.Federate.Client.{Client}
use rancid_syncer.Federate.Copy.{prometheus_key}
use rancid_syncer.Federate.Write.{
  update_service_monitor_labels, copy_service_monitor, copy_secret, copy_service, copy_endpoints,
}

abbrev pub federated_value : String
federated_value = "federated"

unfoldable pub is_default_prometheus : Prometheus → Bool
is_default_prometheus prom =
    key_eq (object_key prom.meta)
      (record { namespace = "cattle-monitoring-system"; name = "rancher-monitoring-prometheus" })

-- `client.IgnoreNotFound(err)` as the returned error.
abbrev ignore_not_found : {S : Type 0} → Error → Effect S (List Error)
ignore_not_found e = if is_not_found e then pure [] else throw e

-- `srcServices[key] = svc`
unfoldable pub put_service : Service → List Service → List Service
put_service svc [] = svc ∷ []
put_service svc (old ∷ services) =
    if key_eq (object_key old.meta) (object_key svc.meta)
    then svc ∷ services
    else old ∷ put_service svc services

unfoldable pub put_services : List Service → List Service → List Service
put_services [] services = services
put_services (svc ∷ items) services = put_services items (put_service svc services)

-- The name of the secret that an endpoint's TLS configuration refers to, if it does.
unfoldable pub ca_secret_name : MonitorEndpoint → Option String
ca_secret_name e = elim e.tls_config [
  | none ↦ none
  | some tls ↦ elim tls.ca_secret [
    | none ↦ none
    | some sel ↦ if sel.name == "" then none else some sel.name
  ]
]

-- The guard on the label.
unfoldable pub is_federated : ServiceMonitor → Bool
is_federated svc_mon = elim (lookup prometheus_key svc_mon.meta.labels) [
  | none ↦ Bool.false
  | some val ↦ val == federated_value
]

-- A project Prometheus in the namespace of the request.
unfoldable pub conflicts : ObjectKey → Prometheus → Bool
conflicts req prom = not (is_default_prometheus prom) && prom.meta.namespace == req.namespace

-- What is left of a call that returned `(value, err)`: the pointer, which is nil after an error,
-- the collected errors, and the object that the call wrote back into, if it succeeded.
abbrev pub target_of : Error ⊎ ServiceMonitor → Option ServiceMonitor
target_of (inl e) = none
target_of (inr t) = some t

abbrev pub errors_of : List Error → Error ⊎ ServiceMonitor → List Error
errors_of errs (inl e) = errs ++ e ∷ []
errors_of errs (inr t) = errs

abbrev pub updated_of : ServiceMonitor → Error ⊎ ServiceMonitor → ServiceMonitor
updated_of old (inl e) = old
updated_of old (inr t) = t

module _ (go : Runtime) (c : Client) where
  unfoldable pub source_services :
      c.Selector → List String → List Service → Effect c.State (List Service)
  source_services sel [] services = pure services
  source_services sel (ns ∷ names) services = do
    items ← read (c.list_services ns sel)
    source_services sel names (put_services items services)

  unfoldable pub source_secrets :
      String → List MonitorEndpoint → List Secret → Effect c.State (List Secret)
  source_secrets namespace [] secrets = pure secrets
  source_secrets namespace (e ∷ endpoints) secrets = elim (ca_secret_name e) [
    | none ↦ source_secrets namespace endpoints secrets
    | some name ↦ do
      secret ← read (c.get_secret (record { namespace = namespace; name = name }))
      source_secrets namespace endpoints (secrets ++ secret ∷ [])
  ]

  -- What `sync_service` does with the endpoints of the service's name.
  abbrev copy_found :
      Option ServiceMonitor → List Error → Service → Error ⊎ Endpoints → Effect c.State (List Error)
  copy_found target errs svc (inl e) = pure (errs ++ e ∷ [])
  copy_found target errs svc (inr ep) = gather errs (copy_endpoints go c svc ep target)

  -- The body of the loop over `srcServices`.
  unfoldable pub sync_service :
      Option ServiceMonitor → List Error → Service → Effect c.State (List Error)
  sync_service target errs svc = do
    errs' ← gather errs (copy_service go c svc target)
    found ← try (read (c.get_endpoints (object_key svc.meta)))
    copy_found target errs' svc found

  unfoldable pub sync_services :
      Option ServiceMonitor → List Error → List Service → Effect c.State (List Error)
  sync_services target errs [] = pure errs
  sync_services target errs (svc ∷ services) = do
    errs' ← sync_service target errs svc
    sync_services target errs' services

  unfoldable pub sync_secrets :
      Option ServiceMonitor → List Error → List Secret → Effect c.State (List Error)
  sync_secrets target errs [] = pure errs
  sync_secrets target errs (secret ∷ secrets) = do
    errs' ← gather errs (copy_secret go c secret target)
    sync_secrets target errs' secrets

  -- The branch for a project Prometheus.
  unfoldable pub sync_project :
      List Service
      → List Secret
      → List Error
      → ServiceMonitor
      → Prometheus
      → Effect c.State (List Error × ServiceMonitor)
  sync_project services secrets errs svc_mon prom = do
    copied ← try (copy_service_monitor go c prom svc_mon)
    errs1 ← sync_services (target_of copied) (errors_of errs copied) (go.range services)
    errs2 ← sync_secrets (target_of copied) errs1 secrets
    pure (errs2, svc_mon)

  -- The branch for the default Prometheus. A patch writes the new object back into `svcMon`.
  unfoldable pub sync_default :
      List Error → ServiceMonitor → Prometheus → Effect c.State (List Error × ServiceMonitor)
  sync_default errs svc_mon prom = do
    patched ← try (update_service_monitor_labels go c prom svc_mon)
    pure (errors_of errs patched, updated_of svc_mon patched)

  -- The loop over the Prometheus objects. The early return leaves the collected errors behind.
  unfoldable pub sync_prometheuses :
      ObjectKey
      → List Service
      → List Secret
      → List Error
      → ServiceMonitor
      → List Prometheus
      → Effect c.State (List Error)
  sync_prometheuses req services secrets errs svc_mon [] = pure errs
  sync_prometheuses req services secrets errs svc_mon (prom ∷ proms) =
      let visit =
        if is_default_prometheus prom
        then sync_default errs svc_mon prom
        else sync_project services secrets errs svc_mon prom in
      let rest =
        λ (r : List Error × ServiceMonitor). sync_prometheuses req services secrets r.0 r.1 proms in
      if conflicts req prom then pure [] else (visit >>= rest)

  abbrev prometheuses_found :
      ObjectKey
      → List Service
      → List Secret
      → ServiceMonitor
      → Error ⊎ List Prometheus
      → Effect c.State (List Error)
  prometheuses_found req services secrets svc_mon (inl e) = ignore_not_found e
  prometheuses_found req services secrets svc_mon (inr items) =
      sync_prometheuses req services secrets [] svc_mon items

  unfoldable pub reconcile_federated : ObjectKey → ServiceMonitor → Effect c.State (List Error)
  reconcile_federated req svc_mon = do
    sel ← lift (c.as_selector (some svc_mon.spec.selector))
    services ← source_services sel svc_mon.spec.namespace_selector.match_names []
    secrets ← source_secrets svc_mon.meta.namespace svc_mon.spec.endpoints []
    proms ← try (read c.list_prometheuses)
    prometheuses_found req services secrets svc_mon proms

  abbrev service_monitor_found : ObjectKey → Error ⊎ ServiceMonitor → Effect c.State (List Error)
  service_monitor_found req (inl e) = ignore_not_found e
  service_monitor_found req (inr svc_mon) =
      if is_federated svc_mon && c.is_rancher_managed
      then reconcile_federated req svc_mon
      else pure []

  unfoldable pub reconcile : ObjectKey → Effect c.State (List Error)
  reconcile req = do found ← try (read (c.get_service_monitor req)); service_monitor_found req found
