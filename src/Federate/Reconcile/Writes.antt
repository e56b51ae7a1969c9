-- ===== src/Federate/Reconcile/Writes.antt =====
-- Where `Reconcile` writes.
pub mod Frame
mod Loops
use rancid_syncer.Base.{
  String, ◌≡◌, refl, sym, ap, ◌∙◌, subst, List, [], ◌∷◌, Bool, true, false, Option, none, some, inl,
  inr, ◌⊎◌, All, Bool-cases, Option-cases, ◌++◌, if◌then◌else◌,
}
use rancid_syncer.Base.Outcome.{Error, not_found, Outcome, ok, ok-injective, err, panic}
use rancid_syncer.Base.Effect.{
  Effect, and_then, pure, gather, try, read, lift, returned, ◌>>=◌, >>=-eq-ok,
}
use rancid_syncer.Base.Runtime.{Runtime}
use rancid_syncer.Kube.{
  ObjectKey, object_key, Service, Secret, Endpoints, MonitorEndpoint, ServiceMonitor, Prometheus,
}
use rancid_syncer.Federate.Client.{Client, IsPatching}
use rancid_syncer.Federate.Write.{
  update_service_monitor_labels, copy_service_monitor, copy_secret, copy_service, copy_endpoints,
}
use rancid_syncer.Federate.Reconcile.{
  is_default_prometheus, sync_service, copy_found, sync_services, sync_secrets, sync_project,
  sync_default, sync_prometheuses, source_services, source_secrets, reconcile_federated, reconcile,
  target_of, errors_of, updated_of, conflicts, prometheuses_found, service_monitor_found,
  ignore_not_found, put_services, ca_secret_name,
}
use Frame.{IsFrame, Keeps, and_then-Keeps, bind-Keeps}
use Loops.{sync_project-Keeps, sync_default-Keeps, sync_default-own, sync_project-own}

module _ (go : Runtime) (c : Client) (Ns : String → Type 0) (own : ObjectKey)
    (R : c.State → c.State → Type 0) (frame : IsFrame c Ns own R) (lawful : IsPatching c) where
  sync_prometheuses-Keeps :
      (req : ObjectKey) (services : List Service) (secrets : List Secret)
      → (proms : List Prometheus) (errs : List Error) (svc_mon : ServiceMonitor)
      → object_key svc_mon.meta ≡ own
      → All
          (λ (prom : Prometheus). is_default_prometheus prom ≡ false → Ns prom.meta.namespace)
          proms
      → Keeps R (sync_prometheuses go c req services secrets errs svc_mon proms)
  unfolding sync_prometheuses
  sync_prometheuses-Keeps req services secrets [] errs svc_mon p h = frame.same
  sync_prometheuses-Keeps req services secrets (prom ∷ proms) errs svc_mon p (n, h) =
      elim (Bool-cases (conflicts req prom)) [
        | inl stop ↦ rw stop frame.same
        | inr go_on ↦ elim (Bool-cases (is_default_prometheus prom)) [
          | inl d ↦
              rw (go_on, d)
                λ s. frame.chain s _ _ (sync_default-Keeps go frame lawful errs svc_mon prom p s) (
                  and_then-Keeps frame (sync_default go c errs svc_mon prom s).0 _
                    (λ r e.
                      sync_prometheuses-Keeps req services secrets proms r.0 r.1
                        (sync_default-own go frame lawful errs svc_mon prom s r p e) h)
                    _)
          | inr d ↦
              rw (go_on, d)
                λ s.
                  frame.chain s _ _
                    (sync_project-Keeps go frame lawful services secrets errs svc_mon prom (n d) s)
                    (and_then-Keeps frame (sync_project go c services secrets errs svc_mon prom s).0
                      _
                      (λ r e.
                        sync_prometheuses-Keeps req services secrets proms r.0 r.1
                          (sync_project-own go frame lawful services secrets errs svc_mon prom s r p
                            e)
                          h)
                      _)
        ]
      ]

  source_services-Keeps :
      (sel : c.Selector) (names : List String) (services : List Service)
      → Keeps R (source_services go c sel names services)
  unfolding source_services
  source_services-Keeps sel [] services = frame.same
  source_services-Keeps sel (ns ∷ names) services =
      bind-Keeps frame (read (c.list_services ns sel)) _ frame.same
        λ items. source_services-Keeps sel names (put_services items services)

  source_secrets-Keeps :
      (namespace : String) (endpoints : List MonitorEndpoint) (secrets : List Secret)
      → Keeps R (source_secrets go c namespace endpoints secrets)
  unfolding source_secrets
  source_secrets-Keeps namespace [] secrets = frame.same
  source_secrets-Keeps namespace (e ∷ endpoints) secrets = elim (Option-cases (ca_secret_name e)) [
    | inl none_named ↦
        rw (none_named, source_secrets) (source_secrets-Keeps namespace endpoints secrets)
    | inr (name, named) ↦
        rw (named, source_secrets)
          (bind-Keeps frame (read (c.get_secret (record { namespace = namespace; name = name }))) _
            frame.same λ secret. source_secrets-Keeps namespace endpoints (secrets ++ secret ∷ []))
  ]

  ignore_not_found-Keeps : (e : Error) → Keeps R (ignore_not_found e)
  ignore_not_found-Keeps not_found = frame.same
  ignore_not_found-Keeps _ = frame.same

  abbrev AreAllowed : List Prometheus → Type 0
  AreAllowed =
      All (λ (prom : Prometheus). is_default_prometheus prom ≡ false → Ns prom.meta.namespace)

  prometheuses_found-Keeps :
      (req : ObjectKey) (services : List Service) (secrets : List Secret) (svc_mon : ServiceMonitor)
      → (t : c.State) (r : Outcome (List Prometheus)) (proms : Error ⊎ List Prometheus)
      → object_key svc_mon.meta ≡ own
      → ((items : List Prometheus) → r ≡ ok items → AreAllowed items)
      → returned r ≡ ok proms
      → Keeps R (prometheuses_found go c req services secrets svc_mon proms)
  prometheuses_found-Keeps req services secrets svc_mon t r (inl e) p h q = ignore_not_found-Keeps e
  prometheuses_found-Keeps req services secrets svc_mon t (ok l) (inr items) p h q =
      sync_prometheuses-Keeps req services secrets items [] svc_mon p (h items (cc))
  prometheuses_found-Keeps req services secrets svc_mon t (err e) (inr items) p h q = cc
  prometheuses_found-Keeps req services secrets svc_mon t (panic m) (inr items) p h q = cc

  reconcile_federated-Keeps :
      (req : ObjectKey) (svc_mon : ServiceMonitor)
      → object_key svc_mon.meta ≡ own
      → ((t : c.State) (items : List Prometheus)
          → c.list_prometheuses t ≡ ok items
          → AreAllowed items)
      → Keeps R (reconcile_federated go c req svc_mon)
  unfolding reconcile_federated
  reconcile_federated-Keeps req svc_mon p h =
      bind-Keeps frame (lift (c.as_selector (some svc_mon.spec.selector))) _ frame.same λ sel.
        bind-Keeps frame (source_services go c sel svc_mon.spec.namespace_selector.match_names []) _
          (source_services-Keeps sel svc_mon.spec.namespace_selector.match_names [])
          λ services.
            bind-Keeps frame (source_secrets go c svc_mon.meta.namespace svc_mon.spec.endpoints [])
              _ (source_secrets-Keeps svc_mon.meta.namespace svc_mon.spec.endpoints [])
              λ secrets t.
                and_then-Keeps frame (returned (c.list_prometheuses t)) _
                  (λ proms e.
                    prometheuses_found-Keeps req services secrets svc_mon t (c.list_prometheuses t)
                      proms p (h t) e)
                  t

  -- Of a client with `IsPatching`, let `own` be the key of the request, and let the API server
  -- return under it an object of that key. Then a relation between states that holds over every
  -- patch in a namespace of a project Prometheus, and over every patch of the ServiceMonitor of
  -- that key, holds between the states before and after `Reconcile`, whatever it returns: it makes
  -- no other change.
  pub reconcile-Keeps :
      (s : c.State)
      → ((m : ServiceMonitor) → c.get_service_monitor own s ≡ ok m → object_key m.meta ≡ own)
      → ((t : c.State) (items : List Prometheus)
          → c.list_prometheuses t ≡ ok items
          → All
              (λ (prom : Prometheus). is_default_prometheus prom ≡ false → Ns prom.meta.namespace)
              items)
      → R s (reconcile go c own s).1
  unfolding reconcile
  reconcile-Keeps s k h =
      and_then-Keeps frame (returned (c.get_service_monitor own s)) _
        (λ found e. found-Keeps (c.get_service_monitor own s) found k e) s
    where
      guarded :
          (m : ServiceMonitor) (b : Bool)
          → object_key m.meta ≡ own
          → Keeps R (if b then reconcile_federated go c own m else pure [])
      guarded m true p = reconcile_federated-Keeps own m p h
      guarded m false p = frame.same

      found-Keeps :
          (r : Outcome ServiceMonitor) (found : Error ⊎ ServiceMonitor)
          → ((m : ServiceMonitor) → r ≡ ok m → object_key m.meta ≡ own)
          → returned r ≡ ok found
          → Keeps R (service_monitor_found go c own found)
      found-Keeps r (inl e) k q = ignore_not_found-Keeps e
      found-Keeps (ok l) (inr m) k q = guarded m _ (k m (cc))
      found-Keeps (err e) (inr m) k q = cc
      found-Keeps (panic x) (inr m) k q = cc
