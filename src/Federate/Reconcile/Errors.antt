-- ===== src/Federate/Reconcile/Errors.antt =====
-- Which errors `Reconcile` reports, and where it loses them or panics.
use rancid_syncer.Base.{◌≡◌, List, [], ◌∷◌, ◌++◌, true, arith}
use rancid_syncer.Base.Outcome.{Error, ok, err, panic, nil_dereference}
use rancid_syncer.Base.Runtime.{Runtime}
use rancid_syncer.Kube.{ObjectKey, Service, Secret, ServiceMonitor, Prometheus}
use rancid_syncer.Federate.Client.{Client}
use rancid_syncer.Federate.Write.{
  update_service_monitor_labels, copy_service_monitor, copy_secret, copy_service,
}
use rancid_syncer.Federate.Reconcile.{
  is_default_prometheus, conflicts, sync_service, sync_services, sync_secrets, sync_project,
  sync_default, sync_prometheuses,
}

module _ (go : Runtime) (c : Client) where
  -- If patching the labels fails for the default Prometheus, and the Prometheus behind it is a
  -- project Prometheus in the namespace of the request, the loop returns no error: the failure is
  -- lost, whatever it was.
  pub sync_prometheuses_lost :
      (req : ObjectKey) (services : List Service) (secrets : List Secret) (errs : List Error)
      → (svc_mon : ServiceMonitor) (default conflicting : Prometheus) (proms : List Prometheus)
      → (s : c.State) (e : Error) → is_default_prometheus default ≡ true
      → conflicts req conflicting ≡ true
      → (update_service_monitor_labels go c default svc_mon s).0 ≡ err e
      → (sync_prometheuses go c req services secrets errs svc_mon
          (default ∷ conflicting ∷ proms)
          s).0
        ≡ ok []
  unfolding sync_prometheuses sync_default conflicts
  sync_prometheuses_lost req services secrets errs svc_mon default conflicting proms s e d k f =
      ground arith

  -- If `copyServiceMonitor` fails for a project Prometheus, its nil result is dereferenced as soon
  -- as there is a service or a secret to copy: the program panics, with no later write. With no
  -- service and no secret the error is collected.
  pub sync_project_failed :
      (services : List Service) (secrets : List Secret) (errs : List Error)
      → (svc_mon : ServiceMonitor) (prom : Prometheus) (s s' : c.State) (e : Error)
      → copy_service_monitor go c prom svc_mon s ≡ (err e, s')
      → sync_project go c services secrets errs svc_mon prom s ≡ (elim (go.range services) [
        | [] ↦ elim secrets [
          | [] ↦ (ok (errs ++ e ∷ [], svc_mon), s')
          | secret ∷ _ ↦ (panic nil_dereference, s')
        ]
        | svc ∷ _ ↦ (panic nil_dereference, s')
      ])
  unfolding sync_project sync_services sync_service sync_secrets copy_service copy_secret
  sync_project_failed services secrets errs svc_mon prom s s' e f = rw f (ground (arith))
