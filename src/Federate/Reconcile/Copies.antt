-- ===== src/Federate/Reconcile/Copies.antt =====
-- A copied ServiceMonitor is not reconciled in its turn.
use rancid_syncer.Base.{◌≡◌, [], false, none}
use rancid_syncer.Base.Dict.{lookup}
use rancid_syncer.Base.Outcome.{ok, ok-injective}
use rancid_syncer.Base.Effect.{>>=-eq-ok, lift, read}
use rancid_syncer.Base.Runtime.{Runtime}
use rancid_syncer.Kube.{ObjectKey, ServiceMonitor, Prometheus}
use rancid_syncer.Federate.Client.{Client, IsPatching}
use rancid_syncer.Federate.Copy.{prometheus_key, metric_namespaces}
use rancid_syncer.Federate.Copy.Monitors.{change_service_monitor_lem}
use rancid_syncer.Federate.Write.{copy_service_monitor}
use rancid_syncer.Federate.Reconcile.{is_federated, reconcile}

unlabelled :
    (m : ServiceMonitor) → lookup prometheus_key m.meta.labels ≡ none → is_federated m ≡ false
unfolding is_federated
unlabelled m h = rw (h, is_federated)

module _ (go : Runtime) (c : Client) (lawful : IsPatching c) where
  copied-not_federated :
      (prom : Prometheus) (src copy : ServiceMonitor) (s : c.State)
      → (copy_service_monitor go c prom src s).0 ≡ ok copy
      → is_federated copy ≡ false
  unfolding copy_service_monitor
  copied-not_federated prom src copy s h =
      let (sel, e, f) =
        >>=-eq-ok (lift (c.as_selector prom.service_monitor_namespace_selector)) _ s h in
      let (items, d, g) = >>=-eq-ok (read (c.list_namespaces sel)) _ s f in
      let (cur, created, changed) = lawful.service_monitor_changed _ _ s copy g in
      rw (← ok-injective changed)
        (unlabelled _ (change_service_monitor_lem c prom (metric_namespaces go items) src cur).3)

  -- Of a client with `IsPatching`, when `copyServiceMonitor` has returned a copy, reconciling a key
  -- under which the API server holds that copy changes nothing and returns no error, in whatever
  -- state this happens.
  pub reconcile_copied :
      (prom : Prometheus) (src copy : ServiceMonitor) (s s' : c.State) (req : ObjectKey)
      → (copy_service_monitor go c prom src s).0 ≡ ok copy
      → c.get_service_monitor req s' ≡ ok copy
      → reconcile go c req s' ≡ (ok [], s')
  unfolding reconcile
  reconcile_copied prom src copy s s' req h e = rw e (rw (copied-not_federated prom src copy s h))
