-- ===== src/Federate/Reconcile/Writes/Loops.antt =====
-- The writes of the loops over services and secrets.
use rancid_syncer.Base.{
  String, ◌≡◌, refl, sym, ap, ◌∙◌, subst, List, [], ◌∷◌, Option, inl, inr, ◌⊎◌,
}
use rancid_syncer.Base.Outcome.{Error, Outcome, ok, ok-injective, err, panic}
use rancid_syncer.Base.Effect.{gather, try, read, lift, returned, >>=-eq-ok}
use rancid_syncer.Base.Runtime.{Runtime}
use rancid_syncer.Kube.{
  ObjectKey, object_key, Service, Secret, Endpoints, ServiceMonitor, Prometheus,
}
use rancid_syncer.Federate.Client.{Client, IsPatching}
use rancid_syncer.Federate.Write.{
  update_service_monitor_labels, copy_service_monitor, copy_secret, copy_service,
}
use rancid_syncer.Federate.Reconcile.{
  sync_service, copy_found, sync_services, sync_secrets, sync_project, sync_default, target_of,
  errors_of, updated_of,
}
use rancid_syncer.Federate.Reconcile.Writes.Frame.{
  IsFrame, Keeps, IsTarget, and_then-Keeps, bind-Keeps, copy_secret-Keeps, copy_service-Keeps,
  copy_endpoints-Keeps, copy_service_monitor-Keeps,
}

module _ (go : Runtime) {c : Client} {Ns : String → Type 0} {own : ObjectKey}
    {R : c.State → c.State → Type 0} (frame : IsFrame c Ns own R) (lawful : IsPatching c) where
  copy_found-Keeps :
      (target : Option ServiceMonitor) (errs : List Error) (svc : Service)
      → (found : Error ⊎ Endpoints) → IsTarget Ns target
      → Keeps R (copy_found go c target errs svc found)
  copy_found-Keeps target errs svc (inl e) p s = frame.same s
  copy_found-Keeps target errs svc (inr ep) p s = copy_endpoints-Keeps go frame svc ep target p s

  sync_service-Keeps :
      (target : Option ServiceMonitor) (errs : List Error) (svc : Service)
      → IsTarget Ns target
      → Keeps R (sync_service go c target errs svc)
  unfolding sync_service
  sync_service-Keeps target errs svc p =
      bind-Keeps frame (gather errs (copy_service go c svc target)) _
        (copy_service-Keeps go frame svc target p)
        λ errs'.
          bind-Keeps frame (try (read (c.get_endpoints (object_key svc.meta)))) _ frame.same
            λ found. copy_found-Keeps target errs' svc found p

  sync_services-Keeps :
      (target : Option ServiceMonitor) (services : List Service) (errs : List Error)
      → IsTarget Ns target
      → Keeps R (sync_services go c target errs services)
  unfolding sync_services
  sync_services-Keeps target [] errs p = frame.same
  sync_services-Keeps target (svc ∷ services) errs p =
      bind-Keeps frame (sync_service go c target errs svc) _ (sync_service-Keeps target errs svc p)
        λ errs'. sync_services-Keeps target services errs' p

  sync_secrets-Keeps :
      (target : Option ServiceMonitor) (secrets : List Secret) (errs : List Error)
      → IsTarget Ns target
      → Keeps R (sync_secrets go c target errs secrets)
  unfolding sync_secrets
  sync_secrets-Keeps target [] errs p = frame.same
  sync_secrets-Keeps target (secret ∷ secrets) errs p =
      bind-Keeps frame (gather errs (copy_secret go c secret target)) _
        (copy_secret-Keeps go frame secret target p)
        λ errs'. sync_secrets-Keeps target secrets errs' p

  copied-IsTarget :
      (prom : Prometheus) (src t : ServiceMonitor) (s : c.State)
      → Ns prom.meta.namespace
      → (copy_service_monitor go c prom src s).0 ≡ ok t
      → Ns t.meta.namespace
  unfolding copy_service_monitor
  copied-IsTarget prom src t s p h =
      let (sel, e, f) =
        >>=-eq-ok (lift (c.as_selector prom.service_monitor_namespace_selector)) _ s h in
      let (items, d, g) = >>=-eq-ok (read (c.list_namespaces sel)) _ s f in
      subst Ns (ap (λ (k : ObjectKey). k.namespace) (sym (lawful.service_monitor_key _ _ s t g))) p

  returned-IsTarget :
      (prom : Prometheus) (src : ServiceMonitor) (s : c.State) (r : Outcome ServiceMonitor)
      → Ns prom.meta.namespace
      → (copy_service_monitor go c prom src s).0 ≡ r
      → (copied : Error ⊎ ServiceMonitor) → returned r ≡ ok copied
      → IsTarget Ns (target_of copied)
  returned-IsTarget prom src s r p h (inl e) q = tt
  returned-IsTarget prom src s (ok t) p h (inr u) q = copied-IsTarget prom src u s p (h ∙ cc)
  returned-IsTarget prom src s (err e) p h (inr u) q = cc
  returned-IsTarget prom src s (panic m) p h (inr u) q = cc

  pub sync_project-Keeps :
      (services : List Service) (secrets : List Secret) (errs : List Error)
      → (svc_mon : ServiceMonitor) (prom : Prometheus) → Ns prom.meta.namespace
      → Keeps R (sync_project go c services secrets errs svc_mon prom)
  unfolding sync_project
  sync_project-Keeps services secrets errs svc_mon prom p s =
      frame.chain s _ _ (copy_service_monitor-Keeps go frame prom svc_mon p s) (
        and_then-Keeps frame (try (copy_service_monitor go c prom svc_mon) s).0 _
          (λ copied e.
            let target = returned-IsTarget prom svc_mon s _ p refl copied e in
            bind-Keeps frame
              (sync_services go c (target_of copied) (errors_of errs copied) (go.range services)) _
              (sync_services-Keeps (target_of copied) (go.range services) _ target)
              λ errs1.
                bind-Keeps frame (sync_secrets go c (target_of copied) errs1 secrets) _
                  (sync_secrets-Keeps (target_of copied) secrets errs1 target) λ errs2. frame.same)
          _)

  pub sync_default-Keeps :
      (errs : List Error) (svc_mon : ServiceMonitor) (prom : Prometheus)
      → object_key svc_mon.meta ≡ own
      → Keeps R (sync_default go c errs svc_mon prom)
  unfolding sync_default update_service_monitor_labels
  sync_default-Keeps errs svc_mon prom p s =
      frame.chain s _ _ (frame.monitors svc_mon _ s (inr p)) (
        and_then-Keeps frame (try (update_service_monitor_labels go c prom svc_mon) s).0 _
          (λ patched e. frame.same) _)

  returned-own :
      (prom : Prometheus) (svc_mon : ServiceMonitor) (s : c.State) (r : Outcome ServiceMonitor)
      → object_key svc_mon.meta ≡ own
      → (update_service_monitor_labels go c prom svc_mon s).0 ≡ r
      → (patched : Error ⊎ ServiceMonitor) → returned r ≡ ok patched
      → object_key (updated_of svc_mon patched).meta ≡ own
  unfolding update_service_monitor_labels
  returned-own prom svc_mon s r p h (inl e) q = p
  returned-own prom svc_mon s (ok t) p h (inr u) q =
      lawful.service_monitor_key svc_mon _ s u (h ∙ cc) ∙ p
  returned-own prom svc_mon s (err e) p h (inr u) q = cc
  returned-own prom svc_mon s (panic m) p h (inr u) q = cc

  pub sync_default-own :
      (errs : List Error) (svc_mon : ServiceMonitor) (prom : Prometheus) (s : c.State)
      → (r : List Error × ServiceMonitor) → object_key svc_mon.meta ≡ own
      → (sync_default go c errs svc_mon prom s).0 ≡ ok r
      → object_key r.1.meta ≡ own
  unfolding sync_default
  sync_default-own errs svc_mon prom s r p h =
      let (patched, e, f) =
        >>=-eq-ok (try (update_service_monitor_labels go c prom svc_mon)) _ s h in
      subst (λ (x : List Error × ServiceMonitor). object_key x.1.meta ≡ own) (ok-injective f)
        (returned-own prom svc_mon s _ p refl patched e)

  pub sync_project-own :
      (services : List Service) (secrets : List Secret) (errs : List Error)
      → (svc_mon : ServiceMonitor) (prom : Prometheus) (s : c.State)
      → (r : List Error × ServiceMonitor) → object_key svc_mon.meta ≡ own
      → (sync_project go c services secrets errs svc_mon prom s).0 ≡ ok r
      → object_key r.1.meta ≡ own
  unfolding sync_project
  sync_project-own services secrets errs svc_mon prom s r p h =
      let (copied, d, f) = >>=-eq-ok (try (copy_service_monitor go c prom svc_mon)) _ s h in
      let (errs1, e, g) =
        >>=-eq-ok
          (sync_services go c (target_of copied) (errors_of errs copied) (go.range services)) _ _
          f in
      let (errs2, e', g') = >>=-eq-ok (sync_secrets go c (target_of copied) errs1 secrets) _ _ g in
      subst (λ (x : List Error × ServiceMonitor). object_key x.1.meta ≡ own) (ok-injective g') p
