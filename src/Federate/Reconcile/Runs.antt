-- ===== src/Federate/Reconcile/Runs.antt =====
-- The calls that `Reconcile` makes for the Prometheus objects, and their errors.
use rancid_syncer.Base.{◌≡◌, List, [], ◌∷◌, ◌++◌, true, false, Option, ◌⊎◌}
use rancid_syncer.Base.Outcome.{Error, Outcome, ok, err}
use rancid_syncer.Base.Effect.{failed, outcome_of}
use rancid_syncer.Base.Runtime.{Runtime}
use rancid_syncer.Kube.{object_key, Service, Secret, ServiceMonitor, Prometheus, Endpoints}
use rancid_syncer.Federate.Client.{Client}
use rancid_syncer.Federate.Write.{
  update_service_monitor_labels, copy_service_monitor, copy_secret, copy_service, copy_endpoints,
}
use rancid_syncer.Federate.Reconcile.{is_default_prometheus, target_of, updated_of}

-- A run from a state to another, with the errors of its calls in their order.
abbrev pub Run : Type 0 → Type 1
Run S = S → List Error → S → Type 0

module _ (go : Runtime) (c : Client) where
  -- One run after another.
  abbrev pub Then : Run c.State → Run c.State → Run c.State
  Then p q s es after =
      (first : List Error) × (rest : List Error) × (between : c.State) × p s first between
      × q between rest after
      × (es ≡ first ++ rest)

  -- The service is copied; then its endpoints are read, and copied if they are there.
  abbrev pub IsServiceRun : Option ServiceMonitor → Service → Run c.State
  IsServiceRun target svc s es after =
      (r : Outcome Service) × (between : c.State) × (copy_service go c svc target s ≡ (r, between))
      × (((e : Error) × (c.get_endpoints (object_key svc.meta) between ≡ err e)
            × (after ≡ between)
            × (es ≡ failed r ++ e ∷ []))
          ⊎ ((ep : Endpoints) × (r' : Outcome Endpoints) × (c.get_endpoints (object_key svc.meta)
                  between
                ≡ ok ep)
              × (copy_endpoints go c svc ep target between ≡ (r', after))
              × (es ≡ failed r ++ failed r')))

  abbrev pub AreServiceRuns : Option ServiceMonitor → List Service → Run c.State
  AreServiceRuns target [] s es after = (es ≡ []) × (after ≡ s)
  AreServiceRuns target (svc ∷ services) s es after =
      Then (IsServiceRun target svc) (AreServiceRuns target services) s es after

  abbrev pub IsSecretRun : Option ServiceMonitor → Secret → Run c.State
  IsSecretRun target secret s es after =
      (r : Outcome Secret) × (copy_secret go c secret target s ≡ (r, after)) × (es ≡ failed r)

  abbrev pub AreSecretRuns : Option ServiceMonitor → List Secret → Run c.State
  AreSecretRuns target [] s es after = (es ≡ []) × (after ≡ s)
  AreSecretRuns target (secret ∷ secrets) s es after =
      Then (IsSecretRun target secret) (AreSecretRuns target secrets) s es after

  -- For a project Prometheus the ServiceMonitor is copied, then the services, in the order in which
  -- the map is read, then the secrets.
  abbrev pub IsProjectRun : List Service → List Secret → ServiceMonitor → Prometheus → Run c.State
  IsProjectRun services secrets svc_mon prom s es after =
      (copied : Error ⊎ ServiceMonitor) × (between : c.State) × (rest : List Error)
      × (copy_service_monitor go c prom svc_mon s ≡ (outcome_of copied, between))
      × Then (AreServiceRuns (target_of copied) (go.range services))
          (AreSecretRuns (target_of copied) secrets) between rest after
      × (es ≡ failed (outcome_of copied) ++ rest)

  -- For the default Prometheus the labels of the ServiceMonitor are changed.
  abbrev pub IsDefaultRun : ServiceMonitor → Prometheus → ServiceMonitor → Run c.State
  IsDefaultRun svc_mon prom next s es after =
      (patched : Error ⊎ ServiceMonitor) × (update_service_monitor_labels go c prom svc_mon s
        ≡ (outcome_of patched, after))
      × (next ≡ updated_of svc_mon patched)
      × (es ≡ failed (outcome_of patched))

  module _ (services : List Service) (secrets : List Secret) where
    -- One Prometheus, and the ServiceMonitor that the next one sees.
    abbrev pub IsVisit : ServiceMonitor → Prometheus → ServiceMonitor → Run c.State
    IsVisit svc_mon prom next s es after =
        ((is_default_prometheus prom ≡ true) × IsDefaultRun svc_mon prom next s es after)
        ⊎ ((is_default_prometheus prom ≡ false)
            × (next ≡ svc_mon)
            × IsProjectRun services secrets svc_mon prom s es after)

    abbrev pub AreVisits : ServiceMonitor → List Prometheus → Run c.State
    AreVisits svc_mon [] s es after = (es ≡ []) × (after ≡ s)
    AreVisits svc_mon (prom ∷ proms) s es after =
        (next : ServiceMonitor) × Then (IsVisit svc_mon prom next) (AreVisits next proms) s es after
