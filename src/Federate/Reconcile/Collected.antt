-- ===== src/Federate/Reconcile/Collected.antt =====
-- Which errors the loop of `Reconcile` over the Prometheus objects collects.
use mathlib.Core.List.{append_assoc, append-nil}
use rancid_syncer.Base.{
  ◌≡◌, refl, sym, ◌∙◌, ap, subst, if◌then◌else◌, List, [], ◌∷◌, ◌++◌, false, Option, inl, inr, ◌⊎◌,
  Bool-cases, All,
}
use rancid_syncer.Base.Outcome.{Error, Outcome, ok, ok-injective}
use rancid_syncer.Base.Effect.{
  Effect, gather, try, read, failed, outcome_of, >>=-eq-run, gather-eq-run, try-eq-run,
}
use rancid_syncer.Base.Runtime.{Runtime}
use rancid_syncer.Kube.{
  ObjectKey, object_key, Service, Secret, ServiceMonitor, Prometheus, Endpoints,
}
use rancid_syncer.Federate.Client.{Client}
use rancid_syncer.Federate.Write.{
  update_service_monitor_labels, copy_service_monitor, copy_secret, copy_service, copy_endpoints,
}
use rancid_syncer.Federate.Reconcile.{
  is_default_prometheus, conflicts, copy_found, target_of, errors_of, updated_of, sync_service,
  sync_services, sync_secrets, sync_project, sync_default, sync_prometheuses,
}
use rancid_syncer.Federate.Reconcile.Runs.{
  Run, Then, IsServiceRun, AreServiceRuns, IsSecretRun, AreSecretRuns, IsProjectRun, IsDefaultRun,
  IsVisit, AreVisits,
}

module _ (go : Runtime) (c : Client) where
  -- A run that goes on with the errors before it.
  abbrev Adds : List Error → List Error → (List Error → Type 0) → Type 0
  Adds errs errs' p = (more : List Error) × p more × (errs' ≡ errs ++ more)

  Adds-trans :
      (errs mid errs' : List Error) (p q : Run c.State) (s between after : c.State)
      → Adds errs mid (λ more. p s more between)
      → Adds mid errs' (λ more. q between more after)
      → Adds errs errs' (λ more. Then go c p q s more after)
  Adds-trans errs mid errs' p q s between after (m, a, e) (n, b, f) =
      (m ++ n, (m, n, between, a, b, refl), f ∙ ap (λ l. l ++ n) e ∙ append_assoc errs m n)

  Adds-nothing :
      (errs errs' : List Error) (s after : c.State)
      → ◌≡◌ {A = Outcome (List Error) × c.State} (ok errs, s) (ok errs', after)
      → Adds errs errs' (λ more. (more ≡ []) × (after ≡ s))
  Adds-nothing errs errs' s after h = (
    [],
    (refl, sym (ap (λ x. x.1) h)),
    sym (ok-injective (ap (λ x. x.0) h)) ∙ sym (append-nil errs),
  )

  copy_found-Adds :
      (target : Option ServiceMonitor) (errs errs1 errs' : List Error) (svc : Service)
      (r : Outcome Service) (s s1 after : c.State) (found : Error ⊎ Endpoints)
      → copy_service go c svc target s ≡ (r, s1)
      → errs1 ≡ errs ++ failed r
      → c.get_endpoints (object_key svc.meta) s1 ≡ outcome_of found
      → copy_found go c target errs1 svc found s1 ≡ (ok errs', after)
      → Adds errs errs' (λ more. IsServiceRun go c target svc s more after)
  copy_found-Adds target errs errs1 errs' svc r s s1 after (inl e) d k g l = (
    failed r ++ e ∷ [],
    (r, s1, d, inl (e, g, sym (ap (λ x. x.1) l), refl)),
    sym (ok-injective (ap (λ x. x.0) l))
        ∙ ap (λ es. es ++ e ∷ []) k
        ∙ append_assoc errs (failed r) (e ∷ []),
  )
  copy_found-Adds target errs errs1 errs' svc r s s1 after (inr ep) d k g l =
      let (r', f, m) = gather-eq-run errs1 (copy_endpoints go c svc ep target) s1 l in
      (
        failed r ++ failed r',
        (r, s1, d, inr (ep, r', g, f, refl)),
        m ∙ ap (λ es. es ++ failed r') k ∙ append_assoc errs (failed r) (failed r'),
      )

  sync_service-Adds :
      (target : Option ServiceMonitor) (errs errs' : List Error) (svc : Service) (s after : c.State)
      → sync_service go c target errs svc s ≡ (ok errs', after)
      → Adds errs errs' (λ more. IsServiceRun go c target svc s more after)
  unfolding sync_service
  sync_service-Adds target errs errs' svc s after h =
      let (errs1, s1, e, f) = >>=-eq-run (gather errs (copy_service go c svc target)) _ s h in
      let (r, d, k) = gather-eq-run errs (copy_service go c svc target) s e in
      let (found, s2, g, l) =
        >>=-eq-run (try (read (c.get_endpoints (object_key svc.meta)))) _ s1 f in
      let got = try-eq-run (read (c.get_endpoints (object_key svc.meta))) s1 g in
      copy_found-Adds target errs errs1 errs' svc r s s1 after found d k (ap (λ x. x.0) got)
        (ap (λ x. copy_found go c target errs1 svc found x) (ap (λ x. x.1) got) ∙ l)

  sync_services-Adds :
      (target : Option ServiceMonitor) (services : List Service) (errs errs' : List Error)
      (s after : c.State)
      → sync_services go c target errs services s ≡ (ok errs', after)
      → Adds errs errs' (λ more. AreServiceRuns go c target services s more after)
  unfolding sync_services
  sync_services-Adds target [] errs errs' s after h = Adds-nothing errs errs' s after h
  sync_services-Adds target (svc ∷ services) errs errs' s after h =
      let (errs1, s1, e, f) = >>=-eq-run (sync_service go c target errs svc) _ s h in
      Adds-trans errs errs1 errs' (IsServiceRun go c target svc)
        (AreServiceRuns go c target services) s s1 after
        (sync_service-Adds target errs errs1 svc s s1 e)
        (sync_services-Adds target services errs1 errs' s1 after f)

  sync_secrets-Adds :
      (target : Option ServiceMonitor) (secrets : List Secret) (errs errs' : List Error)
      (s after : c.State)
      → sync_secrets go c target errs secrets s ≡ (ok errs', after)
      → Adds errs errs' (λ more. AreSecretRuns go c target secrets s more after)
  unfolding sync_secrets
  sync_secrets-Adds target [] errs errs' s after h = Adds-nothing errs errs' s after h
  sync_secrets-Adds target (secret ∷ secrets) errs errs' s after h =
      let (errs1, s1, e, f) = >>=-eq-run (gather errs (copy_secret go c secret target)) _ s h in
      let (r, d, k) = gather-eq-run errs (copy_secret go c secret target) s e in
      Adds-trans errs errs1 errs' (IsSecretRun go c target secret)
        (AreSecretRuns go c target secrets) s s1 after (failed r, (r, d, refl), k)
        (sync_secrets-Adds target secrets errs1 errs' s1 after f)

  errors_of-failed :
      (errs : List Error) (r : Error ⊎ ServiceMonitor)
      → errors_of errs r ≡ errs ++ failed (outcome_of r)
  errors_of-failed errs (inl e) = refl
  errors_of-failed errs (inr t) = sym (append-nil errs)

  module _ (services : List Service) (secrets : List Secret) where
    sync_project-Adds :
        (errs errs' : List Error) (svc_mon next : ServiceMonitor) (prom : Prometheus)
        (s after : c.State)
        → sync_project go c services secrets errs svc_mon prom s ≡ (ok (errs', next), after)
        → (next ≡ svc_mon)
          × Adds errs errs' (λ more. IsProjectRun go c services secrets svc_mon prom s more after)
    unfolding sync_project
    sync_project-Adds errs errs' svc_mon next prom s after h =
        let (copied, s1, d, f) = >>=-eq-run (try (copy_service_monitor go c prom svc_mon)) _ s h in
        let call = try-eq-run (copy_service_monitor go c prom svc_mon) s d in
        let target = target_of copied in
        let (errs1, s2, e, g) =
          >>=-eq-run (sync_services go c target (errors_of errs copied) (go.range services)) _ s1
            f in
        let (errs2, s3, k, l) = >>=-eq-run (sync_secrets go c target errs1 secrets) _ s2 g in
        let (rest, runs, all) =
          Adds-trans (errors_of errs copied) errs1 errs2
            (AreServiceRuns go c target (go.range services)) (AreSecretRuns go c target secrets) s1
            s2 s3
            (sync_services-Adds target (go.range services) (errors_of errs copied) errs1 s1 s2 e)
            (sync_secrets-Adds target secrets errs1 errs2 s2 s3 k) in
        let done : ◌≡◌ {A = List Error × ServiceMonitor} (errs2, svc_mon) (errs', next) =
          ok-injective (ap (λ x. x.0) l) in
        (
          sym (ap (λ x. x.1) done),
          (
            failed (outcome_of copied) ++ rest,
            (
              copied,
              s1,
              rest,
              call,
              subst
                  (λ x.
                    Then go c (AreServiceRuns go c target (go.range services))
                      (AreSecretRuns go c target secrets) s1 rest x)
                  (ap (λ x. x.1) l) runs,
              refl,
            ),
            sym (ap (λ x. x.0) done)
                ∙ all
                ∙ ap (λ es. es ++ rest) (errors_of-failed errs copied)
                ∙ append_assoc errs (failed (outcome_of copied)) rest,
          ),
        )

    sync_default-Adds :
        (errs errs' : List Error) (svc_mon next : ServiceMonitor) (prom : Prometheus)
        (s after : c.State)
        → sync_default go c errs svc_mon prom s ≡ (ok (errs', next), after)
        → Adds errs errs' (λ more. IsDefaultRun go c svc_mon prom next s more after)
    unfolding sync_default
    sync_default-Adds errs errs' svc_mon next prom s after h =
        let (patched, s1, d, f) =
          >>=-eq-run (try (update_service_monitor_labels go c prom svc_mon)) _ s h in
        let call = try-eq-run (update_service_monitor_labels go c prom svc_mon) s d in
        let done : ◌≡◌ {A = List Error × ServiceMonitor}
            (errors_of errs patched, updated_of svc_mon patched) (errs', next) =
          ok-injective (ap (λ x. x.0) f) in
        (
          failed (outcome_of patched),
          (
            patched,
            subst (λ x. update_service_monitor_labels go c prom svc_mon s ≡ (outcome_of patched, x))
                (ap (λ x. x.1) f) call,
            sym (ap (λ x. x.1) done),
            refl,
          ),
          sym (ap (λ x. x.0) done) ∙ errors_of-failed errs patched,
        )

    abbrev visit :
        Prometheus → List Error → ServiceMonitor → Effect c.State (List Error × ServiceMonitor)
    visit prom errs svc_mon =
        if is_default_prometheus prom
        then sync_default go c errs svc_mon prom
        else sync_project go c services secrets errs svc_mon prom

    visit-Adds :
        (errs errs' : List Error) (svc_mon next : ServiceMonitor) (prom : Prometheus)
        (s after : c.State)
        → visit prom errs svc_mon s ≡ (ok (errs', next), after)
        → Adds errs errs' (λ more. IsVisit go c services secrets svc_mon prom next s more after)
    visit-Adds errs errs' svc_mon next prom s after h =
        elim (Bool-cases (is_default_prometheus prom)) [
          | inl d ↦
              let (more, run, e) =
                sync_default-Adds errs errs' svc_mon next prom s after (rw d at h) in
              (more, inl (d, run), e)
          | inr d ↦
              let (kept, (more, run, e)) =
                sync_project-Adds errs errs' svc_mon next prom s after (rw d at h) in
              (more, inr (d, kept, run), e)
        ]

    -- When no Prometheus conflicts with the request and the loop of `Reconcile` over the Prometheus
    -- objects returns, it returns the errors that it was given and behind them, in order and each
    -- once, the errors of all its calls: of the patch of the labels for the default Prometheus; and
    -- for a project Prometheus of the copy of the ServiceMonitor, then for each service of its copy,
    -- of the read of its endpoints and of their copy, then of the copy of each secret. Each call is
    -- made in the state that the calls before it left, also after an error.
    pub sync_prometheuses-AreVisits :
        (req : ObjectKey) (proms : List Prometheus) (errs errs' : List Error)
        → (svc_mon : ServiceMonitor) (s after : c.State)
        → All (λ prom. conflicts req prom ≡ false) proms
        → sync_prometheuses go c req services secrets errs svc_mon proms s ≡ (ok errs', after)
        → (more : List Error) × AreVisits go c services secrets svc_mon proms s more after
          × (errs' ≡ errs ++ more)
    unfolding sync_prometheuses
    sync_prometheuses-AreVisits req [] errs errs' svc_mon s after free h =
        Adds-nothing errs errs' s after h
    sync_prometheuses-AreVisits req (prom ∷ proms) errs errs' svc_mon s after (p, free) h =
        let (r, s1, e, g) = >>=-eq-run (visit prom errs svc_mon) _ s (rw p at h) in
        let (more, runs, all) =
          Adds-trans errs r.0 errs' (IsVisit go c services secrets svc_mon prom r.1)
            (AreVisits go c services secrets r.1 proms) s s1 after
            (visit-Adds errs r.0 svc_mon r.1 prom s s1 e)
            (sync_prometheuses-AreVisits req proms r.0 errs' r.1 s1 after free g) in
        (more, (r.1, runs), all)
