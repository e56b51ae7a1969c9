-- ===== src/Projects/Monitoring/Last.antt =====
-- The monitoring of a project is that of its last Prometheus.
use rancid_syncer.Base.{
  String, ◌≡◌, refl, sym, ◌∙◌, ap, List, [], ◌∷◌, Option, none, some, Bool, true, false, ◌==◌, inl,
  inr, Option-cases, subst, eq_iff, if◌then◌else◌,
}
use rancid_syncer.Base.Dict.{Dict, lookup, insert, lookup-insert}
use rancid_syncer.Base.Entries.{some_injective}
use rancid_syncer.Base.Outcome.{
  Outcome, ok, err, panic, ok-injective, nil_dereference, ◌>>=◌, >>=-eq-ok,
}
use rancid_syncer.Kube.{ObjectKey, object_key, Prometheus}
use rancid_syncer.Projects.Types.{Project, ProjectMonitoring, Alertmanager, Cluster}
use rancid_syncer.Projects.Texts.{trim_suffix}
use rancid_syncer.Projects.Monitoring.{
  project_of, grafana_of, find_sibling_alert_manager_for_prometheus, detect_project_monitoring_urls,
  set_urls, monitoring_of, with_refs, monitor_project, monitor_projects,
}

module _ (c : Cluster) (system : String) (s : c.State) where
  -- The addresses are the three values of the chart, or empty if the chart cannot be read.
  abbrev pub HasChartUrls : Outcome c.Chart → ProjectMonitoring → Type 0
  HasChartUrls (ok chart) m =
      (m.alertmanager_url
        ≡ c.nested_string ("status" ∷ "dashboardValues" ∷ "alertmanagerURL" ∷ []) chart)
      × (m.grafana_url ≡ c.nested_string ("status" ∷ "dashboardValues" ∷ "grafanaURL" ∷ []) chart)
      × (m.prometheus_url
          ≡ c.nested_string ("status" ∷ "dashboardValues" ∷ "prometheusURL" ∷ []) chart)
  HasChartUrls (err e) m =
      (m.alertmanager_url ≡ "") × (m.grafana_url ≡ "") × (m.prometheus_url ≡ "")
  HasChartUrls (panic e) m = ⊥

  -- The chart of the project in whose monitoring namespace a Prometheus stands.
  abbrev pub chart_key : Prometheus → ObjectKey
  chart_key prom = record {
    namespace = trim_suffix "-monitoring" prom.meta.namespace;
    name = "project-monitoring";
  }

  -- The system project has the addresses of its objects, any other those of its chart.
  abbrev pub HasUrls : Bool → Prometheus → Alertmanager → ProjectMonitoring → Type 0
  HasUrls true prom alertmanager m =
      (m.alertmanager_url ≡ alertmanager.external_url)
      × (m.prometheus_url ≡ prom.external_url)
      × (m.grafana_url ≡ grafana_of prom.external_url)
  HasUrls false prom alertmanager m = HasChartUrls (c.get_project_helm_chart (chart_key prom) s) m

  -- The references are to the Prometheus and to the first Alertmanager beside it.
  abbrev pub IsMonitoringOf : String → Prometheus → ProjectMonitoring → Type 0
  IsMonitoringOf id prom m =
      (alertmanager : Alertmanager) × (others : List Alertmanager) × (c.list_alertmanagers
          prom.meta.namespace s
        ≡ ok (alertmanager ∷ others))
      × (m.prometheus_ref ≡ some (object_key prom.meta))
      × (m.alertmanager_ref ≡ some (object_key alertmanager.meta))
      × HasUrls (id == system) prom alertmanager m

  -- A project before the loop and after it, where the last Prometheus of the project is known.
  abbrev pub IsMonitored : String → Option Prometheus → Option Project → Option Project → Type 0
  IsMonitored id none before after = after ≡ before
  IsMonitored id (some prom) none after = after ≡ none
  IsMonitored id (some prom) (some prj) after =
      (m : ProjectMonitoring) × (after ≡ some (record prj { monitoring = some m }))
      × IsMonitoringOf id prom m

  -- The last Prometheus in the list that belongs to the project, and else `found`.
  abbrev pub latest : String → List Prometheus → Option Prometheus → Option Prometheus
  latest id [] found = found
  latest id (prom ∷ proms) found =
      latest id proms (if project_of system prom == id then some prom else found)

  detected-HasChartUrls :
      (prom : Prometheus) (m : ProjectMonitoring) (r : Outcome c.Chart)
      → c.get_project_helm_chart (chart_key prom) s ≡ r
      → detect_project_monitoring_urls c prom.meta.namespace s
        ≡ ok (m.alertmanager_url, m.grafana_url, m.prometheus_url)
      → HasChartUrls r m
  unfolding detect_project_monitoring_urls
  detected-HasChartUrls prom m (ok chart) e h =
      let k = ok-injective (rw (e, detect_project_monitoring_urls) at h) in
      (sym (ap (λ x. x.0) k), sym (ap (λ x. x.1) k), sym (ap (λ x. x.2) k))
  detected-HasChartUrls prom m (err p) e h =
      let k = ok-injective (rw (e, detect_project_monitoring_urls) at h) in
      (sym (ap (λ x. x.0) k), sym (ap (λ x. x.1) k), sym (ap (λ x. x.2) k))
  detected-HasChartUrls prom m (panic p) e h =
      let k = rw (e, detect_project_monitoring_urls) at h in cc

  set_urls-HasUrls :
      (id : String) (prom : Prometheus) (alertmanager : Alertmanager) (old m : ProjectMonitoring)
      (own : Bool)
      → (id == system) ≡ own
      → set_urls c system id prom alertmanager old s ≡ ok m
      → (m.prometheus_ref ≡ old.prometheus_ref)
        × (m.alertmanager_ref ≡ old.alertmanager_ref)
        × HasUrls own prom alertmanager m
  unfolding set_urls
  set_urls-HasUrls id prom alertmanager old m true own h =
      let e = ok-injective (rw (own, set_urls) at h) in
      (
        sym (ap (λ x. x.prometheus_ref) e),
        sym (ap (λ x. x.alertmanager_ref) e),
        (
          sym (ap (λ x. x.alertmanager_url) e),
          sym (ap (λ x. x.prometheus_url) e),
          sym (ap (λ x. x.grafana_url) e),
        ),
      )
  set_urls-HasUrls id prom alertmanager old m false own h =
      let (urls, d, f) =
        >>=-eq-ok (detect_project_monitoring_urls c prom.meta.namespace s) _
          (rw (own, set_urls) at h) in
      let e = ok-injective f in
      (
        sym (ap (λ x. x.prometheus_ref) e),
        sym (ap (λ x. x.alertmanager_ref) e),
        detected-HasChartUrls prom m _ refl
            (d ∙ ap (λ x. ok (x.alertmanager_url, x.grafana_url, x.prometheus_url)) e),
      )

  sibling-first :
      (prom : Prometheus) (a : Alertmanager)
      → find_sibling_alert_manager_for_prometheus c (object_key prom.meta) s ≡ ok (some a)
      → (others : List Alertmanager) × (c.list_alertmanagers prom.meta.namespace s
          ≡ ok (a ∷ others))
  unfolding find_sibling_alert_manager_for_prometheus
  sibling-first prom a h =
      let (items, d, f) = >>=-eq-ok (c.list_alertmanagers prom.meta.namespace s) _ h in
      by_items items d (ok-injective f)
    where
      by_items :
          (items : List Alertmanager)
          → c.list_alertmanagers prom.meta.namespace s ≡ ok items
          → elim items [ [] ↦ none | a' ∷ _ ↦ some a' ] ≡ some a
          → (others : List Alertmanager) × (c.list_alertmanagers prom.meta.namespace s
              ≡ ok (a ∷ others))
      by_items [] d f = cc
      by_items (a' ∷ others) d f = (others, d ∙ ap (λ x. ok (x ∷ others)) (some_injective f))

  monitor_project-IsMonitoringOf :
      (id : String) (prom : Prometheus) (prj new : Project)
      → monitor_project c system id prom prj s ≡ ok new
      → (m : ProjectMonitoring) × (new ≡ record prj { monitoring = some m })
        × IsMonitoringOf id prom m
  unfolding monitor_project
  monitor_project-IsMonitoringOf id prom prj new h =
      let (sibling, d, f) =
        >>=-eq-ok (find_sibling_alert_manager_for_prometheus c (object_key prom.meta) s) _ h in
      by_sibling sibling d f
    where
      by_sibling :
          (sibling : Option Alertmanager)
          → find_sibling_alert_manager_for_prometheus c (object_key prom.meta) s ≡ ok sibling
          → (elim sibling [
            | none ↦ panic nil_dereference
            | some alertmanager ↦
                set_urls c system id prom alertmanager
                  (with_refs prom alertmanager (monitoring_of prj.monitoring))
                  s
                >>= λ monitoring. ok (record prj { monitoring = some monitoring })
          ])
            ≡ ok new
          → (m : ProjectMonitoring) × (new ≡ record prj { monitoring = some m })
            × IsMonitoringOf id prom m
      by_sibling none d f = cc
      by_sibling (some a) d f =
          let old = with_refs prom a (monitoring_of prj.monitoring) in
          let (others, listed) = sibling-first prom a d in
          let (m, e, g) = >>=-eq-ok (set_urls c system id prom a old s) _ f in
          let (ref1, ref2, urls) = set_urls-HasUrls id prom a old m (id == system) refl e in
          (m, sym (ok-injective g), (a, others, listed, ref1, ref2, urls))

  -- The next Prometheus of the project takes the place of the one before it.
  replaced :
      (id : String) (found : Option Prometheus) (prom : Prometheus) (before : Option Project)
      (old new : Project)
      → IsMonitored id found before (some old)
      → monitor_project c system id prom old s ≡ ok new
      → IsMonitored id (some prom) before (some new)
  replaced id none prom none old new k h = cc
  replaced id none prom (some prj) old new k h =
      let (m, e, w) = monitor_project-IsMonitoringOf id prom old new h in
      (
        m,
        ap some e
            ∙ ap {A = Project} (λ p. some (record p { monitoring = some m })) (some_injective k),
        w,
      )
  replaced id (some p) prom none old new k h = cc
  replaced id (some p) prom (some prj) old new (n, k, v) h =
      let (m, e, w) = monitor_project-IsMonitoringOf id prom old new h in
      (
        m,
        ap some e
            ∙ ap {A = Project} (λ x. some (record x { monitoring = some m })) (some_injective k),
        w,
      )

  missing :
      (id : String) (found : Option Prometheus) (prom : Prometheus) (before : Option Project)
      → IsMonitored id found before none
      → IsMonitored id (some prom) before none
  missing id none prom none k = refl
  missing id none prom (some prj) k = cc
  missing id (some p) prom none k = refl
  missing id (some p) prom (some prj) (m, k, w) = cc

  skipped :
      (id key : String) (own : Bool) (found : Option Prometheus) (prom : Prometheus)
      (before : Option Project) (projects : Dict Project)
      → (id == key) ≡ own
      → lookup id projects ≡ none
      → IsMonitored key found before (lookup key projects)
      → IsMonitored key (if own then some prom else found) before (lookup key projects)
  skipped id key true found prom before projects own e k =
      let gone = subst (λ i. lookup i projects ≡ none) ((eq_iff id key).0 own) e in
      subst (λ o. IsMonitored key (some prom) before o) (sym gone)
        (missing key found prom before (subst (λ o. IsMonitored key found before o) gone k))
  skipped id key false found prom before projects own e k = k

  monitored :
      (id key : String) (own : Bool) (found : Option Prometheus) (prom : Prometheus)
      (before : Option Project) (projects : Dict Project) (prj new : Project)
      → (id == key) ≡ own
      → lookup id projects ≡ some prj
      → monitor_project c system id prom prj s ≡ ok new
      → IsMonitored key found before (lookup key projects)
      → IsMonitored key
          (if own then some prom else found)
          before
          (lookup key (insert id new projects))
  monitored id key true found prom before projects prj new own e d k =
      let same = (eq_iff id key).0 own in
      let there = subst (λ i. lookup i projects ≡ some prj) same e in
      rw (lookup-insert id key new projects, own)
        (replaced key found prom before prj new
          (subst (λ o. IsMonitored key found before o) there k)
          (subst (λ i. monitor_project c system i prom prj s ≡ ok new) same d))
  monitored id key false found prom before projects prj new own e d k =
      rw (lookup-insert id key new projects, own) k

  from_found :
      (key : String) (proms : List Prometheus) (found : Option Prometheus) (before : Option Project)
      (projects final : Dict Project)
      → IsMonitored key found before (lookup key projects)
      → monitor_projects c system proms projects s ≡ ok final
      → IsMonitored key (latest key proms found) before (lookup key final)
  unfolding monitor_projects
  from_found key [] found before projects final k h =
      subst (λ m. IsMonitored key found before (lookup key m)) (ok-injective h) k
  from_found key (prom ∷ proms) found before projects final k h =
      let id = project_of system prom in
      let found' : Option Prometheus = if id == key then some prom else found in
      elim (Option-cases (lookup id projects)) [
        | inl e ↦
            from_found key proms found' before projects final
              (skipped id key (id == key) found prom before projects refl e k)
              (rw (e, monitor_projects) at h)
        | inr (prj, e) ↦
            let (new, d, f) =
              >>=-eq-ok (monitor_project c system id prom prj s) _
                (rw (e, monitor_projects) at h) in
            from_found key proms found' before (insert id new projects) final
              (monitored id key (id == key) found prom before projects prj new refl e d k) f
      ]

  -- When the third loop returns, a project that some Prometheus in the list belongs to has the
  -- monitoring of the last of these, and is otherwise as it was: the references to that Prometheus
  -- and to the first Alertmanager beside it, and the addresses of the two if it is the system
  -- project, and else those of its chart, or empty ones if the chart cannot be read. Under an id that no Prometheus belongs to, and under one
  -- without a project, nothing has changed.
  pub monitor_projects-IsMonitored :
      (key : String) (proms : List Prometheus) (projects final : Dict Project)
      → monitor_projects c system proms projects s ≡ ok final
      → IsMonitored key (latest key proms none) (lookup key projects) (lookup key final)
  monitor_projects-IsMonitored key proms projects final h =
      from_found key proms none (lookup key projects) projects final refl h
