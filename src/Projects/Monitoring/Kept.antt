-- ===== src/Projects/Monitoring/Kept.antt =====
-- What the monitoring of the projects leaves as it was, and where it panics.
use rancid_syncer.Base.{
  String, ◌≡◌, sym, ◌∙◌, ap, List, [], ◌∷◌, Option, none, some, ◌==◌, inl, inr, Bool-cases,
  Option-cases, subst, eq_iff,
}
use rancid_syncer.Base.Dict.{Dict, lookup, insert, lookup-insert}
use rancid_syncer.Base.Outcome.{ok, ok-injective, panic, nil_dereference, ◌>>=◌, >>=-eq-ok}
use rancid_syncer.Kube.{object_key, Prometheus}
use rancid_syncer.Projects.Types.{Project, Alertmanager, Cluster}
use rancid_syncer.Projects.Monitoring.{
  project_of, find_sibling_alert_manager_for_prometheus, set_urls, monitoring_of, with_refs,
  monitor_project, monitor_projects,
}

-- The project without its monitoring.
abbrev pub unmonitored : Option Project → Option Project
unmonitored none = none
unmonitored (some p) = some (record p { monitoring = none })

module _ (c : Cluster) where
  pub monitor_project-unmonitored :
      (system id : String) (prom : Prometheus) (prj new : Project) (s : c.State)
      → monitor_project c system id prom prj s ≡ ok new
      → unmonitored (some new) ≡ unmonitored (some prj)
  unfolding monitor_project
  monitor_project-unmonitored system id prom prj new s h =
      let (sibling, d, f) =
        >>=-eq-ok (find_sibling_alert_manager_for_prometheus c (object_key prom.meta) s) _ h in
      by_sibling sibling f
    where
      by_sibling :
          (sibling : Option Alertmanager)
          → (elim sibling [
            | none ↦ panic nil_dereference
            | some alertmanager ↦
                set_urls c system id prom alertmanager
                  (with_refs prom alertmanager (monitoring_of prj.monitoring))
                  s
                >>= λ monitoring. ok (record prj { monitoring = some monitoring })
          ])
            ≡ ok new
          → unmonitored (some new) ≡ unmonitored (some prj)
      by_sibling none f = cc
      by_sibling (some alertmanager) f =
          let (monitoring, e, g) =
            >>=-eq-ok
              (set_urls c system id prom alertmanager
                (with_refs prom alertmanager (monitoring_of prj.monitoring)) s)
              _ f in
          ap (λ p. unmonitored (some p)) (sym (ok-injective g))

  insert_same :
      (key id : String) (prj new : Project) (projects : Dict Project)
      → lookup id projects ≡ some prj
      → unmonitored (some new) ≡ unmonitored (some prj)
      → unmonitored (lookup key (insert id new projects)) ≡ unmonitored (lookup key projects)
  insert_same key id prj new projects e d = elim (Bool-cases (id == key)) [
    | inl same ↦
        let k : id ≡ key = (eq_iff id key).0 same in
        rw lookup-insert
          (rw same (d ∙ ap unmonitored (sym (subst (λ j. lookup j projects ≡ some prj) k e))))
    | inr other ↦ rw lookup-insert (rw other)
  ]

  -- The third loop gives projects their monitoring and does nothing else: under every id there is a
  -- project after it just if there was one before it, and the two are the same but for that.
  pub monitor_projects-unmonitored :
      (system : String) (proms : List Prometheus) (projects final : Dict Project) (s : c.State)
      → (key : String) → monitor_projects c system proms projects s ≡ ok final
      → unmonitored (lookup key final) ≡ unmonitored (lookup key projects)
  unfolding monitor_projects
  monitor_projects-unmonitored system [] projects final s key h =
      ap (λ m. unmonitored (lookup key m)) (sym (ok-injective h))
  monitor_projects-unmonitored system (prom ∷ proms) projects final s key h =
      elim (Option-cases (lookup (project_of system prom) projects)) [
        | inl e ↦
            monitor_projects-unmonitored system proms projects final s key
              (rw (e, monitor_projects) at h)
        | inr (prj, e) ↦
            let (new, d, f) =
              >>=-eq-ok (monitor_project c system (project_of system prom) prom prj s) _
                (rw (e, monitor_projects) at h) in
            monitor_projects-unmonitored system proms (insert (project_of system prom) new projects)
              final s key f
            ∙ insert_same key (project_of system prom) prj new projects e
                (monitor_project-unmonitored system (project_of system prom) prom prj new s d)
      ]

  -- The loop panics at a Prometheus whose project is found when its namespace has no Alertmanager:
  -- `FindSiblingAlertManagerForPrometheus` returns nil without an error, and it is dereferenced.
  pub monitor_projects_nil :
      (system : String) (prom : Prometheus) (proms : List Prometheus) (projects : Dict Project)
      → (prj : Project) (s : c.State) → lookup (project_of system prom) projects ≡ some prj
      → c.list_alertmanagers prom.meta.namespace s ≡ ok []
      → monitor_projects c system (prom ∷ proms) projects s ≡ panic nil_dereference
  unfolding monitor_projects monitor_project find_sibling_alert_manager_for_prometheus
  monitor_projects_nil system prom proms projects prj s e a = rw (e, monitor_projects) (rw a)
