-- ===== src/Projects/Listing/Monitored.antt =====
-- The monitoring of a project that `GetRancherProject` returns.
use rancid_syncer.Base.{
  String, ◌≡◌, refl, sym, ◌∙◌, ap, subst, List, [], ◌∷◌, Option, none, some, Bool, true, false, inl,
  inr, Bool-cases, Option-cases, All,
}
use rancid_syncer.Base.Dict.{Dict, lookup}
use rancid_syncer.Base.Entries.{
  All-range, All-insert, All-erase, All-lookup, String-IsSet, some_injective,
}
use rancid_syncer.Base.Outcome.{ok, ok-injective, >>=-eq-ok}
use rancid_syncer.Base.Runtime.{Runtime, IsRuntime}
use rancid_syncer.Kube.{Namespace, Prometheus}
use rancid_syncer.Presets.Types.{SourceLocator}
use rancid_syncer.Projects.Types.{Project, ProjectMonitoring, Cluster}
use rancid_syncer.Projects.Grouping.{
  project_id, with_namespace, new_project, known_or_new, add_namespace, group_namespaces,
}
use rancid_syncer.Projects.Presets.{items_of, visit_presets, find_presets}
use rancid_syncer.Projects.Presets.Used.{visited, step}
use rancid_syncer.Projects.Monitoring.{monitor_projects}
use rancid_syncer.Projects.Monitoring.Last.{
  IsMonitored, IsMonitoringOf, latest, monitor_projects-IsMonitored,
}
use rancid_syncer.Projects.Listing.{with_monitoring, list_rancher_projects, get_rancher_project}
use rancid_syncer.Projects.Listing.Order.{Option-IsSet, found_or_missing}
use rancid_syncer.Projects.Listing.Whole.{get_rancher_project-maps}

-- The entry has no monitoring yet.
abbrev IsPlain : String × Project → Type 0
IsPlain (key, p) = p.monitoring ≡ none

IsPlain-prop : (x : String × Project) → IsProp (IsPlain x)
IsPlain-prop x = hlevel String-IsSet

module _ (c : Cluster) where
  IsPlain-add_namespace :
      (ns : Namespace) (m : Dict Project) → All IsPlain m → All IsPlain (add_namespace c ns m)
  unfolding add_namespace with_namespace new_project
  IsPlain-add_namespace ns m h = elim (Option-cases (project_id ns)) [
    | inl e ↦ rw (e, add_namespace) h
    | inr (id, e) ↦
        rw (e, add_namespace) (All-insert IsPlain id _ m (known id (lookup id m) refl) h)
  ]
    where
      known :
          (id : String) (o : Option Project)
          → lookup id m ≡ o
          → (with_namespace ns (known_or_new c id o)).monitoring ≡ none
      known id none e = refl
      known id (some p) e = All-lookup IsPlain id p m h e

  IsPlain-group_namespaces :
      (items : List Namespace) (m : Dict Project)
      → All IsPlain m
      → All IsPlain (group_namespaces c items m)
  unfolding group_namespaces
  IsPlain-group_namespaces [] m h = h
  IsPlain-group_namespaces (ns ∷ items) m h =
      IsPlain-group_namespaces items (add_namespace c ns m) (IsPlain-add_namespace ns m h)

  module _ (go : Runtime) where
    IsPlain-step :
        (id : String) (prj : Project) (r : Bool × List SourceLocator) (m : Dict Project)
        → prj.monitoring ≡ none
        → All IsPlain m
        → All IsPlain (step c go id prj r m)
    IsPlain-step id prj r m n h = elim (Bool-cases r.0) [
      | inl used ↦ rw used (All-insert IsPlain id (visited c go prj r) m n h)
      | inr unused ↦ rw unused (All-erase IsPlain id m h)
    ]

    IsPlain-find_presets :
        (entries : List (String × Project)) (m final : Dict Project) (s : c.State)
        → All IsPlain entries
        → All IsPlain m
        → find_presets c go entries m s ≡ ok final
        → All IsPlain final
    unfolding find_presets
    IsPlain-find_presets [] m final s n h e = subst (All IsPlain) (ok-injective e) h
    IsPlain-find_presets ((id, prj) ∷ entries) m final s (n, ns) h e =
        let (r, d, f) =
          >>=-eq-ok (visit_presets c prj.type prj.namespaces false prj.presets s) _ e in
        IsPlain-find_presets entries (step c go id prj r m) final s ns (IsPlain-step id prj r m n h)
          f

-- What the monitoring of a project is, by the last Prometheus of the project.
module _ (c : Cluster) (system : String) (s : c.State) where
  abbrev pub HasMonitoring : String → Option Prometheus → Option ProjectMonitoring → Type 0
  HasMonitoring id none monitoring = monitoring ≡ none
  HasMonitoring id (some prom) monitoring =
      (m : ProjectMonitoring) × (monitoring ≡ some m) × IsMonitoringOf c system s id prom m

  found-HasMonitoring :
      (id : String) (last : Option Prometheus) (before : Option Project) (p : Project)
      → ((q : Project) → before ≡ some q → q.monitoring ≡ none)
      → IsMonitored c system s id last before (some p)
      → HasMonitoring id last p.monitoring
  found-HasMonitoring id none before p plain k = plain p (sym k)
  found-HasMonitoring id (some prom) none p plain k = cc
  found-HasMonitoring id (some prom) (some q) p plain (m, k, w) =
      (m, ap (λ x. x.monitoring) (some_injective k), w)

module _ (go : Runtime) (lawful : IsRuntime go) (c : Cluster) where
  with_monitoring-run :
      (m m' : Dict Project) (s : c.State) (system : String) (proms : List Prometheus)
      → c.is_rancher_managed ≡ true
      → c.system_project_id s ≡ ok system
      → items_of (c.list_prometheuses s) ≡ ok proms
      → with_monitoring go c m s ≡ ok m'
      → monitor_projects c system proms m s ≡ ok m'
  unfolding with_monitoring
  with_monitoring-run m m' s system proms managed e f h = rw (managed, e, f) at h

  -- With a runtime as documented (`IsRuntime`), on a cluster that Rancher manages, when the
  -- namespaces, the system project and the Prometheus objects are read: a project that
  -- `GetRancherProject` returns has the monitoring of the last Prometheus in the list that belongs
  -- to it, with the references to that Prometheus and to the first Alertmanager beside it, and with
  -- their addresses for the system project and those of its chart, or empty ones if the chart cannot
  -- be read, for any other. If no Prometheus
  -- belongs to it, it has none.
  pub get_rancher_project-HasMonitoring :
      (id : String) (s : c.State) (items : List Namespace) (projects : List Project)
      (system : String) (proms : List Prometheus) (p : Project)
      → c.list_namespaces s ≡ ok items
      → list_rancher_projects go c s ≡ ok projects
      → c.is_rancher_managed ≡ true
      → c.system_project_id s ≡ ok system
      → items_of (c.list_prometheuses s) ≡ ok proms
      → get_rancher_project go c id s ≡ ok p
      → HasMonitoring c system s id (latest c system s id proms none) p.monitoring
  get_rancher_project-HasMonitoring id s items projects system proms p l h managed e f g =
      let m0 = group_namespaces c items [] in
      let (m1, m2, found, monitored, h0, same, searched) =
        get_rancher_project-maps go lawful c id s items projects l h in
      let plain0 = IsPlain-group_namespaces c items [] tt in
      let plain1 =
        IsPlain-find_presets c go (go.range m0) m0 m1 s
          (All-range Option-IsSet go lawful IsPlain IsPlain-prop m0 plain0) plain0 found in
      let run = with_monitoring-run m1 m2 s system proms managed e f monitored in
      let there : lookup id m2 ≡ some p = returned (lookup id m2) p (sym searched ∙ g) in
      found-HasMonitoring c system s id (latest c system s id proms none) (lookup id m1) p
        (λ q d. All-lookup IsPlain id q m1 plain1 d)
        (subst (IsMonitored c system s id (latest c system s id proms none) (lookup id m1)) there
          (monitor_projects-IsMonitored c system s id proms m1 m2 run))
    where
      returned : (o : Option Project) (p : Project) → found_or_missing o ≡ ok p → o ≡ some p
      returned none p e = cc
      returned (some q) p e = ap some (ok-injective e)
