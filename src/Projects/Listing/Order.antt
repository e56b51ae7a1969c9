-- ===== src/Projects/Listing/Order.antt =====
-- The maps of projects on the way through `ListRancherProjects`.
use rancid_syncer.Base.{
  String, ◌≡◌, refl, ◌∙◌, subst, List, [], ◌∷◌, map, Option, none, some, Bool, false, ◌==◌, inl,
  inr, All, Bool-cases, Option-cases,
}
use rancid_syncer.Base.Dict.{Dict, lookup, insert, erase}
use rancid_syncer.Base.Entries.{
  IsMap, IsMap-insert, IsMap-erase, All-insert, All-erase, All-lookup, String-IsSet,
}
use rancid_syncer.Base.Outcome.{Outcome, ok, err, not_found, ok-injective, >>=-eq-ok}
use rancid_syncer.Base.Runtime.{Runtime}
use rancid_syncer.Kube.{Namespace, Prometheus}
use rancid_syncer.Presets.Types.{SourceLocator}
use rancid_syncer.Projects.Types.{Project, Cluster}
use rancid_syncer.Projects.Grouping.{
  project_id, with_namespace, new_project, known_or_new, add_namespace, group_namespaces,
}
use rancid_syncer.Projects.Presets.{visit_presets, find_presets}
use rancid_syncer.Projects.Monitoring.{project_of, monitor_project, monitor_projects}
use rancid_syncer.Projects.Monitoring.Kept.{unmonitored, monitor_project-unmonitored}
use rancid_syncer.Projects.Presets.Used.{visited, step}
use rancid_syncer.Projects.Listing.{find_project}

-- The name of the project is its key.
abbrev pub IsNamed : String × Project → Type 0
IsNamed (key, p) = p.name ≡ key

pub IsNamed-prop : (x : String × Project) → IsProp (IsNamed x)
IsNamed-prop x = hlevel String-IsSet

pub Option-IsSet : IsSet (Option Project)
Option-IsSet = hlevel String-IsSet

abbrev pub AreProjects : Dict Project → Type 0
AreProjects m = IsMap m × All IsNamed m

abbrev pub found_or_missing : Option Project → Outcome Project
found_or_missing none = err not_found
found_or_missing (some p) = ok p

-- A search by name finds the entry of the key.
pub find_project-lookup :
    (id : String) (m : Dict Project)
    → All IsNamed m
    → find_project id (map (λ (entry : String × Project). entry.1) m)
      ≡ found_or_missing (lookup id m)
unfolding find_project lookup
find_project-lookup id [] h = refl
find_project-lookup id ((key, p) ∷ m) (n, h) = elim (Bool-cases (key == id)) [
  | inl same ↦ rw (n, same) refl
  | inr other ↦ rw (n, other) (find_project-lookup id m h)
]

AreProjects-insert :
    (key : String) (p : Project) (m : Dict Project)
    → p.name ≡ key
    → AreProjects m
    → AreProjects (insert key p m)
AreProjects-insert key p m n (h, k) = (IsMap-insert key p m h, All-insert IsNamed key p m n k)

AreProjects-erase : (key : String) (m : Dict Project) → AreProjects m → AreProjects (erase key m)
AreProjects-erase key m (h, k) = (IsMap-erase key m h, All-erase IsNamed key m k)

module _ (c : Cluster) where
  AreProjects-add_namespace :
      (ns : Namespace) (m : Dict Project) → AreProjects m → AreProjects (add_namespace c ns m)
  unfolding add_namespace with_namespace new_project
  AreProjects-add_namespace ns m h = elim (Option-cases (project_id ns)) [
    | inl e ↦ rw (e, add_namespace) h
    | inr (id, e) ↦
        rw (e, add_namespace) (AreProjects-insert id _ m (named id (lookup id m) refl) h)
  ]
    where
      named :
          (id : String) (o : Option Project)
          → lookup id m ≡ o
          → (with_namespace ns (known_or_new c id o)).name ≡ id
      named id none e = refl
      named id (some p) e = All-lookup IsNamed id p m h.1 e

  pub AreProjects-group_namespaces :
      (items : List Namespace) (m : Dict Project)
      → AreProjects m
      → AreProjects (group_namespaces c items m)
  unfolding group_namespaces
  AreProjects-group_namespaces [] m h = h
  AreProjects-group_namespaces (ns ∷ items) m h =
      AreProjects-group_namespaces items (add_namespace c ns m) (AreProjects-add_namespace ns m h)

  pub AreProjects-monitor_projects :
      (system : String) (proms : List Prometheus) (m final : Dict Project) (s : c.State)
      → AreProjects m
      → monitor_projects c system proms m s ≡ ok final
      → AreProjects final
  unfolding monitor_projects
  AreProjects-monitor_projects system [] m final s h e = subst AreProjects (ok-injective e) h
  AreProjects-monitor_projects system (prom ∷ proms) m final s h e =
      let id = project_of system prom in
      elim (Option-cases (lookup id m)) [
        | inl d ↦
            AreProjects-monitor_projects system proms m final s h (rw (d, monitor_projects) at e)
        | inr (prj, d) ↦
            let (new, g, f) =
              >>=-eq-ok (monitor_project c system id prom prj s) _
                (rw (d, monitor_projects) at e) in
            let same_name : new.name ≡ prj.name =
              some_name new prj (monitor_project-unmonitored c system id prom prj new s g) in
            AreProjects-monitor_projects system proms (insert id new m) final s
              (AreProjects-insert id new m (same_name ∙ All-lookup IsNamed id prj m h.1 d) h) f
      ]
    where
      some_name : (a b : Project) → unmonitored (some a) ≡ unmonitored (some b) → a.name ≡ b.name
      some_name a b e = cc

  module _ (go : Runtime) where
    AreProjects-step :
        (id : String) (prj : Project) (r : Bool × List SourceLocator) (m : Dict Project)
        → prj.name ≡ id
        → AreProjects m
        → AreProjects (step c go id prj r m)
    AreProjects-step id prj r m n h = elim (Bool-cases r.0) [
      | inl used ↦ rw used (AreProjects-insert id (visited c go prj r) m n h)
      | inr unused ↦ rw unused (AreProjects-erase id m h)
    ]

    pub AreProjects-find_presets :
        (entries : List (String × Project)) (m final : Dict Project) (s : c.State)
        → All IsNamed entries
        → AreProjects m
        → find_presets c go entries m s ≡ ok final
        → AreProjects final
    unfolding find_presets
    AreProjects-find_presets [] m final s n h e = subst AreProjects (ok-injective e) h
    AreProjects-find_presets ((id, prj) ∷ entries) m final s (n, ns) h e =
        let (r, d, f) =
          >>=-eq-ok (visit_presets c prj.type prj.namespaces false prj.presets s) _ e in
        AreProjects-find_presets entries (step c go id prj r m) final s ns
          (AreProjects-step id prj r m n h) f
