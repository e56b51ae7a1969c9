-- ===== src/Projects/Listing.antt =====
-- `ListRancherProjects` and `GetRancherProject`.
pub mod Order
pub mod Whole
pub mod Monitored
use rancid_syncer.Base.{String, List, [], ◌∷◌, map, ◌==◌, if◌then◌else◌}
use rancid_syncer.Base.Dict.{Dict}
use rancid_syncer.Base.Outcome.{Outcome, ok, err, panic, not_found, is_no_match, ◌>>=◌}
use rancid_syncer.Base.Runtime.{Runtime}
use rancid_syncer.Projects.Types.{Project, Cluster}
use rancid_syncer.Projects.Grouping.{group_namespaces}
use rancid_syncer.Projects.Presets.{items_of, find_presets}
use rancid_syncer.Projects.Monitoring.{monitor_projects}

-- The first project of the name.
unfoldable pub find_project : String → List Project → Outcome Project
find_project id [] = err not_found
find_project id (prj ∷ projects) = if prj.name == id then ok prj else find_project id projects

module _ (go : Runtime) (c : Cluster) where
  -- `if clustermeta.IsRancherManaged(kc.RESTMapper())`
  unfoldable pub with_monitoring : Dict Project → c.State → Outcome (Dict Project)
  unfolding items_of monitor_projects
  with_monitoring projects s =
      if c.is_rancher_managed
      then (do
        system ← c.system_project_id s
        items ← items_of (c.list_prometheuses s)
        monitor_projects c system items projects s)
      else ok projects

  unfoldable pub list_rancher_projects : c.State → Outcome (List Project)
  unfolding group_namespaces find_presets with_monitoring
  list_rancher_projects s = elim (c.list_namespaces s) [
    | err e ↦ if is_no_match e then ok [] else err e
    | panic m ↦ panic m
    | ok items ↦ do
      let grouped = group_namespaces c items []
      projects ← find_presets c go (go.range grouped) grouped s
      monitored ← with_monitoring projects s
      ok (map (λ (entry : String × Project). entry.1) (go.range monitored))
  ]

  unfoldable pub get_rancher_project : String → c.State → Outcome Project
  unfolding list_rancher_projects find_project
  get_rancher_project id s = do projects ← list_rancher_projects s; find_project id projects
