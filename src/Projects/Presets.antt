-- ===== src/Projects/Presets.antt =====
-- The second loop of `ListRancherProjects`: the presets of each project, and the projects that are
-- dropped.
pub mod Used
use rancid_syncer.Base.{
  String, List, [], ◌∷◌, ◌++◌, map, Bool, true, false, not, ◌||◌, ◌==◌, starts_with, text_lt,
  if◌then◌else◌,
}
use rancid_syncer.Base.Dict.{Dict, insert, erase}
use rancid_syncer.Base.Outcome.{Outcome, ok, err, panic, is_no_match, ◌>>=◌}
use rancid_syncer.Base.Runtime.{Runtime}
use rancid_syncer.Presets.Types.{ChartPreset, chart_preset, cluster_chart_preset, SourceLocator}
use rancid_syncer.Projects.Types.{Project, ProjectType, system_project, Cluster}

-- `if err != nil && !meta.IsNoMatchError(err) { return nil, err }`: without the kind, no items.
unfoldable pub items_of : {A : Type 0} → Outcome (List A) → Outcome (List A)
items_of (ok items) = ok items
items_of (err e) = if is_no_match e then ok [] else err e
items_of (panic m) = panic m

abbrev pub is_system : ProjectType → Bool
is_system system_project = true
is_system _ = false

-- The namespace is not one of Rancher's own for a project.
unfoldable pub is_user_namespace : String → Bool
is_user_namespace ns = not (starts_with ns "cattle-project-p-")

abbrev pub cluster_locator : ChartPreset → SourceLocator
cluster_locator x = record {
  resource = cluster_chart_preset;
  ref = record { namespace = ""; name = x.meta.name };
}

abbrev pub locator : ChartPreset → SourceLocator
locator x = record {
  resource = chart_preset;
  ref = record { namespace = x.meta.namespace; name = x.meta.name };
}

unfoldable pub preset_lt : SourceLocator → SourceLocator → Bool
preset_lt a b =
    if a.ref.namespace == b.ref.namespace
    then text_lt a.ref.name b.ref.name
    else text_lt a.ref.namespace b.ref.namespace

module _ (c : Cluster) where
  -- The presets that one namespace of the project adds.
  unfoldable pub presets_in : ProjectType → String → c.State → Outcome (List SourceLocator)
  unfolding items_of
  presets_in type ns s =
      if is_system type
      then (if ns == "kube-system"
          then (do
            items ← items_of (c.list_cluster_chart_presets s)
            ok (map cluster_locator items))
          else ok [])
      else (do items ← items_of (c.list_chart_presets ns s); ok (map locator items))

  -- The inner loop, with `hasUseNs` and `presets`.
  unfoldable pub visit_presets :
      ProjectType
      → List String
      → Bool
      → List SourceLocator
      → c.State
      → Outcome (Bool × List SourceLocator)
  unfolding presets_in is_user_namespace
  visit_presets type [] has_use_ns presets s = ok (has_use_ns, presets)
  visit_presets type (ns ∷ namespaces) has_use_ns presets s = do
    more ← presets_in type ns s
    visit_presets type namespaces (has_use_ns || is_user_namespace ns) (presets ++ more) s

  -- The outer loop, over the entries that the map is ranged over.
  unfoldable pub find_presets :
      Runtime → List (String × Project) → Dict Project → c.State → Outcome (Dict Project)
  unfolding visit_presets preset_lt
  find_presets go [] projects s = ok projects
  find_presets go ((id, prj) ∷ entries) projects s = do
    r ← visit_presets prj.type prj.namespaces false prj.presets s
    find_presets go entries
        (if r.0
          then insert id (record prj { presets = go.sort_slice preset_lt r.1 }) projects
          else erase id projects)
        s
