-- ===== src/Projects/Grouping.antt =====
-- The first loop of `ListRancherProjects`: the namespaces grouped by the project of their label.
pub mod Laws
use rancid_syncer.Base.{
  ℕ, String, List, [], ◌∷◌, ◌++◌, Option, none, some, ◌==◌, ltb, if◌then◌else◌,
}
use rancid_syncer.Base.Dict.{Dict, lookup, insert}
use rancid_syncer.Kube.{Labels, Namespace}
use rancid_syncer.Projects.Types.{
  Project, ProjectType, user_project, default_project, system_project, Cluster,
}

abbrev pub project_id_label : String
project_id_label = "field.cattle.io/projectId"

abbrev pub project_id : Namespace → Option String
project_id ns = lookup project_id_label ns.meta.labels

-- The type after a namespace of this name.
unfoldable pub type_with : String → ProjectType → ProjectType
type_with name type =
    if name == "default"
    then default_project
    else if name == "kube-system"
    then system_project
    else type

unfoldable pub with_namespace : Namespace → Project → Project
unfolding type_with
with_namespace ns project = record project {
  creation_timestamp =
      if ltb ns.meta.creation_timestamp project.creation_timestamp
      then ns.meta.creation_timestamp
      else project.creation_timestamp;
  type = type_with ns.meta.name project.type;
  namespaces = project.namespaces ++ ns.meta.name ∷ [];
}

module _ (c : Cluster) where
  unfoldable pub new_project : String → Project
  new_project id = record {
    name = id;
    creation_timestamp = c.now;
    uid = c.new_uid id;
    labels = (project_id_label, id) ∷ [];
    type = user_project;
    namespaces = [];
    namespace_selector = (project_id_label, id) ∷ [];
    presets = [];
    monitoring = none;
  }

  abbrev pub known_or_new : String → Option Project → Project
  known_or_new id none = new_project id
  known_or_new id (some project) = project

  unfoldable pub add_namespace : Namespace → Dict Project → Dict Project
  unfolding new_project with_namespace
  add_namespace ns projects = elim (project_id ns) [
    | none ↦ projects
    | some id ↦ insert id (with_namespace ns (known_or_new id (lookup id projects))) projects
  ]

  unfoldable pub group_namespaces : List Namespace → Dict Project → Dict Project
  unfolding add_namespace
  group_namespaces [] projects = projects
  group_namespaces (ns ∷ items) projects = group_namespaces items (add_namespace ns projects)
