-- ===== src/Projects/Selection.antt =====
-- `NamespaceForPreset`.
pub mod Oldest
use rancid_syncer.Base.{String, List, [], ◌∷◌, Option, none, some, Bool, ltb}
use rancid_syncer.Base.Dict.{insert}
use rancid_syncer.Base.Outcome.{Outcome, ok, err, panic, failure, nil_dereference, ◌>>=◌}
use rancid_syncer.Base.Runtime.{Runtime}
use rancid_syncer.Kube.{LabelSelector, Namespace, Prometheus}
use rancid_syncer.Projects.Types.{Cluster}

abbrev pub project_operated_label : String
project_operated_label = "helm.cattle.io/helm-project-operated"

abbrev pub is_older : Namespace → Namespace → Bool
is_older a b = ltb a.meta.creation_timestamp b.meta.creation_timestamp

-- The selector with the label that is written into it.
unfoldable pub operated : LabelSelector → LabelSelector
operated ls = record ls { match_labels = insert project_operated_label "true" ls.match_labels }

-- `namespaces[0]`
abbrev pub first_name : List Namespace → Outcome String
first_name [] = panic "index out of range [0] with length 0"
first_name (ns ∷ _) = ok ns.meta.name

module _ (go : Runtime) (c : Cluster) where
  unfoldable pub oldest_name : List Namespace → Outcome String
  oldest_name [] = err (failure "failed to select AppBinding namespace")
  oldest_name (ns ∷ items) = first_name (go.sort_slice is_older (ns ∷ items))

  unfoldable pub select_namespace : LabelSelector → c.State → Outcome String
  unfolding oldest_name
  select_namespace ls s = do
    sel ← c.as_selector (some ls)
    items ← c.select_namespaces sel s
    oldest_name items

  -- The label is written into the selector of the Prometheus that the caller holds, so that
  -- Prometheus is the second result.
  unfoldable pub namespace_for_preset : Prometheus → c.State → Outcome String × Prometheus
  unfolding operated select_namespace
  namespace_for_preset prom s = elim prom.service_monitor_namespace_selector [
    | none ↦ (panic nil_dereference, prom)
    | some ls ↦ (
      select_namespace (operated ls) s,
      record prom { service_monitor_namespace_selector = some (operated ls) },
    )
  ]
