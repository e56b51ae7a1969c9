-- ===== src/Commands/Projects.antt =====
-- main.go: `useKubebuilderClient`, and `main`, which panics with its error.
pub mod Ending
use rancid_syncer.Base.{String, ◌<>◌, Bool, true, false, List}
use rancid_syncer.Base.Outcome.{Outcome, ok}
use rancid_syncer.Base.Runtime.{Runtime}
use rancid_syncer.Kube.{ObjectKey}
use rancid_syncer.Projects.Types.{Project, Cluster}
use rancid_syncer.Projects.Listing.{list_rancher_projects}
use rancid_syncer.Projects.Selection.{namespace_for_preset}
use rancid_syncer.Setup.{Server, find_service_for_prometheus}
use rancid_syncer.Setup.Access.{Access}
use rancid_syncer.Setup.Cluster.{PrometheusConfig, setup_cluster_for_prometheus}
use rancid_syncer.Commands.Console.{
  Program, lift, query, call, println, exit, pure, run_main, ◌>>=◌, ◌>>◌,
}

-- What the program calls besides the functions of main.go: `yaml.Marshal`. The two models of the API
-- server have one state.
pub record Session (c : Cluster) (sv : Server) : Type 0 where
  pub view : sv.State → c.State
  pub marshal_projects : List Project → Outcome String
  pub marshal_config : PrometheusConfig → Outcome String

abbrev pub rancher_prometheus : ObjectKey
rancher_prometheus = record {
  namespace = "cattle-monitoring-system";
  name = "rancher-monitoring-prometheus";
}

abbrev bool_text : Bool → String
bool_text true = "true"
bool_text false = "false"

module _ (go : Runtime) (c : Cluster) (sv : Server) (a : Access sv) (session : Session c sv) where
  -- After the second `os.Exit(1)`.
  unfoldable pub set_up_rancher : Program sv.State (Unit {0})
  set_up_rancher = do
    pcfg ← call (setup_cluster_for_prometheus sv a rancher_prometheus)
    text ← lift (session.marshal_config pcfg)
    println text
    svc ← query (find_service_for_prometheus sv rancher_prometheus)
    println svc.meta.name
    println ("IsRancherManaged " <> bool_text c.is_rancher_managed)

  -- After the first.
  unfoldable pub show_preset_namespace : Program sv.State (Unit {0})
  unfolding set_up_rancher
  show_preset_namespace = do
    prom ← query (a.get_prometheus rancher_prometheus)
    ns ← query (λ s. (namespace_for_preset go c prom (session.view s)).0)
    println ns
    exit 1
    set_up_rancher

  unfoldable pub show_projects : Program sv.State (Unit {0})
  unfolding show_preset_namespace
  show_projects = do
    println "Using kubebuilder client"
    projects ← query (λ s. list_rancher_projects go c (session.view s))
    text ← lift (session.marshal_projects projects)
    println text
    exit 1
    show_preset_namespace

  unfoldable pub projects_main : Program sv.State (Unit {0})
  unfolding show_projects
  projects_main = run_main show_projects
