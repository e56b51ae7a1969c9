-- ===== src/Lib.antt =====
-- A model of rancid-syncer: small Go programs around Rancher projects, Prometheus and Kubernetes.
--
-- The programs do not call each other. What they share is the API server, on whose objects they act:
-- federate copies ServiceMonitors with their services, endpoints and secrets into the namespace of
-- each project's Prometheus; main lists the projects of a cluster; resource-cal adds up what the
-- objects of a project use; preset_cal collects the chart presets that apply to a resource;
-- rslayout and check-yaml take texts apart.
--
-- Files, and the code that each models:
-- - Base: lists, maps, maps with distinct keys, outcomes (a value, an error or a panic), calls that
--   change the state of the cluster, and the runtime (the order of ranging over a map,
--   `sort.Slice`), which is a parameter.
-- - Kube: the Kubernetes and Prometheus objects, with the fields that the programs use.
-- - RsLayout: rslayout/main.go, `ParseGVR` and `reverse`.
-- - CheckYaml: check-yaml/main.go, `encodeTag` and `decodeTag`.
-- - Federate: federate/main.go. Client has the API server and the helpers of the libraries as
--   parameters; Ports has the upserts of ports; Copy the callbacks of `CreateOrPatch`; Write the
--   functions around them; Reconcile is `Reconcile`, whose state is that of the API server;
--   Requests has `ServiceMonitorsForService` and `ServiceMonitorsForPrometheus`.
-- - Quota: resource-cal/main.go. Types has the API server and discovery as parameters; Kinds is
--   `ListKinds`, Usage is `UsedQuota` (Keys has the keys of its maps), Status is `CalculateStatus`,
--   Requests has `Reconcile` and `ProjectQuotaForObjects`, Watcher is `StartWatcher` with the calls
--   of `ctrl.Watch` as its state.
-- - Presets: preset_cal/main.go. Load is `LoadPresetValues`, Merge is `MergePresetValues`, Bundle
--   has `bundleChartPresets` and `bundleClusterChartPresets`.
-- - Projects: main.go, lines 650 to 933. Grouping, Presets and Monitoring are the three loops of
--   `ListRancherProjects`, Listing puts them together and has `GetRancherProject`, Selection is
--   `NamespaceForPreset`, Texts has what is used of the package `strings`, Types the parameters.
-- - Panopticon: panopticon/lib.go, `ListProjectNamespaces` and `CreateServiceMonitor`.
-- - VCluster: vcluster/main.go, `IsVCluster`.
-- - Setup: main.go, lines 154 to 648. Setup itself is `FindServiceForPrometheus`, `CreatePreset`
--   and its helpers, and `CreatePrometheusAppBinding`; Access has the other calls of the API server
--   as parameters; Token is the wait for a token; Cluster is `SetupClusterForPrometheus`, which
--   puts these together (its Decimal has the digits of the port); Grafana is
--   `CreateGrafanaAppBinding`.
-- - PodPatch: pod-patch/main.go, `PatchPod`, `PatchPodObject` and `useGeneratedClient`.
-- - Commands: what the `main` functions do after the set-up of their clients. Console has programs
--   that print and exit; Projects is that of main.go; Listings those of list-by-name,
--   silence-warning and vcluster; Reconcilers those of federate, resource-cal and preset_cal.
--   Operator is that of cmd/main.go with the project controller; its Stages are what can fail.
-- - Api: api/management/v1alpha1. Memory has cells, slices, pointers and the loops of a deep copy;
--   Types is project_types.go, with the types of the libraries as parameters; DeepCopy is
--   zz_generated.deepcopy.go. Separate says what a deep copy is, Readings what a project says,
--   Copies and Objects that its copies say the same.
-- - OpfPatch: opf-patch/main.go; Base has its text of default values, Run the program.
-- - FixFlux: fix-flux/main.go; Paths has its text.
-- - Tests: a concrete runtime and concrete clusters, and the theorems at them.
--
-- How Go is read. A function that returns `(T, error)` is an `Outcome`; one that changes the
-- cluster is an `Effect`, which threads the state also through errors. A nil pointer that is
-- dereferenced, an index out of range and a call of `panic` are the outcome `panic`. A map is an
-- association list; the order of ranging over it is what the runtime gives. Pointers and slices are
-- addresses where they are shared, in Api, and options and lists elsewhere. Texts that are taken
-- apart are lists of code points. All loops are over lists, or have the number of their rounds, so
-- no fuel is needed, except for the digits of a number, of which there are no more than the number
-- plus one.
--
-- Not modelled: logging, but for the log of the operator; the set-up of clients (`NewClient`); the
-- schemes and the caching of the client; flag-check and queue-runner, a flag that is printed and an
-- empty `main`. Libraries are parameters, with their documented behaviour as hypotheses
-- (`IsPatching`, `IsOverwrite`, `IsRuntime`, `IsPolling`, `IsLog`, `IsPods`, `IsQuotaClient`,
-- `IsSelecting`, `AreDeepCopies`, `IsTotal`, `IsYaml`).
pub mod Base
pub mod Kube
pub mod Api
pub mod CheckYaml
pub mod Commands
pub mod Federate
pub mod FixFlux
pub mod OpfPatch
pub mod Panopticon
pub mod PodPatch
pub mod Presets
pub mod Projects
pub mod Quota
pub mod RsLayout
pub mod Setup
pub mod VCluster
pub mod Tests
