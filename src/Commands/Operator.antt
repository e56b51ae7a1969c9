-- ===== src/Commands/Operator.antt =====
-- cmd/main.go and project_controller.go: the operator. The lines that are printed are those of its
-- log.
pub mod Stages
use rancid_syncer.Base.{ℕ, String, ◌++◌, List, [], ◌∷◌, Bool, true, false}
use rancid_syncer.Base.Outcome.{Outcome, ok, err, panic}
use rancid_syncer.Base.Effect.{Effect}
use rancid_syncer.Kube.{ObjectKey}
use rancid_syncer.Commands.Console.{
  Finish, finished, exited, World, Program, pure, call, println, go_on, ◌>>=◌, ◌>>◌,
}

-- The flags, before and after `flag.Parse`.
pub record Flags : Type 0 where
  pub metrics_addr : String
  pub probe_addr : String
  pub enable_leader_election : Bool

-- `ctrl.Options`
pub record Options : Type 0 where
  pub metrics_bind_address : String
  pub health_probe_bind_address : String
  pub leader_election : Bool
  pub leader_election_id : String

-- controller-runtime: `S` is the state of the process and of the cluster. `parse` and
-- `get_config_or_die` may end the process themselves.
pub record ControllerRuntime (S : Type 0) : Type 1 where
  pub Config : Type 0
  pub Manager : Type 0
  pub Client : Type 0
  pub add_to_scheme : Effect S (Unit {0})
  pub add_api_to_scheme : Effect S (Unit {0})
  pub parse : Flags → Program S Flags
  pub get_config_or_die : Program S Config
  pub new_manager : Config → Options → Effect S Manager
  pub get_client : Manager → Client
  pub complete : Manager → Client → Effect S (Unit {0})
  pub add_healthz_check : Manager → String → Effect S (Unit {0})
  pub add_readyz_check : Manager → String → Effect S (Unit {0})
  pub start : Manager → Effect S (Unit {0})

abbrev pub default_flags : Flags
default_flags = record {
  metrics_addr = ":8080";
  probe_addr = ":8081";
  enable_leader_election = false;
}

abbrev pub options_of : Flags → Options
options_of flags = record {
  metrics_bind_address = flags.metrics_addr;
  health_probe_bind_address = flags.probe_addr;
  leader_election = flags.enable_leader_election;
  leader_election_id = "ba4deb3f.k8s.appscode.com";
}

-- `ctrl.Result{}`
pub record ReconcileResult : Type 0 where
  pub requeue : Bool
  pub requeue_after : ℕ

-- `Reconcile` of the project controller does nothing yet.
unfoldable pub reconcile_project : {S : Type 0} → ObjectKey → Effect S ReconcileResult
reconcile_project key s = (ok (record { requeue = false; requeue_after = 0 }), s)

abbrev pub panic_on_error : {A : Type 0} → Outcome A → Outcome A
panic_on_error (ok a) = ok a
panic_on_error (err e) = panic "utilruntime.Must"
panic_on_error (panic m) = panic m

module _ {S A : Type 0} where
  abbrev pub exit_on_error : String → Outcome A → S → List String → Finish A × World S
  exit_on_error message (ok a) s log = (finished (ok a), record { cluster = s; printed = log })
  exit_on_error message (err e) s log =
      (exited 1, record { cluster = s; printed = log ++ message ∷ [] })
  exit_on_error message (panic m) s log =
      (finished (panic m), record { cluster = s; printed = log })

  -- `if err != nil { setupLog.Error(err, message); os.Exit(1) }`
  abbrev pub or_exit : String → Effect S A → Program S A
  or_exit message m w = let (r, s) = m w.cluster in exit_on_error message r s w.printed

  -- `utilruntime.Must`
  abbrev pub must : Effect S A → Program S A
  must m w = let (r, s) = m w.cluster in (finished (panic_on_error r), record w { cluster = s })

module _ {S : Type 0} (rt : ControllerRuntime S) where
  unfoldable pub init_scheme : Program S (Unit {0})
  init_scheme = do must rt.add_to_scheme; must rt.add_api_to_scheme

  -- `SetupWithManager` of the project controller.
  unfoldable pub setup_with_manager : rt.Manager → rt.Client → Effect S (Unit {0})
  setup_with_manager mgr client = rt.complete mgr client

  -- `main` after `ctrl.NewManager`.
  unfoldable pub run_manager : rt.Manager → Program S (Unit {0})
  unfolding setup_with_manager
  run_manager mgr = do
    or_exit "unable to create controller" (setup_with_manager mgr (rt.get_client mgr))
    or_exit "unable to set up health check" (rt.add_healthz_check mgr "healthz")
    or_exit "unable to set up ready check" (rt.add_readyz_check mgr "readyz")
    println "starting manager"
    or_exit "problem running manager" (rt.start mgr)

  unfoldable pub operator_main : Program S (Unit {0})
  unfolding run_manager
  operator_main = do
    flags ← rt.parse default_flags
    config ← rt.get_config_or_die
    mgr ← or_exit "unable to start manager" (rt.new_manager config (options_of flags))
    run_manager mgr
