-- ===== src/Tests/Access.antt =====
-- The set-up for a Prometheus, in a cluster whose controller makes the token of a service account
-- between the first and the second poll.
use rancid_syncer.Base.{ℕ, zero, suc, ◌≡◌, refl, List, [], ◌∷◌, ◌++◌, Bool, true}
use rancid_syncer.Base.Outcome.{Outcome, ok, err, panic, failure, not_found}
use rancid_syncer.Base.Effect.{Effect}
use rancid_syncer.Base.Dict.{lookup, has_key}
use rancid_syncer.Kube.{ObjectKey, object_key, new_meta}
use rancid_syncer.Setup.{
  Server, find_service_for_prometheus, first_exposed, create_preset, create_prometheus_app_binding,
}
use rancid_syncer.Setup.Access.{Access, ServiceAccount}
use rancid_syncer.Setup.Token.{Token, await_token}
use rancid_syncer.Setup.Token.States.{poll_each, IsPolling, IsWaiting, IsReady}
use rancid_syncer.Setup.Token.Polling.{await_token-IsReady}
use rancid_syncer.Setup.Cluster.{
  PrometheusConfig, trickster, config_of, setup_cluster_for_prometheus,
}
use rancid_syncer.Setup.Cluster.Made.{Write, IsLog, IsMade}
use rancid_syncer.Setup.Cluster.Writes.{setup_plan, setup_cluster_for_prometheus-IsMade}
use rancid_syncer.Setup.Cluster.Config.{IsGranted, setup_cluster_for_prometheus-IsGranted}
use rancid_syncer.Tests.Bindings.{service, prometheus}

abbrev key : ObjectKey
key = record { namespace = "mon"; name = "main" }

-- The patches so far, and the number of polls that have passed.
pub record Cluster : Type 0 where
  log : List Write
  age : ℕ

abbrev pub empty : Cluster
empty = record { log = []; age = 0 }

abbrev written : Write → Cluster → Cluster
written w s = record s { log = s.log ++ w ∷ [] }

abbrev created_by : {A : Type 0} → Outcome A → Outcome (A × Bool)
created_by (ok a) = ok (a, true)
created_by (err e) = err e
created_by (panic m) = panic m

abbrev later : Cluster → List Cluster
later s = record s { age = suc s.age } ∷ []

abbrev poll : {L : Type 0} → (L → Cluster → Outcome Bool × L) → L → Effect Cluster L
poll condition l s = (poll_each condition l (s ∷ later s), s)

abbrev pub server : Server
server = record {
  State = Cluster;
  labels_for_selector = λ sel. [];
  marshal = λ presets. ok "{}";
  exposing_services = λ k s. ok (service "operated" "None" ∷ service "main" "10.0.0.9" ∷ []);
  patch_cluster_chart_preset =
      λ obj change s. (ok tt, written (Write.cluster_preset (object_key obj.meta)) s);
  patch_chart_preset =
      λ obj change s. (ok tt, written (Write.project_preset (object_key obj.meta)) s);
  patch_app_binding =
      λ obj change s. (ok true, written (Write.app_binding (object_key obj.meta)) s);
}

abbrev account : ServiceAccount
account = record { meta = new_meta trickster "mon"; secrets = "trickster-token" ∷ [] }

abbrev account_at : ℕ → Outcome ServiceAccount
account_at zero = err not_found
account_at (suc n) = ok account

abbrev pub access : Access server
access = record {
  host = "https://cluster";
  managed = true;
  controller_ref =
      λ m gvk. record { api_version = gvk.version; kind = gvk.kind; name = m.name; uid = m.uid };
  get_prometheus = λ k s. ok prometheus;
  is_default = λ k s. ok true;
  get_service_account = λ k s. account_at s.age;
  get_secret = λ k s. ok (("token", "abc") ∷ ("ca.crt", "CA") ∷ []);
  patch_service_account = λ obj change s.
      (created_by (change obj), written (Write.service_account (object_key obj.meta)) s);
  patch_role =
      λ obj change s. (created_by (change obj), written (Write.role (object_key obj.meta)) s);
  patch_role_binding = λ obj change s.
      (created_by (change obj), written (Write.role_binding (object_key obj.meta)) s);
  patch_grafana_binding = λ obj change s. (created_by (change obj), s);
  patch_auth_secret = λ obj change s. (err (failure "forbidden"), s);
  marshal_parameters = ok "{}";
  poll_immediate = poll;
}

access-IsLog : IsLog server access (λ (s : Cluster). s.log)
access-IsLog = record {
  service_accounts = λ obj change s. refl;
  roles = λ obj change s. refl;
  role_bindings = λ obj change s. refl;
  cluster_presets = λ obj change s. refl;
  project_presets = λ obj change s. refl;
  app_bindings = λ obj change s. refl;
  waits = λ condition l s. refl;
}

access-IsPolling : IsPolling server access later
access-IsPolling = record { polls = λ condition l s. refl }

abbrev token : Token
token = record { ca = "CA"; token = "abc" }

aged-IsReady : IsReady server access key (record empty { age = 1 }) token
unfolding lookup
aged-IsReady =
    IsReady.ready account "trickster-token" [] (("token", "abc") ∷ ("ca.crt", "CA") ∷ []) refl refl
      refl refl refl

await_token_example : (await_token server access key empty).0 ≡ ok token
await_token_example =
    await_token-IsReady server access key later access-IsPolling empty (empty ∷ []) []
      (record empty { age = 1 }) token refl (IsWaiting.no_account refl, tt) aged-IsReady

setup_plan_example :
    IsMade
      (λ (s : Cluster). s.log)
      (setup_plan true "mon" true)
      []
      (setup_cluster_for_prometheus server access key empty).0
      (setup_cluster_for_prometheus server access key empty).1.log
setup_plan_example =
    setup_cluster_for_prometheus-IsMade server access (λ (s : Cluster). s.log) access-IsLog key
      prometheus true empty refl refl

abbrev expected : PrometheusConfig
expected = config_of "https://cluster" (service "main" "10.0.0.9") token

setup_run : (setup_cluster_for_prometheus server access key empty).0 ≡ ok expected
unfolding setup_cluster_for_prometheus first_exposed poll_each await_token lookup has_key
    find_service_for_prometheus create_preset create_prometheus_app_binding
setup_run = refl

setup_run_example : IsGranted server access later key empty expected
setup_run_example =
    setup_cluster_for_prometheus-IsGranted server access later access-IsPolling key empty expected
      setup_run
