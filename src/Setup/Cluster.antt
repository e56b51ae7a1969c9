-- ===== src/Setup/Cluster.antt =====
-- `SetupClusterForPrometheus`: trickster's account and role in the namespace of a Prometheus, its
-- presets and its AppBinding, and the configuration that gives access to it.
pub mod Decimal
pub mod Made
pub mod Writes
pub mod Config
use rancid_syncer.Base.{
  ℕ, zero, suc, ◌/◌, ◌%◌, String, ◌<>◌, List, [], ◌∷◌, get_elem?, ltb, Option, none, some, Bool,
  true, false, ◌==◌, if◌then◌else◌,
}
use rancid_syncer.Base.Outcome.{Outcome, ok}
use rancid_syncer.Base.Effect.{Effect, pure, read, ◌>>=◌, ◌>>◌}
use rancid_syncer.Kube.{
  GroupVersionKind, ObjectKey, ObjectMeta, Prometheus, Service, ServicePort, object_key, new_meta,
}
use rancid_syncer.Federate.Copy.{prometheus_gvk}
use rancid_syncer.Setup.{
  Server, find_service_for_prometheus, create_preset, create_prometheus_app_binding,
}
use rancid_syncer.Setup.Access.{
  Access, ServiceAccount, PolicyRule, Role, RoleRef, Subject, RoleBinding,
}
use rancid_syncer.Setup.Token.{Token, await_token}

-- `mona.ServiceSpec` and `mona.PrometheusConfig`.
pub record ServiceSpec : Type 0 where
  pub scheme : String
  pub name : String
  pub namespace : String
  pub port : String
  pub path : String
  pub query : String

pub record PrometheusConfig : Type 0 where
  pub service : ServiceSpec
  pub url : String
  pub basic_auth : String × String
  pub cert : String
  pub key : String
  pub bearer_token : String
  pub ca : String

abbrev pub trickster : String
trickster = "trickster"

abbrev pub role_gvk : GroupVersionKind
role_gvk = record { group = "rbac.authorization.k8s.io"; version = "v1"; kind = "Role" }

abbrev pub new_service_account : String → ServiceAccount
new_service_account namespace = record { meta = new_meta trickster namespace; secrets = [] }

abbrev pub new_role : String → Role
new_role namespace = record { meta = new_meta trickster namespace; rules = [] }

abbrev pub new_role_binding : String → RoleBinding
new_role_binding namespace = record {
  meta = new_meta trickster namespace;
  role_ref = record { api_group = ""; kind = ""; name = "" };
  subjects = [];
}

abbrev pub digits : List String
digits = "0" ∷ "1" ∷ "2" ∷ "3" ∷ "4" ∷ "5" ∷ "6" ∷ "7" ∷ "8" ∷ "9" ∷ []

unfoldable pub digit : ℕ → String
digit n = elim (get_elem? digits n) [ none ↦ "" | some s ↦ s ]

-- `fmt.Sprintf("%d", n)`, on more rounds than there are digits.
unfoldable pub decimal_fuel : ℕ → ℕ → String
unfolding digit
decimal_fuel zero n = ""
decimal_fuel (suc fuel) n = elim (ltb n 10) [
  | true ↦ digit n
  | false ↦ decimal_fuel fuel (n / 10) <> digit (n % 10)
]

unfoldable pub decimal : ℕ → String
unfolding decimal_fuel
decimal n = decimal_fuel (suc n) n

-- The number of the last port that is named `http-web`, or the text before.
unfoldable pub web_port_text : List ServicePort → String → String
unfolding decimal
web_port_text [] port = port
web_port_text (p ∷ ports) port =
    web_port_text ports (if p.name == "http-web" then decimal p.port else port)

unfoldable pub config_of : String → Service → Token → PrometheusConfig
unfolding web_port_text
config_of host svc t =
    let port = web_port_text svc.ports "" in
    record {
      service = record {
        scheme = "http";
        name = svc.meta.name;
        namespace = svc.meta.namespace;
        port = port;
        path = "";
        query = "";
      };
      url =
          host <> "/api/v1/namespaces/" <> svc.meta.namespace <> "/services/http:" <> svc.meta.name
          <> ":" <> port <> "/proxy/";
      basic_auth = ("", "");
      cert = "";
      key = "";
      bearer_token = t.token;
      ca = t.ca;
    }

module _ (c : Server) (a : Access c) where
  unfoldable pub owned : GroupVersionKind → Prometheus → ObjectMeta → ObjectMeta
  owned gvk prom m = record m { owner_references = a.controller_ref prom.meta gvk ∷ [] }

  unfoldable pub change_service_account : Prometheus → ServiceAccount → ServiceAccount
  unfolding owned
  change_service_account prom obj = record obj { meta = owned prometheus_gvk prom obj.meta }

  unfoldable pub change_role : Prometheus → Role → Role
  unfolding owned
  change_role prom obj = record {
    meta = owned prometheus_gvk prom obj.meta;
    rules =
        record { api_groups = "" ∷ []; resources = "services/proxy" ∷ []; verbs = "*" ∷ [] } ∷ [];
  }

  -- The owner is the Prometheus, under the kind of a Role.
  unfoldable pub change_role_binding :
      Prometheus → Role → ServiceAccount → RoleBinding → RoleBinding
  unfolding owned
  change_role_binding prom role sa obj = record {
    meta = owned role_gvk prom obj.meta;
    role_ref = record { api_group = role_gvk.group; kind = "Role"; name = role.meta.name };
    subjects =
        record { kind = "ServiceAccount"; name = sa.meta.name; namespace = sa.meta.namespace } ∷ [];
  }

  -- The three patches.
  unfoldable pub grant_access : Prometheus → String → Effect c.State ServiceAccount
  unfolding change_service_account change_role change_role_binding
  grant_access prom namespace = do
    sa ←
        a.patch_service_account (new_service_account namespace)
          (λ obj. ok (change_service_account prom obj))
    role ← a.patch_role (new_role namespace) (λ obj. ok (change_role prom obj))
    rb ←
        a.patch_role_binding (new_role_binding namespace)
          (λ obj. ok (change_role_binding prom role.0 sa.0 obj))
    pure sa.0

  -- `RegisterPrometheus` does nothing.
  unfoldable pub register_prometheus : Effect c.State (Unit {0})
  register_prometheus = pure tt

  unfoldable pub publish_default : Prometheus → Service → Bool → Effect c.State (Unit {0})
  unfolding register_prometheus
  publish_default prom svc is_default =
      if is_default
      then (create_prometheus_app_binding c prom svc >>= λ created.
          if created then register_prometheus else pure tt)
      else pure tt

  -- What is done for a Prometheus that was found.
  unfoldable pub setup_found : Prometheus → Bool → Effect c.State PrometheusConfig
  unfolding grant_access publish_default config_of
  setup_found prom is_default = do
    svc ← read (find_service_for_prometheus c (object_key prom.meta))
    sa ← grant_access prom prom.meta.namespace
    preset ← create_preset c a.managed prom is_default
    published ← publish_default prom svc is_default
    token ← await_token c a (object_key sa.meta)
    pure (config_of a.host svc token)

  unfoldable pub setup_cluster_for_prometheus : ObjectKey → Effect c.State PrometheusConfig
  unfolding setup_found
  setup_cluster_for_prometheus key = do
    prom ← read (a.get_prometheus key)
    is_default ← read (a.is_default (object_key prom.meta))
    setup_found prom is_default
