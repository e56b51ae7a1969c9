-- ===== src/Setup/Access.antt =====
-- main.go: the objects that give trickster access to a Prometheus, and the API server that
-- `SetupClusterForPrometheus` and `CreateGrafanaAppBinding` call besides that of the presets.
use rancid_syncer.Base.{String, List, Option, Bool}
use rancid_syncer.Base.Dict.{Dict}
use rancid_syncer.Base.Outcome.{Outcome}
use rancid_syncer.Base.Effect.{Effect}
use rancid_syncer.Kube.{GroupVersionKind, ObjectKey, ObjectMeta, OwnerReference, Prometheus}
use rancid_syncer.Setup.{Server}

pub record ServiceAccount : Type 0 where
  pub meta : ObjectMeta
  -- The names of the secrets.
  pub secrets : List String

-- `rbac.PolicyRule`
pub record PolicyRule : Type 0 where
  pub api_groups : List String
  pub resources : List String
  pub verbs : List String

pub record Role : Type 0 where
  pub meta : ObjectMeta
  pub rules : List PolicyRule

pub record RoleRef : Type 0 where
  pub api_group : String
  pub kind : String
  pub name : String

pub record Subject : Type 0 where
  pub kind : String
  pub name : String
  pub namespace : String

pub record RoleBinding : Type 0 where
  pub meta : ObjectMeta
  pub role_ref : RoleRef
  pub subjects : List Subject

-- An AppBinding of Grafana. The parameters are JSON text.
pub record GrafanaBinding : Type 0 where
  pub meta : ObjectMeta
  pub type : String
  pub app_ref : Option ObjectKey
  pub url : String
  pub secret : Option String
  pub parameters : String

pub record AuthSecret : Type 0 where
  pub meta : ObjectMeta
  pub string_content : Dict String

-- `cu.CreateOrPatch` of an object: what it leaves in the object, and whether that was created.
abbrev pub Patch : Type 0 → Type 0 → Type 0
Patch S A = A → (A → Outcome A) → Effect S (A × Bool)

pub record Access (c : Server) : Type 1 where
  -- `cfg.Host`, and `cm.ManagedByRancher()` of the cluster manager that was detected.
  pub host : String
  pub managed : Bool
  pub controller_ref : ObjectMeta → GroupVersionKind → OwnerReference
  pub get_prometheus : ObjectKey → c.State → Outcome Prometheus
  -- `clustermanger.IsDefault`
  pub is_default : ObjectKey → c.State → Outcome Bool
  pub get_service_account : ObjectKey → c.State → Outcome ServiceAccount
  -- The entries of a secret.
  pub get_secret : ObjectKey → c.State → Outcome (Dict String)
  pub patch_service_account : Patch c.State ServiceAccount
  pub patch_role : Patch c.State Role
  pub patch_role_binding : Patch c.State RoleBinding
  pub patch_grafana_binding : Patch c.State GrafanaBinding
  pub patch_auth_secret : Patch c.State AuthSecret
  -- The JSON of `openvizapi.GrafanaConfiguration`, with no field set.
  pub marshal_parameters : Outcome String
  -- `wait.PollImmediate` with a condition that assigns to the variables `L` that it captures: what
  -- they hold when the call returns no error.
  pub poll_immediate : {L : Type 0} → (L → c.State → Outcome Bool × L) → L → Effect c.State L
