-- ===== src/Quota/Types.antt =====
-- The data of the quota reconciler, and what it calls: the API server, discovery, and the library
-- that knows the resources of a kind. All of that is a parameter.
use rancid_syncer.Base.{String, List, Option, Bool, ◌==◌, ◌&&◌}
use rancid_syncer.Base.Dict.{Dict}
use rancid_syncer.Base.Outcome.{Outcome, Error}
use rancid_syncer.Kube.{GroupVersionKind, Labels, Namespace}

pub record GroupKind : Type 0 where
  pub group : String
  pub kind : String

abbrev pub group_kind_eq : GroupKind → GroupKind → Bool
group_kind_eq a b = a.group == b.group && a.kind == b.kind

pub record ApiType : Type 0 where
  pub group : String
  pub kind : String
  pub resource : String
  pub versions : List String
  pub namespaced : Bool

abbrev pub type_kind : ApiType → GroupKind
type_kind t = record { group = t.group; kind = t.kind }

-- `metav1.APIResource` and `metav1.APIResourceList`.
pub record ApiResource : Type 0 where
  pub name : String
  pub kind : String
  pub namespaced : Bool

pub record ApiResourceList : Type 0 where
  pub group_version : String
  pub api_resources : List ApiResource

-- `QuotaResult`: the empty string, "Success" and "Error".
pub data QuotaResult : Type 0 where
  unset success error : QuotaResult

abbrev pub is_error : QuotaResult → Bool
is_error error = Bool.true
is_error _ = Bool.false

pub record Platform : Type 1 where
  pub State : Type 0
  pub Quantity : Type 0
  pub Object : Type 0
  -- Discovery: the lists that were found, with an error if some or all of it failed.
  pub server_groups_and_resources : State → List ApiResourceList × Option Error
  pub is_group_discovery_failed : Error → Bool
  pub parse_group_version : String → Outcome (String × String)
  -- `GroupKind.String()`
  pub group_kind_text : GroupKind → String
  -- `apiversion.MustCompare`: it panics at a version that is not valid.
  pub is_version : String → Bool
  pub version_gt : String → String → Bool
  -- The API server.
  pub list_namespaces : Labels → State → Outcome (List Namespace)
  pub list_objects : GroupVersionKind → String → State → Outcome (List Object)
  pub get_namespace : String → State → Outcome Namespace
  -- `kmodules.xyz/resource-metrics`
  pub is_registered : GroupVersionKind → Bool
  pub app_resource_requests : Object → Outcome (Dict Quantity)
  pub app_resource_limits : Object → Outcome (Dict Quantity)
  pub add_resource_list : Dict Quantity → Dict Quantity → Dict Quantity
