-- ===== src/Kube.antt =====
-- The Kubernetes and Prometheus objects that the programs read and write, with the fields that
-- they use. The Go types belong to the libraries; a map is an association list, a pointer an
-- option, a time stamp a number.
use rancid_syncer.Base.{ℕ, String, List, Option, Bool, ◌==◌, ◌&&◌}
use rancid_syncer.Base.Dict.{Dict}

abbrev pub Labels : Type 0
Labels = Dict String

pub record ObjectKey : Type 0 where
  pub namespace : String
  pub name : String

abbrev pub key_eq : ObjectKey → ObjectKey → Bool
key_eq a b = a.namespace == b.namespace && a.name == b.name

pub record OwnerReference : Type 0 where
  pub api_version : String
  pub kind : String
  pub name : String
  pub uid : String

pub record ObjectMeta : Type 0 where
  pub name : String
  pub namespace : String
  pub uid : String
  pub labels : Labels
  pub annotations : Labels
  pub owner_references : List OwnerReference
  pub creation_timestamp : ℕ

-- `client.ObjectKeyFromObject`
abbrev pub object_key : ObjectMeta → ObjectKey
object_key m = record { namespace = m.namespace; name = m.name }

-- The metadata of an object literal that sets the name and the namespace.
abbrev pub new_meta : String → String → ObjectMeta
new_meta name namespace = record {
  name = name;
  namespace = namespace;
  uid = "";
  labels = List.[];
  annotations = List.[];
  owner_references = List.[];
  creation_timestamp = 0;
}

pub record GroupVersionKind : Type 0 where
  pub group : String
  pub version : String
  pub kind : String

pub record LabelSelectorRequirement : Type 0 where
  pub key : String
  pub operator : String
  pub values : List String

pub record LabelSelector : Type 0 where
  pub match_labels : Labels
  pub match_expressions : List LabelSelectorRequirement

pub record Namespace : Type 0 where
  pub meta : ObjectMeta

-- `intstr.IntOrString`
pub data IntOrString : Type 0 where
  from_int : ℕ → IntOrString
  from_string : String → IntOrString

pub record ServicePort : Type 0 where
  pub name : String
  pub protocol : String
  pub port : ℕ
  pub target_port : IntOrString
  pub node_port : ℕ

pub record Service : Type 0 where
  pub meta : ObjectMeta
  pub type : String
  pub cluster_ip : String
  pub ports : List ServicePort

pub record Secret : Type 0 where
  pub meta : ObjectMeta
  pub immutable : Option Bool
  pub content : Labels
  pub string_content : Labels
  pub type : String

pub record EndpointPort : Type 0 where
  pub name : String
  pub port : ℕ
  pub protocol : String

pub record EndpointAddress : Type 0 where
  pub ip : String
  pub hostname : String

pub record EndpointSubset : Type 0 where
  pub addresses : List EndpointAddress
  pub not_ready_addresses : List EndpointAddress
  pub ports : List EndpointPort

pub record Endpoints : Type 0 where
  pub meta : ObjectMeta
  pub subsets : List EndpointSubset

-- `monitoringv1.RelabelConfig`
pub record RelabelConfig : Type 0 where
  pub source_labels : List String
  pub separator : String
  pub target_label : String
  pub regex : String
  pub modulus : ℕ
  pub replacement : String
  pub action : String

-- `TLSConfig` with its `CA.Secret`.
pub record SecretKeySelector : Type 0 where
  pub name : String
  pub key : String

pub record TlsConfig : Type 0 where
  pub ca_secret : Option SecretKeySelector
  pub server_name : String

pub record MonitorEndpoint : Type 0 where
  pub port : String
  pub scheme : String
  pub interval : String
  pub bearer_token_file : String
  pub honor_labels : Bool
  pub tls_config : Option TlsConfig
  pub relabel_configs : List RelabelConfig
  pub metric_relabel_configs : List RelabelConfig

pub record NamespaceSelector : Type 0 where
  pub any : Bool
  pub match_names : List String

pub record ServiceMonitorSpec : Type 0 where
  pub endpoints : List MonitorEndpoint
  pub namespace_selector : NamespaceSelector
  pub selector : LabelSelector

pub record ServiceMonitor : Type 0 where
  pub meta : ObjectMeta
  pub spec : ServiceMonitorSpec

pub record Prometheus : Type 0 where
  pub meta : ObjectMeta
  pub service_monitor_selector : Option LabelSelector
  pub service_monitor_namespace_selector : Option LabelSelector
  pub rule_selector : Option LabelSelector
  pub external_url : String
