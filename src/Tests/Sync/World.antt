-- ===== src/Tests/Sync/World.antt =====
-- The cluster. Its state is the keys of the objects that were patched, and the ServiceMonitors that
-- were. A patch that would change the key of its object is refused.
use rancid_syncer.Base.{
  String, ◌≡◌, ◌∙◌, subst, List, [], ◌∷◌, Bool, true, false, Option, none, some, if◌then◌else◌,
  Bool-cases, inl, inr, eq_iff, arith,
}
use rancid_syncer.Base.Dict.{insert}
use rancid_syncer.Base.Outcome.{
  Outcome, ok, ok-injective, err, not_found, failure, ◌>>=◌, >>=-eq-ok,
}
use rancid_syncer.Kube.{
  Labels, ObjectKey, ObjectMeta, key_eq, object_key, new_meta, from_int, LabelSelector, Service,
  Secret, Endpoints, ServiceMonitor, Prometheus,
}
use rancid_syncer.Federate.Client.{Client, IsPatching}

pub record World : Type 0 where
  pub patched : List ObjectKey
  pub monitors : List ServiceMonitor

-- `change` on a new object.
unfoldable pub assign : {A : Type 0} → (A → ObjectMeta) → A → (A → Bool → Outcome A) → Outcome A
assign meta obj change = do
  done ← change obj true
  if key_eq (object_key (meta done)) (object_key (meta obj))
      then ok done
      else err (failure "the name cannot change")

abbrev pub logged : ObjectMeta → World → World
logged m w = record w { patched = object_key m ∷ w.patched }

abbrev pub stored : Outcome ServiceMonitor → World → World
stored (ok m) w = record w { monitors = m ∷ w.monitors }
stored _ w = w

unfoldable pub find_monitor : ObjectKey → List ServiceMonitor → Outcome ServiceMonitor
find_monitor key [] = err not_found
find_monitor key (m ∷ monitors) =
    if key_eq (object_key m.meta) key then ok m else find_monitor key monitors

abbrev pub overwrite : Labels → Labels → Labels
overwrite out [] = out
overwrite out ((k, v) ∷ in_) = insert k v (overwrite out in_)

abbrev pub service : Service
service = record {
  meta = new_meta "web" "app";
  type = "ClusterIP";
  cluster_ip = "10.0.0.7";
  ports =
      record {
        name = "http";
        protocol = "TCP";
        port = 8080;
        target_port = from_int 80;
        node_port = 0;
      }
      ∷ [];
}

abbrev pub endpoints : Endpoints
endpoints = record {
  meta = new_meta "web" "app";
  subsets =
      record {
        addresses = record { ip = "10.1.0.4"; hostname = "" } ∷ [];
        not_ready_addresses = [];
        ports = record { name = "http"; port = 80; protocol = "TCP" } ∷ [];
      }
      ∷ [];
}

abbrev pub own : ObjectKey
own = record { namespace = "app"; name = "web" }

abbrev pub source : ServiceMonitor
source = record {
  meta = record (new_meta "web" "app") {
    labels = ("monitoring.appscode.com/prometheus", "federated") ∷ [];
  };
  spec = record {
    endpoints =
        record {
          port = "http";
          scheme = "";
          interval = "";
          bearer_token_file = "";
          honor_labels = false;
          tls_config = none;
          relabel_configs = [];
          metric_relabel_configs = [];
        }
        ∷ [];
    namespace_selector = record { any = false; match_names = "app" ∷ [] };
    selector = record { match_labels = []; match_expressions = [] };
  };
}

abbrev pub prometheus : String → String → Prometheus
prometheus name namespace = record {
  meta = new_meta name namespace;
  service_monitor_selector = none;
  service_monitor_namespace_selector = none;
  rule_selector = none;
  external_url = "";
}

abbrev pub default : Prometheus
default = prometheus "rancher-monitoring-prometheus" "cattle-monitoring-system"

abbrev pub project : Prometheus
project = prometheus "prometheus" "p1"

-- Selectors with a requirement are refused, and others match all.
abbrev as_selector : Option LabelSelector → Outcome (Unit {0})
as_selector none = ok tt
as_selector (some sel) = elim sel.match_expressions [
  | [] ↦ ok tt
  | _ ∷ _ ↦ err (failure "invalid selector")
]

abbrev pub client : Client
client = record {
  State = World;
  Selector = Unit {0};
  get_service_monitor = λ key w. find_monitor key w.monitors;
  get_secret = λ key w. err not_found;
  get_endpoints = λ key w. ok endpoints;
  list_services = λ ns sel w. ok (service ∷ []);
  list_namespaces = λ sel w. ok (record { meta = new_meta "app" "" } ∷ []);
  list_prometheuses = λ w. ok (default ∷ project ∷ []);
  list_service_monitors = λ labels w. ok w.monitors;
  patch_service_monitor = λ obj change w.
      let r = assign (λ (m : ServiceMonitor). m.meta) obj change in
      (r, stored r (logged obj.meta w));
  patch_service = λ obj change w. (assign (λ (o : Service). o.meta) obj change, logged obj.meta w);
  patch_endpoints =
      λ obj change w. (assign (λ (o : Endpoints). o.meta) obj change, logged obj.meta w);
  patch_secret = λ obj change w. (assign (λ (o : Secret). o.meta) obj change, logged obj.meta w);
  is_rancher_managed = true;
  as_selector = as_selector;
  matches = λ sel labels. true;
  labels_for_selector = λ sel. ("release", "prometheus") ∷ [];
  overwrite_keys = overwrite;
  controller_ref =
      λ m gvk. record { api_version = ""; kind = gvk.kind; name = m.name; uid = m.uid };
}

assign-eq-ok :
    {A : Type 0} (meta : A → ObjectMeta) (obj : A) (change : A → Bool → Outcome A) (done : A)
    → assign meta obj change ≡ ok done
    → (change obj true ≡ ok done) × (object_key (meta done) ≡ object_key (meta obj))
unfolding assign
assign-eq-ok {A} meta obj change done h =
    let (made, e, f) = >>=-eq-ok (change obj true) _ h in
    elim (Bool-cases (key_eq (object_key (meta made)) (object_key (meta obj)))) [
      | inl same ↦
          let d : made ≡ done = ok-injective (rw same at f) in
          (
            e ∙ (cc),
            subst (λ (x : A). object_key (meta x) ≡ object_key (meta obj)) d (keys made same),
          )
      | inr other ↦ absurd (refused (rw other at f))
    ]
  where
    keys :
        (made : A)
        → key_eq (object_key (meta made)) (object_key (meta obj)) ≡ true
        → object_key (meta made) ≡ object_key (meta obj)
    keys made same = ground (
      arith,
      eq_iff (meta made).namespace (meta obj).namespace,
      eq_iff (meta made).name (meta obj).name,
    )

    refused : {m : String} {a : A} → Outcome.err (failure m) ≡ ok a → ⊥
    refused e = cc

pub client-IsPatching : IsPatching client
client-IsPatching = record {
  service_monitor_changed = λ obj change s done h.
      (obj, true, (assign-eq-ok (λ (m : ServiceMonitor). m.meta) obj change done h).0);
  service_monitor_key =
      λ obj change s done h. (assign-eq-ok (λ (m : ServiceMonitor). m.meta) obj change done h).1;
}
