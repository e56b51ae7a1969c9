-- ===== src/Tests/Sync/Copies.antt =====
-- The copied objects.
use rancid_syncer.Base.{
  ℕ, String, ◌≡◌, refl, List, [], ◌∷◌, true, false, none, some, inl, inr, Bool-cases, ◌==◌, ◌∙◌,
}
use rancid_syncer.Base.Outcome.{ok}
use rancid_syncer.Kube.{from_int, new_meta, ServicePort, Service, Endpoints, Labels}
use rancid_syncer.Federate.Ports.{upsert_endpoint_port, port_for_name, service_port_for_name}
use rancid_syncer.Federate.Ports.Laws.{find_port}
use rancid_syncer.Federate.Copy.{
  prometheus_key, change_service_monitor, change_service, change_endpoints, copy_subsets,
  copy_subset, copy_ports,
}
use rancid_syncer.Federate.Copy.Monitors.{All₂, IsKept, keep_rule, change_service_monitor_lem}
use rancid_syncer.Federate.Copy.ServicePorts.{port_of, or_else, change_service_lem}
use rancid_syncer.Federate.Copy.Subsets.{is_served, IsOk, IsPanic, change_endpoints-IsOk}
use rancid_syncer.Federate.Copy.Pointed.{AreCopies, change_endpoints-AreCopies}
use rancid_syncer.Federate.Copy.Settled.{AreEqual, change_service-AreEqual}
use rancid_syncer.Federate.Copy.Again.{AreAlike, change_endpoints-AreAlike}
use rancid_syncer.Federate.Client.{IsOverwrite}
use rancid_syncer.Base.Dict.{lookup, lookup-insert}
use rancid_syncer.Tests.Sync.World.{overwrite, client, service, endpoints, source, project}

abbrev port : String → ℕ → ServicePort
port name number = record {
  name = name;
  protocol = "TCP";
  port = number;
  target_port = from_int 80;
  node_port = 0;
}

lookup-overwrite :
    (k : String) (out in_ : Labels)
    → lookup k (overwrite out in_) ≡ (elim (lookup k in_) [ none ↦ lookup k out | some v ↦ some v ])
unfolding lookup
lookup-overwrite k out [] = refl
lookup-overwrite k out ((i, v) ∷ in_) =
    lookup-insert i k v (overwrite out in_) ∙ (elim (Bool-cases (i == k)) [
      | inl same ↦ rw same refl
      | inr other ↦ rw other (lookup-overwrite k out in_)
    ])

abbrev two_ports : List ServicePort
two_ports = port "http" 80 ∷ port "admin" 81 ∷ []

change_service_monitor_example :
    All₂
      (IsKept (keep_rule ("" ∷ "app" ∷ [])))
      source.spec.endpoints
      (change_service_monitor client project ("" ∷ "app" ∷ []) source source).spec.endpoints
    × ((change_service_monitor client project ("" ∷ "app" ∷ []) source source).spec.selector
        ≡ source.spec.selector)
    × ((change_service_monitor client project
          ("" ∷ "app" ∷ [])
          source
          source).spec.namespace_selector
        ≡ source.spec.namespace_selector)
    × (lookup prometheus_key
          (change_service_monitor client project ("" ∷ "app" ∷ []) source source).meta.labels
        ≡ none)
change_service_monitor_example =
    change_service_monitor_lem client project ("" ∷ "app" ∷ []) source source

abbrev older : Service
older = record service { ports = two_ports }

change_service_example :
    ((name : String)
      → port_of (find_port name (change_service client service source older).ports)
        ≡ or_else (port_of (find_port name service.ports)) (port_of (find_port name older.ports)))
    × ((change_service client service source older).type ≡ "ClusterIP")
change_service_example = change_service_lem client service source older (refl, tt)

client-IsOverwrite : IsOverwrite client
client-IsOverwrite = record { lookup-overwrite_keys = lookup-overwrite }

change_service-AreEqual_example :
    AreEqual
      (change_service client service source (change_service client service source older))
      (change_service client service source older)
change_service-AreEqual_example =
    change_service-AreEqual client client-IsOverwrite service source older (refl, tt)

change_endpoints-IsOk_example :
    ((is_served service endpoints.subsets ≡ true)
      → IsOk (change_endpoints client service endpoints source endpoints))
    × ((is_served service endpoints.subsets ≡ false)
        → IsPanic (change_endpoints client service endpoints source endpoints))
change_endpoints-IsOk_example = change_endpoints-IsOk client service endpoints source endpoints

abbrev copied : Endpoints
copied = record {
  meta = record (new_meta "web" "app") {
    owner_references =
        record { api_version = ""; kind = "ServiceMonitor"; name = "web"; uid = "" } ∷ [];
  };
  subsets =
      record {
        addresses = record { ip = "10.0.0.7"; hostname = "" } ∷ [];
        not_ready_addresses = [];
        ports = record { name = "http"; port = 8080; protocol = "TCP" } ∷ [];
      }
      ∷ [];
}

endpoints_copied : change_endpoints client service endpoints source endpoints ≡ ok copied
unfolding change_endpoints copy_subsets copy_subset copy_ports service_port_for_name port_for_name
    upsert_endpoint_port
endpoints_copied = refl

change_endpoints-AreCopies_example :
    AreCopies service endpoints.subsets endpoints.subsets copied.subsets
change_endpoints-AreCopies_example =
    change_endpoints-AreCopies client service endpoints source endpoints copied endpoints_copied

change_endpoints-AreAlike_example :
    (again : Endpoints) × (change_endpoints client service endpoints source copied ≡ ok again)
    × AreAlike again copied
change_endpoints-AreAlike_example =
    change_endpoints-AreAlike client client-IsOverwrite service endpoints source endpoints copied
      endpoints_copied
