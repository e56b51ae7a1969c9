-- ===== src/Federate/Ports.antt =====
-- `UpsertServicePort`, `UpsertEndpointPort` and `ServicePortForName`.
pub mod Laws
use rancid_syncer.Base.{ℕ, String, ◌<>◌, List, [], ◌∷◌, Option, none, some, ◌==◌, if◌then◌else◌}
use rancid_syncer.Base.Outcome.{Outcome, ok, panic}
use rancid_syncer.Kube.{Service, ServicePort, EndpointPort, from_int}

-- `ports[i] = port`, with the port number and the target port set.
abbrev pub set_service_port : ServicePort → ServicePort → ServicePort
set_service_port port x = record port { port = x.port; target_port = from_int x.port }

abbrev pub new_service_port : ServicePort → ServicePort
new_service_port x = record {
  name = x.name;
  protocol = "";
  port = x.port;
  target_port = from_int x.port;
  node_port = 0;
}

unfoldable pub upsert_service_port : List ServicePort → ServicePort → List ServicePort
upsert_service_port [] x = new_service_port x ∷ []
upsert_service_port (port ∷ ports) x =
    if port.name == x.name
    then set_service_port port x ∷ ports
    else port ∷ upsert_service_port ports x

unfoldable pub upsert_endpoint_port : List EndpointPort → EndpointPort → List EndpointPort
upsert_endpoint_port [] x = record { name = x.name; port = x.port; protocol = "" } ∷ []
upsert_endpoint_port (port ∷ ports) x =
    if port.name == x.name
    then record port { port = x.port } ∷ ports
    else port ∷ upsert_endpoint_port ports x

-- The loop of `ServicePortForName`, and the panic after it.
unfoldable pub port_for_name : Service → List ServicePort → String → Outcome ℕ
port_for_name svc [] port_name = panic (
    "service " <> svc.meta.namespace <> "/" <> svc.meta.name <> " has no port with name "
    <> port_name)
port_for_name svc (port ∷ ports) port_name =
    if port.name == port_name then ok port.port else port_for_name svc ports port_name

unfoldable pub service_port_for_name : Service → String → Outcome ℕ
unfolding port_for_name
service_port_for_name svc port_name = port_for_name svc svc.ports port_name
