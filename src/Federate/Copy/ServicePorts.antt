-- ===== src/Federate/Copy/ServicePorts.antt =====
-- The ports of a copied service.
use rancid_syncer.Base.{
  ℕ, String, ◌≡◌, refl, ◌∙◌, List, [], ◌∷◌, false, Option, none, some, eq_iff, arith,
}
use rancid_syncer.Kube.{ServicePort, Service, ServiceMonitor}
use rancid_syncer.Federate.Client.{Client}
use rancid_syncer.Federate.Ports.{upsert_service_port}
use rancid_syncer.Federate.Ports.Laws.{
  find_port, find_port-upsert_service_port, has_name, IsDistinct, service_port_names,
  upsert_service_port-IsDistinct, upserted,
}
use rancid_syncer.Federate.Copy.{upsert_service_ports, change_service}

-- The port number under a name.
abbrev pub port_of : Option ServicePort → Option ℕ
port_of none = none
port_of (some p) = some p.port

abbrev pub or_else : Option ℕ → Option ℕ → Option ℕ
or_else none y = y
or_else (some a) y = some a

find_port_of_fresh :
    (name : String) (ports : List ServicePort)
    → has_name name (service_port_names ports) ≡ false
    → find_port name ports ≡ none
unfolding find_port
find_port_of_fresh name [] h = refl
find_port_of_fresh name (p ∷ ports) h = ground (arith, find_port_of_fresh name ports)

upserted-port : (x : ServicePort) (o : Option ServicePort) → (upserted x o).port ≡ x.port
upserted-port x none = refl
upserted-port x (some p) = refl

port_of-upsert_service_ports :
    (name : String) (ports src : List ServicePort)
    → IsDistinct (service_port_names src)
    → port_of (find_port name (upsert_service_ports ports src))
      ≡ or_else (port_of (find_port name src)) (port_of (find_port name ports))
unfolding upsert_service_ports find_port
port_of-upsert_service_ports name ports [] d = refl
port_of-upsert_service_ports name ports (x ∷ src) (fresh, d) =
    port_of-upsert_service_ports name (upsert_service_port ports x) src d
    ∙ ground (
      arith,
      find_port-upsert_service_port name ports x,
      upserted-port x (find_port name ports),
      eq_iff x.name name,
      find_port_of_fresh x.name src,
    )

-- Port names that were distinct stay distinct.
upsert_service_ports-IsDistinct :
    (ports src : List ServicePort)
    → IsDistinct (service_port_names ports)
    → IsDistinct (service_port_names (upsert_service_ports ports src))
unfolding upsert_service_ports
upsert_service_ports-IsDistinct ports [] d = d
upsert_service_ports-IsDistinct ports (x ∷ src) d =
    upsert_service_ports-IsDistinct (upsert_service_port ports x) src
      (upsert_service_port-IsDistinct ports x d)

-- For a source whose ports have distinct names, the copied service has under each name the port
-- number of the source if the source has the name, and else the one that the service had before,
-- and its type is ClusterIP.
pub change_service_lem :
    (c : Client) (src : Service) (target : ServiceMonitor) (obj : Service)
    → IsDistinct (service_port_names src.ports)
    → ((name : String)
        → port_of (find_port name (change_service c src target obj).ports)
          ≡ or_else (port_of (find_port name src.ports)) (port_of (find_port name obj.ports)))
      × ((change_service c src target obj).type ≡ "ClusterIP")
unfolding change_service
change_service_lem c src target obj d =
    (λ name. port_of-upsert_service_ports name obj.ports src.ports d, refl)
