-- ===== src/Federate/Ports/Laws.antt =====
-- Which ports an upsert leaves, and that it changes no other.
use rancid_syncer.Base.{
  String, ◌≡◌, refl, List, [], ◌∷◌, ◌++◌, map, Bool, false, ◌||◌, Option, none, some, ◌==◌, eq_iff,
  any, arith, if◌then◌else◌,
}
use rancid_syncer.Kube.{ServicePort}
use rancid_syncer.Federate.Ports.{set_service_port, new_service_port, upsert_service_port}

-- The first port of a name.
unfoldable pub find_port : String → List ServicePort → Option ServicePort
find_port name [] = none
find_port name (p ∷ ports) = if p.name == name then some p else find_port name ports

abbrev pub has_name : String → List String → Bool
has_name name = any (λ s. s == name)

abbrev pub service_port_names : List ServicePort → List String
service_port_names = map (λ (p : ServicePort). p.name)

-- No name occurs twice.
abbrev pub IsDistinct : List String → Type 0
IsDistinct [] = Unit
IsDistinct (name ∷ names) = (has_name name names ≡ false) × IsDistinct names

-- The entry that an upsert of `x` leaves under the name of `x`.
abbrev pub upserted : ServicePort → Option ServicePort → ServicePort
upserted x none = new_service_port x
upserted x (some p) = set_service_port p x

-- After an upsert of `x` the entry of its name is the old entry with the port number and the target
-- port of `x`, or a new one with just these, and the entry of every other name is the old one.
pub find_port-upsert_service_port :
    (name : String) (ports : List ServicePort) (x : ServicePort)
    → find_port name (upsert_service_port ports x)
      ≡ (if x.name == name then some (upserted x (find_port name ports)) else find_port name ports)
unfolding find_port upsert_service_port
find_port-upsert_service_port name [] x = refl
find_port-upsert_service_port name (p ∷ ports) x = ground (
  arith,
  eq_iff p.name x.name,
  eq_iff x.name name,
  eq_iff p.name name,
  find_port-upsert_service_port name ports x,
)

has_name-append_one :
    (name other : String) (names : List String)
    → has_name name (names ++ other ∷ []) ≡ (has_name name names || other == name)
has_name-append_one name other [] = ground arith
has_name-append_one name other (n ∷ names) = ground (arith, has_name-append_one name other names)

-- The names, in their order, with the new name at the end if it was not there.
names-upsert_service_port :
    (ports : List ServicePort) (x : ServicePort)
    → service_port_names (upsert_service_port ports x) ≡ (
        if has_name x.name (service_port_names ports)
        then service_port_names ports
        else service_port_names ports ++ x.name ∷ [])
unfolding upsert_service_port
names-upsert_service_port [] x = refl
names-upsert_service_port (p ∷ ports) x = ground (arith, names-upsert_service_port ports x)

IsDistinct-append_one :
    (name : String) (names : List String)
    → IsDistinct names
    → has_name name names ≡ false
    → IsDistinct (names ++ name ∷ [])
IsDistinct-append_one name [] d h = (refl, tt)
IsDistinct-append_one name (n ∷ names) (fresh, d) h = ground (
  arith,
  has_name-append_one n name names,
  IsDistinct-append_one name names d,
  eq_iff n name,
  eq_iff name n,
)

-- An upsert keeps the names of the ports distinct.
pub upsert_service_port-IsDistinct :
    (ports : List ServicePort) (x : ServicePort)
    → IsDistinct (service_port_names ports)
    → IsDistinct (service_port_names (upsert_service_port ports x))
upsert_service_port-IsDistinct ports x d =
    rw names-upsert_service_port
      (ground (arith, IsDistinct-append_one x.name (service_port_names ports) d))
