-- ===== src/Federate/Copy/Settled.antt =====
-- Copying a service again, when nothing of the source has changed.
use rancid_syncer.Base.{
  String, ◌≡◌, refl, sym, ◌∙◌, ap, List, [], ◌∷◌, false, Option, none, some, ◌==◌, All, inl, inr,
  Bool-cases, eq_iff, arith,
}
use rancid_syncer.Base.Entries.{some_injective}
use rancid_syncer.Kube.{ServicePort}
use rancid_syncer.Federate.Ports.{set_service_port, upsert_service_port}
use rancid_syncer.Federate.Ports.Laws.{
  find_port, has_name, IsDistinct, service_port_names, upserted, find_port-upsert_service_port,
}
use rancid_syncer.Kube.{Labels, Service, ServiceMonitor}
use rancid_syncer.Base.Dict.{lookup}
use rancid_syncer.Federate.Client.{Client, IsOverwrite}
use rancid_syncer.Federate.Copy.{upsert_service_ports, change_service}

-- The first port of the name of `x` has the numbers of `x`.
abbrev IsSettled : ServicePort → List ServicePort → Type 0
IsSettled x ports =
    (p : ServicePort) × (find_port x.name ports ≡ some p) × (set_service_port p x ≡ p)

upsert_service_port-settled :
    (x : ServicePort) (ports : List ServicePort)
    → IsSettled x ports
    → upsert_service_port ports x ≡ ports
unfolding upsert_service_port find_port
upsert_service_port-settled x [] (p, e, d) = cc
upsert_service_port-settled x (port ∷ ports) (p, e, d) = elim (Bool-cases (port.name == x.name)) [
  | inl same ↦
      let k : port ≡ p = some_injective (rw same at e) in rw same (ap (λ y. y ∷ ports) (rw k d))
  | inr other ↦
      rw other (ap (λ l. port ∷ l) (upsert_service_port-settled x ports (p, rw other at e, d)))
]

set_service_port-upserted :
    (x : ServicePort) (o : Option ServicePort) → set_service_port (upserted x o) x ≡ upserted x o
set_service_port-upserted x none = refl
set_service_port-upserted x (some p) = refl

IsSettled-upsert_service_port :
    (x : ServicePort) (ports : List ServicePort) → IsSettled x (upsert_service_port ports x)
IsSettled-upsert_service_port x ports = (
  upserted x (find_port x.name ports),
  find_port-upsert_service_port x.name ports x ∙ rw ((eq_iff x.name x.name).1 refl) refl,
  set_service_port-upserted x (find_port x.name ports),
)

IsSettled-other :
    (x y : ServicePort) (ports : List ServicePort)
    → (y.name == x.name) ≡ false
    → IsSettled x ports
    → IsSettled x (upsert_service_port ports y)
IsSettled-other x y ports n (p, e, d) =
    (p, find_port-upsert_service_port x.name ports y ∙ rw n e, d)

IsSettled-upsert_service_ports :
    (x : ServicePort) (ports src : List ServicePort)
    → has_name x.name (service_port_names src) ≡ false
    → IsSettled x ports
    → IsSettled x (upsert_service_ports ports src)
unfolding upsert_service_ports
IsSettled-upsert_service_ports x ports [] h s = s
IsSettled-upsert_service_ports x ports (y ∷ src) h s =
    IsSettled-upsert_service_ports x (upsert_service_port ports y) src (ground arith)
      (IsSettled-other x y ports (ground arith) s)

upsert_service_ports-AreSettled :
    (ports src : List ServicePort)
    → IsDistinct (service_port_names src)
    → All (λ x. IsSettled x (upsert_service_ports ports src)) src
unfolding upsert_service_ports
upsert_service_ports-AreSettled ports [] d = tt
upsert_service_ports-AreSettled ports (x ∷ src) (fresh, d) = (
  IsSettled-upsert_service_ports x (upsert_service_port ports x) src fresh
      (IsSettled-upsert_service_port x ports),
  upsert_service_ports-AreSettled (upsert_service_port ports x) src d,
)

upsert_service_ports-settled :
    (ports src : List ServicePort)
    → All (λ x. IsSettled x ports) src
    → upsert_service_ports ports src ≡ ports
unfolding upsert_service_ports
upsert_service_ports-settled ports [] h = refl
upsert_service_ports-settled ports (x ∷ src) (s, h) =
    rw (upsert_service_port-settled x ports s) (upsert_service_ports-settled ports src h)

-- Ports that were upserted once are left as they are by upserting them again.
upsert_service_ports_twice :
    (ports src : List ServicePort)
    → IsDistinct (service_port_names src)
    → upsert_service_ports (upsert_service_ports ports src) src ≡ upsert_service_ports ports src
upsert_service_ports_twice ports src d =
    upsert_service_ports-settled (upsert_service_ports ports src) src
      (upsert_service_ports-AreSettled ports src d)

-- Maps that give the same value under every key.
abbrev pub AreSame : Labels → Labels → Type 0
AreSame a b = (k : String) → lookup k a ≡ lookup k b

-- Two services that differ at most in the order of their labels and annotations.
pub record AreEqual (a b : Service) : Type 0 where
  pub name : a.meta.name ≡ b.meta.name
  pub namespace : a.meta.namespace ≡ b.meta.namespace
  pub uid : a.meta.uid ≡ b.meta.uid
  pub creation_timestamp : a.meta.creation_timestamp ≡ b.meta.creation_timestamp
  pub owners : a.meta.owner_references ≡ b.meta.owner_references
  pub labels : AreSame a.meta.labels b.meta.labels
  pub annotations : AreSame a.meta.annotations b.meta.annotations
  pub type : a.type ≡ b.type
  pub cluster_ip : a.cluster_ip ≡ b.cluster_ip
  pub ports : a.ports ≡ b.ports

abbrev overwritten : Option String → Option String → Option String
overwritten o old = elim o [ none ↦ old | some v ↦ some v ]

overwritten_twice : (o old : Option String) → overwritten o (overwritten o old) ≡ overwritten o old
overwritten_twice none old = refl
overwritten_twice (some v) old = refl

module _ (c : Client) (lawful : IsOverwrite c) where
  -- Overwriting a second time changes no value.
  pub overwrite_twice :
      (out new : Labels)
      → AreSame (c.overwrite_keys (c.overwrite_keys out new) new) (c.overwrite_keys out new)
  overwrite_twice out new k =
      let once = lawful.lookup-overwrite_keys k out new in
      let twice = lawful.lookup-overwrite_keys k (c.overwrite_keys out new) new in
      twice
      ∙ ap (overwritten (lookup k new)) once
      ∙ overwritten_twice (lookup k new) (lookup k out)
      ∙ sym once

  -- With the documented `OverwriteKeys` (`IsOverwrite`), for a source whose ports have distinct names:
  -- copying the service again, from the same source into what the first copy left, changes nothing
  -- but, at most, the order of labels and annotations, whatever stood there before the first.
  pub change_service-AreEqual :
      (src : Service) (target : ServiceMonitor) (obj : Service)
      → IsDistinct (service_port_names src.ports)
      → AreEqual
          (change_service c src target (change_service c src target obj))
          (change_service c src target obj)
  unfolding change_service
  change_service-AreEqual src target obj d = record {
    name = refl;
    namespace = refl;
    uid = refl;
    creation_timestamp = refl;
    owners = refl;
    labels = overwrite_twice obj.meta.labels src.meta.labels;
    annotations = overwrite_twice obj.meta.annotations src.meta.annotations;
    type = refl;
    cluster_ip = refl;
    ports = upsert_service_ports_twice obj.ports src.ports d;
  }
