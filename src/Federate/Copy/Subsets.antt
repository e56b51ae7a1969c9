-- ===== src/Federate/Copy/Subsets.antt =====
-- When a copy of endpoints panics, and what it holds.
use rancid_syncer.Base.{
  String, ◌≡◌, refl, List, [], ◌∷◌, Bool, true, false, ◌==◌, all, any, ◌&&◌, inl, inr, Bool-cases,
}
use rancid_syncer.Base.Outcome.{Outcome, ok, panic, ◌>>=◌}
use rancid_syncer.Kube.{
  ServicePort, Service, EndpointPort, EndpointSubset, Endpoints, ServiceMonitor,
}
use rancid_syncer.Federate.Client.{Client}
use rancid_syncer.Federate.Ports.{port_for_name, service_port_for_name}
use rancid_syncer.Federate.Copy.{
  copy_ports, copy_subset, copy_subsets, change_endpoints, empty_subset,
}

-- The service has a port of the name.
abbrev pub has_port : Service → String → Bool
has_port svc name = any (λ (p : ServicePort). p.name == name) svc.ports

abbrev pub all_served : Service → List EndpointPort → Bool
all_served svc = all (λ (p : EndpointPort). has_port svc p.name)

-- Every port of the endpoints is named like a port of the service.
abbrev pub is_served : Service → List EndpointSubset → Bool
is_served svc = all (λ (sub : EndpointSubset). all_served svc sub.ports)

abbrev pub IsOk : {A : Type 0} → Outcome A → Type 0
IsOk {A} r = (a : A) × (r ≡ ok a)

abbrev pub IsPanic : {A : Type 0} → Outcome A → Type 0
IsPanic r = (m : String) × (r ≡ panic m)

-- The outcome of a step that panics unless a test holds.
abbrev Needs : {A : Type 0} → Bool → Outcome A → Type 0
Needs true r = IsOk r
Needs false r = IsPanic r

port_for_name-Needs :
    (svc : Service) (ports : List ServicePort) (name : String)
    → Needs (any (λ (p : ServicePort). p.name == name) ports) (port_for_name svc ports name)
unfolding port_for_name
port_for_name-Needs svc [] name = (_, refl)
port_for_name-Needs svc (p ∷ ports) name = elim (Bool-cases (p.name == name)) [
  | inl same ↦ rw same (p.port, refl)
  | inr other ↦ rw other (port_for_name-Needs svc ports name)
]

Needs-bind :
    {A B : Type 0} (p q : Bool) (m : Outcome A) (f : A → Outcome B)
    → Needs p m
    → ((a : A) → Needs q (f a))
    → Needs (p && q) (m >>= f)
Needs-bind true q m f (a, e) k = rw e (k a)
Needs-bind false q m f (msg, e) k = rw e (msg, refl)

Needs-ok :
    {A B : Type 0} (p : Bool) (m : Outcome A) (g : A → B)
    → Needs p m
    → Needs p (m >>= λ a. ok (g a))
Needs-ok true m g (a, e) = rw e (g a, refl)
Needs-ok false m g (msg, e) = rw e (msg, refl)

module _ (svc : Service) where
  copy_ports-Needs :
      (src ports : List EndpointPort) → Needs (all_served svc src) (copy_ports svc src ports)
  unfolding copy_ports service_port_for_name
  copy_ports-Needs [] ports = (ports, refl)
  copy_ports-Needs (p ∷ src) ports =
      Needs-bind (has_port svc p.name) (all_served svc src) _ _
        (port_for_name-Needs svc svc.ports p.name) (λ n. copy_ports-Needs src _)

  copy_subset-Needs :
      (src subset : EndpointSubset) → Needs (all_served svc src.ports) (copy_subset svc src subset)
  unfolding copy_subset
  copy_subset-Needs src subset =
      Needs-ok (all_served svc src.ports) _ _ (copy_ports-Needs src.ports subset.ports)

  copy_subsets-Needs :
      (srcs subsets : List EndpointSubset)
      → Needs (is_served svc srcs) (copy_subsets svc srcs subsets)
  unfolding copy_subsets
  copy_subsets-Needs [] subsets = (subsets, refl)
  copy_subsets-Needs (src ∷ srcs) [] =
      Needs-bind (all_served svc src.ports) (is_served svc srcs) _ _
        (copy_subset-Needs src empty_subset)
        (λ sub. Needs-ok (is_served svc srcs) _ _ (copy_subsets-Needs srcs []))
  copy_subsets-Needs (src ∷ srcs) (old ∷ olds) =
      Needs-bind (all_served svc src.ports) (is_served svc srcs) _ _ (copy_subset-Needs src old)
        (λ sub. Needs-ok (is_served svc srcs) _ _ (copy_subsets-Needs srcs olds))

Needs-split :
    {A : Type 0} (b : Bool) (r : Outcome A)
    → Needs b r
    → ((b ≡ true) → IsOk r) × ((b ≡ false) → IsPanic r)
Needs-split true r n = (λ e. n, λ e. cc)
Needs-split false r n = (λ e. cc, λ e. n)

-- The callback of `copyEndpoints` succeeds when every port name of the source's endpoints is that
-- of a port of the source's service, and panics when some port name is not.
pub change_endpoints-IsOk :
    (c : Client) (src_svc : Service) (src_ep : Endpoints) (target : ServiceMonitor)
    (obj : Endpoints)
    → ((is_served src_svc src_ep.subsets ≡ true)
        → IsOk (change_endpoints c src_svc src_ep target obj))
      × ((is_served src_svc src_ep.subsets ≡ false)
          → IsPanic (change_endpoints c src_svc src_ep target obj))
unfolding change_endpoints
change_endpoints-IsOk c src_svc src_ep target obj =
    Needs-split (is_served src_svc src_ep.subsets) _ (
      Needs-ok (is_served src_svc src_ep.subsets) _ _
        (copy_subsets-Needs src_svc src_ep.subsets obj.subsets))
