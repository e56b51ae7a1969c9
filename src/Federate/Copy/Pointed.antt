-- ===== src/Federate/Copy/Pointed.antt =====
-- What the copied endpoints hold, when the copy succeeds.
use rancid_syncer.Base.{
  ℕ, String, ◌≡◌, refl, subst, List, [], ◌∷◌, Option, none, some, ◌==◌, eq_iff, arith, All,
  if◌then◌else◌,
}
use rancid_syncer.Base.Outcome.{ok, ok-injective, >>=-eq-ok}
use rancid_syncer.Kube.{Service, EndpointPort, EndpointSubset, Endpoints, ServiceMonitor}
use rancid_syncer.Federate.Client.{Client}
use rancid_syncer.Federate.Ports.{service_port_for_name, upsert_endpoint_port}
use rancid_syncer.Federate.Copy.{
  copy_ports, copy_subset, copy_subsets, change_endpoints, empty_subset,
}

-- The number of the first port of a name.
unfoldable pub number_of : String → List EndpointPort → Option ℕ
number_of name [] = none
number_of name (p ∷ ports) = if p.name == name then some p.port else number_of name ports

number_of-upsert :
    (name : String) (ports : List EndpointPort) (x : EndpointPort)
    → number_of name (upsert_endpoint_port ports x)
      ≡ (if x.name == name then some x.port else number_of name ports)
unfolding number_of upsert_endpoint_port
number_of-upsert name [] x = refl
number_of-upsert name (p ∷ ports) x = ground (
  arith,
  eq_iff p.name x.name,
  eq_iff x.name name,
  eq_iff p.name name,
  number_of-upsert name ports x,
)

-- The ports give under this name the number that the service has under it.
abbrev pub IsPointed : Service → List EndpointPort → String → Type 0
IsPointed svc ports name =
    (number : ℕ) × (service_port_for_name svc name ≡ ok number)
    × (number_of name ports ≡ some number)

module _ (svc : Service) where
  IsPointed-upsert :
      (name : String) (ports : List EndpointPort) (other : String) (number : ℕ)
      → service_port_for_name svc other ≡ ok number
      → IsPointed svc ports name
      → IsPointed svc
          (upsert_endpoint_port ports (record { name = other; port = number; protocol = "" }))
          name
  IsPointed-upsert name ports other number e (n, f, g) = (
    n,
    f,
    ground (
      arith,
      number_of-upsert name ports (record { name = other; port = number; protocol = "" }),
      eq_iff other name,
    ),
  )

  IsPointed-kept :
      (name : String) (src ports new : List EndpointPort)
      → copy_ports svc src ports ≡ ok new
      → IsPointed svc ports name
      → IsPointed svc new name
  unfolding copy_ports
  IsPointed-kept name [] ports new h p = subst (λ l. IsPointed svc l name) (ok-injective h) p
  IsPointed-kept name (q ∷ src) ports new h p =
      let (n, e, f) = >>=-eq-ok (service_port_for_name svc q.name) _ h in
      IsPointed-kept name src _ new f (IsPointed-upsert name ports q.name n e p)

  copy_ports-IsPointed :
      (src ports new : List EndpointPort)
      → copy_ports svc src ports ≡ ok new
      → All (λ (p : EndpointPort). IsPointed svc new p.name) src
  unfolding copy_ports
  copy_ports-IsPointed [] ports new h = tt
  copy_ports-IsPointed (q ∷ src) ports new h =
      let (n, e, f) = >>=-eq-ok (service_port_for_name svc q.name) _ h in
      let x : EndpointPort = record { name = q.name; port = n; protocol = "" } in
      (
        IsPointed-kept q.name src _ new f
            (n, e, ground (arith, number_of-upsert q.name ports x, eq_iff q.name q.name)),
        copy_ports-IsPointed src _ new f,
      )

  -- A subset that points at the service: its one address is the cluster address of the service,
  -- and each port name of the source's subset leads to the service's port of that name.
  abbrev pub IsCopy : EndpointSubset → EndpointSubset → Type 0
  IsCopy src new =
      (new.addresses ≡ record { ip = svc.cluster_ip; hostname = "" } ∷ [])
      × All (λ (p : EndpointPort). IsPointed svc new.ports p.name) src.ports

  -- Subsets of the target, old and new, beside those of the source: they are copies in turn, and
  -- those past the source's are as they were.
  abbrev pub AreCopies : List EndpointSubset → List EndpointSubset → List EndpointSubset → Type 0
  AreCopies [] olds news = news ≡ olds
  AreCopies (src ∷ srcs) olds [] = ⊥
  AreCopies (src ∷ srcs) [] (new ∷ news) = IsCopy src new × AreCopies srcs [] news
  AreCopies (src ∷ srcs) (old ∷ olds) (new ∷ news) = IsCopy src new × AreCopies srcs olds news

  copy_subset-IsCopy :
      (src old new : EndpointSubset) → copy_subset svc src old ≡ ok new → IsCopy src new
  unfolding copy_subset
  copy_subset-IsCopy src old new h =
      let (ports, e, f) = >>=-eq-ok (copy_ports svc src.ports old.ports) _ h in
      subst (IsCopy src) (ok-injective f) (refl, copy_ports-IsPointed src.ports old.ports ports e)

  copy_subsets-AreCopies :
      (srcs olds news : List EndpointSubset)
      → copy_subsets svc srcs olds ≡ ok news
      → AreCopies srcs olds news
  unfolding copy_subsets
  copy_subsets-AreCopies [] olds news h = cc
  copy_subsets-AreCopies (src ∷ srcs) [] news h =
      let (new, e, f) = >>=-eq-ok (copy_subset svc src empty_subset) _ h in
      let (rest, d, g) = >>=-eq-ok (copy_subsets svc srcs []) _ f in
      subst (AreCopies (src ∷ srcs) []) (ok-injective g)
        (copy_subset-IsCopy src empty_subset new e, copy_subsets-AreCopies srcs [] rest d)
  copy_subsets-AreCopies (src ∷ srcs) (old ∷ olds) news h =
      let (new, e, f) = >>=-eq-ok (copy_subset svc src old) _ h in
      let (rest, d, g) = >>=-eq-ok (copy_subsets svc srcs olds) _ f in
      subst (AreCopies (src ∷ srcs) (old ∷ olds)) (ok-injective g)
        (copy_subset-IsCopy src old new e, copy_subsets-AreCopies srcs olds rest d)

-- When the callback of `copyEndpoints` succeeds, the subset of the target beside each subset of the
-- source points at the source's service: its only address is the cluster address of the service,
-- and each port name of the source's subset leads to the port number that the service has under
-- that name. Subsets of the target past those of the source are unchanged.
pub change_endpoints-AreCopies :
    (c : Client) (src_svc : Service) (src_ep : Endpoints) (target : ServiceMonitor)
    → (obj done : Endpoints) → change_endpoints c src_svc src_ep target obj ≡ ok done
    → AreCopies src_svc src_ep.subsets obj.subsets done.subsets
unfolding change_endpoints
change_endpoints-AreCopies c src_svc src_ep target obj done h =
    let (subsets, e, f) = >>=-eq-ok (copy_subsets src_svc src_ep.subsets obj.subsets) _ h in
    subst (λ (ep : Endpoints). AreCopies src_svc src_ep.subsets obj.subsets ep.subsets)
      (ok-injective f) (copy_subsets-AreCopies src_svc src_ep.subsets obj.subsets subsets e)
