-- ===== src/Federate/Copy/Again.antt =====
-- Copying endpoints again, when nothing of the source has changed.
use rancid_syncer.Base.{
  ℕ, String, ◌≡◌, refl, sym, ◌∙◌, ap, subst, List, [], ◌∷◌, Option, none, some, false, ◌==◌, All,
  inl, inr, Bool-cases, eq_iff, arith, if◌then◌else◌,
}
use rancid_syncer.Base.Entries.{some_injective, true_not_false}
use rancid_syncer.Base.Outcome.{ok, ok-injective, >>=-eq-ok}
use rancid_syncer.Kube.{Service, EndpointPort, EndpointSubset, Endpoints, ServiceMonitor}
use rancid_syncer.Federate.Client.{Client, IsOverwrite}
use rancid_syncer.Federate.Copy.Settled.{AreSame, overwrite_twice}
use rancid_syncer.Federate.Ports.{upsert_endpoint_port, service_port_for_name}
use rancid_syncer.Federate.Copy.{
  copy_ports, copy_subset, copy_subsets, empty_subset, change_endpoints,
}

-- The first port of a name.
find_endpoint_port : String → List EndpointPort → Option EndpointPort
find_endpoint_port name [] = none
find_endpoint_port name (p ∷ ports) =
    if p.name == name then some p else find_endpoint_port name ports

abbrev numbered : String → ℕ → EndpointPort
numbered name number = record { name = name; port = number; protocol = "" }

module _ (svc : Service) where
  -- The first port of the name has the number that the service has under it.
  abbrev IsServed : String → List EndpointPort → Type 0
  IsServed name ports =
      (p : EndpointPort) × (find_endpoint_port name ports ≡ some p)
      × (service_port_for_name svc name ≡ ok p.port)

  upsert_endpoint_port-served :
      (name : String) (number : ℕ) (ports : List EndpointPort)
      → IsServed name ports
      → service_port_for_name svc name ≡ ok number
      → upsert_endpoint_port ports (numbered name number) ≡ ports
  unfolding upsert_endpoint_port find_endpoint_port
  upsert_endpoint_port-served name number [] (p, e, d) h = cc
  upsert_endpoint_port-served name number (q ∷ ports) (p, e, d) h =
      elim (Bool-cases (q.name == name)) [
        | inl same ↦
            let k : q ≡ p = some_injective (rw same at e) in
            let n : number ≡ q.port =
              ok-injective (sym h ∙ d) ∙ ap (λ (x : EndpointPort). x.port) (sym k) in
            rw same (rw n refl)
        | inr other ↦ rw other (
            ap (λ l. q ∷ l) (upsert_endpoint_port-served name number ports (p, rw other at e, d) h))
      ]

  -- Under its name an upsert leaves a port with its number, and under others what was there.
  find_endpoint_port-upsert :
      (name key : String) (number : ℕ) (ports : List EndpointPort)
      → (p : EndpointPort) × (find_endpoint_port key
            (upsert_endpoint_port ports (numbered name number))
          ≡ (if name == key then some p else find_endpoint_port key ports))
        × (p.port ≡ number)
  unfolding upsert_endpoint_port find_endpoint_port
  find_endpoint_port-upsert name key number [] = (numbered name number, refl, refl)
  find_endpoint_port-upsert name key number (q ∷ ports) = elim (Bool-cases (q.name == name)) [
    | inl same ↦
        (record q { port = number }, rw same (rw ((eq_iff q.name name).0 same) ground arith), refl)
    | inr other ↦
        let (p, e, d) = find_endpoint_port-upsert name key number ports in
        (
          p,
          rw other (rw e (ground (arith, eq_iff q.name name, eq_iff q.name key, eq_iff name key))),
          d,
        )
  ]

  IsServed-upsert :
      (name key : String) (number : ℕ) (ports : List EndpointPort)
      → service_port_for_name svc name ≡ ok number
      → ((name == key) ≡ false → IsServed key ports)
      → IsServed key (upsert_endpoint_port ports (numbered name number))
  IsServed-upsert name key number ports h s =
      let (p, e, d) = find_endpoint_port-upsert name key number ports in
      elim (Bool-cases (name == key)) [
        | inl same ↦ (
          p,
          e ∙ rw same refl,
          subst (λ x. service_port_for_name svc x ≡ ok p.port) ((eq_iff name key).0 same)
              (h ∙ ap (λ x. ok x) (sym d)),
        )
        | inr other ↦ let (p', e', d') = s other in (p', e ∙ rw other e', d')
      ]

  IsServed-copy_ports :
      (key : String) (src ports result : List EndpointPort)
      → IsServed key ports
      → copy_ports svc src ports ≡ ok result
      → IsServed key result
  unfolding copy_ports
  IsServed-copy_ports key [] ports result s h = subst (IsServed key) (ok-injective h) s
  IsServed-copy_ports key (port ∷ src) ports result s h =
      let (number, e, f) = >>=-eq-ok (service_port_for_name svc port.name) _ h in
      IsServed-copy_ports key src (upsert_endpoint_port ports (numbered port.name number)) result
        (IsServed-upsert port.name key number ports e (λ _. s)) f

  abbrev AreServed : List EndpointPort → List EndpointPort → Type 0
  AreServed src ports = All (λ (x : EndpointPort). IsServed x.name ports) src

  copy_ports-AreServed :
      (src ports result : List EndpointPort)
      → copy_ports svc src ports ≡ ok result
      → AreServed src result
  unfolding copy_ports
  copy_ports-AreServed [] ports result h = tt
  copy_ports-AreServed (port ∷ src) ports result h =
      let (number, e, f) = >>=-eq-ok (service_port_for_name svc port.name) _ h in
      let next = upsert_endpoint_port ports (numbered port.name number) in
      (
        IsServed-copy_ports port.name src next result
            (IsServed-upsert port.name port.name number ports e (λ other.
              absurd (true_not_false (sym ((eq_iff port.name port.name).1 refl) ∙ other))))
            f,
        copy_ports-AreServed src next result f,
      )

  copy_ports-served :
      (src ports : List EndpointPort) → AreServed src ports → copy_ports svc src ports ≡ ok ports
  unfolding copy_ports
  copy_ports-served [] ports h = refl
  copy_ports-served (port ∷ src) ports ((p, e, d), h) = rw d (
      rw (upsert_endpoint_port-served port.name p.port ports (p, e, d) d)
        (copy_ports-served src ports h))

  copy_subset_again :
      (src old new : EndpointSubset)
      → copy_subset svc src old ≡ ok new
      → copy_subset svc src new ≡ ok new
  unfolding copy_subset
  copy_subset_again src old new h =
      let (ports, e, f) = >>=-eq-ok (copy_ports svc src.ports old.ports) _ h in
      let again =
        copy_ports-served src.ports ports (copy_ports-AreServed src.ports old.ports ports e) in
      rw⁻¹ (ok-injective f) (rw again refl)

  copy_subsets_again :
      (srcs olds news : List EndpointSubset)
      → copy_subsets svc srcs olds ≡ ok news
      → copy_subsets svc srcs news ≡ ok news
  unfolding copy_subsets
  copy_subsets_again [] olds news h = refl
  copy_subsets_again (src ∷ srcs) [] news h =
      let (subset, e, h1) = >>=-eq-ok (copy_subset svc src empty_subset) _ h in
      let (rest, d, h2) = >>=-eq-ok (copy_subsets svc srcs []) _ h1 in
      rw⁻¹ (ok-injective h2)
        (rw (copy_subset_again src empty_subset subset e, copy_subsets_again srcs [] rest d) refl)
  copy_subsets_again (src ∷ srcs) (old ∷ olds) news h =
      let (subset, e, h1) = >>=-eq-ok (copy_subset svc src old) _ h in
      let (rest, d, h2) = >>=-eq-ok (copy_subsets svc srcs olds) _ h1 in
      rw⁻¹ (ok-injective h2)
        (rw (copy_subset_again src old subset e, copy_subsets_again srcs olds rest d) refl)

-- Two endpoints that differ at most in the order of their labels and annotations.
pub record AreAlike (a b : Endpoints) : Type 0 where
  pub name : a.meta.name ≡ b.meta.name
  pub namespace : a.meta.namespace ≡ b.meta.namespace
  pub uid : a.meta.uid ≡ b.meta.uid
  pub creation_timestamp : a.meta.creation_timestamp ≡ b.meta.creation_timestamp
  pub owners : a.meta.owner_references ≡ b.meta.owner_references
  pub labels : AreSame a.meta.labels b.meta.labels
  pub annotations : AreSame a.meta.annotations b.meta.annotations
  pub subsets : a.subsets ≡ b.subsets

module _ (c : Client) (lawful : IsOverwrite c) where
  -- With the documented `OverwriteKeys` (`IsOverwrite`): when the callback of `copyEndpoints`
  -- succeeds, applying it again to its result succeeds too, and changes nothing but, at most, the
  -- order of labels and annotations.
  pub change_endpoints-AreAlike :
      (src_svc : Service) (src_ep : Endpoints) (target : ServiceMonitor) (obj done : Endpoints)
      → change_endpoints c src_svc src_ep target obj ≡ ok done
      → (again : Endpoints) × (change_endpoints c src_svc src_ep target done ≡ ok again)
        × AreAlike again done
  unfolding change_endpoints
  change_endpoints-AreAlike src_svc src_ep target obj done h =
      let (subsets, e, f) = >>=-eq-ok (copy_subsets src_svc src_ep.subsets obj.subsets) _ h in
      let again = copy_subsets_again src_svc src_ep.subsets obj.subsets subsets e in
      rw⁻¹ (ok-injective f) (
        rw again (
          _,
          refl,
          record {
            name = refl;
            namespace = refl;
            uid = refl;
            creation_timestamp = refl;
            owners = refl;
            labels = overwrite_twice c lawful obj.meta.labels src_ep.meta.labels;
            annotations = overwrite_twice c lawful obj.meta.annotations src_ep.meta.annotations;
            subsets = refl;
          },
        ))
