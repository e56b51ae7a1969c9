-- ===== src/Setup/Laws.antt =====
-- Which service is found for a Prometheus, and which port the AppBinding names.
use rancid_syncer.Base.{
  ℕ, ◌≡◌, refl, ap, List, [], ◌∷◌, ◌++◌, some, Bool, true, false, ◌==◌, ◌⊎◌, inl, inr, All,
  Bool-cases, subst,
}
use rancid_syncer.Base.Outcome.{ok, ok-injective, >>=-eq-ok}
use rancid_syncer.Kube.{ObjectKey, Prometheus, Service, ServicePort}
use rancid_syncer.Setup.{
  AppBinding, Server, ServiceReference, first_exposed, find_service_for_prometheus, web_port,
  change_app_binding,
}

abbrev pub is_headless : Service → Bool
is_headless svc = svc.cluster_ip == "None"

-- The first service of the list with a cluster address.
abbrev pub IsFirstExposed : List Service → Service → Type 0
IsFirstExposed items svc =
    (before : List Service) × (after : List Service) × (items ≡ before ++ svc ∷ after)
    × All (λ (s : Service). is_headless s ≡ true) before
    × (is_headless svc ≡ false)

first_exposed-IsFirstExposed :
    (items : List Service) (svc : Service) → first_exposed items ≡ ok svc → IsFirstExposed items svc
unfolding first_exposed
first_exposed-IsFirstExposed [] svc h = cc
first_exposed-IsFirstExposed (s ∷ items) svc h = elim (Bool-cases (is_headless s)) [
  | inl headless ↦
      let (before, after, e, p, q) = first_exposed-IsFirstExposed items svc (rw headless at h) in
      (s ∷ before, after, ap (λ l. s ∷ l) e, (headless, p), q)
  | inr exposed ↦
      let e : s ≡ svc = ok-injective (rw exposed at h) in
      ([], items, ap (λ x. x ∷ items) e, tt, subst (λ x. is_headless x ≡ false) e exposed)
]

-- When `FindServiceForPrometheus` returns a service, it is the first of those that the resource
-- query gave which has a cluster address.
pub find_service_for_prometheus-IsFirstExposed :
    (c : Server) (key : ObjectKey) (s : c.State) (svc : Service)
    → find_service_for_prometheus c key s ≡ ok svc
    → (items : List Service) × (c.exposing_services key s ≡ ok items) × IsFirstExposed items svc
unfolding find_service_for_prometheus
find_service_for_prometheus-IsFirstExposed c key s svc h =
    let (items, d, f) = >>=-eq-ok (c.exposing_services key s) _ h in
    (items, d, first_exposed-IsFirstExposed items svc f)

abbrev pub is_web : ServicePort → Bool
is_web p = p.name == "http-web"

-- The number is that of the last port named `http-web`, or `none_found` if there is no such port.
abbrev pub IsWebPort : ℕ → List ServicePort → ℕ → Type 0
IsWebPort none_found ports number =
    (All (λ (p : ServicePort). is_web p ≡ false) ports × (number ≡ none_found))
    ⊎ ((before : List ServicePort) × (p : ServicePort) × (after : List ServicePort) × (ports
          ≡ before ++ p ∷ after)
        × (is_web p ≡ true)
        × All (λ (x : ServicePort). is_web x ≡ false) after
        × (number ≡ p.port))

web_port-IsWebPort :
    (ports : List ServicePort) (start : ℕ) → IsWebPort start ports (web_port ports start)
unfolding web_port
web_port-IsWebPort [] start = inl (tt, refl)
web_port-IsWebPort (q ∷ ports) start = elim (Bool-cases (is_web q)) [
  | inl web ↦ elim (web_port-IsWebPort ports q.port) [
    | inl (others, e) ↦ inr ([], q, ports, refl, web, others, rw web e)
    | inr (before, p, after, e, w, others, n) ↦
        inr (q ∷ before, p, after, ap (λ l. q ∷ l) e, w, others, rw web n)
  ]
  | inr plain ↦ elim (web_port-IsWebPort ports start) [
    | inl (others, e) ↦ inl ((plain, others), rw plain e)
    | inr (before, p, after, e, w, others, n) ↦
        inr (q ∷ before, p, after, ap (λ l. q ∷ l) e, w, others, rw plain n)
  ]
]

-- The AppBinding of a Prometheus refers to its service by name and namespace, with the number of the
-- last of the service's ports that is named `http-web`, and with 0 if there is no such port.
pub change_app_binding-IsWebPort :
    (p : Prometheus) (svc : Service) (obj : AppBinding)
    → (ref : ServiceReference) × ((change_app_binding p svc obj).service ≡ some ref)
      × (ref.name ≡ svc.meta.name)
      × (ref.namespace ≡ svc.meta.namespace)
      × IsWebPort 0 svc.ports ref.port
unfolding change_app_binding
change_app_binding-IsWebPort p svc obj = (_, refl, refl, refl, web_port-IsWebPort svc.ports 0)
