-- ===== src/Panopticon/Scope.antt =====
-- What the created ServiceMonitor selects, and which metrics it keeps.
use mathlib.Core.List.{Perm}
use rancid_syncer.Base.{
  String, ◌<>◌, ◌≢◌, ◌⊎◌, inl, inr, true, false, refl, Bool-cases, ◌≡◌, ap, sym, subst, List, [],
  ◌∷◌, map, Option, none, some, text_lt,
}
use rancid_syncer.Base.Dict.{lookup}
use rancid_syncer.Base.Outcome.{ok, ok-injective, >>=-eq-ok, ◌>>=◌}
use rancid_syncer.Base.Effect.{and_then-eq-ok}
use rancid_syncer.Base.Runtime.{Runtime, IsRuntime}
use rancid_syncer.Kube.{
  object_key, Namespace, RelabelConfig, MonitorEndpoint, Service, ServiceMonitor, Prometheus,
}
use rancid_syncer.Federate.Client.{Client, IsPatching}
use rancid_syncer.Federate.Copy.{project_id_label, join}
use rancid_syncer.Panopticon.{
  Namespaces, namespace_name, drop_labels, relabel_configs, api_endpoint, telemetry_endpoint,
  list_project_namespaces, change_panopticon_monitor, project_namespaces, create_service_monitor,
}

module _ (go : Runtime) (c : Client) (n : Namespaces c) where
  -- The names of the listed namespaces of a project; without a project there are none.
  abbrev pub IsListing : Option String → List String → c.State → Type 0
  IsListing none names s = names ≡ []
  IsListing (some project) names s =
      (items : List Namespace) × (n.list_by_labels ((project_id_label, project) ∷ []) s ≡ ok items)
      × Perm names (map namespace_name items)

  -- With a runtime that sorts (`IsRuntime`), the names that `ListProjectNamespaces` returns are, in
  -- some order, those of the namespaces that the API server lists for the project of the seed; if
  -- the seed is in no project, there are none.
  pub list_project_namespaces_lem :
      (lawful : IsRuntime go) (seed_ns : String) (s : c.State) (names : List String)
      → list_project_namespaces go c n seed_ns s ≡ ok names
      → (seed : Namespace) × (n.get_namespace seed_ns s ≡ ok seed)
        × IsListing (lookup project_id_label seed.meta.labels) names s
  unfolding list_project_namespaces
  list_project_namespaces_lem lawful seed_ns s names h =
      let (seed, d, f) = >>=-eq-ok (n.get_namespace seed_ns s) _ h in
      (seed, d, by_label (lookup project_id_label seed.meta.labels) f)
    where
      by_label :
          (label : Option String)
          → (elim label [
            | none ↦ ok []
            | some project ↦ n.list_by_labels ((project_id_label, project) ∷ []) s >>= λ items.
                ok (go.sort_slice text_lt (map namespace_name items))
          ])
            ≡ ok names
          → IsListing label names s
      by_label none f = sym (ok-injective f)
      by_label (some project) f =
          let (items, d, g) =
            >>=-eq-ok (n.list_by_labels ((project_id_label, project) ∷ []) s) _ f in
          (
            items,
            d,
            subst (λ l. Perm l (map namespace_name items)) (ok-injective g)
                (lawful.sort_slice-perm text_lt (map namespace_name items)),
          )

  -- The namespaces whose metrics are kept: those of the project of the Prometheus on a cluster that
  -- Rancher manages, and none on another one.
  abbrev pub IsScope : Prometheus → List String → c.State → Type 0
  IsScope prom names s =
      ((c.is_rancher_managed ≡ true)
        × (seed : Namespace) × (n.get_namespace prom.meta.namespace s ≡ ok seed)
        × IsListing (lookup project_id_label seed.meta.labels) names s)
      ⊎ ((c.is_rancher_managed ≡ false) × (names ≡ []))

  -- The rules end with one that drops four labels. In front of it, if there are namespaces, and only
  -- then, is a rule that keeps the metrics whose label `namespace` is one of them.
  abbrev pub IsScoped : List String → List RelabelConfig → Type 0
  IsScoped names rules =
      (drop : RelabelConfig) × (drop.action ≡ "labeldrop")
      × (drop.regex ≡ "pod|service|endpoint|namespace")
      × (((names ≡ []) × (rules ≡ drop ∷ []))
          ⊎ ((names ≢ [])
              × (keep : RelabelConfig) × (keep.action ≡ "keep")
              × (keep.source_labels ≡ "namespace" ∷ [])
              × (keep.regex ≡ join "|" names)
              × (rules ≡ keep ∷ drop ∷ [])))

  -- The endpoints of panopticon: the API, over TLS and with the rules, and the telemetry.
  abbrev pub AreEndpoints : Service → List String → List MonitorEndpoint → Type 0
  AreEndpoints panopticon names endpoints =
      (api : MonitorEndpoint) × (telemetry : MonitorEndpoint) × (endpoints ≡ api ∷ telemetry ∷ [])
      × ((api.port ≡ "api") × (api.scheme ≡ "https"))
      × (api.tls_config
          ≡ some (record {
            ca_secret =
                some (record { name = panopticon.meta.name <> "-apiserver-cert"; key = "tls.crt" });
            server_name = panopticon.meta.name <> "." <> panopticon.meta.namespace <> ".svc";
          }))
      × IsScoped names api.relabel_configs
      × ((telemetry.port ≡ "telemetry") × (telemetry.scheme ≡ "http"))
      × (telemetry.relabel_configs ≡ [])

  relabel_configs-IsScoped : (names : List String) → IsScoped names (relabel_configs names)
  unfolding relabel_configs
  relabel_configs-IsScoped [] = (drop_labels, refl, refl, inl (refl, refl))
  relabel_configs-IsScoped (ns ∷ names) =
      (drop_labels, refl, refl, inr (λ h. cc, _, refl, refl, refl, refl))

  endpoints-AreEndpoints :
      (panopticon : Service) (names : List String)
      → AreEndpoints panopticon names (api_endpoint panopticon names ∷ telemetry_endpoint ∷ [])
  unfolding api_endpoint
  endpoints-AreEndpoints panopticon names = (
    api_endpoint panopticon names,
    telemetry_endpoint,
    refl,
    (refl, refl),
    refl,
    relabel_configs-IsScoped names,
    (refl, refl),
    refl,
  )

  project_namespaces-IsScope :
      (lawful : IsRuntime go) (prom : Prometheus) (s : c.State) (names : List String)
      → project_namespaces go c n prom s ≡ ok names
      → IsScope prom names s
  project_namespaces-IsScope lawful prom s names h = elim (Bool-cases c.is_rancher_managed) [
    | inl managed ↦
        let (seed, found, listing) =
          list_project_namespaces_lem lawful prom.meta.namespace s names (rw managed at h) in
        inl (managed, seed, found, listing)
    | inr other ↦ inr (other, sym (ok-injective (rw other at h)))
  ]

  -- Of a client with `IsPatching` and with a runtime that sorts (`IsRuntime`), when
  -- `CreateServiceMonitor` succeeds, its result stands in the namespace of the Prometheus under the
  -- name of the panopticon service, selects that service's namespace and labels, and has two
  -- endpoints. The one of the API keeps the metrics whose namespace is one of the project's
  -- namespaces, which are, in some order, those that the API server lists for the project of the
  -- Prometheus's namespace, and drops four labels. If there are none, since Rancher does not manage
  -- the cluster, the namespace is in no project or none is listed, it has no rule that keeps metrics.
  pub create_service_monitor_lem :
      (lawful : IsPatching c) (sorts : IsRuntime go) (prom : Prometheus) (panopticon : Service)
      → (s : c.State) (m : ServiceMonitor)
      → (create_service_monitor go c n prom panopticon s).0 ≡ ok m
      → (object_key m.meta
          ≡ record { namespace = prom.meta.namespace; name = panopticon.meta.name })
        × (m.spec.namespace_selector
            ≡ record { any = false; match_names = panopticon.meta.namespace ∷ [] })
        × (m.spec.selector.match_labels ≡ panopticon.meta.labels)
        × (names : List String) × IsScope prom names s
        × AreEndpoints panopticon names m.spec.endpoints
  unfolding create_service_monitor change_panopticon_monitor
  create_service_monitor_lem lawful sorts prom panopticon s m h =
      let (names, d, f) = and_then-eq-ok (project_namespaces go c n prom s) _ s h in
      let (cur, created, g) = lawful.service_monitor_changed _ _ s m f in
      let e : change_panopticon_monitor go c n prom panopticon names cur ≡ m = ok-injective g in
      (
        lawful.service_monitor_key _ _ s m f,
        ap (λ (x : ServiceMonitor). x.spec.namespace_selector) (sym e),
        ap (λ (x : ServiceMonitor). x.spec.selector.match_labels) (sym e),
        names,
        project_namespaces-IsScope sorts prom s names d,
        subst (AreEndpoints panopticon names) (ap (λ (x : ServiceMonitor). x.spec.endpoints) e)
            (endpoints-AreEndpoints panopticon names),
      )
