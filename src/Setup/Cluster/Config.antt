-- ===== src/Setup/Cluster/Config.antt =====
-- The configuration that `SetupClusterForPrometheus` returns.
use rancid_syncer.Base.{
  String, ◌<>◌, ◌≡◌, refl, sym, ◌∙◌, ap, List, [], ◌∷◌, ◌++◌, Bool, true, false, ◌⊎◌, inl, inr, All,
  Bool-cases,
}
use rancid_syncer.Base.Outcome.{ok, ok-injective}
use rancid_syncer.Base.Effect.{Effect, read, >>=-eq-ok}
use rancid_syncer.Kube.{ObjectKey, Prometheus, Service, ServicePort, object_key}
use rancid_syncer.Setup.{Server, find_service_for_prometheus, create_preset}
use rancid_syncer.Setup.Access.{Access, ServiceAccount}
use rancid_syncer.Setup.Token.{Token, await_token}
use rancid_syncer.Setup.Token.States.{IsPolling, IsReady}
use rancid_syncer.Setup.Token.Polling.{IsReady-await_token}
use rancid_syncer.Setup.Laws.{IsFirstExposed, find_service_for_prometheus-IsFirstExposed, is_web}
use rancid_syncer.Setup.Cluster.Decimal.{read_from, decimal-read_from}
use rancid_syncer.Setup.Cluster.{
  PrometheusConfig, new_service_account, change_service_account, new_role, change_role,
  new_role_binding, change_role_binding, grant_access, publish_default, decimal, web_port_text,
  config_of, setup_found, setup_cluster_for_prometheus,
}

-- The text is the number of the last port named `http-web` in digits, which are read as that number,
-- or `none_found` if there is no such port.
abbrev pub IsWebPortText : String → List ServicePort → String → Type 0
IsWebPortText none_found ports text =
    (All (λ (p : ServicePort). is_web p ≡ false) ports × (text ≡ none_found))
    ⊎ ((before : List ServicePort) × (p : ServicePort) × (after : List ServicePort) × (ports
          ≡ before ++ p ∷ after)
        × (is_web p ≡ true)
        × All (λ (x : ServicePort). is_web x ≡ false) after
        × (text ≡ decimal p.port)
        × (read_from 0 text ≡ p.port))

web_port_text-IsWebPortText :
    (ports : List ServicePort) (start : String)
    → IsWebPortText start ports (web_port_text ports start)
unfolding web_port_text
web_port_text-IsWebPortText [] start = inl (tt, refl)
web_port_text-IsWebPortText (q ∷ ports) start = elim (Bool-cases (is_web q)) [
  | inl web ↦ elim (web_port_text-IsWebPortText ports (decimal q.port)) [
    | inl (others, e) ↦
        inr ([], q, ports, refl, web, others, rw web e, rw (web, e) (decimal-read_from q.port))
    | inr (before, p, after, e, w, others, n, r) ↦
        inr (q ∷ before, p, after, ap (λ l. q ∷ l) e, w, others, rw web n, rw web r)
  ]
  | inr plain ↦ elim (web_port_text-IsWebPortText ports start) [
    | inl (others, e) ↦ inl ((plain, others), rw plain e)
    | inr (before, p, after, e, w, others, n, r) ↦
        inr (q ∷ before, p, after, ap (λ l. q ∷ l) e, w, others, rw plain n, rw plain r)
  ]
]

-- The proxy of the API server for a port of the service.
abbrev pub proxy_url : String → Service → String → String
proxy_url host svc port =
    host <> "/api/v1/namespaces/" <> svc.meta.namespace <> "/services/http:" <> svc.meta.name <> ":"
    <> port <> "/proxy/"

-- The configuration for a port of a service and a token, with no password and no certificate of the
-- client.
abbrev pub access_to : String → Service → String → Token → PrometheusConfig
access_to host svc port token = record {
  service = record {
    scheme = "http";
    name = svc.meta.name;
    namespace = svc.meta.namespace;
    port = port;
    path = "";
    query = "";
  };
  url = proxy_url host svc port;
  basic_auth = ("", "");
  cert = "";
  key = "";
  bearer_token = token.token;
  ca = token.ca;
}

module _ (c : Server) (a : Access c) (later : c.State → List c.State) where
  -- The patch of the service account.
  abbrev pub patch_account : Prometheus → Effect c.State (ServiceAccount × Bool)
  patch_account prom =
      a.patch_service_account (new_service_account prom.meta.namespace)
        (λ obj. ok (change_service_account c a prom obj))

  -- The state in which the wait for the token begins: the patches of the account, the role and its
  -- binding, of the presets and of the AppBinding have been made, in this order.
  abbrev pub after_patches : Prometheus → Service → Bool → c.State → c.State
  after_patches prom svc is_default s =
      let granted = (grant_access c a prom prom.meta.namespace s).1 in
      let with_presets = (create_preset c a.managed prom is_default granted).1 in
      (publish_default c a prom svc is_default with_presets).1

  -- The configuration `cfg` gives access to the Prometheus of a key.
  pub record IsGranted (key : ObjectKey) (s : c.State) (cfg : PrometheusConfig) : Type 0 where
    pub prom : Prometheus
    pub found : a.get_prometheus key s ≡ ok prom
    -- Its service, and the port.
    pub items : List Service
    pub listed : c.exposing_services (object_key prom.meta) s ≡ ok items
    pub svc : Service
    pub exposed : IsFirstExposed items svc
    pub port : String
    pub web : IsWebPortText "" svc.ports port
    -- The account, and the token that is in its secret at one of the states that were polled.
    pub sa : ServiceAccount
    pub created : Bool
    pub patched : (patch_account prom s).0 ≡ ok (sa, created)
    pub is_default : Bool
    pub decided : a.is_default (object_key prom.meta) s ≡ ok is_default
    pub before : List c.State
    pub seen : c.State
    pub after : List c.State
    pub polled :
        (after_patches prom svc is_default s) ∷ later (after_patches prom svc is_default s)
        ≡ before ++ seen ∷ after
    pub token : Token
    pub ready : IsReady c a (object_key sa.meta) seen token
    pub configured : cfg ≡ access_to a.host svc port token

  -- The account that is returned is the one that the first patch left.
  grant_access-eq-ok :
      (prom : Prometheus) (s : c.State) (sa : ServiceAccount)
      → (grant_access c a prom prom.meta.namespace s).0 ≡ ok sa
      → (created : Bool) × ((patch_account prom s).0 ≡ ok (sa, created))
  unfolding grant_access
  grant_access-eq-ok prom s sa h =
      let ns = prom.meta.namespace in
      let (sa', e, h1) = >>=-eq-ok (patch_account prom) _ s h in
      let (role, _, h2) =
        >>=-eq-ok (a.patch_role (new_role ns) (λ obj. ok (change_role c a prom obj))) _ _ h1 in
      let (rb, _, h3) =
        >>=-eq-ok
          (a.patch_role_binding (new_role_binding ns)
            (λ obj. ok (change_role_binding c a prom role.0 sa'.0 obj)))
          _ _ h2 in
      (sa'.1, e ∙ ap (λ (x : ServiceAccount). ok (x, sa'.1)) (ok-injective h3))

  module _ (lawful : IsPolling c a later) where
    -- With `PollImmediate` as documented (`IsPolling`): a configuration that
    -- `SetupClusterForPrometheus` returns is that of the first service with a cluster address that the
    -- query gave for the Prometheus; its URL is the proxy of the API server for the last port of that
    -- service named `http-web`, and has an empty port if no port has that name; and its token and its
    -- CA are the two entries that the first secret of the patched service account had at one of the
    -- polled states, the first of which is the state that this run's patches left.
    pub setup_cluster_for_prometheus-IsGranted :
        (key : ObjectKey) (s : c.State) (cfg : PrometheusConfig)
        → (setup_cluster_for_prometheus c a key s).0 ≡ ok cfg
        → IsGranted key s cfg
    unfolding setup_cluster_for_prometheus setup_found config_of
    setup_cluster_for_prometheus-IsGranted key s cfg h =
        let (prom, found, h1) = >>=-eq-ok (read (a.get_prometheus key)) _ s h in
        let (is_default, decided, h2) =
          >>=-eq-ok (read (a.is_default (object_key prom.meta))) _ s h1 in
        let (svc, search, h3) =
          >>=-eq-ok (read (find_service_for_prometheus c (object_key prom.meta))) _ s h2 in
        let (items, listed, exposed) =
          find_service_for_prometheus-IsFirstExposed c (object_key prom.meta) s svc search in
        let (sa, granted, h4) = >>=-eq-ok (grant_access c a prom prom.meta.namespace) _ s h3 in
        let (created, patched) = grant_access-eq-ok prom s sa granted in
        let (_, _, h5) = >>=-eq-ok (create_preset c a.managed prom is_default) _ _ h4 in
        let (_, _, h6) = >>=-eq-ok (publish_default c a prom svc is_default) _ _ h5 in
        let (token, waited, h7) = >>=-eq-ok (await_token c a (object_key sa.meta)) _ _ h6 in
        let (before, seen, after, polled, is_ready) =
          IsReady-await_token c a (object_key sa.meta) later lawful _ token waited in
        let e : config_of a.host svc token ≡ cfg = ok-injective h7 in
        record {
          prom = prom;
          found = found;
          items = items;
          listed = listed;
          svc = svc;
          exposed = exposed;
          port = web_port_text svc.ports "";
          web = web_port_text-IsWebPortText svc.ports "";
          sa = sa;
          created = created;
          patched = patched;
          is_default = is_default;
          decided = decided;
          before = before;
          seen = seen;
          after = after;
          polled = polled;
          token = token;
          ready = is_ready;
          configured = sym e;
        }
