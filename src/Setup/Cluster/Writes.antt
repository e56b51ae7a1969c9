-- ===== src/Setup/Cluster/Writes.antt =====
-- Which patches `SetupClusterForPrometheus` makes, and in which order.
use rancid_syncer.Base.{
  String, ◌≡◌, refl, List, [], ◌∷◌, ◌++◌, Bool, true, false, not, ◌&&◌, if◌then◌else◌,
}
use rancid_syncer.Base.Outcome.{ok}
use rancid_syncer.Base.Effect.{pure, lift}
use rancid_syncer.Kube.{ObjectKey, Prometheus, Service, object_key}
use rancid_syncer.Setup.{
  Server, presets_monitoring, find_service_for_prometheus, create_cluster_preset,
  create_project_preset, create_preset, create_prometheus_app_binding,
  generate_preset_for_prometheus,
}
use rancid_syncer.Setup.Access.{Access, ServiceAccount, Role, RoleBinding}
use rancid_syncer.Setup.Token.{await_token}
use rancid_syncer.Setup.Cluster.{
  trickster, new_service_account, new_role, new_role_binding, change_service_account, change_role,
  change_role_binding, grant_access, publish_default, register_prometheus, config_of, setup_found,
  setup_cluster_for_prometheus,
}
use rancid_syncer.Setup.Cluster.Made.{
  Write, service_account, role, role_binding, cluster_preset, project_preset, app_binding, IsLog,
  IsMade, Makes, read-Makes, one-Makes, none-Makes, bind-Makes, end-Makes,
}

-- The patches for a Prometheus in a namespace.
abbrev access_plan : String → List Write
access_plan namespace =
    let key : ObjectKey = record { namespace = namespace; name = trickster } in
    service_account key ∷ role key ∷ role_binding key ∷ []

abbrev preset_plan : Bool → String → Bool → List Write
preset_plan managed namespace is_default =
    if managed && not is_default
    then project_preset (record { namespace = namespace; name = presets_monitoring }) ∷ []
    else cluster_preset (record { namespace = ""; name = presets_monitoring }) ∷ []

abbrev binding_plan : String → Bool → List Write
binding_plan namespace is_default =
    if is_default
    then app_binding (record { namespace = namespace; name = "default-prometheus" }) ∷ []
    else []

-- First the account, its role and the binding of both, then the presets, of the project for a
-- Prometheus of a Rancher project and of the cluster else, and last the AppBinding, if the
-- Prometheus is the default one.
abbrev pub setup_plan : Bool → String → Bool → List Write
setup_plan managed namespace is_default =
    access_plan namespace
    ++ (preset_plan managed namespace is_default ++ binding_plan namespace is_default)

module _ (c : Server) (a : Access c) (log : c.State → List Write) (logs : IsLog c a log) where
  grant_access-Makes :
      (prom : Prometheus) (namespace : String)
      → Makes log (access_plan namespace) (grant_access c a prom namespace)
  unfolding grant_access
  grant_access-Makes prom namespace =
      let key : ObjectKey = record { namespace = namespace; name = trickster } in
      let for_account = λ (obj : ServiceAccount). ok (change_service_account c a prom obj) in
      let for_role = λ (obj : Role). ok (change_role c a prom obj) in
      bind-Makes log (service_account key ∷ []) (role key ∷ role_binding key ∷ [])
        (a.patch_service_account (new_service_account namespace) for_account) _
        (one-Makes log _ (service_account key)
          (logs.service_accounts (new_service_account namespace) for_account))
        λ sa.
          bind-Makes log (role key ∷ []) (role_binding key ∷ [])
            (a.patch_role (new_role namespace) for_role) _
            (one-Makes log _ (role key) (logs.roles (new_role namespace) for_role))
            λ r.
              let bound = λ (obj : RoleBinding). ok (change_role_binding c a prom r.0 sa.0 obj) in
              end-Makes log (role_binding key ∷ [])
                (a.patch_role_binding (new_role_binding namespace) bound) _
                (one-Makes log _ (role_binding key)
                  (logs.role_bindings (new_role_binding namespace) bound))
                λ rb. none-Makes log (pure sa.0) (λ s. refl)

  create_preset-Makes :
      (prom : Prometheus) (is_default : Bool)
      → Makes log
          (preset_plan a.managed prom.meta.namespace is_default)
          (create_preset c a.managed prom is_default)
  unfolding create_preset create_cluster_preset create_project_preset
  create_preset-Makes prom is_default =
      bind-Makes log [] (preset_plan a.managed prom.meta.namespace is_default) _ _
        (none-Makes log (lift (c.marshal (generate_preset_for_prometheus c prom))) (λ s. refl))
        (λ bytes. chosen bytes a.managed is_default)
    where
      chosen :
          (bytes : String) (managed default : Bool)
          → Makes log (preset_plan managed prom.meta.namespace default) (
              if managed
              then (if default
                  then create_cluster_preset c bytes
                  else create_project_preset c prom bytes)
              else create_cluster_preset c bytes)
      chosen bytes true true = one-Makes log _ _ (logs.cluster_presets _ _)
      chosen bytes true false = one-Makes log _ _ (logs.project_presets _ _)
      chosen bytes false default = one-Makes log _ _ (logs.cluster_presets _ _)

  publish_default-Makes :
      (prom : Prometheus) (svc : Service) (is_default : Bool)
      → Makes log
          (binding_plan prom.meta.namespace is_default)
          (publish_default c a prom svc is_default)
  unfolding publish_default create_prometheus_app_binding register_prometheus
  publish_default-Makes prom svc true =
      let w : Write =
        app_binding (record { namespace = prom.meta.namespace; name = "default-prometheus" }) in
      bind-Makes log (w ∷ []) [] _ _ (one-Makes log _ w (logs.app_bindings _ _))
        λ created. registered created
    where
      registered :
          (created : Bool) → Makes log [] (if created then register_prometheus c a else pure tt)
      registered true = none-Makes log (pure tt) (λ s. refl)
      registered false = none-Makes log (pure tt) (λ s. refl)
  publish_default-Makes prom svc false = none-Makes log (pure tt) (λ s. refl)

  setup_found-Makes :
      (prom : Prometheus) (is_default : Bool)
      → Makes log
          (setup_plan a.managed prom.meta.namespace is_default)
          (setup_found c a prom is_default)
  unfolding setup_found await_token
  setup_found-Makes prom is_default =
      let ns = prom.meta.namespace in
      let presets = preset_plan a.managed ns is_default in
      let binding = binding_plan ns is_default in
      bind-Makes log [] (setup_plan a.managed ns is_default) _ _
        (read-Makes log (find_service_for_prometheus c (object_key prom.meta)))
        λ svc.
          bind-Makes log (access_plan ns) (presets ++ binding) _ _ (grant_access-Makes prom ns)
            λ sa. bind-Makes log presets binding _ _ (create_preset-Makes prom is_default) λ preset.
              end-Makes log binding _ _ (publish_default-Makes prom svc is_default) λ published.
                end-Makes log [] (await_token c a (object_key sa.meta)) _
                  (none-Makes log (await_token c a (object_key sa.meta)) (logs.waits _ _))
                  λ token. none-Makes log (pure (config_of a.host svc token)) (λ s. refl)

  -- With a log of the patches (`IsLog`), when the Prometheus of the key is read, and whether it is
  -- the default one: `SetupClusterForPrometheus` makes the patches of the plan in their order up to
  -- some point, and no others, and it has made all of them if it returns a configuration.
  pub setup_cluster_for_prometheus-IsMade :
      (key : ObjectKey) (prom : Prometheus) (is_default : Bool) (s : c.State)
      → a.get_prometheus key s ≡ ok prom
      → a.is_default (object_key prom.meta) s ≡ ok is_default
      → IsMade log
          (setup_plan a.managed prom.meta.namespace is_default)
          (log s)
          (setup_cluster_for_prometheus c a key s).0
          (log (setup_cluster_for_prometheus c a key s).1)
  unfolding setup_cluster_for_prometheus
  setup_cluster_for_prometheus-IsMade key prom is_default s e d =
      rw e (rw d (setup_found-Makes prom is_default s))
