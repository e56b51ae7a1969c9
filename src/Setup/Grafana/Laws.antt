-- ===== src/Setup/Grafana/Laws.antt =====
-- The error that `CreateGrafanaAppBinding` loses.
use rancid_syncer.Base.{String, ◌<>◌, ◌≡◌, refl, sym, ap, ◌∙◌, some, Bool}
use rancid_syncer.Base.Outcome.{Outcome, ok, ok-injective, err, panic, Error}
use rancid_syncer.Kube.{ObjectKey}
use rancid_syncer.Setup.{Server}
use rancid_syncer.Setup.Access.{Access, GrafanaBinding}
use rancid_syncer.Setup.Grafana.{
  GrafanaConfig, new_grafana_binding, new_auth_secret, with_parameters, change_grafana_binding,
  change_auth_secret, create_grafana_app_binding,
}

with_parameters-secret :
    (r : Outcome String) (f : String → GrafanaBinding) (binding : GrafanaBinding) {name : String}
    → ((raw : String) → (f raw).secret ≡ some name)
    → with_parameters r f ≡ ok binding
    → binding.secret ≡ some name
with_parameters-secret (ok raw) f binding p e =
    ap (λ (x : GrafanaBinding). x.secret) (sym (ok-injective e)) ∙ p raw
with_parameters-secret (err x) f binding p e = cc
with_parameters-secret (panic m) f binding p e = cc

module _ (c : Server) (a : Access c) (key : ObjectKey) (config : GrafanaConfig) where
  -- The secret that a patched AppBinding names.
  change_grafana_binding-secret :
      (obj binding : GrafanaBinding)
      → change_grafana_binding c a config obj ≡ ok binding
      → binding.secret ≡ some "default-grafana-auth"
  unfolding change_grafana_binding
  change_grafana_binding-secret obj binding h =
      with_parameters-secret a.marshal_parameters _ binding (λ raw. refl) h

  -- If the AppBinding was patched under its own name and the patch of the secret that it names
  -- fails, then `CreateGrafanaAppBinding` returns no error.
  create_grafana_app_binding-lost :
      (obj binding : GrafanaBinding) (created : Bool) (e : Error) (s s1 s2 : c.State)
      → change_grafana_binding c a config obj ≡ ok binding
      → binding.meta.name ≡ "default-grafana"
      → a.patch_grafana_binding
          (new_grafana_binding key.namespace)
          (change_grafana_binding c a config)
          s
        ≡ (ok (binding, created), s1)
      → a.patch_auth_secret
          (new_auth_secret (binding.meta.name <> "-auth") key.namespace)
          (λ x. ok (change_auth_secret c a config binding.meta x))
          s1
        ≡ (err e, s2)
      → (binding.secret ≡ some (binding.meta.name <> "-auth"))
        × (create_grafana_app_binding c a key config s ≡ (ok created, s2))
  unfolding create_grafana_app_binding
  create_grafana_app_binding-lost obj binding created e s s1 s2 h n p q =
      (rw n (change_grafana_binding-secret obj binding h), rw p (rw q refl))
