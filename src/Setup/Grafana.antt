-- ===== src/Setup/Grafana.antt =====
-- main.go: `CreateGrafanaAppBinding`, the AppBinding of Grafana and the secret with its token.
pub mod Laws
use rancid_syncer.Base.{String, ◌<>◌, List, [], ◌∷◌, Option, none, some, Bool, ◌⊎◌, inl, inr}
use rancid_syncer.Base.Dict.{insert}
use rancid_syncer.Base.Outcome.{Outcome, ok, err, panic}
use rancid_syncer.Base.Effect.{Effect, pure, try, ◌>>=◌}
use rancid_syncer.Kube.{GroupVersionKind, ObjectKey, ObjectMeta, new_meta}
use rancid_syncer.Setup.{Server}
use rancid_syncer.Setup.Access.{Access, GrafanaBinding, AuthSecret}

-- `mona.GrafanaConfig`, with the fields that are read.
pub record GrafanaConfig : Type 0 where
  pub url : String
  pub bearer_token : String

abbrev pub app_binding_gvk : GroupVersionKind
app_binding_gvk = record {
  group = "appcatalog.appscode.com";
  version = "v1alpha1";
  kind = "AppBinding";
}

abbrev pub new_grafana_binding : String → GrafanaBinding
new_grafana_binding namespace = record {
  meta = new_meta "default-grafana" namespace;
  type = "";
  app_ref = none;
  url = "";
  secret = none;
  parameters = "";
}

abbrev pub new_auth_secret : String → String → AuthSecret
new_auth_secret name namespace = record { meta = new_meta name namespace; string_content = [] }

-- An error of `json.Marshal` is a panic.
abbrev pub with_parameters : Outcome String → (String → GrafanaBinding) → Outcome GrafanaBinding
with_parameters (ok raw) f = ok (f raw)
with_parameters (err e) f = panic "json.Marshal"
with_parameters (panic m) f = panic m

module _ (c : Server) (a : Access c) where
  unfoldable pub change_grafana_binding : GrafanaConfig → GrafanaBinding → Outcome GrafanaBinding
  change_grafana_binding config obj = with_parameters a.marshal_parameters λ raw. record {
    meta = record obj.meta {
      annotations = insert "monitoring.appscode.com/is-default-grafana" "true" obj.meta.annotations;
    };
    type = "Grafana";
    app_ref = none;
    url = config.url;
    secret = some ("default-grafana" <> "-auth");
    parameters = raw;
  }

  unfoldable pub change_auth_secret : GrafanaConfig → ObjectMeta → AuthSecret → AuthSecret
  change_auth_secret config binding obj = record {
    meta = record obj.meta { owner_references = a.controller_ref binding app_binding_gvk ∷ [] };
    string_content = ("token", config.bearer_token) ∷ [];
  }

  -- The result tells whether the AppBinding was created. What the patch of the secret returns is
  -- only logged.
  unfoldable pub create_grafana_app_binding : ObjectKey → GrafanaConfig → Effect c.State Bool
  unfolding change_grafana_binding change_auth_secret
  create_grafana_app_binding key config = do
    binding ←
        a.patch_grafana_binding (new_grafana_binding key.namespace) (change_grafana_binding config)
    secret ← try (
        a.patch_auth_secret (new_auth_secret (binding.0.meta.name <> "-auth") key.namespace)
          (λ obj. ok (change_auth_secret config binding.0.meta obj)))
    pure binding.1
