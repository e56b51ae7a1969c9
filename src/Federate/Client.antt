-- ===== src/Federate/Client.antt =====
-- What the federation code calls: the API server through `client.Client` and `CreateOrPatch`, and
-- helpers of the libraries. All of it is a parameter.
use rancid_syncer.Base.{String, ◌≡◌, List, Option, some, Bool}
use rancid_syncer.Base.Dict.{lookup}
use rancid_syncer.Base.Outcome.{Outcome, ok}
use rancid_syncer.Base.Effect.{Effect}
use rancid_syncer.Kube.{
  Labels, ObjectKey, ObjectMeta, OwnerReference, GroupVersionKind, LabelSelector, Namespace,
  Service, Secret, Endpoints, ServiceMonitor, Prometheus, object_key,
}

-- `cu.CreateOrPatch`: the object with its name and namespace, and the change to make, which is told
-- whether the object is created. The returned value is what `assign` leaves in the object.
abbrev pub CreateOrPatch : Type 0 → Type 0 → Type 0
CreateOrPatch S A = A → (A → Bool → Outcome A) → Effect S A

pub record Client : Type 1 where
  pub State : Type 0
  pub Selector : Type 0
  -- Reads.
  pub get_service_monitor : ObjectKey → State → Outcome ServiceMonitor
  pub get_secret : ObjectKey → State → Outcome Secret
  pub get_endpoints : ObjectKey → State → Outcome Endpoints
  pub list_services : String → Selector → State → Outcome (List Service)
  pub list_namespaces : Selector → State → Outcome (List Namespace)
  pub list_prometheuses : State → Outcome (List Prometheus)
  pub list_service_monitors : Labels → State → Outcome (List ServiceMonitor)
  -- Writes.
  pub patch_service_monitor : CreateOrPatch State ServiceMonitor
  pub patch_service : CreateOrPatch State Service
  pub patch_endpoints : CreateOrPatch State Endpoints
  pub patch_secret : CreateOrPatch State Secret
  -- `clustermeta.IsRancherManaged` and `metav1.LabelSelectorAsSelector`.
  pub is_rancher_managed : Bool
  pub as_selector : Option LabelSelector → Outcome Selector
  pub matches : Selector → Labels → Bool
  -- `meta_util.LabelsForLabelSelector`, its first result; `meta_util.OverwriteKeys`;
  -- `metav1.NewControllerRef`.
  pub labels_for_selector : Option LabelSelector → Labels
  pub overwrite_keys : Labels → Labels → Labels
  pub controller_ref : ObjectMeta → GroupVersionKind → OwnerReference

-- `OverwriteKeys` writes the entries of its second argument over those of its first.
pub record IsOverwrite (c : Client) : Type 0 where
  pub lookup-overwrite_keys :
      (k : String) (out in_ : Labels)
      → lookup k (c.overwrite_keys out in_)
        ≡ (elim (lookup k in_) [ Option.none ↦ lookup k out | some v ↦ some v ])

-- What a successful `CreateOrPatch` returns was made by the change it was given, and is the object
-- of the name and namespace that it was given.
pub record IsPatching (c : Client) : Type 0 where
  pub service_monitor_changed :
      (obj : ServiceMonitor) (change : ServiceMonitor → Bool → Outcome ServiceMonitor)
      → (s : c.State) (done : ServiceMonitor) → (c.patch_service_monitor obj change s).0 ≡ ok done
      → (cur : ServiceMonitor) × (created : Bool) × (change cur created ≡ ok done)
  pub service_monitor_key :
      (obj : ServiceMonitor) (change : ServiceMonitor → Bool → Outcome ServiceMonitor)
      → (s : c.State) (done : ServiceMonitor) → (c.patch_service_monitor obj change s).0 ≡ ok done
      → object_key done.meta ≡ object_key obj.meta
