-- ===== src/Tests/Quotas.antt =====
-- A ProjectQuota that is reconciled after an event in a namespace of its project.
use rancid_syncer.Base.{
  ℕ, String, ◌<>◌, text_lt, ◌≡◌, refl, subst, ap, [], ◌∷◌, true, false, Bool-cases, none, ◌==◌,
  eq_iff, inl, inr, if◌then◌else◌,
}
use rancid_syncer.Base.Dict.{lookup, insert}
use rancid_syncer.Base.Outcome.{Outcome, ok, err, not_found, ok-injective}
use rancid_syncer.Kube.{Namespace, new_meta}
use rancid_syncer.Quota.Types.{Platform}
use rancid_syncer.Quota.Kinds.{
  list_kinds, add_lists, add_resources, has_slash, with_version, first_seen, sort_types,
  sort_versions,
}
use rancid_syncer.Quota.Usage.{used_quota, registered_version, add_objects, object_usage, put_all}
use rancid_syncer.Quota.Status.{init_status, visit_quotas, visit_namespaces, calculate_status}
use rancid_syncer.Quota.Requests.{
  ProjectQuota, QuotaClient, update_quota, reconcile_quota, project_quota_for_objects,
}
use rancid_syncer.Quota.Requests.Counted.{
  IsQuotaClient, IsSelecting, IsCounted, quota_key, is_listed, project_quota_for_objects-IsCounted,
  reconcile_quota-IsCounted,
}
use rancid_syncer.Tests.Machine.{machine, insertion_sort, insert_sorted}
use rancid_syncer.Tests.Counts.{Cluster, cluster, discovered, objects_in, add_all}

record World : Type 0 where
  objects : Cluster
  quota : ProjectQuota ℕ

abbrev labelled : String → Namespace
labelled name = record {
  meta = record (new_meta name "") { labels = ("field.cattle.io/projectId", "p-demo") ∷ [] };
}

abbrev namespace_at : String → Outcome Namespace
namespace_at name = if name == "a" then ok (labelled "a") else err not_found

abbrev platform : Platform
platform = record {
  State = World;
  Quantity = ℕ;
  Object = ℕ;
  server_groups_and_resources = λ s. (discovered, none);
  is_group_discovery_failed = λ e. false;
  parse_group_version = λ gv. ok ("apps", if gv == "apps/v1" then "v1" else "v2");
  group_kind_text = λ gk. gk.kind <> "." <> gk.group;
  is_version = λ v. true;
  version_gt = λ a b. text_lt b a;
  list_namespaces = λ labels s. ok (labelled "a" ∷ labelled "b" ∷ []);
  list_objects = λ gvk ns s. ok (objects_in ns s.objects);
  get_namespace = λ name s. namespace_at name;
  is_registered = λ gvk. true;
  app_resource_requests = λ cpu. ok (("cpu", cpu) ∷ []);
  app_resource_limits = λ cpu. ok [];
  add_resource_list = add_all;
}

abbrev quotas : QuotaClient platform
quotas = record {
  get_project_quota = λ key s. ok s.quota;
  patch_status = λ pj change s. (ok tt, record s { quota = change s.quota });
}

quotas-IsQuotaClient : IsQuotaClient platform quotas
quotas-IsQuotaClient = record {
  patches = λ pj obj change s g h. ap (λ (x : ProjectQuota ℕ). ok (change x)) (ok-injective g);
}

namespace_at-listed :
    (name id : String) (ns : Namespace)
    → namespace_at name ≡ ok ns
    → is_listed name (labelled "a" ∷ labelled "b" ∷ []) ≡ true
namespace_at-listed name id ns h = elim (Bool-cases (name == "a")) [
  | inl e ↦ rw ((eq_iff name "a").0 e) refl
  | inr d ↦ cc (rw d at h)
]

platform-IsSelecting : IsSelecting platform
platform-IsSelecting = record {
  lists = λ name id ns items s g l h.
      subst (λ x. is_listed name x ≡ true) (ok-injective h) (namespace_at-listed name id ns g);
}

abbrev demo : ProjectQuota ℕ
demo = record {
  meta = new_meta "p-demo" "";
  spec = record { group = "apps"; kind = "Deployment"; hard = [] } ∷ [];
  status = [];
}

abbrev world : World
world = record { objects = cluster; quota = demo }

reconciled : (reconcile_quota machine platform quotas (quota_key "p-demo") world).0 ≡ ok tt
unfolding reconcile_quota update_quota calculate_status list_kinds add_lists add_resources has_slash
    with_version first_seen sort_types sort_versions lookup insert insertion_sort insert_sorted
    visit_namespaces visit_quotas used_quota registered_version add_objects object_usage put_all
reconciled = refl

reconcile_quota_example :
    IsCounted machine platform quotas
      (quota_key "p-demo")
      demo
      world
      (reconcile_quota machine platform quotas (quota_key "p-demo") world).1
unfolding init_status
reconcile_quota_example =
    reconcile_quota-IsCounted machine platform quotas quotas-IsQuotaClient (quota_key "p-demo") demo
      world refl refl (refl, refl, tt) reconciled

event_example :
    (project_quota_for_objects platform "a" world ≡ ok (quota_key "p-demo" ∷ []))
    × (c : IsCounted machine platform quotas
        (quota_key "p-demo")
        demo
        world
        (reconcile_quota machine platform quotas (quota_key "p-demo") world).1)
    × (is_listed "a" c.items ≡ true)
unfolding lookup init_status
event_example =
    project_quota_for_objects-IsCounted machine platform quotas quotas-IsQuotaClient
      platform-IsSelecting "a" "p-demo" (labelled "a") demo world refl refl refl refl refl
      (refl, refl, tt) reconciled
