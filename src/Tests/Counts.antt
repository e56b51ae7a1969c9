-- ===== src/Tests/Counts.antt =====
-- A project of two namespaces and quota entries on it.
use rancid_syncer.Base.{
  ℕ, ◌+◌, String, ◌<>◌, ◌≡◌, refl, List, [], ◌∷◌, true, false, none, some, ◌==◌, text_lt,
  if◌then◌else◌,
}
use rancid_syncer.Base.Dict.{Dict, lookup, insert}
use rancid_syncer.Base.Outcome.{ok}
use rancid_syncer.Kube.{new_meta, Namespace}
use rancid_syncer.Quota.Types.{
  ApiType, ApiResource, ApiResourceList, success, error, unset, Platform,
}
use rancid_syncer.Quota.Kinds.{
  list_kinds, add_lists, add_resources, has_slash, with_version, first_seen, sort_types,
  sort_versions,
}
use rancid_syncer.Quota.Usage.{
  used_quota, registered_version, add_objects, object_usage, put_all, uncalculated,
}
use rancid_syncer.Quota.Status.{QuotaStatus}
use rancid_syncer.Tests.Machine.{machine, insertion_sort, insert_sorted}

-- The objects of a namespace are the CPUs that they request.
abbrev pub Cluster : Type 0
Cluster = Dict (List ℕ)

abbrev add_one : String → ℕ → Dict ℕ → Dict ℕ
add_one k n m = elim (lookup k m) [ none ↦ insert k n m | some old ↦ insert k (old + n) m ]

abbrev pub add_all : Dict ℕ → Dict ℕ → Dict ℕ
add_all m [] = m
add_all m ((k, n) ∷ l) = add_all (add_one k n m) l

abbrev pub objects_in : String → Cluster → List ℕ
objects_in ns s = elim (lookup ns s) [ none ↦ [] | some objects ↦ objects ]

abbrev deployments : ApiResource
deployments = record { name = "deployments"; kind = "Deployment"; namespaced = true }

abbrev pub discovered : List ApiResourceList
discovered =
    record {
      group_version = "apps/v1";
      api_resources = deployments ∷ record deployments { name = "deployments/scale" } ∷ [];
    }
    ∷ record { group_version = "apps/v2"; api_resources = deployments ∷ [] }
    ∷ []

abbrev pub platform : Platform
platform = record {
  State = Cluster;
  Quantity = ℕ;
  Object = ℕ;
  server_groups_and_resources = λ s. (discovered, none);
  is_group_discovery_failed = λ e. false;
  parse_group_version = λ gv. ok ("apps", if gv == "apps/v1" then "v1" else "v2");
  group_kind_text = λ gk. gk.kind <> "." <> gk.group;
  is_version = λ v. true;
  version_gt = λ a b. text_lt b a;
  list_namespaces =
      λ labels s. ok (record { meta = new_meta "a" "" } ∷ record { meta = new_meta "b" "" } ∷ []);
  list_objects = λ gvk ns s. ok (objects_in ns s);
  get_namespace = λ name s. ok (record { meta = new_meta name "" });
  is_registered = λ gvk. true;
  app_resource_requests = λ cpu. ok (("cpu", cpu) ∷ []);
  app_resource_limits = λ cpu. ok [];
  add_resource_list = add_all;
}

abbrev pub cluster : Cluster
cluster = ("a", 2 ∷ 3 ∷ []) ∷ ("b", 4 ∷ []) ∷ []

abbrev deployment : ApiType
deployment = record {
  group = "apps";
  kind = "Deployment";
  resource = "deployments";
  versions = "v2" ∷ "v1" ∷ [];
  namespaced = true;
}

abbrev pub types : Dict ApiType
types = ("Deployment.apps", deployment) ∷ []

kinds_listed : list_kinds machine platform cluster ≡ ok types
unfolding list_kinds add_lists add_resources has_slash with_version first_seen sort_types
    sort_versions lookup insert insertion_sort insert_sorted
kinds_listed = refl

abbrev quota : QuotaStatus ℕ
quota = record { group = "apps"; kind = "Deployment"; hard = []; result = unset; used = [] }

abbrev namespaces : List Namespace
namespaces = record { meta = new_meta "a" "" } ∷ record { meta = new_meta "b" "" } ∷ []

used_a : used_quota machine platform "a" deployment cluster ≡ ok (("requests.cpu", 5) ∷ [], success)
unfolding used_quota registered_version add_objects object_usage put_all lookup insert
used_a = refl

known : lookup "Deployment.apps" types ≡ some deployment
unfolding lookup
known = refl

-- No calculator knows the kind, and only the first namespace has objects of it.
abbrev blind : Platform
blind = record platform { is_registered = λ gvk. false }

abbrev half : Cluster
half = ("a", 2 ∷ []) ∷ []

used_half_a : used_quota machine blind "a" deployment half ≡ ok ([], error)
unfolding used_quota registered_version uncalculated lookup
used_half_a = refl

used_half_b : used_quota machine blind "b" deployment half ≡ ok ([], success)
unfolding used_quota registered_version uncalculated lookup
used_half_b = refl
