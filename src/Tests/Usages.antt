-- ===== src/Tests/Usages.antt =====
-- The use of one object that requests two resources and limits one of them.
use native.Mathlib.Nat.{ℕ_set}
use rancid_syncer.Base.{ℕ, String, ◌<>◌, text_lt, ◌≡◌, refl, [], ◌∷◌, none, false, true}
use rancid_syncer.Base.Dict.{Dict, lookup, has_key}
use rancid_syncer.Base.Outcome.{ok, err, not_found}
use rancid_syncer.Quota.Types.{Platform}
use rancid_syncer.Quota.Usage.{object_usage}
use rancid_syncer.Quota.Usage.Keys.{object_usage_lem}
use rancid_syncer.Tests.Machine.{machine, machine-IsRuntime}

abbrev platform : Platform
platform = record {
  State = Unit;
  Quantity = ℕ;
  Object = ℕ;
  server_groups_and_resources = λ s. ([], none);
  is_group_discovery_failed = λ e. false;
  parse_group_version = λ gv. err not_found;
  group_kind_text = λ gk. gk.kind <> "." <> gk.group;
  is_version = λ v. true;
  version_gt = λ a b. text_lt b a;
  list_namespaces = λ labels s. ok [];
  list_objects = λ gvk ns s. ok [];
  get_namespace = λ name s. err not_found;
  is_registered = λ gvk. true;
  app_resource_requests = λ cpu. ok (("cpu", cpu) ∷ ("memory", 8) ∷ []);
  app_resource_limits = λ cpu. ok (("cpu", 4) ∷ []);
  add_resource_list = λ a b. a;
}

object_usage_example :
    (usage : Dict ℕ) × (object_usage machine platform 2 ≡ ok usage)
    × ((k : String) → lookup ("requests." <> k) usage ≡ lookup k (("cpu", 2) ∷ ("memory", 8) ∷ []))
    × ((k : String) → lookup ("limits." <> k) usage ≡ lookup k (("cpu", 4) ∷ []))
    × ((key : String)
        → ((k : String) → ("requests." <> k) ≡ key → ⊥)
        → ((k : String) → ("limits." <> k) ≡ key → ⊥)
        → lookup key usage ≡ none)
unfolding has_key
object_usage_example =
    object_usage_lem machine machine-IsRuntime platform (hlevel ℕ_set) 2
      (("cpu", 2) ∷ ("memory", 8) ∷ []) (("cpu", 4) ∷ []) refl refl (refl, (refl, tt)) (refl, tt)
