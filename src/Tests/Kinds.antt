-- ===== src/Tests/Kinds.antt =====
-- Discovery of a kind with two versions and of its subresource.
use rancid_syncer.Base.{ℕ, String, ◌≡◌, refl, true, false, none, arith, ltb, ◌==◌, if◌then◌else◌}
use rancid_syncer.Base.Dict.{lookup, insert}
use rancid_syncer.Base.Outcome.{ok}
use rancid_syncer.Base.Runtime.{IsOrder}
use rancid_syncer.Quota.Types.{Platform}
use rancid_syncer.Quota.Kinds.{
  list_kinds, add_lists, add_resources, has_slash, with_version, first_seen, sort_types,
  sort_versions,
}
use rancid_syncer.Quota.Kinds.Discovered.{IsDiscovered, found_by, list_kinds-IsDiscovered}
use rancid_syncer.Tests.Machine.{machine, machine-IsRuntime, insertion_sort, insert_sorted}
use rancid_syncer.Tests.Counts.{platform, cluster, discovered, types}

abbrev rank : String → ℕ
rank version = if version == "v2" then 2 else if version == "v1" then 1 else 0

abbrev ranked : Platform
ranked = record platform { version_gt = λ a b. ltb (rank b) (rank a) }

rank_order : (a b : ℕ) → ltb b a ≡ true → ltb a b ≡ false
rank_order a b h = ground arith

rank_trans : (a b c : ℕ) → ltb a b ≡ false → ltb b c ≡ false → ltb a c ≡ false
rank_trans a b c h k = ground arith

ranked-IsOrder : IsOrder ranked.version_gt
ranked-IsOrder = record {
  asymmetric = λ a b. rank_order (rank a) (rank b);
  transitive = λ a b c. rank_trans (rank a) (rank b) (rank c);
}

listed : list_kinds machine ranked cluster ≡ ok types
unfolding list_kinds add_lists add_resources has_slash with_version first_seen sort_types
    sort_versions lookup insert insertion_sort insert_sorted
listed = refl

list_kinds-IsDiscovered_example :
    IsDiscovered ranked
      (found_by machine ranked "Deployment.apps" discovered)
      (lookup "Deployment.apps" types)
list_kinds-IsDiscovered_example =
    list_kinds-IsDiscovered machine machine-IsRuntime ranked ranked-IsOrder "Deployment.apps"
      cluster discovered none types refl tt listed
