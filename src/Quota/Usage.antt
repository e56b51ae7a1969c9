-- ===== src/Quota/Usage.antt =====
-- `UsedQuota`: what the objects of one kind in one namespace request and are limited to.
pub mod Keys
use Prim.Native.String.{String, ◌++◌ as ◌<>◌}
use rancid_syncer.Base.{List, [], ◌∷◌, Option, none, some, Bool, if◌then◌else◌}
use rancid_syncer.Base.Dict.{Dict, insert}
use rancid_syncer.Base.Outcome.{Outcome, ok, err, panic, failure, ◌>>=◌}
use rancid_syncer.Base.Runtime.{Runtime}
use rancid_syncer.Kube.{GroupVersionKind}
use rancid_syncer.Quota.Types.{ApiType, QuotaResult, success, error, Platform}

abbrev pub gvk_of : ApiType → String → GroupVersionKind
gvk_of t version = record { group = t.group; version = version; kind = t.kind }

-- `for k, v := range m { usage[prefix+k] = v }`
unfoldable pub put_all {ℓ} : {V : Type ℓ} → String → Dict V → Dict V → Dict V
put_all prefix [] usage = usage
put_all prefix ((k, v) ∷ m) usage = put_all prefix m (insert (prefix <> k) v usage)

-- The first version that the calculators know; the loop ends there.
unfoldable pub registered_version :
    (GroupVersionKind → Bool) → ApiType → List String → Option String
registered_version known t [] = none
registered_version known t (version ∷ versions) =
    if known (gvk_of t version) then some version else registered_version known t versions

module _ (go : Runtime) (q : Platform) where
  -- The use of one object.
  unfoldable pub object_usage : q.Object → Outcome (Dict q.Quantity)
  unfolding put_all
  object_usage obj = do
    requests ← q.app_resource_requests obj
    limits ← q.app_resource_limits obj
    ok (put_all "limits." (go.range limits) (put_all "requests." (go.range requests) []))

  unfoldable pub add_objects : List q.Object → Dict q.Quantity → Outcome (Dict q.Quantity)
  unfolding object_usage
  add_objects [] used = ok used
  add_objects (obj ∷ items) used = do
    usage ← object_usage obj
    add_objects items (q.add_resource_list used usage)

  -- With no calculator for any version: an error result if there are objects. `versions[0]` of an
  -- empty list panics.
  unfoldable pub uncalculated :
      String → ApiType → List String → q.State → Outcome (Dict q.Quantity × QuotaResult)
  uncalculated ns t [] s = panic "index out of range [0] with length 0"
  uncalculated ns t (version ∷ _) s = do
    items ← q.list_objects (gvk_of t version) ns s
    ok (elim items [ [] ↦ ([], success) | _ ∷ _ ↦ ([], error) ])

  unfoldable pub used_quota : String → ApiType → q.State → Outcome (Dict q.Quantity × QuotaResult)
  unfolding registered_version add_objects uncalculated
  used_quota ns t s =
      if t.namespaced
      then (elim (registered_version q.is_registered t t.versions) [
        | some version ↦ do
          items ← q.list_objects (gvk_of t version) ns s
          used ← add_objects items []
          ok (used, success)
        | none ↦ uncalculated ns t t.versions s
      ])
      else err (failure "can't apply quota for non-namespaced resources")
