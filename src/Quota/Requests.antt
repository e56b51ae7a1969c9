-- ===== src/Quota/Requests.antt =====
-- `Reconcile` of the project quotas, and `ProjectQuotaForObjects`, which maps an event to requests.
pub mod Counted
use rancid_syncer.Base.{String, List, [], ◌∷◌, none, some, ◌==◌, ◌⊎◌, inl, inr, if◌then◌else◌}
use rancid_syncer.Base.Dict.{lookup}
use rancid_syncer.Base.Outcome.{Outcome, ok, err, panic, Error, is_not_found}
use rancid_syncer.Base.Effect.{Effect, pure, throw, read, try, ◌>>=◌}
use rancid_syncer.Base.Runtime.{Runtime}
use rancid_syncer.Kube.{ObjectKey, ObjectMeta}
use rancid_syncer.Quota.Types.{Platform}
use rancid_syncer.Quota.Status.{QuotaSpec, QuotaStatus, calculate_status, project_id_label}

pub record ProjectQuota (Q : Type 0) : Type 0 where
  pub meta : ObjectMeta
  pub spec : List (QuotaSpec Q)
  pub status : List (QuotaStatus Q)

-- `r.Get`, and `cu.PatchStatus` with the change that it makes.
pub record QuotaClient (q : Platform) : Type 0 where
  pub get_project_quota : ObjectKey → q.State → Outcome (ProjectQuota q.Quantity)
  pub patch_status :
      ProjectQuota q.Quantity
      → (ProjectQuota q.Quantity → ProjectQuota q.Quantity)
      → Effect q.State (Unit {0})

module _ (go : Runtime) (q : Platform) (kc : QuotaClient q) where
  unfoldable pub update_quota : ProjectQuota q.Quantity → Effect q.State (Unit {0})
  unfolding calculate_status
  update_quota pj = do
    quotas ← read (calculate_status go q pj.meta.name pj.spec)
    kc.patch_status (record pj { status = quotas }) (λ obj. record obj { status = quotas })

  abbrev quota_found : Error ⊎ ProjectQuota q.Quantity → Effect q.State (Unit {0})
  quota_found (inl e) = if is_not_found e then pure tt else throw e
  quota_found (inr pj) = update_quota pj

  unfoldable pub reconcile_quota : ObjectKey → Effect q.State (Unit {0})
  reconcile_quota req = do found ← try (read (kc.get_project_quota req)); quota_found found

-- The requests for an object in the namespace. An error is logged, and there are no requests.
unfoldable pub project_quota_for_objects :
    (q : Platform) → String → q.State → Outcome (List ObjectKey)
project_quota_for_objects q namespace s =
    if namespace == "" then ok [] else (elim (q.get_namespace namespace s) [
      | err _ ↦ ok []
      | panic m ↦ panic m
      | ok ns ↦ elim (lookup project_id_label ns.meta.labels) [
        | none ↦ ok []
        | some id ↦ ok (record { namespace = ""; name = id } ∷ [])
      ]
    ])
