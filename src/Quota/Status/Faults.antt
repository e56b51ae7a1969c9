-- ===== src/Quota/Status/Faults.antt =====
-- Where the totals of `CalculateStatus` are not sums over the namespaces.
use rancid_syncer.Base.{String, ◌≡◌, refl, [], ◌∷◌, none, some, false, arith, ◌==◌, eq_refl}
use rancid_syncer.Base.Dict.{Dict, lookup}
use rancid_syncer.Base.Outcome.{ok}
use rancid_syncer.Base.Runtime.{Runtime}
use rancid_syncer.Kube.{Namespace}
use rancid_syncer.Quota.Types.{ApiType, QuotaResult, success, error, Platform}
use rancid_syncer.Quota.Usage.{used_quota}
use rancid_syncer.Quota.Status.{
  QuotaStatus, quota_kind, Counted, NsUsed, find_used, add_kind, visit_quota, visit_quotas,
  visit_namespaces,
}

module _ (go : Runtime) (q : Platform) where
  -- An entry that has not been counted in this namespace.
  visit_quota_counted :
      (types : Dict ApiType) (s : q.State) (ns : String) (quota : QuotaStatus q.Quantity)
      → (ns_used : NsUsed q.Quantity) (used : Dict q.Quantity) (t : ApiType) (r : QuotaResult)
      → find_used (quota_kind quota) ns_used ≡ none
      → (quota.kind == "") ≡ false
      → lookup (q.group_kind_text (quota_kind quota)) types ≡ some t
      → used_quota go q ns t s ≡ ok (used, r)
      → visit_quota go q ns types quota ns_used s
        ≡ ok (
          record quota { used = q.add_resource_list quota.used used; result = r },
          (quota_kind quota, record { result = r; used = used }) ∷ ns_used,
        )
  unfolding visit_quota add_kind
  visit_quota_counted types s ns quota ns_used used t r fresh named known counted =
      rw (fresh, visit_quota) (rw named (rw (known, add_kind) (rw counted)))

  find_used_last :
      (quota : QuotaStatus q.Quantity) (ns_used : NsUsed q.Quantity) (c : Counted q.Quantity)
      → find_used (quota_kind quota) ((quota_kind quota, c) ∷ ns_used) ≡ some c
  unfolding find_used
  find_used_last quota ns_used c = ground (arith, eq_refl quota.group, eq_refl quota.kind)

  -- An entry whose kind is the last that was counted.
  visit_quota_found :
      (types : Dict ApiType) (s : q.State) (ns : String) (quota : QuotaStatus q.Quantity)
      → (ns_used : NsUsed q.Quantity) (c : Counted q.Quantity)
      → visit_quota go q ns types quota ((quota_kind quota, c) ∷ ns_used) s
        ≡ ok (record quota { used = c.used; result = c.result }, (quota_kind quota, c) ∷ ns_used)
  unfolding visit_quota
  visit_quota_found types s ns quota ns_used c =
      rw (find_used_last quota ns_used c, visit_quota) refl

  -- Of two entries of one kind the second takes over the use in the namespace at hand. What it had
  -- counted in the namespaces before, `old`, is lost.
  pub visit_quotas_duplicate :
      (types : Dict ApiType) (s : q.State) (ns : String) (quota : QuotaStatus q.Quantity)
      → (old used : Dict q.Quantity) (t : ApiType) (r : QuotaResult) → (quota.kind == "") ≡ false
      → lookup (q.group_kind_text (quota_kind quota)) types ≡ some t
      → used_quota go q ns t s ≡ ok (used, r)
      → visit_quotas go q ns types (quota ∷ record quota { used = old } ∷ []) [] s
        ≡ ok (
            record quota { used = q.add_resource_list quota.used used; result = r }
            ∷ record quota { used = used; result = r }
            ∷ [])
  unfolding visit_quotas find_used
  visit_quotas_duplicate types s ns quota old used t r named known counted =
      rw (visit_quota_counted types s ns quota [] used t r refl named known counted) (
        rw (
          visit_quota_found types s ns (record quota { used = old }) []
            (record { result = r; used = used })))

  -- The result of an entry with a kind is that of the last namespace: after a namespace that could
  -- not be counted, one that could turns it to Success.
  pub visit_namespaces_overwritten :
      (types : Dict ApiType) (s : q.State) (first second : Namespace)
      → (quota : QuotaStatus q.Quantity) (used used' : Dict q.Quantity) (t : ApiType)
      → (quota.kind == "") ≡ false
      → lookup (q.group_kind_text (quota_kind quota)) types ≡ some t
      → used_quota go q first.meta.name t s ≡ ok (used, error)
      → used_quota go q second.meta.name t s ≡ ok (used', success)
      → visit_namespaces go q (first ∷ second ∷ []) types (quota ∷ []) s
        ≡ ok (
            record quota {
              used = q.add_resource_list (q.add_resource_list quota.used used) used';
              result = success;
            }
            ∷ [])
  unfolding visit_namespaces visit_quotas find_used
  visit_namespaces_overwritten types s first second quota used used' t named known a b =
      rw (visit_quota_counted types s first.meta.name quota [] used t error refl named known a) (
        rw (
          visit_quota_counted types s second.meta.name
            (record quota { used = q.add_resource_list quota.used used; result = error }) [] used' t
            success refl named known b))
