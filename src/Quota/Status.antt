-- ===== src/Quota/Status.antt =====
-- `CalculateStatus`: the use of each quota entry, added up over the namespaces of the project.
pub mod Counting
pub mod Faults
use rancid_syncer.Base.{
  String, List, [], ◌∷◌, ◌++◌, map, Option, none, some, Bool, ◌==◌, ◌||◌, if◌then◌else◌,
}
use rancid_syncer.Base.Dict.{Dict, lookup}
use rancid_syncer.Base.Outcome.{Outcome, ok, err, failure, ◌>>=◌}
use rancid_syncer.Base.Runtime.{Runtime}
use rancid_syncer.Kube.{Namespace}
use rancid_syncer.Quota.Types.{
  ApiType, type_kind, GroupKind, group_kind_eq, QuotaResult, unset, success, error, is_error,
  Platform,
}
use rancid_syncer.Quota.Kinds.{list_kinds}
use rancid_syncer.Quota.Usage.{used_quota}

-- `ResourceQuotaSpec` and `ResourceQuotaStatus`. The reconciler does not read `hard`.
pub record QuotaSpec (Q : Type 0) : Type 0 where
  pub group : String
  pub kind : String
  pub hard : Dict Q

pub record QuotaStatus (Q : Type 0) : Type 0 where
  pub group : String
  pub kind : String
  pub hard : Dict Q
  pub result : QuotaResult
  pub used : Dict Q

abbrev pub quota_kind : {Q : Type 0} → QuotaStatus Q → GroupKind
quota_kind quota = record { group = quota.group; kind = quota.kind }

-- `type status struct`
pub record Counted (Q : Type 0) : Type 0 where
  pub result : QuotaResult
  pub used : Dict Q

-- `nsUsed`, a map from `schema.GroupKind`. A later entry is put in front.
abbrev pub NsUsed : Type 0 → Type 0
NsUsed Q = List (GroupKind × Counted Q)

unfoldable pub find_used : {Q : Type 0} → GroupKind → NsUsed Q → Option (Counted Q)
find_used gk [] = none
find_used gk ((k, u) ∷ ns_used) = if group_kind_eq k gk then some u else find_used gk ns_used

unfoldable pub init_status : {Q : Type 0} → QuotaSpec Q → QuotaStatus Q
init_status spec = record {
  group = spec.group;
  kind = spec.kind;
  hard = spec.hard;
  result = unset;
  used = [];
}

-- The label `field.cattle.io/projectId`.
abbrev pub project_id_label : String
project_id_label = "field.cattle.io/projectId"

module _ (go : Runtime) (q : Platform) where
  abbrev Quotas : Type 0
  Quotas = List (QuotaStatus q.Quantity)

  -- The usage of a type for a group entry: from the map, or computed and stored. It is stored under
  -- the kind of the entry, `gk`, and not under that of the type.
  unfoldable pub type_usage :
      String
      → GroupKind
      → ApiType
      → NsUsed q.Quantity
      → q.State
      → Outcome (Counted q.Quantity × NsUsed q.Quantity)
  unfolding used_quota
  type_usage ns gk t ns_used s = elim (find_used (type_kind t) ns_used) [
    | some used ↦ ok (used, ns_used)
    | none ↦ do
      r ← used_quota go q ns t s
      let counted : Counted q.Quantity = record { result = r.1; used = r.0 }
      ok (counted, (gk, counted) ∷ ns_used)
  ]

  unfoldable pub add_counted : QuotaStatus q.Quantity → Counted q.Quantity → QuotaStatus q.Quantity
  add_counted quota c = record quota {
    used = q.add_resource_list quota.used c.used;
    result = if is_error quota.result || is_error c.result then error else success;
  }

  -- `for _, typeInfo := range apiTypes`, for an entry with no kind.
  unfoldable pub add_group :
      String
      → GroupKind
      → List (String × ApiType)
      → QuotaStatus q.Quantity
      → NsUsed q.Quantity
      → q.State
      → Outcome (QuotaStatus q.Quantity × NsUsed q.Quantity)
  unfolding type_usage add_counted
  add_group ns gk [] quota ns_used s = ok (quota, ns_used)
  add_group ns gk ((_, t) ∷ types) quota ns_used s =
      let skipped = add_group ns gk types quota ns_used s in
      let counted = λ (r : Counted q.Quantity × NsUsed q.Quantity).
        add_group ns gk types (add_counted quota r.0) r.1 s in
      if t.group == quota.group then (type_usage ns gk t ns_used s >>= counted) else skipped

  -- An entry with a kind.
  unfoldable pub add_kind :
      String
      → Dict ApiType
      → QuotaStatus q.Quantity
      → NsUsed q.Quantity
      → q.State
      → Outcome (QuotaStatus q.Quantity × NsUsed q.Quantity)
  unfolding used_quota
  add_kind ns types quota ns_used s = elim (lookup (q.group_kind_text (quota_kind quota)) types) [
    | none ↦ err (failure "can't detect api type info")
    | some t ↦ do
      r ← used_quota go q ns t s
      ok (
        record quota { used = q.add_resource_list quota.used r.0; result = r.1 },
        (quota_kind quota, record { result = r.1; used = r.0 }) ∷ ns_used,
      )
  ]

  -- The body of the inner loop.
  unfoldable pub visit_quota :
      String
      → Dict ApiType
      → QuotaStatus q.Quantity
      → NsUsed q.Quantity
      → q.State
      → Outcome (QuotaStatus q.Quantity × NsUsed q.Quantity)
  unfolding find_used add_group add_kind
  visit_quota ns types quota ns_used s = elim (find_used (quota_kind quota) ns_used) [
    | some u ↦ ok (record quota { used = u.used; result = u.result }, ns_used)
    | none ↦
        if quota.kind == ""
        then add_group ns (quota_kind quota) (go.range types) quota ns_used s
        else add_kind ns types quota ns_used s
  ]

  -- `for i, quota := range pj.Status.Quotas`, each entry written back to its place.
  unfoldable pub visit_quotas :
      String → Dict ApiType → Quotas → NsUsed q.Quantity → q.State → Outcome Quotas
  unfolding visit_quota
  visit_quotas ns types [] ns_used s = ok []
  visit_quotas ns types (quota ∷ quotas) ns_used s = do
    r ← visit_quota ns types quota ns_used s
    rest ← visit_quotas ns types quotas r.1 s
    ok (r.0 ∷ rest)

  -- `for _, ns := range nsList.Items`
  unfoldable pub visit_namespaces :
      List Namespace → Dict ApiType → Quotas → q.State → Outcome Quotas
  unfolding visit_quotas
  visit_namespaces [] types quotas s = ok quotas
  visit_namespaces (ns ∷ items) types quotas s = do
    next ← visit_quotas ns.meta.name types quotas [] s
    visit_namespaces items types next s

  -- The new `pj.Status.Quotas`.
  unfoldable pub calculate_status : String → List (QuotaSpec q.Quantity) → q.State → Outcome Quotas
  unfolding list_kinds visit_namespaces init_status
  calculate_status project specs s = do
    items ← q.list_namespaces ((project_id_label, project) ∷ []) s
    types ← list_kinds go q s
    visit_namespaces items types (map init_status specs) s
