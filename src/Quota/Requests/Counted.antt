-- ===== src/Quota/Requests/Counted.antt =====
-- What `Reconcile` leaves as the status of a ProjectQuota, from the event that led to it.
use rancid_syncer.Base.{
  String, ◌≡◌, refl, sym, ◌∙◌, ap, subst, List, [], ◌∷◌, map, some, Bool, false, true, ◌==◌, any,
}
use rancid_syncer.Base.Dict.{Dict, lookup}
use rancid_syncer.Base.Outcome.{Outcome, ok, err, ok-injective}
use rancid_syncer.Base.Outcome
use rancid_syncer.Base.Effect.{read, >>=-eq-ok}
use rancid_syncer.Base.Runtime.{Runtime}
use rancid_syncer.Kube.{Namespace, ObjectKey, object_key}
use rancid_syncer.Quota.Types.{ApiType, Platform, unset}
use rancid_syncer.Quota.Kinds.{list_kinds}
use rancid_syncer.Quota.Status.{
  QuotaSpec, QuotaStatus, init_status, quota_kind, calculate_status, project_id_label,
}
use rancid_syncer.Quota.Status.Counting.{AreDistinct, count_all, visit_namespaces-eq-count_all}
use rancid_syncer.Quota.Requests.{
  ProjectQuota, QuotaClient, update_quota, reconcile_quota, project_quota_for_objects,
}

-- A patch of the status that returns no error stores the changed object.
pub record IsQuotaClient (q : Platform) (kc : QuotaClient q) : Type 0 where
  pub patches :
      (pj obj : ProjectQuota q.Quantity)
      → (change : ProjectQuota q.Quantity → ProjectQuota q.Quantity) (s : q.State)
      → kc.get_project_quota (object_key pj.meta) s ≡ ok obj
      → (kc.patch_status pj change s).0 ≡ ok tt
      → kc.get_project_quota (object_key pj.meta) (kc.patch_status pj change s).1 ≡ ok (change obj)

-- The entry with its group, its kind and its limits, with no use counted.
abbrev pub uncounted : {Q : Type 0} → QuotaSpec Q → QuotaStatus Q
uncounted spec = record {
  group = spec.group;
  kind = spec.kind;
  hard = spec.hard;
  result = unset;
  used = [];
}

abbrev pub project_labels : String → Dict String
project_labels id = (project_id_label, id) ∷ []

abbrev pub is_listed : String → List Namespace → Bool
is_listed name = any (λ (x : Namespace). x.meta.name == name)

-- The key of the quota of a project, which has no namespace.
abbrev pub quota_key : String → ObjectKey
quota_key id = record { namespace = ""; name = id }

-- A listing by the label of a project has every namespace with that label.
pub record IsSelecting (q : Platform) : Type 0 where
  pub lists :
      (name id : String) (ns : Namespace) (items : List Namespace) (s : q.State)
      → q.get_namespace name s ≡ ok ns
      → lookup project_id_label ns.meta.labels ≡ some id
      → q.list_namespaces (project_labels id) s ≡ ok items
      → is_listed name items ≡ true

module _ (go : Runtime) (q : Platform) (kc : QuotaClient q) where
  -- The status stored under the key is the count of the quota's entries over the namespaces of the
  -- project.
  pub record IsCounted (key : ObjectKey) (pj : ProjectQuota q.Quantity) (s after : q.State)
      : Type 0 where
    pub items : List Namespace
    pub listed : q.list_namespaces (project_labels pj.meta.name) s ≡ ok items
    pub types : Dict ApiType
    pub detected : list_kinds go q s ≡ ok types
    pub quotas : List (QuotaStatus q.Quantity)
    pub counted : count_all go q types s items (map uncounted pj.spec) ≡ ok quotas
    pub stored : kc.get_project_quota key after ≡ ok (record pj { status = quotas })

  module _ (lawful : IsQuotaClient q kc) where
    update_quota-IsCounted :
        (pj : ProjectQuota q.Quantity) (s : q.State)
        → kc.get_project_quota (object_key pj.meta) s ≡ ok pj
        → AreDistinct (map quota_kind (map uncounted pj.spec))
        → (update_quota go q kc pj s).0 ≡ ok tt
        → IsCounted (object_key pj.meta) pj s (update_quota go q kc pj s).1
    unfolding update_quota calculate_status init_status
    update_quota-IsCounted pj s g d h =
        let (quotas, e, h1) = >>=-eq-ok (read (calculate_status go q pj.meta.name pj.spec)) _ s h in
        let (items, listed, e1) =
          Outcome.>>=-eq-ok (q.list_namespaces (project_labels pj.meta.name) s) _ e in
        let (types, detected, e2) = Outcome.>>=-eq-ok (list_kinds go q s) _ e1 in
        rw e record {
          items = items;
          listed = listed;
          types = types;
          detected = detected;
          quotas = quotas;
          counted =
              sym (visit_namespaces-eq-count_all go q types s items (map uncounted pj.spec) d) ∙ e2;
          stored =
              lawful.patches (record pj { status = quotas }) pj
                (λ obj. record obj { status = quotas }) s g h1;
        }

    -- With a client that stores what it patches (`IsQuotaClient`), for a quota of which no two entries
    -- have the same group and kind and none has an empty kind: when `Reconcile` returns no error,
    -- the status stored under the key has each entry counted on its own, from zero, over the
    -- namespaces with the label of the project, whatever the status was before.
    pub reconcile_quota-IsCounted :
        (key : ObjectKey) (pj : ProjectQuota q.Quantity) (s : q.State)
        → kc.get_project_quota key s ≡ ok pj
        → object_key pj.meta ≡ key
        → AreDistinct (map quota_kind (map uncounted pj.spec))
        → (reconcile_quota go q kc key s).0 ≡ ok tt
        → IsCounted key pj s (reconcile_quota go q kc key s).1
    unfolding reconcile_quota
    reconcile_quota-IsCounted key pj s g k d h =
        let e : reconcile_quota go q kc key s ≡ update_quota go q kc pj s = rw g refl in
        rw e (
          subst (λ x. IsCounted x pj s (update_quota go q kc pj s).1) k
            (update_quota-IsCounted pj s (rw k g) d (rw e at h)))

    -- With a client that stores what it patches (`IsQuotaClient`), and with listings by a label that
    -- have every namespace with that label (`IsSelecting`): for an object in a namespace with the
    -- label of a project, `ProjectQuotaForObjects` gives the one request for the quota of that
    -- project. If no two entries of that quota have the same group and kind and none has an empty
    -- kind, and `Reconcile` of the request returns no error, then that namespace is among those that
    -- the stored status counts.
    pub project_quota_for_objects-IsCounted :
        (selecting : IsSelecting q) (name id : String) (ns : Namespace)
        → (pj : ProjectQuota q.Quantity) (s : q.State) → (name == "") ≡ false
        → q.get_namespace name s ≡ ok ns
        → lookup project_id_label ns.meta.labels ≡ some id
        → kc.get_project_quota (quota_key id) s ≡ ok pj
        → object_key pj.meta ≡ quota_key id
        → AreDistinct (map quota_kind (map uncounted pj.spec))
        → (reconcile_quota go q kc (quota_key id) s).0 ≡ ok tt
        → (project_quota_for_objects q name s ≡ ok (quota_key id ∷ []))
          × (c : IsCounted (quota_key id) pj s (reconcile_quota go q kc (quota_key id) s).1)
          × (is_listed name c.items ≡ true)
    unfolding project_quota_for_objects
    project_quota_for_objects-IsCounted selecting name id ns pj s n found label g k d h =
        let c = reconcile_quota-IsCounted (quota_key id) pj s g k d h in
        let named : pj.meta.name ≡ id = ap (λ (x : ObjectKey). x.name) k in
        (
          rw n (rw found (rw label refl)),
          c,
          selecting.lists name id ns c.items s found label
              (subst (λ x. q.list_namespaces (project_labels x) s ≡ ok c.items) named c.listed),
        )
