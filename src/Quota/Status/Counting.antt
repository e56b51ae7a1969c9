-- ===== src/Quota/Status/Counting.antt =====
-- Quota entries of distinct kinds are counted one by one, as if there were no `nsUsed` map.
use rancid_syncer.Base.{
  String, ◌≡◌, refl, sym, List, [], ◌∷◌, map, Option, none, some, Bool, true, false, inl, inr, any,
  Bool-cases, Option-cases, arith, ◌==◌, eq_iff, subst,
}
use rancid_syncer.Base.Dict.{Dict, lookup}
use rancid_syncer.Base.Outcome.{Outcome, ok, ok-injective, err, panic, failure, ◌>>=◌, >>=-eq-ok}
use rancid_syncer.Base.Runtime.{Runtime}
use rancid_syncer.Kube.{Namespace}
use rancid_syncer.Quota.Types.{ApiType, GroupKind, group_kind_eq, QuotaResult, Platform}
use rancid_syncer.Quota.Usage.{used_quota}
use rancid_syncer.Quota.Status.{
  QuotaStatus, quota_kind, Counted, NsUsed, find_used, add_kind, visit_quota, visit_quotas,
  visit_namespaces,
}

traverse : {A B : Type 0} → (A → Outcome B) → List A → Outcome (List B)
traverse f [] = ok []
traverse f (x ∷ xs) = do y ← f x; ys ← traverse f xs; ok (y ∷ ys)

group_kind_eq_iff : (a b : GroupKind) → group_kind_eq a b ≡ true → a ≡ b
group_kind_eq_iff a b h = ground (arith, eq_iff a.group b.group, eq_iff a.kind b.kind)

abbrev pub has_kind : GroupKind → List GroupKind → Bool
has_kind gk = any (λ k. group_kind_eq k gk)

has_kind_self : (gk : GroupKind) (gks : List GroupKind) → has_kind gk (gk ∷ gks) ≡ true
has_kind_self gk gks = ground (arith, eq_iff gk.group gk.group, eq_iff gk.kind gk.kind)

-- No kind occurs twice, and none is empty.
abbrev pub AreDistinct : List GroupKind → Type 0
AreDistinct [] = Unit
AreDistinct (gk ∷ gks) = (has_kind gk gks ≡ false) × ((gk.kind == "") ≡ false) × AreDistinct gks

module _ (go : Runtime) (q : Platform) where
  -- One entry in one namespace, with no other entry looked at: the use of its kind is added, and
  -- the result is that of this namespace.
  pub count :
      Dict ApiType → q.State → String → QuotaStatus q.Quantity → Outcome (QuotaStatus q.Quantity)
  count types s ns quota = elim (lookup (q.group_kind_text (quota_kind quota)) types) [
    | none ↦ err (failure "can't detect api type info")
    | some t ↦ do
      r ← used_quota go q ns t s
      ok (record quota { used = q.add_resource_list quota.used r.0; result = r.1 })
  ]

  -- All entries in each namespace in turn.
  pub count_all :
      Dict ApiType
      → q.State
      → List Namespace
      → List (QuotaStatus q.Quantity)
      → Outcome (List (QuotaStatus q.Quantity))
  unfolding traverse count
  count_all types s [] quotas = ok quotas
  count_all types s (ns ∷ items) quotas = do
    next ← traverse (count types s ns.meta.name) quotas
    count_all types s items next

  abbrev kinds : List (QuotaStatus q.Quantity) → List GroupKind
  kinds = map quota_kind

  -- None of the kinds has been counted in this namespace.
  abbrev AreFresh : NsUsed q.Quantity → List GroupKind → Type 0
  AreFresh ns_used gks = (gk : GroupKind) → has_kind gk gks ≡ true → find_used gk ns_used ≡ none

  -- A step with the map returned what the step without it returns, and added one entry to the map.
  abbrev Agrees :
      GroupKind
      → NsUsed q.Quantity
      → Outcome (QuotaStatus q.Quantity × NsUsed q.Quantity)
      → Outcome (QuotaStatus q.Quantity)
      → Type 0
  Agrees gk ns_used (ok r) (ok next) =
      (r.0 ≡ next) × ((c : Counted q.Quantity) × (r.1 ≡ (gk, c) ∷ ns_used))
  Agrees gk ns_used (err e) (err f) = e ≡ f
  Agrees gk ns_used (panic m) (panic n) = m ≡ n
  Agrees gk ns_used _ _ = ⊥

  add_kind-Agrees :
      (types : Dict ApiType) (s : q.State) (ns : String) (quota : QuotaStatus q.Quantity)
      → (ns_used : NsUsed q.Quantity)
      → Agrees
          (quota_kind quota)
          ns_used
          (add_kind go q ns types quota ns_used s)
          (count types s ns quota)
  unfolding add_kind count
  add_kind-Agrees types s ns quota ns_used =
      known (lookup (q.group_kind_text (quota_kind quota)) types)
    where
      used :
          (t : ApiType) (r : Outcome (Dict q.Quantity × QuotaResult))
          → Agrees
              (quota_kind quota)
              ns_used
              (r >>= λ r. ok (
                record quota { used = q.add_resource_list quota.used r.0; result = r.1 },
                (quota_kind quota, record { result = r.1; used = r.0 }) ∷ ns_used,
              ))
              (r >>= λ r.
                ok (record quota { used = q.add_resource_list quota.used r.0; result = r.1 }))
      used t (ok r) = (refl, (_, refl))
      used t (err e) = refl
      used t (panic m) = refl

      known :
          (o : Option ApiType)
          → Agrees
              (quota_kind quota)
              ns_used
              (elim o [
                | none ↦ err (failure "can't detect api type info")
                | some t ↦ used_quota go q ns t s >>= λ r. ok (
                  record quota { used = q.add_resource_list quota.used r.0; result = r.1 },
                  (quota_kind quota, record { result = r.1; used = r.0 }) ∷ ns_used,
                )
              ])
              (elim o [
                | none ↦ err (failure "can't detect api type info")
                | some t ↦ used_quota go q ns t s >>= λ r.
                    ok (record quota { used = q.add_resource_list quota.used r.0; result = r.1 })
              ])
      known none = refl
      known (some t) = used t (used_quota go q ns t s)

  visit_quota-Agrees :
      (types : Dict ApiType) (s : q.State) (ns : String) (quota : QuotaStatus q.Quantity)
      → (ns_used : NsUsed q.Quantity) → find_used (quota_kind quota) ns_used ≡ none
      → (quota.kind == "") ≡ false
      → Agrees
          (quota_kind quota)
          ns_used
          (visit_quota go q ns types quota ns_used s)
          (count types s ns quota)
  unfolding visit_quota
  visit_quota-Agrees types s ns quota ns_used fresh named =
      rw (fresh, visit_quota) (rw named (add_kind-Agrees types s ns quota ns_used))

  AreFresh-cons :
      (gk : GroupKind) (gks : List GroupKind) (c : Counted q.Quantity) (ns_used : NsUsed q.Quantity)
      → has_kind gk gks ≡ false
      → AreFresh ns_used (gk ∷ gks)
      → AreFresh ((gk, c) ∷ ns_used) gks
  unfolding find_used
  AreFresh-cons gk gks c ns_used absent fresh k h = elim (Bool-cases (group_kind_eq gk k)) [
    | inl same ↦
        let still : has_kind k gks ≡ false =
          subst (λ x. has_kind x gks ≡ false) (group_kind_eq_iff gk k same) absent in
        absurd (cc)
    | inr other ↦ rw (other, find_used) (fresh k (rw other h))
  ]

  visit_quotas-eq-traverse :
      (types : Dict ApiType) (s : q.State) (ns : String) (quotas : List (QuotaStatus q.Quantity))
      → (ns_used : NsUsed q.Quantity) → AreDistinct (kinds quotas)
      → AreFresh ns_used (kinds quotas)
      → visit_quotas go q ns types quotas ns_used s ≡ traverse (count types s ns) quotas
  unfolding visit_quotas traverse
  visit_quotas-eq-traverse types s ns [] ns_used d fresh = refl
  visit_quotas-eq-traverse types s ns (quota ∷ quotas) ns_used (absent, named, d) fresh =
      agreed _ _
        (visit_quota-Agrees types s ns quota ns_used
          (fresh (quota_kind quota) (has_kind_self (quota_kind quota) (kinds quotas))) named)
        (λ c.
          visit_quotas-eq-traverse types s ns quotas ((quota_kind quota, c) ∷ ns_used) d
            (AreFresh-cons (quota_kind quota) (kinds quotas) c ns_used absent fresh))
    where
      agreed :
          (r : Outcome (QuotaStatus q.Quantity × NsUsed q.Quantity))
          → (m : Outcome (QuotaStatus q.Quantity)) → Agrees (quota_kind quota) ns_used r m
          → ((c : Counted q.Quantity)
              → visit_quotas go q ns types quotas ((quota_kind quota, c) ∷ ns_used) s
                ≡ traverse (count types s ns) quotas)
          → (r >>= λ r. visit_quotas go q ns types quotas r.1 s >>= λ rest. ok (r.0 ∷ rest))
            ≡ (m >>= λ y. traverse (count types s ns) quotas >>= λ ys. ok (y ∷ ys))
      agreed (ok r) (ok next) (e, (c, f)) ih = rw (e, f, ih c)
      agreed (err e) (err f) p ih = rw p
      agreed (panic m) (panic n) p ih = rw p
      agreed (ok r) (err f) p ih = absurd p
      agreed (ok r) (panic n) p ih = absurd p
      agreed (err e) (ok next) p ih = absurd p
      agreed (err e) (panic n) p ih = absurd p
      agreed (panic m) (ok next) p ih = absurd p
      agreed (panic m) (err f) p ih = absurd p

  count-kind :
      (types : Dict ApiType) (s : q.State) (ns : String) (quota next : QuotaStatus q.Quantity)
      → count types s ns quota ≡ ok next
      → quota_kind next ≡ quota_kind quota
  unfolding count
  count-kind types s ns quota next h =
      elim (Option-cases (lookup (q.group_kind_text (quota_kind quota)) types)) [
        | inl e ↦ cc (rw (e, count) at h)
        | inr (t, e) ↦
            let (r, d, f) = >>=-eq-ok (used_quota go q ns t s) _ (rw (e, count) at h) in
            rw (← ok-injective f)
      ]

  traverse-kinds :
      (types : Dict ApiType) (s : q.State) (ns : String)
      → (quotas next : List (QuotaStatus q.Quantity)) → traverse (count types s ns) quotas ≡ ok next
      → kinds next ≡ kinds quotas
  unfolding traverse
  traverse-kinds types s ns [] next h = rw (← ok-injective h)
  traverse-kinds types s ns (quota ∷ quotas) next h =
      let (y, d, f) = >>=-eq-ok (count types s ns quota) _ h in
      let (ys, d', f') = >>=-eq-ok (traverse (count types s ns) quotas) _ f in
      rw (← ok-injective f')
        (cc (count-kind types s ns quota y d, traverse-kinds types s ns quotas ys d'))

  -- If no two entries of a quota have the same group and kind, and none has an empty kind, then
  -- every entry is counted on its own: its use is that of its kind, added up over all namespaces,
  -- and the map of what was counted changes nothing, errors and panics included.
  pub visit_namespaces-eq-count_all :
      (types : Dict ApiType) (s : q.State) (items : List Namespace)
      → (quotas : List (QuotaStatus q.Quantity)) → AreDistinct (kinds quotas)
      → visit_namespaces go q items types quotas s ≡ count_all types s items quotas
  unfolding visit_namespaces count_all
  visit_namespaces-eq-count_all types s [] quotas d = refl
  visit_namespaces-eq-count_all types s (ns ∷ items) quotas d =
      rw (visit_quotas-eq-traverse types s ns.meta.name quotas [] d (λ gk h. refl)) (
        next (traverse (count types s ns.meta.name) quotas) refl
          (λ l. visit_namespaces-eq-count_all types s items l))
    where
      next :
          (r : Outcome (List (QuotaStatus q.Quantity)))
          → traverse (count types s ns.meta.name) quotas ≡ r
          → ((l : List (QuotaStatus q.Quantity))
              → AreDistinct (kinds l)
              → visit_namespaces go q items types l s ≡ count_all types s items l)
          → (r >>= λ next. visit_namespaces go q items types next s)
            ≡ (r >>= λ next. count_all types s items next)
      next (ok l) h ih =
          ih l (subst AreDistinct (sym (traverse-kinds types s ns.meta.name quotas l h)) d)
      next (err e) h ih = refl
      next (panic m) h ih = refl
