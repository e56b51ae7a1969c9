-- ===== src/Federate/Copy/Monitors.antt =====
-- The copied ServiceMonitor: its endpoints and its labels.
use rancid_syncer.Base.{
  String, ◌<>◌, ◌≡◌, ◌≢◌, refl, ap, sym, subst, Option, some, eq_refl, List, [], ◌∷◌, map, true,
  ◌⊎◌, inl, inr, none, eq_iff, arith, Bool-cases,
}
use rancid_syncer.Base.Dict.{lookup, lookup-erase}
use rancid_syncer.Base.Entries.{some_injective}
use rancid_syncer.Kube.{RelabelConfig, MonitorEndpoint, ServiceMonitor, Prometheus}
use rancid_syncer.Federate.Client.{Client}
use rancid_syncer.Federate.Copy.{
  texts_equal, relabel_equal, keep_ns_metrics, join, with_keep, change_endpoint,
  change_service_monitor, prometheus_key,
}

texts_equal_sound : (ss ts : List String) → texts_equal ss ts ≡ true → ss ≡ ts
unfolding texts_equal
texts_equal_sound [] [] h = refl
texts_equal_sound [] (t ∷ ts) h = cc
texts_equal_sound (s ∷ ss) [] h = cc
texts_equal_sound (s ∷ ss) (t ∷ ts) h = ground (arith, eq_iff s t, texts_equal_sound ss ts)

relabel_equal_sound : (a b : RelabelConfig) → relabel_equal a b ≡ true → a ≡ b
unfolding relabel_equal
relabel_equal_sound a b h = ground (
  arith,
  texts_equal_sound a.source_labels b.source_labels,
  eq_iff a.separator b.separator,
  eq_iff a.target_label b.target_label,
  eq_iff a.regex b.regex,
  eq_iff a.replacement b.replacement,
  eq_iff a.action b.action,
)

texts_equal_refl : (ss : List String) → texts_equal ss ss ≡ true
unfolding texts_equal
texts_equal_refl [] = refl
texts_equal_refl (s ∷ ss) = rw (eq_refl s) (texts_equal_refl ss)

relabel_equal_refl : (a : RelabelConfig) → relabel_equal a a ≡ true
unfolding relabel_equal
relabel_equal_refl a = ground (
  arith,
  texts_equal_refl a.source_labels,
  eq_refl a.separator,
  eq_refl a.target_label,
  eq_refl a.regex,
  eq_refl a.replacement,
  eq_refl a.action,
)

abbrev pub head : List RelabelConfig → Option RelabelConfig
head [] = none
head (r ∷ rules) = some r

-- `e'` is `e` with its labels honored. If the first metric relabelling of `e` is `keep`, the metric
-- relabellings are those of `e`; otherwise they are those of `e` behind a new first one, `keep`.
abbrev pub IsKept : RelabelConfig → MonitorEndpoint → MonitorEndpoint → Type 0
IsKept keep e e' =
    ((head e.metric_relabel_configs ≡ some keep) × (e' ≡ record e { honor_labels = true }))
    ⊎ ((head e.metric_relabel_configs ≢ some keep)
        × (e' ≡ record e {
          honor_labels = true;
          metric_relabel_configs = keep ∷ e.metric_relabel_configs;
        }))

with_keep_cases :
    (keep : RelabelConfig) (cs : List RelabelConfig)
    → ((head cs ≡ some keep) × (with_keep keep cs ≡ cs))
      ⊎ ((head cs ≢ some keep) × (with_keep keep cs ≡ keep ∷ cs))
unfolding with_keep
with_keep_cases keep [] = inr (λ h. cc, refl)
with_keep_cases keep (c ∷ cs) = elim (Bool-cases (relabel_equal keep c)) [
  | inl same ↦ inl (ap (λ x. some x) (sym (relabel_equal_sound keep c same)), rw same refl)
  | inr other ↦ inr (
    λ h.
        let e : relabel_equal keep c ≡ true =
          subst (λ x. relabel_equal keep x ≡ true) (sym (some_injective h))
            (relabel_equal_refl keep) in
        cc,
    rw other refl,
  )
]

-- Two lists of one length whose elements are related in turn.
abbrev pub All₂ : {A B : Type 0} → (A → B → Type 0) → List A → List B → Type 0
All₂ R [] [] = Unit
All₂ R [] (y ∷ ys) = ⊥
All₂ R (x ∷ xs) [] = ⊥
All₂ R (x ∷ xs) (y ∷ ys) = R x y × All₂ R xs ys

change_endpoint-IsKept :
    (keep : RelabelConfig) (e : MonitorEndpoint) → IsKept keep e (change_endpoint keep e)
unfolding change_endpoint
change_endpoint-IsKept keep e = elim (with_keep_cases keep e.metric_relabel_configs) [
  | inl (there, kept) ↦ inl (there, rw kept refl)
  | inr (missing, added) ↦ inr (missing, rw added refl)
]

map-change_endpoint-IsKept :
    (keep : RelabelConfig) (es : List MonitorEndpoint)
    → All₂ (IsKept keep) es (map (change_endpoint keep) es)
map-change_endpoint-IsKept keep [] = tt
map-change_endpoint-IsKept keep (e ∷ es) =
    (change_endpoint-IsKept keep e, map-change_endpoint-IsKept keep es)

-- The rule that keeps the metrics whose label `namespace` is one of the namespaces.
abbrev pub keep_rule : List String → RelabelConfig
keep_rule namespaces = record {
  source_labels = "namespace" ∷ [];
  separator = "";
  target_label = "";
  regex = "(" <> join "|" namespaces <> ")";
  modulus = 0;
  replacement = "";
  action = "keep";
}

module _ (c : Client) (prom : Prometheus) (namespaces : List String)
    (src obj : ServiceMonitor) where
  -- The copied ServiceMonitor has the endpoints of its source, in their order, each with
  -- `honorLabels` set. An endpoint whose first metric relabelling is already the rule that keeps the
  -- metrics of the given namespaces (`keep_rule`) has its metric relabellings unchanged; every other endpoint
  -- has that rule put in front of them. The selectors are those of the source, and the copy does not
  -- have the label that marks a federated ServiceMonitor.
  pub change_service_monitor_lem :
      All₂
        (IsKept (keep_rule namespaces))
        src.spec.endpoints
        (change_service_monitor c prom namespaces src obj).spec.endpoints
      × ((change_service_monitor c prom namespaces src obj).spec.selector ≡ src.spec.selector)
      × ((change_service_monitor c prom namespaces src obj).spec.namespace_selector
          ≡ src.spec.namespace_selector)
      × (lookup prometheus_key (change_service_monitor c prom namespaces src obj).meta.labels
          ≡ none)
  unfolding change_service_monitor keep_ns_metrics
  change_service_monitor_lem = (
    map-change_endpoint-IsKept (keep_rule namespaces) src.spec.endpoints,
    refl,
    refl,
    rw lookup-erase,
  )
