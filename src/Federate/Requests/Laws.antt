-- ===== src/Federate/Requests/Laws.antt =====
-- Which requests `ServiceMonitorsForService` makes.
use mathlib.Core.List.{append_assoc, append-nil, Mem}
use rancid_syncer.Base.{
  String, any, ◌==◌, ◌≡◌, refl, sym, subst, ◌∙◌, ◌⊎◌, arith, List, [], ◌∷◌, ◌++◌, Bool, true, false,
  some, All, Bool-cases, inl, inr, if◌then◌else◌, ◌&&◌,
}
use rancid_syncer.Base.Members.{any-iff-Mem}
use rancid_syncer.Base.Outcome.{ok, ok-injective, err, Error}
use rancid_syncer.Kube.{ObjectKey, ObjectMeta, ServiceMonitor}
use rancid_syncer.Federate.Client.{Client}
use rancid_syncer.Federate.Requests.{
  contains, ns_matches, key_of, requests_loop, federated_labels, service_monitors_for_service,
}

-- The selector sets `any`, or it names the namespace.
abbrev pub IsNear : ServiceMonitor → String → Type 0
IsNear m namespace =
    (m.spec.namespace_selector.any ≡ true) ⊎ Mem namespace m.spec.namespace_selector.match_names

contains-eq-any : (arr : List String) (x : String) → contains arr x ≡ any (λ s. s == x) arr
unfolding contains
contains-eq-any [] x = refl
contains-eq-any (s ∷ arr) x = ground (arith, contains-eq-any arr x)

ns_matches_sound : (m : ServiceMonitor) (ns : String) → ns_matches m ns ≡ true → IsNear m ns
unfolding ns_matches
ns_matches_sound m ns h = elim (Bool-cases m.spec.namespace_selector.any) [
  | inl all ↦ inl all
  | inr some_only ↦ inr (
      (any-iff-Mem m.spec.namespace_selector.match_names ns).0
        (sym (contains-eq-any m.spec.namespace_selector.match_names ns) ∙ (rw some_only at h)))
]

ns_matches_complete : (m : ServiceMonitor) (ns : String) → IsNear m ns → ns_matches m ns ≡ true
unfolding ns_matches
ns_matches_complete m ns (inl all) = rw all refl
ns_matches_complete m ns (inr named) =
    let e =
      contains-eq-any m.spec.namespace_selector.match_names ns
      ∙ (any-iff-Mem m.spec.namespace_selector.match_names ns).1 named in
    ground arith

module _ (c : Client) (obj : ObjectMeta) where
  -- The selector is valid, or the loop does not come to read it.
  abbrev pub IsReadable : ServiceMonitor → Type 0
  IsReadable m =
      IsNear m obj.namespace → (sel : c.Selector) × (c.as_selector (some m.spec.selector) ≡ ok sel)

  -- What the loop tests of a monitor.
  unfoldable is_selected : ServiceMonitor → Bool
  is_selected m = ns_matches m obj.namespace && (elim (c.as_selector (some m.spec.selector)) [
    | ok sel ↦ c.matches sel obj.labels
    | _ ↦ false
  ])

  -- The monitor's namespaces include that of the object, and its selector matches the object's labels.
  abbrev pub Covers : ServiceMonitor → Type 0
  Covers m =
      IsNear m obj.namespace
      × (sel : c.Selector) × (c.as_selector (some m.spec.selector) ≡ ok sel)
      × (c.matches sel obj.labels ≡ true)

  -- The keys of just the monitors that cover the object, in order.
  abbrev pub AreRequested : List ServiceMonitor → List ObjectKey → Type 0
  AreRequested [] keys = keys ≡ []
  AreRequested (m ∷ items) keys =
      (Covers m × (rest : List ObjectKey) × (keys ≡ key_of m ∷ rest) × AreRequested items rest)
      ⊎ (¬ Covers m × AreRequested items keys)

  unfoldable selected_keys : List ServiceMonitor → List ObjectKey
  selected_keys [] = []
  selected_keys (m ∷ items) =
      if is_selected m then key_of m ∷ selected_keys items else selected_keys items

  requests_loop_lem :
      (req : List ObjectKey) (items : List ServiceMonitor)
      → All IsReadable items
      → requests_loop c obj req items ≡ ok (req ++ selected_keys items)
  unfolding requests_loop selected_keys is_selected
  requests_loop_lem req [] h = rw append-nil
  requests_loop_lem req (m ∷ items) (p, h) = elim (Bool-cases (ns_matches m obj.namespace)) [
    | inl near ↦
        let (sel, e) = p (ns_matches_sound m obj.namespace near) in
        elim (Bool-cases (c.matches sel obj.labels)) [
          | inl on ↦
              rw (near, e, on) (requests_loop_lem (req ++ key_of m ∷ []) items h ∙ rw append_assoc)
          | inr off ↦ rw (near, e, off) (requests_loop_lem req items h)
        ]
    | inr far ↦ rw far (requests_loop_lem req items h)
  ]

  is_selected_cases :
      (m : ServiceMonitor)
      → IsReadable m
      → ((is_selected m ≡ true) × Covers m) ⊎ ((is_selected m ≡ false) × (¬ Covers m))
  unfolding is_selected
  is_selected_cases m p = elim (Bool-cases (ns_matches m obj.namespace)) [
    | inl near ↦
        let (sel, e) = p (ns_matches_sound m obj.namespace near) in
        elim (Bool-cases (c.matches sel obj.labels)) [
          | inl on ↦ inl (rw (near, e) on, (ns_matches_sound m obj.namespace near, sel, e, on))
          | inr off ↦ inr (
            rw (near, e) off,
            λ covered.
                let (_, sel', d, on) = covered in
                let same : sel ≡ sel' = ok-injective (sym e ∙ d) in
                let on' : c.matches sel obj.labels ≡ true =
                  subst (λ x. c.matches x obj.labels ≡ true) (sym same) on in
                cc,
          )
        ]
    | inr far ↦
        inr (rw far refl, λ covered. let e = ns_matches_complete m obj.namespace covered.0 in cc)
  ]

  selected_keys-AreRequested :
      (items : List ServiceMonitor)
      → All IsReadable items
      → AreRequested items (selected_keys items)
  unfolding selected_keys
  selected_keys-AreRequested [] h = refl
  selected_keys-AreRequested (m ∷ items) (p, h) = elim (is_selected_cases m p) [
    | inl (on, covers) ↦
        inl (covers, selected_keys items, rw on refl, selected_keys-AreRequested items h)
    | inr (off, apart) ↦ inr (apart, rw off (selected_keys-AreRequested items h))
  ]

  -- If the monitors are listed and the selectors of those whose namespaces include that of the object
  -- are valid, an event of the object requests, in order, just the listed monitors whose selector for
  -- namespaces sets `any` or names the namespace of the object, and whose label selector matches the
  -- labels of the object. A monitor in the namespace of the object that neither sets `any` nor names a
  -- namespace is not requested.
  pub service_monitors_for_service_lem :
      (s : c.State) (items : List ServiceMonitor)
      → c.list_service_monitors federated_labels s ≡ ok items
      → All IsReadable items
      → (keys : List ObjectKey) × (service_monitors_for_service c obj s ≡ ok keys)
        × AreRequested items keys
  unfolding service_monitors_for_service
  service_monitors_for_service_lem s items e h = (
    selected_keys items,
    rw (e, service_monitors_for_service) (requests_loop_lem [] items h),
    selected_keys-AreRequested items h,
  )

  requests_loop_bad :
      (req : List ObjectKey) (before after : List ServiceMonitor) (m : ServiceMonitor) (e : Error)
      → All IsReadable before
      → ns_matches m obj.namespace ≡ true
      → c.as_selector (some m.spec.selector) ≡ err e
      → requests_loop c obj req (before ++ m ∷ after) ≡ ok []
  unfolding requests_loop
  requests_loop_bad req [] after m e h near bad = rw (near, bad)
  requests_loop_bad req (b ∷ before) after m e (p, h) near bad =
      elim (Bool-cases (ns_matches b obj.namespace)) [
        | inl close ↦
            let (sel, d) = p (ns_matches_sound b obj.namespace close) in
            rw (close, d)
              (requests_loop_bad (if c.matches sel obj.labels then req ++ key_of b ∷ [] else req)
                before after m e h near bad)
        | inr far ↦ rw far (requests_loop_bad req before after m e h near bad)
      ]

  -- One monitor that covers the object's namespace and has an invalid selector makes the result
  -- empty: the requests for the monitors before it are lost, and those after it are not made.
  pub service_monitors_for_service_lost :
      (s : c.State) (before after : List ServiceMonitor) (m : ServiceMonitor) (e : Error)
      → c.list_service_monitors federated_labels s ≡ ok (before ++ m ∷ after)
      → All IsReadable before
      → ns_matches m obj.namespace ≡ true
      → c.as_selector (some m.spec.selector) ≡ err e
      → service_monitors_for_service c obj s ≡ ok []
  unfolding service_monitors_for_service
  service_monitors_for_service_lost s before after m e l h near bad =
      rw (l, service_monitors_for_service) (requests_loop_bad [] before after m e h near bad)
