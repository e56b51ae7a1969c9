-- ===== src/Presets/Load/Bundled.antt =====
-- How the loop over the namespaces of a project puts their presets in layers.
use mathlib.Core.List.{
  reverse, append_assoc, append-nil, map-append, reverse-append, reverse-reverse,
}
use rancid_syncer.Base.{
  String, ◌≡◌, refl, sym, ◌∙◌, ap, subst, List, [], ◌∷◌, ◌++◌, some, Bool, true, false, ◌==◌, ◌||◌,
  inl, inr, Bool-cases, arith, if◌then◌else◌,
}
use rancid_syncer.Base.Outcome.{Outcome, ok, ok-injective, >>=-eq-ok}
use rancid_syncer.Base.Runtime.{Runtime}
use rancid_syncer.Base.Dict.{lookup}
use rancid_syncer.Kube.{Namespace}
use rancid_syncer.Presets.Types.{ChartPresetValues, Cluster}
use rancid_syncer.Presets.Bundle.{is_known, bundle_chart_presets, bundle_cluster_chart_presets}
use rancid_syncer.Presets.Load.{
  project_id_label, source_names, ns_by_name, add_namespaces, with_cluster_presets, load_project,
  load_namespace,
}

pub is_known-append :
    (xs ys : List String) (name : String)
    → is_known (xs ++ ys) name ≡ (is_known xs name || is_known ys name)
is_known-append [] ys name = refl
is_known-append (x ∷ xs) ys name = ground (arith, is_known-append xs ys name)

pub source_names-append :
    (xs ys : List ChartPresetValues) → source_names (xs ++ ys) ≡ source_names xs ++ source_names ys
unfolding source_names
source_names-append xs ys = map-append _ xs ys

or_none : (a : Bool) → a ≡ (a || false)
or_none a = ground arith

pub or_comm : (a b : Bool) → (a || b) ≡ (b || a)
or_comm a b = ground arith

or_swap : (a b c : Bool) → (a || b || c) ≡ (a || (c || b))
or_swap a b c = ground arith

module _ (go : Runtime) (c : Cluster) (own : String) (sel : c.Selector) (known : List String)
    (s : c.State) where
  -- What one namespace adds: nothing, if it is the namespace itself.
  abbrev pub layer_of : Namespace → Outcome (List ChartPresetValues)
  layer_of ns =
      if ns.meta.name == own then ok [] else bundle_chart_presets go c ns.meta.name sel known s

  -- The layers of the namespaces, one after the other.
  abbrev pub AreBundled : List Namespace → List ChartPresetValues → Type 0
  AreBundled [] values = values ≡ []
  AreBundled (ns ∷ namespaces) values =
      (first : List ChartPresetValues) × (rest : List ChartPresetValues) × (layer_of ns ≡ ok first)
      × AreBundled namespaces rest
      × (values ≡ first ++ rest)

  AreBundled-append :
      (namespaces : List Namespace) (ns : Namespace) (values last : List ChartPresetValues)
      → AreBundled namespaces values
      → layer_of ns ≡ ok last
      → AreBundled (namespaces ++ ns ∷ []) (values ++ last)
  AreBundled-append [] ns values last h e =
      (last, [], e, refl, ap (λ l. l ++ last) h ∙ sym (append-nil last))
  AreBundled-append (n ∷ namespaces) ns values last (first, rest, d, h, v) e = (
    first,
    rest ++ last,
    d,
    AreBundled-append namespaces ns rest last h e,
    ap (λ l. l ++ last) v ∙ append_assoc first rest last,
  )

  -- The loop from the last namespace to the first puts the layers in their order.
  abbrev IsAdded :
      List Namespace
      → List String
      → List ChartPresetValues
      → List String × List ChartPresetValues
      → Type 0
  IsAdded namespaces project values r =
      (layers : List ChartPresetValues) × AreBundled (reverse namespaces) layers
      × (r.1 ≡ layers ++ values)
      × ((name : String)
          → is_known r.0 name ≡ (is_known project name || is_known (source_names layers) name))

  add_namespaces-step :
      (ns : Namespace) (namespaces : List Namespace) (project : List String)
      (values : List ChartPresetValues) (r : List String × List ChartPresetValues)
      → add_namespaces go c own sel known (ns ∷ namespaces) project values s ≡ ok r
      → (here : List ChartPresetValues) × (layer_of ns ≡ ok here)
        × (add_namespaces go c own sel known namespaces
              (project ++ source_names here)
              (here ++ values)
              s
            ≡ ok r)
  unfolding add_namespaces source_names
  add_namespaces-step ns namespaces project values r h = elim (Bool-cases (ns.meta.name == own)) [
    | inl same ↦ (
      [],
      rw same refl,
      ap (λ l. add_namespaces go c own sel known namespaces l values s) (append-nil project)
          ∙ (rw (same, add_namespaces) at h),
    )
    | inr other ↦
        let (here, d, f) =
          >>=-eq-ok (bundle_chart_presets go c ns.meta.name sel known s) _
            (rw (other, add_namespaces) at h) in
        (here, rw other d, f)
  ]

  add_namespaces-IsAdded :
      (namespaces : List Namespace) (project : List String) (values : List ChartPresetValues)
      (r : List String × List ChartPresetValues)
      → add_namespaces go c own sel known namespaces project values s ≡ ok r
      → IsAdded namespaces project values r
  unfolding add_namespaces
  add_namespaces-IsAdded [] project values r h = (
    [],
    refl,
    sym (ap (λ x. x.1) (ok-injective h)),
    λ name. ap (λ x. is_known x.0 name) (sym (ok-injective h)) ∙ or_none (is_known project name),
  )
  add_namespaces-IsAdded (ns ∷ namespaces) project values r h =
      let (here, d, f) = add_namespaces-step ns namespaces project values r h in
      let (layers, are, all, names) =
        add_namespaces-IsAdded namespaces (project ++ source_names here) (here ++ values) r f in
      (
        layers ++ here,
        subst (λ l. AreBundled l (layers ++ here)) (sym (reverse-append (ns ∷ []) namespaces))
            (AreBundled-append (reverse namespaces) ns layers here are d),
        all ∙ sym (append_assoc layers here values),
        λ name.
            names name
            ∙ ap (λ b. b || is_known (source_names layers) name)
                (is_known-append project (source_names here) name)
            ∙ or_swap (is_known project name) (is_known (source_names here) name)
                (is_known (source_names layers) name)
            ∙ ap (λ b. is_known project name || b)
                (sym (
                  ap (λ l. is_known l name) (source_names-append layers here)
                  ∙ is_known-append (source_names layers) (source_names here) name)),
      )

module _ (go : Runtime) (c : Cluster) where
  pub load_project-AreBundled :
      (own project : String) (sel : c.Selector) (known : List String)
      (values result : List ChartPresetValues) (s : c.State)
      → load_project go c own project sel known values s ≡ ok result
      → (items : List Namespace) × (ccps : List ChartPresetValues) × (layers : List
          ChartPresetValues)
        × (all_known : List String) × (c.list_namespaces ((project_id_label, project) ∷ []) s
            ≡ ok items)
        × AreBundled go c own sel known s (go.sort_slice ns_by_name items) layers
        × (bundle_cluster_chart_presets go c sel all_known s ≡ ok ccps)
        × ((name : String)
            → is_known all_known name
              ≡ (is_known known name || is_known (source_names layers) name))
        × (result ≡ ccps ++ (layers ++ values))
  unfolding load_project with_cluster_presets
  load_project-AreBundled own project sel known values result s h =
      let (items, d, f) = >>=-eq-ok (c.list_namespaces ((project_id_label, project) ∷ []) s) _ h in
      let sorted = go.sort_slice ns_by_name items in
      let (r, e, g) =
        >>=-eq-ok (add_namespaces go c own sel known (reverse sorted) [] values s) _ f in
      let (layers, are, all, names) =
        add_namespaces-IsAdded go c own sel known s (reverse sorted) [] values r e in
      let (ccps, b, k) = >>=-eq-ok (bundle_cluster_chart_presets go c sel (known ++ r.0) s) _ g in
      (
        items,
        ccps,
        layers,
        known ++ r.0,
        d,
        subst (λ l. AreBundled go c own sel known s l layers) (reverse-reverse sorted) are,
        b,
        λ name. is_known-append known r.0 name ∙ ap (λ x. is_known known name || x) (names name),
        sym (ok-injective k) ∙ ap (λ l. ccps ++ l) all,
      )

  pub in_project :
      (own project : String) (sel : c.Selector) (ns : Namespace) (values : List ChartPresetValues)
      (s : c.State)
      → bundle_chart_presets go c own sel [] s ≡ ok values
      → c.is_rancher_managed ≡ true
      → c.get_namespace own s ≡ ok ns
      → lookup project_id_label ns.meta.labels ≡ some project
      → load_namespace go c own sel s
        ≡ load_project go c own project sel (source_names values) values s
  unfolding load_namespace
  in_project own project sel ns values s d managed e l = ground arith
