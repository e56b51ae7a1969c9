-- ===== src/Presets/Load/Layers.antt =====
-- The presets of a project in layers: those of the cluster, those of the other namespaces by name,
-- and those of the namespace itself.
use mathlib.Core.List.{Mem}
use rancid_syncer.Base.{
  ◌≢◌, ◌↔◌, ◌⊎◌, map, eq_iff, String, ◌≡◌, sym, ◌∙◌, ap, List, [], ◌∷◌, ◌++◌, some, true, ◌==◌,
  ◌||◌, inl, inr, Bool-cases,
}
use rancid_syncer.Base.Members.{any-iff-Mem}
use rancid_syncer.Base.Entries.{true_not_false}
use rancid_syncer.Base.Outcome.{ok, ok-injective, >>=-eq-ok}
use rancid_syncer.Base.Runtime.{Runtime}
use rancid_syncer.Base.Dict.{lookup}
use rancid_syncer.Kube.{Namespace}
use rancid_syncer.Presets.Types.{ChartPreset, chart_preset, ChartPresetValues, Cluster}
use rancid_syncer.Presets.Bundle.{is_known, by_name, bundle_chart_presets}
use rancid_syncer.Presets.Load.Filter.{
  values_of, unknown_values-all, IsLayer, IsClusterLayer, bundle_chart_presets-IsLayer,
  bundle_cluster_chart_presets-IsClusterLayer,
}
use rancid_syncer.Presets.Load.{
  project_id_label, source_names, ns_by_name, load_project, load_namespace,
}
use rancid_syncer.Presets.Load.Bundled.{
  is_known-append, source_names-append, or_comm, AreBundled, load_project-AreBundled, in_project,
}

module _ (go : Runtime) (c : Cluster) where
  -- The names in the references of the values.
  abbrev pub IsRef : List ChartPresetValues → String → Type 0
  IsRef values name = Mem name (map (λ (v : ChartPresetValues). v.source.ref.name) values)

  is_known-iff-IsRef :
      (values : List ChartPresetValues) (name : String)
      → (is_known (source_names values) name ≡ true) ↔ IsRef values name
  unfolding source_names
  is_known-iff-IsRef values name = any-iff-Mem (source_names values) name

  -- The layers of the namespaces, one after the other: nothing for the namespace `own` itself, and for
  -- another one its presets without those that are known.
  abbrev pub AreLayers :
      String
      → c.Selector
      → c.State
      → (String → Type 0)
      → List Namespace
      → List ChartPresetValues
      → Type 0
  AreLayers own sel s known [] values = values ≡ []
  AreLayers own sel s known (ns ∷ namespaces) values =
      (first : List ChartPresetValues) × (rest : List ChartPresetValues) × (((ns.meta.name ≡ own)
          × (first ≡ []))
        ⊎ ((ns.meta.name ≢ own) × IsLayer go c sel s ns.meta.name known first))
      × AreLayers own sel s known namespaces rest
      × (values ≡ first ++ rest)

  AreLayers-AreBundled :
      (own : String) (sel : c.Selector) (known : List ChartPresetValues) (s : c.State)
      (namespaces : List Namespace) (values : List ChartPresetValues)
      → AreBundled go c own sel (source_names known) s namespaces values
      → AreLayers own sel s (IsRef known) namespaces values
  AreLayers-AreBundled own sel known s [] values h = h
  AreLayers-AreBundled own sel known s (ns ∷ namespaces) values (first, rest, d, h, v) = (
    first,
    rest,
    elim (Bool-cases (ns.meta.name == own)) [
      | inl same ↦ inl ((eq_iff ns.meta.name own).0 same, sym (ok-injective (rw same at d)))
      | inr other ↦ inr (
        λ e. absurd (true_not_false (sym ((eq_iff ns.meta.name own).1 e) ∙ other)),
        bundle_chart_presets-IsLayer go c sel s (source_names known) (IsRef known)
            (is_known-iff-IsRef known) first ns.meta.name (rw other at d),
      )
    ],
    AreLayers-AreBundled own sel known s namespaces rest h,
    v,
  )

  -- A name is in the references of two lists of values just if it is known from one or the other.
  is_known-iff-IsRef_both :
      (all : List String) (layers values : List ChartPresetValues)
      → ((name : String)
          → is_known all name
            ≡ (is_known (source_names values) name || is_known (source_names layers) name))
      → (name : String) → (is_known all name ≡ true) ↔ IsRef (layers ++ values) name
  is_known-iff-IsRef_both all layers values h name =
      let known = is_known-iff-IsRef (layers ++ values) name in
      let same : is_known all name ≡ is_known (source_names (layers ++ values)) name =
        h name
        ∙ or_comm (is_known (source_names values) name) (is_known (source_names layers) name)
        ∙ sym (
            ap (λ l. is_known l name) (source_names-append layers values)
            ∙ is_known-append (source_names layers) (source_names values) name) in
      (λ e. known.0 (sym same ∙ e), λ m. same ∙ known.1 m)

  -- On a cluster that Rancher manages, when the presets of a namespace in a project are loaded, the
  -- values are in layers, each with its presets in the order that sorting by name gives: first those
  -- of the cluster, then those of the other namespaces of the project in the order that sorting by
  -- name gives, and last all of those of the namespace itself. A preset of another namespace is left
  -- out just if its name is the name in a reference of the last layer, and a preset of the cluster
  -- just if its name is the name in a reference of any layer behind it. The name in the reference of
  -- a preset is the preset's namespace (`values_of`).
  pub load_namespace-AreLayers :
      (own project : String) (sel : c.Selector) (ns : Namespace) (result : List ChartPresetValues)
      (s : c.State)
      → c.is_rancher_managed ≡ true
      → c.get_namespace own s ≡ ok ns
      → lookup project_id_label ns.meta.labels ≡ some project
      → load_namespace go c own sel s ≡ ok result
      → (cps : List ChartPreset) × (items : List Namespace) × (ccps : List ChartPresetValues)
        × (layers : List ChartPresetValues) × (values : List ChartPresetValues)
        × (c.list_chart_presets own sel s ≡ ok cps)
        × (values ≡ map (values_of chart_preset) (go.sort_slice by_name cps))
        × (c.list_namespaces ((project_id_label, project) ∷ []) s ≡ ok items)
        × AreLayers own sel s (IsRef values) (go.sort_slice ns_by_name items) layers
        × IsClusterLayer go c sel s (IsRef (layers ++ values)) ccps
        × (result ≡ ccps ++ (layers ++ values))
  unfolding load_namespace bundle_chart_presets
  load_namespace-AreLayers own project sel ns result s managed e l h =
      let (values, d, f) = >>=-eq-ok (bundle_chart_presets go c own sel [] s) _ h in
      let (cps, listed, bundle) = >>=-eq-ok (c.list_chart_presets own sel s) _ d in
      let g : load_project go c own project sel (source_names values) values s ≡ ok result =
        sym (in_project go c own project sel ns values s d managed e l) ∙ h in
      let (items, ccps, layers, all_known, found, are, bundled, names, all) =
        load_project-AreBundled go c own project sel (source_names values) values result s g in
      (
        cps,
        items,
        ccps,
        layers,
        values,
        listed,
        sym (ok-injective bundle) ∙ unknown_values-all chart_preset (go.sort_slice by_name cps),
        found,
        AreLayers-AreBundled own sel values s (go.sort_slice ns_by_name items) layers are,
        bundle_cluster_chart_presets-IsClusterLayer go c sel s all_known (IsRef (layers ++ values))
            (is_known-iff-IsRef_both all_known layers values names) ccps bundled,
        all,
      )
