-- ===== src/Presets/Load/Filter.antt =====
-- Which presets `bundleChartPresets` and `bundleClusterChartPresets` leave out.
use rancid_syncer.Base.{
  String, ◌≡◌, refl, sym, subst, ◌∙◌, ◌↔◌, ◌⊎◌, ap, List, [], ◌∷◌, map, true, inl, inr, Bool-cases,
}
use rancid_syncer.Base.Entries.{true_not_false}
use rancid_syncer.Base.Outcome.{ok, ok-injective, >>=-eq-ok}
use rancid_syncer.Base.Runtime.{Runtime}
use rancid_syncer.Presets.Types.{
  ChartPreset, PresetKind, chart_preset, cluster_chart_preset, ChartPresetValues, Cluster,
}
use rancid_syncer.Presets.Bundle.{
  is_known, by_name, located, unknown_values, bundle_chart_presets, bundle_cluster_chart_presets,
}

-- The values of one preset, under a reference whose namespace and name are the preset's namespace.
abbrev pub values_of : PresetKind → ChartPreset → ChartPresetValues
values_of kind cp = record {
  source = record {
    resource = kind;
    ref = record { namespace = cp.meta.namespace; name = cp.meta.namespace };
  };
  values = cp.values;
}

-- The values are those of just the presets whose name is not known, in order.
abbrev pub AreUnknown :
    PresetKind → (String → Type 0) → List ChartPreset → List ChartPresetValues → Type 0
AreUnknown kind known [] values = values ≡ []
AreUnknown kind known (cp ∷ cps) values =
    (known cp.meta.name × AreUnknown kind known cps values)
    ⊎ (¬ known cp.meta.name
        × (rest : List ChartPresetValues) × (values ≡ values_of kind cp ∷ rest)
        × AreUnknown kind known cps rest)

-- When nothing is known, nothing is left out.
pub unknown_values-all :
    (kind : PresetKind) (cps : List ChartPreset)
    → unknown_values kind [] cps ≡ map (values_of kind) cps
unfolding unknown_values located
unknown_values-all kind [] = refl
unknown_values-all kind (cp ∷ cps) = ap (λ l. values_of kind cp ∷ l) (unknown_values-all kind cps)

module _ (kind : PresetKind) (names : List String) (known : String → Type 0)
    (means : (name : String) → (is_known names name ≡ true) ↔ known name) where
  pub unknown_values-AreUnknown :
      (cps : List ChartPreset) → AreUnknown kind known cps (unknown_values kind names cps)
  unfolding unknown_values located
  unknown_values-AreUnknown [] = refl
  unknown_values-AreUnknown (cp ∷ cps) = elim (Bool-cases (is_known names cp.meta.name)) [
    | inl there ↦ inl ((means cp.meta.name).0 there, rw there (unknown_values-AreUnknown cps))
    | inr new ↦ inr (
      λ k. absurd (true_not_false (sym ((means cp.meta.name).1 k) ∙ new)),
      unknown_values kind names cps,
      rw new refl,
      unknown_values-AreUnknown cps,
    )
  ]

module _ (go : Runtime) (c : Cluster) (sel : c.Selector) (s : c.State) where
  -- The values of the presets that are listed for a namespace, by name, without those that are known.
  abbrev pub IsLayer : String → (String → Type 0) → List ChartPresetValues → Type 0
  IsLayer ns known values =
      (cps : List ChartPreset) × (c.list_chart_presets ns sel s ≡ ok cps)
      × AreUnknown chart_preset known (go.sort_slice by_name cps) values

  -- The same for the cluster.
  abbrev pub IsClusterLayer : (String → Type 0) → List ChartPresetValues → Type 0
  IsClusterLayer known values =
      (cps : List ChartPreset) × (c.list_cluster_chart_presets sel s ≡ ok cps)
      × AreUnknown cluster_chart_preset known (go.sort_slice by_name cps) values

  module _ (names : List String) (known : String → Type 0)
      (means : (name : String) → (is_known names name ≡ true) ↔ known name)
      (values : List ChartPresetValues) where
    pub bundle_chart_presets-IsLayer :
        (ns : String)
        → bundle_chart_presets go c ns sel names s ≡ ok values
        → IsLayer ns known values
    unfolding bundle_chart_presets
    bundle_chart_presets-IsLayer ns h =
        let (cps, d, f) = >>=-eq-ok (c.list_chart_presets ns sel s) _ h in
        (
          cps,
          d,
          subst (λ l. AreUnknown chart_preset known (go.sort_slice by_name cps) l) (ok-injective f)
              (unknown_values-AreUnknown chart_preset names known means
                (go.sort_slice by_name cps)),
        )

    pub bundle_cluster_chart_presets-IsClusterLayer :
        bundle_cluster_chart_presets go c sel names s ≡ ok values → IsClusterLayer known values
    unfolding bundle_cluster_chart_presets
    bundle_cluster_chart_presets-IsClusterLayer h =
        let (cps, d, f) = >>=-eq-ok (c.list_cluster_chart_presets sel s) _ h in
        (
          cps,
          d,
          subst (λ l. AreUnknown cluster_chart_preset known (go.sort_slice by_name cps) l)
              (ok-injective f)
              (unknown_values-AreUnknown cluster_chart_preset names known means
                (go.sort_slice by_name cps)),
        )
