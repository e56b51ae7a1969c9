-- ===== src/Tests/Values.antt =====
-- A cluster with presets of its own and in one namespace.
use mathlib.Core.Logic.Or
use mathlib.Core.Bool.{Bool-set}
use mathlib.Core.List.{Mem, not-mem-nil, eq-or-mem_of_mem-cons}
use rancid_syncer.Base.{
  String, ◌≡◌, ◌≢◌, refl, sym, ap, List, [], ◌∷◌, ◌++◌, map, Bool, true, false, some, eq_iff, arith,
  ◌∙◌, ◌==◌,
}
use rancid_syncer.Base.Outcome.{ok, err, not_found}
use rancid_syncer.Kube.{new_meta}
use rancid_syncer.Presets.Types.{
  ChartPreset, ChartPresetFlatRef, ChartPresetValues, chart_preset, cluster_chart_preset,
  VariantRef, Cluster,
}
use rancid_syncer.Presets.Bundle.{located, by_name}
use rancid_syncer.Presets.Load.{load_namespace}
use rancid_syncer.Presets.Load.Shadows.{load_namespace_all}
use rancid_syncer.Presets.Merge.{merge_presets, merge_variants, merge_preset_values}
use rancid_syncer.Tests.Machine.{machine, machine-IsRuntime, insertion_sort, insert_sorted}

abbrev preset : String → String → ChartPreset
preset name namespace = record { meta = new_meta name namespace; values = "{}" }

abbrev variant : VariantRef
variant = record {
  name = "default";
  selector = some (record { match_labels = []; match_expressions = [] });
}

-- The namespace and the cluster have a preset of the same name.
abbrev cluster : Cluster
cluster = record {
  State = Unit {0};
  Selector = Unit {0};
  is_rancher_managed = false;
  extract_resource_id = λ rid. ok rid;
  load_variants = λ rid s. some (variant ∷ []);
  as_selector = λ sel. ok tt;
  get_namespace = λ name s. ok (record { meta = new_meta name "" });
  list_namespaces = λ labels s. ok [];
  list_chart_presets = λ ns sel s. ok (preset "monitoring" ns ∷ []);
  list_cluster_chart_presets = λ sel s. ok (preset "monitoring" "" ∷ []);
  get_chart_preset = λ key s. err not_found;
}

Mem_single :
    {A : Type 0} (test : A → Bool) (a x : A) → test a ≡ true → Mem x (a ∷ []) → test x ≡ true
Mem_single test a x e m =
    Or.elim (Bool-set (test x) true) (eq-or-mem_of_mem-cons m) (λ d. ap test d ∙ e)
      (λ n. absurd (not-mem-nil n))

in_own : (cp : ChartPreset) → Mem cp (preset "monitoring" "app" ∷ []) → cp.meta.namespace ≡ "app"
in_own cp m = (eq_iff cp.meta.namespace "app").0 (
    Mem_single (λ (x : ChartPreset). x.meta.namespace == "app") (preset "monitoring" "app") cp refl
      m)

not_own : (ccp : ChartPreset) → Mem ccp (preset "monitoring" "" ∷ []) → ccp.meta.name ≢ "app"
not_own ccp m e =
    let known : ccp.meta.name ≡ "monitoring" = (eq_iff ccp.meta.name "monitoring").0 (
      Mem_single (λ (x : ChartPreset). x.meta.name == "monitoring") (preset "monitoring" "") ccp
        refl m) in
    other (sym known ∙ e)
  where
    other : ◌≢◌ {A = String} "monitoring" "app"
    other = ground (arith, eq_iff "monitoring" "app")

load_namespace_all_example :
    load_namespace machine cluster "app" tt tt
    ≡ ok (
        map
          (located cluster_chart_preset)
          (machine.sort_slice by_name (preset "monitoring" "" ∷ []))
        ++ map (located chart_preset) (machine.sort_slice by_name (preset "monitoring" "app" ∷ [])))
load_namespace_all_example =
    load_namespace_all machine machine-IsRuntime cluster "app" tt tt
      (preset "monitoring" "app" ∷ []) (preset "monitoring" "" ∷ []) refl refl refl in_own not_own

abbrev reference : ChartPresetFlatRef
reference = record {
  group = "apps";
  resource = "deployments";
  kind = "Deployment";
  preset_name = "default";
  namespace = "";
}

abbrev merged : List ChartPresetValues
merged =
    record {
      source = record {
        resource = cluster_chart_preset;
        ref = record { namespace = ""; name = "" };
      };
      values = "{}";
    }
    ∷ []

merged_values : merge_preset_values machine cluster reference tt ≡ ok merged
unfolding merge_preset_values merge_variants merge_presets insertion_sort insert_sorted located
merged_values = refl
