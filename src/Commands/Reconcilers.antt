-- ===== src/Commands/Reconcilers.antt =====
-- federate/main.go, resource-cal/main.go and preset_cal/main.go: `useKubebuilderClient`, after the
-- set-up of the clients.
pub mod Lost
use rancid_syncer.Base.{String, List, [], ◌∷◌}
use rancid_syncer.Base.Outcome.{Outcome, ok, err, panic, Error, failure}
use rancid_syncer.Base.Runtime.{Runtime}
use rancid_syncer.Kube.{ObjectKey}
use rancid_syncer.Federate.Client.{Client}
use rancid_syncer.Federate.Reconcile.{reconcile}
use rancid_syncer.Quota.Types.{Platform}
use rancid_syncer.Quota.Requests.{QuotaClient, reconcile_quota}
use rancid_syncer.Presets.Types.{ChartPresetFlatRef, ChartPresetValues, Cluster}
use rancid_syncer.Presets.Merge.{merge_preset_values}
use rancid_syncer.Commands.Console.{
  Program, lift, query, call, finished, println, pure, ◌>>=◌, ◌>>◌,
}

-- federate: the errors that `Reconcile` collects are one error, unless there are none.
abbrev pub aggregated : {S : Type 0} → (List Error → Error) → List Error → Program S (Unit {0})
aggregated new_aggregate [] = pure tt
aggregated new_aggregate (e ∷ errs) = lift (err (new_aggregate (e ∷ errs)))

module _ (go : Runtime) (c : Client) (new_aggregate : List Error → Error) where
  unfoldable pub federate_panopticon : Program c.State (Unit {0})
  federate_panopticon = do
    println "Using kubebuilder client"
    errs ← call (reconcile go c (record { namespace = "monitoring"; name = "panopticon" }))
    aggregated new_aggregate errs

-- resource-cal: `result_text` is `yaml.Marshal` of the empty `ctrl.Result`.
module _ (go : Runtime) (q : Platform) (kc : QuotaClient q) (result_text : Outcome String) where
  unfoldable pub reconcile_demo : Program q.State (Unit {0})
  reconcile_demo = do
    println "Using kubebuilder client"
    out ← call (reconcile_quota go q kc (record { namespace = ""; name = "p-demo" }))
    text ← lift result_text
    println text

abbrev pub no_ref : ChartPresetFlatRef
no_ref = record { group = ""; resource = ""; kind = ""; preset_name = ""; namespace = "" }

-- preset_cal: the error of `MergePresetValues` is overwritten by that of `yaml.Marshal`.
abbrev pub values_of : Outcome (List ChartPresetValues) → Outcome (List ChartPresetValues)
values_of (ok presets) = ok presets
values_of (err e) = ok []
values_of (panic m) = panic m

module _ (go : Runtime) (c : Cluster) (marshal : List ChartPresetValues → Outcome String) where
  unfoldable pub show_presets : Program c.State (Unit {0})
  show_presets = do
    println "Using kubebuilder client"
    presets ← query (λ s. values_of (merge_preset_values go c no_ref s))
    text ← lift (marshal presets)
    println text
