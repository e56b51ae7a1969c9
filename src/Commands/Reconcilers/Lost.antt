-- ===== src/Commands/Reconcilers/Lost.antt =====
-- The error that preset_cal loses.
use rancid_syncer.Base.{String, ◌≡◌, refl, List, [], ◌∷◌, ◌++◌}
use rancid_syncer.Base.Outcome.{Outcome, ok, err, Error}
use rancid_syncer.Base.Runtime.{Runtime}
use rancid_syncer.Presets.Types.{ChartPresetValues, Cluster}
use rancid_syncer.Presets.Merge.{merge_preset_values}
use rancid_syncer.Commands.Console.{finished, World}
use rancid_syncer.Commands.Reconcilers.{no_ref, show_presets}

-- If `MergePresetValues` fails, preset_cal prints the text of an empty list and returns no error.
show_presets_lost :
    (go : Runtime) (c : Cluster) (marshal : List ChartPresetValues → Outcome String)
    → (w : World c.State) (e : Error) (text : String)
    → merge_preset_values go c no_ref w.cluster ≡ err e
    → marshal [] ≡ ok text
    → show_presets go c marshal w ≡ (
      finished (ok tt),
      record w { printed = (w.printed ++ "Using kubebuilder client" ∷ []) ++ text ∷ [] },
    )
unfolding show_presets
show_presets_lost go c marshal w e text h m = rw (h, m) refl
