-- ===== src/Quota/Watcher.antt =====
-- `StartWatcher`: the kinds that the controller watches. A call of `klog.Fatalln` ends the program,
-- which is the outcome `panic`. The lock makes the calls run one after the other.
pub mod Once
pub mod Started
use rancid_syncer.Base.{
  String, List, [], ◌∷◌, Option, none, some, Bool, true, false, not, ◌&&◌, ◌||◌, ◌==◌, any,
  if◌then◌else◌,
}
use rancid_syncer.Base.Outcome.{Error, ok, err}
use rancid_syncer.Base.Effect.{Effect, crash, pure, ◌>>=◌}
use rancid_syncer.Kube.{GroupVersionKind}

-- `watched` records the calls of `ctrl.Watch`, the last one first. `reg_types` has the kinds that
-- the map `regTypes` maps to true.
pub record Watcher : Type 0 where
  pub is_set_up : Bool
  pub reg_types : List GroupVersionKind
  pub watched : List GroupVersionKind

-- `NewReconciler`: without a controller.
abbrev pub new_reconciler : Watcher
new_reconciler = record { is_set_up = false; reg_types = []; watched = [] }

-- `SetupWithManager`, by what `Build` returns.
unfoldable pub setup_with_manager : Option Error → Effect Watcher (Unit {0})
setup_with_manager none w = (ok tt, record w { is_set_up = true })
setup_with_manager (some e) w = (err e, w)

abbrev pub gvk_eq : GroupVersionKind → GroupVersionKind → Bool
gvk_eq a b = a.group == b.group && a.version == b.version && a.kind == b.kind

abbrev pub has_gvk : GroupVersionKind → List GroupVersionKind → Bool
has_gvk gvk = any (λ k. gvk_eq k gvk)

-- What `ctrl.Watch` returns for a kind, and `api.IsRegistered`.
module _ (watch_error : GroupVersionKind → Option Error)
    (is_registered : GroupVersionKind → Bool) where
  unfoldable pub watch : GroupVersionKind → Effect Watcher (Unit {0})
  watch gvk w =
      let w' = record w { watched = gvk ∷ w.watched } in
      elim (watch_error gvk) [
        | none ↦ pure tt (record w' { reg_types = gvk ∷ w.reg_types })
        | some e ↦ crash "can't watch" w'
      ]

  unfoldable pub start_watcher : GroupVersionKind → Effect Watcher (Unit {0})
  unfolding watch
  start_watcher gvk w =
      if not w.is_set_up
      then crash "ProjectQuota reconciler is not setup yet!" w
      else if gvk.kind == ""
      then crash "can't start ProjectQuota reconciler for unknown Kind!" w
      else if is_registered gvk && not (has_gvk gvk w.reg_types)
      then watch gvk w
      else pure tt w

  -- Calls one after the other, until one ends the program.
  unfoldable pub start_watchers : List GroupVersionKind → Effect Watcher (Unit {0})
  unfolding start_watcher
  start_watchers [] = pure tt
  start_watchers (gvk ∷ gvks) = start_watcher gvk >>= λ _. start_watchers gvks
