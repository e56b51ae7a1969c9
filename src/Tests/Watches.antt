-- ===== src/Tests/Watches.antt =====
-- Watches on two kinds, one of which is asked for twice.
use rancid_syncer.Base.{◌≡◌, refl, [], ◌∷◌, Bool, true, Option, none}
use rancid_syncer.Base.Outcome.{Error, ok}
use rancid_syncer.Kube.{GroupVersionKind}
use rancid_syncer.Quota.Watcher.Started.{start_watchers-AreWatched}
use rancid_syncer.Quota.Watcher.{
  Watcher, new_reconciler, setup_with_manager, has_gvk, watch, start_watcher, start_watchers,
}
use rancid_syncer.Quota.Watcher.Once.{AreOnce, IsSynced, start_watchers-AreOnce}

abbrev pods : GroupVersionKind
pods = record { group = ""; version = "v1"; kind = "Pod" }

abbrev jobs : GroupVersionKind
jobs = record { group = "batch"; version = "v1"; kind = "Job" }

abbrev idle : Watcher
idle = record { is_set_up = true; reg_types = []; watched = [] }

abbrev no_error : GroupVersionKind → Option Error
no_error gvk = none

abbrev all_known : GroupVersionKind → Bool
all_known gvk = true

two_watches :
    (start_watchers no_error all_known (pods ∷ jobs ∷ pods ∷ []) idle).1.watched ≡ jobs ∷ pods ∷ []
unfolding start_watchers start_watcher watch
two_watches = refl

idle-IsSynced : IsSynced no_error all_known idle
idle-IsSynced = record { agrees = refl; once = tt }

start_watchers-AreOnce_example :
    AreOnce all_known (start_watchers no_error all_known (pods ∷ jobs ∷ pods ∷ []) idle).1.watched
start_watchers-AreOnce_example =
    start_watchers-AreOnce no_error all_known (pods ∷ jobs ∷ pods ∷ []) idle idle-IsSynced

start_watchers-AreWatched_example :
    (w' : Watcher) × (start_watchers no_error all_known
        (pods ∷ jobs ∷ pods ∷ [])
        (setup_with_manager none new_reconciler).1
      ≡ (ok tt, w'))
    × (has_gvk jobs w'.watched ≡ true)
start_watchers-AreWatched_example =
    start_watchers-AreWatched no_error all_known (pods ∷ jobs ∷ pods ∷ []) jobs (λ gvk. refl)
      (refl, (refl, (refl, tt)))
