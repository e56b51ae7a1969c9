-- ===== src/Quota/Watcher/Once.antt =====
-- No kind is watched twice.
use rancid_syncer.Base.{
  ◌≡◌, refl, List, [], ◌∷◌, Option, none, some, Bool, true, false, not, ◌&&◌, ◌==◌, if◌then◌else◌,
  subst,
}
use rancid_syncer.Base.Outcome.{Outcome, ok, err, panic, Error}
use rancid_syncer.Base.Effect.{and_then}
use rancid_syncer.Kube.{GroupVersionKind}
use rancid_syncer.Quota.Watcher.{Watcher, has_gvk, watch, start_watcher, start_watchers}

-- The kinds are registered, and none occurs twice.
abbrev pub AreOnce : (GroupVersionKind → Bool) → List GroupVersionKind → Type 0
AreOnce is_registered [] = Unit
AreOnce is_registered (gvk ∷ gvks) =
    (is_registered gvk ≡ true) × (has_gvk gvk gvks ≡ false) × AreOnce is_registered gvks

module _ (watch_error : GroupVersionKind → Option Error)
    (is_registered : GroupVersionKind → Bool) where
  -- The map agrees with the calls that were made.
  pub record IsSynced (w : Watcher) : Type 0 where
    pub agrees : w.reg_types ≡ w.watched
    pub once : AreOnce is_registered w.watched

  -- After a call that returned the map agrees with the calls, and after any call no kind was
  -- watched twice.
  abbrev IsStarted : Outcome (Unit {0}) × Watcher → Type 0
  IsStarted (ok _, w) = IsSynced w
  IsStarted (err _, w) = AreOnce is_registered w.watched
  IsStarted (panic _, w) = AreOnce is_registered w.watched

  watch-IsStarted :
      (gvk : GroupVersionKind) (w : Watcher)
      → IsSynced w
      → is_registered gvk ≡ true
      → has_gvk gvk w.reg_types ≡ false
      → IsStarted (watch watch_error is_registered gvk w)
  unfolding watch
  watch-IsStarted gvk w p r fresh = by_error (watch_error gvk)
    where
      more : AreOnce is_registered (gvk ∷ w.watched)
      more = (r, subst (λ l. has_gvk gvk l ≡ false) p.agrees fresh, p.once)

      by_error :
          (e : Option Error)
          → IsStarted (elim e [
            | none ↦ (ok tt, record w { watched = gvk ∷ w.watched; reg_types = gvk ∷ w.reg_types })
            | some x ↦ (panic "can't watch", record w { watched = gvk ∷ w.watched })
          ])
      by_error none = record { agrees = cc p.agrees; once = more }
      by_error (some x) = more

  start_watcher-IsStarted :
      (gvk : GroupVersionKind) (w : Watcher)
      → IsSynced w
      → IsStarted (start_watcher watch_error is_registered gvk w)
  unfolding start_watcher
  start_watcher-IsStarted gvk w p =
      decided w.is_set_up (gvk.kind == "") (is_registered gvk) (has_gvk gvk w.reg_types) refl refl
    where
      decided :
          (set_up unknown known old : Bool)
          → is_registered gvk ≡ known
          → has_gvk gvk w.reg_types ≡ old
          → IsStarted (
              if not set_up
              then (panic "ProjectQuota reconciler is not setup yet!", w)
              else if unknown
              then (panic "can't start ProjectQuota reconciler for unknown Kind!", w)
              else if known && not old
              then watch watch_error is_registered gvk w
              else (ok tt, w))
      decided false unknown known old r f = p.once
      decided true true known old r f = p.once
      decided true false false old r f = p
      decided true false true true r f = p
      decided true false true false r f = watch-IsStarted gvk w p r f

  -- From a state in which the map agrees with the calls so far (`IsSynced`), however often and for
  -- whatever kinds `StartWatcher` is called, and even if a call ends the program, `ctrl.Watch` has
  -- been called only for registered kinds and at most once for each.
  pub start_watchers-AreOnce :
      (gvks : List GroupVersionKind) (w : Watcher)
      → IsSynced w
      → AreOnce is_registered (start_watchers watch_error is_registered gvks w).1.watched
  unfolding start_watchers
  start_watchers-AreOnce [] w p = p.once
  start_watchers-AreOnce (gvk ∷ gvks) w p =
      next (λ w' q. start_watchers-AreOnce gvks w' q)
        (start_watcher watch_error is_registered gvk w) (start_watcher-IsStarted gvk w p)
    where
      next :
          ((w' : Watcher)
            → IsSynced w'
            → AreOnce is_registered (start_watchers watch_error is_registered gvks w').1.watched)
          → (r : Outcome (Unit {0}) × Watcher) → IsStarted r
          → AreOnce is_registered
              (and_then r.0 (λ _. start_watchers watch_error is_registered gvks) r.1).1.watched
      next ih (ok tt, w') q = ih w' q
      next ih (err _, w') q = q
      next ih (panic _, w') q = q
