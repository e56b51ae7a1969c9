-- ===== src/Quota/Watcher/Started.antt =====
-- Which kinds are watched in the end.
use rancid_syncer.Base.{
  ◌≡◌, refl, sym, ap, ◌∙◌, subst, List, [], ◌∷◌, Option, none, Bool, true, false, not, ◌&&◌, ◌||◌,
  ◌==◌, inl, inr, Bool-cases, eq_iff, arith, All,
}
use rancid_syncer.Base.Outcome.{ok, Error}
use rancid_syncer.Base.Effect.{and_then}
use rancid_syncer.Kube.{GroupVersionKind}
use rancid_syncer.Quota.Watcher.{
  Watcher, new_reconciler, setup_with_manager, gvk_eq, has_gvk, watch, start_watcher,
  start_watchers,
}

gvk_eq-true : (a b : GroupVersionKind) → gvk_eq a b ≡ true → a ≡ b
gvk_eq-true a b e =
    ground (arith, eq_iff a.group b.group, eq_iff a.version b.version, eq_iff a.kind b.kind)

or_comm : (a b : Bool) → (a || b) ≡ (b || a)
or_comm a b = ground arith

or_false : (a : Bool) → a ≡ (a || false)
or_false a = ground arith

and_false : (a : Bool) → (a && false) ≡ false
and_false a = ground arith

or_and : (a b c d : Bool) → (a || (b && c) || (b && d)) ≡ (a || (b && (c || d)))
or_and a b c d = ground arith

module _ (watch_error : GroupVersionKind → Option Error)
    (is_registered : GroupVersionKind → Bool) where
  abbrev pub IsReady : Watcher → Type 0
  IsReady w = (w.is_set_up ≡ true) × (w.reg_types ≡ w.watched)

  joined :
      (gvk g : GroupVersionKind)
      → (is_registered g && gvk_eq gvk g) ≡ (is_registered gvk && gvk_eq gvk g)
  joined gvk g = elim (Bool-cases (gvk_eq gvk g)) [
    | inl e ↦ ap (λ x. is_registered x && gvk_eq gvk g) (sym (gvk_eq-true gvk g e))
    | inr d ↦ rw d (ground arith)
  ]

  has_known :
      (gvk g : GroupVersionKind) (l : List GroupVersionKind)
      → has_gvk gvk l ≡ true
      → gvk_eq gvk g ≡ true
      → has_gvk g l ≡ true
  has_known gvk g l h e = subst (λ x. has_gvk x l ≡ true) (gvk_eq-true gvk g e) h

  old_watched :
      (gvk g : GroupVersionKind) (w : Watcher)
      → has_gvk gvk w.reg_types ≡ true
      → w.reg_types ≡ w.watched
      → has_gvk g w.watched ≡ (has_gvk g w.watched || (is_registered g && gvk_eq gvk g))
  old_watched gvk g w old synced = elim (Bool-cases (gvk_eq gvk g)) [
    | inl e ↦ rw (has_known gvk g w.watched (subst (λ l. has_gvk gvk l ≡ true) synced old) e) refl
    | inr d ↦ rw (d, and_false (is_registered g)) (or_false (has_gvk g w.watched))
  ]

  watch-run :
      (gvk : GroupVersionKind) (w : Watcher)
      → watch_error gvk ≡ none
      → watch watch_error is_registered gvk w
        ≡ (ok tt, record w { reg_types = gvk ∷ w.reg_types; watched = gvk ∷ w.watched })
  unfolding watch
  watch-run gvk w e = rw (e, watch) refl

  start_watcher-new :
      (gvk : GroupVersionKind) (w : Watcher)
      → w.is_set_up ≡ true
      → (gvk.kind == "") ≡ false
      → is_registered gvk ≡ true
      → has_gvk gvk w.reg_types ≡ false
      → start_watcher watch_error is_registered gvk w ≡ watch watch_error is_registered gvk w
  unfolding start_watcher
  start_watcher-new gvk w ready n known new = ground arith

  start_watcher-idle :
      (gvk : GroupVersionKind) (w : Watcher)
      → w.is_set_up ≡ true
      → (gvk.kind == "") ≡ false
      → (is_registered gvk && not (has_gvk gvk w.reg_types)) ≡ false
      → start_watcher watch_error is_registered gvk w ≡ (ok tt, w)
  unfolding start_watcher
  start_watcher-idle gvk w ready n idle = ground arith

  start_watcher-watches :
      (gvk g : GroupVersionKind) (w : Watcher)
      → watch_error gvk ≡ none
      → (gvk.kind == "") ≡ false
      → IsReady w
      → (w' : Watcher) × (start_watcher watch_error is_registered gvk w ≡ (ok tt, w'))
        × IsReady w'
        × (has_gvk g w'.watched ≡ (has_gvk g w.watched || (is_registered g && gvk_eq gvk g)))
  start_watcher-watches gvk g w e n (ready, synced) = elim (Bool-cases (is_registered gvk)) [
    | inl known ↦ elim (Bool-cases (has_gvk gvk w.reg_types)) [
      | inl old ↦ (
        w,
        start_watcher-idle gvk w ready n (rw (known, old) refl),
        (ready, synced),
        old_watched gvk g w old synced,
      )
      | inr new ↦ (
        record w { reg_types = gvk ∷ w.reg_types; watched = gvk ∷ w.watched },
        start_watcher-new gvk w ready n known new ∙ watch-run gvk w e,
        (ready, ap (λ l. gvk ∷ l) synced),
        rw (joined gvk g, known) (or_comm (gvk_eq gvk g) (has_gvk g w.watched)),
      )
    ]
    | inr unknown ↦ (
      w,
      start_watcher-idle gvk w ready n (rw unknown refl),
      (ready, synced),
      rw (joined gvk g, unknown) (or_false (has_gvk g w.watched)),
    )
  ]

  from_ready :
      (gvks : List GroupVersionKind) (g : GroupVersionKind) (w : Watcher)
      → ((gvk : GroupVersionKind) → watch_error gvk ≡ none)
      → IsReady w
      → All (λ gvk. (gvk.kind == "") ≡ false) gvks
      → (w' : Watcher) × (start_watchers watch_error is_registered gvks w ≡ (ok tt, w'))
        × (has_gvk g w'.watched ≡ (has_gvk g w.watched || (is_registered g && has_gvk g gvks)))
  unfolding start_watchers
  from_ready [] g w e ready named =
      (w, refl, rw (and_false (is_registered g)) (or_false (has_gvk g w.watched)))
  from_ready (gvk ∷ gvks) g w e ready (n, named) =
      let (w1, run, ready1, known1) = start_watcher-watches gvk g w (e gvk) n ready in
      let (w2, rest, known2) = from_ready gvks g w1 e ready1 named in
      (
        w2,
        ap (λ p. and_then p.0 (λ u. start_watchers watch_error is_registered gvks) p.1) run ∙ rest,
        known2
            ∙ ap (λ b. b || (is_registered g && has_gvk g gvks)) known1
            ∙ or_and (has_gvk g w.watched) (is_registered g) (gvk_eq gvk g) (has_gvk g gvks),
      )

  -- `StartWatcher` is called after `SetupWithManager` on a new reconciler. If `Build` and `ctrl.Watch`
  -- return no error and every kind has a name, all the calls return, and then exactly the kinds that
  -- are registered and were asked for are watched.
  pub start_watchers-AreWatched :
      (gvks : List GroupVersionKind) (g : GroupVersionKind)
      → ((gvk : GroupVersionKind) → watch_error gvk ≡ none)
      → All (λ gvk. (gvk.kind == "") ≡ false) gvks
      → (w' : Watcher) × (start_watchers watch_error is_registered gvks
            (setup_with_manager none new_reconciler).1
          ≡ (ok tt, w'))
        × (has_gvk g w'.watched ≡ (is_registered g && has_gvk g gvks))
  unfolding setup_with_manager
  start_watchers-AreWatched gvks g e named =
      from_ready gvks g (record new_reconciler { is_set_up = true }) e (refl, refl) named
