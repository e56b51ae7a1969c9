-- ===== src/PodPatch/Laws.antt =====
-- What a patch of a pod leaves in the cluster.
use rancid_syncer.Base.{
  String, ◌⊎◌, ◌≡◌, refl, sym, ◌∙◌, ap, subst, Option, none, some, true, if◌then◌else◌, inl, inr,
  Bool-cases,
}
use rancid_syncer.Base.Dict.{Dict, lookup}
use rancid_syncer.Base.Outcome.{Outcome, ok, err, panic, ok-injective, Outcome-cases}
use rancid_syncer.Base.Effect.{Effect, pure, ◌>>=◌}
use rancid_syncer.Base.Entries.{true_not_false}
use rancid_syncer.PodPatch.{
  Pod, pod_key, Pods, Verb, unchanged, patched, is_empty_patch, patch_pod_object, patch_pod,
}

-- `in.Labels[key]`
abbrev pub label : String → Pod → Option String
label key p = labelled p.labels
  where
    labelled : Option (Dict String) → Option String
    labelled none = none
    labelled (some labels) = lookup key labels

-- The libraries as documented, for documents that `Marshal` wrote of pods. Pods of one document have
-- the same name, namespace and labels. The two-way merge patch of two documents is empty just if they
-- are equal. And where a call of the API server with the patch from the document of the stored pod to
-- that of another one returns a pod, this pod is stored and has the second document.
pub record IsPods (c : Pods) : Type 0 where
  pub faithful :
      (p q : Pod) (a : c.Bytes)
      → c.marshal p ≡ ok a
      → c.marshal q ≡ ok a
      → (pod_key p ≡ pod_key q) × ((key : String) → label key p ≡ label key q)
  pub empty :
      (p q : Pod) (a b patch : c.Bytes)
      → c.marshal p ≡ ok a
      → c.marshal q ≡ ok b
      → c.create_two_way_merge_patch a b ≡ ok patch
      → is_empty_patch (c.text patch) ≡ true
      → a ≡ b
  pub same :
      (p : Pod) (a patch : c.Bytes)
      → c.marshal p ≡ ok a
      → c.create_two_way_merge_patch a a ≡ ok patch
      → is_empty_patch (c.text patch) ≡ true
  pub stores :
      (cur modified q : Pod) (a b patch : c.Bytes) (s : c.State)
      → c.get (pod_key cur) s ≡ ok cur
      → c.marshal cur ≡ ok a
      → c.marshal modified ≡ ok b
      → pod_key modified ≡ pod_key cur
      → c.create_two_way_merge_patch a b ≡ ok patch
      → (c.patch (pod_key cur) patch s).0 ≡ ok q
      → (c.marshal q ≡ ok b) × (c.get (pod_key cur) (c.patch (pod_key cur) patch s).1 ≡ ok q)

module _ (c : Pods) (cur modified : Pod) (s : c.State) where
  -- The two pods were written as one document.
  abbrev pub IsSame : Pod → Pod → Type 0
  IsSame p q = (a : c.Bytes) × (c.marshal p ≡ ok a) × (c.marshal q ≡ ok a)

  -- The patch from the current pod to the modified one, as it was made.
  abbrev pub IsMade : Outcome c.Bytes → Type 0
  IsMade patch =
      (a : c.Bytes) × (b : c.Bytes) × (c.marshal cur ≡ ok a)
      × (c.marshal modified ≡ ok b)
      × (c.create_two_way_merge_patch a b ≡ patch)

  -- One of the calls failed so: one that writes a document or makes the patch, with nothing changed,
  -- or that of the API server with the patch.
  abbrev pub IsCaused : Outcome c.Bytes → Outcome Pod → c.State → Type 0
  IsCaused local remote after =
      ((after ≡ s) × ((c.marshal cur ≡ local) ⊎ ((c.marshal modified ≡ local) ⊎ IsMade local)))
      ⊎ ((patch : c.Bytes) × IsMade (ok patch) × (c.patch (pod_key cur) patch s ≡ (remote, after)))

  -- How `PatchPodObject` ends: with the current pod, if it has the document of the modified one; with
  -- another pod, which is stored and has that document, if the current one has not; or with the failure
  -- of one of its calls.
  abbrev pub Ends : Outcome (Pod × Verb) → c.State → Type 0
  Ends (ok (pod, unchanged)) after = (pod ≡ cur) × (after ≡ s) × IsSame cur modified
  Ends (ok (pod, patched)) after =
      ¬ IsSame cur modified × IsSame pod modified × (c.get (pod_key cur) after ≡ ok pod)
  Ends (err e) after = IsCaused (err e) (err e) after
  Ends (panic m) after = IsCaused (panic m) (panic m) after

  module _ (lawful : IsPods c) (stored : c.get (pod_key cur) s ≡ ok cur)
      (named : pod_key modified ≡ pod_key cur) where
    -- What follows on a patch that was made.
    abbrev send : c.Bytes → Effect c.State (Pod × Verb)
    send patch =
        if is_empty_patch (c.text patch)
        then pure (cur, unchanged)
        else (c.patch (pod_key cur) patch >>= λ out. pure (out, patched))

    IsSame-eq :
        (a b : c.Bytes)
        → c.marshal cur ≡ ok a
        → c.marshal modified ≡ ok b
        → IsSame cur modified
        → a ≡ b
    IsSame-eq a b m n (d, p, q) = ok-injective (sym m ∙ p ∙ sym q ∙ n)

    send-Ends :
        (a b patch : c.Bytes)
        → c.marshal cur ≡ ok a
        → c.marshal modified ≡ ok b
        → c.create_two_way_merge_patch a b ≡ ok patch
        → Ends (send patch s).0 (send patch s).1
    send-Ends a b patch m n t = elim (Bool-cases (is_empty_patch (c.text patch))) [
      | inl empty ↦
          let e = lawful.empty cur modified a b patch m n t empty in
          rw empty (refl, refl, (a, m, n ∙ ap (λ x. ok x) (sym e)))
      | inr full ↦ elim (Outcome-cases (c.patch (pod_key cur) patch s).0) [
        | inl (q, r) ↦
            let (document, l) = lawful.stores cur modified q a b patch s stored m n named t r in
            let differs : ¬ IsSame cur modified = λ same.
              let e : a ≡ b = IsSame-eq a b m n same in
              let nothing =
                lawful.same cur a patch m
                  (subst (λ x. c.create_two_way_merge_patch a x ≡ ok patch) (sym e) t) in
              absurd (true_not_false (sym nothing ∙ full)) in
            rw (full, r) (differs, (b, document, n), l)
        | inr (inl (e, r)) ↦
            rw (full, r)
              (inr (patch, (a, b, m, n, t), ap (λ x. (x, (c.patch (pod_key cur) patch s).1)) r))
        | inr (inr (e, r)) ↦
            rw (full, r)
              (inr (patch, (a, b, m, n, t), ap (λ x. (x, (c.patch (pod_key cur) patch s).1)) r))
      ]
    ]

    patch_pod_object-Ends :
        Ends (patch_pod_object c cur modified s).0 (patch_pod_object c cur modified s).1
    unfolding patch_pod_object
    patch_pod_object-Ends = elim (Outcome-cases (c.marshal cur)) [
      | inl (a, m) ↦ elim (Outcome-cases (c.marshal modified)) [
        | inl (b, n) ↦ elim (Outcome-cases (c.create_two_way_merge_patch a b)) [
          | inl (patch, t) ↦ rw (m, n, t) (send-Ends a b patch m n t)
          | inr (inl (e, t)) ↦ rw (m, n, t) (inl (refl, inr (inr (a, b, m, n, t))))
          | inr (inr (e, t)) ↦ rw (m, n, t) (inl (refl, inr (inr (a, b, m, n, t))))
        ]
        | inr (inl (e, n)) ↦ rw (m, n) (inl (refl, inr (inl n)))
        | inr (inr (e, n)) ↦ rw (m, n) (inl (refl, inr (inl n)))
      ]
      | inr (inl (e, m)) ↦ rw m (inl (refl, inl m))
      | inr (inr (e, m)) ↦ rw m (inl (refl, inl m))
    ]

    -- With the libraries as documented (`IsPods`), for a pod that is stored and a function that
    -- returns a pod under the same key, `PatchPod` ends in one of three ways. If the function's result
    -- has the document of the pod, it returns the pod itself as unchanged, and nothing is changed. If
    -- it has another document, a pod that is returned as patched is the one that is then stored under
    -- the key, and has the document of the function's result. An error or a panic is that of a call
    -- that writes a document or makes the patch, with nothing changed, or that of the API server's
    -- patch call, which gets the patch from the one document to the other.
    pub patch_pod-Ends :
        (transform : Pod → Outcome Pod)
        → transform cur ≡ ok modified
        → Ends (patch_pod c cur transform s).0 (patch_pod c cur transform s).1
    unfolding patch_pod
    patch_pod-Ends transform t = rw t patch_pod_object-Ends
