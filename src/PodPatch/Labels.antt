-- ===== src/PodPatch/Labels.antt =====
-- What `useGeneratedClient` leaves in the cluster.
use rancid_syncer.Base.{String, ◌≡◌, refl, ◌∙◌, ap, subst, Option, none, some, ◌==◌, if◌then◌else◌}
use rancid_syncer.Base.Dict.{Dict, lookup, insert, lookup-insert}
use rancid_syncer.Base.Outcome.{Outcome, ok, err, panic}
use rancid_syncer.Base.Effect.{pure, and_then}
use rancid_syncer.Kube.{ObjectKey}
use rancid_syncer.PodPatch.{
  Pod, pod_key, Pods, Verb, unchanged, patched, set_labels, patch_pod, use_generated_client,
}
use rancid_syncer.PodPatch.Laws.{label, IsPods, IsSame, IsCaused, Ends, patch_pod-Ends}

abbrev pub default_pod : ObjectKey
default_pod = record { namespace = "default"; name = "ha-postgres-0" }

-- The labels that are set, and those before.
abbrev pub labels_after : String → Option String → Option String
labels_after key before =
    if "wasm" == key then some "omg" else if "otel" == key then some "abc2" else before

set_labels_lem :
    (p : Pod) (labels : Dict String)
    → p.labels ≡ some labels
    → set_labels p
      ≡ ok (record p { labels = some (insert "wasm" "omg" (insert "otel" "abc2" labels)) })
unfolding set_labels
set_labels_lem p labels l = rw l refl

lookup-set_labels :
    (key : String) (labels : Dict String)
    → lookup key (insert "wasm" "omg" (insert "otel" "abc2" labels))
      ≡ labels_after key (lookup key labels)
lookup-set_labels key labels =
    lookup-insert "wasm" key "omg" (insert "otel" "abc2" labels)
    ∙ rw (lookup-insert "otel" key "abc2" labels) refl

-- A pod whose map of labels is nil makes `useGeneratedClient` panic.
use_generated_client_nil :
    (c : Pods) (p : Pod) (s : c.State)
    → c.get default_pod s ≡ ok p
    → p.labels ≡ none
    → use_generated_client c s ≡ (panic "assignment to entry in nil map", s)
unfolding use_generated_client patch_pod set_labels
use_generated_client_nil c p s g l = rw (g, l) refl

-- The pod with the two labels set.
abbrev pub relabelled : Pod → Dict String → Pod
relabelled p labels = record p { labels = some (insert "wasm" "omg" (insert "otel" "abc2" labels)) }

module _ (c : Pods) (lawful : IsPods c) (p : Pod) (labels : Dict String) (s : c.State) where
  -- How `useGeneratedClient` ends. If it returns without an error, the pod that is then stored has the
  -- two labels, and its other labels are those before.
  abbrev pub IsRelabelled : Outcome (Verb × String) → c.State → Type 0
  IsRelabelled (ok (verb, name)) after =
      (name ≡ "ha-postgres-0")
      × (q : Pod) × (c.get default_pod after ≡ ok q)
      × ((key : String) → label key q ≡ labels_after key (lookup key labels))
  IsRelabelled (err e) after = IsCaused c p (relabelled p labels) s (err e) (err e) after
  IsRelabelled (panic m) after = IsCaused c p (relabelled p labels) s (panic m) (panic m) after

  -- What `useGeneratedClient` makes of the result of `PatchPod`.
  abbrev reported : Outcome (Pod × Verb) × c.State → Outcome (Verb × String) × c.State
  reported (ok (pod, verb), after) = (ok (verb, pod.name), after)
  reported (err e, after) = (err e, after)
  reported (panic m, after) = (panic m, after)

  stored-IsRelabelled :
      (q : Pod) (verb : Verb) (after : c.State)
      → pod_key p ≡ default_pod
      → IsSame c p (relabelled p labels) s q (relabelled p labels)
      → c.get (pod_key p) after ≡ ok q
      → IsRelabelled (ok (verb, q.name)) after
  stored-IsRelabelled q verb after k (a, m, n) l =
      let (named, labelled) = lawful.faithful q (relabelled p labels) a m n in
      (
        ap (λ (x : ObjectKey). x.name) (named ∙ k),
        q,
        subst (λ x. c.get x after ≡ ok q) k l,
        λ key. labelled key ∙ lookup-set_labels key labels,
      )

  Ends-IsRelabelled :
      (r : Outcome (Pod × Verb)) (after : c.State)
      → c.get (pod_key p) s ≡ ok p
      → pod_key p ≡ default_pod
      → Ends c p (relabelled p labels) s r after
      → IsRelabelled (reported (r, after)).0 (reported (r, after)).1
  Ends-IsRelabelled (ok (pod, unchanged)) after g k (e, kept, same) =
      rw (e, kept) (stored-IsRelabelled p unchanged s k same g)
  Ends-IsRelabelled (ok (pod, patched)) after g k (differs, same, l) =
      stored-IsRelabelled pod patched after k same l
  Ends-IsRelabelled (err e) after g k h = h
  Ends-IsRelabelled (panic m) after g k h = h

  use_generated_client-eq-reported :
      c.get default_pod s ≡ ok p → use_generated_client c s ≡ reported (patch_pod c p set_labels s)
  unfolding use_generated_client
  use_generated_client-eq-reported g = rw g (by_outcome (patch_pod c p set_labels s))
    where
      by_outcome :
          (r : Outcome (Pod × Verb) × c.State)
          → and_then r.0 (λ out. pure (out.1, out.0.name)) r.1 ≡ reported r
      by_outcome (ok (pod, verb), after) = refl
      by_outcome (err e, after) = refl
      by_outcome (panic m, after) = refl

  -- With the libraries as documented (`IsPods`), and with a pod default/ha-postgres-0 whose map of
  -- labels is not nil: if `useGeneratedClient` returns no error, it prints the name of that pod, and
  -- the pod stored under that key afterwards has the labels otel=abc2 and wasm=omg and every other
  -- label as it was before. An error is that of a call that writes a document or makes the patch, with
  -- nothing changed, or that of the API server's patch call; so is a panic.
  pub use_generated_client_lem :
      c.get default_pod s ≡ ok p
      → pod_key p ≡ default_pod
      → p.labels ≡ some labels
      → IsRelabelled (use_generated_client c s).0 (use_generated_client c s).1
  use_generated_client_lem g k l =
      let stored : c.get (pod_key p) s ≡ ok p = rw k g in
      let ends =
        patch_pod-Ends c p (relabelled p labels) s lawful stored refl set_labels
          (set_labels_lem p labels l) in
      rw (use_generated_client-eq-reported g) (
        Ends-IsRelabelled (patch_pod c p set_labels s).0 (patch_pod c p set_labels s).1 stored k
          ends)
