-- ===== src/Tests/Pods.antt =====
-- The patch of a pod, with bytes that hold the pod itself and a store that is a function.
use rancid_syncer.Base.{
  String, ◌≡◌, refl, sym, ap, ◌∙◌, subst, [], ◌∷◌, some, Bool, true, false, eq_iff, if◌then◌else◌,
}
use rancid_syncer.Base.Entries.{String-discrete}
use rancid_syncer.Base.Dict.{insert}
use rancid_syncer.Base.Outcome.{Outcome, ok, ok-injective}
use rancid_syncer.Base.Effect.{Effect}
use rancid_syncer.Kube.{ObjectKey, key_eq}
use rancid_syncer.PodPatch.{
  Pod, pod_key, Pods, is_empty_patch, set_labels, patch_pod, use_generated_client,
}
use rancid_syncer.PodPatch.Laws.{IsPods, Ends, label, patch_pod-Ends}
use rancid_syncer.PodPatch.Labels.{IsRelabelled, use_generated_client_lem}

-- Whether the bytes are a difference, and the pod.
abbrev Bytes : Type 0
Bytes = Bool × Pod

Bytes-discrete : Discrete Bytes
Bytes-discrete = hlevel String-discrete

abbrev Store : Type 0
Store = ObjectKey → Outcome Pod

abbrev text : Bytes → String
text (true, p) = "patch"
text (false, p) = "{}"

abbrev difference : (a b : Bytes) → Dec (a ≡ b) → Bytes
difference a b (yes e) = (false, b.1)
difference a b (no d) = (true, b.1)

abbrev stored : ObjectKey → Bytes → Effect Store Pod
stored key bytes s = (ok bytes.1, λ k. if key_eq k key then ok bytes.1 else s k)

abbrev pods : Pods
pods = record {
  State = Store;
  get = λ key s. s key;
  Bytes = Bytes;
  text = text;
  marshal = λ p. ok (true, p);
  create_two_way_merge_patch = λ a b. ok (difference a b (Bytes-discrete a b));
  patch = stored;
}

key_eq_refl : (k : ObjectKey) → key_eq k k ≡ true
key_eq_refl k = rw ((eq_iff k.namespace k.namespace).1 refl, (eq_iff k.name k.name).1 refl) refl

difference-empty :
    (a b : Bytes) (d : Dec (a ≡ b)) → is_empty_patch (text (difference a b d)) ≡ true → a ≡ b
difference-empty a b (yes e) h = e
difference-empty a b (no n) h = cc

difference-same : (a : Bytes) (d : Dec (a ≡ a)) → text (difference a a d) ≡ "{}"
difference-same a (yes e) = refl
difference-same a (no n) = absurd (n refl)

difference-pod : (a b : Bytes) (d : Dec (a ≡ b)) → (difference a b d).1 ≡ b.1
difference-pod a b (yes e) = refl
difference-pod a b (no n) = refl

written : (p : Pod) (a : Bytes) → pods.marshal p ≡ ok a → p ≡ a.1
written p a e = ap (λ (x : Bytes). x.1) (ok-injective e)

pods-IsPods : IsPods pods
pods-IsPods = record {
  faithful = λ p q a m n.
      let e : p ≡ q = written p a m ∙ sym (written q a n) in
      (ap pod_key e, λ key. ap (label key) e);
  empty = λ p q a b patch m n e h.
      difference-empty a b (Bytes-discrete a b)
        (subst (λ x. is_empty_patch (text x) ≡ true) (sym (ok-injective e)) h);
  same = λ p a patch m e.
      subst (λ x. is_empty_patch (text x) ≡ true) (ok-injective e)
        (rw (difference-same a (Bytes-discrete a a)) refl);
  stores = λ cur modified q a b patch s g m n k e r.
      let same_pod : patch.1 ≡ modified =
        ap (λ (x : Bytes). x.1) (sym (ok-injective e))
        ∙ difference-pod a b (Bytes-discrete a b)
        ∙ sym (written modified b n) in
      let same : q ≡ modified = sym (ok-injective r) ∙ same_pod in
      (rw same n, rw (key_eq_refl (pod_key cur)) r);
}

abbrev pod : Pod
pod = record {
  name = "ha-postgres-0";
  namespace = "default";
  labels = some (("app", "pg") ∷ ("otel", "x") ∷ []);
}

abbrev world : Store
world key = ok pod

abbrev changed : Pod
changed = record pod { labels = some (("app", "pg") ∷ ("otel", "abc2") ∷ ("wasm", "omg") ∷ []) }

transformed : set_labels pod ≡ ok changed
unfolding set_labels insert
transformed = refl

patch_pod_example :
    Ends pods pod changed world
      (patch_pod pods pod set_labels world).0
      (patch_pod pods pod set_labels world).1
patch_pod_example =
    patch_pod-Ends pods pod changed world pods-IsPods refl refl set_labels transformed

use_generated_client_example :
    IsRelabelled pods pods-IsPods pod
      (("app", "pg") ∷ ("otel", "x") ∷ [])
      world
      (use_generated_client pods world).0
      (use_generated_client pods world).1
use_generated_client_example =
    use_generated_client_lem pods pods-IsPods pod (("app", "pg") ∷ ("otel", "x") ∷ []) world refl
      refl refl
