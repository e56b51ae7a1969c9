-- ===== src/PodPatch.antt =====
-- pod-patch/main.go: `PatchPod`, `PatchPodObject` and what `useGeneratedClient` does with a pod.
pub mod Laws
pub mod Labels
use rancid_syncer.Base.{String, List, [], ◌∷◌, Option, none, some, Bool, ◌==◌, ◌||◌, if◌then◌else◌}
use rancid_syncer.Base.Dict.{Dict, insert}
use rancid_syncer.Base.Outcome.{Outcome, ok, err, panic}
use rancid_syncer.Base.Outcome
use rancid_syncer.Base.Effect.{Effect, pure, read, lift, ◌>>=◌}
use rancid_syncer.Kube.{ObjectKey}

-- A pod. A map that is nil has no entries, and none can be assigned.
pub record Pod : Type 0 where
  pub name : String
  pub namespace : String
  pub labels : Option (Dict String)

abbrev pub pod_key : Pod → ObjectKey
pod_key p = record { namespace = p.namespace; name = p.name }

-- The API server, JSON and `strategicpatch`.
pub record Pods : Type 1 where
  pub State : Type 0
  pub get : ObjectKey → State → Outcome Pod
  -- `[]byte`, and `string` of it.
  pub Bytes : Type 0
  pub text : Bytes → String
  pub marshal : Pod → Outcome Bytes
  pub create_two_way_merge_patch : Bytes → Bytes → Outcome Bytes
  pub patch : ObjectKey → Bytes → Effect State Pod

-- `kutil.VerbType`, with the two verbs that are returned.
pub data Verb : Type 0 where
  unchanged patched : Verb

abbrev pub is_empty_patch : String → Bool
is_empty_patch patch = patch == "" || patch == "{}"

-- `in.Labels[key] = value`
abbrev pub assign_label : String → String → Pod → Outcome Pod
assign_label key value p = assigned p.labels
  where
    assigned : Option (Dict String) → Outcome Pod
    assigned none = panic "assignment to entry in nil map"
    assigned (some labels) = ok (record p { labels = some (insert key value labels) })

-- The function that `useGeneratedClient` passes.
unfoldable pub set_labels : Pod → Outcome Pod
set_labels p = Outcome.◌>>=◌ (assign_label "otel" "abc2" p) (assign_label "wasm" "omg")

module _ (c : Pods) where
  unfoldable pub patch_pod_object : Pod → Pod → Effect c.State (Pod × Verb)
  patch_pod_object cur modified = do
    cur_json ← lift (c.marshal cur)
    modified_json ← lift (c.marshal modified)
    patch ← lift (c.create_two_way_merge_patch cur_json modified_json)
    if is_empty_patch (c.text patch)
        then pure (cur, unchanged)
        else (c.patch (pod_key cur) patch >>= λ out. pure (out, patched))

  unfoldable pub patch_pod : Pod → (Pod → Outcome Pod) → Effect c.State (Pod × Verb)
  unfolding patch_pod_object
  patch_pod cur transform = do modified ← lift (transform cur); patch_pod_object cur modified

  -- Returns what is printed, the verb and the name.
  unfoldable pub use_generated_client : Effect c.State (Verb × String)
  unfolding set_labels patch_pod
  use_generated_client = do
    p ← read (c.get (record { namespace = "default"; name = "ha-postgres-0" }))
    out ← patch_pod p set_labels
    pure (out.1, out.0.name)
