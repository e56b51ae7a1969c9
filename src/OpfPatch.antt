-- ===== src/OpfPatch.antt =====
-- opf-patch/main.go: a JSON patch for the values of the chart opscenter-features, and what it makes of
-- the default values.
pub mod Base
pub mod Run
use rancid_syncer.Base.{String, ◌<>◌, List, [], ◌∷◌}
use rancid_syncer.Base.Outcome.{Outcome, ok, err, panic, failure, ◌>>=◌}
use rancid_syncer.OpfPatch.Base.{base_lines}

-- The Go values that the program marshals: a `map[string]any` has members in the order in which they
-- are written.
mutual
  pub data Value : Type 0 where
    text : String → Value
    texts : List String → Value
    object : Members → Value

  pub data Members : Type 0 where
    end : Members
    member : String → Value → Members → Members

-- encoding/json, gomodules.xyz/jsonpatch (which makes patches), evanphx/json-patch (which decodes and
-- applies them) and sigs.k8s.io/yaml.
pub record Json : Type 1 where
  pub Operations : Type 0
  pub Patch : Type 0
  pub marshal : Value → Outcome String
  pub create_patch : String → String → Outcome Operations
  pub marshal_indent : Operations → Outcome String
  pub decode_patch : String → Outcome Patch
  pub apply : Patch → String → Outcome String
  pub yaml_to_json : String → Outcome String

-- The lines of a text.
unfoldable pub join_lines : List String → String
join_lines [] = ""
join_lines (line ∷ []) = line
join_lines (line ∷ lines) = line <> "\n" <> join_lines lines

abbrev pub base : String
base = join_lines base_lines

abbrev pub repositories : Value
repositories = object (
    member "appscode-charts-oci" (object (member "url" (text "oci://ghcr.io/appscode-charts") end))
      end)

abbrev pub patch_values : Value
patch_values = object (
    member "capi"
      (object (
        member "provider" (text "opts.clusterInfo.Status.ClusterAPI.Provider") (
          member "namespace" (text "opts.clusterInfo.Status.ClusterAPI.Namespace")
            (member "clusterName" (text "opts.clusterInfo.Status.ClusterAPI.ClusterName") end))))
      (member "clusterManagers" (texts ("rancher" ∷ "ace" ∷ []))
        (member "helm" (object (member "repositories" repositories end)) end)))

abbrev pub no_values : Value
no_values = object (member "helm" (object (member "repositories" (object end) end)) end)

module _ (json : Json) where
  unfoldable pub create_json_patch : Value → Value → Outcome String
  create_json_patch empty custom = do
    empty_bytes ← json.marshal empty
    custom_bytes ← json.marshal custom
    patch ← json.create_patch empty_bytes custom_bytes
    json.marshal_indent patch

  unfoldable pub get_opscenter_features_patch_values : Outcome String
  unfolding create_json_patch
  get_opscenter_features_patch_values = create_json_patch no_values patch_values

  -- `errors.New("failed to convert values file")`, in place of the error of `YAMLToJSON`.
  abbrev pub converted : Outcome String → Outcome String
  converted (ok bytes) = ok bytes
  converted (err e) = err (failure "failed to convert values file")
  converted (panic m) = panic m

  -- The document that `applyPatch` prints.
  unfoldable pub patched_base : String → Outcome String
  patched_base bytes = do
    patch ← json.decode_patch bytes
    base_bytes ← converted (json.yaml_to_json base)
    json.apply patch base_bytes
