-- ===== src/Commands/Listings.antt =====
-- list-by-name/main.go, silence-warning/main.go and vcluster/main.go: `useKubebuilderClient`,
-- `useGeneratedClient` and `main`, after the set-up of the clients.
pub mod Laws
use rancid_syncer.Base.{String, ◌<>◌, List, [], ◌∷◌, map, Bool, true, false}
use rancid_syncer.Base.Dict.{Dict}
use rancid_syncer.Base.Outcome.{Outcome, ok}
use rancid_syncer.Kube.{ObjectKey}
use rancid_syncer.VCluster.{Node, is_vcluster}
use rancid_syncer.Commands.Console.{Program, query, println, print_all, run_main, pure, ◌>>=◌, ◌>>◌}

-- `client.ObjectKey.String`
abbrev pub key_text : ObjectKey → String
key_text key = key.namespace <> "/" <> key.name

-- The two clients, by the keys of the objects that a listing returns. The fields are those that an
-- object must have.
pub record Listing : Type 1 where
  pub State : Type 0
  pub list_dynamic : Dict String → State → Outcome (List ObjectKey)
  pub list_presets : Dict String → State → Outcome (List ObjectKey)
  pub list_nodes : State → Outcome (List ObjectKey)
  pub generated_nodes : State → Outcome (List ObjectKey)

abbrev pub named_presets : Dict String
named_presets = ("metadata.name", "capi-presets") ∷ []

module _ (c : Listing) where
  -- list-by-name: with the dynamic client, and then with the client of controller-runtime.
  unfoldable pub list_by_name : Program c.State (Unit {0})
  list_by_name = do
    println "Using kubebuilder client"
    list ← query (c.list_dynamic named_presets)
    print_all (map key_text list)
    presets ← query (c.list_presets named_presets)
    print_all (map key_text presets)

  -- silence-warning: `useGeneratedClient`, which is not called, and `useKubebuilderClient`.
  unfoldable pub list_generated_nodes : Program c.State (Unit {0})
  list_generated_nodes = do
    println "Using Generated client"
    nodes ← query c.generated_nodes
    print_all (map key_text nodes)

  unfoldable pub list_nodes : Program c.State (Unit {0})
  list_nodes = do
    println "Using kubebuilder client"
    nodes ← query c.list_nodes
    print_all (map key_text nodes)

-- vcluster
module _ {S : Type 0} (nodes : S → Outcome (List Node)) where
  abbrev pub bool_text : Bool → String
  bool_text true = "true"
  bool_text false = "false"

  unfoldable pub show_vcluster : Program S (Unit {0})
  show_vcluster = do
    println "Using kubebuilder client"
    vcluster ← query (is_vcluster nodes)
    println (bool_text vcluster)
