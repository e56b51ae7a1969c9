-- ===== src/VCluster.antt =====
-- vcluster/main.go: `IsVCluster`, a test on the nodes of a cluster. The list call is a parameter.
pub mod Nodes
use Prim.Native.String.{String}
use rancid_syncer.Base.{List, [], ◌∷◌, Bool, true, false, ◌&&◌, ◌==◌, if◌then◌else◌}
use rancid_syncer.Base.Dict.{has_key}
use rancid_syncer.Base.Outcome.{Outcome, ok, ◌>>=◌}
use rancid_syncer.Kube.{Labels}

-- `strings.HasSuffix(s, suffix)`
unfoldable pub ends_with : String → String → Bool
ends_with String.[] suffix = suffix == ""
ends_with (String.◌∷◌ c s) suffix =
    let rest = ends_with s suffix in if String.◌∷◌ c s == suffix then true else rest

pub record NodeAddress : Type 0 where
  pub type : String
  pub address : String

pub record Node : Type 0 where
  pub annotations : Labels
  pub addresses : List NodeAddress

abbrev pub has_annotations : String → String → Node → Bool
has_annotations first second node =
    has_key first node.annotations && has_key second node.annotations

-- The inner loop, which returns true at the first address that fits.
unfoldable pub some_address : Bool → List NodeAddress → Bool
unfolding ends_with
some_address marked [] = false
some_address marked (addr ∷ addresses) =
    let rest = some_address marked addresses in
    if addr.type == "Hostname"
    then (if marked && ends_with addr.address ".nodes.vcluster.com" then true else rest)
    else rest

abbrev pub is_marked : Node → Bool
is_marked = has_annotations "vcluster.loft.sh/managed-annotations" "vcluster.loft.sh/managed-labels"

-- The outer loop: what the inner loop returns ends it.
unfoldable pub some_node : List Node → Bool
unfolding some_address
some_node [] = false
some_node (node ∷ nodes) =
    let rest = some_node nodes in
    if some_address (is_marked node) node.addresses then true else rest

unfoldable pub is_vcluster : {S : Type 0} → (S → Outcome (List Node)) → S → Outcome Bool
unfolding some_node
is_vcluster list_nodes s = do nodes ← list_nodes s; ok (some_node nodes)
