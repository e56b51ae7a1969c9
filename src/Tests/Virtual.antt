-- ===== src/Tests/Virtual.antt =====
-- A node of a vcluster.
use rancid_syncer.Base.{◌≡◌, List, [], ◌∷◌, any, refl}
use rancid_syncer.Base.Outcome.{Outcome, ok}
use rancid_syncer.VCluster.{Node, is_vcluster}
use rancid_syncer.VCluster.Nodes.{is_virtual_node, is_vcluster-eq-any}

abbrev node : Node
node = record {
  annotations =
      ("vcluster.loft.sh/managed-annotations", "") ∷ ("vcluster.loft.sh/managed-labels", "") ∷ [];
  addresses = record { type = "Hostname"; address = "a.nodes.vcluster.com" } ∷ [];
}

abbrev listed : List Node → Outcome (List Node)
listed nodes = ok nodes

is_vcluster-eq-any_example : is_vcluster listed (node ∷ []) ≡ ok (any is_virtual_node (node ∷ []))
is_vcluster-eq-any_example = is_vcluster-eq-any listed (node ∷ []) (node ∷ []) refl
