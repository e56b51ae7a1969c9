-- ===== src/VCluster/Nodes.antt =====
-- The loops of `IsVCluster` against a predicate on a node.
use rancid_syncer.Base.{
  ◌≡◌, refl, ap, List, [], ◌∷◌, Bool, true, false, ◌&&◌, ◌||◌, ◌==◌, any, if◌then◌else◌,
}
use rancid_syncer.Base.Dict.{has_key}
use rancid_syncer.Base.Outcome.{Outcome, ok}
use rancid_syncer.VCluster.{
  ends_with, NodeAddress, Node, is_marked, some_address, some_node, is_vcluster,
}

-- The address is the host name of a node of a vcluster.
abbrev pub is_virtual : NodeAddress → Bool
is_virtual addr = addr.type == "Hostname" && ends_with addr.address ".nodes.vcluster.com"

-- The node has both annotations, and some address is such a host name.
abbrev pub is_virtual_node : Node → Bool
is_virtual_node node =
    (has_key "vcluster.loft.sh/managed-annotations" node.annotations
      && has_key "vcluster.loft.sh/managed-labels" node.annotations)
    && any is_virtual node.addresses

-- `◌&&◌` and the conditional by cases of the tests.
address_cases :
    (marked host suffix rest : Bool)
    → (if host then (if marked && suffix then true else marked && rest) else marked && rest)
      ≡ (marked && (host && suffix || rest))
address_cases true true true rest = refl
address_cases true true false rest = refl
address_cases true false suffix rest = refl
address_cases false true suffix rest = refl
address_cases false false suffix rest = refl

some_address-eq-any :
    (marked : Bool) (addresses : List NodeAddress)
    → some_address marked addresses ≡ (marked && any is_virtual addresses)
unfolding some_address
some_address-eq-any true [] = refl
some_address-eq-any false [] = refl
some_address-eq-any marked (addr ∷ addresses) = rw (some_address-eq-any marked addresses) (
    address_cases marked (addr.type == "Hostname") (ends_with addr.address ".nodes.vcluster.com")
      (any is_virtual addresses))

some_node-eq-any : (nodes : List Node) → some_node nodes ≡ any is_virtual_node nodes
unfolding some_node
some_node-eq-any [] = refl
some_node-eq-any (node ∷ nodes) =
    rw (some_address-eq-any (is_marked node) node.addresses, some_node-eq-any nodes)
      (or_cases (is_virtual_node node) (any is_virtual_node nodes))
  where
    or_cases : (a b : Bool) → (if a then true else b) ≡ (a || b)
    or_cases true b = refl
    or_cases false b = refl

-- If the nodes are listed, `IsVCluster` returns without an error, and returns true exactly when
-- some node has both annotations of vcluster and a host name under `.nodes.vcluster.com`.
pub is_vcluster-eq-any :
    {S : Type 0} (list_nodes : S → Outcome (List Node)) (s : S) (nodes : List Node)
    → list_nodes s ≡ ok nodes
    → is_vcluster list_nodes s ≡ ok (any is_virtual_node nodes)
unfolding is_vcluster
is_vcluster-eq-any list_nodes s nodes e = rw e (ap ok (some_node-eq-any nodes))
