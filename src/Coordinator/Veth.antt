-- ===== src/Coordinator/Veth.antt =====
-- cmd/coordinator/types/coordinator.go, SetupVeth and SetupNeighborhood.
use virtnet.Prelude.{ℕ, Bool, true, false, List, [], ◌∷◌, if◌then◌else◌, Text, ok}
use virtnet.Ip.{Ip, ip_equal}
use virtnet.Networking.{Netlink, Neigh, Step, ◌>>=◌, ◌>>◌, pure, in_netns, ignore_error, or_nothing}
use virtnet.Networking.Mac.{get_hw_address_by_name, add_static_neighbor_table}
use virtnet.Coordinator.{Coordinator, generate_host_veth_name}

module _ {S : Type 0} (nl : Netlink S) where
  -- SetupVeth. The error of Netns.Do is overwritten by that of the next call.
  unfoldable pub setup_veth : Coordinator → Text → Step S (Unit {0})
  unfolding generate_host_veth_name
  setup_veth c container_id = do
    pod_veth_mac ← nl.generate_rand_mac
    host_veth_mac ← nl.generate_rand_mac
    let host_veth_name = generate_host_veth_name container_id
    λ s. ignore_error (
        in_netns nl
          (do
            container_interface ←
                nl.setup_veth_with_name c.pod_veth_name host_veth_name pod_veth_mac
            link ← nl.link_by_name container_interface
            nl.link_set_up link.name)
          s)
    host_veth_link ← nl.link_by_name host_veth_name
    nl.link_set_hardware_addr host_veth_link host_veth_mac

  unfoldable pub is_any : List Ip → Ip → Bool
  unfolding ip_equal
  is_any [] ip = false
  is_any (k ∷ ks) ip = let rest = is_any ks ip in if ip_equal k ip then true else rest

  -- The loop that deletes the neighbours with an address of the pod; errors are logged only.
  unfoldable pub clean_neighbors : List Ip → List Neigh → Step S (Unit {0})
  unfolding is_any
  clean_neighbors pod_ips [] = pure (ok tt)
  clean_neighbors pod_ips (n ∷ ns) =
      let rest = clean_neighbors pod_ips ns in
      if is_any pod_ips n.ip then (λ s. ignore_error (nl.neigh_del n s)) >> rest else rest

  -- The neighbours of a link, one for each address.
  unfoldable pub add_neighbors : ℕ → Text → List Ip → Step S (Unit {0})
  unfolding add_static_neighbor_table
  add_neighbors index hw_address [] = pure (ok tt)
  add_neighbors index hw_address (ip ∷ ips) =
      add_static_neighbor_table nl index ip hw_address >> add_neighbors index hw_address ips

  -- The neighbours of the pod: the addresses of the host.
  unfoldable pub pod_neighbors : Coordinator → Text → Step S (Unit {0})
  unfolding add_neighbors
  pod_neighbors c host_hw = in_netns nl (do
    pod_veth_link ← nl.link_by_name c.pod_veth_name
    add_neighbors pod_veth_link.index host_hw c.host_ip_route_for_pod)

  -- SetupNeighborhood; without FirstInvoke it ends behind the host's neighbours.
  unfoldable pub setup_neighborhood : Coordinator → Step S Coordinator
  unfolding get_hw_address_by_name clean_neighbors add_neighbors pod_neighbors
  setup_neighborhood c = do
    (host_hw, pod_hw) ← get_hw_address_by_name nl c.pod_veth_name c.host_veth_name
    ns ← λ s. or_nothing (nl.neigh_list c.family s)
    host_veth_link ← nl.link_by_name c.host_veth_name
    clean_neighbors c.current_pod_address ns
    add_neighbors host_veth_link.index pod_hw c.current_pod_address
    (if c.first_invoke then pod_neighbors c host_hw else pure (ok tt))
    pure (ok (record c { host_veth_hw_address = host_hw; pod_veth_hw_address = pod_hw }))
