-- ===== src/Coordinator/HostAddresses.antt =====
-- cmd/coordinator/types/coordinator.go, GetAllHostIPRouteForPod: the addresses by which a pod
-- reaches its host.
use virtnet.Prelude.{
  Bool, true, false, not, ◌&&◌, List, [], ◌∷◌, ◌++◌, if◌then◌else◌, Text, bytes, ok,
}
use virtnet.Ip.{Ip, nil_ip, is_to4, ip_equal}
use virtnet.Networking.{Netlink, Step, Family, ◌>>=◌, pure, in_netns}
use virtnet.Networking.Addresses.{get_all_ip_address, get_gateway_ip, is_nil, wants_v4, wants_v6}

-- `k.Equal(t)` for some `k` of the list.
unfoldable pub is_listed : List Ip → Ip → Bool
unfolding ip_equal
is_listed [] t = false
is_listed (k ∷ ks) t = let rest = is_listed ks t in if ip_equal k t then true else rest

-- The gateway for an address of the pod; the nil address if there is none.
unfoldable pub gateway_of : Family → Ip × Ip → Ip
gateway_of family (v4_gw, v6_gw) =
    if not (is_nil v4_gw) && wants_v4 family
    then v4_gw
    else if not (is_nil v6_gw) && wants_v6 family
    then v6_gw
    else nil_ip

-- The body of the second loop.
unfoldable pub add_host_ip : Family → List Ip → Ip → List Ip
unfolding is_listed
add_host_ip family final t =
    if is_nil t
    then final
    else if is_listed final t
    then final
    else if is_to4 t
    then (if wants_v4 family then final ++ t ∷ [] else final)
    else (if wants_v6 family then final ++ t ∷ [] else final)

unfoldable pub add_host_ips : Family → List Ip → List Ip → List Ip
unfolding add_host_ip
add_host_ips family final [] = final
add_host_ips family final (t ∷ ts) = add_host_ips family (add_host_ip family final t) ts

-- defaultNodeInterfacesToExclude
abbrev pub default_node_interfaces_to_exclude : List Text
default_node_interfaces_to_exclude =
    bytes "docker.*"
    ∷ bytes "cbr.*"
    ∷ bytes "dummy.*"
    ∷ bytes "virbr.*"
    ∷ bytes "lxcbr.*"
    ∷ bytes "veth.*"
    ∷ bytes "^lo$"
    ∷ bytes "^cali.*"
    ∷ bytes "flannel.*"
    ∷ bytes "kube-ipvs.*"
    ∷ bytes "cni.*"
    ∷ bytes "vx-submariner"
    ∷ bytes "cilium*"
    ∷ []

module _ {S : Type 0} (nl : Netlink S) where
  -- The first loop, over the addresses of the pod.
  unfoldable pub add_gateways : Family → List Ip → List Ip → Step S (List Ip)
  unfolding get_gateway_ip gateway_of is_listed
  add_gateways family final [] = pure (ok final)
  add_gateways family final (item ∷ items) = do
    gws ← get_gateway_ip nl (item ∷ [])
    let t = gateway_of family gws
    add_gateways family (if is_listed final t then final else final ++ t ∷ []) items

  -- GetAllHostIPRouteForPod
  unfoldable pub get_all_host_ip_route_for_pod : Family → Step S (List Ip)
  unfolding get_all_ip_address add_gateways add_host_ips
  get_all_host_ip_route_for_pod family = do
    all_pod_ip ← in_netns nl (get_all_ip_address nl family (bytes "^lo$" ∷ []))
    final ← add_gateways family [] all_pod_ip
    additional_ip ← get_all_ip_address nl family default_node_interfaces_to_exclude
    pure (ok (add_host_ips family final additional_ip))
