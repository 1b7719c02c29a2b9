-- ===== src/Coordinator/Server.antt =====
-- pkg/coordinator/coordinator.go and GetServiceClusterIPRange of pkg/pod/pod_client.go: the agent's
-- answer to the plugin, the addresses of the cluster's services.
use virtnet.Prelude.{
  Bool, true, false, ◌&&◌, List, [], ◌∷◌, if◌then◌else◌, Text, bytes, text_eq, split, Outcome, ok,
  err, panic, out_of_fuel, other, ◌==◌, ◌>>=◌,
}
use virtnet.Ip.{IpNet, Net, ipv4}
use virtnet.Ip.Cidr.{parse_ip}

-- A container of a pod, with the fields that are read.
pub record Container : Type 0 where
  pub name : Text
  pub command : List Text

-- strings.HasPrefix, the prefix first.
unfoldable pub has_prefix : Text → Text → Bool
has_prefix [] s = true
has_prefix (c ∷ p) [] = false
has_prefix (c ∷ p) (d ∷ s) = let rest = has_prefix p s in c == d && rest

abbrev pub range_flag : Text
range_flag = bytes "--service-cluster-ip-range="

-- The value of the flag: the text must have one equals sign.
unfoldable pub parse_range : Net → List Text → Outcome IpNet
unfolding parse_ip
parse_range net (_ ∷ ip_range ∷ []) = elim (parse_ip net ipv4 ip_range true) [
  | ok n ↦ ok n
  | err _ ↦ err other
  | panic ↦ panic
  | out_of_fuel ↦ out_of_fuel
]
parse_range net _ = err other

-- The loop over the command of the container: the first text with the flag decides.
unfoldable pub range_of_command : Net → List Text → Outcome IpNet
unfolding has_prefix split parse_range
range_of_command net [] = err other
range_of_command net (cmd ∷ cmds) =
    let rest = range_of_command net cmds in
    if has_prefix range_flag cmd then parse_range net (split b'=' cmd) else rest

-- The first container of that name, and its command.
unfoldable pub range_of_containers : Net → List Container → Outcome IpNet
unfolding range_of_command text_eq
range_of_containers net [] = err other
range_of_containers net (container ∷ containers) =
    let rest = range_of_containers net containers in
    if text_eq container.name (bytes "kube-apiserver")
    then range_of_command net container.command
    else rest

-- The containers of the first pod.
abbrev first_pod : List (List Container) → Outcome (List Container)
first_pod [] = err other
first_pod (pod ∷ _) = ok pod

-- GetServiceClusterIPRange, on what the cache lists: the pods of the API server.
unfoldable pub get_service_cluster_ip_range : Net → Outcome (List (List Container)) → Outcome IpNet
unfolding range_of_containers
get_service_cluster_ip_range net pods = do
  items ← pods
  containers ← first_pod items
  range_of_containers net containers

-- GetCoordinatorConfig, for a request that the generated ValidateAll accepts.
unfoldable pub get_coordinator_config : Net → Outcome (List (List Container)) → Outcome (List Text)
unfolding get_service_cluster_ip_range
get_coordinator_config net pods = elim (get_service_cluster_ip_range net pods) [
  | ok ipnet ↦ ok (net.net_string ipnet ∷ [])
  | err _ ↦ err other
  | panic ↦ panic
  | out_of_fuel ↦ out_of_fuel
]
