-- ===== src/Coordinator.antt =====
-- cmd/coordinator/types: the plugin that connects a pod to its host, over the interface to netlink.
pub mod Veth
pub mod HostAddresses
pub mod Setup
pub mod Server
pub mod Plugin
pub mod HostLaws
pub mod HijackLaws
use virtnet.Prelude.{ℕ, Bool, List, [], ◌∷◌, ◌++◌, Text, bytes, take}
use virtnet.Ip.{Ip}
use virtnet.Networking.{Family}

-- Coordinator; the namespaces are part of the state of the host.
pub record Coordinator : Type 0 where
  pub first_invoke : Bool
  pub family : Family
  pub current_rule_table : ℕ
  pub host_rule_table : ℕ
  pub host_veth_name : Text
  pub pod_veth_name : Text
  pub hijack_cidr : List Text
  pub host_veth_hw_address : Text
  pub pod_veth_hw_address : Text
  pub current_pod_address : List Ip
  pub host_ip_route_for_pod : List Ip

-- K8sFirstNICName, DefaultUnderlayVethName and DefaultHostRulePriority
abbrev pub k8s_first_nic_name : Text
k8s_first_nic_name = bytes "eth0"

abbrev pub default_underlay_veth_name : Text
default_underlay_veth_name = bytes "veth0"

abbrev pub default_host_rule_priority : ℕ
default_host_rule_priority = 1000

-- GenerateHostVethName: the first 11 bytes of the container's id.
unfoldable pub generate_host_veth_name : Text → Text
generate_host_veth_name container_id = bytes "veth" ++ take 11 container_id
