-- ===== src/Coordinator/Plugin.antt =====
-- cmd/coordinator/main.go: the commands ADD and DEL of the plugin, behind the reading of their
-- arguments. The answer of the agent is an argument, as is the check for conflicting addresses,
-- which runs goroutines.
use virtnet.Prelude.{
  Bool, List, [], if◌then◌else◌, Text, text_eq, Outcome, ok, err, panic, out_of_fuel,
}
use virtnet.Ip.{Ip, Net}
use virtnet.Networking.{
  Netlink, Link, Step, Family, family_all, ◌>>=◌, ◌>>◌, pure, in_netns, is_not_exist, ignore_error,
}
use virtnet.Networking.Addresses.{get_ip_family_by_result, ip_address_by_name, get_adders_by_name}
use virtnet.Coordinator.{
  Coordinator, generate_host_veth_name, k8s_first_nic_name, default_underlay_veth_name,
}
use virtnet.Coordinator.Veth.{setup_veth, setup_neighborhood}
use virtnet.Coordinator.HostAddresses.{get_all_host_ip_route_for_pod}
use virtnet.Coordinator.Setup.{setup_host_routes, setup_hijack_routes}

-- skel.CmdArgs, the configuration and the previous result, with the fields that are read.
pub record CmdArgs : Type 0 where
  pub container_id : Text
  pub if_name : Text
  pub ip_conflict : Bool
  pub interfaces : List Text
  pub ips : List Ip

-- The Coordinator that ADD starts with.
unfoldable pub new_coordinator : CmdArgs → Family → List Text → Coordinator
unfolding generate_host_veth_name text_eq
new_coordinator args family service_cidr = record {
  first_invoke = text_eq k8s_first_nic_name args.if_name;
  family = family;
  current_rule_table = 0;
  host_rule_table = 0;
  host_veth_name = generate_host_veth_name args.container_id;
  pod_veth_name = default_underlay_veth_name;
  hijack_cidr = service_cidr;
  host_veth_hw_address = [];
  pod_veth_hw_address = [];
  current_pod_address = [];
  host_ip_route_for_pod = [];
}

module _ {S : Type 0} (nl : Netlink S)
    (get_ns get_current_ns check_conflicts : Step S (Unit {0})) where
  -- The part of cmdAdd behind the check.
  unfoldable pub connect : Net → CmdArgs → Coordinator → Step S (Unit {0})
  unfolding get_all_host_ip_route_for_pod ip_address_by_name setup_neighborhood setup_host_routes
      setup_hijack_routes
  connect net args c0 = do
    host_ips ← get_all_host_ip_route_for_pod nl c0.family
    pod_ips ← ip_address_by_name nl args.if_name c0.family
    c ←
        setup_neighborhood nl
          (record c0 { host_ip_route_for_pod = host_ips; current_pod_address = pod_ips })
    setup_host_routes nl c
    setup_hijack_routes nl net c c.current_rule_table

  -- cmdAdd
  unfoldable pub cmd_add : Net → CmdArgs → Outcome (List Text) → Step S (Unit {0})
  unfolding get_ip_family_by_result new_coordinator setup_veth connect
  cmd_add net args reply = do
    family ← pure (get_ip_family_by_result args.interfaces args.ips)
    service_cidr ← pure reply
    let c = new_coordinator args family service_cidr
    get_ns
    get_current_ns
    (if c.first_invoke then setup_veth nl c args.container_id else pure (ok tt))
    (if args.ip_conflict then check_conflicts else pure (ok tt))
    connect net args c

  -- The host's end is deleted if it is there; an error other than its absence ends DEL.
  abbrev delete_link : Outcome Link × S → Outcome (Unit {0}) × S
  delete_link (ok link, s) = nl.link_del link s
  delete_link (err e, s) = if is_not_exist e then (ok tt, s) else (err e, s)
  delete_link (panic, s) = (panic, s)
  delete_link (out_of_fuel, s) = (out_of_fuel, s)

  -- DEL in the pod's namespace: the addresses are read, and the error is logged only.
  unfoldable pub disconnect : CmdArgs → Step S (Unit {0})
  unfolding generate_host_veth_name get_adders_by_name
  disconnect args =
      (λ s. delete_link (nl.link_by_name (generate_host_veth_name args.container_id) s)) >> λ s.
      ignore_error (in_netns nl (get_adders_by_name nl args.if_name family_all) s)

  -- A namespace that is gone ends DEL without an error.
  abbrev unless_gone : Step S (Unit {0}) → Outcome (Unit {0}) × S → Outcome (Unit {0}) × S
  unless_gone rest (ok _, s) = rest s
  unless_gone rest (err e, s) = if is_not_exist e then (ok tt, s) else (err e, s)
  unless_gone rest (panic, s) = (panic, s)
  unless_gone rest (out_of_fuel, s) = (out_of_fuel, s)

  -- cmdDel
  unfoldable pub cmd_del : CmdArgs → Outcome (List Text) → Step S (Unit {0})
  unfolding disconnect
  cmd_del args reply = do service_cidr ← pure reply; λ s. unless_gone (disconnect args) (get_ns s)
