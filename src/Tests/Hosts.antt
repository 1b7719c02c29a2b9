-- ===== src/Tests/Hosts.antt =====
-- The theorems on the plugins and on networking at concrete inputs: a host with one interface.
use virtnet.Prelude.{
  ℕ, zero, suc, ◌^◌, ap, sym, subst, ◌≡◌, refl, ◌⊎◌, inl, inr, Bool, true, false, List, [], ◌∷◌,
  ◌++◌, Option, none, some, bytes, Error, ok, err, other, timeout, All, arith,
}
use virtnet.Ip.{IpNet, v4, v6}
use virtnet.Ip.Cidr.{parse_ip}
use virtnet.Networking.{Netlink, Link, Route, Step, family_v4, family_all, scope_universe}
use virtnet.Networking.MacLaws.{inet_aton_injective}
use virtnet.Networking.Checking.{
  Ndp, neighbor_advertisement, link_layer_address, ip_checking_by_ndp,
}
use virtnet.Networking.CheckingLaws.{Taken, ip_checking_by_ndp-err}
use virtnet.Coordinator.{Coordinator}
use virtnet.Coordinator.Plugin.{CmdArgs, new_coordinator}
use virtnet.Coordinator.HostAddresses.{get_all_host_ip_route_for_pod}
use virtnet.Coordinator.HostLaws.{IsDistinct, get_all_host_ip_route_for_pod-IsDistinct}
use virtnet.Coordinator.Setup.{setup_hijack_routes}
use virtnet.Coordinator.HijackLaws.{PodRoutes, HasCidr, setup_hijack_routes-HasCidr}
use virtnet.Ipam.{Agent, store_endpoint, configs_of, generate_endpoint}
use virtnet.Ipam.Command.{cmd_add}
use virtnet.Ipam.CommandLaws.{cmd_add-allocated}
use virtnet.Tests.{dotted}
use virtnet.Tests.Pools.{pod}
use virtnet.Tests.Requests.{reader, candidate, agent, detail, web_1_after, own}

-- Whether the calls are made in the pod's namespace, and the routes of the pod.
pub record Host : Type 0 where
  pub in_pod : Bool
  pub routes : List (ℕ × Option IpNet)

abbrev pub eth0 : Link
eth0 = record { index = 2; name = bytes "eth0"; hardware_addr = bytes "02"; parent_index = some 5 }

abbrev pub to_gateway : Route
to_gateway = record {
  link_index = 2;
  scope = scope_universe;
  dst = none;
  src = v4 0xa000001;
  gw = v4 0xa000001;
  table = 0;
  family = family_v4;
  multi_path = [];
  mtu = 0;
}

abbrev pub with_route : ℕ → Option IpNet → Host → Host
with_route table d s = record s { routes = (table, d) ∷ s.routes }

abbrev pub done : Step Host (Unit {0})
done s = (ok tt, s)

-- Every call works, except that no pair of interfaces can be made.
abbrev pub host : Netlink Host
host = record {
  link_by_name = λ name s. (ok eth0, s);
  link_by_index = λ index s. (ok eth0, s);
  link_list = λ s. (ok (eth0 ∷ []), s);
  link_add = λ name. done;
  link_del = λ link. done;
  link_set_up = λ name. done;
  link_set_hardware_addr = λ link address. done;
  link_set_bond_slave = λ link bond. done;
  addr_list = λ link family s. (ok (v4 0xa000007 ∷ v6 (2 ^ 126) ∷ v4 0xa000007 ∷ []), s);
  route_get = λ ip s. (ok (to_gateway ∷ []), s);
  route_list = λ link family s. (ok [], s);
  route_list_table = λ family table s. (ok [], s);
  route_add = λ r s. (ok tt, with_route r.table r.dst s);
  route_del = λ r. done;
  rule_add = λ r. done;
  rule_del = λ r. done;
  neigh_list = λ family s. (ok [], s);
  neigh_add = λ n. done;
  neigh_del = λ n. done;
  generate_rand_mac = λ s. (ok (bytes "0a"), s);
  setup_veth_with_name = λ pod_name host_name mac s. (err other, s);
  enter = λ s. (ok tt, record s { in_pod = true });
  leave = λ s. record s { in_pod = false };
  is_multicast = λ ip. false;
  is_link_local_unicast = λ ip. false;
  matches = λ e. some (λ name. false);
}

abbrev pub start : Host
start = record { in_pod = false; routes = [] }

abbrev pub IsRoute : ℕ → Option IpNet → List (ℕ × Option IpNet) → Type 0
IsRoute table d [] = ⊥
IsRoute table d (r ∷ rs) = (r ≡ (table, d)) ⊎ IsRoute table d rs

entered-in_pod : (s s2 : Host) → host.enter s ≡ (ok tt, s2) → s2.in_pod ≡ true
entered-in_pod s s2 h = let e : record s { in_pod = true } ≡ s2 = cc in ap (λ x. x.in_pod) (sym e)

pub added-IsRoute :
    (r : Route) (s s2 : Host)
    → (host.route_add r s ≡ (ok tt, s2)) ⊎ (host.route_add r s ≡ (err Error.exists, s2))
    → IsRoute r.table r.dst s2.routes
added-IsRoute r s s2 (inl h) =
    let e : with_route r.table r.dst s ≡ s2 = cc in
    subst (λ x. IsRoute r.table r.dst x.routes) e (inl refl)
added-IsRoute r s s2 (inr h) = cc

pod_routes : PodRoutes host
pod_routes = record {
  InPod = λ s. s.in_pod ≡ true;
  Has = λ s table n. IsRoute table (some n) s.routes;
  entered = λ s s2 h. entered-in_pod s s2 h;
  in_link = λ name s h. h;
  in_add = λ r s h. h;
  added = λ r n s s2 inside to_n h.
      subst (λ d. IsRoute r.table d s2.routes) to_n (added-IsRoute r s s2 h);
  kept_link = λ table n name s h. h;
  kept_add = λ table n r s h. inr h;
  kept_leave = λ table n s h. h;
}

abbrev args : CmdArgs
args = record {
  container_id = bytes "0123456789abcdef";
  if_name = bytes "eth0";
  ip_conflict = false;
  interfaces = bytes "eth0" ∷ [];
  ips = v4 0xa000007 ∷ [];
}

abbrev coordinator : Coordinator
coordinator = new_coordinator args family_v4 (bytes "10.96.0.0/12" ∷ [])

hijack_run : setup_hijack_routes host dotted coordinator 0 start ≡ (
  ok tt,
  record { in_pod = false; routes = (0, some (record { ip = v4 0xa600000; ones = 12 })) ∷ [] },
)
unfolding setup_hijack_routes dotted new_coordinator
hijack_run = refl

setup_hijack_routes-HasCidr_example :
    All
      (HasCidr host pod_routes dotted 0 (record {
        in_pod = false;
        routes = (0, some (record { ip = v4 0xa600000; ones = 12 })) ∷ [];
      }))
      coordinator.hijack_cidr
setup_hijack_routes-HasCidr_example =
    setup_hijack_routes-HasCidr host pod_routes dotted coordinator 0 start
      (record { in_pod = false; routes = (0, some (record { ip = v4 0xa600000; ones = 12 })) ∷ [] })
      hijack_run

addresses_run :
    get_all_host_ip_route_for_pod host family_all start
    ≡ (ok (v4 0xa000001 ∷ v4 0xa000007 ∷ v6 (2 ^ 126) ∷ []), start)
unfolding get_all_host_ip_route_for_pod
addresses_run = refl

get_all_host_ip_route_for_pod-IsDistinct_example :
    IsDistinct (v4 0xa000001 ∷ v4 0xa000007 ∷ v6 (2 ^ 126) ∷ [])
get_all_host_ip_route_for_pod-IsDistinct_example =
    get_all_host_ip_route_for_pod-IsDistinct host family_all start start
      (v4 0xa000001 ∷ v4 0xa000007 ∷ v6 (2 ^ 126) ∷ []) addresses_run

inet_aton_injective_example : ◌≡◌ {A = ℕ} 0xa000007 0xa000007
inet_aton_injective_example =
    inet_aton_injective 0xa000007 0xa000007 (omega arith) (omega arith) (omega arith) (omega arith)
      refl

-- The first probe gets no reply in time, the second one gets one.
abbrev neighbours : Ndp ℕ
neighbours = record {
  solicited_node_multicast = λ ip. ok ip;
  write_to = λ ip s. (ok tt, s);
  set_read_deadline = λ s. (ok tt, s);
  read_from = λ s. elim s [
    | zero ↦ (err timeout, 1)
    | suc n ↦
        (ok (neighbor_advertisement (v6 (2 ^ 126)) (link_layer_address (bytes "0b") ∷ [])), suc n)
  ];
}

checking_run : ip_checking_by_ndp neighbours 3 (v6 (2 ^ 126)) (bytes "0a") 0 ≡ (err other, 1)
unfolding ip_checking_by_ndp
checking_run = refl

ip_checking_by_ndp-err_example : Taken neighbours (v6 (2 ^ 126)) 3 (bytes "0a") 0 1
ip_checking_by_ndp-err_example =
    (ip_checking_by_ndp-err neighbours (v6 (2 ^ 126)) 3 (bytes "0a") 0 1).0 checking_run

abbrev agent_after : Agent
agent_after = record agent {
  cluster = record agent.cluster {
    endpoints = agent.cluster.endpoints ++ generate_endpoint pod (detail ∷ []) (own, own, own) ∷ [];
  };
}

store_run :
    store_endpoint dotted reader candidate pod (ok (web_1_after, v4 0xa000008)) agent
    ≡ (ok (configs_of (detail ∷ [])), agent_after)
unfolding store_endpoint dotted
store_run = refl

cmd_add-allocated_example :
    cmd_add dotted candidate.nic (ok (configs_of (detail ∷ [])))
    ≡ ok (record { ip = v4 0xa000008; ones = 24 } ∷ [])
unfolding dotted parse_ip
cmd_add-allocated_example =
    cmd_add-allocated dotted reader candidate pod web_1_after 0xa000008 24 (v4 0xa000000)
      (record { ip = v4 0xa000000; ones = 24 }) agent agent_after (configs_of (detail ∷ [])) refl
      refl refl store_run
