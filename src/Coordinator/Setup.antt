-- ===== src/Coordinator/Setup.antt =====
-- cmd/coordinator/types/coordinator.go, SetupHostRoutes and SetupHijackRoutes.
use virtnet.Prelude.{
  ℕ, List, [], ◌∷◌, Option, none, some, if◌then◌else◌, Text, Outcome, ok, err, other,
}
use virtnet.Ip.{Ip, IpNet, Net, nil_ip}
use virtnet.Networking.{
  Netlink, Route, Step, Family, family_v4, family_v6, family_all, scope_link, scope_universe,
  new_rule, ◌>>=◌, ◌>>◌, pure, in_netns, forgive, is_exist, ignore_error, or_nothing,
}
use virtnet.Networking.Addresses.{get_gateway_ip, ip_net_equal?}
use virtnet.Networking.Routes.{add_route, convert_max_mask_ip_net}
use virtnet.Coordinator.{Coordinator, default_host_rule_priority}

-- The families for which a rule is added.
abbrev rule_families : Family → List Family
rule_families family_all = family_v4 ∷ family_v6 ∷ []
rule_families family = family ∷ []

-- net.ParseCIDR with its error
abbrev pub cidr_or_other : Option (Ip × IpNet) → Outcome (Ip × IpNet)
cidr_or_other none = err other
cidr_or_other (some p) = ok p

module _ {S : Type 0} (nl : Netlink S) where
  -- The routes of the pod to the addresses of the host.
  unfoldable pub routes_to_host : Coordinator → List Ip → Step S (Unit {0})
  unfolding add_route convert_max_mask_ip_net
  routes_to_host c [] = pure (ok tt)
  routes_to_host c (a ∷ addresses) =
      add_route nl c.current_rule_table c.family scope_link c.pod_veth_name none
        (some (convert_max_mask_ip_net a)) nil_ip nil_ip
      >> routes_to_host c addresses

  -- The rules that make the host look into its table; a rule that exists is no error.
  unfoldable pub add_host_rules : ℕ → List Family → Step S (Unit {0})
  add_host_rules table [] = pure (ok tt)
  add_host_rules table (family ∷ families) =
      (λ s. forgive is_exist (
        nl.rule_add
          (record new_rule {
            table = table;
            priority = some default_host_rule_priority;
            family = some family;
          })
          s))
      >> add_host_rules table families

  -- Deletes the routes to that subnet; errors are logged only.
  unfoldable pub clean_routes : IpNet → List Route → Step S (Unit {0})
  unfolding ip_net_equal?
  clean_routes ip_net [] = pure (ok tt)
  clean_routes ip_net (route ∷ routes) =
      let rest = clean_routes ip_net routes in
      if ip_net_equal? route.dst ip_net
      then (λ s. ignore_error (nl.route_del route s)) >> rest
      else rest

  -- The routes of the host to the addresses of the pod.
  unfoldable pub routes_to_pod : Coordinator → List Ip → Step S (Unit {0})
  unfolding clean_routes add_route convert_max_mask_ip_net
  routes_to_pod c [] = pure (ok tt)
  routes_to_pod c (a ∷ addresses) =
      let ip_net = convert_max_mask_ip_net a in
      (λ s. or_nothing (nl.route_list_table c.family c.host_rule_table s)) >>= λ routes.
      clean_routes ip_net routes
      >> add_route nl c.host_rule_table c.family scope_link c.host_veth_name none (some ip_net)
          nil_ip nil_ip
      >> routes_to_pod c addresses

  -- SetupHostRoutes
  unfoldable pub setup_host_routes : Coordinator → Step S (Unit {0})
  unfolding routes_to_host add_host_rules routes_to_pod
  setup_host_routes c =
      in_netns nl (routes_to_host c c.host_ip_route_for_pod)
      >> add_host_rules c.host_rule_table (rule_families c.family)
      >> routes_to_pod c c.current_pod_address

  -- The loop of SetupHijackRoutes; a text that is no subnet is an error.
  unfoldable pub hijack_routes : Net → ℕ → Coordinator → Ip × Ip → List Text → Step S (Unit {0})
  unfolding add_route
  hijack_routes net rule_table c gws [] = pure (ok tt)
  hijack_routes net rule_table c gws (hijack ∷ hijacks) = do
    (_, ip_net) ← pure (cidr_or_other (net.parse_cidr hijack))
    add_route nl rule_table c.family scope_universe c.pod_veth_name none (some ip_net) gws.0 gws.1
    hijack_routes net rule_table c gws hijacks

  -- SetupHijackRoutes
  unfoldable pub setup_hijack_routes : Net → Coordinator → ℕ → Step S (Unit {0})
  unfolding get_gateway_ip hijack_routes
  setup_hijack_routes net c rule_table = do
    gws ← get_gateway_ip nl c.current_pod_address
    in_netns nl (hijack_routes net rule_table c gws c.hijack_cidr)
