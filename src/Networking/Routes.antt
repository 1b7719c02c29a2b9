-- ===== src/Networking/Routes.antt =====
-- pkg/networking/networking/route.go: routes and rules.
use virtnet.Prelude.{
  ℕ, Bool, true, false, ◌&&◌, List, [], ◌∷◌, Option, none, some, if◌then◌else◌, Text, Outcome, ok,
  err, other, ◌==◌, text_eq,
}
use virtnet.Ip.{Ip, IpNet, nil_ip, v4, is_to4, ip_equal}
use virtnet.Networking.{
  Netlink, Route, NextHop, Scope, Step, Family, family_v4, family_v6, family_all, family_unknown,
  new_rule, ◌>>=◌, pure, in_netns, forgive, is_exist,
}

-- defaultRulePriority
abbrev pub default_rule_priority : ℕ
default_rule_priority = 1000

-- `dst == nil || dst.IP.Equal(net.IPv4zero)`
unfoldable pub is_default : Option IpNet → Bool
unfolding ip_equal
is_default none = true
is_default (some dst) = ip_equal dst.ip (v4 0)

-- The first next hop over the link.
unfoldable pub hop_of : ℕ → List NextHop → Option NextHop
hop_of index [] = none
hop_of index (h ∷ hs) = if h.link_index == index then some h else hop_of index hs

-- The loop of GetDefaultGatewayByName; the text of a gateway is the argument `ip_string`.
unfoldable pub gateways_of : (Ip → Text) → ℕ → List Route → List Text
unfolding is_default hop_of
gateways_of ip_string index [] = []
gateways_of ip_string index (route ∷ routes) =
    let rest = gateways_of ip_string index routes in
    if route.link_index == index
    then (if is_default route.dst then ip_string route.gw ∷ rest else rest)
    else elim (hop_of index route.multi_path) [ none ↦ rest | some h ↦ ip_string h.gw ∷ rest ]

-- The gateway that AddRoute sets for a destination; an unknown family is an error.
unfoldable pub gateway_for : Family → Option IpNet → Ip → Ip → Outcome Ip
gateway_for family_v4 dst v4_gw v6_gw = ok v4_gw
gateway_for family_v6 dst v4_gw v6_gw = ok v6_gw
gateway_for family_all none v4_gw v6_gw = ok nil_ip
gateway_for family_all (some dst) v4_gw v6_gw = if is_to4 dst.ip then ok v4_gw else ok v6_gw
gateway_for family_unknown dst v4_gw v6_gw = err other

-- `src.IP` of a source that is not nil
abbrev ip_or_nil : Option IpNet → Ip
ip_or_nil none = nil_ip
ip_or_nil (some n) = n.ip

-- ConvertMaxMaskIPNet
unfoldable pub convert_max_mask_ip_net : Ip → IpNet
convert_max_mask_ip_net nip = record { ip = nip; ones = if is_to4 nip then 32 else 128 }

module _ {S : Type 0} (nl : Netlink S) where
  -- GetRoutesByName; the empty name stands for all links.
  unfoldable pub get_routes_by_name : Text → Family → Step S (List Route)
  get_routes_by_name [] family = nl.route_list none family
  get_routes_by_name (c ∷ iface) family = do
    link ← nl.link_by_name (c ∷ iface)
    nl.route_list (some link) family

  -- GetDefaultGatewayByName
  unfoldable pub get_default_gateway_by_name : (Ip → Text) → Text → Family → Step S (List Text)
  unfolding get_routes_by_name gateways_of
  get_default_gateway_by_name ip_string iface family = do
    routes ← get_routes_by_name [] family
    link ← nl.link_by_name iface
    pure (ok (gateways_of ip_string link.index routes))

  -- AddToRuleTable
  unfoldable pub add_to_rule_table : Option IpNet → ℕ → Step S (Unit {0})
  add_to_rule_table dst rule_table = nl.rule_add (record new_rule { table = rule_table; dst = dst })

  -- DelToRuleTable
  unfoldable pub del_to_rule_table : Option IpNet → ℕ → Step S (Unit {0})
  del_to_rule_table dst rule_table = nl.rule_del (record new_rule { table = rule_table; dst = dst })

  -- AddRuleTableWithMark
  unfoldable pub add_rule_table_with_mark : ℕ → ℕ → Family → Step S (Unit {0})
  add_rule_table_with_mark mark rule_table family = nl.rule_add (record new_rule {
    mark = some mark;
    table = rule_table;
    family = some family;
    priority = some default_rule_priority;
  })

  -- AddFromRuleTable
  unfoldable pub add_from_rule_table : Option IpNet → ℕ → Step S (Unit {0})
  add_from_rule_table src rule_table =
      nl.rule_add (record new_rule { table = rule_table; src = src })

  -- DelFromRuleTable
  unfoldable pub del_from_rule_table : Option IpNet → ℕ → Step S (Unit {0})
  del_from_rule_table src rule_table =
      nl.rule_del (record new_rule { table = rule_table; src = src })

  -- AddRoute: a route that exists is no error.
  unfoldable pub add_route :
      ℕ → Family → Scope → Text → Option IpNet → Option IpNet → Ip → Ip → Step S (Unit {0})
  unfolding gateway_for
  add_route rule_table family scope iface src dst v4_gw v6_gw = do
    link ← nl.link_by_name iface
    gw ← pure (gateway_for family dst v4_gw v6_gw)
    λ s. forgive is_exist (
        nl.route_add
          (record {
            link_index = link.index;
            scope = scope;
            dst = dst;
            src = ip_or_nil src;
            gw = gw;
            table = rule_table;
            family = family_all;
            multi_path = [];
            mtu = 0;
          })
          s)

  abbrev name_unless : Text → Text → Text
  name_unless name [] = name
  name_unless name (c ∷ ignore) = if text_eq name (c ∷ ignore) then [] else name

  -- getDefaultRouteIface: the empty name if the link is the one to ignore.
  unfoldable pub get_default_route_iface : ℕ → Text → Step S Text
  unfolding text_eq
  get_default_route_iface link_index ignore = do
    link ← nl.link_by_index link_index
    pure (ok (name_unless link.name ignore))

  -- The first name that is not empty; the last one if all are empty.
  abbrev or_else : Step S Text → Step S Text → Step S Text
  or_else f g = f >>= λ name. elim name [ [] ↦ g | c ∷ s ↦ pure (ok (c ∷ s)) ]

  unfoldable pub first_of_hops : Text → List NextHop → Step S Text
  unfolding get_default_route_iface
  first_of_hops ignore [] = pure (ok [])
  first_of_hops ignore (h ∷ hs) =
      or_else (get_default_route_iface h.link_index ignore) (first_of_hops ignore hs)

  -- The loop for IPv6, over the next hops of every route.
  unfoldable pub first_v6 : Text → List Route → Step S Text
  unfolding first_of_hops
  first_v6 ignore [] = pure (ok [])
  first_v6 ignore (route ∷ routes) =
      or_else (first_of_hops ignore route.multi_path) (first_v6 ignore routes)

  abbrev is_family_v4 : Family → Bool
  is_family_v4 family_v4 = true
  is_family_v4 _ = false

  -- The loop over the default routes of IPv4.
  unfoldable pub first_v4 : Text → List Route → Step S Text
  unfolding get_default_route_iface is_default
  first_v4 ignore [] = pure (ok [])
  first_v4 ignore (route ∷ routes) =
      let rest = first_v4 ignore routes in
      if is_family_v4 route.family && is_default route.dst
      then or_else (get_default_route_iface route.link_index ignore) rest
      else rest

  abbrev first_default : Family → Text → List Route → Step S Text
  first_default family_v6 ignore routes = first_v6 ignore routes
  first_default _ ignore routes = first_v4 ignore routes

  -- GetDefaultRouteInterface
  unfoldable pub get_default_route_interface : Family → Text → Step S Text
  unfolding first_v6 first_v4
  get_default_route_interface family filter_interface =
      in_netns nl
        (do routes ← nl.route_list none family; first_default family filter_interface routes)
