-- ===== src/Networking/Moving.antt =====
-- pkg/networking/networking/route.go, MoveRouteTable: the routes of an interface go to another table.
use virtnet.Prelude.{
  ℕ, Bool, true, false, not, ◌||◌, List, [], ◌∷◌, Option, none, some, if◌then◌else◌, Text, bytes,
  ok, ◌==◌, text_eq,
}
use virtnet.Ip.{IpNet, nil_ip, v4, v6, ip_equal}
use virtnet.Networking.{
  Netlink, Route, NextHop, scope_universe, Step, Family, family_all, ◌>>=◌, ◌>>◌, pure, forgive,
  is_exist,
}
use virtnet.Networking.Routes.{hop_of}

-- `dst == nil || dst.IP.Equal(net.IPv4zero) || dst.IP.Equal(net.IPv6zero)`
unfoldable pub is_any_default : Option IpNet → Bool
unfolding ip_equal
is_any_default none = true
is_any_default (some dst) = ip_equal dst.ip (v4 0) || ip_equal dst.ip (v6 0)

-- A route with a gateway over a link, as MoveRouteTable makes it.
abbrev pub hop_route : NextHop → ℕ → ℕ → Route
hop_route h table mtu = record {
  link_index = h.link_index;
  scope = scope_universe;
  dst = none;
  src = nil_ip;
  gw = h.gw;
  table = table;
  family = family_all;
  multi_path = [];
  mtu = mtu;
}

-- `route.Dst.String() == "fe80::/64"`; the text of a nil pointer is "<nil>".
abbrev pub is_local_link : (IpNet → Text) → Option IpNet → Bool
is_local_link net_string none = false
is_local_link net_string (some dst) = text_eq (net_string dst) (bytes "fe80::/64")

module _ {S : Type 0} (nl : Netlink S) (net_string : IpNet → Text) (src_table dst_table : ℕ) where
  -- A route of the link: the default route is deleted first.
  unfoldable pub move_own : Route → Step S (Unit {0})
  unfolding is_any_default
  move_own route = (if is_any_default route.dst then nl.route_del route else pure (ok tt)) >> λ s.
      forgive is_exist (nl.route_add (record route { table = dst_table }) s)

  -- A route of several next hops: the one over the link is deleted and added to the new table.
  unfoldable pub move_hop : Route → Option NextHop → Step S (Unit {0})
  move_hop route none = pure (ok tt)
  move_hop route (some h) = nl.route_del (hop_route h src_table 0) >> λ s.
      forgive is_exist (nl.route_add (hop_route h dst_table route.mtu) s)

  -- The loop of MoveRouteTable.
  unfoldable pub move_routes : ℕ → List Route → Step S (Unit {0})
  unfolding move_own move_hop hop_of text_eq
  move_routes index [] = pure (ok tt)
  move_routes index (route ∷ routes) =
      let rest = move_routes index routes in
      if not (route.table == src_table) || is_local_link net_string route.dst
      then rest
      else if route.link_index == index
      then move_own route >> rest
      else move_hop route (hop_of index route.multi_path) >> rest

  -- MoveRouteTable
  unfoldable pub move_route_table : Text → Family → Step S (Unit {0})
  unfolding move_routes
  move_route_table iface family = do
    link ← nl.link_by_name iface
    routes ← nl.route_list none family
    move_routes link.index routes
