-- ===== src/Tests/Moves.antt =====
-- The theorem on MoveRouteTable at a concrete input: two routes of the interface and one of another.
use virtnet.Prelude.{ℕ, ◌≡◌, refl, ◌≢◌, inr, List, [], ◌∷◌, some, none, ok, bytes, All, arith}
use virtnet.Ip.{v4}
use virtnet.Networking.{Netlink, Route, family_v4}
use virtnet.Networking.Moving.{move_route_table}
use virtnet.Networking.MovingLaws.{Tables, moved_to, HasMoved, move_route_table-HasMoved}
use virtnet.Tests.{dotted}
use virtnet.Tests.Hosts.{Host, host, start, to_gateway, eth0, IsRoute, added-IsRoute}

abbrev to_net : Route
to_net = record to_gateway { dst = some (record { ip = v4 0xa000000; ones = 24 }); table = 254 }

abbrev over_other : Route
over_other = record to_net {
  link_index = 3;
  multi_path = record { link_index = 2; gw = v4 1 } ∷ [];
}

abbrev routes : List Route
routes = record to_gateway { table = 254 } ∷ to_net ∷ over_other ∷ []

abbrev moving : Netlink Host
moving = record host { route_list = λ link family s. (ok routes, s) }

tables : Tables moving
tables = record {
  Has = λ s table d. IsRoute table d s.routes;
  added = λ r s s2 h. added-IsRoute r s s2 h;
  kept_add = λ table d r s h. inr h;
  kept_del = λ table d r s apart h. h;
}

apart : ◌≢◌ {A = ℕ} 500 254
apart = omega arith

abbrev after : Host
after = record start {
  routes = (500, none) ∷ (500, some (record { ip = v4 0xa000000; ones = 24 })) ∷ (500, none) ∷ [];
}

move_run :
    move_route_table moving dotted.net_string 254 500 (bytes "eth0") family_v4 start
    ≡ (ok tt, after)
unfolding move_route_table dotted
move_run = refl

move_route_table-HasMoved_example :
    All
      (λ r.
        HasMoved moving tables dotted.net_string 254 500 apart after
          (moved_to moving tables dotted.net_string 254 500 apart eth0.index r))
      routes
move_route_table-HasMoved_example =
    move_route_table-HasMoved moving tables dotted.net_string 254 500 apart (bytes "eth0") family_v4
      eth0 routes start start start after refl refl move_run
