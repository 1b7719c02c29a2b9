-- ===== src/Coordinator/HostLaws.antt =====
-- The addresses of the host that a pod gets routes to are different (GetAllHostIPRouteForPod).
use virtnet.Prelude.{◌≡◌, refl, sym, false, List, [], ◌∷◌, ◌++◌, arith, if◌then◌else◌, ok, bytes}
use virtnet.Ip.{Ip, nil_ip, v4, v6, ip_equal}
use virtnet.Networking.{Netlink, Family, in_netns, pure}
use virtnet.Networking.CallLaws.{and_then_ok}
use virtnet.Networking.Addresses.{get_gateway_ip, get_all_ip_address}
use virtnet.Coordinator.HostAddresses.{
  is_listed, gateway_of, add_host_ip, add_host_ips, add_gateways, get_all_host_ip_route_for_pod,
  default_node_interfaces_to_exclude,
}

-- No two addresses of the list are Equal.
unfoldable pub IsDistinct : List Ip → Type 0
IsDistinct [] = Unit
IsDistinct (t ∷ ts) = (is_listed ts t ≡ false) × IsDistinct ts

ip_equal_comm : (a b : Ip) → ip_equal a b ≡ ip_equal b a
unfolding ip_equal
ip_equal_comm nil_ip nil_ip = refl
ip_equal_comm nil_ip (v4 n) = refl
ip_equal_comm nil_ip (v6 n) = refl
ip_equal_comm (v4 m) nil_ip = refl
ip_equal_comm (v4 m) (v4 n) = ground arith
ip_equal_comm (v4 m) (v6 n) = refl
ip_equal_comm (v6 m) nil_ip = refl
ip_equal_comm (v6 m) (v4 n) = refl
ip_equal_comm (v6 m) (v6 n) = ground arith

is_listed-append :
    (ks : List Ip) (a t : Ip)
    → is_listed ks t ≡ false
    → ip_equal a t ≡ false
    → is_listed (ks ++ a ∷ []) t ≡ false
unfolding is_listed
is_listed-append [] a t h e = rw (e) refl
is_listed-append (k ∷ ks) a t h e = ground (arith, is_listed-append ks a t)

append-IsDistinct :
    (ks : List Ip) (t : Ip) → IsDistinct ks → is_listed ks t ≡ false → IsDistinct (ks ++ t ∷ [])
unfolding IsDistinct is_listed
append-IsDistinct [] t d h = (refl, tt)
append-IsDistinct (k ∷ ks) t d h =
    let apart : ip_equal t k ≡ false = rw (ip_equal_comm t k) (ground arith) in
    let rest : is_listed ks t ≡ false = ground arith in
    (is_listed-append ks t k d.0 apart, append-IsDistinct ks t d.1 rest)

add_host_ip-IsDistinct :
    (family : Family) (final : List Ip) (t : Ip)
    → IsDistinct final
    → IsDistinct (add_host_ip family final t)
unfolding add_host_ip
add_host_ip-IsDistinct family final t d = ground (arith, append-IsDistinct final t d)

add_host_ips-IsDistinct :
    (family : Family) (final ts : List Ip)
    → IsDistinct final
    → IsDistinct (add_host_ips family final ts)
unfolding add_host_ips
add_host_ips-IsDistinct family final [] d = d
add_host_ips-IsDistinct family final (t ∷ ts) d =
    add_host_ips-IsDistinct family (add_host_ip family final t) ts
      (add_host_ip-IsDistinct family final t d)

abbrev add_gateway : List Ip → Ip → List Ip
add_gateway final t = if is_listed final t then final else final ++ t ∷ []

add_gateway-IsDistinct :
    (final : List Ip) (t : Ip) → IsDistinct final → IsDistinct (add_gateway final t)
add_gateway-IsDistinct final t d = ground (arith, append-IsDistinct final t d)

module _ {S : Type 0} (nl : Netlink S) (family : Family) where
  add_gateways-IsDistinct :
      (final items : List Ip) (s s2 : S) (more : List Ip)
      → IsDistinct final
      → add_gateways nl family final items s ≡ (ok more, s2)
      → IsDistinct more
  unfolding add_gateways
  add_gateways-IsDistinct final [] s s2 more d h = let e : final ≡ more = cc in rw (sym e) d
  add_gateways-IsDistinct final (item ∷ items) s s2 more d h =
      let (gws, s1, got, rest) = and_then_ok (get_gateway_ip nl (item ∷ []) s) _ more s2 h in
      add_gateways-IsDistinct (add_gateway final (gateway_of family gws)) items s1 s2 more
        (add_gateway-IsDistinct final (gateway_of family gws) d) rest

  -- The addresses that GetAllHostIPRouteForPod gives are different, whatever the calls answer.
  pub get_all_host_ip_route_for_pod-IsDistinct :
      (s s2 : S) (final : List Ip)
      → get_all_host_ip_route_for_pod nl family s ≡ (ok final, s2)
      → IsDistinct final
  unfolding get_all_host_ip_route_for_pod IsDistinct
  get_all_host_ip_route_for_pod-IsDistinct s s2 final h =
      let (pod_ips, s3, got3, h3) =
        and_then_ok (in_netns nl (get_all_ip_address nl family (bytes "^lo$" ∷ [])) s) _ final s2
          h in
      let (gateways, s4, got4, h4) =
        and_then_ok (add_gateways nl family [] pod_ips s3) _ final s2 h3 in
      let (additional, s5, got5, h5) =
        and_then_ok (get_all_ip_address nl family default_node_interfaces_to_exclude s4)
          (λ a. pure (ok (add_host_ips family gateways a))) final s2 h4 in
      let e : add_host_ips family gateways additional ≡ final = cc in
      rw (sym e) (
        add_host_ips-IsDistinct family gateways additional
          (add_gateways-IsDistinct [] pod_ips s3 s4 gateways tt got4))
