-- ===== src/Networking/Addresses.antt =====
-- pkg/networking/networking/ip.go: addresses and links of the host and of the pod.
use virtnet.Prelude.{
  Bool, true, false, not, ◌&&◌, ◌||◌, List, [], ◌∷◌, ◌++◌, Option, none, some, if◌then◌else◌, Text,
  bytes, Error, Outcome, ok, err, panic, out_of_fuel, other, ◌==◌,
}
use virtnet.Ip.{Ip, IpNet, nil_ip, is_to4, not_to4, ip_equal}
use virtnet.Networking.{
  Netlink, Link, Route, Step, Family, family_v4, family_v6, family_all, ◌>>=◌, ◌>>◌, pure, in_netns,
  forgive,
}

-- The loop of GetIPFamilyByResult: the family of the last address, and which families were seen.
unfoldable pub families_of : List Ip → Option Family → Bool → Bool → Option Family × Bool × Bool
families_of [] family enable_ipv4 enable_ipv6 = (family, enable_ipv4, enable_ipv6)
families_of (ip ∷ ips) family enable_ipv4 enable_ipv6 =
    if is_to4 ip
    then families_of ips (some family_v4) true enable_ipv6
    else families_of ips (some family_v6) enable_ipv4 true

abbrev family_or_all : Option Family × Bool × Bool → Outcome Family
family_or_all (none, _, _) = err other
family_or_all (some family, enable_ipv4, enable_ipv6) =
    if enable_ipv4 && enable_ipv6 then ok family_all else ok family

-- GetIPFamilyByResult, on the names of the interfaces and the addresses of the result.
unfoldable pub get_ip_family_by_result : List Text → List Ip → Outcome Family
unfolding families_of
get_ip_family_by_result [] ips = err other
get_ip_family_by_result (_ ∷ _) ips = family_or_all (families_of ips none false false)

abbrev pub is_nil : Ip → Bool
is_nil nil_ip = true
is_nil _ = false

abbrev pub wants_v4 : Family → Bool
wants_v4 family_v4 = true
wants_v4 family_all = true
wants_v4 _ = false

abbrev pub wants_v6 : Family → Bool
wants_v6 family_v6 = true
wants_v6 family_all = true
wants_v6 _ = false

-- The gateways after one address, whose routes are these.
unfoldable pub gateways_after : Ip → List Route → Ip × Ip → Ip × Ip
gateways_after ip [] gws = gws
gateways_after ip (route ∷ _) (v4_gw, v6_gw) = (
  if is_to4 ip && is_nil v4_gw then route.src else v4_gw,
  if not_to4 ip && is_nil v6_gw then route.src else v6_gw,
)

-- The filter of getAdders on one address.
unfoldable pub is_wanted : (Ip → Bool) → Family → Ip → Bool
is_wanted is_special family ip =
    not (is_special ip) && ((is_to4 ip && wants_v4 family) || (not_to4 ip && wants_v6 family))

unfoldable pub wanted : (Ip → Bool) → Family → List Ip → List Ip
unfolding is_wanted
wanted is_special family [] = []
wanted is_special family (ip ∷ ips) =
    let rest = wanted is_special family ips in
    if is_wanted is_special family ip then ip ∷ rest else rest

-- IPNetEqual on two subnets that are not nil.
unfoldable pub ip_net_equal : IpNet → IpNet → Bool
unfolding ip_equal
ip_net_equal n1 n2 = n1.ones == n2.ones && ip_equal n1.ip n2.ip

-- IPNetEqual, with nil pointers.
unfoldable pub ip_net_equal? : Option IpNet → IpNet → Bool
unfolding ip_net_equal
ip_net_equal? none n = false
ip_net_equal? (some m) n = ip_net_equal m n

module _ {S : Type 0} (nl : Netlink S) where
  -- The loop of GetGatewayIP.
  unfoldable pub gateways_from : List Ip → Ip × Ip → Step S (Ip × Ip)
  unfolding gateways_after
  gateways_from [] gws = pure (ok gws)
  gateways_from (ip ∷ ips) gws = do
    routes ← nl.route_get ip
    gateways_from ips (gateways_after ip routes gws)

  -- GetGatewayIP
  unfoldable pub get_gateway_ip : List Ip → Step S (Ip × Ip)
  unfolding gateways_from
  get_gateway_ip addrs = gateways_from addrs (nil_ip, nil_ip)

  -- getAdders, which GetAddersByLink passes on.
  unfoldable pub get_adders : Link → Family → Step S (List Ip)
  unfolding wanted
  get_adders link family = do
    address ← nl.addr_list link family
    pure (ok (wanted (λ ip. nl.is_multicast ip || nl.is_link_local_unicast ip) family address))

  -- GetAddersByName
  unfoldable pub get_adders_by_name : Text → Family → Step S (List Ip)
  unfolding get_adders
  get_adders_by_name iface family = do link ← nl.link_by_name iface; get_adders link family

  -- IPAddressByName
  unfoldable pub ip_address_by_name : Text → Family → Step S (List Ip)
  unfolding get_adders_by_name
  ip_address_by_name iface family = in_netns nl (get_adders_by_name iface family)

  -- The alternatives of the regular expression, `(a)|(b)`.
  unfoldable pub alternatives : List Text → Text
  alternatives [] = []
  alternatives (e ∷ []) = e
  alternatives (e ∷ f ∷ es) = e ++ bytes ")|(" ++ alternatives (f ∷ es)

  -- The loop of GetAllIPAddress over the links whose name is not excluded.
  unfoldable pub addresses_of_links : (Text → Bool) → Family → List Link → Step S (List Ip)
  unfolding get_adders
  addresses_of_links excluded family [] = pure (ok [])
  addresses_of_links excluded family (link ∷ links) =
      let rest = addresses_of_links excluded family links in
      if excluded link.name
      then rest
      else (do ips ← get_adders link family; more ← rest; pure (ok (ips ++ more)))

  -- GetAllIPAddress, with a list of expressions that is not nil.
  unfoldable pub get_all_ip_address : Family → List Text → Step S (List Ip)
  unfolding alternatives addresses_of_links
  get_all_ip_address family exclude_interface =
      elim (nl.matches (b'(' ∷ alternatives exclude_interface ++ b')' ∷ [])) [
        | none ↦ pure (err other)
        | some excluded ↦ do links ← nl.link_list; addresses_of_links excluded family links
      ]

  abbrev found_or_not : Outcome Link × S → Outcome Bool × S
  found_or_not (ok link, s) = (ok true, s)
  found_or_not (err Error.not_found, s) = (ok false, s)
  found_or_not (err e, s) = (err e, s)
  found_or_not (panic, s) = (panic, s)
  found_or_not (out_of_fuel, s) = (out_of_fuel, s)

  -- isInterfaceExist
  unfoldable pub is_interface_exist : Text → Step S Bool
  is_interface_exist iface s = found_or_not (nl.link_by_name iface s)

  -- CheckInterfaceExist: in the pod's namespace, or in the current one.
  unfoldable pub check_interface_exist : Bool → Text → Step S Bool
  unfolding is_interface_exist
  check_interface_exist true iface = in_netns nl (is_interface_exist iface)
  check_interface_exist false iface = is_interface_exist iface

  -- LinkSetBondSlave
  unfoldable pub link_set_bond_slave : Text → Text → Step S (Unit {0})
  link_set_bond_slave slave bond = do l ← nl.link_by_name slave; nl.link_set_bond_slave l bond

  abbrev is_not_not_exist : Error → Bool
  is_not_not_exist Error.not_found = false
  is_not_not_exist _ = true

  -- LinkAdd: of the errors of the creation only os.IsNotExist counts.
  unfoldable pub link_add : Text → Step S (Unit {0})
  link_add name = (λ s. forgive is_not_not_exist (nl.link_add name s)) >> nl.link_set_up name
