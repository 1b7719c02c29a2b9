-- ===== src/Ip/Cidr.antt =====
-- pkg/ip/cidr.go, and ContainsIP and ParseIP of pkg/ip/ip.go.
use virtnet.Prelude.{
  ℕ, Bool, true, false, not, ◌&&◌, ◌||◌, none, some, leb, ◌==◌, if◌then◌else◌, Text, Outcome, ok,
  panic, other, require, ◌>>◌, ◌>>=◌,
}
use virtnet.Ip.{Ip, IpNet, Net, ipv4, ipv6, is_to4, not_to4, is_ip_version, is_ip, net_contains}

-- IsIPv4CIDR
unfoldable pub is_ipv4_cidr : Net → Text → Bool
is_ipv4_cidr net subnet = elim (net.parse_cidr subnet) [ none ↦ false | some (ip, _) ↦ is_to4 ip ]

-- IsIPv6CIDR
unfoldable pub is_ipv6_cidr : Net → Text → Bool
is_ipv6_cidr net subnet = elim (net.parse_cidr subnet) [ none ↦ false | some (ip, _) ↦ not_to4 ip ]

-- IsCIDR
unfoldable pub is_cidr : Net → ℕ → Text → Outcome (Unit {0})
unfolding is_ip_version is_ipv4_cidr is_ipv6_cidr
is_cidr net version subnet = do
  is_ip_version version
  require
      (not (
        (version == ipv4 && not (is_ipv4_cidr net subnet))
        || (version == ipv6 && not (is_ipv6_cidr net subnet))))
      other

-- `_, ipNet, _ := net.ParseCIDR(subnet)`: a text that does not parse gives a nil pointer, at which
-- the callers would panic.
unfoldable pub cidr_or_panic : Net → Text → Outcome (Ip × IpNet)
cidr_or_panic net subnet = elim (net.parse_cidr subnet) [ none ↦ panic | some c ↦ ok c ]

-- ParseCIDR
unfoldable pub parse_cidr : Net → ℕ → Text → Outcome IpNet
unfolding is_cidr cidr_or_panic
parse_cidr net version subnet = do
  is_cidr net version subnet
  (_, ip_net) ← cidr_or_panic net subnet
  ok ip_net

-- ParseIP: an address with its mask; a single address has the full mask.
unfoldable pub parse_ip : Net → ℕ → Text → Bool → Outcome IpNet
unfolding is_cidr is_ip cidr_or_panic
parse_ip net version s true = do
  is_cidr net version s
  (ip, ip_net) ← cidr_or_panic net s
  ok (record { ip = ip; ones = ip_net.ones })
parse_ip net version s false = do
  is_ip net version s
  ok (record { ip = net.parse_ip s; ones = if version == ipv4 then 32 else 128 })

-- ContainsIP
unfoldable pub contains_ip : Net → ℕ → Text → Text → Outcome Bool
unfolding parse_cidr parse_ip net_contains
contains_ip net version subnet ip = do
  ip_net ← parse_cidr net version subnet
  address ← parse_ip net version ip false
  ok (net_contains ip_net address.ip)

-- containsCIDR on the parsed subnets
unfoldable pub contains_net : IpNet → IpNet → Bool
unfolding net_contains
contains_net net1 net2 = leb net1.ones net2.ones && net_contains net1 net2.ip

-- ContainsCIDR
unfoldable pub contains_cidr : Net → ℕ → Text → Text → Outcome Bool
unfolding is_ip_version is_cidr cidr_or_panic contains_net
contains_cidr net version subnet1 subnet2 = do
  is_ip_version version
  is_cidr net version subnet1
  is_cidr net version subnet2
  (_, net1) ← cidr_or_panic net subnet1
  (_, net2) ← cidr_or_panic net subnet2
  ok (contains_net net1 net2)

-- IsCIDROverlap
unfoldable pub is_cidr_overlap : Net → ℕ → Text → Text → Outcome Bool
unfolding is_ip_version is_cidr cidr_or_panic contains_net
is_cidr_overlap net version subnet1 subnet2 = do
  is_ip_version version
  is_cidr net version subnet1
  is_cidr net version subnet2
  (_, net1) ← cidr_or_panic net subnet1
  (_, net2) ← cidr_or_panic net subnet2
  ok (contains_net net1 net2 || contains_net net2 net1)
