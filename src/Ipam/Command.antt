-- ===== src/Ipam/Command.antt =====
-- cmd/ipam/main.go: the commands ADD and DEL of the IPAM plugin, from the agent's answer on.
use virtnet.Prelude.{ℕ, List, [], ◌∷◌, if◌then◌else◌, Text, text_eq, true, Outcome, ok, ◌>>=◌}
use virtnet.Ip.{IpNet, Net, ipv4, ipv6}
use virtnet.Ip.Cidr.{parse_ip}
use virtnet.Ipam.{IpConfig, EnumIpVersion, enum_ipv4, enum_ipv6}

abbrev pub version_of : EnumIpVersion → ℕ
version_of enum_ipv4 = ipv4
version_of enum_ipv6 = ipv6

-- The loop over the answer: the addresses of the interface, with their prefix.
unfoldable pub addresses_for : Net → Text → List IpConfig → Outcome (List IpNet)
unfolding parse_ip text_eq
addresses_for net if_name [] = ok []
addresses_for net if_name (ip ∷ ips) =
    let rest = addresses_for net if_name ips in
    if text_eq ip.nic if_name
    then (do
      address ← parse_ip net (version_of ip.version) ip.address true
      more ← rest
      ok (address ∷ more))
    else rest

-- cmdAdd, on the outcome of Allocate: the addresses of the result that is printed.
unfoldable pub cmd_add : Net → Text → Outcome (List IpConfig) → Outcome (List IpNet)
unfolding addresses_for
cmd_add net if_name reply = do ips ← reply; addresses_for net if_name ips

-- cmdDel, on the outcome of Release
unfoldable pub cmd_del : Outcome (Unit {0}) → Outcome (Unit {0})
cmd_del reply = reply
