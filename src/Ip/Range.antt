-- ===== src/Ip/Range.antt =====
-- pkg/ip/iprange.go: IP ranges as text, and the addresses that they stand for.
use virtnet.Prelude.{
  ℕ, zero, suc, Bool, true, false, not, ◌&&◌, ◌||◌, List, [], ◌∷◌, ◌++◌, ◌==◌, none, some,
  if◌then◌else◌, Text, split, text_eq, Outcome, ok, panic, out_of_fuel, other, require, ◌>>◌, ◌>>=◌,
  length, get_elem?, ◌-◌,
}
use virtnet.Ip.{
  Ip, Net, ipv4, ipv6, cmp, is_greater, is_less, next_ip, is_ip_version, is_ip, net_contains,
}
use virtnet.Ip.Cidr.{parse_cidr}

-- IsIPv4IPRange and IsIPv6IPRange differ in the test of one address only.
unfoldable pub is_range_by : Net → (Text → Bool) → List Text → Bool
unfolding cmp
is_range_by net is_version [] = true
is_range_by net is_version (a ∷ []) = is_version a
is_range_by net is_version (a ∷ b ∷ []) =
    if not (is_version a) || not (is_version b)
    then false
    else not (is_greater (cmp (net.parse_ip a) (net.parse_ip b)))
is_range_by net is_version (a ∷ b ∷ c ∷ rest) = false

unfoldable pub is_ipv4_ip_range : Net → Text → Bool
unfolding is_range_by
is_ipv4_ip_range net ip_range = is_range_by net net.is_ipv4 (split b'-' ip_range)

unfoldable pub is_ipv6_ip_range : Net → Text → Bool
unfolding is_range_by
is_ipv6_ip_range net ip_range = is_range_by net net.is_ipv6 (split b'-' ip_range)

-- IsIPRange
unfoldable pub is_ip_range : Net → ℕ → Text → Outcome (Unit {0})
unfolding is_ip_version is_ipv4_ip_range is_ipv6_ip_range
is_ip_range net version ip_range = do
  is_ip_version version
  require
      (not (
        (version == ipv4 && not (is_ipv4_ip_range net ip_range))
        || (version == ipv6 && not (is_ipv6_ip_range net ip_range))))
      other

-- `for Cmp(cur, end) <= 0 { ips = append(ips, cur); cur = NextIP(cur) }`, with fuel.
unfoldable pub walk : ℕ → Ip → Ip → Outcome (List Ip)
unfolding cmp next_ip
walk zero cur end = out_of_fuel
walk (suc fuel) cur end = elim (is_greater (cmp cur end)) [
  | true ↦ ok []
  | false ↦ do ips ← walk fuel (next_ip cur) end; ok (cur ∷ ips)
]

-- The addresses of the parts of a range that `is_ip_range` has accepted.
unfoldable pub parse_parts : Net → ℕ → List Text → Outcome (List Ip)
unfolding walk
parse_parts net fuel [] = panic
parse_parts net fuel (a ∷ []) = ok (net.parse_ip a ∷ [])
parse_parts net fuel (a ∷ b ∷ rest) = walk fuel (net.parse_ip a) (net.parse_ip b)

-- ParseIPRange
unfoldable pub parse_ip_range : Net → ℕ → ℕ → Text → Outcome (List Ip)
unfolding is_ip_range parse_parts
parse_ip_range net fuel version ip_range = do
  is_ip_range net version ip_range
  parse_parts net fuel (split b'-' ip_range)

-- ParseIPRanges
unfoldable pub parse_ip_ranges : Net → ℕ → ℕ → List Text → Outcome (List Ip)
unfolding parse_ip_range
parse_ip_ranges net fuel version [] = ok []
parse_ip_ranges net fuel version (r ∷ rs) = do
  ips ← parse_ip_range net fuel version r
  sum ← parse_ip_ranges net fuel version rs
  ok (ips ++ sum)

-- `ips[i]`, which panics out of range.
unfoldable pub at_index : List Ip → ℕ → Outcome Ip
at_index ips i = elim (get_elem? ips i) [ none ↦ panic | some ip ↦ ok ip ]

-- ContainsIPRange: the subnet holds the first and the last address.
unfoldable pub contains_ip_range : Net → ℕ → ℕ → Text → Text → Outcome Bool
unfolding parse_cidr parse_ip_range at_index net_contains
contains_ip_range net fuel version subnet ip_range = do
  ip_net ← parse_cidr net version subnet
  ips ← parse_ip_range net fuel version ip_range
  first ← at_index ips 0
  last ← at_index ips (length ips - 1)
  ok (net_contains ip_net first && net_contains ip_net last)

-- The last step of IPRangeContainsIP, on the parts of the range.
unfoldable pub parts_contain : Net → Text → List Text → Text → Bool
unfolding cmp
parts_contain net ip_range (a ∷ []) ip = text_eq ip_range ip
parts_contain net ip_range (a ∷ b ∷ []) ip = not (
    is_greater (cmp (net.parse_ip a) (net.parse_ip ip))
    || is_less (cmp (net.parse_ip b) (net.parse_ip ip)))
parts_contain net ip_range _ ip = true

-- IPRangeContainsIP
unfoldable pub ip_range_contains_ip : Net → ℕ → Text → Text → Outcome Bool
unfolding is_ip_range is_ip parts_contain
ip_range_contains_ip net version ip_range ip = do
  is_ip_range net version ip_range
  is_ip net version ip
  ok (parts_contain net ip_range (split b'-' ip_range) ip)
